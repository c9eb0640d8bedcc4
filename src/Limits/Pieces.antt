-- ===== src/Limits/Pieces.antt =====
-- The pieces of backend/app/cost/limits.py make up their text, and each fits its limit.
use reading_companion.Prelude.{
  ℕ, zero, suc, ◌+◌, ◌-◌, ◌/◌, ◌≤◌, ◌<◌, ◌≡◌, refl, ap, sym, ◌∙◌, subst, max, Bool, true, false,
  Option, List, [], ◌∷◌, ◌++◌, all, All, length, leb, leb→le, ltb, Result, ok, err, arith, if-false,
  if-either, if-split, append_assoc, append-nil, require, pass,
}
use reading_companion.Passages.{take, drop}
use reading_companion.Limits.Split.{
  SplitError, limit_too_small, metadata_exceeds_ceiling, bytes, take_fit, boundary, shortened,
  is_empty, add_chunk, chunks_from, split_bytes, concat, estimate_input_tokens,
  split_text_for_prompt,
}
use Prim.Native.Char.{Char, len_utf8}

-- the first part of a text
pub record IsPrefix (part whole : List Char) : Type 0 where
  pub rest : List Char
  pub split : whole ≡ part ++ rest

IsPrefix-whole : (text : List Char) → IsPrefix text text
IsPrefix-whole text = record { rest = []; split = sym (append-nil text) }

take_fit-IsPrefix : (limit : ℕ) (text : List Char) → IsPrefix (take_fit limit text) text
take_fit-IsPrefix limit [] = record { rest = []; split = refl }
take_fit-IsPrefix limit (c ∷ cs) =
    let more = take_fit-IsPrefix (limit - len_utf8 c) cs in
    if-either (λ part. IsPrefix part (c ∷ cs)) (leb (len_utf8 c) limit) _ []
      (record { rest = more.rest; split = ap (λ t. c ∷ t) more.split })
      (record { rest = c ∷ cs; split = refl })

take-IsPrefix : (n : ℕ) (text : List Char) → IsPrefix (take n text) text
take-IsPrefix zero text = record { rest = text; split = refl }
take-IsPrefix (suc n) [] = record { rest = []; split = refl }
take-IsPrefix (suc n) (c ∷ cs) =
    let more = take-IsPrefix n cs in record { rest = more.rest; split = ap (λ t. c ∷ t) more.split }

bytes-take_fit : (limit : ℕ) (text : List Char) → bytes (take_fit limit text) ≤ limit
bytes-take_fit limit [] = omega arith
bytes-take_fit limit (c ∷ cs) = ground (arith, bytes-take_fit (limit - len_utf8 c) cs)

bytes-take : (n : ℕ) (text : List Char) → bytes (take n text) ≤ bytes text
bytes-take zero text = omega arith
bytes-take (suc n) [] = omega arith
bytes-take (suc n) (c ∷ cs) = omega (arith, bytes-take n cs)

drop-part : (part rest : List Char) → drop (length part) (part ++ rest) ≡ rest
drop-part [] rest = refl
drop-part (c ∷ part) rest = drop-part part rest

shortened-IsPrefix : (candidate : List Char) → IsPrefix (shortened candidate) candidate
shortened-IsPrefix candidate =
    if-either (λ part. IsPrefix part candidate)
      (leb (suc (max 1 (length candidate / 2))) (boundary candidate)) _ candidate
      (take-IsPrefix (boundary candidate) candidate) (IsPrefix-whole candidate)

bytes-shortened : (candidate : List Char) → bytes (shortened candidate) ≤ bytes candidate
bytes-shortened candidate =
    if-either (λ part. bytes part ≤ bytes candidate)
      (leb (suc (max 1 (length candidate / 2))) (boundary candidate)) _ candidate
      (bytes-take (boundary candidate) candidate) (omega arith)

take-some : (n : ℕ) (c : Char) (cs : List Char) → 1 ≤ n → is_empty (take n (c ∷ cs)) ≡ false
take-some zero c cs h = ground arith
take-some (suc n) c cs h = refl

shortened-some : (c : Char) (cs : List Char) → is_empty (shortened (c ∷ cs)) ≡ false
shortened-some c cs =
    if-split (λ part. is_empty part ≡ false)
      (leb (suc (max 1 (length (c ∷ cs) / 2))) (boundary (c ∷ cs))) _ (c ∷ cs)
      (λ t. take-some (boundary (c ∷ cs)) c cs (
        let l = leb→le (suc (max 1 (length (c ∷ cs) / 2))) (boundary (c ∷ cs)) t in
        omega (arith, l)))
      (λ f. refl)

IsPrefix-comp : (a b c : List Char) → IsPrefix a b → IsPrefix b c → IsPrefix a c
IsPrefix-comp a b c p q = record {
  rest = p.rest ++ q.rest;
  split = q.split ∙ ap (λ t. t ++ q.rest) p.split ∙ append_assoc a p.rest q.rest;
}

length-part : (part rest : List Char) → length (part ++ rest) ≡ length part + length rest
length-part [] rest = omega arith
length-part (c ∷ part) rest = omega (arith, length-part part rest)

some-length : (part : List Char) → is_empty part ≡ false → 1 ≤ length part
some-length [] h = cc
some-length (c ∷ part) h = omega arith

all-rest :
    (p : Char → Bool) (part rest : List Char) → all p (part ++ rest) ≡ true → all p rest ≡ true
all-rest p [] rest h = h
all-rest p (c ∷ part) rest h = all-rest p part rest (ground (arith, h))

-- A chunk of what remains: not empty, within the limit, and followed by the rest.
pub record IsChunk (limit : ℕ) (remaining chunk : List Char) : Type 0 where
  pub some : is_empty chunk ≡ false
  pub fits : bytes chunk ≤ limit
  pub first : IsPrefix chunk remaining

shortened-IsChunk :
    (limit : ℕ) (remaining : List Char)
    → is_empty remaining ≡ false
    → all (λ c. leb (len_utf8 c) limit) remaining ≡ true
    → IsChunk limit remaining (shortened (take_fit limit remaining))
shortened-IsChunk limit [] e h = cc
shortened-IsChunk limit (c ∷ cs) e h =
    let fit = take_fit limit (c ∷ cs) in
    let one : fit ≡ c ∷ take_fit (limit - len_utf8 c) cs = ground (arith, h) in
    record {
      some =
          ap (λ t. is_empty (shortened t)) one
          ∙ shortened-some c (take_fit (limit - len_utf8 c) cs);
      fits = omega (arith, bytes-shortened fit, bytes-take_fit limit (c ∷ cs));
      first =
          IsPrefix-comp (shortened fit) fit (c ∷ cs) (shortened-IsPrefix fit)
            (take_fit-IsPrefix limit (c ∷ cs));
    }

-- Chunks that make up a text, each within the limit.
pub record IsSplit (limit : ℕ) (text : List Char) (r : Result SplitError (List (List Char)))
    : Type 0 where
  pub chunks : List (List Char)
  pub returned : r ≡ ok chunks
  pub whole : concat chunks ≡ text
  pub fit : All (λ c. bytes c ≤ limit) chunks

one-IsSplit :
    (limit : ℕ) (text : List Char) → bytes text ≤ limit → IsSplit limit text (ok (text ∷ []))
one-IsSplit limit text h = record {
  chunks = text ∷ [];
  returned = refl;
  whole = append-nil text;
  fit = (h, tt);
}

add_chunk-IsSplit :
    (limit : ℕ) (chunk rest : List Char) (r : Result SplitError (List (List Char)))
    → bytes chunk ≤ limit
    → IsSplit limit rest r
    → IsSplit limit (chunk ++ rest) (add_chunk chunk r)
add_chunk-IsSplit limit chunk rest r h s = record {
  chunks = chunk ∷ s.chunks;
  returned = ap (add_chunk chunk) s.returned;
  whole = ap (λ t. chunk ++ t) s.whole;
  fit = (h, s.fit);
}

chunks_from-IsSplit :
    (limit fuel : ℕ) (remaining : List Char)
    → length remaining < fuel
    → all (λ c. leb (len_utf8 c) limit) remaining ≡ true
    → IsSplit limit remaining (chunks_from limit fuel remaining)
unfolding chunks_from
chunks_from-IsSplit limit zero remaining l h = ground arith
chunks_from-IsSplit limit (suc fuel) [] l h = record {
  chunks = [];
  returned = refl;
  whole = refl;
  fit = tt;
}
chunks_from-IsSplit limit (suc fuel) (c ∷ cs) l h =
    let remaining = c ∷ cs in
    let chunk = shortened (take_fit limit remaining) in
    let k = shortened-IsChunk limit remaining refl h in
    let tail = ap (drop (length chunk)) k.first.split ∙ drop-part chunk k.first.rest in
    let size = ap length k.first.split ∙ length-part chunk k.first.rest in
    let next =
      chunks_from-IsSplit limit fuel k.first.rest (omega (arith, size, some-length chunk k.some, l))
        (all-rest (λ c'. leb (len_utf8 c') limit) chunk k.first.rest
          (ap (all (λ c'. leb (len_utf8 c') limit)) (sym k.first.split) ∙ h)) in
    if-split (IsSplit limit remaining) (leb (bytes remaining) limit) _ _
      (λ t. one-IsSplit limit remaining (leb→le (bytes remaining) limit t))
      (λ f.
        subst (IsSplit limit remaining)
          (sym (
            if-false (is_empty chunk) (err limit_too_small)
              (add_chunk chunk (chunks_from limit fuel (drop (length chunk) remaining))) k.some))
          (subst
            (λ t.
              IsSplit limit t
                (add_chunk chunk (chunks_from limit fuel (drop (length chunk) remaining))))
            (sym k.first.split)
            (add_chunk-IsSplit limit chunk k.first.rest _ k.fits (
              subst (λ t. IsSplit limit k.first.rest (chunks_from limit fuel t)) (sym tail) next))))

split_bytes-IsSplit :
    (text : List Char) (limit : ℕ)
    → all (λ c. leb (len_utf8 c) limit) text ≡ true
    → IsSplit limit text (split_bytes text limit)
unfolding split_bytes
split_bytes-IsSplit text limit h =
    if-split (IsSplit limit text) (leb (bytes text) limit) _ _
      (λ t. one-IsSplit limit text (leb→le (bytes text) limit t))
      (λ f. chunks_from-IsSplit limit (suc (length text)) text (omega arith) h)

-- A chapter is split to its end where its prompt leaves room for every single character: the pieces,
-- joined, are exactly the chapter, and the estimate of the prompt with each piece is within the ceiling.
pub split_text_for_prompt-whole :
    (text prompt system : List Char) (max_input_tokens : ℕ) (schema : Option ℕ)
    → estimate_input_tokens system prompt schema < max_input_tokens
    → all
        (λ c. leb (len_utf8 c) (max_input_tokens - estimate_input_tokens system prompt schema))
        text
      ≡ true
    → (chunks : List (List Char)) × (split_text_for_prompt text prompt system max_input_tokens
          schema
        ≡ ok chunks)
      × (concat chunks ≡ text)
      × All (λ c. estimate_input_tokens system prompt schema + bytes c ≤ max_input_tokens) chunks
unfolding split_text_for_prompt
split_text_for_prompt-whole text prompt system max_input_tokens schema room h =
    let overhead = estimate_input_tokens system prompt schema in
    let fits : ltb overhead max_input_tokens ≡ true = ground (arith, room) in
    let s = split_bytes-IsSplit text (max_input_tokens - overhead) h in
    (
      s.chunks,
      pass (require (ltb overhead max_input_tokens) metadata_exceeds_ceiling)
            (ap (λ t. require t metadata_exceeds_ceiling) fits)
          ∙ s.returned,
      s.whole,
      each overhead max_input_tokens s.chunks room s.fit,
    )
  where
    each :
        (o m : ℕ) (chunks : List (List Char))
        → o < m
        → All (λ c. bytes c ≤ m - o) chunks
        → All (λ c. o + bytes c ≤ m) chunks
    each o m [] l f = tt
    each o m (c ∷ chunks) l (f, fs) = (omega (arith, l, f), each o m chunks l fs)
