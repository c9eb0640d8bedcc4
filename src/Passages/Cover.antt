-- ===== src/Passages/Cover.antt =====
-- The windows of backend/app/retrieval_passages.py cover their text.
use reading_companion.Prelude.{
  ℕ, zero, suc, ◌+◌, ◌-◌, ◌≤◌, ◌<◌, ◌≡◌, refl, ap, sym, ◌∙◌, subst, max, min, Bool, Option, none,
  some, List, [], ◌∷◌, ◌++◌, ◌==◌, ltb, length, arith, inl, inr, ◌⊎◌, Bool-cases, if-true, if-false,
  ==→eq,
}
use reading_companion.Passages.{
  take, drop, slice, rfind_space, find_space, Window, cut, cut_after, after_space, next_start,
  windows_from, normalize_source, source_passages,
}
use Prim.Native.Char.{Char}

-- the text that the windows hold: each one without what the windows before it have shown
abbrev pub rebuild : ℕ → List Window → List Char
rebuild pos [] = []
rebuild pos (w ∷ ws) = drop (pos - w.start) w.text ++ rebuild w.end ws

drop_all : (n : ℕ) (cs : List Char) → length cs ≤ n → drop n cs ≡ []
drop_all zero [] h = refl
drop_all (suc n) [] h = refl
drop_all zero (c ∷ cs) h = ground arith
drop_all (suc n) (c ∷ cs) h = drop_all n cs (omega (arith, h))

drop_nil : (n : ℕ) → drop n [] ≡ []
drop_nil zero = refl
drop_nil (suc n) = refl

drop-drop : (m n : ℕ) (cs : List Char) → drop m (drop n cs) ≡ drop (n + m) cs
drop-drop m zero cs = ap (λ k. drop k cs) (omega arith)
drop-drop m (suc n) [] = drop_nil m ∙ sym (drop_nil (suc n + m))
drop-drop m (suc n) (c ∷ cs) =
    let next : suc n + m ≡ suc (n + m) = omega arith in
    drop-drop m n cs ∙ sym (ap (λ k. drop k (c ∷ cs)) next)

drop-take : (k m : ℕ) (cs : List Char) → k ≤ m → drop k (take m cs) ++ drop m cs ≡ drop k cs
drop-take zero zero cs h = refl
drop-take zero (suc m) [] h = refl
drop-take zero (suc m) (c ∷ cs) h = ap (λ t. c ∷ t) (drop-take zero m cs (omega arith))
drop-take (suc k) zero cs h = ground arith
drop-take (suc k) (suc m) [] h = refl
drop-take (suc k) (suc m) (c ∷ cs) h = drop-take k m cs (omega (arith, h))

rfind_space-within :
    (text : List Char) (low count b : ℕ)
    → rfind_space text low count ≡ some b
    → (low ≤ b) × (b < low + count)
rfind_space-within text low zero b h = cc
rfind_space-within text low (suc k) b h = ground (arith, rfind_space-within text low k b)

find_space-within :
    (text : List Char) (low count b : ℕ)
    → find_space text low count ≡ some b
    → (low ≤ b) × (b < low + count)
find_space-within text low zero b h = cc
find_space-within text low (suc k) b h = ground (arith, find_space-within text (low + 1) k b)

cut_after-within :
    (start end : ℕ) (r : Option ℕ)
    → start + 750 ≤ end
    → ((b : ℕ) → r ≡ some b → (start + 750 ≤ b) × (b < end))
    → (start + 750 ≤ cut_after start end r) × (cut_after start end r ≤ end)
cut_after-within start end none h w = (h, omega arith)
cut_after-within start end (some b) h w = let (l, u) = w b refl in ground (arith, l, u)

-- A window is not empty, not longer than the limit, and but for the last one holds half of it.
pub record IsCut (text : List Char) (start end : ℕ) : Type 0 where
  pub later : start < end
  pub inside : end ≤ length text
  pub bounded : end ≤ start + 1500
  pub half : (end ≡ length text) ⊎ (start + 750 ≤ end)

pub cut-IsCut :
    (text : List Char) (start : ℕ) → start < length text → IsCut text start (cut text start)
cut-IsCut text start h = elim (Bool-cases (ltb (min (start + 1500) (length text)) (length text))) [
  | inr f ↦
      let e : min (start + 1500) (length text) ≡ length text = ground (arith, f) in
      subst (IsCut text start)
        (sym (if-false (ltb (min (start + 1500) (length text)) (length text)) _ _ f))
        (record {
          later = omega (arith, e, h);
          inside = omega (arith, e);
          bounded = omega (arith, e);
          half = inl e;
        })
  | inl t ↦
      let e : min (start + 1500) (length text) ≡ start + 1500 = ground (arith, t) in
      let (lower, upper) =
        cut_after-within start (min (start + 1500) (length text))
          (rfind_space text (start + 750) (min (start + 1500) (length text) - (start + 750)))
          (omega (arith, e))
          (λ b r.
            let (l, u) = rfind_space-within text (start + 750) _ b r in (l, omega (arith, u, e))) in
      subst (IsCut text start)
        (sym (if-true (ltb (min (start + 1500) (length text)) (length text)) _ _ t))
        (record {
          later = omega (arith, lower);
          inside = omega (arith, upper, e);
          bounded = omega (arith, upper, e);
          half = inr lower;
        })
]

after_space-within :
    (next end : ℕ) (r : Option ℕ)
    → next ≤ end
    → ((b : ℕ) → r ≡ some b → (next ≤ b) × (b < end))
    → (next ≤ after_space next r) × (after_space next r ≤ end)
after_space-within next end none h w = (omega arith, h)
after_space-within next end (some b) h w =
    let (l, u) = w b refl in (omega (arith, l), omega (arith, u))

-- The next window begins later, and leaves no gap.
next_start-within :
    (text : List Char) (start end : ℕ)
    → start < end
    → (start < next_start text start end)
      × (next_start text start end ≤ end)
      × (end ≤ next_start text start end + 250)
next_start-within text start end h =
    let next = max (start + 1) (end - 250) in
    let (l, u) =
      after_space-within next end (find_space text next (end - next)) (omega (arith, h)) (λ b r.
        let (l, u) = find_space-within text next (end - next) b r in (l, omega (arith, u))) in
    (omega (arith, l), u, omega (arith, l))

-- A window, and what follows its end, is what follows its start.
drop-slice :
    (pos start end : ℕ) (text : List Char)
    → start ≤ pos
    → pos ≤ end
    → drop (pos - start) (slice start end text) ++ drop end text ≡ drop pos text
drop-slice pos start end text l u =
    let e1 : start + (end - start) ≡ end = omega (arith, l, u) in
    let e2 : start + (pos - start) ≡ pos = omega (arith, l) in
    ap (λ k. drop (pos - start) (slice start end text) ++ drop k text) (sym e1)
    ∙ ap (λ rest. drop (pos - start) (slice start end text) ++ rest)
        (sym (drop-drop (end - start) start text))
    ∙ drop-take (pos - start) (end - start) (drop start text) (omega (arith, l, u))
    ∙ drop-drop (pos - start) start text
    ∙ ap (λ k. drop k text) e2

module _ (text : List Char) where
  rebuild-windows :
      (fuel start pos : ℕ)
      → length text ≤ start + fuel
      → start ≤ pos
      → pos ≤ start + 250
      → pos ≤ length text
      → rebuild pos (windows_from text fuel start) ≡ drop pos text
  unfolding windows_from
  rebuild-windows zero start pos enough l u i = sym (drop_all pos text (omega (arith, enough, l)))
  rebuild-windows (suc fuel) start pos enough l u i = elim (Bool-cases (ltb start (length text))) [
    | inr f ↦
        ap (rebuild pos) (if-false (ltb start (length text)) _ [] f)
        ∙ sym (drop_all pos text (ground (arith, f, l)))
    | inl t ↦
        let lt : start < length text = ground (arith, t) in
        let end = cut text start in
        let c = cut-IsCut text start lt in
        let low : pos ≤ end = elim c.half [
          | inl e ↦ omega (arith, e, i)
          | inr h ↦ omega (arith, h, u)
        ] in
        let (a, b, d) = next_start-within text start end c.later in
        let rest =
          rebuild-windows fuel (next_start text start end) end (omega (arith, enough, a)) b d
            c.inside in
        ap (rebuild pos) (if-true (ltb start (length text)) _ [] t)
        ∙ ap (λ r. drop (pos - start) (slice start end text) ++ r)
            (elim (Bool-cases (end == length text)) [
              | inl e ↦
                  ap (rebuild end) (if-true (end == length text) [] _ e)
                  ∙ sym (drop_all end text (omega (arith, ==→eq end (length text) e)))
              | inr n ↦ ap (rebuild end) (if-false (end == length text) [] _ n) ∙ rest
            ])
        ∙ drop-slice pos start end text l low
  ]

-- The windows of any text, joined without what each repeats of the one before it, are the normalised
-- text: the loop comes to its end within one round for every character, and no character is lost.
pub source_passages_roundtrip :
    (is_white : Char → Bool) (text : List Char)
    → rebuild 0 (source_passages is_white text) ≡ normalize_source is_white text
unfolding source_passages
source_passages_roundtrip is_white text =
    let t = normalize_source is_white text in
    rebuild-windows t (length t) 0 0 (omega arith) (omega arith) (omega arith) (omega arith)
