-- ===== src/Passages.antt =====
-- The source windows of backend/app/retrieval_passages.py. A text is a list of characters; which
-- of them `str.split` takes as white space is a parameter, and so is the size of a text in UTF-8.
pub mod Cover
pub mod Batches
pub mod Partition
mod Tests
use reading_companion.Prelude.{
  ℕ, zero, suc, ◌+◌, ◌-◌, max, min, Bool, true, false, not, ◌&&◌, Option, none, some, List, [], ◌∷◌,
  ◌++◌, ◌==◌, ltb, leb, if◌then◌else◌, length, Result, ok, err, ◌>>=◌, ◌>>◌, require,
}
use Prim.Native.Char.{Char, code}

abbrev pub passage_chars : ℕ
passage_chars = 1500

abbrev pub passage_overlap : ℕ
passage_overlap = 250

abbrev pub is_space : Char → Bool
is_space c = code c == b' '

abbrev pub take : ℕ → List Char → List Char
take zero cs = []
take (suc n) [] = []
take (suc n) (c ∷ cs) = c ∷ take n cs

abbrev pub drop : ℕ → List Char → List Char
drop zero cs = cs
drop (suc n) [] = []
drop (suc n) (c ∷ cs) = drop n cs

-- `text[start:end]`
abbrev pub slice : ℕ → ℕ → List Char → List Char
slice start end text = take (end - start) (drop start text)

abbrev pub space_at : List Char → ℕ → Bool
space_at [] i = false
space_at (c ∷ cs) zero = is_space c
space_at (c ∷ cs) (suc i) = space_at cs i

-- `text.rfind(" ", low, low + count)` and `text.find(" ", low, low + count)`
abbrev pub rfind_space : List Char → (low count : ℕ) → Option ℕ
rfind_space text low zero = none
rfind_space text low (suc k) =
    if space_at text (low + k) then some (low + k) else rfind_space text low k

abbrev pub find_space : List Char → (low count : ℕ) → Option ℕ
find_space text low zero = none
find_space text low (suc k) =
    let rest = find_space text (low + 1) k in if space_at text low then some low else rest

pub record Window : Type 0 where
  pub start : ℕ
  pub end : ℕ
  pub text : List Char

abbrev pub cut_after : (start end : ℕ) → Option ℕ → ℕ
cut_after start end none = end
cut_after start end (some boundary) = if ltb start boundary then boundary else end

-- the end of the window that begins at `start`
abbrev pub cut : List Char → (start : ℕ) → ℕ
cut text start =
    let end = min (start + passage_chars) (length text) in
    if ltb end (length text)
    then cut_after start end (rfind_space text (start + 750) (end - (start + 750)))
    else end

abbrev pub after_space : ℕ → Option ℕ → ℕ
after_space next none = next
after_space next (some boundary) = boundary + 1

-- the start of the window after the one that ends at `end`
abbrev pub next_start : List Char → (start end : ℕ) → ℕ
next_start text start end =
    let next = max (start + 1) (end - passage_overlap) in
    after_space next (find_space text next (end - next))

-- the loop of `passage_windows`, on fuel
unfoldable pub windows_from : List Char → (fuel start : ℕ) → List Window
windows_from text zero start = []
windows_from text (suc fuel) start =
    let end = cut text start in
    let rest = windows_from text fuel (next_start text start end) in
    if ltb start (length text)
    then record { start = start; end = end; text = slice start end text }
      ∷ (if end == length text then [] else rest)
    else []

-- `" ".join(words)`
abbrev pub join : List (List Char) → List Char
join [] = []
join (w ∷ []) = w
join (w ∷ v ∷ ws) = w ++ (" " ∷ join (v ∷ ws))

module _ (is_white : Char → Bool) where
  abbrev pub begins_white : List Char → Bool
  begins_white [] = true
  begins_white (c ∷ cs) = is_white c

  abbrev pub prepend : Char → List (List Char) → List (List Char)
  prepend c [] = (c ∷ []) ∷ []
  prepend c (w ∷ ws) = (c ∷ w) ∷ ws

  -- `text.split()`
  abbrev pub split : List Char → List (List Char)
  split [] = []
  split (c ∷ cs) =
      let rest = split cs in
      if is_white c then rest else if begins_white cs then (c ∷ []) ∷ rest else prepend c rest

  unfoldable pub normalize_source : List Char → List Char
  normalize_source text = join (split text)

  -- `passage_windows` and `source_passages`, on fuel for every character
  unfoldable pub source_passages : List Char → List Window
  source_passages text = let t = normalize_source text in windows_from t (length t) 0
