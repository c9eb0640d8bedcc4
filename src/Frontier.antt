-- ===== src/Frontier.antt =====
-- backend/app/reader/frontier.py: the map from a reading position to the integer bookmark that the
-- memory reads take. Positions are offsets from 0, as the position route admits them.
pub mod Bounds
pub mod Bookmark
pub mod Alignment
mod Tests
use reading_companion.Prelude.{
  ℕ, zero, suc, ◌+◌, ◌-◌, ◌*◌, max, Bool, true, false, ◌&&◌, ◌||◌, List, [], ◌∷◌, ltb, leb, ◌==◌,
  if◌then◌else◌, length, get_elem?, Option, none, some, Result, ok, err, ◌>>=◌, ◌>>◌, require, ℤ,
  pos, negsuc,
}

pub data FrontierError : Type 0 where
  empty_atom : (ordinal : ℕ) → FrontierError
  atom_count_mismatch : (ranges atoms : ℕ) → FrontierError
  ordinals_not_contiguous : FrontierError

-- one chapter's `[start, end)`
abbrev pub Range : Type 0
Range = ℕ × ℕ

-- the loop of `chapter_bounds`, at ordinal `i` with `acc` characters behind
pub bounds_from : ℕ → ℕ → List ℤ → Result FrontierError (List Range)
bounds_from i acc [] = ok []
bounds_from i acc (pos (suc n) ∷ rest) = do
  bounds ← bounds_from (i + 1) (acc + suc n) rest
  ok ((acc, acc + suc n) ∷ bounds)
bounds_from i acc (pos zero ∷ rest) = err (empty_atom i)
bounds_from i acc (negsuc n ∷ rest) = err (empty_atom i)

unfoldable pub chapter_bounds : List ℤ → Result FrontierError (List Range)
unfolding bounds_from
chapter_bounds lengths = bounds_from 1 0 lengths

-- `revealed_ats` is a list of ordinals, or an int in the older count-only form
pub data RevealedAts : Type 0 where
  count_only : ℕ → RevealedAts
  ordinals : List ℕ → RevealedAts

-- `sorted(revealed_ats)`
pub insert : ℕ → List ℕ → List ℕ
insert x [] = x ∷ []
insert x (y ∷ ys) = if leb x y then x ∷ y ∷ ys else y ∷ insert x ys

pub sorted : List ℕ → List ℕ
unfolding insert
sorted [] = []
sorted (x ∷ xs) = insert x (sorted xs)

-- `range(from, from + n)`
unfoldable pub range : ℕ → ℕ → List ℕ
range from zero = []
range from (suc n) = from ∷ range (suc from) n

unfoldable pub same_list : List ℕ → List ℕ → Bool
same_list [] [] = true
same_list (x ∷ xs) (y ∷ ys) = x == y && same_list xs ys
same_list _ _ = false

abbrev check_ordinals : ℕ → RevealedAts → Result FrontierError (Unit {0})
unfolding sorted range same_list
check_ordinals n (count_only _) = ok tt
check_ordinals n (ordinals rs) = require (same_list (sorted rs) (range 1 n)) ordinals_not_contiguous

abbrev atoms_of : RevealedAts → ℕ
atoms_of (count_only n) = n
atoms_of (ordinals rs) = length rs

unfoldable pub assert_aligned : List Range → RevealedAts → Result FrontierError (Unit {0})
unfolding sorted range same_list
assert_aligned bounds revealed_ats = do
  let n = atoms_of revealed_ats
  require (length bounds == n) (atom_count_mismatch (length bounds) n)
  check_ordinals n revealed_ats

unfoldable pub cfi_to_bookmark : ℕ → List Range → ℕ
cfi_to_bookmark position [] = 0
cfi_to_bookmark position ((s, e) ∷ bounds) =
    (if leb e position then 1 else 0) + cfi_to_bookmark position bounds

unfoldable pub bookmark_high_water : ℕ → ℕ → List Range → ℕ
bookmark_high_water prev_bookmark position bounds =
    max prev_bookmark (cfi_to_bookmark position bounds)

-- the `enumerate` loop of `current_chapter`; past the last range it is `len(bounds) + 1`
pub chapter_from : ℕ → ℕ → List Range → ℕ
chapter_from i position [] = i
chapter_from i position ((s, e) ∷ bounds) =
    if leb s position && ltb position e then i else chapter_from (i + 1) position bounds

unfoldable pub current_chapter : ℕ → List Range → ℕ
unfolding chapter_from
current_chapter position bounds = chapter_from 1 position bounds

-- an exact fraction, as numerator and denominator
abbrev pub Fraction : Type 0
Fraction = ℕ × ℕ

abbrev fraction_in : ℕ → Option Range → Fraction
fraction_in position none = (1, 1)
fraction_in position (some (s, e)) = if ltb s e then (position - s, e - s) else (1, 1)

unfoldable pub chapter_progress : ℕ → List Range → Fraction
unfolding current_chapter
chapter_progress position bounds =
    let ch = current_chapter position bounds in
    if ltb (length bounds) ch then (1, 1) else fraction_in position (get_elem? bounds (ch - 1))

-- `<=` on fractions whose denominators are positive
unfoldable pub fraction_le : Fraction → Fraction → Bool
fraction_le (a, b) (c, d) = leb (a * d) (c * b)

unfoldable pub subchapter_visible :
    (fact_chapter : ℕ) → Fraction → (bm_chapter : ℕ) → Fraction → Bool
unfolding fraction_le
subchapter_visible fact_chapter fact_subpos bm_chapter bm_offset =
    ltb fact_chapter bm_chapter || (fact_chapter == bm_chapter && fraction_le fact_subpos bm_offset)
