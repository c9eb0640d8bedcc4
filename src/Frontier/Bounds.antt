-- ===== src/Frontier/Bounds.antt =====
-- The ranges that `chapter_bounds` builds tile the book, one for each chapter atom.
use reading_companion.Prelude.{
  ◌++◌, ◌∙◌, refl, err, ℕ, zero, suc, ◌+◌, ◌<◌, ◌≡◌, List, [], ◌∷◌, arith, length, ok, bind-returns,
  ℤ, pos, negsuc, total,
}
use reading_companion.Frontier.{Range, empty_atom, bounds_from, chapter_bounds}

-- Each range is non-empty and starts where the one before it ended.
abbrev pub Tiles : ℕ → List Range → Type 0
Tiles acc [] = Unit
Tiles acc ((s, e) ∷ bounds) = (s ≡ acc) × (s < e) × Tiles e bounds

-- The end of the last range.
abbrev pub book_end : ℕ → List Range → ℕ
book_end acc [] = acc
book_end acc ((s, e) ∷ bounds) = book_end e bounds

abbrev pub chars : ℤ → ℕ
chars (pos n) = n
chars (negsuc n) = 0

abbrev pub AllPositive : List ℤ → Type 0
AllPositive [] = Unit
AllPositive (z ∷ zs) = (0 < chars z) × AllPositive zs

pub record IsLayout (acc : ℕ) (lengths : List ℤ) (bounds : List Range) : Type 0 where
  pub tiles : Tiles acc bounds
  pub one_each : length bounds ≡ length lengths
  pub whole_book : book_end acc bounds ≡ acc + total chars lengths
  pub positive : AllPositive lengths

bounds_from-IsLayout :
    (i acc : ℕ) (lengths : List ℤ) (bounds : List Range)
    → bounds_from i acc lengths ≡ ok bounds
    → IsLayout acc lengths bounds
unfolding bounds_from
bounds_from-IsLayout i acc [] [] h = omega arith
bounds_from-IsLayout i acc [] (b ∷ bs) h = cc
bounds_from-IsLayout i acc (pos zero ∷ rest) bounds h = cc
bounds_from-IsLayout i acc (negsuc n ∷ rest) bounds h = cc
bounds_from-IsLayout i acc (pos (suc n) ∷ rest) bounds h =
    let (more, made, built) = bind-returns (bounds_from (i + 1) (acc + suc n) rest) h in
    ground (arith, bounds_from-IsLayout (i + 1) (acc + suc n) rest more made)

-- When `chapter_bounds` returns, its ranges are non-empty, tile the book from offset 0 in order, are
-- one for each atom, end at the sum of the lengths, and every length was positive.
pub chapter_bounds-IsLayout :
    (lengths : List ℤ) (bounds : List Range)
    → chapter_bounds lengths ≡ ok bounds
    → IsLayout 0 lengths bounds
unfolding chapter_bounds
chapter_bounds-IsLayout lengths bounds h = bounds_from-IsLayout 1 0 lengths bounds h

bounds_from-total :
    (i acc : ℕ) (lengths : List ℤ)
    → AllPositive lengths
    → (bounds : List Range) × (bounds_from i acc lengths ≡ ok bounds)
unfolding bounds_from
bounds_from-total i acc [] h = ([], refl)
bounds_from-total i acc (pos zero ∷ rest) h = absurd (omega arith)
bounds_from-total i acc (negsuc n ∷ rest) h = absurd (omega arith)
bounds_from-total i acc (pos (suc n) ∷ rest) h =
    let (more, made) = bounds_from-total (i + 1) (acc + suc n) rest h.1 in
    ((acc, acc + suc n) ∷ more, rw made)

bounds_from-raises :
    (i acc : ℕ) (before : List ℤ) (z : ℤ) (after : List ℤ)
    → AllPositive before
    → chars z ≡ 0
    → bounds_from i acc (before ++ z ∷ after) ≡ err (empty_atom (i + length before))
unfolding bounds_from
bounds_from-raises i acc [] (pos zero) after h e = ground arith
bounds_from-raises i acc [] (pos (suc n)) after h e = absurd (omega arith)
bounds_from-raises i acc [] (negsuc n) after h e = ground arith
bounds_from-raises i acc (pos zero ∷ rest) z after h e = absurd (omega arith)
bounds_from-raises i acc (negsuc n ∷ rest) z after h e = absurd (omega arith)
bounds_from-raises i acc (pos (suc n) ∷ rest) z after h e =
    rw (bounds_from-raises (i + 1) (acc + suc n) rest z after h.1 e) (ground arith)

-- `chapter_bounds` returns whenever every length is positive, and otherwise raises the error that
-- names the 1-based ordinal of the first length that is zero or negative.
pub chapter_bounds_outcome :
    (before : List ℤ) (z : ℤ) (after : List ℤ)
    → AllPositive before
    → chars z ≡ 0
    → ((bounds : List Range) × (chapter_bounds before ≡ ok bounds))
      × (chapter_bounds (before ++ z ∷ after) ≡ err (empty_atom (length before + 1)))
unfolding chapter_bounds
chapter_bounds_outcome before z after h e =
    (bounds_from-total 1 0 before h, bounds_from-raises 1 0 before z after h e ∙ ground arith)
