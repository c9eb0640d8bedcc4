-- ===== src/Frontier/Tests.antt =====
-- Small books on which the theorems of the frontier are applied.
use reading_companion.Prelude.{
  ◌-◌, ◌≡◌, ◌≤◌, ◌+◌, ◌↔◌, refl, true, List, [], ◌∷◌, arith, length, ok, err, ◌++◌, ℤ, pos, negsuc,
}
use reading_companion.Frontier.{
  Range, empty_atom, ordinals, chapter_bounds, assert_aligned, cfi_to_bookmark, current_chapter,
  chapter_progress, subchapter_visible,
}
use reading_companion.Frontier.Bounds.{
  IsLayout, book_end, chapter_bounds-IsLayout, chapter_bounds_outcome,
}
use reading_companion.Frontier.Bookmark.{bookmark_exact, current-bookmark, subchapter_exact}
use reading_companion.Frontier.Alignment.{IsEnumeration, assert_aligned_exact}

abbrev lengths : List ℤ
lengths = pos 10 ∷ pos 5 ∷ pos 20 ∷ []

abbrev ranges : List Range
ranges = (0, 10) ∷ (10, 15) ∷ (15, 35) ∷ []

built : chapter_bounds lengths ≡ ok ranges
unfolding chapter_bounds
built = refl

progress-mid : chapter_progress 12 ranges ≡ (2, 5)
unfolding chapter_progress
progress-mid = refl

chapter_bounds-IsLayout_example : IsLayout 0 lengths ranges
chapter_bounds-IsLayout_example = chapter_bounds-IsLayout lengths ranges built

chapter_bounds_outcome_example :
    ((bounds : List Range) × (chapter_bounds lengths ≡ ok bounds))
    × (chapter_bounds (lengths ++ negsuc 3 ∷ []) ≡ err (empty_atom (3 + 1)))
chapter_bounds_outcome_example = chapter_bounds_outcome lengths (negsuc 3) [] (omega arith) refl

bookmark_exact_example : (1 + 1 ≤ cfi_to_bookmark 15 ranges) ↔ (15 ≤ 15)
bookmark_exact_example = bookmark_exact lengths ranges built 15 1 10 15 refl

current-bookmark_example :
    (current_chapter 12 ranges ≡ cfi_to_bookmark 12 ranges + 1)
    × ((cfi_to_bookmark 12 ranges ≡ length ranges) ↔ (book_end 0 ranges ≤ 12))
current-bookmark_example = current-bookmark lengths ranges built 12

subchapter_exact_example :
    (subchapter_visible
        (1 + 1)
        (13 - 10, 15 - 10)
        (current_chapter 12 ranges)
        (chapter_progress 12 ranges)
      ≡ true)
    ↔ (13 ≤ 12)
subchapter_exact_example = subchapter_exact lengths ranges 12 13 1 10 15 built refl (omega arith)

assert_aligned_exact_example :
    (assert_aligned ranges (ordinals (2 ∷ 1 ∷ 3 ∷ [])) ≡ ok tt)
    ↔ ((length ranges ≡ 3) × IsEnumeration 3 (2 ∷ 1 ∷ 3 ∷ []))
assert_aligned_exact_example = assert_aligned_exact ranges (2 ∷ 1 ∷ 3 ∷ [])
