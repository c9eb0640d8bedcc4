-- ===== src/Frontier/Bookmark.antt =====
-- `cfi_to_bookmark` counts exactly the chapters that have been read to their end.
use reading_companion.Prelude.{
  ℕ, zero, suc, ◌+◌, ◌≤◌, ◌<◌, max, ◌≡◌, ◌↔◌, refl, true, List, [], ◌∷◌, some, arith, length,
  get_elem?, ok, ℤ, leb, Bool-cases, inl, inr, dec_lt, ap, ◌-◌, leb→le, leb→gt, ◌*◌, ◌∙◌, sym,
}
use reading_companion.Frontier.{
  Range, chapter_bounds, cfi_to_bookmark, bookmark_high_water, chapter_from, current_chapter,
  subchapter_visible, fraction_le, chapter_progress,
}
use native.Mathlib.Nat.{mul-le-mul_right, le_of_mul-le-mul_right}
use reading_companion.Frontier.Bounds.{Tiles, book_end, chapter_bounds-IsLayout}

-- Before the first range nothing is complete.
cfi_to_bookmark-before :
    (p acc : ℕ) (bs : List Range) → Tiles acc bs → p < acc → cfi_to_bookmark p bs ≡ 0
unfolding cfi_to_bookmark
cfi_to_bookmark-before p acc [] t h = refl
cfi_to_bookmark-before p acc ((s, e) ∷ bs) t h = ground (arith, cfi_to_bookmark-before p e bs t.2)

-- The first range that is not complete has no complete one behind it.
cfi_to_bookmark-open :
    (p e acc : ℕ) (bs : List Range) → Tiles e bs → p < e → cfi_to_bookmark p ((acc, e) ∷ bs) ≡ 0
unfolding cfi_to_bookmark
cfi_to_bookmark-open p e acc bs t h = ground (arith, cfi_to_bookmark-before p e bs t)

completed :
    (p acc : ℕ) (bs : List Range) (k s e : ℕ)
    → Tiles acc bs
    → get_elem? bs k ≡ some (s, e)
    → (k < cfi_to_bookmark p bs) ↔ (e ≤ p)
unfolding cfi_to_bookmark
completed p acc [] k s e t h = (λ _. cc, λ _. cc)
completed p acc ((s', e') ∷ bs) zero s e t h =
    (λ c. ground (arith, cfi_to_bookmark-before p e' bs t.2), λ c. ground arith)
completed p acc ((s', e') ∷ bs) (suc k) s e t h = (
  λ c. ground (arith, cfi_to_bookmark-before p e' bs t.2, (completed p e' bs k s e t.2 h).0),
  λ c. ground (arith, cfi_to_bookmark-before p e' bs t.2, (completed p e' bs k s e t.2 h).1),
)

chapter_from-eq :
    (i p acc : ℕ) (bs : List Range)
    → Tiles acc bs
    → acc ≤ p
    → chapter_from i p bs ≡ i + cfi_to_bookmark p bs
unfolding chapter_from cfi_to_bookmark
chapter_from-eq i p acc [] t h = omega arith
chapter_from-eq i p acc ((s, e) ∷ bs) t h =
    ground (arith, chapter_from-eq (i + 1) p e bs t.2, cfi_to_bookmark-before p e bs t.2)

cfi_to_bookmark-le-length : (p : ℕ) (bs : List Range) → cfi_to_bookmark p bs ≤ length bs
unfolding cfi_to_bookmark
cfi_to_bookmark-le-length p [] = omega arith
cfi_to_bookmark-le-length p ((s, e) ∷ bs) = ground (arith, cfi_to_bookmark-le-length p bs)

cfi_to_bookmark_mono :
    (p q : ℕ) (bs : List Range) → p ≤ q → cfi_to_bookmark p bs ≤ cfi_to_bookmark q bs
unfolding cfi_to_bookmark
cfi_to_bookmark_mono p q [] h = omega arith
cfi_to_bookmark_mono p q ((s, e) ∷ bs) h = ground (arith, cfi_to_bookmark_mono p q bs)

book_end-le : (acc : ℕ) (bs : List Range) → Tiles acc bs → acc ≤ book_end acc bs
book_end-le acc [] t = omega arith
book_end-le acc ((s, e) ∷ bs) t = omega (arith, book_end-le e bs t.2)

all_complete :
    (p acc : ℕ) (bs : List Range)
    → Tiles acc bs
    → acc ≤ p
    → (cfi_to_bookmark p bs ≡ length bs) ↔ (book_end acc bs ≤ p)
unfolding cfi_to_bookmark
all_complete p acc [] t h = (λ _. h, λ _. refl)
all_complete p acc ((s, e) ∷ bs) t h = elim (Bool-cases (leb e p)) [
  | inl c ↦
      let ih = all_complete p e bs t.2 (leb→le e p c) in
      (λ x. ih.0 (ground arith), λ x. ground (arith, ih.1 x))
  | inr c ↦ (
    λ x. ground (arith, cfi_to_bookmark-before p e bs t.2),
    λ x. absurd (omega (arith, leb→gt e p c, book_end-le e bs t.2)),
  )
]

module _ (lengths : List ℤ) (bounds : List Range) (made : chapter_bounds lengths ≡ ok bounds) where
  -- Over ranges that `chapter_bounds` built, the chapter with ordinal k + 1 is at or below the
  -- bookmark exactly when its end has been reached: no chapter is revealed before it is read to its
  -- end, and none is held back after.
  pub bookmark_exact :
      (position k s e : ℕ)
      → get_elem? bounds k ≡ some (s, e)
      → (k + 1 ≤ cfi_to_bookmark position bounds) ↔ (e ≤ position)
  bookmark_exact position k s e at =
      let both =
        completed position 0 bounds k s e (chapter_bounds-IsLayout lengths bounds made).tiles at in
      (λ c. both.0 (omega arith), λ c. omega (arith, both.1 c))

  -- The chapter in progress is the one right after the bookmark, at every position; from the book's
  -- end on, both say that all chapters are complete.
  pub current-bookmark :
      (position : ℕ)
      → (current_chapter position bounds ≡ cfi_to_bookmark position bounds + 1)
        × ((cfi_to_bookmark position bounds ≡ length bounds) ↔ (book_end 0 bounds ≤ position))
  unfolding current_chapter
  current-bookmark position =
      let tiles = (chapter_bounds-IsLayout lengths bounds made).tiles in
      (
        omega (arith, chapter_from-eq 1 position 0 bounds tiles (omega arith)),
        all_complete position 0 bounds tiles (omega arith),
      )

-- The persisted bookmark never falls, covers the position just reported, rises with the position,
-- never exceeds the number of chapters once it did not, and reporting the same position again
-- changes nothing.
high_water_monotone :
    (prev p q : ℕ) (bounds : List Range)
    → p ≤ q
    → (prev ≤ bookmark_high_water prev p bounds)
      × (cfi_to_bookmark p bounds ≤ bookmark_high_water prev p bounds)
      × (bookmark_high_water prev p bounds ≤ bookmark_high_water prev q bounds)
      × (bookmark_high_water prev p bounds ≤ max prev (length bounds))
      × (bookmark_high_water (bookmark_high_water prev p bounds) p bounds
          ≡ bookmark_high_water prev p bounds)
unfolding bookmark_high_water
high_water_monotone prev p q bounds h =
    omega (arith, cfi_to_bookmark_mono p q bounds h, cfi_to_bookmark-le-length p bounds)

range_end_before :
    (acc : ℕ) (bs : List Range) (j s e : ℕ) → Tiles acc bs → get_elem? bs j ≡ some (s, e) → acc ≤ s
range_end_before acc [] j s e t h = cc
range_end_before acc ((s', e') ∷ bs) zero s e t h = ground arith
range_end_before acc ((s', e') ∷ bs) (suc j) s e t h =
    omega (arith, range_end_before e' bs j s e t.2 h)

-- A chapter is at or before the one in progress exactly when its start has been reached.
started :
    (p acc : ℕ) (bs : List Range) (k s e : ℕ)
    → Tiles acc bs
    → acc ≤ p
    → get_elem? bs k ≡ some (s, e)
    → (k ≤ cfi_to_bookmark p bs) ↔ (s ≤ p)
unfolding cfi_to_bookmark
started p acc [] k s e t h g = (λ _. cc, λ _. cc)
started p acc ((s', e') ∷ bs) zero s e t h g = (λ c. ground arith, λ c. omega arith)
started p acc ((s', e') ∷ bs) (suc k) s e t h g = elim (Bool-cases (leb e' p)) [
  | inl c ↦
      let ih = started p e' bs k s e t.2 (leb→le e' p c) g in
      (λ x. ih.0 (ground arith), λ x. ground (arith, ih.1 x))
  | inr c ↦ (
    λ x. absurd (ground (arith, cfi_to_bookmark-before p e' bs t.2)),
    λ x. absurd (omega (arith, leb→gt e' p c, range_end_before e' bs k s e t.2 g)),
  )
]

-- Fractions of one chapter are compared by their numerators.
fraction_le-same : (a c d : ℕ) → 0 < d → (fraction_le (a, d) (c, d) ≡ true) ↔ (a ≤ c)
unfolding fraction_le
fraction_le-same a c d h = (
  λ x. le_of_mul-le-mul_right (leb→le (a * d) (c * d) x) h,
  λ x. ground (arith, mul-le-mul_right d x),
)

get_elem-le-length : (bs : List Range) (k : ℕ) {r : Range} → get_elem? bs k ≡ some r → k < length bs
get_elem-le-length [] k h = cc
get_elem-le-length (b ∷ bs) zero h = omega arith
get_elem-le-length (b ∷ bs) (suc k) {r = r} h = omega (arith, get_elem-le-length bs k {r = r} h)

chapter_progress-at :
    (position : ℕ) (bounds : List Range) (k s e : ℕ)
    → get_elem? bounds k ≡ some (s, e)
    → s < e
    → k < length bounds
    → current_chapter position bounds ≡ k + 1
    → chapter_progress position bounds ≡ (position - s, e - s)
unfolding chapter_progress
chapter_progress-at position bounds k s e g pos_len inside now =
    let back : k + 1 - 1 ≡ k = omega arith in rw (now, back, g) (ground arith)

-- Over ranges that `chapter_bounds` built, at every position of the reader, and for a fact of chapter
-- k + 1 whose source span ends at offset x of the book: let the fact carry the fraction of its
-- chapter at which its span ends, and let the cursor be the chapter in progress with the fraction
-- that `chapter_progress` reports for it, both exact. Then the sub-chapter rule shows the fact
-- exactly when the position has reached the end of its span.
pub subchapter_exact :
    (lengths : List ℤ) (bounds : List Range) (position x k s e : ℕ)
    → chapter_bounds lengths ≡ ok bounds
    → get_elem? bounds k ≡ some (s, e)
    → (s < x) × (x ≤ e)
    → ((subchapter_visible
            (k + 1)
            (x - s, e - s)
            (current_chapter position bounds)
            (chapter_progress position bounds)
          ≡ true)
        ↔ (x ≤ position))
unfolding subchapter_visible
subchapter_exact lengths bounds p x k s e made g inside =
    let tiles = (chapter_bounds-IsLayout lengths bounds made).tiles in
    let now = (current-bookmark lengths bounds made p).0 in
    let done = completed p 0 bounds k s e tiles g in
    let begun = started p 0 bounds k s e tiles (omega arith) g in
    elim (dec_lt k (cfi_to_bookmark p bounds)) [
      | yes lt ↦ (λ v. omega (arith, done.0 lt), λ v. ground (arith, now))
      | no ge ↦ elim (dec_lt (cfi_to_bookmark p bounds) k) [
        | yes lt ↦ (λ v. absurd (ground (arith, now)), λ v. absurd (omega (arith, begun.1)))
        | no le ↦
            let here : k ≡ cfi_to_bookmark p bounds = omega arith in
            let inside_book = get_elem-le-length bounds k g in
            let shown =
              chapter_progress-at p bounds k s e g (omega (arith, inside)) inside_book
                (now ∙ ap (λ n. n + 1) (sym here)) in
            let compared = fraction_le-same (x - s) (p - s) (e - s) (omega (arith, inside)) in
            (
              λ v. ground (arith, now, shown, here, compared.0, begun.0),
              λ v. ground (arith, now, shown, here, compared.1, begun.0),
            )
      ]
    ]
