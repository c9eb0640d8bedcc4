-- ===== src/Memory/Views/Truncate.antt =====
-- The past of a memory, as an independent description: what a reader at a bookmark may depend on.
use reading_companion.Prelude.{
  ℕ, String, Bool, false, ◌≡◌, refl, Option, none, some, List, [], ◌∷◌, map, if◌then◌else◌, keep,
  any, ℤ, leb_int, arith, Bool-cases, inl, inr, sort_by, map-sort_by,
}
use reading_companion.Memory.Rows.{Row, Tables, TableName}
use reading_companion.Memory.Select.{visible, select, exists_visible, fetch}

abbrev pub hide_expiry : ℤ → Option ℕ → Option ℕ
hide_expiry b none = none
hide_expiry b (some at) = if leb_int at b then some at else none

module _ {A : Type 0} where
  -- A row with an expiry beyond the bookmark reads as one with no expiry.
  abbrev pub hide : ℤ → Row A → Row A
  hide b r = record r { invalid_at = hide_expiry b r.invalid_at }

  -- Only the rows revealed by the bookmark, without their later expiries.
  unfoldable pub past : ℤ → List (Row A) → List (Row A)
  past b rows = map (hide b) (keep (λ r. leb_int r.revealed_at b) rows)

unfoldable pub truncate : ℤ → Tables → Tables
truncate b t = record t {
  chapters = past b t.chapters;
  raw_chapters = past b t.raw_chapters;
  chapter_summaries = past b t.chapter_summaries;
  entities = past b t.entities;
  aliases = past b t.aliases;
  edges = past b t.edges;
  events = past b t.events;
  event_participants = past b t.event_participants;
  themes = past b t.themes;
  entity_state = past b t.entity_state;
  chunks = past b t.chunks;
}

map-map_eq {ℓ κ} :
    {A : Type ℓ} {B : Type κ} (f : A → A) (g : A → B) (same : (x : A) → g (f x) ≡ g x) (xs : List A)
    → map g (map f xs) ≡ map g xs
map-map_eq f g same [] = refl
map-map_eq f g same (x ∷ xs) = cc (same x, map-map_eq f g same xs)

module _ {A : Type 0} (book : String) (t : TableName) (b : ℤ) where
  visible-hide : (r : Row A) → visible book t b (hide b r) ≡ visible book t b r
  unfolding visible
  visible-hide r = ground arith

  visible_revealed : (r : Row A) → leb_int r.revealed_at b ≡ false → visible book t b r ≡ false
  unfolding visible
  visible_revealed r h = ground arith

  module _ (w w' : Row A → Bool) (same : (r : Row A) → w' (hide b r) ≡ w r) where
    pub select-past :
        (rows : List (Row A))
        → select book t b w' (past b rows) ≡ map (hide b) (select book t b w rows)
    unfolding select past
    select-past [] = refl
    select-past (r ∷ rows) = elim (Bool-cases (leb_int r.revealed_at b)) [
      | inl c ↦ rw c (ground (arith, visible-hide r, same r, select-past rows))
      | inr c ↦ rw c (ground (arith, visible_revealed r c, select-past rows))
    ]

    pub exists-past :
        (rows : List (Row A))
        → exists_visible book t b w' (past b rows) ≡ exists_visible book t b w rows
    unfolding exists_visible past
    exists-past [] = refl
    exists-past (r ∷ rows) = elim (Bool-cases (leb_int r.revealed_at b)) [
      | inl c ↦ rw c (ground (arith, visible-hide r, same r, exists-past rows))
      | inr c ↦ rw c (ground (arith, visible_revealed r c, exists-past rows))
    ]

    pub columns-past :
        {B : Type 0} (cols : Row A → B)
        → ((x : Row A) → cols (hide b x) ≡ cols x)
        → (rows : List (Row A))
        → map cols (select book t b w' (past b rows)) ≡ map cols (select book t b w rows)
    columns-past cols keeps_cols rows =
        rw (select-past rows) (map-map_eq (hide b) cols keeps_cols (select book t b w rows))

    module _ {B : Type 0} (order : Row A → Row A → Bool) (cols : Row A → B)
        (keeps_order : (x y : Row A) → order (hide b x) (hide b y) ≡ order x y)
        (keeps_cols : (x : Row A) → cols (hide b x) ≡ cols x) where
      -- A read whose test, order and columns ignore the expiry returns the same rows from the past.
      pub fetch-past :
          (rows : List (Row A))
          → fetch book t b w' order cols (past b rows) ≡ fetch book t b w order cols rows
      unfolding fetch
      fetch-past rows = rw (select-past rows) (
          rw (map-sort_by order order (hide b) keeps_order (select book t b w rows))
            (map-map_eq (hide b) cols keeps_cols (sort_by order (select book t b w rows))))

module _ {A : Type 0} (b : ℤ) (q : Row A → Bool) (same : (r : Row A) → q (hide b r) ≡ q r)
    (revealed : (r : Row A) → leb_int r.revealed_at b ≡ false → q r ≡ false) where
  pub any-past : (rows : List (Row A)) → any q (past b rows) ≡ any q rows
  unfolding past
  any-past [] = refl
  any-past (r ∷ rows) = elim (Bool-cases (leb_int r.revealed_at b)) [
    | inl c ↦ rw c (ground (arith, same r, any-past rows))
    | inr c ↦ rw c (ground (arith, revealed r c, any-past rows))
  ]
