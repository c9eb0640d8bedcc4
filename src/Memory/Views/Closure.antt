-- ===== src/Memory/Views/Closure.antt =====
-- The references that a view returns are closed under visibility.
use reading_companion.Prelude.{
  ℕ, ◌≡◌, String, Bool, true, ◌&&◌, List, [], ◌∷◌, All, keep, map, sort_by, insert_by, ℤ, leb_int,
  arith, Bool-cases, inl, inr, and→both, ◌==◌, subst, ==→eq,
}
use reading_companion.Memory.Rows.{Row, Tables, TableName}
use reading_companion.Memory.Select.{visible, select, fetch}
use reading_companion.Memory.Views.{
  vis_entity, live_chapter, vis_event, linked, aliases_of, relationships, timeline, participants_of,
  chapter_summaries, chapters,
}

module _ {A : Type 0} (P : A → Type 0) where
  All-insert_by :
      (le : A → A → Bool) (x : A) (xs : List A) → P x → All P xs → All P (insert_by le x xs)
  All-insert_by le x [] p ps = (p, tt)
  All-insert_by le x (y ∷ ys) p ps = elim (Bool-cases (le x y)) [
    | inl c ↦ rw c (p, ps)
    | inr c ↦ rw c (ps.0, All-insert_by le x ys p ps.1)
  ]

  All-sort_by : (le : A → A → Bool) (xs : List A) → All P xs → All P (sort_by le xs)
  All-sort_by le [] ps = tt
  All-sort_by le (x ∷ xs) ps = All-insert_by le x (sort_by le xs) ps.0 (All-sort_by le xs ps.1)

  All-keep : (p : A → Bool) (xs : List A) → ((x : A) → p x ≡ true → P x) → All P (keep p xs)
  All-keep p [] h = tt
  All-keep p (x ∷ xs) h = elim (Bool-cases (p x)) [
    | inl c ↦ rw c (h x c, All-keep p xs h)
    | inr c ↦ rw c (All-keep p xs h)
  ]

All-map :
    {A B : Type 0} (Q : B → Type 0) (f : A → B) (xs : List A)
    → All (λ x. Q (f x)) xs
    → All Q (map f xs)
All-map Q f [] h = tt
All-map Q f (x ∷ xs) h = (h.0, All-map Q f xs h.1)

module _ {A B : Type 0} (book : String) (t : TableName) (b : ℤ) (w : Row A → Bool)
    (order : Row A → Row A → Bool) (cols : Row A → B) (Q : B → Type 0)
    (each : (r : Row A) → visible book t b r ≡ true → w r ≡ true → Q (cols r)) where
  All-fetch : (rows : List (Row A)) → All Q (fetch book t b w order cols rows)
  unfolding fetch select
  All-fetch rows = All-map Q cols (sort_by order (select book t b w rows)) (
      All-sort_by (λ r. Q (cols r)) order (select book t b w rows)
        (All-keep (λ r. Q (cols r)) (λ r. visible book t b r && w r) rows
          (λ r h. let (v, x) = and→both (visible book t b r) (w r) h in each r v x)))

visible_revealed_at :
    {A : Type 0} (book : String) (t : TableName) (b : ℤ) (r : Row A)
    → visible book t b r ≡ true
    → leb_int r.revealed_at b ≡ true
unfolding visible
visible_revealed_at book t b r h = ground arith

module _ (book : String) (b : ℤ) (t : Tables) where
  -- At every bookmark: both ends of a relationship are entities visible there; an alias belongs to a
  -- visible entity; a participant is listed only for a visible event and is linked to it by then; a
  -- chapter summary belongs to a live revealed chapter; and every listed chapter and event has been
  -- revealed.
  pub references_closed :
      (entity event : ℕ)
      → All
          (λ r. (vis_entity book b t r.1 ≡ true) × (vis_entity book b t r.2 ≡ true))
          (relationships book b t)
        × All (λ _. vis_entity book b t entity ≡ true) (aliases_of book b t entity)
        × All
            (λ r. (vis_event book b t event ≡ true) × (linked book b t event r.0 ≡ true))
            (participants_of book b t event)
        × All (λ r. live_chapter book b t r.0 ≡ true) (chapter_summaries book b t)
        × All (λ r. leb_int r.1 b ≡ true) (chapters book b t)
        × All (λ r. leb_int r.1 b ≡ true) (timeline book b t)
  unfolding relationships aliases_of participants_of chapter_summaries chapters timeline
  references_closed entity event = (
    All-fetch book TableName.edges b _ _ _
        (λ r. (vis_entity book b t r.1 ≡ true) × (vis_entity book b t r.2 ≡ true))
        (λ r v w. and→both _ _ w) t.edges,
    All-fetch book TableName.aliases b _ _ _ (λ _. vis_entity book b t entity ≡ true)
        (λ r v w.
          let (same, shown) =
            and→both (r.body.entity_id == entity) (vis_entity book b t r.body.entity_id) w in
          subst (λ id. vis_entity book b t id ≡ true) (==→eq r.body.entity_id entity same) shown)
        t.aliases,
    All-fetch book TableName.entities b _ _ _
        (λ r. (vis_event book b t event ≡ true) × (linked book b t event r.0 ≡ true))
        (λ r v w. and→both _ _ w) t.entities,
    All-fetch book TableName.chapter_summaries b _ _ _ (λ r. live_chapter book b t r.0 ≡ true)
        (λ r v w. (and→both _ _ w).1) t.chapter_summaries,
    All-fetch book TableName.chapters b _ _ _ (λ r. leb_int r.1 b ≡ true)
        (λ r v w. visible_revealed_at book TableName.chapters b r v) t.chapters,
    All-fetch book TableName.events b _ _ _ (λ r. leb_int r.1 b ≡ true)
        (λ r v w. visible_revealed_at book TableName.events b r v) t.events,
  )
