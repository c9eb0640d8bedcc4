-- ===== src/Reading/Exact.antt =====
-- What a position report through backend/app/api/reading.py stores and answers.
use reading_companion.Prelude.{
  ℕ, max, ◌≡◌, refl, ◌∙◌, ap, sym, subst, String, Bool, true, ◌&&◌, Option, none, some, List, [],
  ◌∷◌, keep, any, find, ◌==◌, Result, ok, err, bind-returns, if-returns, if-true, ok_injective,
  find-holds, ==→eq, arith, int, pos,
}
use reading_companion.Frontier.{bookmark_high_water, cfi_to_bookmark}
use reading_companion.Catalog.Rows.{Catalog, ReadingState, get_state, check_int, CatalogError}
use reading_companion.Catalog.Position.{
  set_position, advance, of_book, in_epoch, reported, high_water,
}
use reading_companion.Catalog.Untouched.{find-update_where}
use reading_companion.Reading.{
  PositionIn, Manifest, Reported, RouteError, put_position, or_zero, completed_offset, load_checked,
  expect, or_conflict, missing_state, not_found, report, get_book,
}

module _ {A : Type 0} (p : A → Bool) where
  any-keep : (q : A → Bool) (xs : List A) → any (λ x. p x && q x) xs ≡ any q (keep p xs)
  any-keep q [] = refl
  any-keep q (x ∷ xs) = ground (arith, any-keep q xs)

  find-keep : (xs : List A) (y : A) (ys : List A) → keep p xs ≡ y ∷ ys → find p xs ≡ some y
  find-keep [] y ys h = cc
  find-keep (x ∷ xs) y ys h = ground (arith, find-keep xs y ys)

check_int-pos : (what : String) (n m : ℕ) → check_int what (int (pos n)) ≡ ok m → m ≡ n
unfolding check_int
check_int-pos what n m h = ground arith

-- The one row of the book after its UPDATE.
advance-stored :
    (now book : String) (cfi : Option String) (b e : ℕ) (c c' : Catalog) (s : ReadingState)
    → keep (of_book book) c.states ≡ s ∷ []
    → advance now book cfi b e c ≡ ok c'
    → (s.position_epoch ≡ e) × (get_state book c' ≡ some (reported now cfi b s))
unfolding advance get_state
advance-stored now book cfi b e c c' s one h =
    let (t, d) = if-returns (any (in_epoch book e) c.states) _ h in
    let own = find-keep (of_book book) c.states s [] one in
    let mine = find-holds (of_book book) c.states s own in
    let open_rows =
      sym (
        any-keep (of_book book) (λ x. x.position_epoch == e) c.states
        ∙ ap (any (λ (x : ReadingState). x.position_epoch == e)) one)
      ∙ t in
    let same : (s.position_epoch == e) ≡ true = ground arith in
    (
      ==→eq s.position_epoch e same,
      ap (get_state book) (sym d)
          ∙ find-update_where (of_book book) (in_epoch book e) (reported now cfi b) (λ x. refl)
              c.states own
          ∙ ap some (if-true (in_epoch book e s) (reported now cfi b s) s (ground arith)),
    )

set_position-stored :
    (now book : String) (cfi : Option String) (b e : ℕ) (c c' : Catalog) (s : ReadingState)
    → keep (of_book book) c.states ≡ s ∷ []
    → set_position now book cfi (int (pos b)) (int (pos e)) c ≡ ok c'
    → (s.position_epoch ≡ e) × (get_state book c' ≡ some (reported now cfi b s))
unfolding set_position
set_position-stored now book cfi b e c c' s one h =
    let (m, i, h') = bind-returns (check_int "bookmark" (int (pos b))) h in
    let (n, j, h'') = bind-returns (check_int "position_epoch" (int (pos e))) h' in
    let h3 = subst (λ k. advance now book cfi k n c ≡ ok c') (check_int-pos "bookmark" b m i) h'' in
    let h4 =
      subst (λ k. advance now book cfi b k c ≡ ok c') (check_int-pos "position_epoch" e n j) h3 in
    advance-stored now book cfi b e c c' s one h4

or_conflict-ok : (r : Result CatalogError Catalog) (c : Catalog) → or_conflict r ≡ ok c → r ≡ ok c
or_conflict-ok (err e) c h = cc
or_conflict-ok (ok d) c h = ground arith

expect-ok : {A : Type 0} (e : RouteError) (m : Option A) (a : A) → expect e m ≡ ok a → m ≡ some a
expect-ok e none a h = cc
expect-ok e (some b) a h = ground arith

some_injective : {A : Type 0} {x y : A} → ◌≡◌ {A = Option A} (some x) (some y) → x ≡ y
some_injective h = cc

load_checked-ok :
    (book : String) (m m' : Manifest) (c : Catalog) → load_checked book (some m) c ≡ ok m' → m ≡ m'
load_checked-ok book m m' c h =
    let (_, _, h') = bind-returns (expect not_found (get_book book c)) h in ok_injective h'

high_water-stored :
    (book : String) (c : Catalog) (s : ReadingState)
    → get_state book c ≡ some s
    → high_water book c ≡ some s.bookmark
unfolding high_water
high_water-stored book c s f =
    ap
      (λ (o : Option ReadingState). elim o as (λ x. Option ℕ) [
        | none ↦ none
        | some x ↦ some x.bookmark
      ])
      f

max-again : (a b : ℕ) → max a (max a b) ≡ max a b
max-again a b = omega arith

report-stored :
    (warmer : Bool) (now book : String) (p : PositionIn) (m : Manifest) (prev : ℕ) (c c' : Catalog)
    (s : ReadingState) (r : Reported)
    → keep (of_book book) c.states ≡ s ∷ []
    → report warmer now book p m prev c ≡ ok (r, c')
    → (s.position_epoch ≡ or_zero p.position_epoch)
      × (r.reply.bookmark ≡ max s.bookmark (bookmark_high_water prev (completed_offset p) m.bounds))
      × (get_state book c'
          ≡ some (
              reported now (some p.cfi) (bookmark_high_water prev (completed_offset p) m.bounds) s))
unfolding report
report-stored warmer now book p m prev c c' s r one h =
    let b = bookmark_high_water prev (completed_offset p) m.bounds in
    let e = or_zero p.position_epoch in
    let (d, k, h1) =
      bind-returns (or_conflict (set_position now book (some p.cfi) (int (pos b)) (int (pos e)) c))
        h in
    let (t, g, h2) = bind-returns (expect missing_state (get_state book d)) h1 in
    let (same, stored) =
      set_position-stored now book (some p.cfi) b e c d s one (or_conflict-ok _ d k) in
    let done = ok_injective h2 in
    let found : t ≡ reported now (some p.cfi) b s =
      some_injective (sym (expect-ok missing_state (get_state book d) t g) ∙ stored) in
    (
      same,
      ap (λ (x : Reported × Catalog). x.0.reply.bookmark) (sym done)
          ∙ ap (λ (x : ReadingState). x.bookmark) found,
      ap (λ (x : Reported × Catalog). get_state book x.1) (sym done) ∙ stored,
    )

-- A position report that is accepted was made in the epoch that is stored. The bookmark then stored
-- and answered is the greater of the stored one and of the chapters complete at the furthest offset
-- of the report, and the position in the text is the reported one, even where it lies further back.
-- Each book has one reading state.
pub put_position_exact :
    (warmer : Bool) (now book : String) (p : PositionIn) (m : Manifest) (c c' : Catalog)
    (s : ReadingState) (r : Reported)
    → keep (of_book book) c.states ≡ s ∷ []
    → put_position warmer now book p (some m) c ≡ ok (r, c')
    → (s.position_epoch ≡ or_zero p.position_epoch)
      × (r.reply.bookmark ≡ max s.bookmark (cfi_to_bookmark (completed_offset p) m.bounds))
      × (get_state book c'
          ≡ some (record s {
            bookmark = max s.bookmark (cfi_to_bookmark (completed_offset p) m.bounds);
            cfi = some p.cfi;
            updated_at = some now;
          }))
unfolding put_position bookmark_high_water get_state
put_position_exact warmer now book p m c c' s r one h =
    let (m', l, h1) = bind-returns (load_checked book (some m) c) h in
    let (prev, q, h2) = bind-returns (expect missing_state (high_water book c)) h1 in
    let own = find-keep (of_book book) c.states s [] one in
    let was : prev ≡ s.bookmark =
      some_injective (
        sym (expect-ok missing_state (high_water book c) prev q)
        ∙ high_water-stored book c s own) in
    let h3 =
      subst (λ k. report warmer now book p k prev c ≡ ok (r, c'))
        (sym (load_checked-ok book m m' c l)) h2 in
    let h4 = subst (λ k. report warmer now book p m k c ≡ ok (r, c')) was h3 in
    let (same, answered, stored) = report-stored warmer now book p m s.bookmark c c' s r one h4 in
    let twice = max-again s.bookmark (cfi_to_bookmark (completed_offset p) m.bounds) in
    (
      same,
      answered ∙ twice,
      stored
          ∙ ap (λ k. some (record s { bookmark = k; cfi = some p.cfi; updated_at = some now }))
              twice,
    )
