-- ===== src/Catalog/Untouched.antt =====
-- What the calls of backend/app/catalog/catalog.py leave alone: the reading states, and the rows
-- that a statement does not select.
use reading_companion.Prelude.{
  ℕ, ◌≡◌, refl, String, Bool, true, false, Option, some, List, [], ◌∷◌, ◌++◌, find, ok, arith,
  Value, bind-returns, require, if◌then◌else◌, ltb,
}
use reading_companion.Catalog.Rows.{
  Catalog, update_where, delete_where, check_int, schema_not_positive,
}
use reading_companion.Catalog.Shelf.{set_schema_version, write_schema}
use reading_companion.Catalog.Costs.{
  Usage, Booking, Request, record_cost, reserve_cost, insert_entry, reserve_row,
}
use reading_companion.Catalog.Settling.{
  ChapterCost, note_reservation_actual, settle_cost, discard_cost_reservation, write_receipt,
}

module _ {A : Type 0} (p : A → Bool) where
  pub find-append : (xs ys : List A) {s : A} → find p xs ≡ some s → find p (xs ++ ys) ≡ some s
  find-append [] ys h = cc
  find-append (x ∷ xs) ys {s = s} h = ground (arith, find-append xs ys {s = s})

  -- Rows that the DELETE spares are found as before.
  pub find-delete_where :
      (d : A → Bool)
      → ((x : A) → p x ≡ true → d x ≡ false)
      → (xs : List A) → find p (delete_where d xs) ≡ find p xs
  find-delete_where d apart [] = refl
  find-delete_where d apart (x ∷ xs) = ground (arith, apart x, find-delete_where d apart xs)

  -- An UPDATE that leaves the key alone is found at the row that was found before.
  pub find-update_where :
      (test : A → Bool) (set : A → A)
      → ((x : A) → p (set x) ≡ p x)
      → (xs : List A) {s : A} → find p xs ≡ some s
      → find p (update_where test set xs) ≡ some (if test s then set s else s)
  find-update_where test set same [] h = cc
  find-update_where test set same (x ∷ xs) {s = s} h =
      ground (arith, same x, find-update_where test set same xs {s = s})

-- The calls that write other tables only.
pub insert_entry-states :
    (now book : String) (k : Booking) (u : Usage) (c c' : Catalog)
    → insert_entry now book k u c ≡ ok c'
    → c'.states ≡ c.states
unfolding insert_entry
insert_entry-states now book k u c c' h = ground arith

pub record_cost-states :
    (now book : String) (k : Booking) (u : Usage) (c c' : Catalog)
    → record_cost now book k u c ≡ ok c'
    → c'.states ≡ c.states
unfolding record_cost insert_entry
record_cost-states now book k u c c' h = ground arith

pub note-states :
    (book id : String) (u : Usage) (m : Option String) (c c' : Catalog)
    → note_reservation_actual book id u m c ≡ ok c'
    → c'.states ≡ c.states
unfolding note_reservation_actual
note-states book id u m c c' h = ground arith

pub reserve_cost-states :
    (p q : String → Bool) (now id book : String) (r : Request) (c c' : Catalog)
    → reserve_cost p q now id book r c ≡ ok c'
    → c'.states ≡ c.states
unfolding reserve_cost reserve_row
reserve_cost-states p q now id book r c c' h = ground arith

pub settle_cost-states :
    (now book id : String) (phase : Option String) (c c' : Catalog)
    → settle_cost now book id phase c ≡ ok c'
    → c'.states ≡ c.states
unfolding settle_cost insert_entry
settle_cost-states now book id phase c c' h = ground arith

pub discard-states :
    (book id : String) (c c' : Catalog)
    → discard_cost_reservation book id c ≡ ok c'
    → c'.states ≡ c.states
unfolding discard_cost_reservation
discard-states book id c c' h = ground arith

pub write_schema-states :
    (book : String) (v : ℕ) (c c' : Catalog) → write_schema book v c ≡ ok c' → c'.states ≡ c.states
unfolding write_schema
write_schema-states book v c c' h = ground arith

pub set_schema_version-states :
    (book : String) (v : Value) (c c' : Catalog)
    → set_schema_version book v c ≡ ok c'
    → c'.states ≡ c.states
unfolding set_schema_version
set_schema_version-states book v c c' h =
    let (n, _, h') = bind-returns (check_int "schema_version" v) h in
    let (_, _, h'') = bind-returns (require (ltb 0 n) schema_not_positive) h' in
    write_schema-states book n c c' h''

pub write_receipt-states :
    (now book : String) (n : ℕ) (k : Option ChapterCost) (c c' : Catalog)
    → write_receipt now book n k c ≡ ok c'
    → c'.states ≡ c.states
write_receipt-states now book n k c c' h = ground arith
