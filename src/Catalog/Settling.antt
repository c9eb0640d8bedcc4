-- ===== src/Catalog/Settling.antt =====
-- How reservations of backend/app/catalog/catalog.py become ledger rows, or go: actual usage,
-- settlement, discarding, and the receipt of an ingested chapter.
use reading_companion.Prelude.{
  ℕ, String, Bool, not, ◌&&◌, Option, none, some, List, [], ◌∷◌, str_eq, ◌==◌, if◌then◌else◌, any,
  find, keep, length, Result, ok, err, ◌>>=◌, ◌>>◌, require, Value, ◌++◌,
}
use reading_companion.Catalog.Rows.{
  Book, LedgerEntry, Reservation, Catalog, CatalogError, check_int, update_where, delete_where,
  shelved, unknown_reservation, not_a_model, stale_incarnation, integrity_error,
}
use reading_companion.Catalog.Position.{progress}
use reading_companion.Catalog.Costs.{
  Usage, Booking, check_usage, next_entry, entry, is_receipt, insert_entry, has_id, same_ordinal,
}

-- a reservation of this book with this identifier
abbrev pub owned : String → String → Reservation → Bool
owned book id r = str_eq r.reservation_id id && str_eq r.book_id book

-- `cur.rowcount != 1`
abbrev pub one_row : String → String → Catalog → Bool
one_row book id c = length (keep (owned book id) c.reservations) == 1

abbrev pub check_model : Option String → Result CatalogError (Unit {0})
check_model none = ok tt
check_model (some m) = require (not (str_eq m "")) not_a_model

abbrev pub or_else : Option String → Option String → Option String
or_else none m = m
or_else (some m') m = some m'

abbrev pub with_actual : Usage → Option String → Reservation → Reservation
with_actual u model r = record r {
  reserved_input_tokens = u.input_tokens;
  reserved_output_tokens = u.output_tokens;
  reserved_usd = u.usd;
  actual = some (u.input_tokens, u.output_tokens, u.usd);
  model = or_else model r.model;
}

unfoldable pub note_reservation_actual :
    String → String → Usage → Option String → Catalog → Result CatalogError Catalog
note_reservation_actual book id u model c = do
  check_usage u
  check_model model
  require (one_row book id c) unknown_reservation
  ok (record c { reservations = update_where (owned book id) (with_actual u model) c.reservations })

-- `phase or row["phase"]`
abbrev pub settled_phase : Option String → String → String
settled_phase none own = own
settled_phase (some p) own = if str_eq p "" then own else p

abbrev pub booking_of : Option String → Reservation → Booking
booking_of phase r = record {
  chapter_ordinal = r.chapter_ordinal;
  phase = settled_phase phase r.phase;
  model = r.model;
}

abbrev pub usage_of : Reservation → Usage
usage_of r = record {
  input_tokens = r.reserved_input_tokens;
  output_tokens = r.reserved_output_tokens;
  usd = r.reserved_usd;
}

abbrev pub without : String → Catalog → Catalog
without id c = record c { reservations = delete_where (has_id id) c.reservations }

-- the two writes of `settle_cost`, for the row that it selected
abbrev pub settle_row :
    String
    → String
    → String
    → Option String
    → Option Reservation
    → Catalog
    → Result CatalogError Catalog
settle_row now book id phase none c = err unknown_reservation
settle_row now book id phase (some r) c = do
  c' ← insert_entry now book (booking_of phase r) (usage_of r) c
  ok (without id c')

unfoldable pub settle_cost :
    (now book id : String) → Option String → Catalog → Result CatalogError Catalog
settle_cost now book id phase c =
    settle_row now book id phase (find (owned book id) c.reservations) c

unfoldable pub discard_cost_reservation : String → String → Catalog → Result CatalogError Catalog
discard_cost_reservation book id c = do
  require (one_row book id c) unknown_reservation
  ok (record c { reservations = delete_where (owned book id) c.reservations })

-- the usage of one extracted chapter
pub record ChapterCost : Type 0 where
  pub model : Option String
  pub usage : Usage

abbrev pub extraction : ℕ → ChapterCost → Booking
extraction n k = record { chapter_ordinal = some n; phase = "extraction"; model = k.model }

abbrev pub corrected : ChapterCost → LedgerEntry → LedgerEntry
corrected k e = record e {
  model = k.model;
  input_tokens = k.usage.input_tokens;
  output_tokens = k.usage.output_tokens;
  usd = k.usage.usd;
}

-- `INSERT … ON CONFLICT … DO UPDATE`
abbrev pub upsert_receipt : String → String → ℕ → ChapterCost → List LedgerEntry → List LedgerEntry
upsert_receipt now book n k es =
    if any (is_receipt book n) es
    then update_where (is_receipt book n) (corrected k) es
    else es ++ (entry now book (extraction n k) k.usage (next_entry es) ∷ [])

abbrev pub extracts : String → ℕ → Reservation → Bool
extracts book n r =
    str_eq r.book_id book && same_ordinal r.chapter_ordinal n && str_eq r.phase "extraction"

abbrev pub receipted : String → String → ℕ → ChapterCost → Catalog → Catalog
receipted now book n k c = record c {
  ledger = upsert_receipt now book n k c.ledger;
  reservations = delete_where (extracts book n) c.reservations;
}

abbrev pub write_receipt :
    String → String → ℕ → Option ChapterCost → Catalog → Result CatalogError Catalog
write_receipt now book n none c = ok c
write_receipt now book n (some k) c = do
  require (shelved book c) integrity_error
  ok (receipted now book n k c)

abbrev pub check_cost : Option ChapterCost → Result CatalogError (Unit {0})
check_cost none = ok tt
check_cost (some k) = check_usage k.usage

abbrev pub check_incarnation : String → Option String → Catalog → Result CatalogError (Unit {0})
check_incarnation book none c = ok tt
check_incarnation book (some i) c =
    require (any (λ (b : Book). str_eq b.book_id book && str_eq b.incarnation i) c.books)
      stale_incarnation

-- the transaction of `finalize_ingest`, its ordinal checked
unfoldable pub finalize :
    (now book : String)
    → ℕ
    → Option ChapterCost
    → Option String
    → Catalog
    → Result CatalogError Catalog
finalize now book n cost incarnation c = do
  check_incarnation book incarnation c
  c' ← write_receipt now book n cost c
  progress now book n c'

unfoldable pub finalize_ingest :
    (now book : String)
    → Value
    → Option ChapterCost
    → Option String
    → Catalog
    → Result CatalogError Catalog
finalize_ingest now book n cost incarnation c = do
  k ← check_int "ingest_progress" n
  check_cost cost
  finalize now book k cost incarnation c

-- `_delete_reservations_locked`: one row after the other, as a caller's transaction
unfoldable pub delete_reservations : String → List String → Catalog → Result CatalogError Catalog
delete_reservations book [] c = ok c
delete_reservations book (id ∷ ids) c = do
  c' ← discard_cost_reservation book id c
  delete_reservations book ids c'
