-- ===== src/Catalog/Calls.antt =====
-- Any sequence of the calls that change the catalog of backend/app/catalog/catalog.py. A call that
-- raises leaves what was committed before it.
use reading_companion.Prelude.{String, Bool, not, Option, List, [], ◌∷◌, str_eq, Value, true}
use reading_companion.Catalog.Rows.{Body, Book, Catalog, settled}
use reading_companion.Catalog.Shelf.{add_book, set_schema_version, remove_book}
use reading_companion.Catalog.Position.{set_position, reset_position, set_ingest_progress}
use reading_companion.Catalog.Costs.{Usage, Booking, Request, record_cost, reserve_cost}
use reading_companion.Catalog.Settling.{
  ChapterCost, note_reservation_actual, settle_cost, discard_cost_reservation, finalize_ingest,
}

pub data Call : Type 0 where
  call_add_book : Book → Call
  call_set_schema_version : (book : String) → Value → Call
  call_remove_book : (book : String) → Call
  call_set_position : (now book : String) → Option String → (bookmark epoch : Value) → Call
  call_reset_position : (now book : String) → (epoch : Value) → Call
  call_set_ingest_progress : (now book : String) → Value → Call
  call_finalize_ingest : (now book : String) → Value → Option ChapterCost → Option String → Call
  call_record_cost : (now book : String) → Booking → Usage → Call
  call_reserve_cost : (now id book : String) → Request → Call
  call_note_reservation_actual : (book id : String) → Usage → Option String → Call
  call_settle_cost : (now book id : String) → Option String → Call
  call_discard_cost_reservation : (book id : String) → Call

module _ (starts_prepare like_prepare : String → Bool) where
  unfoldable pub perform : Call → Body
  perform (call_add_book b) = add_book b
  perform (call_set_schema_version book v) = set_schema_version book v
  perform (call_remove_book book) = remove_book book
  perform (call_set_position now book cfi b e) = set_position now book cfi b e
  perform (call_reset_position now book e) = reset_position now book e
  perform (call_set_ingest_progress now book n) = set_ingest_progress now book n
  perform (call_finalize_ingest now book n cost i) = finalize_ingest now book n cost i
  perform (call_record_cost now book k u) = record_cost now book k u
  perform (call_reserve_cost now id book q) = reserve_cost starts_prepare like_prepare now id book q
  perform (call_note_reservation_actual book id u m) = note_reservation_actual book id u m
  perform (call_settle_cost now book id phase) = settle_cost now book id phase
  perform (call_discard_cost_reservation book id) = discard_cost_reservation book id

  unfoldable pub run : List Call → Catalog → Catalog
  run [] c = c
  run (x ∷ xs) c = run xs (settled (perform x) c)

-- the call does not take this book off the shelf
abbrev pub keeps : String → Call → Bool
keeps book (call_remove_book other) = not (str_eq other book)
keeps book _ = true
