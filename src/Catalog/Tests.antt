-- ===== src/Catalog/Tests.antt =====
-- A small catalog, and the theorems of backend/app/catalog/catalog.py at work on it.
use reading_companion.Prelude.{
  ℕ, ◌≤◌, ◌≡◌, refl, String, Bool, false, none, some, List, [], ◌∷◌, ok, err, int, pos, ◌+◌,
}
use reading_companion.Catalog.Rows.{
  Book, ReadingState, LedgerEntry, Reservation, Catalog, get_state, shelved, check_int,
  epoch_changed, unknown_reservation, ceiling_reached,
}
use reading_companion.Catalog.Position.{set_position, reset_position, restart, progress}
use reading_companion.Catalog.Costs.{
  Usage, Request, reserve_cost, insert_entry, reserve_row, committed, committed_usd,
  committed_input, committed_output,
}
use reading_companion.Catalog.Settling.{ChapterCost, settle_cost, finalize_ingest, finalize}
use reading_companion.Catalog.Calls.{Call, run}
use reading_companion.Catalog.Monotone.{frontier-Advances, Advances}
use reading_companion.Catalog.Ceilings.{reserve_within_ceilings, settle_conserves}
use reading_companion.Catalog.Replay.{stale_report_refused, finalize_ingest_idempotent}

abbrev emma : Book
emma = record {
  book_id = "emma";
  title = "Emma";
  author = some "Jane Austen";
  source = none;
  source_id = none;
  file_hash = none;
  cover_path = none;
  db_path = "books/emma/memory.db";
  schema_version = 1;
  incarnation = "a1";
  added_at = "2026-01-01";
}

abbrev at_chapter_four : ReadingState
at_chapter_four = record {
  book_id = "emma";
  bookmark = 4;
  cfi = some "epubcfi(/6/8)";
  ingest_progress = 5;
  position_epoch = 2;
  updated_at = none;
}

abbrev receipt_of_five : LedgerEntry
receipt_of_five = record {
  entry_id = 1;
  book_id = "emma";
  chapter_ordinal = some 5;
  phase = "extraction";
  model = some "m";
  input_tokens = 100;
  output_tokens = 20;
  usd = 30;
  at = "2026-01-02";
}

abbrev held_for_six : Reservation
held_for_six = record {
  reservation_id = "r1";
  book_id = "emma";
  chapter_ordinal = some 6;
  phase = "extraction";
  model = some "m";
  reserved_input_tokens = 200;
  reserved_output_tokens = 50;
  reserved_usd = 40;
  actual = none;
  at = "2026-01-03";
}

abbrev small_catalog : Catalog
small_catalog = record {
  books = emma ∷ [];
  states = at_chapter_four ∷ [];
  ledger = receipt_of_five ∷ [];
  reservations = held_for_six ∷ [];
}

abbrev no_phase : String → Bool
no_phase phase = false

abbrev usage : ℕ → ℕ → ℕ → Usage
usage i o u = record { input_tokens = i; output_tokens = o; usd = u }

abbrev request : Request
request = record {
  booking = record { chapter_ordinal = some 7; phase = "extraction"; model = some "m" };
  usage = usage 10 10 10;
  limits = usage 1000 1000 100;
  expected_reading_scope = none;
  max_preparation_usd = none;
}

abbrev after_reserve : Catalog
after_reserve = record small_catalog {
  reservations =
      held_for_six
      ∷ record held_for_six {
        reservation_id = "r2";
        chapter_ordinal = some 7;
        reserved_input_tokens = 10;
        reserved_output_tokens = 10;
        reserved_usd = 10;
        at = "2026-01-04";
      }
      ∷ [];
}

reserved :
    reserve_cost no_phase no_phase "2026-01-04" "r2" "emma" request small_catalog ≡ ok after_reserve
unfolding reserve_cost reserve_row shelved committed
reserved = refl

reserve_within_ceilings_example :
    (committed_input "emma" after_reserve ≤ 1000)
    × (committed_output "emma" after_reserve ≤ 1000)
    × (committed_usd "emma" after_reserve ≤ 100)
    × (committed_usd "emma" after_reserve ≡ committed_usd "emma" small_catalog + 10)
reserve_within_ceilings_example =
    reserve_within_ceilings no_phase no_phase "2026-01-04" "r2" "emma" request small_catalog
      after_reserve reserved

-- the same request under a ceiling that the pending reservation has nearly used up
refused :
    reserve_cost no_phase no_phase "2026-01-04" "r2" "emma"
      (record request { limits = usage 1000 1000 79 })
      small_catalog
    ≡ err (ceiling_reached "USD")
unfolding reserve_cost reserve_row shelved committed
refused = refl

abbrev after_settlement : Catalog
after_settlement = record small_catalog {
  ledger =
      receipt_of_five
      ∷ record {
        entry_id = 2;
        book_id = "emma";
        chapter_ordinal = some 6;
        phase = "synthesis";
        model = some "m";
        input_tokens = 200;
        output_tokens = 50;
        usd = 40;
        at = "2026-01-05";
      }
      ∷ [];
  reservations = [];
}

settlement :
    settle_cost "2026-01-05" "emma" "r1" (some "synthesis") small_catalog ≡ ok after_settlement
unfolding settle_cost insert_entry shelved
settlement = refl

settle_conserves_example :
    (committed_input "emma" after_settlement ≡ committed_input "emma" small_catalog)
    × (committed_output "emma" after_settlement ≡ committed_output "emma" small_catalog)
    × (committed_usd "emma" after_settlement ≡ committed_usd "emma" small_catalog)
    × (settle_cost "2026-01-05" "emma" "r1" (some "synthesis") after_settlement
        ≡ err unknown_reservation)
settle_conserves_example =
    settle_conserves "2026-01-05" "emma" "r1" (some "synthesis") small_catalog after_settlement refl
      settlement "emma"

abbrev restarted_state : ReadingState
restarted_state = record at_chapter_four {
  bookmark = 0;
  cfi = none;
  position_epoch = 3;
  updated_at = some "2026-01-06";
}

abbrev after_reset : Catalog
after_reset = record small_catalog { states = restarted_state ∷ [] }

was_reset : reset_position "2026-01-06" "emma" (int (pos 2)) small_catalog ≡ ok after_reset
unfolding reset_position restart check_int
was_reset = refl

in_state : get_state "emma" after_reset ≡ some restarted_state
unfolding get_state
in_state = refl

stale_report_refused_example :
    set_position "2026-01-07" "emma" (some "epubcfi(/6/10)") (int (pos 4)) (int (pos 2)) after_reset
    ≡ err epoch_changed
stale_report_refused_example =
    stale_report_refused "2026-01-06" "2026-01-07" "emma" (int (pos 2)) small_catalog after_reset
      was_reset (some "epubcfi(/6/10)") 4 refl restarted_state in_state

abbrev chapter_six : ChapterCost
chapter_six = record { model = some "m"; usage = usage 180 45 35 }

abbrev after_chapter_six : Catalog
after_chapter_six = record small_catalog {
  states = record at_chapter_four { ingest_progress = 6; updated_at = some "2026-01-08" } ∷ [];
  ledger =
      receipt_of_five
      ∷ record {
        entry_id = 2;
        book_id = "emma";
        chapter_ordinal = some 6;
        phase = "extraction";
        model = some "m";
        input_tokens = 180;
        output_tokens = 45;
        usd = 35;
        at = "2026-01-08";
      }
      ∷ [];
  reservations = [];
}

reconciled :
    finalize_ingest "2026-01-08" "emma" (int (pos 6)) (some chapter_six) (some "a1") small_catalog
    ≡ ok after_chapter_six
unfolding finalize_ingest finalize progress shelved check_int
reconciled = refl

finalize_ingest_idempotent_example :
    finalize_ingest "2026-01-08" "emma"
      (int (pos 6))
      (some chapter_six)
      (some "a1")
      after_chapter_six
    ≡ ok after_chapter_six
finalize_ingest_idempotent_example =
    finalize_ingest_idempotent "2026-01-08" "emma" (int (pos 6)) (some chapter_six) (some "a1")
      small_catalog after_chapter_six reconciled

abbrev calls : List Call
calls =
    Call.call_set_position "2026-01-06" "emma" none (int (pos 2)) (int (pos 2))
    ∷ Call.call_reset_position "2026-01-07" "emma" (int (pos 2))
    ∷ Call.call_set_position "2026-01-08" "emma" none (int (pos 9)) (int (pos 2))
    ∷ Call.call_settle_cost "2026-01-09" "emma" "r1" none
    ∷ []

in_small : get_state "emma" small_catalog ≡ some at_chapter_four
unfolding get_state
in_small = refl

frontier-Advances_example :
    (s : ReadingState) × (get_state "emma" (run no_phase no_phase calls small_catalog) ≡ some s)
    × Advances at_chapter_four s
frontier-Advances_example =
    frontier-Advances no_phase no_phase "emma" calls small_catalog refl at_chapter_four in_small
