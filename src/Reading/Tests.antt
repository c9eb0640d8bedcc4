-- ===== src/Reading/Tests.antt =====
-- A position report on a small book.
use reading_companion.Prelude.{max, ◌≡◌, refl, true, none, some, [], ◌∷◌, ok}
use reading_companion.Frontier.{cfi_to_bookmark, bookmark_high_water}
use reading_companion.Catalog.Rows.{Book, Catalog, ReadingState, get_state, check_int}
use reading_companion.Catalog.Shelf.{get_book}
use reading_companion.Catalog.Position.{set_position, advance, high_water}
use reading_companion.Reading.{PositionIn, Manifest, put_position, report, answer}
use reading_companion.Reading.Exact.{put_position_exact}

abbrev persuasion : Book
persuasion = record {
  book_id = "persuasion";
  title = "Persuasion";
  author = none;
  source = none;
  source_id = none;
  file_hash = none;
  cover_path = none;
  db_path = "books/persuasion/memory.db";
  schema_version = 1;
  incarnation = "b7";
  added_at = "2026-02-01";
}

abbrev second_pass : ReadingState
second_pass = record {
  book_id = "persuasion";
  bookmark = 1;
  cfi = none;
  ingest_progress = 3;
  position_epoch = 1;
  updated_at = none;
}

abbrev shelf : Catalog
shelf = record {
  books = persuasion ∷ [];
  states = second_pass ∷ [];
  ledger = [];
  reservations = [];
}

abbrev three_chapters : Manifest
three_chapters = record { bounds = (0, 10) ∷ (10, 25) ∷ (25, 40) ∷ []; durable = 3 }

-- the reader has gone back to the first chapter after a look at the third
abbrev position : PositionIn
position = record {
  cfi = "epubcfi(/6/4)";
  offset = 5;
  high_water_offset = some 26;
  position_epoch = some 1;
}

abbrev stored_state : ReadingState
stored_state = record second_pass {
  bookmark = 2;
  cfi = some "epubcfi(/6/4)";
  updated_at = some "2026-02-02";
}

abbrev shelf_after : Catalog
shelf_after = record shelf { states = stored_state ∷ [] }

accepted :
    put_position true "2026-02-02" "persuasion" position (some three_chapters) shelf
    ≡ ok (answer true "persuasion" position three_chapters shelf_after stored_state, shelf_after)
unfolding put_position report get_book high_water set_position advance check_int get_state
    bookmark_high_water cfi_to_bookmark
accepted = refl

put_position_exact_example :
    (second_pass.position_epoch ≡ 1)
    × (stored_state.bookmark ≡ max 1 (cfi_to_bookmark 26 three_chapters.bounds))
    × (get_state "persuasion" shelf_after
        ≡ some (record second_pass {
          bookmark = max 1 (cfi_to_bookmark 26 three_chapters.bounds);
          cfi = some "epubcfi(/6/4)";
          updated_at = some "2026-02-02";
        }))
put_position_exact_example =
    put_position_exact true "2026-02-02" "persuasion" position three_chapters shelf shelf_after
      second_pass (answer true "persuasion" position three_chapters shelf_after stored_state) refl
      accepted
