-- ===== src/Reading.antt =====
-- The position routes of backend/app/api/reading.py over the catalog and the frontier. The manifest
-- and the durable frontier that `_load_checked` reads from files are a value that a caller gives,
-- `none` where they do not match; a request is what pydantic has admitted. `chapter_progress` is
-- the fraction before `round`.
pub mod Exact
mod Tests
use reading_companion.Prelude.{
  ℕ, max, String, Bool, true, false, Option, none, some, List, length, ltb, if◌then◌else◌, Result,
  ok, err, ◌>>=◌, ◌>>◌, int, pos, Value,
}
use reading_companion.Frontier.{Range, bookmark_high_water, current_chapter, chapter_progress}
use reading_companion.Catalog.Rows.{
  Book, Catalog, CatalogError, ReadingState, get_state, epoch_changed, epoch_exhausted,
}
use reading_companion.Catalog.Shelf.{get_book}
use reading_companion.Catalog.Position.{high_water, set_position}
use reading_companion.Catalog.Position

pub data RouteError : Type 0 where
  not_found atom_set_mismatch position_conflict : RouteError
  unhandled : CatalogError → RouteError
  missing_state : RouteError

pub record PositionIn : Type 0 where
  pub cfi : String
  pub offset : ℕ
  pub high_water_offset : Option ℕ
  pub position_epoch : Option ℕ

pub record Manifest : Type 0 where
  pub bounds : List Range
  pub durable : ℕ

pub record Reply : Type 0 where
  pub bookmark : ℕ
  pub cfi : Option String
  pub position_epoch : ℕ
  pub atoms : ℕ

-- the reply of `put_position`, and what it asks of the worker and of the warmer
pub record Reported : Type 0 where
  pub reply : Reply
  pub current : ℕ
  pub progress : ℕ × ℕ
  pub enqueued : Option ℕ
  pub notified : Option String

pub record Shown : Type 0 where
  pub reply : Reply
  pub ingest_progress : ℕ

abbrev pub or_zero : Option ℕ → ℕ
or_zero none = 0
or_zero (some n) = n

-- a value that the code uses without a test for `None`
abbrev pub expect : {A : Type 0} → RouteError → Option A → Result RouteError A
expect e none = err e
expect e (some a) = ok a

-- `_position_conflict`: the message names the position epoch
abbrev pub as_conflict : CatalogError → RouteError
as_conflict epoch_changed = position_conflict
as_conflict epoch_exhausted = position_conflict
as_conflict e = unhandled e

abbrev pub or_conflict : Result CatalogError Catalog → Result RouteError Catalog
or_conflict (err e) = err (as_conflict e)
or_conflict (ok c) = ok c

abbrev pub load_checked : String → Option Manifest → Catalog → Result RouteError Manifest
load_checked book loaded c = do
  expect not_found (get_book book c) >>= λ _. expect atom_set_mismatch loaded

-- `min(st["ingest_progress"], durable)`
abbrev pub shown_progress : ℕ → ℕ → ℕ
shown_progress n durable = if ltb durable n then durable else n

unfoldable pub get_position : String → Option Manifest → Catalog → Result RouteError Shown
get_position book loaded c = do
  m ← load_checked book loaded c
  s ← expect missing_state (get_state book c)
  ok (record {
    reply = record {
      bookmark = s.bookmark;
      cfi = s.cfi;
      position_epoch = s.position_epoch;
      atoms = length m.bounds;
    };
    ingest_progress = shown_progress s.ingest_progress m.durable;
  })

abbrev pub to_enqueue : ℕ → Option ℕ
to_enqueue bookmark = if ltb 0 bookmark then some bookmark else none

-- the incarnation that the warmer is told of
abbrev pub to_notify : Bool → Option Book → Option String
to_notify false b = none
to_notify true none = none
to_notify true (some b) = some b.incarnation

-- the furthest offset of the report
abbrev pub completed_offset : PositionIn → ℕ
completed_offset p = max p.offset (or_zero p.high_water_offset)

-- the reply to an accepted report
abbrev pub answer : Bool → String → PositionIn → Manifest → Catalog → ReadingState → Reported
answer warmer book p m c s = record {
  reply = record {
    bookmark = s.bookmark;
    cfi = some p.cfi;
    position_epoch = s.position_epoch;
    atoms = length m.bounds;
  };
  current = current_chapter p.offset m.bounds;
  progress = chapter_progress p.offset m.bounds;
  enqueued = to_enqueue s.bookmark;
  notified = to_notify warmer (get_book book c);
}

-- `put_position` from the derivation of the bookmark on
unfoldable pub report :
    (warmer : Bool)
    → (now book : String) → PositionIn
    → Manifest
    → (prev : ℕ) → Catalog
    → Result RouteError (Reported × Catalog)
report warmer now book p m prev c = do
  c' ← or_conflict (
      set_position now book (some p.cfi)
        (int (pos (bookmark_high_water prev (completed_offset p) m.bounds)))
        (int (pos (or_zero p.position_epoch))) c)
  s ← expect missing_state (get_state book c')
  ok (answer warmer book p m c' s, c')

unfoldable pub put_position :
    (warmer : Bool)
    → (now book : String) → PositionIn
    → Option Manifest
    → Catalog
    → Result RouteError (Reported × Catalog)
put_position warmer now book p loaded c = do
  m ← load_checked book loaded c
  prev ← expect missing_state (high_water book c)
  report warmer now book p m prev c

unfoldable pub reset :
    (warmer : Bool)
    → (now book : String) → ℕ
    → Option Manifest
    → Catalog
    → Result RouteError ((Shown × Option String) × Catalog)
reset warmer now book epoch loaded c = do
  m ← load_checked book loaded c
  c' ← or_conflict (Position.reset_position now book (int (pos epoch)) c)
  s ← expect missing_state (get_state book c')
  ok (
    (
      record {
        reply = record {
          bookmark = s.bookmark;
          cfi = s.cfi;
          position_epoch = s.position_epoch;
          atoms = length m.bounds;
        };
        ingest_progress = shown_progress s.ingest_progress m.durable;
      },
      to_notify warmer (get_book book c'),
    ),
    c',
  )
