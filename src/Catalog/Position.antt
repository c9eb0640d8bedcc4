-- ===== src/Catalog/Position.antt =====
-- The reading state of backend/app/catalog/catalog.py: position reports, resets and progress.
use reading_companion.Prelude.{
  ℕ, ◌+◌, max, String, Bool, ◌&&◌, Option, none, some, str_eq, ltb, ◌==◌, if◌then◌else◌, any,
  Result, ok, err, ◌>>=◌, Value,
}
use reading_companion.Catalog.Rows.{
  ReadingState, Catalog, CatalogError, check_int, update_where, get_state, unknown_book,
  epoch_changed, epoch_exhausted,
}

abbrev pub of_book : String → ReadingState → Bool
of_book book s = str_eq s.book_id book

abbrev pub in_epoch : String → ℕ → ReadingState → Bool
in_epoch book e s = of_book book s && s.position_epoch == e

abbrev pub reported : String → Option String → ℕ → ReadingState → ReadingState
reported now cfi b s = record s { bookmark = max s.bookmark b; cfi = cfi; updated_at = some now }

-- why an UPDATE of the state found no row
abbrev pub report_refusal : Option ReadingState → CatalogError
report_refusal none = unknown_book
report_refusal (some s) = epoch_changed

-- the UPDATE of `set_position`, its arguments checked
unfoldable pub advance :
    String → String → Option String → ℕ → ℕ → Catalog → Result CatalogError Catalog
advance now book cfi b e c =
    if any (in_epoch book e) c.states
    then ok (record c { states = update_where (in_epoch book e) (reported now cfi b) c.states })
    else err (report_refusal (get_state book c))

unfoldable pub set_position :
    (now book : String)
    → Option String
    → (bookmark expected_epoch : Value) → Catalog
    → Result CatalogError Catalog
set_position now book cfi bookmark expected_epoch c = do
  b ← check_int "bookmark" bookmark
  e ← check_int "position_epoch" expected_epoch
  advance now book cfi b e c

-- `2**63 - 1`
abbrev pub last_epoch : ℕ
last_epoch = 9223372036854775807

abbrev pub restarted : String → ReadingState → ReadingState
restarted now s = record s {
  bookmark = 0;
  cfi = none;
  position_epoch = s.position_epoch + 1;
  updated_at = some now;
}

abbrev pub reset_refusal : Option ReadingState → CatalogError
reset_refusal none = unknown_book
reset_refusal (some s) = if ltb s.position_epoch last_epoch then epoch_changed else epoch_exhausted

abbrev pub may_restart : String → ℕ → ReadingState → Bool
may_restart book e s = in_epoch book e s && ltb s.position_epoch last_epoch

unfoldable pub restart : String → String → ℕ → Catalog → Result CatalogError Catalog
restart now book e c =
    if any (may_restart book e) c.states
    then ok (record c { states = update_where (may_restart book e) (restarted now) c.states })
    else err (reset_refusal (get_state book c))

unfoldable pub reset_position :
    (now book : String) → (expected_epoch : Value) → Catalog → Result CatalogError Catalog
reset_position now book expected_epoch c = do
  e ← check_int "position_epoch" expected_epoch
  restart now book e c

abbrev pub ingested : String → ℕ → ReadingState → ReadingState
ingested now n s = record s { ingest_progress = max s.ingest_progress n; updated_at = some now }

-- the UPDATE of `set_ingest_progress`, shared with `finalize_ingest`
unfoldable pub progress : String → String → ℕ → Catalog → Result CatalogError Catalog
progress now book n c =
    if any (of_book book) c.states
    then ok (record c { states = update_where (of_book book) (ingested now n) c.states })
    else err unknown_book

unfoldable pub set_ingest_progress :
    (now book : String) → (n : Value) → Catalog → Result CatalogError Catalog
set_ingest_progress now book n c = do k ← check_int "ingest_progress" n; progress now book k c

-- `Catalog.high_water`
unfoldable pub high_water : String → Catalog → Option ℕ
high_water book c = elim (get_state book c) [ none ↦ none | some s ↦ some s.bookmark ]
