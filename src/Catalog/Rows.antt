-- ===== src/Catalog/Rows.antt =====
-- The tables of backend/app/catalog/schema/catalog.sql and the statements on them. An amount in USD
-- is an exact natural number of the smallest unit in use: the rounding of floats is left out.
use reading_companion.Prelude.{
  ℕ, String, Bool, not, Option, List, map, str_eq, ltb, if◌then◌else◌, keep, any, find, Result, ok,
  err, require, pos, negsuc, Value, int,
}

pub record Book : Type 0 where
  pub book_id : String
  pub title : String
  pub author : Option String
  pub source : Option String
  pub source_id : Option String
  pub file_hash : Option String
  pub cover_path : Option String
  pub db_path : String
  pub schema_version : ℕ
  pub incarnation : String
  pub added_at : String

pub record ReadingState : Type 0 where
  pub book_id : String
  pub bookmark : ℕ
  pub cfi : Option String
  pub ingest_progress : ℕ
  pub position_epoch : ℕ
  pub updated_at : Option String

pub record LedgerEntry : Type 0 where
  pub entry_id : ℕ
  pub book_id : String
  pub chapter_ordinal : Option ℕ
  pub phase : String
  pub model : Option String
  pub input_tokens : ℕ
  pub output_tokens : ℕ
  pub usd : ℕ
  pub at : String

pub record Reservation : Type 0 where
  pub reservation_id : String
  pub book_id : String
  pub chapter_ordinal : Option ℕ
  pub phase : String
  pub model : Option String
  pub reserved_input_tokens : ℕ
  pub reserved_output_tokens : ℕ
  pub reserved_usd : ℕ
  pub actual : Option (ℕ × ℕ × ℕ)
  pub at : String

pub record Catalog : Type 0 where
  pub books : List Book
  pub states : List ReadingState
  pub ledger : List LedgerEntry
  pub reservations : List Reservation

pub data CatalogError : Type 0 where
  not_an_int out_of_range : (what : String) → CatalogError
  already_in_catalog unknown_book : CatalogError
  schema_not_positive schema_newer : CatalogError
  epoch_changed epoch_exhausted : CatalogError
  stale_incarnation scope_not_current : CatalogError
  not_a_preparation_phase preparation_ceiling_reached : CatalogError
  ceiling_reached : (name : String) → CatalogError
  unknown_reservation not_a_model integrity_error : CatalogError

-- the body of one locked transaction: it raises, or returns the tables that are committed
abbrev pub Body : Type 0
Body = Catalog → Result CatalogError Catalog

-- what the file holds after the call: every raise comes with a rollback
unfoldable pub settled : Body → Catalog → Catalog
settled body c = elim (body c) [ err e ↦ c | ok c' ↦ c' ]

-- `2 ** 63`
abbrev pub sqlite_limit : ℕ
sqlite_limit = 9223372036854775808

-- `Catalog._check_int`
unfoldable pub check_int : String → Value → Result CatalogError ℕ
check_int what (int (pos n)) = if ltb n sqlite_limit then ok n else err (out_of_range what)
check_int what (int (negsuc n)) = err (out_of_range what)
check_int what _ = err (not_an_int what)

-- `Catalog._check_cost_value`, on an integer that is not negative
abbrev pub check_cost_value : String → ℕ → Result CatalogError (Unit {0})
check_cost_value what n = require (ltb n sqlite_limit) (out_of_range what)

module _ {A : Type 0} where
  -- `UPDATE … SET … WHERE test`
  abbrev pub update_where : (A → Bool) → (A → A) → List A → List A
  update_where test set rows = map (λ r. if test r then set r else r) rows

  -- `DELETE … WHERE test`
  abbrev pub delete_where : (A → Bool) → List A → List A
  delete_where test rows = keep (λ r. not (test r)) rows

-- the row of `book_id` in `books`
unfoldable pub shelved : String → Catalog → Bool
shelved book c = any (λ (b : Book). str_eq b.book_id book) c.books

-- `Catalog.get_state`
unfoldable pub get_state : String → Catalog → Option ReadingState
get_state book c = find (λ (s : ReadingState). str_eq s.book_id book) c.states
