-- ===== src/Catalog/Shelf.antt =====
-- The shelf of backend/app/catalog/catalog.py: books come, change their schema version and go.
use reading_companion.Prelude.{
  ℕ, String, Bool, false, ◌&&◌, ◌||◌, Option, none, some, [], ◌∷◌, ◌++◌, str_eq, leb, ltb,
  if◌then◌else◌, any, find, Result, ok, err, ◌>>=◌, ◌>>◌, require, Value, not,
}
use reading_companion.Catalog.Rows.{
  Book, ReadingState, Catalog, CatalogError, check_int, update_where, delete_where, shelved,
  already_in_catalog, schema_not_positive, schema_newer,
}

-- the row that `INSERT INTO reading_state(book_id)` makes
abbrev pub fresh_state : String → ReadingState
fresh_state book = record {
  book_id = book;
  bookmark = 0;
  cfi = none;
  ingest_progress = 0;
  position_epoch = 0;
  updated_at = none;
}

-- a primary key of either INSERT is taken
abbrev pub key_taken : String → Catalog → Bool
key_taken book c = shelved book c || any (λ (s : ReadingState). str_eq s.book_id book) c.states

-- `b` is the row with its defaults filled in.
unfoldable pub add_book : Book → Catalog → Result CatalogError Catalog
add_book b c = do
  require (not (key_taken b.book_id c)) already_in_catalog
  ok (record c { books = c.books ++ (b ∷ []); states = c.states ++ (fresh_state b.book_id ∷ []) })

abbrev pub upgradable : String → ℕ → Book → Bool
upgradable book v b = str_eq b.book_id book && leb b.schema_version v

-- after an UPDATE of no row: a book that is not on the shelf yet is no error
abbrev pub schema_refused : ℕ → Option Book → Bool
schema_refused v none = false
schema_refused v (some b) = ltb v b.schema_version

unfoldable pub get_book : String → Catalog → Option Book
get_book book c = find (λ (b : Book). str_eq b.book_id book) c.books

unfoldable pub write_schema : String → ℕ → Catalog → Result CatalogError Catalog
unfolding get_book
write_schema book v c =
    if any (upgradable book v) c.books
    then ok (record c {
      books = update_where (upgradable book v) (λ b. record b { schema_version = v }) c.books;
    })
    else if schema_refused v (get_book book c)
    then err schema_newer
    else ok c

unfoldable pub set_schema_version : String → Value → Catalog → Result CatalogError Catalog
set_schema_version book version c = do
  v ← check_int "schema_version" version
  require (ltb 0 v) schema_not_positive
  write_schema book v c

unfoldable pub remove_book : String → Catalog → Result CatalogError Catalog
remove_book book c = ok (record c {
  reservations = delete_where (λ r. str_eq r.book_id book) c.reservations;
  ledger = delete_where (λ e. str_eq e.book_id book) c.ledger;
  states = delete_where (λ s. str_eq s.book_id book) c.states;
  books = delete_where (λ b. str_eq b.book_id book) c.books;
})
