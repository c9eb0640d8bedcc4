-- ===== src/Catalog/Costs.antt =====
-- The cost ledger and the reservations of backend/app/catalog/catalog.py. The fresh identifier of a
-- reservation (`uuid.uuid4().hex`), the instant, `str.startswith` and the
-- pattern test of SQL are parameters.
use reading_companion.Prelude.{
  ℕ, ◌+◌, String, Bool, false, not, ◌&&◌, Option, none, some, List, [], ◌∷◌, ◌++◌, str_eq, leb,
  ◌==◌, if◌then◌else◌, any, keep, total, Result, ok, err, ◌>>◌, require,
}
use reading_companion.Catalog.Rows.{
  Book, ReadingState, LedgerEntry, Reservation, Catalog, CatalogError, check_cost_value, shelved,
  get_state, unknown_book, scope_not_current, not_a_preparation_phase, preparation_ceiling_reached,
  ceiling_reached, integrity_error,
}
use reading_companion.Catalog.Shelf.{get_book}

-- what one call used, or is allowed to use
pub record Usage : Type 0 where
  pub input_tokens : ℕ
  pub output_tokens : ℕ
  pub usd : ℕ

-- the phase, chapter and model that a cost is booked under
pub record Booking : Type 0 where
  pub chapter_ordinal : Option ℕ
  pub phase : String
  pub model : Option String

abbrev pub check_usage : Usage → Result CatalogError (Unit {0})
check_usage u = do
  check_cost_value "input_tokens" u.input_tokens
  check_cost_value "output_tokens" u.output_tokens

-- `INTEGER PRIMARY KEY`: one more than the greatest identifier in use
abbrev pub next_entry : List LedgerEntry → ℕ
next_entry [] = 1
next_entry (e ∷ es) = let n = next_entry es in if leb n e.entry_id then e.entry_id + 1 else n

abbrev pub entry : String → String → Booking → Usage → ℕ → LedgerEntry
entry now book k u id = record {
  entry_id = id;
  book_id = book;
  chapter_ordinal = k.chapter_ordinal;
  phase = k.phase;
  model = k.model;
  input_tokens = u.input_tokens;
  output_tokens = u.output_tokens;
  usd = u.usd;
  at = now;
}

abbrev pub booked : LedgerEntry → Catalog → Catalog
booked e c = record c { ledger = c.ledger ++ (e ∷ []) }

-- the unique index on the extraction receipt of one chapter
abbrev pub same_ordinal : Option ℕ → ℕ → Bool
same_ordinal none n = false
same_ordinal (some m) n = m == n

abbrev pub is_receipt : String → ℕ → LedgerEntry → Bool
is_receipt book n e =
    str_eq e.book_id book && same_ordinal e.chapter_ordinal n && str_eq e.phase "extraction"

abbrev pub receipt_taken : String → Booking → List LedgerEntry → Bool
receipt_taken book k es = elim k.chapter_ordinal [
  | none ↦ false
  | some n ↦ str_eq k.phase "extraction" && any (is_receipt book n) es
]

-- the INSERT of a ledger row: its foreign key and its unique index
unfoldable pub insert_entry :
    String → String → Booking → Usage → Catalog → Result CatalogError Catalog
insert_entry now book k u c = do
  require (shelved book c) integrity_error
  require (not (receipt_taken book k c.ledger)) integrity_error
  ok (booked (entry now book k u (next_entry c.ledger)) c)

-- `except sqlite3.IntegrityError`
abbrev pub as_unknown_book : Result CatalogError Catalog → Result CatalogError Catalog
as_unknown_book (ok c) = ok c
as_unknown_book (err e) = err unknown_book

unfoldable pub record_cost :
    String → String → Booking → Usage → Catalog → Result CatalogError Catalog
record_cost now book k u c = do check_usage u; as_unknown_book (insert_entry now book k u c)

-- Sums over the rows of one book.
module _ (book : String) (c : Catalog) where
  abbrev pub ledger_of : List LedgerEntry
  ledger_of = keep (λ e. str_eq e.book_id book) c.ledger

  abbrev pub reservations_of : List Reservation
  reservations_of = keep (λ r. str_eq r.book_id book) c.reservations

  -- ledger and pending reservations together
  unfoldable pub committed : (LedgerEntry → ℕ) → (Reservation → ℕ) → ℕ
  committed spent held = total spent ledger_of + total held reservations_of

  abbrev pub committed_input : ℕ
  committed_input = committed (λ e. e.input_tokens) (λ r. r.reserved_input_tokens)

  abbrev pub committed_output : ℕ
  committed_output = committed (λ e. e.output_tokens) (λ r. r.reserved_output_tokens)

  abbrev pub committed_usd : ℕ
  committed_usd = committed (λ e. e.usd) (λ r. r.reserved_usd)

  -- `Catalog.total_cost`
  unfoldable pub total_cost : ℕ
  total_cost = total (λ (e : LedgerEntry). e.usd) ledger_of

-- the reading pass that a preparation was planned for
pub record Scope : Type 0 where
  pub incarnation : String
  pub epoch : ℕ
  pub frontier : ℕ

pub record Request : Type 0 where
  pub booking : Booking
  pub usage : Usage
  pub limits : Usage
  pub expected_reading_scope : Option Scope
  pub max_preparation_usd : Option ℕ

abbrev pub scope_matches : Scope → Option Book → Option ReadingState → Bool
scope_matches x (some b) (some s) =
    str_eq b.incarnation x.incarnation
    && s.position_epoch == x.epoch
    && s.bookmark == x.frontier
    && leb x.frontier s.ingest_progress
scope_matches x _ _ = false

abbrev pub check_scope : String → Option Scope → Catalog → Result CatalogError (Unit {0})
check_scope book none c = ok tt
check_scope book (some x) c =
    require (scope_matches x (get_book book c) (get_state book c)) scope_not_current

abbrev pub within : String → ℕ → ℕ → Result CatalogError (Unit {0})
within name projected limit = require (leb projected limit) (ceiling_reached name)

abbrev pub reservation : String → String → String → Booking → Usage → Reservation
reservation now id book k u = record {
  reservation_id = id;
  book_id = book;
  chapter_ordinal = k.chapter_ordinal;
  phase = k.phase;
  model = k.model;
  reserved_input_tokens = u.input_tokens;
  reserved_output_tokens = u.output_tokens;
  reserved_usd = u.usd;
  actual = none;
  at = now;
}

abbrev pub has_id : String → Reservation → Bool
has_id id r = str_eq r.reservation_id id

-- the INSERT of a reservation, whose identifier is a primary key
unfoldable pub reserve_row :
    String → String → String → Request → Catalog → Result CatalogError Catalog
reserve_row now id book q c = do
  require (not (any (has_id id) c.reservations)) integrity_error
  ok (record c {
    reservations = c.reservations ++ (reservation now id book q.booking q.usage ∷ []);
  })

module _ (starts_prepare like_prepare : String → Bool) where
  -- what `phase LIKE 'reader-prepare:%'` has spent or reserved
  unfoldable pub preparation_usd : String → Catalog → ℕ
  preparation_usd book c =
      total (λ (e : LedgerEntry). e.usd) (keep (λ e. like_prepare e.phase) (ledger_of book c))
      + total (λ (r : Reservation). r.reserved_usd)
          (keep (λ r. like_prepare r.phase) (reservations_of book c))

  abbrev pub check_preparation : String → Request → Catalog → Result CatalogError (Unit {0})
  check_preparation book q c = elim q.max_preparation_usd [
    | none ↦ ok tt
    | some limit ↦ do
      require (starts_prepare q.booking.phase) not_a_preparation_phase
      require (leb (preparation_usd book c + q.usage.usd) limit) preparation_ceiling_reached
  ]

  unfoldable pub reserve_cost :
      (now id book : String) → Request → Catalog → Result CatalogError Catalog
  reserve_cost now id book q c = do
    check_usage q.usage
    check_usage q.limits
    require (shelved book c) unknown_book
    check_scope book q.expected_reading_scope c
    check_preparation book q c
    within "input-token" (committed_input book c + q.usage.input_tokens) q.limits.input_tokens
    within "output-token" (committed_output book c + q.usage.output_tokens) q.limits.output_tokens
    within "USD" (committed_usd book c + q.usage.usd) q.limits.usd
    reserve_row now id book q c
