-- ===== src/Catalog/Ceilings.antt =====
-- What a book may spend by the reservations of backend/app/catalog/catalog.py: ledger and pending
-- reservations together, under every order of the calls.
use reading_companion.Prelude.{
  ℕ, ◌+◌, ◌≤◌, ◌≡◌, refl, String, Bool, true, not, Option, none, some, str_eq, find, any,
  if◌then◌else◌, arith, ok, err, bind-returns, require, after-require, after-check, leb, ap, leb→le,
  str_eq_refl, sym, ok_injective, ◌∙◌, total-keep-append, find-holds, str_eq→eq, and→both,
}
use reading_companion.Catalog.Rows.{
  Reservation, LedgerEntry, Catalog, delete_where, shelved, unknown_book, integrity_error,
  unknown_reservation,
}
use reading_companion.Catalog.Costs.{
  Usage, Booking, Request, has_id, entry, committed, reserve_cost, insert_entry, committed_input,
  committed_output, committed_usd, check_scope, check_preparation, check_usage, reserve_row,
  reservation, booked, next_entry, receipt_taken,
}
use reading_companion.Catalog.Settling.{
  owned, settle_cost, booking_of, usage_of, settle_row, without,
}
use reading_companion.Catalog.Keyed.{keyed, total-delete_where, find-none, any-deleted}

-- A `SELECT SUM` after one more row.
reserve_row-committed :
    (spent : LedgerEntry → ℕ) (held : Reservation → ℕ) (now id book : String) (q : Request)
    (c c' : Catalog)
    → reserve_row now id book q c ≡ ok c'
    → (other : String)
    → committed other c' spent held
      ≡ committed other c spent held
        + (if str_eq book other then held (reservation now id book q.booking q.usage) else 0)
unfolding reserve_row committed
reserve_row-committed spent held now id book q c c' h other =
    let r = reservation now id book q.booking q.usage in
    let (_, h') = after-require (not (any (has_id id) c.reservations)) integrity_error h in
    let mine : Reservation → Bool = λ x. str_eq x.book_id other in
    ap (λ d. committed other d spent held) (sym (ok_injective h'))
    ∙ omega (arith, total-keep-append mine held c.reservations r)

module _ (starts like : String → Bool) where
  -- The three sums were tested before the row was written.
  granted :
      (now id book : String) (q : Request) (c c' : Catalog)
      → reserve_cost starts like now id book q c ≡ ok c'
      → (committed_input book c + q.usage.input_tokens ≤ q.limits.input_tokens)
        × (committed_output book c + q.usage.output_tokens ≤ q.limits.output_tokens)
        × (committed_usd book c + q.usage.usd ≤ q.limits.usd)
        × (reserve_row now id book q c ≡ ok c')
  unfolding reserve_cost
  granted now id book q c c' h =
      let h1 = after-check (check_usage q.usage) h in
      let h2 = after-check (check_usage q.limits) h1 in
      let h3 = after-check (require (shelved book c) unknown_book) h2 in
      let h4 = after-check (check_scope book q.expected_reading_scope c) h3 in
      let h5 = after-check (check_preparation starts like book q c) h4 in
      let (i, h6) =
        after-require (leb (committed_input book c + q.usage.input_tokens) q.limits.input_tokens) _
          h5 in
      let (o, h7) =
        after-require (leb (committed_output book c + q.usage.output_tokens) q.limits.output_tokens)
          _ h6 in
      let (u, h8) = after-require (leb (committed_usd book c + q.usage.usd) q.limits.usd) _ h7 in
      (leb→le _ _ i, leb→le _ _ o, leb→le _ _ u, h8)

  -- A reservation that is granted leaves every sum of the book, pending reservations included, within
  -- the limits that it was asked under, and raises the amount of USD by just the usage reserved.
  pub reserve_within_ceilings :
      (now id book : String) (q : Request) (c c' : Catalog)
      → reserve_cost starts like now id book q c ≡ ok c'
      → (committed_input book c' ≤ q.limits.input_tokens)
        × (committed_output book c' ≤ q.limits.output_tokens)
        × (committed_usd book c' ≤ q.limits.usd)
        × (committed_usd book c' ≡ committed_usd book c + q.usage.usd)
  reserve_within_ceilings now id book q c c' h =
      let (i, o, u, w) = granted now id book q c c' h in
      let own = str_eq_refl book in
      ground (
        arith,
        reserve_row-committed (λ e. e.input_tokens) (λ r. r.reserved_input_tokens) now id book q c
            c' w book,
        reserve_row-committed (λ e. e.output_tokens) (λ r. r.reserved_output_tokens) now id book q c
            c' w book,
        reserve_row-committed (λ e. e.usd) (λ r. r.reserved_usd) now id book q c c' w book,
      )

insert_entry-booked :
    (now book : String) (k : Booking) (u : Usage) (c d : Catalog)
    → insert_entry now book k u c ≡ ok d
    → booked (entry now book k u (next_entry c.ledger)) c ≡ d
unfolding insert_entry
insert_entry-booked now book k u c d h = ok_injective (
    after-check (require (not (receipt_taken book k c.ledger)) integrity_error)
      (after-check (require (shelved book c) integrity_error) h))

-- A settlement moves the row's usage from the one table to the other.
module _ (spent : LedgerEntry → ℕ) (held : Reservation → ℕ) where
  settle_row-committed :
      (now book id : String) (phase : Option String) (r : Reservation) (c c' : Catalog)
      → spent (entry now book (booking_of phase r) (usage_of r) (next_entry c.ledger)) ≡ held r
      → keyed c.reservations ≡ true
      → find (owned book id) c.reservations ≡ some r
      → settle_row now book id phase (some r) c ≡ ok c'
      → (other : String) → committed other c' spent held ≡ committed other c spent held
  unfolding committed
  settle_row-committed now book id phase r c c' same k f h other =
      let (d, e, h') = bind-returns (insert_entry now book (booking_of phase r) (usage_of r) c) h in
      let new = entry now book (booking_of phase r) (usage_of r) (next_entry c.ledger) in
      let done : without id (booked new c) ≡ c' =
        ap (without id) (insert_entry-booked now book (booking_of phase r) (usage_of r) c d e)
        ∙ ok_injective h' in
      let own : r.book_id ≡ book =
        str_eq→eq r.book_id book (and→both _ _ (find-holds (owned book id) c.reservations r f)).1 in
      let share : (if str_eq book other then spent new else 0)
          ≡ (if str_eq r.book_id other then held r else 0) =
        ap (λ n. if str_eq book other then n else 0) same
        ∙ ap (λ b. if str_eq b other then held r else 0) (sym own) in
      ap (λ x. committed other x spent held) (sym done)
      ∙ omega (
        arith,
        share,
        total-keep-append (λ e. str_eq e.book_id other) spent c.ledger new,
        total-delete_where (λ x. str_eq x.book_id other) held book id c.reservations r k f,
      )

  settle-committed :
      (now book id : String) (phase : Option String) (c c' : Catalog)
      → ((r : Reservation)
          → spent (entry now book (booking_of phase r) (usage_of r) (next_entry c.ledger)) ≡ held r)
      → keyed c.reservations ≡ true
      → settle_cost now book id phase c ≡ ok c'
      → (other : String) → committed other c' spent held ≡ committed other c spent held
  unfolding settle_cost
  settle-committed now book id phase c c' same k h other =
      go (find (owned book id) c.reservations) refl h
    where
      go :
          (m : Option Reservation)
          → find (owned book id) c.reservations ≡ m
          → settle_row now book id phase m c ≡ ok c'
          → committed other c' spent held ≡ committed other c spent held
      go none f h = cc
      go (some r) f h = settle_row-committed now book id phase r c c' (same r) k f h other

settle_cost-reservations :
    (now book id : String) (phase : Option String) (c c' : Catalog)
    → settle_cost now book id phase c ≡ ok c'
    → c'.reservations ≡ delete_where (has_id id) c.reservations
unfolding settle_cost insert_entry
settle_cost-reservations now book id phase c c' h = ground arith

settle_again :
    (now book id : String) (phase : Option String) (c c' : Catalog)
    → settle_cost now book id phase c ≡ ok c'
    → settle_cost now book id phase c' ≡ err unknown_reservation
unfolding settle_cost
settle_again now book id phase c c' h =
    ap (λ m. settle_row now book id phase m c')
      (ap (find (owned book id)) (settle_cost-reservations now book id phase c c' h)
        ∙ find-none (has_id id) (λ a. str_eq a.book_id book)
            (delete_where (has_id id) c.reservations) (any-deleted (has_id id) c.reservations))

-- A settlement that returns moves the reserved usage into the ledger: for every book each of the
-- three sums over ledger and pending reservations is what it was, so nothing is lost or counted twice.
-- The reservation is gone afterwards, so that a second settlement of it raises. The identifiers of
-- the reservations are distinct, as the primary key says.
pub settle_conserves :
    (now book id : String) (phase : Option String) (c c' : Catalog)
    → keyed c.reservations ≡ true
    → settle_cost now book id phase c ≡ ok c'
    → (other : String)
    → (committed_input other c' ≡ committed_input other c)
      × (committed_output other c' ≡ committed_output other c)
      × (committed_usd other c' ≡ committed_usd other c)
      × (settle_cost now book id phase c' ≡ err unknown_reservation)
settle_conserves now book id phase c c' k h other = (
  settle-committed (λ e. e.input_tokens) (λ r. r.reserved_input_tokens) now book id phase c c'
      (λ r. refl) k h other,
  settle-committed (λ e. e.output_tokens) (λ r. r.reserved_output_tokens) now book id phase c c'
      (λ r. refl) k h other,
  settle-committed (λ e. e.usd) (λ r. r.reserved_usd) now book id phase c c' (λ r. refl) k h other,
  settle_again now book id phase c c' h,
)
