-- ===== src/Catalog/Replay.antt =====
-- Replays and delayed reports in backend/app/catalog/catalog.py.
use reading_companion.Prelude.{
  ℕ, ◌≡◌, refl, ◌∙◌, ap, sym, String, Bool, true, false, Option, none, some, List, [], ◌∷◌, ◌++◌,
  any, arith, Bool-cases, inl, inr, ok, err, after-require, bind-returns, if-returns, ltb,
  str_eq_refl, Value, max, subst, int, if-true, pos, if-false, ◌>>=◌, ◌>>◌, passed-check,
  ok_injective, require,
}
use reading_companion.Catalog.Rows.{
  ReadingState, LedgerEntry, Catalog, update_where, delete_where, check_int, sqlite_limit,
  get_state, epoch_changed, out_of_range, shelved, integrity_error,
}
use reading_companion.Catalog.Position.{
  in_epoch, may_restart, restarted, restart, advance, of_book, ingested, progress, last_epoch,
  reset_position, set_position, report_refusal,
}
use reading_companion.Catalog.Settling.{
  ChapterCost, finalize, upsert_receipt, corrected, extracts, extraction, receipted,
  check_incarnation, finalize_ingest, check_cost, write_receipt,
}
use reading_companion.Catalog.Costs.{is_receipt, entry, next_entry}

-- A reset leaves no row of the book in the epoch that it ended.
epoch_over :
    (now book : String) (e : ℕ) (rows : List ReadingState)
    → ltb e last_epoch ≡ true
    → any (in_epoch book e) (update_where (may_restart book e) (restarted now) rows) ≡ false
epoch_over now book e [] h = refl
epoch_over now book e (s ∷ rows) h = ground (arith, epoch_over now book e rows)

restart-open :
    (book : String) (e : ℕ) (rows : List ReadingState)
    → any (may_restart book e) rows ≡ true
    → ltb e last_epoch ≡ true
restart-open book e [] h = cc
restart-open book e (s ∷ rows) h = ground (arith, restart-open book e rows)

module _ {A : Type 0} (test : A → Bool) (set : A → A) where
  update_where-again :
      ((x : A) → set (set x) ≡ set x)
      → (xs : List A) → update_where test set (update_where test set xs) ≡ update_where test set xs
  update_where-again idem [] = refl
  update_where-again idem (x ∷ xs) = ground (arith, idem x, update_where-again idem xs)

  any-update_where :
      ((x : A) → test (set x) ≡ test x)
      → (xs : List A) → any test (update_where test set xs) ≡ any test xs
  any-update_where same [] = refl
  any-update_where same (x ∷ xs) = ground (arith, same x, any-update_where same xs)

-- After an UPDATE that found no row, the row that is inserted in its place is found.
upserted :
    {A : Type 0} (test : A → Bool) (set : A → A) (y : A)
    → test y ≡ true
    → set y ≡ y
    → (xs : List A) → any test xs ≡ false
    → (any test (xs ++ (y ∷ [])) ≡ true) × (update_where test set (xs ++ (y ∷ [])) ≡ xs ++ (y ∷ []))
upserted test set y t e [] h = ground arith
upserted test set y t e (x ∷ xs) h = ground (arith, upserted test set y t e xs)

delete_where-again :
    {A : Type 0} (d : A → Bool) (xs : List A)
    → delete_where d (delete_where d xs) ≡ delete_where d xs
delete_where-again d [] = refl
delete_where-again d (x ∷ xs) = ground (arith, delete_where-again d xs)

upsert_receipt-again :
    (now book : String) (n : ℕ) (k : ChapterCost) (es : List LedgerEntry)
    → upsert_receipt now book n k (upsert_receipt now book n k es) ≡ upsert_receipt now book n k es
upsert_receipt-again now book n k es =
    let new = entry now book (extraction n k) k.usage (next_entry es) in
    let test : LedgerEntry → Bool = is_receipt book n in
    let own : test new ≡ true = ground (arith, str_eq_refl book) in
    elim (Bool-cases (any test es)) [
      | inl t ↦ ground (
        arith,
        any-update_where test (corrected k) (λ x. refl) es,
        update_where-again test (corrected k) (λ x. refl) es,
      )
      | inr f ↦ ground (arith, upserted test (corrected k) new own refl es f)
    ]

ingested-again :
    (now : String) (n : ℕ) (s : ReadingState) → ingested now n (ingested now n s) ≡ ingested now n s
ingested-again now n s =
    let m : max (max s.ingest_progress n) n ≡ max s.ingest_progress n = omega arith in
    ap (λ k. record s { ingest_progress = k; updated_at = some now }) m

progress-again :
    (now book : String) (n : ℕ) (c c' : Catalog)
    → progress now book n c ≡ ok c'
    → progress now book n c' ≡ ok c'
unfolding progress
progress-again now book n c c' h =
    let (t, d) = if-returns (any (of_book book) c.states) _ h in
    let rows = update_where (of_book book) (ingested now n) c.states in
    let same = update_where-again (of_book book) (ingested now n) (ingested-again now n) c.states in
    let found = any-update_where (of_book book) (ingested now n) (λ s. refl) c.states ∙ t in
    subst (λ x. progress now book n x ≡ ok x) d
      (if-true (any (of_book book) rows) _ _ found ∙ ap (λ r. ok (record c { states = r })) same)

receipted-again :
    (now book : String) (n : ℕ) (k : ChapterCost) (c : Catalog)
    → receipted now book n k (receipted now book n k c) ≡ receipted now book n k c
receipted-again now book n k c =
    ap
      (λ es. record c {
        ledger = es;
        reservations =
            delete_where (extracts book n) (delete_where (extracts book n) c.reservations);
      })
      (upsert_receipt-again now book n k c.ledger)
    ∙ ap (λ rs. record c { ledger = upsert_receipt now book n k c.ledger; reservations = rs })
        (delete_where-again (extracts book n) c.reservations)

advance-stale :
    (now book : String) (cfi : Option String) (b e : ℕ) (c : Catalog) (s : ReadingState)
    → any (in_epoch book e) c.states ≡ false
    → get_state book c ≡ some s
    → advance now book cfi b e c ≡ err epoch_changed
unfolding advance
advance-stale now book cfi b e c s none_left f =
    if-false (any (in_epoch book e) c.states) _ _ none_left ∙ ap (λ m. err (report_refusal m)) f

-- A position report that was planned in the pass that a reset has ended is refused, whatever
-- ordinal it reports. The book has its reading state after the reset.
pub stale_report_refused :
    (now later book : String) (e : Value) (c c' : Catalog)
    → reset_position now book e c ≡ ok c'
    → (cfi : Option String) (b : ℕ) → ltb b sqlite_limit ≡ true
    → (s : ReadingState) → get_state book c' ≡ some s
    → set_position later book cfi (int (pos b)) e c' ≡ err epoch_changed
unfolding reset_position restart set_position check_int
stale_report_refused now later book e c c' h cfi b small s f =
    let (n, i, h') = bind-returns (check_int "position_epoch" e) h in
    let (t, d) = if-returns (any (may_restart book n) c.states) _ h' in
    let over = epoch_over now book n c.states (restart-open book n c.states t) in
    let left = ap (λ (x : Catalog). any (in_epoch book n) x.states) (sym d) ∙ over in
    ap (λ r. r >>= λ m. check_int "position_epoch" e >>= λ k. advance later book cfi m k c')
      (if-true (ltb b sqlite_limit) (ok b) (err (out_of_range "bookmark")) small)
    ∙ ap (λ r. r >>= λ k. advance later book cfi b k c') i
    ∙ advance-stale later book cfi b n c' s left f

progress-books :
    (now book : String) (n : ℕ) (c c' : Catalog)
    → progress now book n c ≡ ok c'
    → c'.books ≡ c.books
unfolding progress
progress-books now book n c c' h = ground arith

check_incarnation-books :
    (book : String) (i : Option String) (c c' : Catalog)
    → c'.books ≡ c.books
    → check_incarnation book i c ≡ ok tt
    → check_incarnation book i c' ≡ ok tt
check_incarnation-books book none c c' e h = refl
check_incarnation-books book (some i) c c' e h =
    ap (λ bs. check_incarnation book (some i) (record c { books = bs })) e ∙ h

progress-receipted :
    (now book : String) (n : ℕ) (k : ChapterCost) (c c' : Catalog)
    → progress now book n (receipted now book n k c) ≡ ok c'
    → receipted now book n k c' ≡ c'
unfolding progress
progress-receipted now book n k c c' h =
    let (_, d) = if-returns (any (of_book book) c.states) _ h in
    let rows = update_where (of_book book) (ingested now n) c.states in
    subst (λ x. receipted now book n k x ≡ x) d
      (ap (λ (x : Catalog). record x { states = rows }) (receipted-again now book n k c))

-- What the second `finalize_ingest` reads and writes is what the first one left.
finalize-again :
    (now book : String) (n : ℕ) (cost : Option ChapterCost) (i : Option String) (c c' : Catalog)
    → finalize now book n cost i c ≡ ok c'
    → finalize now book n cost i c' ≡ ok c'
unfolding finalize shelved
finalize-again now book n none i c c' h =
    let (g, p) = passed-check (check_incarnation book i c) h in
    ap (λ r. r >> progress now book n c')
      (check_incarnation-books book i c c' (progress-books now book n c c' p) g)
    ∙ progress-again now book n c c' p
finalize-again now book n (some k) i c c' h =
    let (g, h') = passed-check (check_incarnation book i c) h in
    let (d, w, p) = bind-returns (write_receipt now book n (some k) c) h' in
    let (s, r) = after-require (shelved book c) integrity_error w in
    let p' = subst (λ x. progress now book n x ≡ ok c') (sym (ok_injective r)) p in
    let books = progress-books now book n (receipted now book n k c) c' p' in
    let on_shelf : shelved book c' ≡ true =
      ap (λ bs. shelved book (record c { books = bs })) books ∙ s in
    ap (λ r. r >> (write_receipt now book n (some k) c' >>= progress now book n))
      (check_incarnation-books book i c c' books g)
    ∙ ap
        (λ t. (require t integrity_error >> ok (receipted now book n k c')) >>= progress now book n)
        on_shelf
    ∙ ap (progress now book n) (progress-receipted now book n k c c' p')
    ∙ progress-again now book n (receipted now book n k c) c' p'

-- A chapter that is reconciled twice, at one instant, ends as after the first time: its receipt is
-- booked once, its reservations stay gone, and the progress is the same.
pub finalize_ingest_idempotent :
    (now book : String) (n : Value) (cost : Option ChapterCost) (i : Option String) (c c' : Catalog)
    → finalize_ingest now book n cost i c ≡ ok c'
    → finalize_ingest now book n cost i c' ≡ ok c'
unfolding finalize_ingest
finalize_ingest_idempotent now book n cost i c c' h =
    let (k, r, h') = bind-returns (check_int "ingest_progress" n) h in
    let (g, h'') = passed-check (check_cost cost) h' in
    ap (λ x. x >>= λ m. check_cost cost >> finalize now book m cost i c') r
    ∙ ap (λ x. x >> finalize now book k cost i c') g
    ∙ finalize-again now book k cost i c c' h''
