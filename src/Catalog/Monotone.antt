-- ===== src/Catalog/Monotone.antt =====
-- The frontier of a book in the catalog of backend/app/catalog/catalog.py over time.
use reading_companion.Prelude.{
  ℕ, ◌≤◌, ◌<◌, ◌≡◌, ◌⊎◌, refl, String, Bool, true, false, not, Option, some, List, [], ◌∷◌, str_eq,
  find, any, all, Result, ok, err, arith, Value, bind-returns, require, if◌then◌else◌, ◌∙◌, ap,
  subst, if-returns, sym, ok_injective, str_eq-apart,
}
use reading_companion.Catalog.Untouched.{
  write_receipt-states, set_schema_version-states, record_cost-states, reserve_cost-states,
  note-states, settle_cost-states, discard-states, find-append, find-delete_where,
  find-update_where,
}
use reading_companion.Catalog.Rows.{
  Book, ReadingState, Catalog, CatalogError, settled, get_state, update_where, check_int,
  already_in_catalog,
}
use reading_companion.Catalog.Shelf.{add_book, remove_book, key_taken, fresh_state}
use reading_companion.Catalog.Position.{
  set_position, reset_position, set_ingest_progress, advance, restart, progress, of_book, in_epoch,
  may_restart, ingested, reported, restarted,
}
use reading_companion.Catalog.Settling.{
  ChapterCost, finalize_ingest, finalize, write_receipt, check_incarnation, check_cost,
}
use reading_companion.Catalog.Calls.{Call, perform, run, keeps}

-- The state of a book never loses ground: a new epoch, or at least the same bookmark.
abbrev pub Advances : ReadingState → ReadingState → Type 0
Advances s s' =
    (s.ingest_progress ≤ s'.ingest_progress)
    × ((s.position_epoch < s'.position_epoch)
        ⊎ ((s.position_epoch ≡ s'.position_epoch) × (s.bookmark ≤ s'.bookmark)))

Advances-trans : (s s' s'' : ReadingState) → Advances s s' → Advances s' s'' → Advances s s''
Advances-trans s s' s'' f g = ground arith

Advances-refl : (s : ReadingState) → Advances s s
Advances-refl s = ground arith

abbrev pub Kept : String → Catalog → Catalog → Type 0
Kept book c c' =
    (s : ReadingState)
    → get_state book c ≡ some s
    → (s' : ReadingState) × (get_state book c' ≡ some s') × Advances s s'

Kept-refl : (book : String) (c : Catalog) → Kept book c c
Kept-refl book c s h = (s, h, Advances-refl s)

Kept-states : (book : String) (c c' : Catalog) → c'.states ≡ c.states → Kept book c c'
unfolding get_state
Kept-states book c c' e s h = (s, ap (find (of_book book)) e ∙ h, Advances-refl s)

-- An UPDATE of the states that advances each row keeps every book.
Kept-update_where :
    (book : String) (c : Catalog) (test : ReadingState → Bool) (set : ReadingState → ReadingState)
    → ((s : ReadingState) → (set s).book_id ≡ s.book_id)
    → ((s : ReadingState) → Advances s (set s))
    → Kept book c (record c { states = update_where test set c.states })
unfolding get_state
Kept-update_where book c test set same up s h = (
  if test s then set s else s,
  find-update_where (of_book book) test set (λ x. ap (λ k. str_eq k book) (same x)) c.states h,
  elim (test s) as (λ t. Advances s (if t then set s else s)) [
    | true ↦ up s
    | false ↦ Advances-refl s
  ],
)

advance-Kept :
    (now book other : String) (cfi : Option String) (b e : ℕ) (c c' : Catalog)
    → advance now other cfi b e c ≡ ok c'
    → Kept book c c'
unfolding advance
advance-Kept now book other cfi b e c c' h =
    subst (Kept book c) (if-returns (any (in_epoch other e) c.states) _ h).1 (
      Kept-update_where book c (in_epoch other e) (reported now cfi b) (λ s. refl)
        (λ s. ground arith))

restart-Kept :
    (now book other : String) (e : ℕ) (c c' : Catalog)
    → restart now other e c ≡ ok c'
    → Kept book c c'
unfolding restart
restart-Kept now book other e c c' h =
    subst (Kept book c) (if-returns (any (may_restart other e) c.states) _ h).1 (
      Kept-update_where book c (may_restart other e) (restarted now) (λ s. refl)
        (λ s. ground arith))

progress-Kept :
    (now book other : String) (n : ℕ) (c c' : Catalog)
    → progress now other n c ≡ ok c'
    → Kept book c c'
unfolding progress
progress-Kept now book other n c c' h =
    subst (Kept book c) (if-returns (any (of_book other) c.states) _ h).1
      (Kept-update_where book c (of_book other) (ingested now n) (λ s. refl) (λ s. ground arith))

finalize-Kept :
    (now book other : String) (n : ℕ) (k : Option ChapterCost) (i : Option String) (c c' : Catalog)
    → finalize now other n k i c ≡ ok c'
    → Kept book c c'
unfolding finalize get_state
finalize-Kept now book other n k i c c' h =
    let (_, _, h') = bind-returns (check_incarnation other i c) h in
    let (m, w, h'') = bind-returns (write_receipt now other n k c) h' in
    λ s f.
      progress-Kept now book other n m c' h'' s
        (ap (find (of_book book)) (write_receipt-states now other n k c m w) ∙ f)

add_book-Kept : (book : String) (b : Book) (c c' : Catalog) → add_book b c ≡ ok c' → Kept book c c'
unfolding add_book get_state
add_book-Kept book b c c' h s f =
    let (_, _, h') = bind-returns (require (not (key_taken b.book_id c)) already_in_catalog) h in
    (
      s,
      ap (get_state book) (sym (ok_injective h'))
          ∙ find-append (of_book book) c.states (fresh_state b.book_id ∷ []) f,
      Advances-refl s,
    )

remove_book-Kept :
    (book other : String) (c c' : Catalog)
    → str_eq other book ≡ false
    → remove_book other c ≡ ok c'
    → Kept book c c'
unfolding remove_book get_state
remove_book-Kept book other c c' ne h s f = (
  s,
  ap (get_state book) (sym (ok_injective h))
      ∙ find-delete_where (of_book book) (of_book other)
          (λ x t. str_eq-apart x.book_id book other t ne) c.states
      ∙ f,
  Advances-refl s,
)

set_position-Kept :
    (now book other : String) (cfi : Option String) (b e : Value) (c c' : Catalog)
    → set_position now other cfi b e c ≡ ok c'
    → Kept book c c'
unfolding set_position
set_position-Kept now book other cfi b e c c' h =
    let (m, _, h') = bind-returns (check_int "bookmark" b) h in
    let (n, _, h'') = bind-returns (check_int "position_epoch" e) h' in
    advance-Kept now book other cfi m n c c' h''

reset_position-Kept :
    (now book other : String) (e : Value) (c c' : Catalog)
    → reset_position now other e c ≡ ok c'
    → Kept book c c'
unfolding reset_position
reset_position-Kept now book other e c c' h =
    let (n, _, h') = bind-returns (check_int "position_epoch" e) h in
    restart-Kept now book other n c c' h'

set_ingest_progress-Kept :
    (now book other : String) (n : Value) (c c' : Catalog)
    → set_ingest_progress now other n c ≡ ok c'
    → Kept book c c'
unfolding set_ingest_progress
set_ingest_progress-Kept now book other n c c' h =
    let (k, _, h') = bind-returns (check_int "ingest_progress" n) h in
    progress-Kept now book other k c c' h'

finalize_ingest-Kept :
    (now book other : String) (n : Value) (k : Option ChapterCost) (i : Option String)
    (c c' : Catalog)
    → finalize_ingest now other n k i c ≡ ok c'
    → Kept book c c'
unfolding finalize_ingest
finalize_ingest-Kept now book other n k i c c' h =
    let (m, _, h') = bind-returns (check_int "ingest_progress" n) h in
    let (_, _, h'') = bind-returns (check_cost k) h' in finalize-Kept now book other m k i c c' h''

module _ (p q : String → Bool) (book : String) where
  perform-Kept :
      (x : Call) (c c' : Catalog) → keeps book x ≡ true → perform p q x c ≡ ok c' → Kept book c c'
  unfolding perform
  perform-Kept (Call.call_add_book b) c c' k h = add_book-Kept book b c c' h
  perform-Kept (Call.call_set_schema_version o v) c c' k h =
      Kept-states book c c' (set_schema_version-states o v c c' h)
  perform-Kept (Call.call_remove_book o) c c' k h = remove_book-Kept book o c c' (ground arith) h
  perform-Kept (Call.call_set_position now o cfi b e) c c' k h =
      set_position-Kept now book o cfi b e c c' h
  perform-Kept (Call.call_reset_position now o e) c c' k h = reset_position-Kept now book o e c c' h
  perform-Kept (Call.call_set_ingest_progress now o n) c c' k h =
      set_ingest_progress-Kept now book o n c c' h
  perform-Kept (Call.call_finalize_ingest now o n m i) c c' k h =
      finalize_ingest-Kept now book o n m i c c' h
  perform-Kept (Call.call_record_cost now o b u) c c' k h =
      Kept-states book c c' (record_cost-states now o b u c c' h)
  perform-Kept (Call.call_reserve_cost now id o r) c c' k h =
      Kept-states book c c' (reserve_cost-states p q now id o r c c' h)
  perform-Kept (Call.call_note_reservation_actual o id u m) c c' k h =
      Kept-states book c c' (note-states o id u m c c' h)
  perform-Kept (Call.call_settle_cost now o id phase) c c' k h =
      Kept-states book c c' (settle_cost-states now o id phase c c' h)
  perform-Kept (Call.call_discard_cost_reservation o id) c c' k h =
      Kept-states book c c' (discard-states o id c c' h)

  -- One call, whether it returns or raises.
  settled-Kept :
      (x : Call) (c : Catalog) → keeps book x ≡ true → Kept book c (settled (perform p q x) c)
  unfolding settled
  settled-Kept x c k = go (perform p q x c) refl
    where
      go :
          (r : Result CatalogError Catalog)
          → perform p q x c ≡ r
          → Kept book c (elim r [ err e ↦ c | ok c' ↦ c' ])
      go (err e) h = Kept-refl book c
      go (ok c') h = perform-Kept x c c' k h

  -- Whatever calls follow one another, returning or raising, while the book is not removed: it keeps
  -- its reading state, the ingest progress never falls, and its bookmark never falls but with a
  -- new position epoch, which is greater than every earlier one.
  pub frontier-Advances :
      (xs : List Call) (c : Catalog)
      → all (keeps book) xs ≡ true
      → (s : ReadingState) → get_state book c ≡ some s
      → (s' : ReadingState) × (get_state book (run p q xs c) ≡ some s') × Advances s s'
  unfolding run
  frontier-Advances [] c k s f = (s, f, Advances-refl s)
  frontier-Advances (x ∷ xs) c k s f =
      let (s₁, f₁, a₁) = settled-Kept x c (ground arith) s f in
      let (s₂, f₂, a₂) = frontier-Advances xs (settled (perform p q x) c) (ground arith) s₁ f₁ in
      (s₂, f₂, Advances-trans s s₁ s₂ a₁ a₂)
