-- ===== src/Memory/Writers/Supersession.antt =====
-- `replace_edge`: story-time supersession leaves no gap and no overlap, at any bookmark.
use reading_companion.Prelude.{
  ℕ, suc, ◌+◌, ◌<◌, ◌≡◌, refl, ap, ◌∙◌, String, Bool, true, ◌&&◌, none, some, List, [], ◌∷◌, ◌++◌,
  if◌then◌else◌, keep, find, length, length-append, keep-append, arith, ℤ, leb_int, pos, negsuc,
  sort_by, insert_by, map, Bool-cases, inl, inr, sym, str_eq_iff, subst,
}
use reading_companion.Memory.Rows.{Row, Edge, TableName, Tables}
use reading_companion.Memory.Select.{visible, select, is_live}
use reading_companion.Memory.Writers.{supersede_edge}
use reading_companion.Memory.Views.{characters, catch_me_up, relationships, vis_entity}
use reading_companion.Memory.Select.{fetch}
use reading_companion.Memory.Writers.Statements.{ended-absent, appended, last_rowid}
use reading_companion.Memory.Rows.{Tables}
use reading_companion.Prelude.{ok}
use native.Mathlib.Nat.{add-zero}
use reading_companion.Memory.Writers.Statements.{is_target, ended, may_end}

length-map : {A B : Type 0} (f : A → B) (xs : List A) → length (map f xs) ≡ length xs
length-map f [] = refl
length-map f (x ∷ xs) = ap suc (length-map f xs)

length-insert_by :
    {A : Type 0} (le : A → A → Bool) (x : A) (xs : List A)
    → length (insert_by le x xs) ≡ suc (length xs)
length-insert_by le x [] = refl
length-insert_by le x (y ∷ ys) = ground (arith, length-insert_by le x ys)

length-sort_by : {A : Type 0} (le : A → A → Bool) (xs : List A) → length (sort_by le xs) ≡ length xs
length-sort_by le [] = refl
length-sort_by le (x ∷ xs) = length-insert_by le x (sort_by le xs) ∙ ap suc (length-sort_by le xs)

abbrev one_if : Bool → ℕ
one_if b = if b then 1 else 0

module _ (book : String) (id at : ℕ) (b : ℤ) (q : Row Edge → Bool)
    (ignores_expiry : (r : Row Edge) → q (record r { invalid_at = some at }) ≡ q r) where
  shown : List (Row Edge) → ℕ
  shown rows = length (select book TableName.edges b q rows)

  shown-append : (xs ys : List (Row Edge)) → shown (xs ++ ys) ≡ shown xs + shown ys
  unfolding shown select
  shown-append xs ys =
      ap length (keep-append (λ r. visible book TableName.edges b r && q r) xs ys)
      ∙ length-append (keep (λ r. visible book TableName.edges b r && q r) xs) _

  shown-cons :
      (r : Row Edge) (rows : List (Row Edge))
      → shown (r ∷ rows) ≡ one_if (visible book TableName.edges b r && q r) + shown rows
  unfolding shown select
  shown-cons r rows = ground arith

  -- one row, before and after its end is set
  row_ended :
      (r : Row Edge)
      → is_target book id r ≡ true
      → r.invalid_at ≡ none
      → is_live r.retracted_at ≡ true
      → r.revealed_at < at
      → one_if (visible book TableName.edges b (record r { invalid_at = some at }) && q r)
          + one_if (leb_int at b && q r)
        ≡ one_if (visible book TableName.edges b r && q r)
  unfolding visible
  row_ended r x o l s = ordinal_split b r x o l s
    where
      ordinal_split :
          (z : ℤ) (r : Row Edge)
          → is_target book id r ≡ true
          → r.invalid_at ≡ none
          → is_live r.retracted_at ≡ true
          → r.revealed_at < at
          → one_if (visible book TableName.edges z (record r { invalid_at = some at }) && q r)
              + one_if (leb_int at z && q r)
            ≡ one_if (visible book TableName.edges z r && q r)
      ordinal_split (pos n) r x o l s = ground arith
      ordinal_split (negsuc n) r x o l s = ground arith

  hit :
      (r : Row Edge) (rows : List (Row Edge))
      → one_if (visible book TableName.edges b (record r { invalid_at = some at }) && q r)
          + one_if (leb_int at b && q r)
        ≡ one_if (visible book TableName.edges b r && q r)
      → shown (record r { invalid_at = some at } ∷ rows) + one_if (leb_int at b && q r)
        ≡ shown (r ∷ rows)
  hit r rows e =
      rw (shown-cons (record r { invalid_at = some at }) rows, shown-cons r rows, ignores_expiry r)
        (omega arith)

  shown-ended :
      (rows : List (Row Edge)) (old : Row Edge)
      → length (keep (is_target book id) rows) ≡ 1
      → find (is_target book id) rows ≡ some old
      → old.invalid_at ≡ none
      → is_live old.retracted_at ≡ true
      → old.revealed_at < at
      → shown (ended book id at rows) + one_if (leb_int at b && q old) ≡ shown rows
  unfolding ended
  shown-ended [] old h f o l s = absurd (omega arith)
  shown-ended (r ∷ rows) old h f o l s = elim (Bool-cases (is_target book id r)) [
    | inl x ↦
        let e : old ≡ r = ground arith in
        let open_end = ap (λ (v : Row Edge). v.invalid_at) (sym e) ∙ o in
        let live = ap (λ (v : Row Edge). is_live v.retracted_at) (sym e) ∙ l in
        let earlier = subst (λ (v : Row Edge). v.revealed_at < at) e s in
        rw (x, e)
          (ap (λ l. shown (record r { invalid_at = some at } ∷ l) + one_if (leb_int at b && q r))
              (ended-absent book id at rows (ground arith))
            ∙ hit r rows (row_ended r x open_end live earlier))
    | inr x ↦ rw x (
        rw (shown-cons r (ended book id at rows), shown-cons r rows)
          (omega (arith, shown-ended rows old (ground arith) (ground arith) o l s)))
  ]

-- A bookmark below the new row's ordinal does not see it; from there on it is shown if the row that
-- it replaces would be.
new_row_shown :
    (book : String) (at : ℕ) (b : ℤ) (q : Row Edge → Bool) (r : Row Edge)
    → r.book_id ≡ book
    → r.revealed_at ≡ at
    → r.invalid_at ≡ none
    → r.retracted_at ≡ none
    → one_if (visible book TableName.edges b r && q r) ≡ one_if (leb_int at b && q r)
unfolding visible
new_row_shown book at b q r own when open_end live =
    ground (arith, (str_eq_iff r.book_id book).1 own)

may_end-target :
    (book : String) (id at : ℕ) (rows : List (Row Edge)) (old : Row Edge)
    → may_end book id at rows ≡ true
    → find (is_target book id) rows ≡ some old
    → old.revealed_at < at
unfolding may_end
may_end-target book id at [] old h f = cc
may_end-target book id at (r ∷ rows) old h f = ground (arith, may_end-target book id at rows old)

length-fetch :
    {A B : Type 0} (book : String) (t : TableName) (b : ℤ) (w : Row A → Bool)
    (order : Row A → Row A → Bool) (cols : Row A → B) (rows : List (Row A))
    → length (fetch book t b w order cols rows) ≡ length (select book t b w rows)
unfolding fetch
length-fetch book t b w order cols rows =
    length-map cols (sort_by order (select book t b w rows))
    ∙ length-sort_by order (select book t b w rows)

length-relationships :
    (book : String) (b : ℤ) (t : Tables)
    → length (relationships book b t)
      ≡ length (
          select book TableName.edges b
            (λ r. vis_entity book b t r.body.src_entity && vis_entity book b t r.body.dst_entity)
            t.edges)
unfolding relationships
length-relationships book b t = length-fetch book TableName.edges b _ _ _ t.edges

module _ (book : String) (id at n : ℕ) (rel_type label : String) (old : Row Edge) (t t' : Tables)
    (run : supersede_edge book id at rel_type label (some old) t ≡ (ok n, t')) where
  abbrev successor : Edge
  successor = record (old.body) { rel_type = rel_type; label = label }

  supersede_edge-ok :
      (may_end book id at t.edges ≡ true)
      × (t' ≡ record t { edges = appended book at none successor (ended book id at t.edges) })
  unfolding supersede_edge
  supersede_edge-ok = ground arith

  shown-successor :
      (b : ℤ) (q : ℕ → ℕ → Bool)
      → old.revealed_at < at
      → find (is_target book id) t.edges ≡ some old
      → length (keep (is_target book id) t.edges) ≡ 1
      → old.invalid_at ≡ none
      → is_live old.retracted_at ≡ true
      → length (
          select book TableName.edges b
            (λ r. q r.body.src_entity r.body.dst_entity)
            (appended book at none successor (ended book id at t.edges)))
        ≡ length
            (select book TableName.edges b (λ r. q r.body.src_entity r.body.dst_entity) t.edges)
  unfolding appended shown select
  shown-successor b q earlier found once open_end live =
      let test : Row Edge → Bool = λ r. q r.body.src_entity r.body.dst_entity in
      let new : Row Edge = record {
        rowid = last_rowid (ended book id at t.edges) + 1;
        book_id = book;
        revealed_at = at;
        invalid_at = none;
        retracted_at = none;
        body = successor;
      } in
      let split =
        shown-append book id at b test (λ r. refl) (ended book id at t.edges) (new ∷ []) in
      let single = shown-cons book id at b test (λ r. refl) new [] in
      let added = new_row_shown book at b test new refl refl refl refl in
      let moved =
        shown-ended book id at b test (λ r. refl) t.edges old once found open_end live earlier in
      split
      ∙ ap (λ (k : ℕ). shown book id at b test (λ r. refl) (ended book id at t.edges) + k)
          (single ∙ add-zero (one_if (visible book TableName.edges b new && test new)) ∙ added)
      ∙ moved

  -- When `replace_edge` succeeds on a live, open-ended edge of this book, at whatever ordinal, the
  -- number of relationships that a view shows is the same as before at every bookmark, earlier or
  -- later: the successor takes over exactly where the old edge ends, with no gap and no overlap. The
  -- other figures of the catch-me-up view do not change either.
  pub replace_edge_gap_free :
      (b : ℤ)
      → find (is_target book id) t.edges ≡ some old
      → length (keep (is_target book id) t.edges) ≡ 1
      → old.invalid_at ≡ none
      → is_live old.retracted_at ≡ true
      → catch_me_up book b t' ≡ catch_me_up book b t
  unfolding catch_me_up vis_entity characters
  replace_edge_gap_free b found once open_end live =
      let (fits, eq) = supersede_edge-ok in
      let earlier = may_end-target book id at t.edges old fits found in
      let threads : length (
            relationships book b
              (record t { edges = appended book at none successor (ended book id at t.edges) }))
          ≡ length (relationships book b t) =
        length-relationships book b
          (record t { edges = appended book at none successor (ended book id at t.edges) })
        ∙ shown-successor b (λ x y. vis_entity book b t x && vis_entity book b t y) earlier found
            once open_end live
        ∙ sym (length-relationships book b t) in
      rw eq (λ i. record {
        as_of_chapter = b;
        recap = (catch_me_up book b t).recap;
        cast_size = (catch_me_up book b t).cast_size;
        open_threads = threads i;
      })
