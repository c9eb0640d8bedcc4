-- ===== src/Memory/Writers/Future.antt =====
-- What is written about later chapters does not show at an earlier bookmark.
use reading_companion.Prelude.{
  ℕ, ◌≡◌, refl, ap, sym, ◌∙◌, String, Bool, true, false, Option, none, some, List, [], ◌∷◌, keep,
  find, length, keep-append, arith, ℤ, leb_int, map, Bool-cases, inl, inr, append-nil, if-false,
  ◌≤◌,
}
use reading_companion.Memory.Rows.{
  Row, Chapter, RawChapter, Summary, Entity, Alias, Edge, Event, Participant, Theme, EntityState,
  Tables,
}
use reading_companion.Memory.Views.Truncate.{hide, hide_expiry, past, truncate}
use reading_companion.Memory.Views.NoLookAhead.{reads, no_look_ahead}
use reading_companion.Memory.Writers.{
  checked, insert_chapter, insert_raw, insert_summary, insert_entity, insert_alias, insert_edge,
  insert_event, insert_participant, insert_theme, insert_state, supersede_edge, finish_edge,
  finish_event, supersede_state,
}
use reading_companion.Memory.Writers.Statements.{is_target, ended, may_end, appended, ended-absent}

reads-past :
    (book : String) (b : ℤ) (t t' : Tables)
    → truncate b t' ≡ truncate b t
    → reads book b t' ≡ reads book b t
reads-past book b t t' h =
    sym (no_look_ahead book b t') ∙ ap (reads book b) h ∙ no_look_ahead book b t

checked-past :
    {B : Type 0} (b : ℤ) (test : Bool) (a : B) (t t' : Tables)
    → truncate b t' ≡ truncate b t
    → truncate b (checked test a t' t).1 ≡ truncate b t
checked-past b true a t t' h = h
checked-past b false a t t' h = refl

-- At most one row of the book has this key, and if one has, it is not ended at the bookmark.
abbrev pub IsUnended : {A : Type 0} → String → ℤ → ℕ → List (Row A) → Type 0
IsUnended book b id rows =
    (length (keep (is_target book id) rows) ≤ 1)
    × ((old : Row _)
        → find (is_target book id) rows ≡ some old
        → hide_expiry b old.invalid_at ≡ none)

-- the calls that end a row: `replace_edge`, `end_edge`, `end_event` and `replace_state`
pub data Closing : Type 0 where
  replacing_edge : (id : ℕ) (rel_type label : String) → Closing
  ending_edge ending_event : (id : ℕ) → Closing
  replacing_state : (id : ℕ) (status : String) → Closing

-- the tables that such a call leaves, on any outcome
abbrev pub close_row : String → ℕ → Closing → Tables → Tables
close_row book at (replacing_edge id rel_type label) t =
    (supersede_edge book id at rel_type label (find (is_target book id) t.edges) t).1
close_row book at (ending_edge id) t = (finish_edge book id at t).1
close_row book at (ending_event id) t = (finish_event book id at t).1
close_row book at (replacing_state id status) t =
    (supersede_state book id at status (find (is_target book id) t.entity_state) t).1

-- The row that the call ends is not ended at the bookmark.
abbrev pub IsStillOpen : String → ℤ → Closing → Tables → Type 0
IsStillOpen book b (replacing_edge id rel_type label) t = IsUnended book b id t.edges
IsStillOpen book b (ending_edge id) t = IsUnended book b id t.edges
IsStillOpen book b (ending_event id) t = IsUnended book b id t.events
IsStillOpen book b (replacing_state id status) t = IsUnended book b id t.entity_state

module _ {A : Type 0} (book : String) (at : ℕ) (b : ℤ) (later : leb_int at b ≡ false) where
  past-appended :
      (invalid_at : Option ℕ) (body : A) (rows : List (Row A))
      → past b (appended book at invalid_at body rows) ≡ past b rows
  unfolding past appended
  past-appended invalid_at body rows =
      ap (map (hide b))
        (keep-append (λ r. leb_int r.revealed_at b) rows _ ∙ rw later (append-nil _))

  -- Setting a later end to a row that is open at the bookmark leaves its past alone.
  past-ended :
      (id : ℕ) (rows : List (Row A))
      → IsUnended book b id rows
      → past b (ended book id at rows) ≡ past b rows
  unfolding past ended
  past-ended id [] unended = refl
  past-ended id (r ∷ rows) (once, open_end) = elim (Bool-cases (is_target book id r)) [
    | inl x ↦
        let closed : hide_expiry b r.invalid_at ≡ none = open_end r (ground arith) in
        let same : hide b (record r { invalid_at = some at }) ≡ hide b r = λ i. record r {
          invalid_at = (if-false (leb_int at b) (some at) none later ∙ sym closed) i;
        } in
        rw x (elim (Bool-cases (leb_int r.revealed_at b)) [
          | inl y ↦ rw (y, ended-absent book id at rows (ground arith), same)
          | inr y ↦ rw (y, ended-absent book id at rows (ground arith))
        ])
    | inr x ↦
        let rest = past-ended id rows (ground arith, λ old f. open_end old (ground arith)) in
        rw x (elim (Bool-cases (leb_int r.revealed_at b)) [
          | inl y ↦ rw (y, rest)
          | inr y ↦ rw (y, rest)
        ])
  ]

module _ (book : String) (b : ℤ) (t : Tables) (at : ℕ) (later : leb_int at b ≡ false) where
  -- An INSERT of a row that is revealed after the bookmark, whatever the row holds and whether SQLite
  -- accepts or refuses it, changes none of the reads at the bookmark. This holds of a new chapter, raw
  -- text, summary, entity, alias, edge, event, participant link, theme and state. Updates and
  -- retractions of rows that are already there are not inserts: nothing is said of them.
  pub later_insert_invisible :
      (chapter : Chapter) (raw : RawChapter) (summary : Summary) (entity : Entity) (alias : Alias)
      (edge : Edge) (event : Event) (link : Participant) (theme : Theme) (state : EntityState)
      (end : Option ℕ)
      → (reads book b (insert_chapter book chapter at t).1 ≡ reads book b t)
        × (reads book b (insert_raw book raw at t).1 ≡ reads book b t)
        × (reads book b (insert_summary book summary at t).1 ≡ reads book b t)
        × (reads book b (insert_entity book entity at t).1 ≡ reads book b t)
        × (reads book b (insert_alias book alias at t).1 ≡ reads book b t)
        × (reads book b (insert_edge book edge at end t).1 ≡ reads book b t)
        × (reads book b (insert_event book event at end t).1 ≡ reads book b t)
        × (reads book b (insert_participant book link at t).1 ≡ reads book b t)
        × (reads book b (insert_theme book theme at t).1 ≡ reads book b t)
        × (reads book b (insert_state book state at end t).1 ≡ reads book b t)
  unfolding truncate insert_chapter insert_raw insert_summary insert_entity insert_alias insert_edge
      insert_event insert_participant insert_theme insert_state
  later_insert_invisible chapter raw summary entity alias edge event link theme state end = (
    reads-past book b t _ (
        checked-past b _ _ t _ (λ i. record (truncate b t) {
          chapters = past-appended book at b later none chapter t.chapters i;
        })),
    reads-past book b t _ (
        checked-past b _ _ t _ (λ i. record (truncate b t) {
          raw_chapters = past-appended book at b later none raw t.raw_chapters i;
        })),
    reads-past book b t _ (
        checked-past b _ _ t _ (λ i. record (truncate b t) {
          chapter_summaries = past-appended book at b later none summary t.chapter_summaries i;
        })),
    reads-past book b t _ (λ i. record (truncate b t) {
      entities = past-appended book at b later none entity t.entities i;
    }),
    reads-past book b t _ (
        checked-past b _ _ t _ (λ i. record (truncate b t) {
          aliases = past-appended book at b later none alias t.aliases i;
        })),
    reads-past book b t _ (
        checked-past b _ _ t _ (λ i. record (truncate b t) {
          edges = past-appended book at b later end edge t.edges i;
        })),
    reads-past book b t _ (
        checked-past b _ _ t _ (λ i. record (truncate b t) {
          events = past-appended book at b later end event t.events i;
        })),
    reads-past book b t _ (
        checked-past b _ _ t _ (λ i. record (truncate b t) {
          event_participants = past-appended book at b later none link t.event_participants i;
        })),
    reads-past book b t _ (λ i. record (truncate b t) {
      themes = past-appended book at b later none theme t.themes i;
    }),
    reads-past book b t _ (
        checked-past b _ _ t _ (λ i. record (truncate b t) {
          entity_state = past-appended book at b later end state t.entity_state i;
        })),
  )

  supersede_edge-past :
      (id : ℕ) (rel_type label : String) (found : Option (Row Edge))
      → IsUnended book b id t.edges
      → reads book b (supersede_edge book id at rel_type label found t).1 ≡ reads book b t
  unfolding truncate supersede_edge insert_edge
  supersede_edge-past id rel_type label none unended = refl
  supersede_edge-past id rel_type label (some old) unended =
      let d : Tables = record t { edges = ended book id at t.edges } in
      let d_past : truncate b d ≡ truncate b t =
        λ i. record (truncate b t) { edges = past-ended book at b later id t.edges unended i } in
      elim (Bool-cases (may_end book id at t.edges)) [
        | inl x ↦ rw x (
            reads-past book b t _ (
              checked-past b _ _ d _ (λ i. record (truncate b d) {
                edges =
                    past-appended book at b later none
                      (record (old.body) { rel_type = rel_type; label = label }) d.edges i;
              })
              ∙ d_past))
        | inr x ↦ rw x refl
      ]

  supersede_state-past :
      (id : ℕ) (status : String) (found : Option (Row EntityState))
      → IsUnended book b id t.entity_state
      → reads book b (supersede_state book id at status found t).1 ≡ reads book b t
  unfolding truncate supersede_state insert_state
  supersede_state-past id status none unended = refl
  supersede_state-past id status (some old) unended =
      let d : Tables = record t { entity_state = ended book id at t.entity_state } in
      let d_past : truncate b d ≡ truncate b t = λ i. record (truncate b t) {
        entity_state = past-ended book at b later id t.entity_state unended i;
      } in
      elim (Bool-cases (may_end book id at t.entity_state)) [
        | inl x ↦ rw x (
            reads-past book b t _ (
              checked-past b _ _ d _ (λ i. record (truncate b d) {
                entity_state =
                    past-appended book at b later none (record (old.body) { status_json = status })
                      d.entity_state i;
              })
              ∙ d_past))
        | inr x ↦ rw x refl
      ]

  -- Ending or replacing an edge, ending an event or replacing a state, from a chapter after the
  -- bookmark on, changes none of the reads at the bookmark, on any outcome. Each of the four calls
  -- needs only of its own table that at most one row of the book has the key that it names, and that
  -- such a row is not already ended at the bookmark.
  pub later_supersession_invisible :
      (call : Closing)
      → IsStillOpen book b call t
      → reads book b (close_row book at call t) ≡ reads book b t
  unfolding truncate finish_edge finish_event
  later_supersession_invisible (replacing_edge id rel_type label) h =
      supersede_edge-past id rel_type label (find (is_target book id) t.edges) h
  later_supersession_invisible (ending_edge id) h = reads-past book b t _ (
      checked-past b _ _ t _
        (λ i. record (truncate b t) { edges = past-ended book at b later id t.edges h i }))
  later_supersession_invisible (ending_event id) h = reads-past book b t _ (
      checked-past b _ _ t _
        (λ i. record (truncate b t) { events = past-ended book at b later id t.events h i }))
  later_supersession_invisible (replacing_state id status) h =
      supersede_state-past id status (find (is_target book id) t.entity_state) h
