-- ===== src/Memory/Writers.antt =====
-- The writer methods of backend/app/memory/dal.py, on the brute-force vector backend. Each is the
-- sequence of its write scopes: outside a transaction every scope commits by itself. The derived
-- vec0 index is not modelled.
pub mod Statements
pub mod Supersession
pub mod Future
use reading_companion.Prelude.{
  ℕ, zero, suc, ◌+◌, String, Bool, true, false, not, ◌&&◌, ◌||◌, Option, none, some, List, [], ◌∷◌,
  ◌++◌, map, Result, ok, err, str_eq, leb, ltb, ◌==◌, if◌then◌else◌, any, keep, find, length,
}
use reading_companion.Prelude.Exec.{◌>>=◌, ◌>>◌, pure, raise}
use reading_companion.Memory.Rows.{
  Row, Chapter, RawChapter, Summary, Entity, Alias, Edge, Event, Participant, Theme, EntityState,
  Chunk, Meta, Tables,
}
use reading_companion.Memory.Select.{is_live}
use reading_companion.Memory.Session.{
  MemoryError, integrity_error, no_such_edge, no_such_state, unstamped_chunks, stale_chunks,
  embed_identity_mismatch, Connection, Environment, Session, Body, writer,
}
use reading_companion.Memory.Writers.Statements.{
  last_rowid, has_row, appended, ended, may_end, retracted, valid_span, is_target,
}

-- a statement under a constraint: it takes effect as a whole or raises `IntegrityError`
abbrev pub checked : {A : Type 0} → Bool → A → Tables → Body A
checked test a after before = if test then (ok a, after) else (err integrity_error, before)

abbrev pub has_chapter : String → Tables → Bool
has_chapter key t = any (λ r. str_eq r.body.chapter_key key) t.chapters

-- `chapters.chapter_key` is the primary key, and live ordinals of a book are unique
abbrev pub live_chapter_row : String → String → Row Chapter → Bool
live_chapter_row book key r =
    str_eq r.body.chapter_key key && (str_eq r.book_id book && is_live r.retracted_at)

abbrev pub ordinal_taken : String → String → ℕ → List (Row Chapter) → Bool
ordinal_taken book key at rows =
    any
      (λ r.
        not (str_eq r.body.chapter_key key)
        && (str_eq r.book_id book && (r.revealed_at == at && is_live r.retracted_at)))
      rows

module _ (book : String) where
  -- the update half of `add_chapter`: WHERE chapter_key=? AND book_id=?
  unfoldable pub rewritten : String → ℕ → String → String → List (Row Chapter) → List (Row Chapter)
  rewritten key at hash title [] = []
  rewritten key at hash title (r ∷ rows) =
      (if str_eq r.body.chapter_key key && str_eq r.book_id book
        then record r {
          revealed_at = at;
          body = record (r.body) { content_hash = hash; title = title };
        }
        else r)
      ∷ rewritten key at hash title rows

  -- the first scope of `add_chapter`; `true` when the row was there
  unfoldable pub refresh_chapter : Chapter → ℕ → Option (Row Chapter) → Body Bool
  unfolding rewritten
  refresh_chapter chapter at none t = (ok false, t)
  refresh_chapter chapter at (some r) t =
      if str_eq r.body.content_hash chapter.content_hash && r.revealed_at == at
      then (ok true, t)
      else checked (not (ordinal_taken book chapter.chapter_key at t.chapters)) true
          (record t {
            chapters =
                rewritten chapter.chapter_key at chapter.content_hash chapter.title t.chapters;
          })
          t

  unfoldable pub insert_chapter : Chapter → ℕ → Body (Unit {0})
  unfolding appended
  insert_chapter chapter at t =
      checked
        (not (has_chapter chapter.chapter_key t)
          && not (ordinal_taken book chapter.chapter_key at t.chapters))
        tt (record t { chapters = appended book at none chapter t.chapters }) t

  -- `ux_summaries_live`: one live summary for each chapter and kind
  unfoldable pub summary_taken : String → String → List (Row Summary) → Bool
  summary_taken key kind rows =
      any
        (λ r.
          str_eq r.body.chapter_key key
          && (str_eq r.body.kind kind && (str_eq r.book_id book && is_live r.retracted_at)))
        rows

  unfoldable pub insert_summary : Summary → ℕ → Body ℕ
  unfolding appended summary_taken
  insert_summary summary at t =
      checked
        (has_chapter summary.chapter_key t
          && not (summary_taken summary.chapter_key summary.kind t.chapter_summaries))
        (last_rowid t.chapter_summaries + 1)
        (record t { chapter_summaries = appended book at none summary t.chapter_summaries }) t

  unfoldable pub insert_raw : RawChapter → ℕ → Body (Unit {0})
  unfolding appended
  insert_raw raw at t =
      checked
        (has_chapter raw.chapter_key t
          && not (any (λ r. str_eq r.body.chapter_key raw.chapter_key) t.raw_chapters))
        tt (record t { raw_chapters = appended book at none raw t.raw_chapters }) t

  unfoldable pub insert_entity : Entity → ℕ → Body ℕ
  unfolding appended
  insert_entity entity at t = (
    ok (last_rowid t.entities + 1),
    record t { entities = appended book at none entity t.entities },
  )

  unfoldable pub insert_alias : Alias → ℕ → Body ℕ
  unfolding appended
  insert_alias alias at t =
      checked (has_row alias.entity_id t.entities) (last_rowid t.aliases + 1)
        (record t { aliases = appended book at none alias t.aliases }) t

  unfoldable pub insert_edge : Edge → ℕ → Option ℕ → Body ℕ
  unfolding appended
  insert_edge edge at invalid_at t =
      checked
        (has_row edge.src_entity t.entities
          && (has_row edge.dst_entity t.entities && valid_span at invalid_at))
        (last_rowid t.edges + 1) (record t { edges = appended book at invalid_at edge t.edges }) t

  -- the body of `replace_edge`: end the old edge, then insert its successor
  unfoldable pub supersede_edge : ℕ → ℕ → String → String → Option (Row Edge) → Body ℕ
  unfolding insert_edge ended may_end
  supersede_edge id at rel_type label none t = (err no_such_edge, t)
  supersede_edge id at rel_type label (some old) t =
      if may_end book id at t.edges
      then insert_edge (record (old.body) { rel_type = rel_type; label = label }) at none
          (record t { edges = ended book id at t.edges })
      else (err integrity_error, t)

  unfoldable pub finish_edge : ℕ → ℕ → Body (Unit {0})
  unfolding ended may_end
  finish_edge id at t =
      checked (may_end book id at t.edges) tt (record t { edges = ended book id at t.edges }) t

  unfoldable pub insert_event : Event → ℕ → Option ℕ → Body ℕ
  unfolding appended
  insert_event event at invalid_at t =
      checked (valid_span at invalid_at) (last_rowid t.events + 1)
        (record t { events = appended book at invalid_at event t.events }) t

  unfoldable pub insert_participant : Participant → ℕ → Body (Unit {0})
  unfolding appended
  insert_participant p at t =
      checked
        (has_row p.event_id t.events
          && (has_row p.entity_id t.entities
              && not (
                  any (λ r. r.body.event_id == p.event_id && r.body.entity_id == p.entity_id)
                    t.event_participants)))
        tt (record t { event_participants = appended book at none p t.event_participants }) t

  unfoldable pub finish_event : ℕ → ℕ → Body (Unit {0})
  unfolding ended may_end
  finish_event id at t =
      checked (may_end book id at t.events) tt (record t { events = ended book id at t.events }) t

  unfoldable pub insert_theme : Theme → ℕ → Body ℕ
  unfolding appended
  insert_theme theme at t =
      (ok (last_rowid t.themes + 1), record t { themes = appended book at none theme t.themes })

  unfoldable pub insert_state : EntityState → ℕ → Option ℕ → Body ℕ
  unfolding appended
  insert_state state at invalid_at t =
      checked (has_row state.entity_id t.entities && valid_span at invalid_at)
        (last_rowid t.entity_state + 1)
        (record t { entity_state = appended book at invalid_at state t.entity_state }) t

  unfoldable pub supersede_state : ℕ → ℕ → String → Option (Row EntityState) → Body ℕ
  unfolding insert_state ended may_end
  supersede_state id at status none t = (err no_such_state, t)
  supersede_state id at status (some old) t =
      if may_end book id at t.entity_state
      then insert_state (record (old.body) { status_json = status }) at none
          (record t { entity_state = ended book id at t.entity_state })
      else (err integrity_error, t)

  unfoldable pub retract_summary : String → String → String → Body (Unit {0})
  unfolding retracted
  retract_summary now key kind t = (
    ok tt,
    record t {
      chapter_summaries =
          retracted now book (λ r. str_eq r.body.chapter_key key && str_eq r.body.kind kind)
            t.chapter_summaries;
    },
  )

  -- the body of `retract_chapter`
  unfoldable pub retract_all : String → String → Body (Unit {0})
  unfolding retracted
  retract_all now key t = (
    ok tt,
    record t {
      chapters = retracted now book (λ r. str_eq r.body.chapter_key key) t.chapters;
      raw_chapters = retracted now book (λ r. str_eq r.body.chapter_key key) t.raw_chapters;
      chapter_summaries =
          retracted now book (λ r. str_eq r.body.chapter_key key) t.chapter_summaries;
      chunks = retracted now book (λ r. str_eq r.body.chapter_key key) t.chunks;
    },
  )

  unfoldable pub renamed : ℕ → String → Option String → List (Row Entity) → List (Row Entity)
  renamed id name type [] = []
  renamed id name type (r ∷ rows) =
      (if is_target book id r
        then record r {
          body = record {
            canonical_name = name;
            type = elim type [ none ↦ r.body.type | some new ↦ new ];
          };
        }
        else r)
      ∷ renamed id name type rows

module _ (env : Environment) where
  unfoldable pub add_chapter : Chapter → ℕ → Session String
  unfolding writer refresh_chapter insert_chapter
  add_chapter chapter at c =
      (do
        there ← writer env λ t.
            refresh_chapter c.book_id chapter at
              (find (live_chapter_row c.book_id chapter.chapter_key) t.chapters) t
        if there
            then pure chapter.chapter_key
            else do writer env (insert_chapter c.book_id chapter at); pure chapter.chapter_key)
        c

  unfoldable pub add_raw : RawChapter → ℕ → Session (Unit {0})
  unfolding writer insert_raw
  add_raw raw at c = writer env (insert_raw c.book_id raw at) c

  unfoldable pub add_summary : Summary → ℕ → Session ℕ
  unfolding writer insert_summary
  add_summary summary at c = writer env (insert_summary c.book_id summary at) c

  unfoldable pub add_entity : Entity → ℕ → Session ℕ
  unfolding writer insert_entity
  add_entity entity at c = writer env (insert_entity c.book_id entity at) c

  unfoldable pub add_alias : Alias → ℕ → Session ℕ
  unfolding writer insert_alias
  add_alias alias at c = writer env (insert_alias c.book_id alias at) c

  unfoldable pub add_edge : Edge → ℕ → Option ℕ → Session ℕ
  unfolding writer insert_edge
  add_edge edge at invalid_at c = writer env (insert_edge c.book_id edge at invalid_at) c

  unfoldable pub replace_edge : ℕ → ℕ → String → String → Session ℕ
  unfolding writer supersede_edge
  replace_edge id at rel_type label c =
      writer env
        (λ t.
          supersede_edge c.book_id id at rel_type label (find (is_target c.book_id id) t.edges) t)
        c

  unfoldable pub end_edge : ℕ → ℕ → Session (Unit {0})
  unfolding writer finish_edge
  end_edge id at c = writer env (finish_edge c.book_id id at) c

  unfoldable pub add_event_participant : Participant → ℕ → Session (Unit {0})
  unfolding writer insert_participant
  add_event_participant p at c = writer env (insert_participant c.book_id p at) c

  -- the `for` loop of `add_event`: one scope for each link
  unfoldable pub add_links : ℕ → ℕ → List (ℕ × String) → Session (Unit {0})
  unfolding add_event_participant
  add_links id at [] = pure tt
  add_links id at ((entity, role) ∷ rest) = do
    add_event_participant (record { event_id = id; entity_id = entity; role = role }) at
    add_links id at rest

  unfoldable pub add_event : Event → ℕ → Option ℕ → List (ℕ × String) → Session ℕ
  unfolding writer insert_event add_links
  add_event event at invalid_at participants c =
      (do
        id ← writer env (insert_event c.book_id event at invalid_at)
        add_links id at participants
        pure id)
        c

  unfoldable pub end_event : ℕ → ℕ → Session (Unit {0})
  unfolding writer finish_event
  end_event id at c = writer env (finish_event c.book_id id at) c

  unfoldable pub add_theme : Theme → ℕ → Session ℕ
  unfolding writer insert_theme
  add_theme theme at c = writer env (insert_theme c.book_id theme at) c

  unfoldable pub add_state : EntityState → ℕ → Option ℕ → Session ℕ
  unfolding writer insert_state
  add_state state at invalid_at c = writer env (insert_state c.book_id state at invalid_at) c

  unfoldable pub replace_state : ℕ → ℕ → String → Session ℕ
  unfolding writer supersede_state
  replace_state id at status c =
      writer env
        (λ t.
          supersede_state c.book_id id at status (find (is_target c.book_id id) t.entity_state) t)
        c

  -- retract, then insert: two scopes
  unfoldable pub reextract_summary : String → Summary → ℕ → Session ℕ
  unfolding writer retract_summary add_summary
  reextract_summary now summary at c =
      (do
        writer env (retract_summary c.book_id now summary.chapter_key summary.kind)
        add_summary summary at)
        c

  unfoldable pub reextract_entity : ℕ → String → Option String → Session ℕ
  unfolding writer renamed
  reextract_entity id name type c =
      writer env (λ t. (ok id, record t { entities = renamed c.book_id id name type t.entities })) c

  unfoldable pub retract_chapter : String → String → Session (Unit {0})
  unfolding writer retract_all
  retract_chapter now key c = writer env (retract_all c.book_id now key) c
