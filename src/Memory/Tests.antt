-- ===== src/Memory/Tests.antt =====
-- A small memory, and the theorems about the memory applied to it.
use reading_companion.Prelude.{
  ℕ, ◌≡◌, refl, ◌⊎◌, true, false, none, some, [], ◌∷◌, All, ok, err, pos, leb_int, string, arith,
  int,
}
use reading_companion.Prelude.Exec.{pure}
use reading_companion.Memory.Rows.{
  Row, Chapter, RawChapter, Summary, Entity, Alias, Edge, Event, Participant, Theme, EntityState,
  Tables,
}
use reading_companion.Memory.Views.{
  catch_me_up, relationships, aliases_of, participants_of, chapter_summaries, chapters, timeline,
  vis_entity, vis_event, linked, live_chapter,
}
use reading_companion.Memory.Views.Truncate.{truncate}
use reading_companion.Memory.Views.NoLookAhead.{reads, no_look_ahead}
use reading_companion.Memory.Views.Closure.{references_closed}
use reading_companion.Memory.Session.{
  Connection, Environment, Body, writer, view_read, raw_read, read_through_view, not_an_ordinal,
  transaction,
}
use reading_companion.Memory.Session.Atomic.{IsNested-writer, Outcome, transaction_all_or_nothing}
use reading_companion.Memory.Session.Closes.{transaction_closes, IsRefusing}
use reading_companion.Memory.Session.Guards.{answer, view_read_guarded}
use reading_companion.Memory.Writers.{
  supersede_edge, insert_chapter, insert_raw, insert_summary, insert_entity, insert_alias,
  insert_edge, insert_event, insert_participant, insert_theme, insert_state,
}
use reading_companion.Memory.Writers.Supersession.{replace_edge_gap_free}
use reading_companion.Memory.Writers.Future.{
  Closing, close_row, later_insert_invisible, later_supersession_invisible,
}

abbrev row : {A : Type 0} → ℕ → ℕ → A → Row A
row id at body = record {
  rowid = id;
  book_id = "karamazov";
  revealed_at = at;
  invalid_at = none;
  retracted_at = none;
  body = body;
}

abbrev ally : Edge
ally = record { src_entity = 1; dst_entity = 2; rel_type = "allegiance"; label = "friends" }

abbrev first_beat : Event
first_beat = record { order_idx = 0; summary = "They meet."; kind = "beat" }

abbrev calm : EntityState
calm = record { entity_id = 1; status_json = "{}" }

abbrev sample : Tables
sample = record {
  meta = record { embed_model = none; embed_dim = none };
  chapters =
      row 1 1 (record {
        chapter_key = "k1";
        href = "c1.xhtml";
        title = "I";
        part_label = "";
        content_hash = "h1";
      })
      ∷ [];
  raw_chapters = [];
  chapter_summaries = [];
  entities =
      row 1 1 (record { canonical_name = "Mitya"; type = "character" })
      ∷ row 2 1 (record { canonical_name = "Alyosha"; type = "character" })
      ∷ row 3 4 (record { canonical_name = "Grushenka"; type = "character" })
      ∷ [];
  aliases = row 1 2 (record { entity_id = 1; surface_form = "Dmitri" }) ∷ [];
  edges = row 1 1 ally ∷ [];
  events = row 1 1 first_beat ∷ [];
  event_participants = row 1 1 (record { event_id = 1; entity_id = 2; role = "witness" }) ∷ [];
  themes = [];
  entity_state = row 1 1 calm ∷ [];
  chunks = [];
}

abbrev replaced : Tables
unfolding supersede_edge
replaced = (supersede_edge "karamazov" 1 3 "rivalry" "rivals" (some (row 1 1 ally)) sample).1

abbrev open_connection : Connection
open_connection = record {
  book_id = "karamazov";
  engaged = false;
  transaction_active = false;
  transaction_failed = false;
  poisoned = false;
  active_owner = 7;
  committed = sample;
  working = sample;
}

abbrev environment : Environment
environment = record {
  thread = 7;
  begin_fails = λ t. false;
  commit_fails = λ t. false;
  rollback_fails = λ t. false;
}

abbrev new_theme : Body ℕ
new_theme = insert_theme "karamazov" (record { name = "guilt"; description = "" }) 2

no_look_ahead_example :
    reads "karamazov" (pos 1) (truncate (pos 1) sample) ≡ reads "karamazov" (pos 1) sample
no_look_ahead_example = no_look_ahead "karamazov" (pos 1) sample

references_closed_example :
    All
      (λ r.
        (vis_entity "karamazov" (pos 2) sample r.1 ≡ true)
        × (vis_entity "karamazov" (pos 2) sample r.2 ≡ true))
      (relationships "karamazov" (pos 2) sample)
    × All
        (λ _. vis_entity "karamazov" (pos 2) sample 1 ≡ true)
        (aliases_of "karamazov" (pos 2) sample 1)
    × All
        (λ r.
          (vis_event "karamazov" (pos 2) sample 1 ≡ true)
          × (linked "karamazov" (pos 2) sample 1 r.0 ≡ true))
        (participants_of "karamazov" (pos 2) sample 1)
    × All
        (λ r. live_chapter "karamazov" (pos 2) sample r.0 ≡ true)
        (chapter_summaries "karamazov" (pos 2) sample)
    × All (λ r. leb_int r.1 (pos 2) ≡ true) (chapters "karamazov" (pos 2) sample)
    × All (λ r. leb_int r.1 (pos 2) ≡ true) (timeline "karamazov" (pos 2) sample)
references_closed_example = references_closed "karamazov" (pos 2) sample 1 1

supersede-sample :
    supersede_edge "karamazov" 1 3 "rivalry" "rivals" (some (row 1 1 ally)) sample
    ≡ (ok 2, replaced)
unfolding supersede_edge
supersede-sample = refl

replace_edge_gap_free_example :
    catch_me_up "karamazov" (pos 3) replaced ≡ catch_me_up "karamazov" (pos 3) sample
replace_edge_gap_free_example =
    replace_edge_gap_free "karamazov" 1 3 2 "rivalry" "rivals" (row 1 1 ally) sample replaced
      supersede-sample (pos 3) refl refl refl refl

transaction_all_or_nothing_example :
    Outcome environment (writer environment new_theme) open_connection
transaction_all_or_nothing_example =
    transaction_all_or_nothing environment (writer environment new_theme) open_connection
      (IsNested-writer environment new_theme) refl

-- the disk is full: no commit and no rollback succeeds
abbrev full_disk : Environment
full_disk = record environment { commit_fails = λ t. true; rollback_fails = λ t. true }

transaction_closes_example :
    ((transaction full_disk (writer full_disk new_theme) open_connection).1.transaction_active
      ≡ false)
    × ((transaction full_disk (writer full_disk new_theme) open_connection).1.transaction_failed
        ≡ false)
    × ((transaction full_disk (writer full_disk new_theme) open_connection).1.engaged ≡ false)
    × (IsRefusing environment new_theme
          (int (pos 1))
          (λ b t. 0)
          (pure 0)
          (transaction full_disk (writer full_disk new_theme) open_connection).1
        ⊎ ((transaction full_disk (writer full_disk new_theme) open_connection).1.working
            ≡ (transaction full_disk (writer full_disk new_theme) open_connection).1.committed))
transaction_closes_example =
    transaction_closes full_disk environment (writer full_disk new_theme) open_connection new_theme
      (int (pos 1)) (λ b t. 0) (pure 0) (IsNested-writer full_disk new_theme) refl refl refl

view_read_guarded_example :
    (view_read environment (string "3") (λ b t. t) open_connection
      ≡ (answer environment none (λ b t. t) open_connection, open_connection))
    × (raw_read environment
          (λ t. t)
          (view_read environment (string "3") (λ b t. t) open_connection).1
        ≡ raw_read environment (λ t. t) open_connection)
    × (read_through_view environment (string "3") (λ b t. t) open_connection
        ≡ (err not_an_ordinal, open_connection))
view_read_guarded_example =
    view_read_guarded environment (string "3") (λ b t. t) open_connection (λ t. t)

abbrev second_chapter : Chapter
second_chapter = record {
  chapter_key = "k2";
  href = "c2.xhtml";
  title = "II";
  part_label = "";
  content_hash = "h2";
}

abbrev first_text : RawChapter
first_text = record { chapter_key = "k1"; text = "Once"; content_hash = "h1" }

abbrev first_summary : Summary
first_summary = record { chapter_key = "k1"; kind = "chapter"; summary = "They meet." }

abbrev ivan : Entity
ivan = record { canonical_name = "Ivan"; type = "character" }

abbrev alexei : Alias
alexei = record { entity_id = 2; surface_form = "Alexei" }

abbrev actor : Participant
actor = record { event_id = 1; entity_id = 1; role = "actor" }

abbrev guilt : Theme
guilt = record { name = "guilt"; description = "" }

abbrev Unchanged : Tables → Type 0
Unchanged t = reads "karamazov" (pos 1) t ≡ reads "karamazov" (pos 1) sample

later_insert_invisible_example :
    Unchanged (insert_chapter "karamazov" second_chapter 2 sample).1
    × Unchanged (insert_raw "karamazov" first_text 2 sample).1
    × Unchanged (insert_summary "karamazov" first_summary 2 sample).1
    × Unchanged (insert_entity "karamazov" ivan 2 sample).1
    × Unchanged (insert_alias "karamazov" alexei 2 sample).1
    × Unchanged (insert_edge "karamazov" ally 2 (some 5) sample).1
    × Unchanged (insert_event "karamazov" first_beat 2 (some 5) sample).1
    × Unchanged (insert_participant "karamazov" actor 2 sample).1
    × Unchanged (insert_theme "karamazov" guilt 2 sample).1
    × Unchanged (insert_state "karamazov" calm 2 (some 5) sample).1
later_insert_invisible_example =
    later_insert_invisible "karamazov" (pos 1) sample 2 refl second_chapter first_text first_summary
      ivan alexei ally first_beat actor guilt calm (some 5)

later_supersession_invisible_example :
    Unchanged (close_row "karamazov" 2 (Closing.replacing_edge 1 "rivalry" "rivals") sample)
later_supersession_invisible_example =
    later_supersession_invisible "karamazov" (pos 1) sample 2 refl
      (Closing.replacing_edge 1 "rivalry" "rivals") (omega arith, λ old found. ground arith)
