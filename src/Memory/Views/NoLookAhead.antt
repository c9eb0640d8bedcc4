-- ===== src/Memory/Views/NoLookAhead.antt =====
-- Every read at a bookmark is a function of the past alone.
use reading_companion.Prelude.{
  ℕ, String, ◌≡◌, refl, ◌&&◌, Option, none, some, List, str_eq, ◌==◌, ℤ, arith, ap, ◌∙◌, length,
}
use reading_companion.Memory.Rows.{Tables, Row, Chunk, TableName}
use reading_companion.Memory.Select.{ascending, descending}
use reading_companion.Memory.Views
use reading_companion.Memory.Views.{
  first, every, story_order, chapter_order, vis_entity, live_chapter, vis_event, linked, chapters,
  entities_of_type, characters, aliases_of, relationships, timeline, participants_of, events_for,
  themes, current_state, chapter_summaries, raw_text, bio_of, bio, catch_me_up, search_candidates,
  settle_model, same_space, Bio, CatchUp,
}
use reading_companion.Memory.Views.Truncate.{
  hide, truncate, exists-past, fetch-past, columns-past, any-past,
}

-- Everything that a bookmark-bound view answers.
pub record Reads : Type 0 where
  pub chapters : List (String × ℕ × String × String)
  pub entities_of_type : String → List (ℕ × String × String × ℕ)
  pub characters : List (ℕ × String × String × ℕ)
  pub aliases_of : ℕ → List (String × ℕ)
  pub relationships : List (ℕ × ℕ × ℕ × String × String × ℕ × Option ℕ)
  pub timeline : List (ℕ × ℕ × ℕ × String × String)
  pub participants_of : ℕ → List (ℕ × String × String)
  pub events_for : ℕ → List (ℕ × ℕ × String)
  pub themes : List (ℕ × String × String × ℕ)
  pub current_state : ℕ → Option (ℕ × ℕ × String)
  pub chapter_summaries : List (String × ℕ × String)
  pub raw_text : String → Option String
  pub bio : ℕ → Option Bio
  pub catch_me_up : CatchUp
  pub search_candidates : Option String → ℕ → List (ℕ × String × ℕ × String × String)

unfoldable pub reads : String → ℤ → Tables → Reads
reads book b t = record {
  chapters = Views.chapters book b t;
  entities_of_type = Views.entities_of_type book b t;
  characters = Views.characters book b t;
  aliases_of = Views.aliases_of book b t;
  relationships = Views.relationships book b t;
  timeline = Views.timeline book b t;
  participants_of = Views.participants_of book b t;
  events_for = Views.events_for book b t;
  themes = Views.themes book b t;
  current_state = Views.current_state book b t;
  chapter_summaries = Views.chapter_summaries book b t;
  raw_text = Views.raw_text book b t;
  bio = Views.bio book b t;
  catch_me_up = Views.catch_me_up book b t;
  search_candidates = Views.search_candidates book b t;
}

same_space-hide :
    (b : ℤ) (m : Option String) (dim : ℕ) (r : Row Chunk)
    → same_space m dim (hide b r) ≡ same_space m dim r
same_space-hide b none dim r = refl
same_space-hide b (some m) dim r = refl

module _ (book : String) (b : ℤ) (t : Tables) where
  vis_entity-past : (id : ℕ) → vis_entity book b (truncate b t) id ≡ vis_entity book b t id
  unfolding vis_entity truncate
  vis_entity-past id = exists-past book TableName.entities b _ _ (λ r. refl) t.entities

  live_chapter-past :
      (key : String) → live_chapter book b (truncate b t) key ≡ live_chapter book b t key
  unfolding live_chapter truncate
  live_chapter-past key = exists-past book TableName.chapters b _ _ (λ r. refl) t.chapters

  vis_event-past : (id : ℕ) → vis_event book b (truncate b t) id ≡ vis_event book b t id
  unfolding vis_event truncate
  vis_event-past id = exists-past book TableName.events b _ _ (λ r. refl) t.events

  linked-past : (e x : ℕ) → linked book b (truncate b t) e x ≡ linked book b t e x
  unfolding linked truncate
  linked-past e x = any-past b _ (λ r. refl) (λ r h. ground arith) t.event_participants

  chapters-past : chapters book b (truncate b t) ≡ chapters book b t
  unfolding chapters truncate
  chapters-past =
      fetch-past book TableName.chapters b _ _ (λ r. refl) chapter_order _ (λ x y. refl) (λ x. refl)
        t.chapters

  entities_of_type-past :
      (kind : String) → entities_of_type book b (truncate b t) kind ≡ entities_of_type book b t kind
  unfolding entities_of_type truncate
  entities_of_type-past kind =
      fetch-past book TableName.entities b _ _ (λ r. refl) ascending _ (λ x y. refl) (λ x. refl)
        t.entities

  aliases_of-past : (id : ℕ) → aliases_of book b (truncate b t) id ≡ aliases_of book b t id
  unfolding aliases_of truncate
  aliases_of-past id =
      fetch-past book TableName.aliases b _ _
        (λ r. ap (λ v. (r.body.entity_id == id) && v) (vis_entity-past r.body.entity_id)) ascending
        _ (λ x y. refl) (λ x. refl) t.aliases

  relationships-past : relationships book b (truncate b t) ≡ relationships book b t
  unfolding relationships truncate
  relationships-past =
      fetch-past book TableName.edges b _ _
        (λ r. cc (vis_entity-past r.body.src_entity, vis_entity-past r.body.dst_entity)) ascending _
        (λ x y. refl) (λ x. refl) t.edges

  timeline-past : timeline book b (truncate b t) ≡ timeline book b t
  unfolding timeline truncate
  timeline-past =
      fetch-past book TableName.events b _ _ (λ r. refl) story_order _ (λ x y. refl) (λ x. refl)
        t.events

  participants_of-past :
      (e : ℕ) → participants_of book b (truncate b t) e ≡ participants_of book b t e
  unfolding participants_of truncate
  participants_of-past e =
      fetch-past book TableName.entities b _ _ (λ r. cc (vis_event-past e, linked-past e r.rowid))
        ascending _ (λ x y. refl) (λ x. refl) t.entities

  events_for-past : (id : ℕ) → events_for book b (truncate b t) id ≡ events_for book b t id
  unfolding events_for truncate
  events_for-past id =
      fetch-past book TableName.events b _ _ (λ r. cc (vis_entity-past id, linked-past r.rowid id))
        ascending _ (λ x y. refl) (λ x. refl) t.events

  themes-past : themes book b (truncate b t) ≡ themes book b t
  unfolding themes truncate
  themes-past =
      fetch-past book TableName.themes b _ _ (λ r. refl) ascending _ (λ x y. refl) (λ x. refl)
        t.themes

  current_state-past : (id : ℕ) → current_state book b (truncate b t) id ≡ current_state book b t id
  unfolding current_state truncate
  current_state-past id = ap first (
      fetch-past book TableName.entity_state b _ _
        (λ r. ap (λ v. (r.body.entity_id == id) && v) (vis_entity-past r.body.entity_id)) descending
        _ (λ x y. refl) (λ x. refl) t.entity_state)

  chapter_summaries-past : chapter_summaries book b (truncate b t) ≡ chapter_summaries book b t
  unfolding chapter_summaries truncate
  chapter_summaries-past =
      fetch-past book TableName.chapter_summaries b _ _
        (λ r. ap (λ v. str_eq r.body.kind "chapter" && v) (live_chapter-past r.body.chapter_key))
        ascending _ (λ x y. refl) (λ x. refl) t.chapter_summaries

  raw_text-past : (key : String) → raw_text book b (truncate b t) key ≡ raw_text book b t key
  unfolding raw_text truncate
  raw_text-past key = ap first (
      fetch-past book TableName.raw_chapters b _ _
        (λ r. ap (λ v. str_eq r.body.chapter_key key && v) (live_chapter-past r.body.chapter_key))
        ascending _ (λ x y. refl) (λ x. refl) t.raw_chapters)

  bio_of-past :
      (id : ℕ) (row : Option (String × String × ℕ))
      → bio_of book b (truncate b t) id row ≡ bio_of book b t id row
  unfolding bio_of
  bio_of-past id none = refl
  bio_of-past id (some (name, type, seen)) =
      cc (aliases_of-past id, current_state-past id, events_for-past id)

  bio-past : (id : ℕ) → bio book b (truncate b t) id ≡ bio book b t id
  unfolding bio truncate
  bio-past id =
      bio_of-past id _
      ∙ ap (bio_of book b t id) (
          ap first (
            fetch-past book TableName.entities b _ _ (λ r. refl) ascending _ (λ x y. refl)
              (λ x. refl) t.entities))

  catch_me_up-past : catch_me_up book b (truncate b t) ≡ catch_me_up book b t
  unfolding catch_me_up truncate characters
  catch_me_up-past =
      let recap = ap first (
        fetch-past book TableName.chapter_summaries b (λ r. str_eq r.body.kind "rolling-recap")
          (λ r. str_eq r.body.kind "rolling-recap") (λ r. refl) descending (λ r. r.body.summary)
          (λ x y. refl) (λ x. refl) t.chapter_summaries) in
      λ i. record {
        as_of_chapter = b;
        recap = recap i;
        cast_size = length (entities_of_type-past "character" i);
        open_threads = length (relationships-past i);
      }

  search_candidates-past :
      (m : Option String) (dim : ℕ)
      → search_candidates book b (truncate b t) m dim ≡ search_candidates book b t m dim
  unfolding search_candidates truncate
  search_candidates-past m dim =
      columns-past book TableName.chunks b _ _
        (λ r.
          cc
            (live_chapter-past r.body.chapter_key, same_space-hide b (settle_model t.meta m) dim r))
        _ (λ x. refl) t.chunks

  -- No look-ahead: every read at a bookmark answers the same on a memory from which all rows revealed
  -- after the bookmark have been removed and all story-time endings after it erased. Nothing that a
  -- later chapter put into the memory can change what any view returns.
  pub no_look_ahead : reads book b (truncate b t) ≡ reads book b t
  unfolding reads characters
  no_look_ahead = λ i. record {
    chapters = chapters-past i;
    entities_of_type = λ kind. entities_of_type-past kind i;
    characters = entities_of_type-past "character" i;
    aliases_of = λ id. aliases_of-past id i;
    relationships = relationships-past i;
    timeline = timeline-past i;
    participants_of = λ e. participants_of-past e i;
    events_for = λ id. events_for-past id i;
    themes = themes-past i;
    current_state = λ id. current_state-past id i;
    chapter_summaries = chapter_summaries-past i;
    raw_text = λ key. raw_text-past key i;
    bio = λ id. bio-past id i;
    catch_me_up = catch_me_up-past i;
    search_candidates = λ m dim. search_candidates-past m dim i;
  }
