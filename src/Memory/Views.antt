-- ===== src/Memory/Views.antt =====
-- `BookmarkView` of backend/app/memory/dal.py: every read of one book as of a chapter ordinal. A
-- result row is the tuple of the columns that the read selects, in their order.
pub mod Truncate
pub mod NoLookAhead
pub mod Closure
use reading_companion.Prelude.{
  false, not, ℕ, String, Bool, true, ◌&&◌, ◌||◌, Option, none, some, List, [], ◌∷◌, map, str_eq,
  ltb, leb, ◌==◌, length, if◌then◌else◌, any, ℤ, leb_int,
}
use Prim.Native.String.{compare as string_compare}
use text.Mathlib.Text.{is_lt}
use reading_companion.Memory.Rows.{Row, Chapter, Event, Chunk, Meta, Tables, TableName}
use reading_companion.Memory.Select.{ascending, descending, exists_visible, fetch, select}

abbrev pub first {ℓ} : {A : Type ℓ} → List A → Option A
first [] = none
first (x ∷ xs) = some x

abbrev pub every : {A : Type 0} → Row A → Bool
every r = true

-- `ORDER BY revealed_at, order_idx, event_id`
abbrev pub story_order : Row Event → Row Event → Bool
story_order x y =
    ltb x.revealed_at y.revealed_at
    || (x.revealed_at == y.revealed_at
        && (ltb x.body.order_idx y.body.order_idx
            || (x.body.order_idx == y.body.order_idx && leb x.rowid y.rowid)))

-- keys compare as SQLite's BINARY collation does, by their characters' codes
abbrev pub key_le : String → String → Bool
key_le x y = not (is_lt (string_compare y x))

-- `ORDER BY revealed_at, chapter_key`
abbrev pub chapter_order : Row Chapter → Row Chapter → Bool
chapter_order x y =
    ltb x.revealed_at y.revealed_at
    || (x.revealed_at == y.revealed_at && key_le x.body.chapter_key y.body.chapter_key)

pub record Bio : Type 0 where
  pub name : String
  pub type : String
  pub first_seen : ℕ
  pub aliases : List String
  pub state : Option String
  pub appears_in_events : List ℕ

pub record CatchUp : Type 0 where
  pub as_of_chapter : ℤ
  pub recap : Option String
  pub cast_size : ℕ
  pub open_threads : ℕ

-- `embed_model` as `search` settles it: the argument, or a pin that is not empty
abbrev pub settle_model : Meta → Option String → Option String
settle_model meta (some m) = some m
settle_model meta none = elim meta.embed_model [
  | none ↦ none
  | some m ↦ if str_eq m "" then none else some m
]

abbrev pub same_space : Option String → ℕ → Row Chunk → Bool
same_space none dim r = true
same_space (some m) dim r =
    elim r.body.embed_model [ none ↦ false | some n ↦ str_eq n m ] && r.body.embed_dim == dim

module _ (book : String) (b : ℤ) (t : Tables) where
  -- `_vis_entities` and `_live_chapters`: the semijoins that close the references
  unfoldable pub vis_entity : ℕ → Bool
  vis_entity id = exists_visible book TableName.entities b (λ e. e.rowid == id) t.entities

  unfoldable pub live_chapter : String → Bool
  live_chapter key =
      exists_visible book TableName.chapters b (λ c. str_eq c.body.chapter_key key) t.chapters

  unfoldable pub vis_event : ℕ → Bool
  vis_event id = exists_visible book TableName.events b (λ e. e.rowid == id) t.events

  -- the rows of `event_participants` that the bookmark reveals
  unfoldable pub linked : ℕ → ℕ → Bool
  linked event entity =
      any
        (λ p.
          str_eq p.book_id book
          && leb_int p.revealed_at b
          && (p.body.event_id == event && p.body.entity_id == entity))
        t.event_participants

  unfoldable pub chapters : List (String × ℕ × String × String)
  chapters =
      fetch book TableName.chapters b every chapter_order
        (λ r. (r.body.chapter_key, r.revealed_at, r.body.title, r.body.part_label)) t.chapters

  unfoldable pub entities_of_type : String → List (ℕ × String × String × ℕ)
  entities_of_type kind =
      fetch book TableName.entities b (λ r. str_eq r.body.type kind) ascending
        (λ r. (r.rowid, r.body.canonical_name, r.body.type, r.revealed_at)) t.entities

  unfoldable pub characters : List (ℕ × String × String × ℕ)
  unfolding entities_of_type
  characters = entities_of_type "character"

  unfoldable pub aliases_of : ℕ → List (String × ℕ)
  aliases_of id =
      fetch book TableName.aliases b (λ r. r.body.entity_id == id && vis_entity r.body.entity_id)
        ascending (λ r. (r.body.surface_form, r.revealed_at)) t.aliases

  -- `NULL AS invalid_at`: the stored expiry is not selected
  unfoldable pub relationships : List (ℕ × ℕ × ℕ × String × String × ℕ × Option ℕ)
  relationships =
      fetch book TableName.edges b
        (λ r. vis_entity r.body.src_entity && vis_entity r.body.dst_entity) ascending
        (λ r. (
          r.rowid, r.body.src_entity, r.body.dst_entity, r.body.rel_type, r.body.label,
          r.revealed_at, none,
        ))
        t.edges

  unfoldable pub timeline : List (ℕ × ℕ × ℕ × String × String)
  timeline =
      fetch book TableName.events b every story_order
        (λ r. (r.rowid, r.revealed_at, r.body.order_idx, r.body.summary, r.body.kind)) t.events

  unfoldable pub participants_of : ℕ → List (ℕ × String × String)
  participants_of event =
      fetch book TableName.entities b (λ r. vis_event event && linked event r.rowid) ascending
        (λ r. (r.rowid, r.body.canonical_name, r.body.type)) t.entities

  unfoldable pub events_for : ℕ → List (ℕ × ℕ × String)
  events_for entity =
      fetch book TableName.events b (λ r. vis_entity entity && linked r.rowid entity) ascending
        (λ r. (r.rowid, r.revealed_at, r.body.summary)) t.events

  unfoldable pub themes : List (ℕ × String × String × ℕ)
  themes =
      fetch book TableName.themes b every ascending
        (λ r. (r.rowid, r.body.name, r.body.description, r.revealed_at)) t.themes

  unfoldable pub current_state : ℕ → Option (ℕ × ℕ × String)
  current_state id = first (
      fetch book TableName.entity_state b
        (λ r. r.body.entity_id == id && vis_entity r.body.entity_id) descending
        (λ r. (r.rowid, r.revealed_at, r.body.status_json)) t.entity_state)

  unfoldable pub chapter_summaries : List (String × ℕ × String)
  chapter_summaries =
      fetch book TableName.chapter_summaries b
        (λ r. str_eq r.body.kind "chapter" && live_chapter r.body.chapter_key) ascending
        (λ r. (r.body.chapter_key, r.revealed_at, r.body.summary)) t.chapter_summaries

  unfoldable pub raw_text : String → Option String
  raw_text key = first (
      fetch book TableName.raw_chapters b
        (λ r. str_eq r.body.chapter_key key && live_chapter r.body.chapter_key) ascending
        (λ r. r.body.text) t.raw_chapters)

  -- `bio`: the entity's row, then one read for each of the other parts
  bio_of : ℕ → Option (String × String × ℕ) → Option Bio
  bio_of id none = none
  bio_of id (some (name, type, seen)) = some (record {
    name = name;
    type = type;
    first_seen = seen;
    aliases = map (λ r. r.0) (aliases_of id);
    state = elim (current_state id) [ none ↦ none | some st ↦ some st.2 ];
    appears_in_events = map (λ r. r.0) (events_for id);
  })

  unfoldable pub bio : ℕ → Option Bio
  unfolding bio_of
  bio id = bio_of id (
      first (
        fetch book TableName.entities b (λ r. r.rowid == id) ascending
          (λ r. (r.body.canonical_name, r.body.type, r.revealed_at)) t.entities))

  unfoldable pub catch_me_up : CatchUp
  catch_me_up = record {
    as_of_chapter = b;
    recap = first (
        fetch book TableName.chapter_summaries b (λ r. str_eq r.body.kind "rolling-recap")
          descending (λ r. r.body.summary) t.chapter_summaries);
    cast_size = length characters;
    open_threads = length relationships;
  }

  -- the rows that the brute-force `search` hands to the ranker, in table order
  unfoldable pub search_candidates : Option String → ℕ → List (ℕ × String × ℕ × String × String)
  search_candidates embed_model dim =
      map (λ r. (r.rowid, r.body.chapter_key, r.revealed_at, r.body.text, r.body.vec))
        (select book TableName.chunks b
          (λ r.
            live_chapter r.body.chapter_key && same_space (settle_model t.meta embed_model) dim r)
          t.chunks)
