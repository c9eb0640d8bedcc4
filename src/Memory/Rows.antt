-- ===== src/Memory/Rows.antt =====
-- backend/app/memory/schema/memory.sql with the columns of the later migrations: the tables of one
-- book's memory. A row is the columns that all fact tables share, and its own columns as `body`.
use reading_companion.Prelude.{ℕ, String, Bool, true, false, Option, List}

pub record Row (A : Type 0) : Type 0 where
  pub rowid : ℕ
  pub book_id : String
  pub revealed_at : ℕ
  pub invalid_at : Option ℕ
  pub retracted_at : Option String
  pub body : A

pub record Chapter : Type 0 where
  pub chapter_key : String
  pub href : String
  pub title : String
  pub part_label : String
  pub content_hash : String

pub record RawChapter : Type 0 where
  pub chapter_key : String
  pub text : String
  pub content_hash : String

pub record Summary : Type 0 where
  pub chapter_key : String
  pub kind : String
  pub summary : String

pub record Entity : Type 0 where
  pub canonical_name : String
  pub type : String

pub record Alias : Type 0 where
  pub entity_id : ℕ
  pub surface_form : String

pub record Edge : Type 0 where
  pub src_entity : ℕ
  pub dst_entity : ℕ
  pub rel_type : String
  pub label : String

pub record Event : Type 0 where
  pub order_idx : ℕ
  pub summary : String
  pub kind : String

-- `event_participants` has no `retracted_at`; the field stays `none`.
pub record Participant : Type 0 where
  pub event_id : ℕ
  pub entity_id : ℕ
  pub role : String

pub record Theme : Type 0 where
  pub name : String
  pub description : String

pub record EntityState : Type 0 where
  pub entity_id : ℕ
  pub status_json : String

pub record Chunk : Type 0 where
  pub chapter_key : String
  pub text : String
  pub vec : String
  pub embed_model : Option String
  pub embed_dim : ℕ

-- the pinned embedding identity of `book_meta`
pub record Meta : Type 0 where
  pub embed_model : Option String
  pub embed_dim : Option ℕ

pub record Tables : Type 0 where
  pub meta : Meta
  pub chapters : List (Row Chapter)
  pub raw_chapters : List (Row RawChapter)
  pub chapter_summaries : List (Row Summary)
  pub entities : List (Row Entity)
  pub aliases : List (Row Alias)
  pub edges : List (Row Edge)
  pub events : List (Row Event)
  pub event_participants : List (Row Participant)
  pub themes : List (Row Theme)
  pub entity_state : List (Row EntityState)
  pub chunks : List (Row Chunk)

pub data TableName : Type 0 where
  chapters raw_chapters chapter_summaries entities aliases edges events : TableName
  event_participants themes entity_state chunks : TableName

-- `VALID_TIME_TABLES`: the facts that the story can supersede
abbrev pub is_valid_time : TableName → Bool
is_valid_time entities = true
is_valid_time edges = true
is_valid_time events = true
is_valid_time themes = true
is_valid_time entity_state = true
is_valid_time _ = false
