-- ===== src/Jobs/Library.antt =====
-- The tables that a chapter commit of backend/app/hosted/jobs.py writes, and its arguments.
use reading_companion.Prelude.{ℕ, String, Option, List}
use reading_companion.Jobs.Spend.{Costs}

-- `chapters`
pub record Chapter : Type 0 where
  pub owner_id : ℕ
  pub book_id : ℕ
  pub book_incarnation : ℕ
  pub id : ℕ
  pub chapter_key : String
  pub revealed_at : ℕ
  pub title : String
  pub content_hash : String
  pub extractor_version : String
  pub retracted_at : Option ℕ

-- `chapter_summaries`
pub record Summary : Type 0 where
  pub owner_id : ℕ
  pub book_id : ℕ
  pub book_incarnation : ℕ
  pub source_chapter_id : ℕ
  pub kind : String
  pub summary : String
  pub revealed_at : ℕ
  pub extractor_version : String
  pub retracted_at : Option ℕ

-- `ingested_chapters`
pub record Receipt : Type 0 where
  pub owner_id : ℕ
  pub book_id : ℕ
  pub book_incarnation : ℕ
  pub chapter_id : ℕ
  pub content_hash : String
  pub extractor_model : String
  pub input_tokens : ℕ
  pub output_tokens : ℕ
  pub usd : ℕ
  pub completed_at : ℕ

-- what the transaction reads and writes; `events` are the chapters of its audit events
pub record Library : Type 0 where
  pub costs : Costs
  pub chapters : List Chapter
  pub summaries : List Summary
  pub receipts : List Receipt
  pub events : List ℕ

-- the arguments of `commit_chapter` after the claim
pub record ChapterCommit : Type 0 where
  pub book_id : ℕ
  pub book_incarnation : ℕ
  pub chapter_id : ℕ
  pub chapter_key : String
  pub ordinal : ℕ
  pub content_hash : String
  pub summary : String
  pub extractor_version : String
  pub provider : String
  pub model : String
  pub input_tokens : ℕ
  pub output_tokens : ℕ
  pub usd : ℕ
  pub cost_idempotency_key : String
