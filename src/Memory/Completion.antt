-- ===== src/Memory/Completion.antt =====
-- The completion markers of backend/app/memory/dal.py (table `ingested_chapters`), on which the
-- durable frontier of an ingestion rests. The hash of a text, cut to 16 digits, is a parameter. The
-- reads here are those of an admitted caller: the guards are in the session.
pub mod Durable
mod Tests
use reading_companion.Prelude.{
  ℕ, String, Bool, true, false, not, ◌&&◌, Option, none, some, List, [], ◌∷◌, ◌++◌, str_eq, ◌==◌,
  find, any, if◌then◌else◌, Result, ok, err, ◌>>=◌, ◌>>◌, require,
}
use reading_companion.Memory.Rows.{Row, Chapter, RawChapter, Tables}
use reading_companion.Memory.Select.{is_live}

pub record Cost : Type 0 where
  pub model : Option String
  pub input_tokens : ℕ
  pub output_tokens : ℕ
  pub usd : ℕ

-- a row of `ingested_chapters`; `cost` is what `cost_pending` leaves to reconcile
pub record Marker : Type 0 where
  pub chapter_key : String
  pub book_id : String
  pub content_hash : String
  pub cost : Option Cost

pub record Atom : Type 0 where
  pub key : String
  pub ordinal : ℕ

abbrev pub marks : String → String → Marker → Bool
marks book key i = str_eq i.chapter_key key && str_eq i.book_id book

unfoldable pub chapter_is_ingested : String → List Marker → (key content_hash : String) → Bool
chapter_is_ingested book markers key content_hash =
    any (λ (i : Marker). marks book key i && str_eq i.content_hash content_hash) markers

unfoldable pub chapter_live : String → Tables → String → Bool
chapter_live book t key =
    any
      (λ (c : Row Chapter).
        str_eq c.body.chapter_key key && str_eq c.book_id book && is_live c.retracted_at)
      t.chapters

-- the outer transaction that the marker must stand in, and the keys of `ingested_chapters`
pub data MarkError : Type 0 where
  no_transaction already_marked no_such_chapter : MarkError

unfoldable pub mark_chapter_ingested :
    String
    → (transaction_active : Bool) → Tables
    → (key content_hash : String) → Option Cost
    → List Marker
    → Result MarkError (List Marker)
mark_chapter_ingested book active t key content_hash cost markers = do
  require active no_transaction
  require (not (any (λ (i : Marker). str_eq i.chapter_key key) markers)) already_marked
  require (any (λ (c : Row Chapter). str_eq c.body.chapter_key key) t.chapters) no_such_chapter
  ok (
      markers
      ++ (record { chapter_key = key; book_id = book; content_hash = content_hash; cost = cost }
          ∷ []))

-- `row["raw_revealed_at"] not in (None, ordinal)` and `row["raw_hash"] not in (None, actual_hash)`
abbrev pub raw_agrees : ℕ → String → Option (Row RawChapter) → Bool
raw_agrees ordinal hash none = true
raw_agrees ordinal hash (some r) = r.revealed_at == ordinal && str_eq r.body.content_hash hash

-- `row["text"] or ""`
abbrev pub text_of : Option (Row RawChapter) → String
text_of none = ""
text_of (some r) = r.body.text

abbrev pub hash_agrees : String → Option String → Bool
hash_agrees hash none = true
hash_agrees hash (some h) = str_eq h hash

module _ (digest : String → String) (book : String) (markers : List Marker) (t : Tables) where
  -- the LEFT JOIN of the live raw text
  abbrev pub raw_row : String → Option (Row RawChapter)
  raw_row key =
      find
        (λ (r : Row RawChapter).
          str_eq r.body.chapter_key key && str_eq r.book_id book && is_live r.retracted_at)
        t.raw_chapters

  abbrev pub chapter_row : String → Option (Row Chapter)
  chapter_row key =
      find
        (λ (c : Row Chapter).
          str_eq c.body.chapter_key key && str_eq c.book_id book && is_live c.retracted_at)
        t.chapters

  -- the comparison of the joined row
  unfoldable pub intact : ℕ → Option String → Marker → Row Chapter → Option (Row RawChapter) → Bool
  intact ordinal content_hash i c r =
      let hash = digest (text_of r) in
      c.revealed_at == ordinal
      && raw_agrees ordinal hash r
      && str_eq i.content_hash c.body.content_hash
      && str_eq c.body.content_hash hash
      && hash_agrees hash content_hash

  -- the receipt of a joined row; its cost may be none
  abbrev pub receipt :
      String → ℕ → Option String → Option Marker → Option (Row Chapter) → Option (Option Cost)
  receipt key ordinal content_hash (some i) (some c) =
      if intact ordinal content_hash i c (raw_row key) then some i.cost else none
  receipt key ordinal content_hash _ _ = none

  unfoldable pub chapter_completion : String → ℕ → Option String → Option (Option Cost)
  chapter_completion key ordinal content_hash =
      receipt key ordinal content_hash (find (marks book key) markers) (chapter_row key)

  -- `completion_frontier` from the frontier reached so far
  unfoldable pub frontier_from : ℕ → List Atom → ℕ
  frontier_from reached [] = reached
  frontier_from reached (a ∷ atoms) =
      let rest = frontier_from a.ordinal atoms in
      elim (chapter_completion a.key a.ordinal none) as (λ x. ℕ) [ none ↦ reached | some r ↦ rest ]

  unfoldable pub completion_frontier : List Atom → ℕ
  completion_frontier atoms = frontier_from 0 atoms
