-- ===== src/Memory/Writers/Statements.antt =====
-- The SQL statements of the writers: inserts with SQLite's next rowid, updates by key, and the
-- constraints that the schema declares.
use reading_companion.Prelude.{
  ◌≡◌, refl, arith, length, keep, ℕ, ◌+◌, max, String, Bool, true, not, ◌&&◌, ◌||◌, Option, none,
  some, List, [], ◌∷◌, ◌++◌, str_eq, ltb, ◌==◌, if◌then◌else◌, any,
}
use reading_companion.Memory.Rows.{Row}
use reading_companion.Memory.Select.{is_live}

module _ {A : Type 0} where
  -- `INTEGER PRIMARY KEY`: one more than the largest rowid
  abbrev pub last_rowid : List (Row A) → ℕ
  last_rowid [] = 0
  last_rowid (r ∷ rows) = max r.rowid (last_rowid rows)

  abbrev pub has_row : ℕ → List (Row A) → Bool
  has_row id rows = any (λ r. r.rowid == id) rows

  unfoldable pub appended : String → ℕ → Option ℕ → A → List (Row A) → List (Row A)
  appended book at invalid_at body rows =
      rows
      ++ record {
        rowid = last_rowid rows + 1;
        book_id = book;
        revealed_at = at;
        invalid_at = invalid_at;
        retracted_at = none;
        body = body;
      }
        ∷ []

  abbrev pub is_target : String → ℕ → Row A → Bool
  is_target book id r = r.rowid == id && str_eq r.book_id book

  -- `UPDATE … SET invalid_at=? WHERE id=? AND book_id=?`
  unfoldable pub ended : String → ℕ → ℕ → List (Row A) → List (Row A)
  ended book id at [] = []
  ended book id at (r ∷ rows) =
      (if is_target book id r then record r { invalid_at = some at } else r) ∷ ended book id at rows

  -- `CHECK (invalid_at IS NULL OR invalid_at > revealed_at)` on the rows that such an update meets
  unfoldable pub may_end : String → ℕ → ℕ → List (Row A) → Bool
  may_end book id at [] = true
  may_end book id at (r ∷ rows) =
      (not (is_target book id r) || ltb r.revealed_at at) && may_end book id at rows

  -- `UPDATE … SET retracted_at=? WHERE retracted_at IS NULL AND book_id=? AND (…)`
  unfoldable pub retracted : String → String → (Row A → Bool) → List (Row A) → List (Row A)
  retracted now book where_extra [] = []
  retracted now book where_extra (r ∷ rows) =
      (if is_live r.retracted_at && (str_eq r.book_id book && where_extra r)
        then record r { retracted_at = some now }
        else r)
      ∷ retracted now book where_extra rows

-- the same check on a row that is inserted
abbrev pub valid_span : ℕ → Option ℕ → Bool
valid_span at none = true
valid_span at (some end) = ltb at end

-- An update by a key that no row has changes nothing.
pub ended-absent :
    {A : Type 0} (book : String) (id at : ℕ) (rows : List (Row A))
    → length (keep (is_target book id) rows) ≡ 0
    → ended book id at rows ≡ rows
unfolding ended
ended-absent book id at [] h = refl
ended-absent book id at (r ∷ rows) h = ground (arith, ended-absent book id at rows)
