-- ===== src/Memory/Select.antt =====
-- `_select` of backend/app/memory/dal.py, the one funnel of every view read, as a query over rows.
use reading_companion.Prelude.{
  ℕ, String, Bool, true, false, not, ◌&&◌, ◌||◌, Option, none, some, List, map, str_eq, ltb, leb,
  ◌==◌, if◌then◌else◌, keep, any, sort_by, ℤ, leb_int,
}
use reading_companion.Memory.Rows.{Row, TableName, is_valid_time}

abbrev pub is_live : Option String → Bool
is_live none = true
is_live (some _) = false

-- `invalid_at IS NULL OR invalid_at > bookmark`
abbrev pub still_valid : Option ℕ → ℤ → Bool
still_valid none b = true
still_valid (some at) b = not (leb_int at b)

module _ {A : Type 0} where
  -- the spoiler clause that `_select` appends
  unfoldable pub visible : String → TableName → ℤ → Row A → Bool
  visible book t b r =
      str_eq r.book_id book
      && leb_int r.revealed_at b
      && is_live r.retracted_at
      && (if is_valid_time t then still_valid r.invalid_at b else true)

  unfoldable pub select :
      String → TableName → ℤ → (where_extra : Row A → Bool) → List (Row A) → List (Row A)
  select book t b where_extra rows = keep (λ r. visible book t b r && where_extra r) rows

  -- `ORDER BY revealed_at, rowid` and its descending form
  abbrev pub ascending : Row A → Row A → Bool
  ascending x y =
      ltb x.revealed_at y.revealed_at || (x.revealed_at == y.revealed_at && leb x.rowid y.rowid)

  abbrev pub descending : Row A → Row A → Bool
  descending x y = ascending y x

  -- `rowid IN (SELECT … WHERE <spoiler clause>)`, with a further test of the inner row
  unfoldable pub exists_visible : String → TableName → ℤ → (Row A → Bool) → List (Row A) → Bool
  exists_visible book t b test rows = any (λ r. visible book t b r && test r) rows

module _ {A B : Type 0} where
  -- one `SELECT cols … WHERE … ORDER BY …`
  unfoldable pub fetch :
      String
      → TableName
      → ℤ
      → (Row A → Bool)
      → (Row A → Row A → Bool)
      → (cols : Row A → B) → List (Row A)
      → List B
  unfolding select
  fetch book t b where_extra order cols rows =
      map cols (sort_by order (select book t b where_extra rows))
