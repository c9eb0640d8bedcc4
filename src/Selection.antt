-- ===== src/Selection.antt =====
-- The choice of evidence in backend/app/ask_selection.py. The pool of candidates is already limited to
-- the bookmark; a model chooses among them by id, and its reply is checked. The test for a text that
-- is not blank, its length, the prompt in JSON and the model are parameters; a reply is `none` where
-- it is no object with a list of integers.
pub mod Pool
mod Tests
use reading_companion.Passages.{passage_chars}
use reading_companion.Prelude.{
  ℕ, zero, suc, ◌+◌, ℤ, pos, negsuc, String, Bool, true, false, not, ◌&&◌, Option, none, some, List,
  [], ◌∷◌, map, any, all, find, length, ◌==◌, leb, leb_int, if◌then◌else◌, Result, ok, err, ◌>>=◌,
  ◌>>◌, require, Value, int, boolean, string, real, null,
}

pub data SelectionError : Type 0 where
  pool_invalid question_invalid selection_invalid unavailable_candidate : SelectionError
  provider_failed : SelectionError

abbrev pub max_source_candidates : ℕ
max_source_candidates = 24

abbrev pub max_selected_sources : ℕ
max_selected_sources = 6

-- the fields of a candidate, `null` where `source.get` finds none
pub record Source : Type 0 where
  pub id : Value
  pub ordinal : Value
  pub title : Value
  pub text : Value

-- an element of the pool: a dict, or any other value
pub data Item : Type 0 where
  source : Source → Item
  no_dict : Item

-- an `int` that is no bool, from 1 to `top` where there is one
abbrev pub as_id : (top : ℕ) → Value → Option ℕ
as_id top (int (pos n)) = if leb 1 n && leb n top then some n else none
as_id top _ = none

abbrev pub is_ordinal : Value → Bool
is_ordinal (int (pos n)) = leb 1 n
is_ordinal _ = false

abbrev pub is_string : Value → Bool
is_string (string s) = true
is_string _ = false

-- `available`
abbrev pub Pool : Type 0
Pool = List (ℕ × Source)

abbrev pub has_source : Pool → ℕ → Bool
has_source pool id = any (λ (e : ℕ × Source). e.0 == id) pool

abbrev pub entry_of : Pool → ℕ → Option (ℕ × Source)
entry_of pool id = find (λ (e : ℕ × Source). e.0 == id) pool

module _ (size : String → ℕ) (is_blank : String → Bool) where
  abbrev pub is_passage : Value → Bool
  is_passage (string s) = not (is_blank s) && leb (size s) passage_chars
  is_passage _ = false

  abbrev pub source_id : Pool → Source → Option ℕ → Result SelectionError ℕ
  source_id pool s none = err pool_invalid
  source_id pool s (some id) = do
    require
        (not (has_source pool id) && is_ordinal s.ordinal && is_string s.title && is_passage s.text)
        pool_invalid
    ok id

  -- the loop of `_candidate_map`
  unfoldable pub pool_from : Pool → List Item → Result SelectionError Pool
  pool_from pool [] = ok pool
  pool_from pool (no_dict ∷ items) = err pool_invalid
  pool_from pool (source s ∷ items) = do
    id ← source_id pool s (as_id max_source_candidates s.id)
    pool_from ((id, s) ∷ pool) items

  -- `_candidate_map`
  unfoldable pub candidate_map : List Item → Result SelectionError Pool
  candidate_map candidates = do
    require (leb (length candidates) max_source_candidates) pool_invalid
    pool_from [] candidates

  -- `selection_prompt`, up to the text
  unfoldable pub check_prompt : (question : String) → List Item → Result SelectionError (Unit {0})
  check_prompt question candidates = do
    pool ← candidate_map candidates
    require (leb 2 (size question) && leb (size question) 500 && not (is_blank question))
        question_invalid

-- a list of ids, where every id is one
abbrev pub add_id : Option ℕ → Option (List ℕ) → Option (List ℕ)
add_id (some n) (some ns) = some (n ∷ ns)
add_id _ _ = none

abbrev pub ids_of : List ℤ → Option (List ℕ)
ids_of [] = some []
ids_of (i ∷ is) = add_id (as_id max_source_candidates (int i)) (ids_of is)

abbrev pub distinct : List ℕ → Bool
distinct [] = true
distinct (n ∷ ns) = not (any (λ m. m == n) ns) && distinct ns

abbrev pub check_ids : Option (List ℕ) → Result SelectionError (List ℕ)
check_ids none = err selection_invalid
check_ids (some ids) = do
  require (leb (length ids) max_selected_sources && distinct ids) selection_invalid
  ok ids

-- the validation of `SourceSelection`
abbrev pub selected_ids : Option (List ℤ) → Result SelectionError (List ℕ)
selected_ids none = err selection_invalid
selected_ids (some ids) = check_ids (ids_of ids)

abbrev pub take_entry : Option (ℕ × Source) → List Source → List Source
take_entry none rest = rest
take_entry (some e) rest = e.1 ∷ rest

abbrev pub pick : Pool → List ℕ → List Source
pick pool [] = []
pick pool (id ∷ ids) = take_entry (entry_of pool id) (pick pool ids)

pub record Usage : Type 0 where
  pub tokens_in : ℕ
  pub tokens_out : ℕ

module _ (size : String → ℕ) (is_blank : String → Bool) where
  unfoldable pub validate_selection :
      Option (List ℤ) → List Item → Result SelectionError (List Source)
  validate_selection value candidates = do
    pool ← candidate_map size is_blank candidates
    ids ← selected_ids value
    require (all (has_source pool) ids) unavailable_candidate
    ok (pick pool ids)

  module _ (complete : String → List Item → Result SelectionError (Option (List ℤ) × Usage)) where
    abbrev pub select_from : String → List Item → Result SelectionError (List Source × Usage)
    select_from question [] = ok ([], record { tokens_in = 0; tokens_out = 0 })
    select_from question (c ∷ candidates) = do
      reply ← complete question (c ∷ candidates)
      rows ← validate_selection reply.0 (c ∷ candidates)
      ok (rows, reply.1)

    unfoldable pub select_sources : String → List Item → Result SelectionError (List Source × Usage)
    select_sources question candidates = do
      check_prompt size is_blank question candidates
      select_from question candidates
