-- ===== src/Preparation.antt =====
-- The question plan of backend/app/preparation_plan.py: which planned questions are kept, which the
-- review clears, in which order they are prepared, and when a saved plan is accepted. The key of a
-- question, `str.strip` and `len` are parameters; a model reply has the types of its schema, whose
-- bounds are tests here.
pub mod Saved
pub mod Order
pub mod Quota
mod Tests
use reading_companion.Prelude.{
  ℕ, zero, suc, ◌+◌, ℤ, pos, negsuc, leb_int, String, str_eq, Bool, true, false, not, ◌&&◌, ◌||◌,
  Option, none, some, List, [], ◌∷◌, ◌++◌, map, any, all, keep, find, length, ◌==◌, ltb, leb,
  if◌then◌else◌, Result, ok, err, ◌>>◌, ◌>>=◌, require,
}

pub data Kind : Type 0 where
  character relationship event motive summary follow_up : Kind

pub record PlannedQuestion : Type 0 where
  pub question : String
  pub kind : Kind
  pub basis_ids : List ℤ
  pub follow_up_to : Option ℤ

pub record Candidate : Type 0 where
  pub id : ℕ
  pub item : PlannedQuestion

pub record QuestionAudit : Type 0 where
  pub question_id : ℤ
  pub safe_to_prepare : Bool
  pub basis_ids : List ℤ

pub data PlanError : Type 0 where
  validation_error review_mismatch : PlanError

abbrev pub same_int : ℤ → ℤ → Bool
same_int (pos m) (pos n) = m == n
same_int (negsuc m) (negsuc n) = m == n
same_int _ _ = false

abbrev pub has_id : ℤ → List ℤ → Bool
has_id i ids = any (same_int i) ids

-- `len(set(ids)) == len(ids)`
abbrev pub distinct : List ℤ → Bool
distinct [] = true
distinct (i ∷ ids) = not (has_id i ids) && distinct ids

abbrev pub subset : List ℤ → List ℤ → Bool
subset ids valid = all (λ i. has_id i valid) ids

abbrev pub is_follow_up : Kind → Bool
is_follow_up follow_up = true
is_follow_up _ = false

abbrev pub is_primary : Candidate → Bool
is_primary c = not (is_follow_up c.item.kind)

abbrev pub id_of : Candidate → ℤ
id_of c = pos c.id

abbrev pub parent_in : List ℤ → Option ℤ → Bool
parent_in ids none = false
parent_in ids (some p) = has_id p ids

abbrev pub no_parent : Option ℤ → Bool
no_parent none = true
no_parent (some p) = false

-- a follow-up has an earlier primary question as its parent, any other kind has none
abbrev pub parent_fits : List ℤ → Kind → Option ℤ → Bool
parent_fits parents kind parent =
    if is_follow_up kind then parent_in parents parent else no_parent parent

abbrev pub seen_before : String → List String → Bool
seen_before key seen = any (str_eq key) seen

module _ (size : String → ℕ) where
  -- the bounds of `PlannedQuestion`
  abbrev pub question_valid : PlannedQuestion → Bool
  question_valid q =
      leb 2 (size q.question)
      && leb (size q.question) 300
      && leb 1 (length q.basis_ids)
      && leb (length q.basis_ids) 8
      && all (leb_int 1) q.basis_ids

abbrev pub stripped : (strip : String → String) → PlannedQuestion → PlannedQuestion
stripped strip q = record q { question = strip q.question }

module _ (key : String → String) (size : String → ℕ) where
  abbrev pub usable :
      (valid_ids : List ℤ)
      → (seen : List String) → (earlier : List Candidate) → PlannedQuestion
      → Bool
  usable valid_ids seen earlier q =
      leb 2 (size q.question)
      && not (str_eq (key q.question) "")
      && not (seen_before (key q.question) seen)
      && distinct q.basis_ids
      && subset q.basis_ids valid_ids
      && parent_fits (map id_of (keep is_primary earlier)) q.kind q.follow_up_to

  -- the loop of `valid_saved_plan`; `last` is the id before
  unfoldable pub rows_valid :
      (last : ℕ) → (seen : List String) → (parents : List ℤ) → List Candidate → Bool
  rows_valid last seen parents [] = true
  rows_valid last seen parents (r ∷ rows) =
      let rest =
        rows_valid r.id (key r.item.question ∷ seen)
          (if is_primary r then pos r.id ∷ parents else parents) rows in
      leb 1 r.id
      && leb r.id 12
      && ltb last r.id
      && question_valid size r.item
      && not (str_eq (key r.item.question) "")
      && not (seen_before (key r.item.question) seen)
      && distinct r.item.basis_ids
      && parent_fits parents r.item.kind r.item.follow_up_to
      && rest

module _ (key strip : String → String) (size : String → ℕ) where
  -- the loop of `validated_candidates`; `earlier` are the candidates so far
  unfoldable pub candidates_from :
      (valid_ids : List ℤ)
      → (index : ℕ) → (seen : List String) → (earlier : List Candidate) → List PlannedQuestion
      → List Candidate
  candidates_from valid_ids index seen earlier [] = []
  candidates_from valid_ids index seen earlier (q ∷ qs) =
      let row : Candidate = record { id = index; item = stripped strip q } in
      let kept = usable key size valid_ids seen earlier (stripped strip q) in
      let rest =
        candidates_from valid_ids (suc index) (if kept then key (strip q.question) ∷ seen else seen)
          (if kept then earlier ++ (row ∷ []) else earlier) qs in
      if kept then row ∷ rest else rest

  unfoldable pub validated_candidates :
      (facts : List ℤ) → List PlannedQuestion → Result PlanError (List Candidate)
  validated_candidates facts qs = do
    require (leb (length qs) 12 && all (question_valid size) qs) validation_error
    ok (candidates_from facts 1 [] [] qs)

pub record SavedPlan : Type 0 where
  pub reviewed : Bool
  pub facts_hash : String
  pub questions : List Candidate

abbrev pub same_ids : List ℤ → List ℤ → Bool
same_ids [] [] = true
same_ids (i ∷ is) (j ∷ js) = same_int i j && same_ids is js
same_ids _ _ = false

abbrev pub is_cited : List ℤ → Bool
is_cited [] = false
is_cited (i ∷ ids) = true

abbrev pub cleared :
    (valid_ids : List ℤ) → (accepted : List Candidate) → Candidate → QuestionAudit → Bool
cleared valid_ids accepted row audit =
    audit.safe_to_prepare
    && is_cited audit.basis_ids
    && distinct audit.basis_ids
    && subset audit.basis_ids valid_ids
    && (not (is_follow_up row.item.kind) || parent_in (map id_of accepted) row.item.follow_up_to)

-- `hex_digest` holds of 64 lower-case hexadecimal digits
unfoldable pub valid_saved_plan :
    (key : String → String) (size : String → ℕ) (hex_digest : String → Bool) → SavedPlan → Bool
valid_saved_plan key size hex_digest plan =
    hex_digest plan.facts_hash
    && leb (length plan.questions) 12
    && rows_valid key size 0 [] [] plan.questions

-- the loop of `reviewed_candidates`
unfoldable pub accepted_from :
    (valid_ids : List ℤ)
    → (accepted : List Candidate) → List Candidate
    → List QuestionAudit
    → List Candidate
accepted_from valid_ids accepted (row ∷ rows) (audit ∷ audits) =
    let kept = cleared valid_ids accepted row audit in
    let rest =
      accepted_from valid_ids (if kept then accepted ++ (row ∷ []) else accepted) rows audits in
    if kept then row ∷ rest else rest
accepted_from valid_ids accepted _ _ = []

unfoldable pub reviewed_candidates :
    (facts : List ℤ) → List Candidate → List QuestionAudit → Result PlanError (List Candidate)
reviewed_candidates facts candidates audits = do
  require (same_ids (map (λ (a : QuestionAudit). a.question_id) audits) (map id_of candidates))
      review_mismatch
  ok (accepted_from facts [] candidates audits)
