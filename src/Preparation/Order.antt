-- ===== src/Preparation/Order.antt =====
-- The order of the questions in backend/app/preparation_plan.py: every primary kind first, then
-- follow-ups, then second questions.
use reading_companion.Prelude.{
  ℕ, zero, suc, ◌+◌, str_eq, Bool, true, false, not, ◌&&◌, Option, none, some, List, [], ◌∷◌, ◌++◌,
  map, any, find, ◌==◌, ltb, if◌then◌else◌, ℤ,
}
use reading_companion.Preparation.{
  Kind, character, relationship, event, motive, summary, follow_up, Candidate, same_ids, same_int,
  id_of, parent_in, is_follow_up,
}

-- the place of a kind in `KINDS`
abbrev pub rank : Kind → ℕ
rank character = 0
rank relationship = 1
rank event = 2
rank motive = 3
rank summary = 4
rank follow_up = 5

abbrev pub of_kind : Kind → Candidate → Bool
of_kind kind r = rank r.item.kind == rank kind

abbrev pub same_parent : Option ℤ → Option ℤ → Bool
same_parent none none = true
same_parent (some p) (some q) = same_int p q
same_parent _ _ = false

-- equality of two rows
abbrev pub same_row : Candidate → Candidate → Bool
same_row a b =
    a.id == b.id
    && str_eq a.item.question b.item.question
    && of_kind a.item.kind b
    && same_ids a.item.basis_ids b.item.basis_ids
    && same_parent a.item.follow_up_to b.item.follow_up_to

abbrev pub is_in : List Candidate → Candidate → Bool
is_in ordered r = any (same_row r) ordered

abbrev pub append_found : List Candidate → Option Candidate → List Candidate
append_found ordered none = ordered
append_found ordered (some r) = ordered ++ (r ∷ [])

abbrev pub wanted : Kind → List Candidate → Candidate → Bool
wanted kind ordered r = of_kind kind r && not (is_in ordered r)

abbrev pub is_summary : Kind → Bool
is_summary summary = true
is_summary _ = false

module _ (candidates : List Candidate) where
  -- one kind of one round; a second summary is left out
  unfoldable pub add_kind : (second_round : Bool) → List Candidate → Kind → List Candidate
  add_kind second_round ordered kind =
      if is_summary kind && second_round
      then ordered
      else append_found ordered (find (wanted kind ordered) candidates)

  -- `KINDS[:-1]`
  abbrev pub add_kinds : (second_round : Bool) → List Candidate → List Kind → List Candidate
  add_kinds second_round ordered [] = ordered
  add_kinds second_round ordered (k ∷ kinds) =
      add_kinds second_round (add_kind second_round ordered k) kinds

abbrev pub primary_kinds : List Kind
primary_kinds = character ∷ relationship ∷ event ∷ motive ∷ summary ∷ []

-- the follow-ups of one round, and how many there are by now
unfoldable pub add_follow_ups : List Candidate → (List Candidate × ℕ) → List Candidate × ℕ
add_follow_ups [] s = s
add_follow_ups (r ∷ rows) s =
    let fits =
      is_follow_up r.item.kind
      && not (is_in s.0 r)
      && ltb s.1 2
      && parent_in (map id_of s.0) r.item.follow_up_to in
    add_follow_ups rows (if fits then (s.0 ++ (r ∷ []), s.1 + 1) else s)

abbrev pub one_round :
    List Candidate → (second_round : Bool) → (List Candidate × ℕ) → List Candidate × ℕ
one_round candidates second_round s =
    add_follow_ups candidates (add_kinds candidates second_round s.0 primary_kinds, s.1)

abbrev pub first_rows : ℕ → List Candidate → List Candidate
first_rows zero rows = []
first_rows (suc n) [] = []
first_rows (suc n) (r ∷ rows) = r ∷ first_rows n rows

unfoldable pub diverse_order : List Candidate → (limit : ℕ) → List Candidate
diverse_order candidates limit =
    first_rows limit (one_round candidates true (one_round candidates false ([], 0))).0
