-- ===== src/Preparation/Tests.antt =====
-- A plan of three questions, the last of them a follow-up.
use reading_companion.Prelude.{
  ℕ, ◌≡◌, ◌≤◌, refl, String, str_eq, true, false, some, none, List, [], ◌∷◌, ok, arith, pos,
}
use reading_companion.Preparation.{
  PlannedQuestion, Candidate, character, follow_up, validated_candidates, candidates_from,
  valid_saved_plan,
}
use reading_companion.Preparation.Saved.{validated_candidates_saved}
use reading_companion.Preparation.Order.{diverse_order}
use reading_companion.Preparation.Quota.{diverse_order-quota, count_of}

abbrev same : String → String
same s = s

abbrev size : String → ℕ
size s = 5

abbrev who : PlannedQuestion
who = record {
  question = "Who is Emma?";
  kind = character;
  basis_ids = pos 1 ∷ [];
  follow_up_to = none;
}

abbrev lost : PlannedQuestion
lost = record {
  question = "What of Bates?";
  kind = follow_up;
  basis_ids = pos 2 ∷ [];
  follow_up_to = some (pos 3);
}

abbrev why : PlannedQuestion
why = record {
  question = "Where does she live?";
  kind = follow_up;
  basis_ids = pos 2 ∷ pos 1 ∷ [];
  follow_up_to = some (pos 1);
}

abbrev candidates : List Candidate
candidates = record { id = 1; item = who } ∷ record { id = 3; item = why } ∷ []

-- the second question names a parent that comes after it
validated_run :
    validated_candidates same same size (pos 1 ∷ pos 2 ∷ []) (who ∷ lost ∷ why ∷ []) ≡ ok candidates
unfolding validated_candidates candidates_from
validated_run = refl

validated_candidates_saved_example :
    valid_saved_plan same size
      (λ h. str_eq h "h")
      (record { reviewed = false; facts_hash = "h"; questions = candidates })
    ≡ true
validated_candidates_saved_example =
    validated_candidates_saved same same size (λ s. omega arith) (λ h. str_eq h "h")
      (pos 1 ∷ pos 2 ∷ []) (who ∷ lost ∷ why ∷ []) candidates false "h" validated_run refl

diverse_order-quota_example : count_of follow_up (diverse_order candidates 8) ≤ 2
diverse_order-quota_example = diverse_order-quota candidates 8 follow_up
