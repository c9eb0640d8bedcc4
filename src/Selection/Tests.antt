-- ===== src/Selection/Tests.antt =====
-- A pool of two candidates, and a reply that orders them anew.
use reading_companion.Prelude.{
  ℕ, ◌≡◌, ◌≤◌, refl, String, str_eq, Bool, true, false, some, Option, List, [], ◌∷◌, all, length,
  leb, ℤ, pos, int, string, Result, ok, Value,
}
use reading_companion.Selection.{
  SelectionError, Source, Item, source, Usage, select_sources, validate_selection, candidate_map,
  pool_from, check_prompt,
}
use reading_companion.Selection.Pool.{selection_within_pool}

abbrev size : String → ℕ
size s = 5

abbrev is_blank : String → Bool
is_blank s = str_eq s ""

abbrev first : Source
first = record {
  id = int (pos 1);
  ordinal = int (pos 2);
  title = string "One";
  text = string "He came.";
}

abbrev second : Source
second = record {
  id = int (pos 2);
  ordinal = int (pos 3);
  title = string "Two";
  text = string "She left.";
}

abbrev pool : List Item
pool = source first ∷ source second ∷ []

abbrev used : Usage
used = record { tokens_in = 100; tokens_out = 4 }

abbrev complete : String → List Item → Result SelectionError (Option (List ℤ) × Usage)
complete question candidates = ok (some (pos 2 ∷ pos 1 ∷ []), used)

-- the ordinal is at most 3
abbrev is_read : Source → Bool
is_read s = ordinal_read s.ordinal
  where
    ordinal_read : Value → Bool
    ordinal_read (int (pos n)) = leb n 3
    ordinal_read _ = false

selected_run :
    select_sources size is_blank complete "Who left?" pool ≡ ok (second ∷ first ∷ [], used)
unfolding select_sources validate_selection candidate_map pool_from check_prompt
selected_run = refl

selection_within_pool_example :
    (all is_read (second ∷ first ∷ []) ≡ true) × (length (second ∷ first ∷ []) ≤ 6)
selection_within_pool_example =
    selection_within_pool size is_blank complete is_read "Who left?" pool (second ∷ first ∷ []) used
      refl selected_run
