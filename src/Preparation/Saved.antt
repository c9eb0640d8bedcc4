-- ===== src/Preparation/Saved.antt =====
-- A plan of backend/app/preparation_plan.py that is saved after its validation is accepted again.
use reading_companion.Prelude.{
  ℕ, suc, ◌+◌, ◌≤◌, ◌<◌, ℤ, pos, String, ◌≡◌, refl, sym, subst, Bool, true, not, ◌&&◌, ◌||◌, List,
  [], ◌∷◌, ◌++◌, map, all, keep, length, leb, if◌then◌else◌, ok, arith, Bool-cases, inl, inr,
  ok_injective, after-require, Option, none, some, if-either, and→both, leb→le, both→and, le→leb,
}
use reading_companion.Preparation.{
  PlannedQuestion, Candidate, Kind, has_id, same_int, is_primary, id_of, parent_fits, is_follow_up,
  question_valid, usable, stripped, candidates_from, validated_candidates, rows_valid,
  valid_saved_plan, validation_error,
}

-- the ids that a follow-up may name
abbrev pub primaries : List Candidate → List ℤ
primaries earlier = map id_of (keep is_primary earlier)

primaries-snoc :
    (earlier : List Candidate) (r : Candidate) (i : ℤ)
    → has_id i (primaries (earlier ++ (r ∷ [])))
      ≡ (has_id i (primaries earlier) || (is_primary r && same_int i (id_of r)))
primaries-snoc [] r i = ground arith
primaries-snoc (c ∷ earlier) r i = ground (arith, primaries-snoc earlier r i)

parent_fits-same :
    (ids parents : List ℤ) (kind : Kind) (parent : Option ℤ)
    → ((i : ℤ) → has_id i ids ≡ has_id i parents)
    → parent_fits ids kind parent ≡ parent_fits parents kind parent
parent_fits-same ids parents kind none same = refl
parent_fits-same ids parents kind (some p) same = ground (arith, same p)

module _ (key strip : String → String) (size : String → ℕ)
    (shorter : (s : String) → size (strip s) ≤ size s) where
  stripped-valid :
      (q : PlannedQuestion)
      → question_valid size q ≡ true
      → leb 2 (size (strip q.question)) ≡ true
      → question_valid size (stripped strip q) ≡ true
  stripped-valid q v l = let s = shorter q.question in ground (arith, s, v, l)

  -- A question that is kept passes the tests of a saved plan.
  row-valid :
      (facts : List ℤ) (index last : ℕ) (seen : List String) (earlier : List Candidate)
      (parents : List ℤ) (q : PlannedQuestion) (rest : List Candidate)
      → last < index
      → index ≤ 12
      → question_valid size q ≡ true
      → ((i : ℤ) → has_id i (primaries earlier) ≡ has_id i parents)
      → usable key size facts seen earlier (stripped strip q) ≡ true
      → rows_valid key size index
          (key (strip q.question) ∷ seen)
          (if not (is_follow_up q.kind) then pos index ∷ parents else parents)
          rest
        ≡ true
      → rows_valid key size last seen parents
          (record { id = index; item = stripped strip q } ∷ rest)
        ≡ true
  unfolding rows_valid
  row-valid facts index last seen earlier parents q rest l b v same t h =
      let s = stripped-valid q v (ground (arith, t)) in
      let p = parent_fits-same (primaries earlier) parents q.kind q.follow_up_to same in
      ground (arith, s, t, p, h)

  candidates_from-valid :
      (facts : List ℤ) (index last : ℕ) (seen : List String) (earlier : List Candidate)
      (parents : List ℤ) (qs : List PlannedQuestion)
      → last < index
      → index + length qs ≤ 13
      → all (question_valid size) qs ≡ true
      → ((i : ℤ) → has_id i (primaries earlier) ≡ has_id i parents)
      → rows_valid key size last seen parents
          (candidates_from key strip size facts index seen earlier qs)
        ≡ true
  unfolding candidates_from rows_valid
  candidates_from-valid facts index last seen earlier parents [] l b v same = refl
  candidates_from-valid facts index last seen earlier parents (q ∷ qs) l b v same =
      let row : Candidate = record { id = index; item = stripped strip q } in
      let used = usable key size facts seen earlier (stripped strip q) in
      let next = λ (k : Bool).
        candidates_from key strip size facts (suc index)
          (if k then key (strip q.question) ∷ seen else seen)
          (if k then earlier ++ (row ∷ []) else earlier) qs in
      elim (Bool-cases used) [
        | inl t ↦
            subst
              (λ k.
                rows_valid key size last seen parents (if k then row ∷ next k else next k) ≡ true)
              (sym t)
              (row-valid facts index last seen earlier parents q (next true) l (omega (arith, b))
                (ground (arith, v)) same t
                (candidates_from-valid facts (suc index) index (key (strip q.question) ∷ seen)
                  (earlier ++ (row ∷ [])) (if is_primary row then pos index ∷ parents else parents)
                  qs (omega arith) (omega (arith, b)) (ground (arith, v))
                  (λ i. let p = primaries-snoc earlier row i in ground (arith, p, same i))))
        | inr f ↦
            subst
              (λ k.
                rows_valid key size last seen parents (if k then row ∷ next k else next k) ≡ true)
              (sym f)
              (candidates_from-valid facts (suc index) last seen earlier parents qs
                (omega (arith, l)) (omega (arith, b)) (ground (arith, v)) same)
      ]

  length-candidates_from :
      (facts : List ℤ) (index : ℕ) (seen : List String) (earlier : List Candidate)
      (qs : List PlannedQuestion)
      → length (candidates_from key strip size facts index seen earlier qs) ≤ length qs
  unfolding candidates_from
  length-candidates_from facts index seen earlier [] = omega arith
  length-candidates_from facts index seen earlier (q ∷ qs) =
      let row : Candidate = record { id = index; item = stripped strip q } in
      let k = usable key size facts seen earlier (stripped strip q) in
      let rest =
        length-candidates_from facts (suc index) (if k then key (strip q.question) ∷ seen else seen)
          (if k then earlier ++ (row ∷ []) else earlier) qs in
      if-either (λ (x : List Candidate). length x ≤ suc (length qs)) k _ _ (omega (arith, rest))
        (omega (arith, rest))

  -- A plan of validated candidates, saved with a proper hash of its facts, is accepted when it is loaded,
  -- where stripping a question does not make it longer.
  pub validated_candidates_saved :
      (hex_digest : String → Bool) (facts : List ℤ) (qs : List PlannedQuestion)
      (candidates : List Candidate) (reviewed : Bool) (facts_hash : String)
      → validated_candidates key strip size facts qs ≡ ok candidates
      → hex_digest facts_hash ≡ true
      → valid_saved_plan key size hex_digest
          (record { reviewed = reviewed; facts_hash = facts_hash; questions = candidates })
        ≡ true
  unfolding validated_candidates valid_saved_plan
  validated_candidates_saved hex_digest facts qs candidates reviewed facts_hash h digest =
      let (v, e) =
        after-require (leb (length qs) 12 && all (question_valid size) qs) validation_error h in
      let (few, each) = and→both _ _ v in
      let bound = leb→le (length qs) 12 few in
      let shorter_list = length-candidates_from facts 1 [] [] qs in
      let rows =
        candidates_from-valid facts 1 0 [] [] [] qs (omega arith) (omega (arith, bound)) each
          (λ i. refl) in
      subst
        (λ x. (hex_digest facts_hash && leb (length x) 12 && rows_valid key size 0 [] [] x) ≡ true)
        (ok_injective e)
        (both→and _ _ (both→and _ _ digest (le→leb _ 12 (omega (arith, shorter_list, bound)))) rows)
