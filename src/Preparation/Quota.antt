-- ===== src/Preparation/Quota.antt =====
-- How many questions of a kind backend/app/preparation_plan.py prepares.
use reading_companion.Prelude.{
  ℕ, zero, suc, ◌+◌, ◌≤◌, ◌≡◌, refl, sym, ◌∙◌, subst, Bool, true, false, not, ◌&&◌, Option, none,
  some, List, [], ◌∷◌, ◌++◌, map, keep, find, find-holds, length, ◌==◌, ltb, if◌then◌else◌, arith,
  Bool-cases, inl, inr, if-split,
}
use reading_companion.Preparation.{
  Kind, character, relationship, event, motive, summary, follow_up, Candidate, id_of, parent_in,
  is_follow_up,
}
use reading_companion.Preparation.Order.{
  rank, of_kind, is_in, append_found, wanted, is_summary, add_kind, add_kinds, primary_kinds,
  add_follow_ups, one_round, first_rows, diverse_order,
}

abbrev pub count_of : Kind → List Candidate → ℕ
count_of kind rows = length (keep (of_kind kind) rows)

count_of-snoc :
    (kind : Kind) (rows : List Candidate) (r : Candidate)
    → count_of kind (rows ++ (r ∷ [])) ≡ count_of kind rows + (if of_kind kind r then 1 else 0)
count_of-snoc kind [] r = ground arith
count_of-snoc kind (s ∷ rows) r = ground (arith, count_of-snoc kind rows r)

count_of-first_rows :
    (kind : Kind) (n : ℕ) (rows : List Candidate)
    → count_of kind (first_rows n rows) ≤ count_of kind rows
count_of-first_rows kind zero rows = omega arith
count_of-first_rows kind (suc n) [] = omega arith
count_of-first_rows kind (suc n) (r ∷ rows) = ground (arith, count_of-first_rows kind n rows)

-- one question more for the kind itself
allowed : (second_round : Bool) → Kind → Kind → ℕ
allowed second_round kind k =
    if is_summary k && second_round then 0 else if rank k == rank kind then 1 else 0

add_kind-count :
    (candidates : List Candidate) (second_round : Bool) (ordered : List Candidate) (kind k : Kind)
    → count_of kind (add_kind candidates second_round ordered k)
      ≤ count_of kind ordered + allowed second_round kind k
unfolding add_kind allowed
add_kind-count candidates second_round ordered kind k = go (find (wanted k ordered) candidates) refl
  where
    go :
        (f : Option Candidate)
        → find (wanted k ordered) candidates ≡ f
        → count_of kind (if is_summary k && second_round then ordered else append_found ordered f)
          ≤ count_of kind ordered
            + (if is_summary k && second_round then 0 else if rank k == rank kind then 1 else 0)
    go none e = ground arith
    go (some r) e =
        let w = find-holds (wanted k ordered) candidates r e in
        let c = count_of-snoc kind ordered r in ground (arith, w, c)

-- how many questions of a kind are prepared
abbrev pub quota : Kind → ℕ
quota summary = 1
quota _ = 2

total_allowed : (second_round : Bool) → Kind → List Kind → ℕ
total_allowed second_round kind [] = 0
total_allowed second_round kind (k ∷ kinds) =
    allowed second_round kind k + total_allowed second_round kind kinds

primary-rank : (k : Kind) → is_follow_up k ≡ false → rank k ≤ 4
primary-rank k h = ground arith

follow_up-rank : (k : Kind) → is_follow_up k ≡ true → rank k ≡ 5
follow_up-rank k h = ground arith

only_follow_up : (k : Kind) → is_follow_up k ≡ true → k ≡ follow_up
only_follow_up follow_up h = refl
only_follow_up character h = cc
only_follow_up relationship h = cc
only_follow_up event h = cc
only_follow_up motive h = cc
only_follow_up summary h = cc

module _ (candidates : List Candidate) (kind : Kind) where
  add_kinds-count :
      (second_round : Bool) (ordered : List Candidate) (kinds : List Kind)
      → count_of kind (add_kinds candidates second_round ordered kinds)
        ≤ count_of kind ordered + total_allowed second_round kind kinds
  unfolding total_allowed
  add_kinds-count second_round ordered [] = omega arith
  add_kinds-count second_round ordered (k ∷ kinds) =
      let now = add_kind-count candidates second_round ordered kind k in
      let later = add_kinds-count second_round (add_kind candidates second_round ordered k) kinds in
      omega (arith, now, later)

  -- Follow-ups are of no other kind.
  add_follow_ups-other :
      is_follow_up kind ≡ false
      → (rows : List Candidate) (s : List Candidate × ℕ)
      → count_of kind (add_follow_ups rows s).0 ≡ count_of kind s.0
  unfolding add_follow_ups
  add_follow_ups-other p [] s = refl
  add_follow_ups-other p (r ∷ rows) s =
      let fits =
        is_follow_up r.item.kind
        && not (is_in s.0 r)
        && ltb s.1 2
        && parent_in (map id_of s.0) r.item.follow_up_to in
      elim (Bool-cases fits) [
        | inl t ↦
            let c = count_of-snoc kind s.0 r in
            let apart : of_kind kind r ≡ false =
              (let a = primary-rank kind p in
                let b = follow_up-rank r.item.kind (ground (arith, t)) in ground (arith, a, b)) in
            add_follow_ups-other p rows (if fits then (s.0 ++ (r ∷ []), s.1 + 1) else s)
            ∙ subst
                (λ (b : Bool).
                  count_of kind (if b then (s.0 ++ (r ∷ []), s.1 + 1) else s).0 ≡ count_of kind s.0)
                (sym t) (ground (arith, c, apart))
        | inr f ↦
            add_follow_ups-other p rows (if fits then (s.0 ++ (r ∷ []), s.1 + 1) else s)
            ∙ subst
                (λ (b : Bool).
                  count_of kind (if b then (s.0 ++ (r ∷ []), s.1 + 1) else s).0 ≡ count_of kind s.0)
                (sym f) refl
      ]

-- At most two follow-ups are there, and they are counted.
Counted : List Candidate × ℕ → Type 0
Counted s = (count_of follow_up s.0 ≤ s.1) × (s.1 ≤ 2)

add_follow_ups-Counted :
    (rows : List Candidate) (s : List Candidate × ℕ) → Counted s → Counted (add_follow_ups rows s)
unfolding add_follow_ups Counted
add_follow_ups-Counted [] s h = h
add_follow_ups-Counted (r ∷ rows) s h = add_follow_ups-Counted rows _ (
    if-split Counted
      (is_follow_up r.item.kind
        && not (is_in s.0 r)
        && ltb s.1 2
        && parent_in (map id_of s.0) r.item.follow_up_to)
      _ s
      (λ t.
        let c = count_of-snoc follow_up s.0 r in
        let (a, b) = h in (ground (arith, c, a), ground (arith, t)))
      (λ f. h))

Counted-first :
    (s : List Candidate × ℕ) (rows : List Candidate)
    → count_of follow_up rows ≤ count_of follow_up s.0
    → Counted s
    → Counted (rows, s.1)
unfolding Counted
Counted-first s rows h (a, b) = (omega (arith, h, a), b)

one_round-Counted :
    (candidates : List Candidate) (second_round : Bool) (s : List Candidate × ℕ)
    → Counted s
    → Counted (one_round candidates second_round s)
unfolding total_allowed allowed
one_round-Counted candidates second_round s h =
    let kinds = add_kinds-count candidates follow_up second_round s.0 primary_kinds in
    add_follow_ups-Counted candidates _ (Counted-first s _ (ground (arith, kinds)) h)

one_round-other :
    (candidates : List Candidate) (kind : Kind) (second_round : Bool) (s : List Candidate × ℕ)
    → is_follow_up kind ≡ false
    → count_of kind (one_round candidates second_round s).0
      ≤ count_of kind s.0 + total_allowed second_round kind primary_kinds
one_round-other candidates kind second_round s p =
    let kinds = add_kinds-count candidates kind second_round s.0 primary_kinds in
    let same =
      add_follow_ups-other candidates kind p candidates
        (add_kinds candidates second_round s.0 primary_kinds, s.1) in
    omega (arith, kinds, same)

within-quota :
    (kind : Kind)
    → is_follow_up kind ≡ false
    → total_allowed false kind primary_kinds + total_allowed true kind primary_kinds ≤ quota kind
unfolding total_allowed allowed
within-quota character h = omega arith
within-quota relationship h = omega arith
within-quota event h = omega arith
within-quota motive h = omega arith
within-quota summary h = omega arith
within-quota follow_up h = cc

-- The questions that are prepared hold at most one summary, and at most two questions of any other kind,
-- whatever the candidates and the limit are.
pub diverse_order-quota :
    (candidates : List Candidate) (limit : ℕ) (kind : Kind)
    → count_of kind (diverse_order candidates limit) ≤ quota kind
unfolding diverse_order Counted
diverse_order-quota candidates limit kind =
    let first = one_round candidates false ([], 0) in
    let cut = count_of-first_rows kind limit (one_round candidates true first).0 in
    elim (Bool-cases (is_follow_up kind)) [
      | inl t ↦
          let (a, b) =
            one_round-Counted candidates true first
              (one_round-Counted candidates false ([], 0) (omega arith, omega arith)) in
          let cut2 = count_of-first_rows follow_up limit (one_round candidates true first).0 in
          subst (λ k. count_of k (diverse_order candidates limit) ≤ quota k)
            (sym (only_follow_up kind t)) (omega (arith, a, b, cut2))
      | inr p ↦
          let a = one_round-other candidates kind false ([], 0) p in
          let b = one_round-other candidates kind true first p in
          let q = within-quota kind p in omega (arith, cut, a, b, q)
    ]
