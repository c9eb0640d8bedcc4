-- ===== src/Jobs/Candidates.antt =====
-- The candidates of one round of `claim_next` in backend/app/hosted/jobs.py.
use reading_companion.Prelude.{
  ℕ, ◌≤◌, ◌<◌, ◌≡◌, refl, ap, sym, ◌∙◌, Bool, true, false, not, ◌&&◌, none, some, List, [], ◌∷◌,
  any, keep, length, sort_by, any-sort_by, arith, inl, inr, Bool-cases, ◌==◌,
}
use reading_companion.Jobs.Rows.{Job}
use reading_companion.Jobs.Claim.{Others, candidate, first_row, claimable, blocks, sooner}

-- the candidates, but for their order
abbrev pub open_to : Others → ℕ → List ℕ → Job → Bool
open_to others now blocked j = claimable others now j && not (any (blocks j.owner_id) blocked)

any-first_row :
    (f : Job → Bool) (rows : List Job) (j : Job)
    → first_row rows ≡ some j
    → f j ≡ true
    → any f rows ≡ true
any-first_row f [] j h e = cc
any-first_row f (k ∷ rows) j h e = ground arith

no-first_row : (rows : List Job) → first_row rows ≡ none → rows ≡ []
no-first_row [] h = refl
no-first_row (k ∷ rows) h = cc

any-keep : (p f : Job → Bool) (rows : List Job) → any f (keep p rows) ≡ any (λ k. p k && f k) rows
any-keep p f [] = refl
any-keep p f (k ∷ rows) = ground (arith, any-keep p f rows)

pub any-weaker :
    (p q : Job → Bool) (rows : List Job) → any p rows ≡ false → any (λ k. p k && q k) rows ≡ false
any-weaker p q [] h = refl
any-weaker p q (k ∷ rows) h = ground (arith, any-weaker p q rows)

pub any-same :
    (f g : Job → Bool) → ((k : Job) → f k ≡ g k) → (rows : List Job) → any f rows ≡ any g rows
any-same f g same [] = refl
any-same f g same (k ∷ rows) = ground (arith, same k, any-same f g same rows)

length-keep-weaker :
    (p q r : Job → Bool)
    → ((k : Job) → r k ≡ (p k && not (q k)))
    → (rows : List Job) → length (keep r rows) ≤ length (keep p rows)
length-keep-weaker p q r same [] = omega arith
length-keep-weaker p q r same (k ∷ rows) =
    ground (arith, same k, length-keep-weaker p q r same rows)

-- One row that passes the weaker test but not the stronger one.
length-keep-strict :
    (p q r : Job → Bool)
    → ((k : Job) → r k ≡ (p k && not (q k)))
    → (rows : List Job) → any (λ k. p k && q k) rows ≡ true
    → length (keep r rows) < length (keep p rows)
length-keep-strict p q r same [] h = cc
length-keep-strict p q r same (k ∷ rows) h =
    ground (arith, same k, length-keep-weaker p q r same rows, length-keep-strict p q r same rows)

any-contrary : (p : Job → Bool) (rows : List Job) → any (λ k. p k && not (p k)) rows ≡ false
any-contrary p [] = refl
any-contrary p (k ∷ rows) = ground (arith, any-contrary p rows)

eq_refl : (n : ℕ) → (n == n) ≡ true
eq_refl n = ground arith

module _ (others : Others) (now : ℕ) (jobs : List Job) where
  -- A candidate stands among the rows, and passes every test on them that holds of it.
  candidate-any :
      (blocked : List ℕ) (f : Job → Bool) (j : Job)
      → candidate others now blocked jobs ≡ some j
      → f j ≡ true
      → any (λ k. open_to others now blocked k && f k) jobs ≡ true
  unfolding candidate
  candidate-any blocked f j h e =
      let p = open_to others now blocked in
      sym (any-keep p f jobs)
      ∙ sym (any-sort_by sooner f (keep p jobs))
      ∙ any-first_row f (sort_by sooner (keep p jobs)) j h e

  pub candidate-open :
      (blocked : List ℕ) (j : Job)
      → candidate others now blocked jobs ≡ some j
      → open_to others now blocked j ≡ true
  candidate-open blocked j h = elim (Bool-cases (open_to others now blocked j)) [
    | inl t ↦ t
    | inr f ↦
        let both = candidate-any blocked (λ k. not (open_to others now blocked k)) j h (ap not f) in
        ground (arith, both, any-contrary (open_to others now blocked) jobs)
  ]

  -- Each round takes the candidate's owner out, with all its jobs.
  pub fewer-open :
      (blocked : List ℕ) (j : Job)
      → candidate others now blocked jobs ≡ some j
      → length (keep (open_to others now (j.owner_id ∷ blocked)) jobs)
        < length (keep (open_to others now blocked) jobs)
  fewer-open blocked j h =
      length-keep-strict (open_to others now blocked) (λ k. j.owner_id == k.owner_id)
        (open_to others now (j.owner_id ∷ blocked)) (λ k. ground arith) jobs
        (candidate-any blocked (λ k. j.owner_id == k.owner_id) j h (eq_refl j.owner_id))

  -- No row is left for the candidate.
  pub candidate-none :
      (blocked : List ℕ)
      → candidate others now blocked jobs ≡ none
      → any (open_to others now blocked) jobs ≡ false
  unfolding candidate
  candidate-none blocked h =
      let p = open_to others now blocked in
      let empty = no-first_row (sort_by sooner (keep p jobs)) h in
      sym (any-keep p p jobs ∙ any-same (λ k. p k && p k) p (λ k. ground arith) jobs)
      ∙ sym (any-sort_by sooner p (keep p jobs))
      ∙ ap (any p) empty
