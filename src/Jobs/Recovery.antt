-- ===== src/Jobs/Recovery.antt =====
-- Recovery and claim of a job in backend/app/hosted/jobs.py as steps of the abstract machine.
use reading_companion.Prelude.{
  ℕ, ◌+◌, ◌<◌, ◌≡◌, refl, ap, sym, ◌∙◌, subst, String, true, false, not, ◌⊎◌, inl, inr, List, [],
  ◌∷◌, ◌++◌, leb, keep, if◌then◌else◌, arith, Bool-cases, if-either, if-true, if-false,
}
use reading_companion.Jobs.Rows.{
  waiting_configuration, Job, JobState, Attempt, active, is_unset, is_pending, pending, leased,
  running, succeeded, failed, cancelled,
}
use reading_companion.Jobs.Claim.{
  expired, recover_job, recover_row, recover_rows, claim_job, new_attempt,
}
use reading_companion.Jobs.Sound.{open_nos, IsSound, open_nos-append, open_nos-expire}
use reading_companion.Jobs.Steps.{Move, Keeps, active-open, closed-open}

-- Without open attempts none is expired.
expired-none : (now : ℕ) (rows : List Attempt) → open_nos rows ≡ [] → keep (expired now) rows ≡ []
expired-none now [] h = refl
expired-none now (a ∷ rows) h = ground (arith, expired-none now rows)

-- With one open attempt at most that one is expired.
expired-one :
    (now n : ℕ) (rows : List Attempt)
    → open_nos rows ≡ n ∷ []
    → (keep (expired now) rows ≡ [])
      ⊎ ((a : Attempt) × (keep (expired now) rows ≡ a ∷ []) × (a.attempt_no ≡ n))
expired-one now n [] h = cc
expired-one now n (a ∷ rows) h = elim (Bool-cases (is_unset a.finished_at)) [
  | inl t ↦ elim (Bool-cases (leb a.lease_expires_at now)) [
    | inl u ↦ inr (a, ground (arith, expired-none now rows), ground arith)
    | inr v ↦ inl (ground (arith, expired-none now rows))
  ]
  | inr f ↦ elim (expired-one now n rows (ground arith)) [
    | inl e ↦ inl (ground arith)
    | inr (b, e, m) ↦ inr (b, ground arith, m)
  ]
]

recover_row-Keeps :
    (now : ℕ) (a : Attempt) (j : Job)
    → IsSound j
    → active j.state ≡ true
    → a.attempt_no ≡ j.attempt_count
    → Keeps j (recover_row now j a j)
recover_row-Keeps now a j s act e =
    let closed =
      open_nos-expire now a.attempt_no j.attempts
      ∙ closed-open j.state j.attempt_count a.attempt_no j.attempts s.leases (sym e) in
    if-either (Keeps j) (not (is_unset j.cancellation_requested_at)) _ _
      (record {
        sound = record { leases = closed; bounded = s.bounded; ended = refl };
        move = Move.stop j.state act;
        same_limit = refl;
      })
      (if-either (Keeps j) (leb j.max_attempts j.attempt_count) _ _
        (record {
          sound = record { leases = closed; bounded = s.bounded; ended = refl };
          move = Move.give_up j.state act;
          same_limit = refl;
        })
        (record {
          sound = record {
            leases = closed;
            bounded = s.bounded;
            ended = s.ended ∙ ap not (active-open j.state act);
          };
          move = Move.give_back j.state act;
          same_limit = refl;
        }))

Keeps-refl : (j : Job) → IsSound j → Keeps j j
Keeps-refl j s = record { sound = s; move = Move.stay j.state; same_limit = refl }

pub recover_job-Keeps : (now : ℕ) (j : Job) → IsSound j → Keeps j (recover_job now j)
unfolding recover_job recover_rows
recover_job-Keeps now j s = elim (Bool-cases (active j.state)) [
  | inr f ↦ subst (Keeps j) (sym (if-false (active j.state) _ j f)) (Keeps-refl j s)
  | inl t ↦
      let one = s.leases ∙ if-true (active j.state) (j.attempt_count ∷ []) [] t in
      let pick : Keeps j (recover_rows now j (keep (expired now) j.attempts) j) =
        elim (expired-one now j.attempt_count j.attempts one) [
          | inl e ↦ subst (λ rows. Keeps j (recover_rows now j rows j)) (sym e) (Keeps-refl j s)
          | inr (a, e, m) ↦
              subst (λ rows. Keeps j (recover_rows now j rows j)) (sym e)
                (recover_row-Keeps now a j s t m)
        ] in
      subst (Keeps j) (sym (if-true (active j.state) _ j t)) pick
]

pending-move : (s : JobState) → is_pending s ≡ true → Move s leased
pending-move pending h = Move.lease
pending-move waiting_configuration h = cc
pending-move leased h = cc
pending-move running h = cc
pending-move succeeded h = cc
pending-move failed h = cc
pending-move cancelled h = cc

pending-inactive : (s : JobState) → is_pending s ≡ true → active s ≡ false
pending-inactive s h = ground arith

pub claim_job-Keeps :
    (digest : ℕ → ℕ) (now d token : ℕ) (worker : String) (j : Job)
    → IsSound j
    → is_pending j.state ≡ true
    → j.attempt_count < j.max_attempts
    → Keeps j (claim_job digest now d token worker j)
unfolding claim_job
claim_job-Keeps digest now d token worker j s p room = record {
  sound = record {
    leases =
        open_nos-append j.attempts (new_attempt digest now d token worker (j.attempt_count + 1))
          refl
        ∙ ap (λ ns. ns ++ ((j.attempt_count + 1) ∷ []))
            (s.leases
              ∙ ap (λ t. if t then j.attempt_count ∷ [] else []) (pending-inactive j.state p));
    bounded = omega arith;
    ended = s.ended ∙ ground arith;
  };
  move = pending-move j.state p;
  same_limit = refl;
}
