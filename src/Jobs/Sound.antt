-- ===== src/Jobs/Sound.antt =====
-- The leases of a job in backend/app/hosted/jobs.py: which of its attempts are open, and that every
-- step of a worker or of the recovery keeps them in line with the state of the job.
use reading_companion.Prelude.{
  ℕ, ◌≤◌, ◌≡◌, refl, ap, sym, ◌∙◌, Bool, true, false, not, List, [], ◌∷◌, ◌++◌, ◌==◌, any, find,
  keep, if◌then◌else◌, ok, arith, require-ok,
}
use reading_companion.Jobs.Rows.{Job, JobState, Attempt, ClaimedJob, active, is_unset, lost_lease}
use reading_companion.Jobs.Lease.{on_attempt, holds, lease_live, locked_lease}
use reading_companion.Jobs.Claim.{expire}

-- the numbers of the attempts that are not finished
abbrev pub open_nos : List Attempt → List ℕ
open_nos [] = []
open_nos (a ∷ rows) = if is_unset a.finished_at then a.attempt_no ∷ open_nos rows else open_nos rows

abbrev pub expected_open : JobState → ℕ → List ℕ
expected_open s n = if active s then n ∷ [] else []

abbrev pub is_terminal : JobState → Bool
is_terminal JobState.succeeded = true
is_terminal JobState.failed = true
is_terminal JobState.cancelled = true
is_terminal _ = false

-- A job under a lease has exactly one open attempt, its last one; a job without has none. The attempts
-- never outnumber the limit, and a job is completed exactly in its final states.
pub record IsSound (j : Job) : Type 0 where
  pub leases : open_nos j.attempts ≡ expected_open j.state j.attempt_count
  pub bounded : j.attempt_count ≤ j.max_attempts
  pub ended : is_unset j.completed_at ≡ not (is_terminal j.state)

-- An UPDATE of one attempt that leaves its number and whether it is finished.
pub open_nos-touch :
    (n : ℕ) (set : Attempt → Attempt)
    → ((a : Attempt) → (set a).attempt_no ≡ a.attempt_no)
    → ((a : Attempt) → is_unset (set a).finished_at ≡ is_unset a.finished_at)
    → (rows : List Attempt) → open_nos (on_attempt n set rows) ≡ open_nos rows
open_nos-touch n set numbered fin [] = refl
open_nos-touch n set numbered fin (a ∷ rows) =
    ground (arith, numbered a, fin a, open_nos-touch n set numbered fin rows)

-- An UPDATE of one attempt that finishes it.
pub open_nos-finish :
    (n : ℕ) (set : Attempt → Attempt)
    → ((a : Attempt) → is_unset (set a).finished_at ≡ false)
    → (rows : List Attempt)
    → open_nos (on_attempt n set rows) ≡ keep (λ m. not (m == n)) (open_nos rows)
open_nos-finish n set fin [] = refl
open_nos-finish n set fin (a ∷ rows) = ground (arith, fin a, open_nos-finish n set fin rows)

pub open_nos-expire :
    (now n : ℕ) (rows : List Attempt)
    → open_nos (expire now n rows) ≡ keep (λ m. not (m == n)) (open_nos rows)
open_nos-expire now n [] = refl
open_nos-expire now n (a ∷ rows) = ground (arith, open_nos-expire now n rows)

pub open_nos-append :
    (rows : List Attempt) (a : Attempt)
    → is_unset a.finished_at ≡ true
    → open_nos (rows ++ (a ∷ [])) ≡ open_nos rows ++ (a.attempt_no ∷ [])
open_nos-append [] a h = ground arith
open_nos-append (b ∷ rows) a h = ground (arith, open_nos-append rows a h)

-- An attempt that answers to a claim is open.
open_nos-held :
    (digest : ℕ → ℕ) (now : ℕ) (claim : ClaimedJob) (rows : List Attempt)
    → lease_live now (find (holds digest now claim) rows) ≡ true
    → any (λ m. m == claim.attempt_no) (open_nos rows) ≡ true
open_nos-held digest now claim [] h = cc
open_nos-held digest now claim (a ∷ rows) h = ground (arith, open_nos-held digest now claim rows)

-- The holder of the lease is the last attempt of a job under a lease.
pub locked_lease-current :
    (digest : ℕ → ℕ) (now : ℕ) (claim : ClaimedJob) (j : Job)
    → IsSound j
    → locked_lease digest now claim j ≡ ok tt
    → (active j.state ≡ true) × (j.attempt_count ≡ claim.attempt_no)
unfolding locked_lease
locked_lease-current digest now claim j s h =
    let live =
      require-ok (lease_live now (find (holds digest now claim) j.attempts)) lost_lease h in
    let mine = open_nos-held digest now claim j.attempts live in
    let one = ap (any (λ m. m == claim.attempt_no)) (sym s.leases) ∙ mine in ground (arith, one)
