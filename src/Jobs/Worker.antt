-- ===== src/Jobs/Worker.antt =====
-- One round of the durable worker of backend/app/hosted/worker.py on the job that it has claimed. What
-- the handler does to the job, and how it ends, is a parameter; the instants of the calls are arguments.
use reading_companion.Prelude.{
  ℕ, ◌≡◌, Bool, true, false, not, ◌&&◌, ltb, Result, ok, err, Option, if◌then◌else◌, some, none,
}
use reading_companion.Jobs.Rows.{
  Job, ClaimedJob, JobError, SanitizedFailure, is_unset, lost_lease, failed, provider_rejected,
  budget_exceeded, internal_error, JobState, cancelled, succeeded, pending, failed,
}
use reading_companion.Jobs.Lease.{start, succeed, fail}

-- how the handler ends: it returns, or raises; `raised_base` is a BaseException that is no Exception
pub data Ending : Type 0 where
  returned raised_lost_lease raised_credential_unavailable raised_limit_exceeded raised_other
        raised_base :
      Ending
  raised_handled : SanitizedFailure → Ending

-- what leaves a round: an error of the repository, or what the handler raised as a BaseException
pub data Escape : Type 0 where
  job_error : JobError → Escape
  interrupted : Escape

-- what a round answers or raises, and the job that it leaves
abbrev pub Round : Type 0
Round = Result Escape Bool × Job

-- `except LostLeaseError: pass`, with what any other error leaves
abbrev pub absorb : {A : Type 0} → Job → Result JobError (A × Job) → Round
absorb j (ok (a, j')) = (ok true, j')
absorb j (err lost_lease) = (ok true, j)
absorb j (err e) = (err (job_error e), j)

module _ (digest : ℕ → ℕ) (now retry_after : ℕ) (claim : ClaimedJob) where
  abbrev pub give_up : SanitizedFailure → Job → Round
  give_up failure j = absorb j (fail digest now failure retry_after claim j)

  -- the clauses after the call of the handler
  unfoldable pub conclude_work : Ending → Job → Round
  conclude_work returned j = absorb j (succeed digest now claim j)
  conclude_work raised_lost_lease j = (ok true, j)
  conclude_work (raised_handled failure) j = give_up failure j
  conclude_work raised_credential_unavailable j =
      give_up (record { code = provider_rejected; retryable = false }) j
  conclude_work raised_limit_exceeded j =
      give_up (record { code = budget_exceeded; retryable = false }) j
  conclude_work raised_other j = give_up (record { code = internal_error; retryable = true }) j
  conclude_work raised_base j = (err interrupted, j)

module _ (digest : ℕ → ℕ) (handler : ClaimedJob → Job → Ending × Job) where
  abbrev pub handle :
      (now retry_after : ℕ) → ClaimedJob → Job → Result JobError (Bool × Job) → Round
  handle now retry_after claim j (ok (true, j')) =
      conclude_work digest now retry_after claim (handler claim j').0 (handler claim j').1
  handle now retry_after claim j (ok (false, j')) = (ok true, j')
  handle now retry_after claim j (err lost_lease) = (ok true, j)
  handle now retry_after claim j (err e) = (err (job_error e), j)

  -- `run_once` after `claim_next`
  unfoldable pub run_claimed : (started_at now retry_after : ℕ) → ClaimedJob → Job → Round
  run_claimed started_at now retry_after claim j =
      handle now retry_after claim j (start digest started_at claim j)

-- the failure that a job is charged with, if it has failed
abbrev pub failure_of : Ending → Option SanitizedFailure
failure_of (raised_handled failure) = some failure
failure_of raised_credential_unavailable =
    some (record { code = provider_rejected; retryable = false })
failure_of raised_limit_exceeded = some (record { code = budget_exceeded; retryable = false })
failure_of raised_other = some (record { code = internal_error; retryable = true })
failure_of _ = none

-- What becomes of a running job: a requested cancellation wins over success and failure, and a
-- failure is tried again if it may be and an attempt is left.
abbrev pub next_state : Option SanitizedFailure → Job → JobState
next_state failure j =
    if not (is_unset j.cancellation_requested_at) then cancelled else elim failure [
      | none ↦ succeeded
      | some f ↦ if f.retryable && ltb j.attempt_count j.max_attempts then pending else failed
    ]

-- The endings after which the worker reports to the repository.
abbrev pub reports : Ending → Bool
reports raised_lost_lease = false
reports raised_base = false
reports _ = true

abbrev pub round_answer : Ending → Result Escape Bool
round_answer raised_base = err interrupted
round_answer _ = ok true

-- How a round ended by `e` on the job `j` leaves it.
pub IsConcluded : Ending → Job → Round → Type 0
IsConcluded e j r =
    (r.0 ≡ round_answer e)
    × (r.1.state ≡ (if reports e then next_state (failure_of e) j else j.state))
