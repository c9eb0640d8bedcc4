-- ===== src/Jobs/Lease.antt =====
-- What a worker does with a claimed job in backend/app/hosted/jobs.py: start, heartbeat, succeed and
-- fail. Each runs in one transaction on the locked row of its job; `now()` is the transaction's.
use reading_companion.Prelude.{
  ℕ, ◌+◌, Bool, true, false, not, ◌&&◌, ◌||◌, Option, none, some, List, map, str_eq, ◌==◌, ltb, leb,
  find, if◌then◌else◌, Result, ok, ◌>>◌, require,
}
use reading_companion.Jobs.Rows.{
  Job, JobState, Attempt, Outcome, SanitizedFailure, ClaimedJob, JobError, active, is_unset,
  longest, pending, leased, running, succeeded, failed, cancelled, lost_lease,
  duration_out_of_bounds, outcome_succeeded, outcome_failed, outcome_cancelled,
}

-- `_seconds`
abbrev pub check_duration : (allow_zero : Bool) → ℕ → Result JobError (Unit {0})
check_duration allow_zero d =
    require ((allow_zero || ltb 0 d) && leb d longest) duration_out_of_bounds

-- `SET … WHERE attempt_no=… ` on the attempts of one job
abbrev pub on_attempt : ℕ → (Attempt → Attempt) → List Attempt → List Attempt
on_attempt n set rows = map (λ (a : Attempt). if a.attempt_no == n then set a else a) rows

abbrev pub finish : ℕ → Outcome → Option SanitizedFailure → Attempt → Attempt
finish now outcome failure a = record a {
  finished_at = some now;
  outcome = some outcome;
  sanitized_error = failure;
}

abbrev pub require_state : Bool → Result JobError (Unit {0})
require_state test = require test lost_lease

abbrev pub is_leased : JobState → Bool
is_leased leased = true
is_leased _ = false

abbrev pub is_running : JobState → Bool
is_running running = true
is_running _ = false

module _ (now : ℕ) where
  -- `_cancel_locked`
  abbrev pub cancel_locked : ClaimedJob → Job → Job
  cancel_locked claim j = record j {
    state = cancelled;
    completed_at = some now;
    updated_at = now;
    attempts =
        on_attempt claim.attempt_no
          (λ a.
            if is_unset a.finished_at
            then record a { finished_at = some now; outcome = some outcome_cancelled }
            else a)
          j.attempts;
  }

  abbrev pub started : ClaimedJob → Job → Job
  started claim j = record j {
    state = running;
    updated_at = now;
    attempts =
        on_attempt claim.attempt_no (λ a. record a { started_at = some now; heartbeat_at = now })
          j.attempts;
  }

  abbrev pub extended : ℕ → ClaimedJob → Job → Job
  extended lease_for claim j = record j {
    attempts =
        on_attempt claim.attempt_no
          (λ a. record a { heartbeat_at = now; lease_expires_at = now + lease_for }) j.attempts;
  }

  abbrev pub completed : ClaimedJob → Job → Job
  completed claim j = record j {
    state = succeeded;
    completed_at = some now;
    updated_at = now;
    sanitized_error = none;
    attempts =
        on_attempt claim.attempt_no
          (λ a. record a { finished_at = some now; outcome = some outcome_succeeded }) j.attempts;
  }

  -- the job after a failed attempt: cancelled, tried again later, or failed
  abbrev pub after_failure : SanitizedFailure → (retry_after : ℕ) → Job → Job
  after_failure failure retry_after j =
      if not (is_unset j.cancellation_requested_at)
      then record j { state = cancelled; completed_at = some now; updated_at = now }
      else if failure.retryable && ltb j.attempt_count j.max_attempts
      then record j {
        state = pending;
        run_after = now + retry_after;
        updated_at = now;
        sanitized_error = some failure;
      }
      else record j {
        state = failed;
        completed_at = some now;
        updated_at = now;
        sanitized_error = some failure;
      }

  abbrev pub attempt_failed : SanitizedFailure → ClaimedJob → Job → Job
  attempt_failed failure claim j = record j {
    attempts = on_attempt claim.attempt_no (finish now outcome_failed (some failure)) j.attempts;
  }

  abbrev pub lease_live : Option Attempt → Bool
  lease_live none = false
  lease_live (some a) = ltb now a.lease_expires_at

module _ (digest : ℕ → ℕ) (now : ℕ) where
  -- the unfinished attempt that a claim names
  abbrev pub holds : ClaimedJob → Attempt → Bool
  holds claim a =
      a.attempt_no == claim.attempt_no
      && str_eq a.worker_id claim.worker_id
      && a.lease_token_digest == digest claim.lease_token
      && is_unset a.finished_at

  -- `_locked_lease`
  unfoldable pub locked_lease : ClaimedJob → Job → Result JobError (Unit {0})
  locked_lease claim j = require (lease_live now (find (holds claim) j.attempts)) lost_lease

  abbrev pub start_locked : ClaimedJob → Job → Result JobError (Bool × Job)
  start_locked claim j =
      if is_unset j.cancellation_requested_at
      then (do require_state (is_leased j.state); ok (true, started now claim j))
      else ok (false, cancel_locked now claim j)

  unfoldable pub start : ClaimedJob → Job → Result JobError (Bool × Job)
  start claim j = do locked_lease claim j; start_locked claim j

  -- the answer is whether a cancellation is asked for
  unfoldable pub heartbeat : (lease_for : ℕ) → ClaimedJob → Job → Result JobError (Bool × Job)
  heartbeat lease_for claim j = do
    check_duration false lease_for
    locked_lease claim j
    require_state (active j.state)
    ok (not (is_unset j.cancellation_requested_at), extended now lease_for claim j)

  abbrev pub succeed_locked : ClaimedJob → Job → Result JobError (Bool × Job)
  succeed_locked claim j =
      if is_unset j.cancellation_requested_at
      then (do require_state (is_running j.state); ok (true, completed now claim j))
      else ok (false, cancel_locked now claim j)

  unfoldable pub succeed : ClaimedJob → Job → Result JobError (Bool × Job)
  succeed claim j = do locked_lease claim j; succeed_locked claim j

  unfoldable pub fail :
      SanitizedFailure → (retry_after : ℕ) → ClaimedJob → Job → Result JobError (Unit {0} × Job)
  fail failure retry_after claim j = do
    check_duration true retry_after
    locked_lease claim j
    ok (tt, after_failure now failure retry_after (attempt_failed now failure claim j))
