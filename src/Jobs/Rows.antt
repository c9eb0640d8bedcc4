-- ===== src/Jobs/Rows.antt =====
-- The rows of the hosted job queue of backend/app/hosted/jobs.py. A uuid, an instant and a duration
-- are numbers, the last two in microseconds; the rows of `job_attempts` stand with their job, which
-- their foreign key names.
use reading_companion.Prelude.{ℕ, String, Bool, true, false, Option, none, some, List}

pub data JobState : Type 0 where
  waiting_configuration pending leased running : JobState
  succeeded failed cancelled : JobState

pub data Outcome : Type 0 where
  outcome_succeeded outcome_failed outcome_expired outcome_cancelled : Outcome

-- `_FAILURE_CODES`
pub data FailureCode : Type 0 where
  attempts_exhausted budget_exceeded cancelled_code internal_error invalid_model_output :
      FailureCode
  provider_rejected provider_unavailable source_integrity source_missing : FailureCode

pub record SanitizedFailure : Type 0 where
  pub code : FailureCode
  pub retryable : Bool

pub record Attempt : Type 0 where
  pub attempt_no : ℕ
  pub worker_id : String
  pub lease_token_digest : ℕ
  pub leased_at : ℕ
  pub lease_expires_at : ℕ
  pub heartbeat_at : ℕ
  pub started_at : Option ℕ
  pub finished_at : Option ℕ
  pub outcome : Option Outcome
  pub sanitized_error : Option SanitizedFailure

pub record Job : Type 0 where
  pub owner_id : ℕ
  pub job_id : ℕ
  pub book_id : ℕ
  pub book_incarnation : ℕ
  pub credential_id : Option ℕ
  pub kind : String
  pub state : JobState
  pub priority : ℕ
  pub run_after : ℕ
  pub created_at : ℕ
  pub attempt_count : ℕ
  pub max_attempts : ℕ
  pub cancellation_requested_at : Option ℕ
  pub completed_at : Option ℕ
  pub updated_at : ℕ
  pub sanitized_error : Option SanitizedFailure
  pub attempts : List Attempt

pub record ClaimedJob : Type 0 where
  pub owner_id : ℕ
  pub job_id : ℕ
  pub book_id : ℕ
  pub book_incarnation : ℕ
  pub kind : String
  pub attempt_no : ℕ
  pub worker_id : String
  pub lease_token : ℕ
  pub credential_id : Option ℕ

pub data JobError : Type 0 where
  lost_lease job_idempotency worker_configuration : JobError
  duration_out_of_bounds bad_worker_id bad_phase negative_reservation : JobError
  spend_limit_exceeded spend_reservation_required constraint_violated : JobError

-- the states under a lease
abbrev pub active : JobState → Bool
active leased = true
active running = true
active _ = false

abbrev pub is_unset : Option ℕ → Bool
is_unset none = true
is_unset (some t) = false

abbrev pub is_pending : JobState → Bool
is_pending pending = true
is_pending _ = false

-- the states before a lease
abbrev pub waits : JobState → Bool
waits waiting_configuration = true
waits pending = true
waits _ = false

-- 24 hours
abbrev pub longest : ℕ
longest = 86400000000
