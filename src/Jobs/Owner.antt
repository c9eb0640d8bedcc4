-- ===== src/Jobs/Owner.antt =====
-- What an owner's requests do to a job in backend/app/hosted/tenant/repository.py: a new job, a
-- cancellation, and a provider configuration that comes or goes.
use reading_companion.Prelude.{ℕ, Bool, true, false, ◌&&◌, Option, none, some, [], if◌then◌else◌}
use reading_companion.Jobs.Rows.{
  Job, JobState, active, waits, is_unset, is_pending, pending, waiting_configuration, cancelled,
}

-- `COALESCE(cancellation_requested_at,now())`
abbrev pub first_request : ℕ → Option ℕ → Option ℕ
first_request now none = some now
first_request now (some t) = some t

-- `cancel_job`, and the same for each job of a deleted book
unfoldable pub cancel_job : ℕ → Job → Job
cancel_job now j =
    if waits j.state
    then record j {
      state = cancelled;
      cancellation_requested_at = first_request now j.cancellation_requested_at;
      completed_at = some now;
      updated_at = now;
    }
    else if active j.state
    then record j {
      cancellation_requested_at = first_request now j.cancellation_requested_at;
      updated_at = now;
    }
    else j

-- the credential of pending jobs is gone
unfoldable pub unconfigure : ℕ → Job → Job
unconfigure now j =
    if is_pending j.state
    then record j { state = waiting_configuration; credential_id = none; updated_at = now }
    else j

abbrev pub is_waiting : JobState → Bool
is_waiting waiting_configuration = true
is_waiting _ = false

-- a validated credential is there
unfoldable pub configure : ℕ → (credential : ℕ) → Job → Job
configure now credential j =
    if is_waiting j.state && is_unset j.cancellation_requested_at
    then record j {
      state = pending;
      credential_id = some credential;
      run_after = now;
      updated_at = now;
    }
    else j

-- `initial_job_state`
abbrev pub initial_job_state : Option ℕ → JobState
initial_job_state none = waiting_configuration
initial_job_state (some c) = pending

-- the INSERT of an import, with the defaults of the table that it relies on as arguments
unfoldable pub new_job :
    (now owner id book incarnation : ℕ) → (priority max_attempts : ℕ) → Option ℕ → Job
new_job now owner id book incarnation priority max_attempts credential = record {
  owner_id = owner;
  job_id = id;
  book_id = book;
  book_incarnation = incarnation;
  credential_id = credential;
  kind = "ingest_book";
  state = initial_job_state credential;
  priority = priority;
  run_after = now;
  created_at = now;
  attempt_count = 0;
  max_attempts = max_attempts;
  cancellation_requested_at = none;
  completed_at = none;
  updated_at = now;
  sanitized_error = none;
  attempts = [];
}
