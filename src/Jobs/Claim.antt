-- ===== src/Jobs/Claim.antt =====
-- How a worker gets a job in backend/app/hosted/jobs.py: expired leases are recovered, then the first
-- claimable job is taken whose owner has a free place. Rows that other transactions lock are
-- skipped, and their advisory locks are not acquired; which ones these are is up to `Others`.
use reading_companion.Prelude.{
  ℕ, ◌+◌, zero, suc, String, Bool, false, not, ◌&&◌, ◌||◌, Option, none, some, List, [], ◌∷◌, ◌++◌,
  map, ◌==◌, ltb, leb, any, find, keep, length, sort_by, if◌then◌else◌, Result, ok, err, ◌>>◌,
  require,
}
use reading_companion.Jobs.Rows.{
  Job, Attempt, ClaimedJob, JobError, active, is_unset, is_pending, pending, leased, failed,
  cancelled, outcome_expired, attempts_exhausted, worker_configuration, bad_worker_id,
}
use reading_companion.Jobs.Lease.{check_duration}

pub record OwnerLimits : Type 0 where
  pub owner_id : ℕ
  pub max_provider_concurrency : ℕ
  pub max_spend_usd : Option ℕ

-- what other transactions hold while this one runs
pub record Others : Type 0 where
  pub row_locked : Job → Bool
  pub owner_locked : ℕ → Bool

abbrev pub expired : ℕ → Attempt → Bool
expired now a = is_unset a.finished_at && leb a.lease_expires_at now

-- the UPDATE of one expired attempt
abbrev pub expire : ℕ → ℕ → List Attempt → List Attempt
expire now n rows =
    map
      (λ (a : Attempt).
        if a.attempt_no == n && is_unset a.finished_at
        then record a { finished_at = some now; outcome = some outcome_expired }
        else a)
      rows

-- the job of an expired attempt, by the row that was selected
abbrev pub after_expiry : ℕ → Job → Job → Job
after_expiry now row j =
    if not (is_unset row.cancellation_requested_at)
    then record j { state = cancelled; completed_at = some now; updated_at = now }
    else if leb row.max_attempts row.attempt_count
    then record j {
      state = failed;
      completed_at = some now;
      updated_at = now;
      sanitized_error = some (record { code = attempts_exhausted; retryable = false });
    }
    else record j { state = pending; run_after = now; updated_at = now }

abbrev pub recover_row : ℕ → Job → Attempt → Job → Job
recover_row now row a j =
    after_expiry now row (record j { attempts = expire now a.attempt_no j.attempts })

unfoldable pub recover_rows : ℕ → Job → List Attempt → Job → Job
recover_rows now row [] j = j
recover_rows now row (a ∷ rows) j = recover_rows now row rows (recover_row now row a j)

-- `_recover_expired` on one job
unfoldable pub recover_job : ℕ → Job → Job
unfolding recover_rows
recover_job now j =
    if active j.state then recover_rows now j (keep (expired now) j.attempts) j else j

unfoldable pub recover_expired : Others → ℕ → List Job → List Job
recover_expired others now jobs =
    map (λ j. if others.row_locked j then j else recover_job now j) jobs

-- the WHERE of the candidate, but for the owners that are blocked
abbrev pub claimable : Others → ℕ → Job → Bool
claimable others now j =
    is_pending j.state
    && leb j.run_after now
    && is_unset j.cancellation_requested_at
    && ltb j.attempt_count j.max_attempts
    && not (others.row_locked j)

abbrev pub blocks : ℕ → ℕ → Bool
blocks owner blocked = blocked == owner

-- `ORDER BY priority DESC, run_after, created_at, id`
abbrev pub sooner : Job → Job → Bool
sooner x y =
    ltb y.priority x.priority
    || (x.priority == y.priority
        && (ltb x.run_after y.run_after
            || (x.run_after == y.run_after
                && (ltb x.created_at y.created_at
                    || (x.created_at == y.created_at && leb x.job_id y.job_id)))))

abbrev pub first_row : List Job → Option Job
first_row [] = none
first_row (j ∷ jobs) = some j

-- the candidate, with the owners that this transaction has found blocked
unfoldable pub candidate : Others → ℕ → List ℕ → List Job → Option Job
candidate others now blocked jobs = first_row (
    sort_by sooner
      (keep (λ j. claimable others now j && not (any (blocks j.owner_id) blocked)) jobs))

abbrev pub active_of : ℕ → List Job → ℕ
active_of owner jobs = length (keep (λ (j : Job). j.owner_id == owner && active j.state) jobs)

unfoldable pub limits_of : ℕ → List OwnerLimits → Option OwnerLimits
limits_of owner limits = find (λ (l : OwnerLimits). l.owner_id == owner) limits

-- how the loop ends; `unfinished` is a loop that has run out of rounds, which `choose_job` does not
pub data Choice : Type 0 where
  chosen : Job → Choice
  nothing_to_do : Choice
  limits_missing : Choice
  unfinished : Choice

-- one owner that has a candidate: taken, or blocked
pub data Verdict : Type 0 where
  free blocked_owner no_limits : Verdict

abbrev pub place_for : ℕ → Option OwnerLimits → List Job → Verdict
place_for owner none jobs = no_limits
place_for owner (some l) jobs =
    if ltb (active_of owner jobs) l.max_provider_concurrency then free else blocked_owner

unfoldable pub verdict : Others → List OwnerLimits → List Job → Job → Verdict
verdict others limits jobs j =
    if others.owner_locked j.owner_id
    then blocked_owner
    else place_for j.owner_id (limits_of j.owner_id limits) jobs

abbrev pub settle : Job → Choice → Verdict → Choice
settle j later free = chosen j
settle j later blocked_owner = later
settle j later no_limits = limits_missing

-- what follows on the candidate of one round; `later` is the next round, without that owner
abbrev pub take_candidate :
    Others → List OwnerLimits → List Job → (later : ℕ → Choice) → Option Job → Choice
take_candidate others limits jobs later none = nothing_to_do
take_candidate others limits jobs later (some j) =
    settle j (later j.owner_id) (verdict others limits jobs j)

-- the `while True` of `claim_next`, on rounds
unfoldable pub choose :
    Others → ℕ → List OwnerLimits → List Job → (rounds : ℕ) → (blocked : List ℕ) → Choice
choose others now limits jobs zero blocked = unfinished
choose others now limits jobs (suc rounds) blocked =
    take_candidate others limits jobs
      (λ owner. choose others now limits jobs rounds (owner ∷ blocked))
      (candidate others now blocked jobs)

-- one round more than there are jobs
unfoldable pub choose_job : Others → ℕ → List OwnerLimits → List Job → Choice
choose_job others now limits jobs = choose others now limits jobs (suc (length jobs)) []

abbrev pub new_attempt : (digest : ℕ → ℕ) → (now lease_for token : ℕ) → String → ℕ → Attempt
new_attempt digest now lease_for token worker n = record {
  attempt_no = n;
  worker_id = worker;
  lease_token_digest = digest token;
  leased_at = now;
  lease_expires_at = now + lease_for;
  heartbeat_at = now;
  started_at = none;
  finished_at = none;
  outcome = none;
  sanitized_error = none;
}

-- the two writes of a claim
unfoldable pub claim_job : (digest : ℕ → ℕ) → (now lease_for token : ℕ) → String → Job → Job
claim_job digest now lease_for token worker j = record j {
  state = leased;
  attempt_count = j.attempt_count + 1;
  updated_at = now;
  attempts =
      j.attempts ++ (new_attempt digest now lease_for token worker (j.attempt_count + 1) ∷ []);
}

abbrev pub same_job : ℕ → ℕ → Job → Bool
same_job owner id j = j.owner_id == owner && j.job_id == id

abbrev pub claim_of : ℕ → String → Job → ClaimedJob
claim_of token worker j = record {
  owner_id = j.owner_id;
  job_id = j.job_id;
  book_id = j.book_id;
  book_incarnation = j.book_incarnation;
  kind = j.kind;
  attempt_no = j.attempt_count + 1;
  worker_id = worker;
  lease_token = token;
  credential_id = j.credential_id;
}

-- `UPDATE public.jobs … WHERE owner_id=… AND id=…`
abbrev pub on_job : ℕ → ℕ → (Job → Job) → List Job → List Job
on_job owner id set jobs = map (λ j. if same_job owner id j then set j else j) jobs

module _ (valid_worker : String → Bool) (digest : ℕ → ℕ) where
  abbrev pub conclude :
      (now lease_for token : ℕ)
      → String
      → List Job
      → Choice
      → Result JobError (Option ClaimedJob × List Job)
  conclude now lease_for token worker jobs (chosen j) = ok (
    some (claim_of token worker j),
    on_job j.owner_id j.job_id (claim_job digest now lease_for token worker) jobs,
  )
  conclude now lease_for token worker jobs nothing_to_do = ok (none, jobs)
  conclude now lease_for token worker jobs _ = err worker_configuration

  -- `claim_next`; the token is fresh
  unfoldable pub claim_next :
      Others
      → List OwnerLimits
      → (now lease_for token : ℕ) → String
      → List Job
      → Result JobError (Option ClaimedJob × List Job)
  claim_next others limits now lease_for token worker jobs = do
    require (valid_worker worker) bad_worker_id
    check_duration false lease_for
    let recovered = recover_expired others now jobs
    conclude now lease_for token worker recovered (choose_job others now limits recovered)
