-- ===== src/Jobs/Tests.antt =====
-- One job that is claimed, started and completed, and a queue whose first owner has no free place.
use reading_companion.Prelude.{
  ℕ, ◌≡◌, refl, true, false, none, some, List, [], ◌∷◌, ok, err, arith, any, ◌&&◌, ◌==◌, ◌<◌,
}
use reading_companion.Jobs.Rows.{
  Job, ClaimedJob, pending, running, succeeded, outcome_succeeded, SanitizedFailure, lost_lease,
  provider_unavailable, leased, outcome_expired,
}
use reading_companion.Jobs.Lease.{start, heartbeat, succeed, fail, locked_lease}
use reading_companion.Jobs.Claim.{
  Others, OwnerLimits, claim_job, claim_of, claimable, verdict, choose_job, unfinished, choose,
  candidate, limits_of, nothing_to_do, chosen, active_of,
}
use reading_companion.Jobs.Owner.{new_job, cancel_job}
use reading_companion.Jobs.Sound.{IsSound}
use reading_companion.Jobs.History.{
  Turn, History, Moves, history_refines, final_state_kept, new_job-IsSound,
}
use reading_companion.Jobs.Fair.{is_free, choose_job_terminates, no_place_left, chosen_job_fits}
use reading_companion.Jobs.Worker.{Ending}
use reading_companion.Jobs.SpendTests.{request, chapter, no_costs, library}
use reading_companion.Jobs.Spend.{reserve_spend}
use reading_companion.Jobs.Commit.{commit_chapter}
use reading_companion.Jobs.Stale.{stale_worker_refused}

abbrev digest : ℕ → ℕ
digest token = token

abbrev others : Others
others = record { row_locked = λ j. false; owner_locked = λ o. false }

abbrev queued : Job
queued = new_job 10 1 7 3 4 0 2 (some 9)

abbrev claimed : Job
claimed = claim_job digest 20 100 55 "worker-1" queued

abbrev claim : ClaimedJob
claim = claim_of 55 "worker-1" queued

abbrev at_work : Job
at_work = record claimed {
  state = running;
  updated_at = 30;
  attempts =
      record {
        attempt_no = 1;
        worker_id = "worker-1";
        lease_token_digest = 55;
        leased_at = 20;
        lease_expires_at = 120;
        heartbeat_at = 30;
        started_at = some 30;
        finished_at = none;
        outcome = none;
        sanitized_error = none;
      }
      ∷ [];
}

abbrev done : Job
done = record at_work {
  state = succeeded;
  completed_at = some 40;
  updated_at = 40;
  sanitized_error = none;
  attempts =
      record {
        attempt_no = 1;
        worker_id = "worker-1";
        lease_token_digest = 55;
        leased_at = 20;
        lease_expires_at = 120;
        heartbeat_at = 30;
        started_at = some 30;
        finished_at = some 40;
        outcome = some outcome_succeeded;
        sanitized_error = none;
      }
      ∷ [];
}

start_run : start digest 30 claim claimed ≡ ok (true, at_work)
unfolding start locked_lease new_job claim_job
start_run = refl

succeed_run : succeed digest 40 claim at_work ≡ ok (true, done)
unfolding succeed locked_lease new_job claim_job
succeed_run = refl

claimed-Turn : Turn digest queued claimed
unfolding new_job claim_job
claimed-Turn = Turn.turn_claim others 20 100 55 "worker-1" refl

life : History digest queued done
unfolding new_job
life =
    History.then_turn
      (History.then_turn (History.then_turn History.begins claimed-Turn)
        (Turn.turn_start 30 claim true start_run))
      (Turn.turn_succeed 40 claim true succeed_run)

history_refines_example : Moves pending succeeded × IsSound done
unfolding new_job
history_refines_example = history_refines digest life (new_job-IsSound 10 1 7 3 4 0 2 (some 9))

later : History digest done (cancel_job 90 done)
later = History.then_turn History.begins (Turn.turn_cancel 90)

done-IsSound : IsSound done
unfolding new_job claim_job
done-IsSound = record { leases = refl; bounded = omega arith; ended = refl }

final_state_kept_example : (cancel_job 90 done).state ≡ succeeded
final_state_kept_example = final_state_kept digest later done-IsSound refl

-- a second worker holds the second attempt
abbrev second : Job
second = record at_work {
  attempt_count = 2;
  state = leased;
  attempts =
      record {
        attempt_no = 1;
        worker_id = "worker-1";
        lease_token_digest = 55;
        leased_at = 20;
        lease_expires_at = 120;
        heartbeat_at = 30;
        started_at = some 30;
        finished_at = some 200;
        outcome = some outcome_expired;
        sanitized_error = none;
      }
      ∷ record {
        attempt_no = 2;
        worker_id = "worker-2";
        lease_token_digest = 66;
        leased_at = 210;
        lease_expires_at = 310;
        heartbeat_at = 210;
        started_at = none;
        finished_at = none;
        outcome = none;
        sanitized_error = none;
      }
      ∷ [];
}

second-IsSound : IsSound second
unfolding new_job claim_job
second-IsSound = record { leases = refl; bounded = omega arith; ended = refl }

abbrev failure : SanitizedFailure
failure = record { code = provider_unavailable; retryable = true }

stale : (second.attempt_count == claim.attempt_no) ≡ false
unfolding new_job
stale = refl

stale_worker_refused_example :
    (start digest 220 claim second ≡ err lost_lease)
    × (heartbeat digest 220 100 claim second ≡ err lost_lease)
    × (succeed digest 220 claim second ≡ err lost_lease)
    × (fail digest 220 failure 0 claim second ≡ err lost_lease)
    × (reserve_spend digest 220 claim request 8 second no_costs ≡ err lost_lease)
    × (commit_chapter digest 220 claim chapter second library ≡ err lost_lease)
unfolding new_job
stale_worker_refused_example =
    stale_worker_refused digest 220 claim second second-IsSound stale 100 0 8 failure request
      chapter no_costs library refl refl (refl, refl) refl

-- the first owner runs one job and may run one, the second owner may run one
abbrev busy : Job
busy = record at_work { job_id = 2; priority = 5 }

abbrev blocked_job : Job
blocked_job = record queued { job_id = 3; priority = 5 }

abbrev queue : List Job
queue = busy ∷ blocked_job ∷ []

abbrev limits : List OwnerLimits
limits = record { owner_id = 1; max_provider_concurrency = 1; max_spend_usd = none } ∷ []

choose_job_terminates_example : ¬ (choose_job others 50 limits queue ≡ unfinished)
choose_job_terminates_example = choose_job_terminates others 50 queue limits

nothing_run : choose_job others 50 limits queue ≡ nothing_to_do
unfolding choose_job choose candidate verdict limits_of new_job claim_job
nothing_run = refl

no_place_left_example :
    any (λ k. claimable others 50 k && is_free (verdict others limits queue k)) queue ≡ false
no_place_left_example = no_place_left others 50 queue limits nothing_run

-- the handler returns at once
abbrev handler : ClaimedJob → Job → Ending × Job
handler c j = (Ending.returned, j)

-- with room for two jobs
abbrev more : List OwnerLimits
more = record { owner_id = 1; max_provider_concurrency = 2; max_spend_usd = none } ∷ []

chosen_run : choose_job others 50 more queue ≡ chosen blocked_job
unfolding choose_job choose candidate verdict limits_of new_job claim_job
chosen_run = refl

chosen_job_fits_example :
    (claimable others 50 blocked_job ≡ true)
    × (others.owner_locked blocked_job.owner_id ≡ false)
    × (l : OwnerLimits) × (limits_of blocked_job.owner_id more ≡ some l)
    × (active_of blocked_job.owner_id queue < l.max_provider_concurrency)
chosen_job_fits_example = chosen_job_fits others 50 queue more blocked_job chosen_run
