-- ===== src/Jobs/Stale.antt =====
-- A worker of backend/app/hosted/jobs.py whose attempt is not the last one of its job.
use reading_companion.Prelude.{
  ℕ, ◌≡◌, ap, ◌∙◌, true, false, ◌==◌, find, ok, err, require, arith, inl, inr, Bool-cases, denied,
  pass, leb_int, ◌&&◌,
}
use reading_companion.Jobs.Rows.{
  Job, ClaimedJob, SanitizedFailure, lost_lease, bad_phase, negative_reservation, job_idempotency,
}
use reading_companion.Jobs.Lease.{
  locked_lease, lease_live, holds, check_duration, start, heartbeat, succeed, fail,
}
use reading_companion.Jobs.Spend.{SpendRequest, Costs, known_phase, reserve_spend}
use reading_companion.Jobs.Library.{ChapterCommit, Library}
use reading_companion.Jobs.Commit.{commit_chapter}
use reading_companion.Jobs.Sound.{IsSound, locked_lease-current}

module _ (digest : ℕ → ℕ) (now : ℕ) (claim : ClaimedJob) (j : Job) (s : IsSound j)
    (stale : (j.attempt_count == claim.attempt_no) ≡ false) where
  locked_lease-stale : locked_lease digest now claim j ≡ err lost_lease
  unfolding locked_lease
  locked_lease-stale =
      elim (Bool-cases (lease_live now (find (holds digest now claim) j.attempts))) [
        | inl t ↦
            let (_, cur) =
              locked_lease-current digest now claim j s (ap (λ b. require b lost_lease) t) in
            ground (arith, cur, stale)
        | inr f ↦ ap (λ b. require b lost_lease) f
      ]

  -- A worker whose attempt is not the last one of a sound job changes nothing, whichever token it
  -- holds and at whatever instant it calls: with durations, a request and a chapter that pass the
  -- checks made before the lease is looked at, start, heartbeat, succeed, fail,
  -- `reserve_spend` and `commit_chapter` each raise the lost lease.
  pub stale_worker_refused :
      (lease_for retry_after id : ℕ) (failure : SanitizedFailure) (r : SpendRequest)
      (a : ChapterCommit) (c : Costs) (lib : Library)
      → check_duration false lease_for ≡ ok tt
      → check_duration true retry_after ≡ ok tt
      → (known_phase r.phase ≡ true)
        × ((leb_int 0 r.reserved_input_tokens
              && leb_int 0 r.reserved_output_tokens
              && leb_int 0 r.reserved_usd)
            ≡ true)
      → (claim.book_id == a.book_id && claim.book_incarnation == a.book_incarnation) ≡ true
      → (start digest now claim j ≡ err lost_lease)
        × (heartbeat digest now lease_for claim j ≡ err lost_lease)
        × (succeed digest now claim j ≡ err lost_lease)
        × (fail digest now failure retry_after claim j ≡ err lost_lease)
        × (reserve_spend digest now claim r id j c ≡ err lost_lease)
        × (commit_chapter digest now claim a j lib ≡ err lost_lease)
  unfolding start heartbeat succeed fail reserve_spend commit_chapter
  stale_worker_refused lease_for retry_after id failure r a c lib d1 d2 asked booked =
      let lost = locked_lease-stale in
      (
        denied _ _ lost_lease lost,
        pass (check_duration false lease_for) d1 ∙ denied _ _ lost_lease lost,
        denied _ _ lost_lease lost,
        pass (check_duration true retry_after) d2 ∙ denied _ _ lost_lease lost,
        pass (require (known_phase r.phase) bad_phase) (ap (λ b. require b bad_phase) asked.0)
            ∙ pass _ (ap (λ b. require b negative_reservation) asked.1)
            ∙ denied _ _ lost_lease lost,
        pass _ (ap (λ b. require b job_idempotency) booked) ∙ denied _ _ lost_lease lost,
      )
