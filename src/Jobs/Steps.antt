-- ===== src/Jobs/Steps.antt =====
-- Every step of backend/app/hosted/jobs.py keeps a job sound and takes its state along a legal move.
use reading_companion.Prelude.{
  ℕ, ◌+◌, ◌≡◌, refl, ap, sym, ◌∙◌, subst, Bool, true, false, not, ◌&&◌, some, List, [], ◌∷◌, ◌==◌,
  ltb, keep, if◌then◌else◌, ok, after-check, after-require, passed-check, ok_injective, arith, inl,
  inr, Bool-cases, if-true, if-false, if-either,
}
use reading_companion.Jobs.Rows.{
  Job, JobState, Attempt, SanitizedFailure, ClaimedJob, active, is_unset, pending, leased, running,
  succeeded, failed, cancelled, outcome_failed, lost_lease, waiting_configuration, waits,
}
use reading_companion.Jobs.Lease.{
  on_attempt, locked_lease, start, heartbeat, succeed, fail, cancel_locked, started, extended,
  completed, after_failure, attempt_failed, is_leased, is_running, finish, check_duration,
  require_state,
}
use reading_companion.Jobs.Sound.{
  open_nos, expected_open, IsSound, open_nos-touch, open_nos-finish, locked_lease-current,
  is_terminal,
}

-- The legal moves of a job's state, as an abstract machine. No move leaves a final state.
pub data Move : JobState → JobState → Type 0 where
  stay : (s : JobState) → Move s s
  configure : Move waiting_configuration pending
  unconfigure : Move pending waiting_configuration
  lease : Move pending leased
  withdraw : (s : JobState) → waits s ≡ true → Move s cancelled
  begin : Move leased running
  complete : Move running succeeded
  give_back : (s : JobState) → active s ≡ true → Move s pending
  give_up : (s : JobState) → active s ≡ true → Move s failed
  stop : (s : JobState) → active s ≡ true → Move s cancelled

-- A step from one job to the next that the abstract machine allows, and that keeps the leases in order.
pub record Keeps (j j' : Job) : Type 0 where
  pub sound : IsSound j'
  pub move : Move j.state j'.state
  pub same_limit : j'.max_attempts ≡ j.max_attempts

-- The one open attempt of a job is closed.
pub closed-open :
    (s : JobState) (n m : ℕ) (rows : List Attempt)
    → open_nos rows ≡ expected_open s n
    → n ≡ m
    → keep (λ k. not (k == m)) (open_nos rows) ≡ []
closed-open s n m rows h e = ap (keep (λ k. not (k == m))) h ∙ ground arith

-- A step that finishes the open attempt, and moves the job out of its lease.
close-leases :
    (j : Job) (n : ℕ) (set : Attempt → Attempt)
    → IsSound j
    → j.attempt_count ≡ n
    → ((a : Attempt) → is_unset (set a).finished_at ≡ false)
    → open_nos (on_attempt n set j.attempts) ≡ []
close-leases j n set s cur fin =
    open_nos-finish n set fin j.attempts
    ∙ closed-open j.state j.attempt_count n j.attempts s.leases cur

-- A step that leaves every attempt as open as it was.
touch-leases :
    (j : Job) (n : ℕ) (set : Attempt → Attempt)
    → IsSound j
    → ((a : Attempt) → (set a).attempt_no ≡ a.attempt_no)
    → ((a : Attempt) → is_unset (set a).finished_at ≡ is_unset a.finished_at)
    → open_nos (on_attempt n set j.attempts) ≡ expected_open j.state j.attempt_count
touch-leases j n set s numbered fin = open_nos-touch n set numbered fin j.attempts ∙ s.leases

leased-move : (s : JobState) → is_leased s ≡ true → Move s running
leased-move leased h = begin
leased-move waiting_configuration h = cc
leased-move pending h = cc
leased-move running h = cc
leased-move succeeded h = cc
leased-move failed h = cc
leased-move cancelled h = cc

running-move : (s : JobState) → is_running s ≡ true → Move s succeeded
running-move running h = complete
running-move waiting_configuration h = cc
running-move pending h = cc
running-move leased h = cc
running-move succeeded h = cc
running-move failed h = cc
running-move cancelled h = cc

pub active-open : (s : JobState) → active s ≡ true → is_terminal s ≡ false
active-open s h = ground arith

module _ (now : ℕ) (claim : ClaimedJob) (j : Job) (s : IsSound j) (act : active j.state ≡ true)
    (cur : j.attempt_count ≡ claim.attempt_no) where
  cancel_locked-Keeps : Keeps j (cancel_locked now claim j)
  cancel_locked-Keeps = record {
    sound = record {
      leases = close-leases j claim.attempt_no _ s cur (λ a. ground arith);
      bounded = s.bounded;
      ended = refl;
    };
    move = stop j.state act;
    same_limit = refl;
  }

  started-Keeps : is_leased j.state ≡ true → Keeps j (started now claim j)
  started-Keeps l = record {
    sound = record {
      leases =
          touch-leases j claim.attempt_no _ s (λ a. refl) (λ a. refl)
          ∙ ap (λ t. if t then j.attempt_count ∷ [] else []) act;
      bounded = s.bounded;
      ended = s.ended ∙ ap not (active-open j.state act);
    };
    move = leased-move j.state l;
    same_limit = refl;
  }

  completed-Keeps : is_running j.state ≡ true → Keeps j (completed now claim j)
  completed-Keeps l = record {
    sound = record {
      leases = close-leases j claim.attempt_no _ s cur (λ a. refl);
      bounded = s.bounded;
      ended = refl;
    };
    move = running-move j.state l;
    same_limit = refl;
  }

  extended-Keeps : (d : ℕ) → Keeps j (extended now d claim j)
  extended-Keeps d = record {
    sound = record {
      leases = touch-leases j claim.attempt_no _ s (λ a. refl) (λ a. refl);
      bounded = s.bounded;
      ended = s.ended;
    };
    move = stay j.state;
    same_limit = refl;
  }

  failed-Keeps :
      (failure : SanitizedFailure) (d : ℕ)
      → Keeps j (after_failure now failure d (attempt_failed now failure claim j))
  failed-Keeps failure d =
      let closed =
        close-leases j claim.attempt_no (finish now outcome_failed (some failure)) s cur
          (λ a. refl) in
      let after = attempt_failed now failure claim j in
      let again = record after {
        state = pending;
        run_after = now + d;
        updated_at = now;
        sanitized_error = some failure;
      } in
      let over = record after {
        state = failed;
        completed_at = some now;
        updated_at = now;
        sanitized_error = some failure;
      } in
      if-either (Keeps j) (not (is_unset j.cancellation_requested_at)) _ _
        (record {
          sound = record { leases = closed; bounded = s.bounded; ended = refl };
          move = stop j.state act;
          same_limit = refl;
        })
        (if-either (Keeps j) (failure.retryable && ltb j.attempt_count j.max_attempts) again over
          (record {
            sound = record {
              leases = closed;
              bounded = s.bounded;
              ended = s.ended ∙ ap not (active-open j.state act);
            };
            move = give_back j.state act;
            same_limit = refl;
          })
          (record {
            sound = record { leases = closed; bounded = s.bounded; ended = refl };
            move = give_up j.state act;
            same_limit = refl;
          }))

module _ (digest : ℕ → ℕ) (now : ℕ) (claim : ClaimedJob) (j : Job) (s : IsSound j) where
  pub start-Keeps : (j' : Job) (b : Bool) → start digest now claim j ≡ ok (b, j') → Keeps j j'
  unfolding start
  start-Keeps j' b h =
      let (l, h') = passed-check (locked_lease digest now claim j) h in
      let (act, cur) = locked_lease-current digest now claim j s l in
      elim (Bool-cases (is_unset j.cancellation_requested_at)) [
        | inl t ↦
            let (r, e) =
              after-require (is_leased j.state) lost_lease
                (sym (if-true (is_unset j.cancellation_requested_at) _ _ t) ∙ h') in
            subst (Keeps j) (ap (λ (x : Bool × Job). x.1) (ok_injective e))
              (started-Keeps now claim j s act cur r)
        | inr f ↦
            subst (Keeps j)
              (ap (λ (x : Bool × Job). x.1)
                (ok_injective (sym (if-false (is_unset j.cancellation_requested_at) _ _ f) ∙ h')))
              (cancel_locked-Keeps now claim j s act cur)
      ]

  pub heartbeat-Keeps :
      (d : ℕ) (j' : Job) (b : Bool) → heartbeat digest now d claim j ≡ ok (b, j') → Keeps j j'
  unfolding heartbeat
  heartbeat-Keeps d j' b h =
      let h1 = after-check (check_duration false d) h in
      let (l, h2) = passed-check (locked_lease digest now claim j) h1 in
      let (act, cur) = locked_lease-current digest now claim j s l in
      let h3 = after-check (require_state (active j.state)) h2 in
      subst (Keeps j) (ap (λ (x : Bool × Job). x.1) (ok_injective h3))
        (extended-Keeps now claim j s act cur d)

  pub succeed-Keeps : (j' : Job) (b : Bool) → succeed digest now claim j ≡ ok (b, j') → Keeps j j'
  unfolding succeed
  succeed-Keeps j' b h =
      let (l, h') = passed-check (locked_lease digest now claim j) h in
      let (act, cur) = locked_lease-current digest now claim j s l in
      elim (Bool-cases (is_unset j.cancellation_requested_at)) [
        | inl t ↦
            let (r, e) =
              after-require (is_running j.state) lost_lease
                (sym (if-true (is_unset j.cancellation_requested_at) _ _ t) ∙ h') in
            subst (Keeps j) (ap (λ (x : Bool × Job). x.1) (ok_injective e))
              (completed-Keeps now claim j s act cur r)
        | inr f ↦
            subst (Keeps j)
              (ap (λ (x : Bool × Job). x.1)
                (ok_injective (sym (if-false (is_unset j.cancellation_requested_at) _ _ f) ∙ h')))
              (cancel_locked-Keeps now claim j s act cur)
      ]

  pub fail-Keeps :
      (failure : SanitizedFailure) (d : ℕ) (j' : Job)
      → fail digest now failure d claim j ≡ ok (tt, j')
      → Keeps j j'
  unfolding fail
  fail-Keeps failure d j' h =
      let h1 = after-check (check_duration true d) h in
      let (l, h2) = passed-check (locked_lease digest now claim j) h1 in
      let (act, cur) = locked_lease-current digest now claim j s l in
      subst (Keeps j) (ap (λ (x : Unit {0} × Job). x.1) (ok_injective h2))
        (failed-Keeps now claim j s act cur failure d)
