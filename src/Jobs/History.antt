-- ===== src/Jobs/History.antt =====
-- The whole life of a job of backend/app/hosted/jobs.py under every order of the calls.
use reading_companion.Prelude.{
  ℕ, ◌≡◌, refl, ap, ◌∙◌, String, Bool, true, ◌&&◌, Option, none, some, if-either, ok, arith,
  if-split, [],
}
use reading_companion.Jobs.Rows.{
  leased, running, succeeded, failed, Job, JobState, SanitizedFailure, ClaimedJob, active, waits,
  is_unset, is_pending, pending, waiting_configuration, cancelled,
}
use reading_companion.Jobs.Lease.{start, heartbeat, succeed, fail}
use reading_companion.Jobs.Claim.{recover_job, claim_job, claimable, Others}
use reading_companion.Jobs.Owner.{cancel_job, unconfigure, configure, new_job, is_waiting}
use reading_companion.Jobs.Sound.{IsSound, is_terminal, expected_open}
use reading_companion.Jobs.Steps.{
  Move, Keeps, start-Keeps, heartbeat-Keeps, succeed-Keeps, fail-Keeps,
}
use reading_companion.Jobs.Recovery.{recover_job-Keeps, claim_job-Keeps}

-- One call that returns, at any instant, by any worker, with any claim.
pub data Turn (digest : ℕ → ℕ) : Job → Job → Type 0 where
  turn_start :
      {j j' : Job} (now : ℕ) (claim : ClaimedJob) (b : Bool)
      → start digest now claim j ≡ ok (b, j')
      → Turn digest j j'
  turn_heartbeat :
      {j j' : Job} (now lease_for : ℕ) (claim : ClaimedJob) (b : Bool)
      → heartbeat digest now lease_for claim j ≡ ok (b, j')
      → Turn digest j j'
  turn_succeed :
      {j j' : Job} (now : ℕ) (claim : ClaimedJob) (b : Bool)
      → succeed digest now claim j ≡ ok (b, j')
      → Turn digest j j'
  turn_fail :
      {j j' : Job} (now : ℕ) (failure : SanitizedFailure) (retry_after : ℕ) (claim : ClaimedJob)
      → fail digest now failure retry_after claim j ≡ ok (tt, j')
      → Turn digest j j'
  turn_recover : {j : Job} (now : ℕ) → Turn digest j (recover_job now j)
  turn_claim :
      {j : Job} (others : Others) (now lease_for token : ℕ) (worker : String)
      → claimable others now j ≡ true
      → Turn digest j (claim_job digest now lease_for token worker j)
  turn_cancel : {j : Job} (now : ℕ) → Turn digest j (cancel_job now j)
  turn_unconfigure : {j : Job} (now : ℕ) → Turn digest j (unconfigure now j)
  turn_configure : {j : Job} (now credential : ℕ) → Turn digest j (configure now credential j)

pub data History (digest : ℕ → ℕ) (j : Job) : Job → Type 0 where
  begins : History digest j j
  then_turn : {k l : Job} → History digest j k → Turn digest k l → History digest j l

-- Moves of the abstract machine, one after the other.
pub data Moves (s : JobState) : JobState → Type 0 where
  none_yet : Moves s s
  and_then : {t u : JobState} → Moves s t → Move t u → Moves s u

waits-open : (s : JobState) (n : ℕ) → waits s ≡ true → expected_open s n ≡ []
waits-open s n h = ground arith

stays : (j : Job) → IsSound j → Keeps j j
stays j s = record { sound = s; move = Move.stay j.state; same_limit = refl }

unconfigured : (s : JobState) → is_pending s ≡ true → Move s waiting_configuration
unconfigured pending h = Move.unconfigure
unconfigured waiting_configuration h = cc
unconfigured leased h = cc
unconfigured running h = cc
unconfigured succeeded h = cc
unconfigured failed h = cc
unconfigured cancelled h = cc

configured : (s : JobState) → is_waiting s ≡ true → Move s pending
configured waiting_configuration h = Move.configure
configured pending h = cc
configured leased h = cc
configured running h = cc
configured succeeded h = cc
configured failed h = cc
configured cancelled h = cc

withdraw-Keeps : (now : ℕ) (j : Job) → IsSound j → Keeps j (cancel_job now j)
unfolding cancel_job
withdraw-Keeps now j s =
    if-split (Keeps j) (waits j.state) _ _
      (λ w. record {
        sound = record {
          leases = s.leases ∙ waits-open j.state j.attempt_count w;
          bounded = s.bounded;
          ended = refl;
        };
        move = Move.withdraw j.state w;
        same_limit = refl;
      })
      (λ _.
        if-either (Keeps j) (active j.state) _ j
          (record {
            sound = record { leases = s.leases; bounded = s.bounded; ended = s.ended };
            move = Move.stay j.state;
            same_limit = refl;
          })
          (stays j s))

unconfigure-Keeps : (now : ℕ) (j : Job) → IsSound j → Keeps j (unconfigure now j)
unfolding unconfigure
unconfigure-Keeps now j s =
    if-split (Keeps j) (is_pending j.state) _ j
      (λ p. record {
        sound = record {
          leases = s.leases ∙ waits-open j.state j.attempt_count (ground arith);
          bounded = s.bounded;
          ended = s.ended ∙ ground arith;
        };
        move = unconfigured j.state p;
        same_limit = refl;
      })
      (λ _. stays j s)

configure-Keeps : (now credential : ℕ) (j : Job) → IsSound j → Keeps j (configure now credential j)
unfolding configure
configure-Keeps now credential j s =
    if-split (Keeps j) (is_waiting j.state && is_unset j.cancellation_requested_at) _ j
      (λ p. record {
        sound = record {
          leases = s.leases ∙ waits-open j.state j.attempt_count (ground arith);
          bounded = s.bounded;
          ended = s.ended ∙ ground arith;
        };
        move = configured j.state (ground arith);
        same_limit = refl;
      })
      (λ _. stays j s)

Turn-Keeps : (digest : ℕ → ℕ) {j j' : Job} → Turn digest j j' → IsSound j → Keeps j j'
Turn-Keeps digest {j} {j'} (Turn.turn_start now claim b h) s =
    start-Keeps digest now claim j s j' b h
Turn-Keeps digest {j} {j'} (Turn.turn_heartbeat now d claim b h) s =
    heartbeat-Keeps digest now claim j s d j' b h
Turn-Keeps digest {j} {j'} (Turn.turn_succeed now claim b h) s =
    succeed-Keeps digest now claim j s j' b h
Turn-Keeps digest {j} {j'} (Turn.turn_fail now failure d claim h) s =
    fail-Keeps digest now claim j s failure d j' h
Turn-Keeps digest {j} (Turn.turn_recover now) s = recover_job-Keeps now j s
Turn-Keeps digest {j} (Turn.turn_claim others now d token worker h) s =
    claim_job-Keeps digest now d token worker j s (ground arith) (ground arith)
Turn-Keeps digest {j} (Turn.turn_cancel now) s = withdraw-Keeps now j s
Turn-Keeps digest {j} (Turn.turn_unconfigure now) s = unconfigure-Keeps now j s
Turn-Keeps digest {j} (Turn.turn_configure now credential) s = configure-Keeps now credential j s

-- Under any sequence of calls that return a sound job stays sound: under a lease it has exactly one open
-- attempt, its last one, without a lease none, and its attempts never outnumber their limit. Its state
-- follows the moves of the abstract machine, from waiting over leased and running to a final state.
pub history_refines :
    (digest : ℕ → ℕ) {j j' : Job}
    → History digest j j'
    → IsSound j
    → Moves j.state j'.state × IsSound j'
history_refines digest History.begins s = (Moves.none_yet, s)
history_refines digest (History.then_turn h t) s =
    let (m, s') = history_refines digest h s in
    let k = Turn-Keeps digest t s' in (Moves.and_then m k.move, k.sound)

Move-final : (s t : JobState) → Move s t → is_terminal s ≡ true → t ≡ s
Move-final s _ (Move.stay _) h = refl
Move-final s _ Move.configure h = cc
Move-final s _ Move.unconfigure h = cc
Move-final s _ Move.lease h = cc
Move-final s _ (Move.withdraw _ w) h = ground arith
Move-final s _ Move.begin h = cc
Move-final s _ Move.complete h = cc
Move-final s _ (Move.give_back _ a) h = ground arith
Move-final s _ (Move.give_up _ a) h = ground arith
Move-final s _ (Move.stop _ a) h = ground arith

Moves-final : {s t : JobState} → Moves s t → is_terminal s ≡ true → t ≡ s
Moves-final Moves.none_yet h = refl
Moves-final (Moves.and_then m k) h =
    let e = Moves-final m h in Move-final _ _ k (ap is_terminal e ∙ h) ∙ e

-- A job that has succeeded, failed or been cancelled stays so, whatever calls return after that: no
-- late worker, no expired lease and no cancellation brings it back.
pub final_state_kept :
    (digest : ℕ → ℕ) {j j' : Job}
    → History digest j j'
    → IsSound j
    → is_terminal j.state ≡ true
    → j'.state ≡ j.state
final_state_kept digest h s t = Moves-final (history_refines digest h s).0 t

-- A new job is sound.
pub new_job-IsSound :
    (now owner id book incarnation priority max_attempts : ℕ) (credential : Option ℕ)
    → IsSound (new_job now owner id book incarnation priority max_attempts credential)
unfolding new_job
new_job-IsSound now owner id book incarnation priority max_attempts none = record {
  leases = refl;
  bounded = omega arith;
  ended = refl;
}
new_job-IsSound now owner id book incarnation priority max_attempts (some c) = record {
  leases = refl;
  bounded = omega arith;
  ended = refl;
}
