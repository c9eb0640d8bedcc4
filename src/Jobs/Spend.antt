-- ===== src/Jobs/Spend.antt =====
-- The costs of the hosted worker in backend/app/hosted/jobs.py: a reservation before the provider is
-- called, under the owner's optional spend limit. Amounts are numbers of the smallest unit that the
-- tables hold, 10^-10 of a dollar. Each call holds the owner's advisory lock.
use reading_companion.Prelude.{
  ℕ, ◌+◌, ℤ, leb_int, String, Bool, true, false, ◌&&◌, ◌||◌, Option, none, some, List, [], ◌∷◌,
  ◌++◌, str_eq, ◌==◌, leb, find, keep, total, Result, ok, err, ◌>>◌, ◌>>=◌, require,
}
use reading_companion.Jobs.Rows.{
  Job, ClaimedJob, JobError, is_unset, lost_lease, worker_configuration, job_idempotency, bad_phase,
  negative_reservation, spend_limit_exceeded,
}
use reading_companion.Jobs.Lease.{is_running, locked_lease}
use reading_companion.Jobs.Claim.{OwnerLimits, limits_of}

-- `cost_ledger`
pub record CostEntry : Type 0 where
  pub owner_id : ℕ
  pub book_id : ℕ
  pub book_incarnation : ℕ
  pub job_id : ℕ
  pub chapter_ordinal : ℕ
  pub phase : String
  pub provider : String
  pub model : String
  pub input_tokens : ℕ
  pub output_tokens : ℕ
  pub usd : ℕ
  pub idempotency_key : String

pub data BookingState : Type 0 where
  reserved settled released reconciled : BookingState

-- what a settled reservation has cost
pub record Actual : Type 0 where
  pub input_tokens : ℕ
  pub output_tokens : ℕ
  pub usd : ℕ
  pub settled_at : ℕ

-- `cost_reservations`
pub record Booking : Type 0 where
  pub owner_id : ℕ
  pub id : ℕ
  pub book_id : ℕ
  pub book_incarnation : ℕ
  pub job_id : ℕ
  pub phase : String
  pub provider : String
  pub model : String
  pub reserved_input_tokens : ℕ
  pub reserved_output_tokens : ℕ
  pub reserved_usd : ℕ
  pub state : BookingState
  pub idempotency_key : String
  pub actual : Option Actual

-- the tables of one owner's costs
pub record Costs : Type 0 where
  pub owner_limits : List OwnerLimits
  pub cost_ledger : List CostEntry
  pub cost_reservations : List Booking

-- the arguments of `reserve_spend` after the claim
pub record SpendRequest : Type 0 where
  pub phase : String
  pub provider : String
  pub model : String
  pub reserved_input_tokens : ℤ
  pub reserved_output_tokens : ℤ
  pub reserved_usd : ℤ
  pub idempotency_key : String

abbrev pub known_phase : String → Bool
known_phase p =
    str_eq p "extraction" || str_eq p "synthesis" || str_eq p "embedding" || str_eq p "judge"

-- a number that is not negative
abbrev pub natural : ℤ → ℕ
natural (ℤ.pos n) = n
natural (ℤ.negsuc n) = 0

abbrev pub is_reserved : BookingState → Bool
is_reserved reserved = true
is_reserved _ = false

-- `WHERE owner_id=%s AND idempotency_key=%s`
abbrev pub keyed : ℕ → String → Booking → Bool
keyed owner key b = b.owner_id == owner && str_eq b.idempotency_key key

abbrev pub ledger_usd : ℕ → List CostEntry → ℕ
ledger_usd owner entries =
    total (λ (e : CostEntry). e.usd) (keep (λ (e : CostEntry). e.owner_id == owner) entries)

abbrev pub held : ℕ → Booking → Bool
held owner b = b.owner_id == owner && is_reserved b.state

abbrev pub reserved_of : ℕ → List Booking → ℕ
reserved_of owner bookings = total (λ (b : Booking). b.reserved_usd) (keep (held owner) bookings)

-- what an owner has spent and reserved
unfoldable pub usage : ℕ → Costs → ℕ
usage owner c = ledger_usd owner c.cost_ledger + reserved_of owner c.cost_reservations

-- `usage + amount > ceiling`, where there is a ceiling
abbrev pub under_ceiling : Option ℕ → ℕ → Bool
under_ceiling none spent = true
under_ceiling (some ceiling) spent = leb spent ceiling

abbrev pub policy : Option OwnerLimits → Result JobError OwnerLimits
policy none = err worker_configuration
policy (some l) = ok l

abbrev pub limit_policy : ℕ → List OwnerLimits → Result JobError OwnerLimits
limit_policy owner limits = policy (limits_of owner limits)

-- the retry asks for what is reserved
abbrev pub same_request : SpendRequest → Booking → Bool
same_request r b =
    str_eq b.phase r.phase
    && str_eq b.provider r.provider
    && str_eq b.model r.model
    && b.reserved_input_tokens == natural r.reserved_input_tokens
    && b.reserved_output_tokens == natural r.reserved_output_tokens
    && b.reserved_usd == natural r.reserved_usd
    && is_reserved b.state

abbrev pub new_booking : ClaimedJob → SpendRequest → (id : ℕ) → Booking
new_booking claim r id = record {
  owner_id = claim.owner_id;
  id = id;
  book_id = claim.book_id;
  book_incarnation = claim.book_incarnation;
  job_id = claim.job_id;
  phase = r.phase;
  provider = r.provider;
  model = r.model;
  reserved_input_tokens = natural r.reserved_input_tokens;
  reserved_output_tokens = natural r.reserved_output_tokens;
  reserved_usd = natural r.reserved_usd;
  state = reserved;
  idempotency_key = r.idempotency_key;
  actual = none;
}

abbrev pub add_booking :
    ClaimedJob → SpendRequest → (id : ℕ) → OwnerLimits → Costs → Result JobError (ℕ × Costs)
add_booking claim r id l c = do
  require (under_ceiling l.max_spend_usd (usage claim.owner_id c + natural r.reserved_usd))
      spend_limit_exceeded
  ok (id, record c { cost_reservations = c.cost_reservations ++ (new_booking claim r id ∷ []) })

-- a retry finds its reservation, or there is none yet
abbrev pub book_once :
    ClaimedJob
    → SpendRequest
    → (id : ℕ) → OwnerLimits
    → Costs
    → Option Booking
    → Result JobError (ℕ × Costs)
book_once claim r id l c none = add_booking claim r id l c
book_once claim r id l c (some b) = do require (same_request r b) job_idempotency; ok (b.id, c)

-- the job runs, and nobody asks to cancel it
abbrev pub eligible : Job → Bool
eligible j = is_running j.state && is_unset j.cancellation_requested_at

module _ (digest : ℕ → ℕ) (now : ℕ) where
  -- `reserve_spend`, with the fresh id
  unfoldable pub reserve_spend :
      ClaimedJob → SpendRequest → (id : ℕ) → Job → Costs → Result JobError (ℕ × Costs)
  reserve_spend claim r id j c = do
    require (known_phase r.phase) bad_phase
    require
        (leb_int 0 r.reserved_input_tokens
          && leb_int 0 r.reserved_output_tokens
          && leb_int 0 r.reserved_usd)
        negative_reservation
    locked_lease digest now claim j
    require (eligible j) lost_lease
    l ← limit_policy claim.owner_id c.owner_limits
    book_once claim r id l c (find (keyed claim.owner_id r.idempotency_key) c.cost_reservations)
