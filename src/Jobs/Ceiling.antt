-- ===== src/Jobs/Ceiling.antt =====
-- The owner's spend limit in backend/app/hosted/jobs.py, over reservations and chapter commits.
use reading_companion.Prelude.{
  ℕ, ◌+◌, ◌≤◌, ◌≡◌, refl, ap, sym, ◌∙◌, subst, Bool, true, false, Option, none, some, List, [], ◌∷◌,
  map, ◌==◌, leb→le, total, keep, total-keep-append, find, ok, inl, inr, arith, Bool-cases,
  bind-returns, after-check, after-require, ok_injective, ==→eq, require, ◌++◌, if◌then◌else◌,
  require-ok, passed-check, str_eq, ◌&&◌,
}
use reading_companion.Jobs.Rows.{
  Job, ClaimedJob, lost_lease, job_idempotency, spend_limit_exceeded, bad_phase,
  negative_reservation, constraint_violated,
}
use reading_companion.Jobs.Lease.{locked_lease}
use reading_companion.Jobs.Claim.{OwnerLimits, limits_of}
use reading_companion.Jobs.Spend.{
  Costs, Booking, CostEntry, SpendRequest, usage, ledger_usd, reserved_of, held, under_ceiling,
  book_once, add_booking, new_booking, reserve_spend, same_request, eligible, known_phase, natural,
  keyed, policy,
}
use reading_companion.Jobs.Library.{ChapterCommit, Library, Receipt}
use reading_companion.Jobs.Commit.{
  settle_booking, settle_all, others_held, other_usage, charged, check_booking, matches,
  booking_for, new_cost, write_commit, write_chapter, commit_once, commit_chapter, is_receipt,
  has_key,
}

module _ (owner : ℕ) (a : ChapterCommit) (now : ℕ) (r : Booking) where
  -- Settling one reservation leaves exactly the others.
  settle-others :
      (rows : List Booking)
      → reserved_of owner (map (settle_booking owner a now r) rows)
        ≡ total (λ (b : Booking). b.reserved_usd) (keep (others_held owner a r) rows)
  settle-others [] = refl
  settle-others (b ∷ rows) = ground (arith, settle-others rows)

  settle-foreign :
      (other : ℕ)
      → (owner == other) ≡ false
      → (rows : List Booking)
      → reserved_of other (map (settle_booking owner a now r) rows) ≡ reserved_of other rows
  settle-foreign other h [] = refl
  settle-foreign other h (b ∷ rows) = ground (arith, h, settle-foreign other h rows)

settle_all-foreign :
    (owner : ℕ) (a : ChapterCommit) (now other : ℕ)
    → (owner == other) ≡ false
    → (r : Option Booking) (rows : List Booking)
    → reserved_of other (settle_all owner a now r rows) ≡ reserved_of other rows
settle_all-foreign owner a now other f none rows = refl
settle_all-foreign owner a now other f (some r) rows = settle-foreign owner a now r other f rows

policy-found : (x : Option OwnerLimits) (l : OwnerLimits) → policy x ≡ ok l → x ≡ some l
policy-found none l h = cc
policy-found (some k) l h = ap some (ok_injective h)

-- A ceiling that holds is a bound.
ceiling-bound : (c : Option ℕ) (spent m : ℕ) → c ≡ some m → under_ceiling c spent ≡ true → spent ≤ m
ceiling-bound none spent m e h = cc
ceiling-bound (some k) spent m e h = ground (arith, leb→le spent k h)

-- Where the owner's limits set a ceiling, the costs are under it.
pub record IsWithin (owner : ℕ) (ceiling : ℕ) (c : Costs) : Type 0 where
  pub limits : OwnerLimits
  pub current : limits_of owner c.owner_limits ≡ some limits
  pub capped : limits.max_spend_usd ≡ some ceiling
  pub within : usage owner c ≤ ceiling

module _ (owner m : ℕ) (c : Costs) (w : IsWithin owner m c) where
  same-policy :
      (l : OwnerLimits) → policy (limits_of owner c.owner_limits) ≡ ok l → l.max_spend_usd ≡ some m
  same-policy l h =
      let found = sym w.current ∙ policy-found (limits_of owner c.owner_limits) l h in
      let same : w.limits ≡ l = cc in
      ap (λ (x : OwnerLimits). x.max_spend_usd) (sym same) ∙ w.capped

  -- A new reservation of any owner.
  add_booking-IsWithin :
      (claim : ClaimedJob) (q : SpendRequest) (id id' : ℕ) (l : OwnerLimits) (c' : Costs)
      → policy (limits_of claim.owner_id c.owner_limits) ≡ ok l
      → add_booking claim q id l c ≡ ok (id', c')
      → IsWithin owner m c'
  unfolding usage
  add_booking-IsWithin claim q id id' l c' p h =
      let (fits, e) =
        after-require
          (under_ceiling l.max_spend_usd (usage claim.owner_id c + natural q.reserved_usd))
          spend_limit_exceeded h in
      let sums =
        total-keep-append (held owner) (λ (b : Booking). b.reserved_usd) c.cost_reservations
          (new_booking claim q id) in
      let old = w.within in
      subst (IsWithin owner m) (ap (λ (x : ℕ × Costs). x.1) (ok_injective e)) (record {
        limits = w.limits;
        current = w.current;
        capped = w.capped;
        within = elim (Bool-cases (claim.owner_id == owner)) [
          | inl t ↦
              let same = ==→eq claim.owner_id owner t in
              let capped =
                same-policy l (subst (λ o. policy (limits_of o c.owner_limits) ≡ ok l) same p) in
              let fits' =
                subst
                  (λ o. under_ceiling l.max_spend_usd (usage o c + natural q.reserved_usd) ≡ true)
                  same fits in
              let bound =
                ceiling-bound l.max_spend_usd (usage owner c + natural q.reserved_usd) m capped
                  fits' in
              ground (arith, t, sums, bound)
          | inr f ↦ ground (arith, f, sums, old)
        ];
      })

  book_once-IsWithin :
      (claim : ClaimedJob) (q : SpendRequest) (id id' : ℕ) (l : OwnerLimits) (c' : Costs)
      (b : Option Booking)
      → policy (limits_of claim.owner_id c.owner_limits) ≡ ok l
      → book_once claim q id l c b ≡ ok (id', c')
      → IsWithin owner m c'
  book_once-IsWithin claim q id id' l c' none p h = add_booking-IsWithin claim q id id' l c' p h
  book_once-IsWithin claim q id id' l c' (some b) p h =
      let (s, e) = after-require (same_request q b) job_idempotency h in
      subst (IsWithin owner m) (ap (λ (x : ℕ × Costs). x.1) (ok_injective e)) w

  pub reserve_spend-IsWithin :
      (digest : ℕ → ℕ) (now : ℕ) (claim : ClaimedJob) (q : SpendRequest) (id id' : ℕ) (j : Job)
      (c' : Costs)
      → reserve_spend digest now claim q id j c ≡ ok (id', c')
      → IsWithin owner m c'
  unfolding reserve_spend
  reserve_spend-IsWithin digest now claim q id id' j c' h =
      let h1 = after-check (require (known_phase q.phase) bad_phase) h in
      let (_, h2) = after-require _ negative_reservation h1 in
      let h3 = after-check (locked_lease digest now claim j) h2 in
      let (_, h4) = after-require (eligible j) lost_lease h3 in
      let (l, p, h5) = bind-returns (policy (limits_of claim.owner_id c.owner_limits)) h4 in
      book_once-IsWithin claim q id id' l c'
        (find (keyed claim.owner_id q.idempotency_key) c.cost_reservations) p h5

  -- A charge for the owner itself.
  charge-own :
      (a : ChapterCommit) (now job : ℕ) (l : OwnerLimits)
      → policy (limits_of owner c.owner_limits) ≡ ok l
      → check_booking owner a l.max_spend_usd (booking_for owner a c) c ≡ ok tt
      → usage owner (charged owner a now job c) ≤ m
  unfolding usage
  charge-own a now job l p h =
      let spent =
        total-keep-append (λ (e : CostEntry). e.owner_id == owner) (λ (e : CostEntry). e.usd)
          c.cost_ledger (new_cost owner a job) in
      go spent (booking_for owner a c) l.max_spend_usd (same-policy l p) h
    where
      go :
          total
              (λ (e : CostEntry). e.usd)
              (keep
                (λ (e : CostEntry). e.owner_id == owner)
                (c.cost_ledger ++ (new_cost owner a job ∷ [])))
            ≡ total
                (λ (e : CostEntry). e.usd)
                (keep (λ (e : CostEntry). e.owner_id == owner) c.cost_ledger)
              + (if owner == owner then a.usd else 0)
          → (b : Option Booking) (ceiling : Option ℕ) → ceiling ≡ some m
          → check_booking owner a ceiling b c ≡ ok tt
          → ledger_usd owner (c.cost_ledger ++ (new_cost owner a job ∷ []))
              + reserved_of owner (settle_all owner a now b c.cost_reservations)
            ≤ m
      go spent none none e h = cc
      go spent none (some k) e h = cc
      go spent (some r) ceiling e h =
          let (_, fits) = after-require (matches owner a r) job_idempotency h in
          let bound =
            ceiling-bound ceiling (other_usage owner a r c + a.usd) m e
              (require-ok _ spend_limit_exceeded fits) in
          let settled = settle-others owner a now r c.cost_reservations in
          ground (arith, spent, settled, bound)

  charge-foreign :
      (other : ℕ) (a : ChapterCommit) (now job : ℕ)
      → (other == owner) ≡ false
      → usage owner (charged other a now job c) ≤ m
  unfolding usage
  charge-foreign other a now job f =
      let old = w.within in
      let spent =
        total-keep-append (λ (e : CostEntry). e.owner_id == owner) (λ (e : CostEntry). e.usd)
          c.cost_ledger (new_cost other a job) in
      let settled =
        settle_all-foreign other a now owner f (booking_for other a c) c.cost_reservations in
      ground (arith, f, spent, settled, old)

  charged-IsWithin :
      (claim_owner : ℕ) (a : ChapterCommit) (now job : ℕ) (l : OwnerLimits)
      → policy (limits_of claim_owner c.owner_limits) ≡ ok l
      → check_booking claim_owner a l.max_spend_usd (booking_for claim_owner a c) c ≡ ok tt
      → IsWithin owner m (charged claim_owner a now job c)
  charged-IsWithin claim_owner a now job l p h = record {
    limits = w.limits;
    current = w.current;
    capped = w.capped;
    within = elim (Bool-cases (claim_owner == owner)) [
      | inl t ↦
          let same = ==→eq claim_owner owner t in
          subst (λ o. usage owner (charged o a now job c) ≤ m) (sym same)
            (charge-own a now job l (subst (λ o. policy (limits_of o c.owner_limits) ≡ ok l) same p)
              (subst (λ o. check_booking o a l.max_spend_usd (booking_for o a c) c ≡ ok tt) same h))
      | inr f ↦ charge-foreign claim_owner a now job f
    ];
  }

module _ (owner m : ℕ) (lib : Library) (w : IsWithin owner m lib.costs) (a : ChapterCommit)
    (now : ℕ) where
  write_commit-IsWithin :
      (claim_owner job : ℕ) (b : Bool) (lib' : Library)
      → write_commit claim_owner a now job lib ≡ ok (b, lib')
      → IsWithin owner m lib'.costs
  unfolding write_commit
  write_commit-IsWithin o job b lib' h =
      let (l, p, h1) = bind-returns (policy (limits_of o lib.costs.owner_limits)) h in
      let (checked, h2) =
        passed-check (check_booking o a l.max_spend_usd (booking_for o a lib.costs) lib.costs) h1 in
      let (rows, _, h3) =
        bind-returns (write_chapter o a (find (has_key o a) lib.chapters) lib.chapters) h2 in
      let (_, h4) = after-require _ constraint_violated h3 in
      let (_, h5) = after-require _ constraint_violated h4 in
      subst (λ (x : Library). IsWithin owner m x.costs)
        (ap (λ (x : Bool × Library). x.1) (ok_injective h5))
        (charged-IsWithin owner m lib.costs w o a now job l p checked)

  commit_once-IsWithin :
      (claim_owner job : ℕ) (b : Bool) (lib' : Library) (r : Option Receipt)
      → commit_once claim_owner a now job lib r ≡ ok (b, lib')
      → IsWithin owner m lib'.costs
  commit_once-IsWithin o job b lib' none h = write_commit-IsWithin o job b lib' h
  commit_once-IsWithin o job b lib' (some r) h =
      let (_, e) = after-require (str_eq r.content_hash a.content_hash) job_idempotency h in
      subst (λ (x : Library). IsWithin owner m x.costs)
        (ap (λ (x : Bool × Library). x.1) (ok_injective e)) w

  pub commit_chapter-IsWithin :
      (digest : ℕ → ℕ) (claim : ClaimedJob) (j : Job) (b : Bool) (lib' : Library)
      → commit_chapter digest now claim a j lib ≡ ok (b, lib')
      → IsWithin owner m lib'.costs
  unfolding commit_chapter
  commit_chapter-IsWithin digest claim j b lib' h =
      let (_, h1) =
        after-require (claim.book_id == a.book_id && claim.book_incarnation == a.book_incarnation)
          job_idempotency h in
      let h2 = after-check (locked_lease digest now claim j) h1 in
      let (_, h3) = after-require (eligible j) lost_lease h2 in
      commit_once-IsWithin claim.owner_id claim.job_id b lib'
        (find (is_receipt claim.owner_id a) lib.receipts) h3
