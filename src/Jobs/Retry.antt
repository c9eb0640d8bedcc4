-- ===== src/Jobs/Retry.antt =====
-- A call of backend/app/hosted/jobs.py that is made again after it has returned.
use reading_companion.Prelude.{
  ℕ, ◌≡◌, refl, ap, ◌∙◌, subst, Bool, true, false, Option, none, some, List, [], ◌∷◌, ◌++◌, find,
  Result, ok, ◌>>=◌, arith, bind-returns, passed-check, after-require, ok_injective, require,
  str_eq, str_eq_refl, ◌==◌, leb_int, ◌+◌, ◌&&◌, pass, String, after-check,
}
use reading_companion.Jobs.Rows.{
  Job, ClaimedJob, JobError, lost_lease, job_idempotency, spend_limit_exceeded, bad_phase,
  negative_reservation, constraint_violated,
}
use reading_companion.Jobs.Lease.{locked_lease}
use reading_companion.Jobs.Claim.{OwnerLimits, limits_of}
use reading_companion.Jobs.Spend.{
  Costs, Booking, SpendRequest, book_once, new_booking, reserve_spend, same_request, eligible,
  known_phase, keyed, policy, usage, natural, under_ceiling,
}
use reading_companion.Jobs.Library.{ChapterCommit, Library, Receipt}
use reading_companion.Jobs.Commit.{
  commit_once, commit_chapter, is_receipt, write_commit, new_receipt, check_booking, write_chapter,
  booking_for, has_key,
}

find-new :
    {A : Type 0} (p : A → Bool) (rows : List A) (x : A)
    → find p rows ≡ none
    → p x ≡ true
    → find p (rows ++ (x ∷ [])) ≡ some x
find-new p [] x h t = ground arith
find-new p (y ∷ rows) x h t = ground (arith, find-new p rows x)

-- another attempt of the same job
abbrev pub attempt_of :
    ClaimedJob → (attempt_no : ℕ) → (worker_id : String) → (lease_token : ℕ) → ClaimedJob
attempt_of claim n worker token = record claim {
  attempt_no = n;
  worker_id = worker;
  lease_token = token;
}

module _ (digest : ℕ → ℕ) (now : ℕ) (claim : ClaimedJob) (q : SpendRequest) (j : Job)
    (id other : ℕ) where
  key-new : keyed claim.owner_id q.idempotency_key (new_booking claim q id) ≡ true
  key-new = let r = str_eq_refl q.idempotency_key in ground (arith, r)

  same_request-new : same_request q (new_booking claim q id) ≡ true
  same_request-new =
      let r1 = str_eq_refl q.phase in
      let r2 = str_eq_refl q.provider in let r3 = str_eq_refl q.model in ground (arith, r1, r2, r3)

  book_again :
      (l : OwnerLimits) (c c' : Costs) (id' : ℕ) (b : Option Booking)
      → find (keyed claim.owner_id q.idempotency_key) c.cost_reservations ≡ b
      → book_once claim q id l c b ≡ ok (id', c')
      → (c'.owner_limits ≡ c.owner_limits)
        × (book_once claim q other l c'
              (find (keyed claim.owner_id q.idempotency_key) c'.cost_reservations)
            ≡ ok (id', c'))
  book_again l c c' id' none e h =
      let (_, done) =
        after-require
          (under_ceiling l.max_spend_usd (usage claim.owner_id c + natural q.reserved_usd))
          spend_limit_exceeded h in
      let found =
        find-new (keyed claim.owner_id q.idempotency_key) c.cost_reservations
          (new_booking claim q id) e key-new in
      subst
        (λ (x : ℕ × Costs).
          (x.1.owner_limits ≡ c.owner_limits)
          × (book_once claim q other l x.1
                (find (keyed claim.owner_id q.idempotency_key) x.1.cost_reservations)
              ≡ ok x))
        (ok_injective done)
        (
          refl,
          ap (book_once claim q other l _) found
              ∙ pass (require (same_request q (new_booking claim q id)) job_idempotency)
                  (ap (λ t. require t job_idempotency) same_request-new),
        )
  book_again l c c' id' (some b) e h =
      let (same, done) = passed-check (require (same_request q b) job_idempotency) h in
      subst
        (λ (x : ℕ × Costs).
          (x.1.owner_limits ≡ c.owner_limits)
          × (book_once claim q other l x.1
                (find (keyed claim.owner_id q.idempotency_key) x.1.cost_reservations)
              ≡ ok x))
        (ok_injective done)
        (
          refl,
          ap (book_once claim q other l c) e
              ∙ pass (require (same_request q b) job_idempotency) same,
        )

  -- A reservation that is asked for again, at any later time and by the same or a later attempt of its
  -- job, as long as the job is leased to it and running, is the one that there is: the second call
  -- gives the same id and changes nothing.
  reserve_spend_retried :
      (c c' : Costs) (id' now' n token : ℕ) (worker : String) (j' : Job)
      → locked_lease digest now' (attempt_of claim n worker token) j' ≡ ok tt
      → eligible j' ≡ true
      → reserve_spend digest now claim q id j c ≡ ok (id', c')
      → reserve_spend digest now' (attempt_of claim n worker token) q other j' c' ≡ ok (id', c')
  unfolding reserve_spend
  reserve_spend_retried c c' id' now' n token worker j' lease runs h =
      let (g1, h1) = passed-check (require (known_phase q.phase) bad_phase) h in
      let (g2, h2) =
        passed-check
          (require
            (leb_int 0 q.reserved_input_tokens
              && leb_int 0 q.reserved_output_tokens
              && leb_int 0 q.reserved_usd)
            negative_reservation)
          h1 in
      let h3 = after-check (locked_lease digest now claim j) h2 in
      let h4 = after-check (require (eligible j) lost_lease) h3 in
      let (l, p, h5) = bind-returns (policy (limits_of claim.owner_id c.owner_limits)) h4 in
      let (limits, again) =
        book_again l c c' id' (find (keyed claim.owner_id q.idempotency_key) c.cost_reservations)
          refl h5 in
      let p' = ap (λ rows. policy (limits_of claim.owner_id rows)) limits ∙ p in
      pass _ g1
      ∙ pass _ g2
      ∙ pass _ lease
      ∙ pass _ (ap (λ t. require t lost_lease) runs)
      ∙ ap
          (λ (r : Result JobError OwnerLimits). r >>= λ l'.
            book_once claim q other l' c'
              (find (keyed claim.owner_id q.idempotency_key) c'.cost_reservations))
          p'
      ∙ again

module _ (digest : ℕ → ℕ) (now : ℕ) (claim : ClaimedJob) (a : ChapterCommit) (j : Job) where
  receipt-new : is_receipt claim.owner_id a (new_receipt claim.owner_id a now) ≡ true
  receipt-new = ground arith

  commit_again :
      (now' : ℕ) (lib lib' : Library) (b : Bool) (r : Option Receipt)
      → find (is_receipt claim.owner_id a) lib.receipts ≡ r
      → commit_once claim.owner_id a now claim.job_id lib r ≡ ok (b, lib')
      → commit_once claim.owner_id a now' claim.job_id lib'
          (find (is_receipt claim.owner_id a) lib'.receipts)
        ≡ ok (false, lib')
  unfolding write_commit
  commit_again now' lib lib' b none e h =
      let o = claim.owner_id in
      let (l, p, h1) = bind-returns (policy (limits_of o lib.costs.owner_limits)) h in
      let (_, h2) =
        passed-check (check_booking o a l.max_spend_usd (booking_for o a lib.costs) lib.costs) h1 in
      let (rows, _, h3) =
        bind-returns (write_chapter o a (find (has_key o a) lib.chapters) lib.chapters) h2 in
      let (_, h4) = after-require _ constraint_violated h3 in
      let (_, h5) = after-require _ constraint_violated h4 in
      let found = find-new (is_receipt o a) lib.receipts (new_receipt o a now) e receipt-new in
      subst
        (λ (x : Library).
          commit_once o a now' claim.job_id x (find (is_receipt o a) x.receipts) ≡ ok (false, x))
        (ap (λ (x : Bool × Library). x.1) (ok_injective h5))
        (ap (commit_once o a now' claim.job_id _) found
          ∙ pass (require (str_eq a.content_hash a.content_hash) job_idempotency)
              (ap (λ t. require t job_idempotency) (str_eq_refl a.content_hash)))
  commit_again now' lib lib' b (some r) e h =
      let o = claim.owner_id in
      let (same, done) =
        passed-check (require (str_eq r.content_hash a.content_hash) job_idempotency) h in
      subst
        (λ (x : Library).
          commit_once o a now' claim.job_id x (find (is_receipt o a) x.receipts) ≡ ok (false, x))
        (ap (λ (x : Bool × Library). x.1) (ok_injective done))
        (ap (commit_once o a now' claim.job_id lib) e
          ∙ pass (require (str_eq r.content_hash a.content_hash) job_idempotency) same)

  -- A chapter that is committed again, at any later time and by the same or a later attempt of its job,
  -- as long as the job is leased to it and running, is written once: the second call answers false and
  -- changes nothing.
  pub commit_chapter_retried :
      (lib lib' : Library) (b : Bool) (now' n token : ℕ) (worker : String) (j' : Job)
      → locked_lease digest now' (attempt_of claim n worker token) j' ≡ ok tt
      → eligible j' ≡ true
      → commit_chapter digest now claim a j lib ≡ ok (b, lib')
      → commit_chapter digest now' (attempt_of claim n worker token) a j' lib' ≡ ok (false, lib')
  unfolding commit_chapter
  commit_chapter_retried lib lib' b now' n token worker j' lease runs h =
      let (g1, h1) =
        passed-check
          (require (claim.book_id == a.book_id && claim.book_incarnation == a.book_incarnation)
            job_idempotency)
          h in
      let h2 = after-check (locked_lease digest now claim j) h1 in
      let h3 = after-check (require (eligible j) lost_lease) h2 in
      pass _ g1
      ∙ pass _ lease
      ∙ pass _ (ap (λ t. require t lost_lease) runs)
      ∙ commit_again now' lib lib' b (find (is_receipt claim.owner_id a) lib.receipts) refl h3
