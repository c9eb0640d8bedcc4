-- ===== src/Jobs/Fair.antt =====
-- The loop of `claim_next` in backend/app/hosted/jobs.py: it ends, and it passes over no owner with a
-- free place.
use reading_companion.Prelude.{
  ℕ, zero, suc, ◌<◌, ◌≡◌, refl, ap, sym, ◌∙◌, Bool, true, false, ◌&&◌, Option, none, some, List, [],
  ◌∷◌, any, keep, length, arith, inl, inr, Bool-cases, ◌==◌, length-keep, if◌then◌else◌, ==→eq, ◌⊎◌,
  subst, if-true, if-false,
}
use reading_companion.Jobs.Rows.{Job}
use reading_companion.Jobs.Claim.{
  Others, OwnerLimits, Choice, Verdict, candidate, choose, choose_job, verdict, claimable, settle,
  chosen, nothing_to_do, unfinished, free, blocked_owner, no_limits, take_candidate, place_for,
  limits_of, active_of,
}
use reading_companion.Jobs.Candidates.{
  open_to, any-weaker, any-same, candidate-open, fewer-open, candidate-none,
}

abbrev pub is_free : Verdict → Bool
is_free free = true
is_free _ = false

module _ (others : Others) (now : ℕ) (jobs : List Job) (limits : List OwnerLimits) where
  settle-finishes :
      (j : Job) (later : Choice) (v : Verdict)
      → ¬ (later ≡ unfinished)
      → ¬ (settle j later v ≡ unfinished)
  settle-finishes j later free n e = cc
  settle-finishes j later blocked_owner n e = n e
  settle-finishes j later no_limits n e = cc

  choose-finishes :
      (rounds : ℕ) (blocked : List ℕ)
      → length (keep (open_to others now blocked) jobs) < rounds
      → ¬ (choose others now limits jobs rounds blocked ≡ unfinished)
  unfolding choose
  choose-finishes zero blocked h = λ e. ground arith
  choose-finishes (suc rounds) blocked h =
      go (choose-finishes rounds) (candidate others now blocked jobs) refl
    where
      go :
          ((blocked : List ℕ)
            → length (keep (open_to others now blocked) jobs) < rounds
            → ¬ (choose others now limits jobs rounds blocked ≡ unfinished))
          → (c : Option Job) → candidate others now blocked jobs ≡ c
          → ¬ (
              take_candidate others limits jobs
                (λ owner. choose others now limits jobs rounds (owner ∷ blocked))
                c
              ≡ unfinished)
      go next none e = λ u. cc
      go next (some j) e =
          settle-finishes j (choose others now limits jobs rounds (j.owner_id ∷ blocked))
            (verdict others limits jobs j)
            (next (j.owner_id ∷ blocked) (omega (arith, fewer-open others now jobs blocked j e)))

  -- The loop of a claim always comes to an end: in as many rounds as there are jobs and one more, it has
  -- chosen a job, found that there is nothing to do, or met an owner without limits.
  pub choose_job_terminates : ¬ (choose_job others now limits jobs ≡ unfinished)
  unfolding choose_job
  choose_job_terminates =
      choose-finishes (suc (length jobs)) []
        (omega (arith, length-keep (open_to others now []) jobs))

  verdict-owner :
      (j k : Job)
      → j.owner_id ≡ k.owner_id
      → is_free (verdict others limits jobs j) ≡ is_free (verdict others limits jobs k)
  unfolding verdict
  verdict-owner j k e =
      ap
        (λ o.
          is_free (
            if others.owner_locked o then blocked_owner else place_for o (limits_of o limits) jobs))
        e

  -- Blocking an owner without a free place passes over no job that could be taken.
  same-takes :
      (blocked : List ℕ) (j : Job)
      → is_free (verdict others limits jobs j) ≡ false
      → (k : Job)
      → (open_to others now (j.owner_id ∷ blocked) k && is_free (verdict others limits jobs k))
        ≡ (open_to others now blocked k && is_free (verdict others limits jobs k))
  same-takes blocked j f k = elim (Bool-cases (j.owner_id == k.owner_id)) [
    | inl t ↦ let r = sym (verdict-owner j k (==→eq _ _ t)) ∙ f in ground (arith, r)
    | inr n ↦ ground (arith, n)
  ]

  settle-nothing :
      (j : Job) (later : Choice) (v : Verdict)
      → settle j later v ≡ nothing_to_do
      → (later ≡ nothing_to_do) × (is_free v ≡ false)
  settle-nothing j later free h = cc
  settle-nothing j later blocked_owner h = (h, refl)
  settle-nothing j later no_limits h = cc

  left-none :
      (rounds : ℕ) (blocked : List ℕ)
      → choose others now limits jobs rounds blocked ≡ nothing_to_do
      → any (λ k. open_to others now blocked k && is_free (verdict others limits jobs k)) jobs
        ≡ false
  unfolding choose
  left-none zero blocked = λ h. cc
  left-none (suc rounds) blocked = go (left-none rounds) (candidate others now blocked jobs) refl
    where
      go :
          ((blocked : List ℕ)
            → choose others now limits jobs rounds blocked ≡ nothing_to_do
            → any (λ k. open_to others now blocked k && is_free (verdict others limits jobs k)) jobs
              ≡ false)
          → (c : Option Job) → candidate others now blocked jobs ≡ c
          → take_candidate others limits jobs
              (λ owner. choose others now limits jobs rounds (owner ∷ blocked))
              c
            ≡ nothing_to_do
          → any (λ k. open_to others now blocked k && is_free (verdict others limits jobs k)) jobs
            ≡ false
      go next none e h =
          any-weaker (open_to others now blocked) (λ k. is_free (verdict others limits jobs k)) jobs
            (candidate-none others now jobs blocked e)
      go next (some j) e h =
          let (r, f) =
            settle-nothing j (choose others now limits jobs rounds (j.owner_id ∷ blocked))
              (verdict others limits jobs j) h in
          sym (any-same _ _ (same-takes blocked j f) jobs) ∙ next (j.owner_id ∷ blocked) r

  -- When a claim finds nothing to do, no claimable job is left whose owner is unlocked, has limits and
  -- runs fewer jobs than they allow.
  pub no_place_left :
      choose_job others now limits jobs ≡ nothing_to_do
      → any (λ k. claimable others now k && is_free (verdict others limits jobs k)) jobs ≡ false
  unfolding choose_job
  no_place_left h = sym (any-same _ _ (λ k. ground arith) jobs) ∙ left-none (suc (length jobs)) [] h

  settle-chosen :
      (j k : Job) (later : Choice) (v : Verdict)
      → settle j later v ≡ chosen k
      → (later ≡ chosen k) ⊎ ((is_free v ≡ true) × (j ≡ k))
  settle-chosen j k later free h = inr (refl, cc)
  settle-chosen j k later blocked_owner h = inl h
  settle-chosen j k later no_limits h = cc

  choose-fits :
      (rounds : ℕ) (blocked : List ℕ) (k : Job)
      → choose others now limits jobs rounds blocked ≡ chosen k
      → (claimable others now k ≡ true) × (is_free (verdict others limits jobs k) ≡ true)
  unfolding choose
  choose-fits zero blocked k = λ h. cc
  choose-fits (suc rounds) blocked k =
      go (choose-fits rounds) (candidate others now blocked jobs) refl
    where
      go :
          ((blocked : List ℕ) (k : Job)
            → choose others now limits jobs rounds blocked ≡ chosen k
            → (claimable others now k ≡ true) × (is_free (verdict others limits jobs k) ≡ true))
          → (c : Option Job) → candidate others now blocked jobs ≡ c
          → take_candidate others limits jobs
              (λ owner. choose others now limits jobs rounds (owner ∷ blocked))
              c
            ≡ chosen k
          → (claimable others now k ≡ true) × (is_free (verdict others limits jobs k) ≡ true)
      go next none e h = cc
      go next (some j) e h =
          elim (settle-chosen j k (choose others now limits jobs rounds (j.owner_id ∷ blocked))
            (verdict others limits jobs j) h) [
              | inl later ↦ next (j.owner_id ∷ blocked) k later
              | inr (f, same) ↦
                  let o = candidate-open others now jobs blocked j e in
                  subst
                    (λ x.
                      (claimable others now x ≡ true)
                      × (is_free (verdict others limits jobs x) ≡ true))
                    same (ground arith, f)
            ]

  free-place :
      (owner : ℕ) (m : Option OwnerLimits)
      → is_free (place_for owner m jobs) ≡ true
      → (l : OwnerLimits) × (m ≡ some l) × (active_of owner jobs < l.max_provider_concurrency)
  free-place owner none h = cc
  free-place owner (some l) h = (l, refl, ground (arith, h))

  -- A job that is chosen is claimable, pending, due, not asked to cancel, with attempts left and not
  -- locked, and its owner, whom no other transaction holds, runs fewer jobs than its limits allow.
  pub chosen_job_fits :
      (k : Job)
      → choose_job others now limits jobs ≡ chosen k
      → (claimable others now k ≡ true)
        × (others.owner_locked k.owner_id ≡ false)
        × (l : OwnerLimits) × (limits_of k.owner_id limits ≡ some l)
        × (active_of k.owner_id jobs < l.max_provider_concurrency)
  unfolding choose_job verdict
  chosen_job_fits k h =
      let (c, f) = choose-fits (suc (length jobs)) [] k h in
      elim (Bool-cases (others.owner_locked k.owner_id)) [
        | inl t ↦
            let locked =
              sym (
                ap is_free (
                  if-true (others.owner_locked k.owner_id) blocked_owner
                    (place_for k.owner_id (limits_of k.owner_id limits) jobs) t))
              ∙ f in
            cc
        | inr n ↦
            let place =
              sym (
                ap is_free (
                  if-false (others.owner_locked k.owner_id) blocked_owner
                    (place_for k.owner_id (limits_of k.owner_id limits) jobs) n))
              ∙ f in
            let (l, found, room) = free-place k.owner_id (limits_of k.owner_id limits) place in
            (c, n, l, found, room)
      ]
