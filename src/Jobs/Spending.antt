-- ===== src/Jobs/Spending.antt =====
-- Reservations and chapter commits of backend/app/hosted/jobs.py in any sequence, under an owner's limit.
use reading_companion.Prelude.{ℕ, ◌≡◌, Bool, ok}
use reading_companion.Jobs.Rows.{Job, ClaimedJob}
use reading_companion.Jobs.Spend.{Costs, SpendRequest, reserve_spend}
use reading_companion.Jobs.Library.{ChapterCommit, Library}
use reading_companion.Jobs.Commit.{commit_chapter}
use reading_companion.Jobs.Ceiling.{IsWithin, reserve_spend-IsWithin, commit_chapter-IsWithin}

-- One reservation or chapter commit that returns, of any owner, for any job, at any instant.
pub data Spending (digest : ℕ → ℕ) : Library → Library → Type 0 where
  spending_reserve :
      {lib : Library} {c' : Costs} (now : ℕ) (claim : ClaimedJob) (q : SpendRequest) (id id' : ℕ)
      (j : Job)
      → reserve_spend digest now claim q id j lib.costs ≡ ok (id', c')
      → Spending digest lib (record lib { costs = c' })
  spending_commit :
      {lib lib' : Library} (now : ℕ) (claim : ClaimedJob) (a : ChapterCommit) (j : Job) (b : Bool)
      → commit_chapter digest now claim a j lib ≡ ok (b, lib')
      → Spending digest lib lib'

pub data Spendings (digest : ℕ → ℕ) (lib : Library) : Library → Type 0 where
  nothing_spent : Spendings digest lib lib
  then_spends :
      {k l : Library} → Spendings digest lib k → Spending digest k l → Spendings digest lib l

-- An owner whose limits set a ceiling, and whose ledger and open reservations are under it, stays under
-- it after any sequence of reservations and chapter commits that return, its own and those of others:
-- what a commit really cost may exceed its reservation, but not the ceiling.
pub spend_never_exceeds :
    (owner ceiling : ℕ) (digest : ℕ → ℕ) {lib lib' : Library}
    → Spendings digest lib lib'
    → IsWithin owner ceiling lib.costs
    → IsWithin owner ceiling lib'.costs
spend_never_exceeds owner ceiling digest Spendings.nothing_spent w = w
spend_never_exceeds owner ceiling digest
      (Spendings.then_spends s (Spending.spending_reserve {lib} {c'} now claim q id id' j h)) w =
    reserve_spend-IsWithin owner ceiling lib.costs (spend_never_exceeds owner ceiling digest s w)
      digest now claim q id id' j c' h
spend_never_exceeds owner ceiling digest
      (Spendings.then_spends s (Spending.spending_commit {lib} {lib'} now claim a j b h)) w =
    commit_chapter-IsWithin owner ceiling lib (spend_never_exceeds owner ceiling digest s w) a now
      digest claim j b lib' h
