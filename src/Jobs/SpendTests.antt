-- ===== src/Jobs/SpendTests.antt =====
-- A chapter whose extraction is reserved, retried and committed, under a spend limit.
use reading_companion.Prelude.{ℕ, ◌≡◌, refl, true, false, none, some, [], ◌∷◌, ok, arith, ℤ}
use reading_companion.Jobs.Rows.{Job, ClaimedJob, running}
use reading_companion.Jobs.Lease.{locked_lease}
use reading_companion.Jobs.Claim.{limits_of}
use reading_companion.Jobs.Spend.{
  Costs, SpendRequest, reserve_spend, usage, reserved, settled, Booking,
}
use reading_companion.Jobs.Library.{ChapterCommit, Library}
use reading_companion.Jobs.Commit.{commit_chapter, write_commit}
use reading_companion.Jobs.Ceiling.{IsWithin}
use reading_companion.Jobs.Spending.{Spending, Spendings, spend_never_exceeds}
use reading_companion.Jobs.Retry.{commit_chapter_retried, attempt_of}

abbrev digest : ℕ → ℕ
digest token = token

abbrev claim : ClaimedJob
claim = record {
  owner_id = 1;
  job_id = 7;
  book_id = 3;
  book_incarnation = 4;
  kind = "ingest_book";
  attempt_no = 1;
  worker_id = "worker-1";
  lease_token = 55;
  credential_id = some 9;
}

abbrev at_work : Job
at_work = record {
  owner_id = 1;
  job_id = 7;
  book_id = 3;
  book_incarnation = 4;
  credential_id = some 9;
  kind = "ingest_book";
  state = running;
  priority = 0;
  run_after = 10;
  created_at = 10;
  attempt_count = 1;
  max_attempts = 2;
  cancellation_requested_at = none;
  completed_at = none;
  updated_at = 30;
  sanitized_error = none;
  attempts =
      record {
        attempt_no = 1;
        worker_id = "worker-1";
        lease_token_digest = 55;
        leased_at = 20;
        lease_expires_at = 120;
        heartbeat_at = 30;
        started_at = some 30;
        finished_at = none;
        outcome = none;
        sanitized_error = none;
      }
      ∷ [];
}

abbrev pub no_costs : Costs
no_costs = record {
  owner_limits =
      record { owner_id = 1; max_provider_concurrency = 1; max_spend_usd = some 100 } ∷ [];
  cost_ledger = [];
  cost_reservations = [];
}

abbrev pub request : SpendRequest
request = record {
  phase = "extraction";
  provider = "openai";
  model = "m";
  reserved_input_tokens = ℤ.pos 10;
  reserved_output_tokens = ℤ.pos 5;
  reserved_usd = ℤ.pos 60;
  idempotency_key = "k";
}

abbrev booking : Booking
booking = record {
  owner_id = 1;
  id = 8;
  book_id = 3;
  book_incarnation = 4;
  job_id = 7;
  phase = "extraction";
  provider = "openai";
  model = "m";
  reserved_input_tokens = 10;
  reserved_output_tokens = 5;
  reserved_usd = 60;
  state = reserved;
  idempotency_key = "k";
  actual = none;
}

abbrev booked : Costs
booked = record no_costs { cost_reservations = booking ∷ [] }

abbrev pub chapter : ChapterCommit
chapter = record {
  book_id = 3;
  book_incarnation = 4;
  chapter_id = 11;
  chapter_key = "c1";
  ordinal = 1;
  content_hash = "h";
  summary = "s";
  extractor_version = "v";
  provider = "openai";
  model = "m";
  input_tokens = 9;
  output_tokens = 4;
  usd = 70;
  cost_idempotency_key = "k";
}

abbrev pub library : Library
library = record { costs = no_costs; chapters = []; summaries = []; receipts = []; events = [] }

abbrev library_booked : Library
library_booked = record library { costs = booked }

-- the commit costs more than its reservation, and stays under the limit
abbrev committed : Library
committed = record {
  costs = record booked {
    cost_ledger =
        record {
          owner_id = 1;
          book_id = 3;
          book_incarnation = 4;
          job_id = 7;
          chapter_ordinal = 1;
          phase = "extraction";
          provider = "openai";
          model = "m";
          input_tokens = 9;
          output_tokens = 4;
          usd = 70;
          idempotency_key = "k";
        }
        ∷ [];
    cost_reservations =
        record booking {
          state = settled;
          actual = some (record { input_tokens = 9; output_tokens = 4; usd = 70; settled_at = 50 });
        }
        ∷ [];
  };
  chapters =
      record {
        owner_id = 1;
        book_id = 3;
        book_incarnation = 4;
        id = 11;
        chapter_key = "c1";
        revealed_at = 1;
        title = "c1";
        content_hash = "h";
        extractor_version = "v";
        retracted_at = none;
      }
      ∷ [];
  summaries =
      record {
        owner_id = 1;
        book_id = 3;
        book_incarnation = 4;
        source_chapter_id = 11;
        kind = "chapter";
        summary = "s";
        revealed_at = 1;
        extractor_version = "v";
        retracted_at = none;
      }
      ∷ [];
  receipts =
      record {
        owner_id = 1;
        book_id = 3;
        book_incarnation = 4;
        chapter_id = 11;
        content_hash = "h";
        extractor_model = "m";
        input_tokens = 9;
        output_tokens = 4;
        usd = 70;
        completed_at = 50;
      }
      ∷ [];
  events = 11 ∷ [];
}

reserve_run : reserve_spend digest 40 claim request 8 at_work no_costs ≡ ok (8, booked)
unfolding reserve_spend locked_lease limits_of usage
reserve_run = refl

commit_run : commit_chapter digest 50 claim chapter at_work library_booked ≡ ok (true, committed)
unfolding commit_chapter write_commit locked_lease limits_of usage
commit_run = refl

spent : Spendings digest library committed
spent =
    Spendings.then_spends
      (Spendings.then_spends Spendings.nothing_spent
        (Spending.spending_reserve 40 claim request 8 8 at_work reserve_run))
      (Spending.spending_commit 50 claim chapter at_work true commit_run)

start-IsWithin : IsWithin 1 100 library.costs
unfolding limits_of usage
start-IsWithin = record {
  limits = record { owner_id = 1; max_provider_concurrency = 1; max_spend_usd = some 100 };
  current = refl;
  capped = refl;
  within = omega arith;
}

spend_never_exceeds_example : IsWithin 1 100 committed.costs
spend_never_exceeds_example = spend_never_exceeds 1 100 digest spent start-IsWithin

-- the second attempt of the job, by another worker
abbrev second_work : Job
second_work = record at_work {
  attempt_count = 2;
  attempts =
      record {
        attempt_no = 2;
        worker_id = "worker-2";
        lease_token_digest = 66;
        leased_at = 210;
        lease_expires_at = 310;
        heartbeat_at = 220;
        started_at = some 220;
        finished_at = none;
        outcome = none;
        sanitized_error = none;
      }
      ∷ [];
}

second_lease : locked_lease digest 230 (attempt_of claim 2 "worker-2" 66) second_work ≡ ok tt
unfolding locked_lease
second_lease = refl

commit_chapter_retried_example :
    commit_chapter digest 230 (attempt_of claim 2 "worker-2" 66) chapter second_work committed
    ≡ ok (false, committed)
commit_chapter_retried_example =
    commit_chapter_retried digest 50 claim chapter at_work library_booked committed true 230 2 66
      "worker-2" second_work second_lease refl commit_run
