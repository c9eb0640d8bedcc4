-- ===== src/Jobs/Commit.antt =====
-- `commit_chapter` of backend/app/hosted/jobs.py: a chapter, its summary, its cost and its receipt in
-- one transaction. The unique indexes of backend/app/hosted/schema/0002_library_memory_and_vectors.sql
-- and 0003_jobs_costs_credentials_and_notes.sql that the inserts can meet are written out.
use reading_companion.Prelude.{
  ℕ, ◌+◌, Bool, true, false, not, ◌&&◌, ◌||◌, Option, none, some, List, [], ◌∷◌, ◌++◌, map, str_eq,
  ◌==◌, any, find, keep, total, if◌then◌else◌, Result, ok, err, ◌>>◌, ◌>>=◌, require,
}
use reading_companion.Jobs.Rows.{
  Job, ClaimedJob, JobError, is_unset, constraint_violated, lost_lease, job_idempotency,
  spend_limit_exceeded, spend_reservation_required,
}
use reading_companion.Jobs.Lease.{locked_lease}
use reading_companion.Jobs.Spend.{
  CostEntry, Booking, Costs, settled, keyed, held, is_reserved, ledger_usd, under_ceiling,
  limit_policy, eligible,
}
use reading_companion.Jobs.Library.{Chapter, Summary, Receipt, Library, ChapterCommit}

module _ (owner : ℕ) (a : ChapterCommit) where
  abbrev pub of_book : ℕ → ℕ → ℕ → Bool
  of_book o book incarnation = o == owner && book == a.book_id && incarnation == a.book_incarnation

  abbrev pub is_receipt : Receipt → Bool
  is_receipt r = of_book r.owner_id r.book_id r.book_incarnation && r.chapter_id == a.chapter_id

  abbrev pub has_key : Chapter → Bool
  has_key c = of_book c.owner_id c.book_id c.book_incarnation && str_eq c.chapter_key a.chapter_key

  -- the primary key, and `ux_chapters_owner_live_ordinal`
  abbrev pub chapter_taken : Chapter → Bool
  chapter_taken c =
      of_book c.owner_id c.book_id c.book_incarnation
      && (c.id == a.chapter_id || (c.revealed_at == a.ordinal && is_unset c.retracted_at))

  -- `ux_summaries_owner_live`
  abbrev pub summary_taken : Summary → Bool
  summary_taken s =
      of_book s.owner_id s.book_id s.book_incarnation
      && s.source_chapter_id == a.chapter_id
      && str_eq s.kind "chapter"
      && is_unset s.retracted_at

  abbrev pub cost_taken : CostEntry → Bool
  cost_taken e = e.owner_id == owner && str_eq e.idempotency_key a.cost_idempotency_key

  abbrev pub others_held : Booking → Booking → Bool
  others_held r b = held owner b && not (b.id == r.id)

  -- the owner's usage without one reservation
  abbrev pub other_usage : Booking → Costs → ℕ
  other_usage r c =
      ledger_usd owner c.cost_ledger
      + total (λ (b : Booking). b.reserved_usd) (keep (others_held r) c.cost_reservations)

  abbrev pub matches : Booking → Bool
  matches r =
      str_eq r.phase "extraction"
      && str_eq r.provider a.provider
      && str_eq r.model a.model
      && is_reserved r.state

  -- the reservation and the ceiling that the commit must meet
  abbrev pub check_booking : Option ℕ → Option Booking → Costs → Result JobError (Unit {0})
  check_booking none none c = ok tt
  check_booking (some ceiling) none c = err spend_reservation_required
  check_booking ceiling (some r) c = do
    require (matches r) job_idempotency
    require (under_ceiling ceiling (other_usage r c + a.usd)) spend_limit_exceeded

  abbrev pub settle_booking : (now : ℕ) → Booking → Booking → Booking
  settle_booking now r b =
      if b.owner_id == owner && b.id == r.id && is_reserved b.state
      then record b {
        state = settled;
        actual = some (record {
          input_tokens = a.input_tokens;
          output_tokens = a.output_tokens;
          usd = a.usd;
          settled_at = now;
        });
      }
      else b

  abbrev pub settle_all : (now : ℕ) → Option Booking → List Booking → List Booking
  settle_all now none bookings = bookings
  settle_all now (some r) bookings = map (settle_booking now r) bookings

  abbrev pub same_chapter : Chapter → Bool
  same_chapter c =
      c.id == a.chapter_id && c.revealed_at == a.ordinal && str_eq c.content_hash a.content_hash

  abbrev pub new_chapter : Chapter
  new_chapter = record {
    owner_id = owner;
    book_id = a.book_id;
    book_incarnation = a.book_incarnation;
    id = a.chapter_id;
    chapter_key = a.chapter_key;
    revealed_at = a.ordinal;
    title = a.chapter_key;
    content_hash = a.content_hash;
    extractor_version = a.extractor_version;
    retracted_at = none;
  }

  abbrev pub write_chapter : Option Chapter → List Chapter → Result JobError (List Chapter)
  write_chapter none rows = do
    require (not (any chapter_taken rows)) constraint_violated
    ok (rows ++ (new_chapter ∷ []))
  write_chapter (some c) rows = do require (same_chapter c) job_idempotency; ok rows

  abbrev pub new_summary : Summary
  new_summary = record {
    owner_id = owner;
    book_id = a.book_id;
    book_incarnation = a.book_incarnation;
    source_chapter_id = a.chapter_id;
    kind = "chapter";
    summary = a.summary;
    revealed_at = a.ordinal;
    extractor_version = a.extractor_version;
    retracted_at = none;
  }

  abbrev pub new_cost : (job : ℕ) → CostEntry
  new_cost job = record {
    owner_id = owner;
    book_id = a.book_id;
    book_incarnation = a.book_incarnation;
    job_id = job;
    chapter_ordinal = a.ordinal;
    phase = "extraction";
    provider = a.provider;
    model = a.model;
    input_tokens = a.input_tokens;
    output_tokens = a.output_tokens;
    usd = a.usd;
    idempotency_key = a.cost_idempotency_key;
  }

  abbrev pub new_receipt : (now : ℕ) → Receipt
  new_receipt now = record {
    owner_id = owner;
    book_id = a.book_id;
    book_incarnation = a.book_incarnation;
    chapter_id = a.chapter_id;
    content_hash = a.content_hash;
    extractor_model = a.model;
    input_tokens = a.input_tokens;
    output_tokens = a.output_tokens;
    usd = a.usd;
    completed_at = now;
  }

  abbrev pub booking_for : Costs → Option Booking
  booking_for c = find (keyed owner a.cost_idempotency_key) c.cost_reservations

  abbrev pub charged : (now job : ℕ) → Costs → Costs
  charged now job c = record c {
    cost_ledger = c.cost_ledger ++ (new_cost job ∷ []);
    cost_reservations = settle_all now (booking_for c) c.cost_reservations;
  }

  -- the writes for a chapter without a receipt
  unfoldable pub write_commit : (now job : ℕ) → Library → Result JobError (Bool × Library)
  write_commit now job lib = do
    l ← limit_policy owner lib.costs.owner_limits
    check_booking l.max_spend_usd (booking_for lib.costs) lib.costs
    rows ← write_chapter (find has_key lib.chapters) lib.chapters
    require (not (any summary_taken lib.summaries)) constraint_violated
    require (not (any cost_taken lib.costs.cost_ledger)) constraint_violated
    ok (
      true,
      record lib {
        costs = charged now job lib.costs;
        chapters = rows;
        summaries = lib.summaries ++ (new_summary ∷ []);
        receipts = lib.receipts ++ (new_receipt now ∷ []);
        events = lib.events ++ (a.chapter_id ∷ []);
      },
    )

  abbrev pub commit_once :
      (now job : ℕ) → Library → Option Receipt → Result JobError (Bool × Library)
  commit_once now job lib none = write_commit now job lib
  commit_once now job lib (some r) = do
    require (str_eq r.content_hash a.content_hash) job_idempotency
    ok (false, lib)

module _ (digest : ℕ → ℕ) (now : ℕ) where
  unfoldable pub commit_chapter :
      ClaimedJob → ChapterCommit → Job → Library → Result JobError (Bool × Library)
  commit_chapter claim a j lib = do
    require (claim.book_id == a.book_id && claim.book_incarnation == a.book_incarnation)
        job_idempotency
    locked_lease digest now claim j
    require (eligible j) lost_lease
    commit_once claim.owner_id a now claim.job_id lib
        (find (is_receipt claim.owner_id a) lib.receipts)
