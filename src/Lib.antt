-- ===== src/Lib.antt =====
-- Models and theorems of the backend of Reading Companion, a reader that answers questions on a book
-- without telling what the reader has not reached yet. A reader reports a position in the text; the
-- frontier turns it into the ordinal of the last chapter read, the bookmark; the catalog keeps the
-- bookmark as a high-water mark; every question is answered from the facts of the book that the
-- memory holds, filtered at that bookmark.
--
-- Prelude: Boolean tests, lists, strings, errors and state over the native numbers.
-- Frontier: backend/app/reader/frontier.py. Chapter bounds from the atoms of a book, the alignment
--   check, and the maps from an offset to a bookmark, a chapter and a fraction, and the sub-chapter rule,
--   whose two offsets are such fractions. A fraction is an exact pair of numerator and denominator.
-- Memory: backend/app/memory/dal.py and its schema memory.sql. Rows are the tables; Select is the
--   funnel `_select` with its spoiler clause; Views is BookmarkView, one function per read; Session is
--   the connection with its guards, the write scope `_WriterCtx` and the outer `_TransactionCtx`, a
--   SQLite connection being the pair of committed and working tables; Writers holds the calls that
--   write facts, on the brute-force backend; Completion is the markers of ingested chapters. That
--   SQLite raises on BEGIN, commit or rollback is up to an environment, over which the theorems quantify.
-- Catalog: backend/app/catalog/catalog.py and catalog.sql. Rows are the tables; Shelf, Position, Costs
--   and Settling hold the calls; each is the body of one locked transaction that returns the tables
--   to commit or raises, and `settled` is the rollback. Calls puts the calls in sequence, which is how
--   the lock orders them.
-- Reading: the position routes of backend/app/api/reading.py, composed of the catalog and the frontier.
-- AtomManifest: backend/app/ingest/manifest.py. The manifest of a book as it is built, loaded, turned
--   into bounds by the frontier and compared with the memory; the digest of a text is a parameter.
-- Limits: the pricing of backend/app/cost/limits.py, with its tests on model names as parameters;
--   Split is the splitting of a chapter for a prompt, on fuel for every character, and the merging of
--   its extractions.
-- Jobs: the job queue of backend/app/hosted/jobs.py and what backend/app/hosted/tenant/repository.py
--   does to a job. Rows are the tables, a job with its attempts; Lease holds the calls of a worker on
--   the locked row of its job, Claim the recovery of expired leases and the choice of a job, Owner the
--   requests of its owner, Spend, Library and Commit the reservation of costs and the commit of a
--   chapter, Worker the round of backend/app/hosted/worker.py that makes these calls around a handler,
--   which may also end by a BaseException.
--   The rows and advisory locks that other transactions hold are a parameter. The loop of a claim runs
--   on fuel, one round more than there are jobs, and Fair shows that this is enough.
-- Passages: backend/app/retrieval_passages.py. The overlapping windows of a text, on fuel for every
--   character, and the batches that go to the embedding provider; which characters are white space,
--   how many bytes a text takes and the provider are parameters.
-- Preparation: the question plan of backend/app/preparation_plan.py. Order is `diverse_order`; the key of
--   a question, `strip` and `len` are parameters, and a model reply has the types of its schema.
-- Selection: backend/app/ask_selection.py. The pool of candidates, the check of a model's choice and the
--   sources it returns.
-- Recaps: RecapRegistry of backend/app/lifecycle_cache.py, its maps and, in Flights, the steps of
--   threads.
--
-- Ordinals, offsets, counts and ticks are natural numbers; where the source tests the range of a
-- SQLite integer, the model tests it against 2 ** 63. Amounts in USD are exact natural numbers, so
-- what floats round is left out. But for the loops of a claim, of the windows and of a split, whose
-- fuel is shown to be enough, every loop is a recursion on a list. Fresh identifiers and instants are
-- arguments. The tables of SQLite are lists in the order of their primary key, and the constraints
-- that the calls rely on are tests of the model.
--
-- Not modelled: full-text search, vectors and the vec0 index; the language model and what it extracts;
-- the ingestion worker, the segmentation of an .epub file, correction, the checkpoint file of the
-- recap registry, archives, the frontend, and of the hosted mode all but its job queue: its audit
-- events, credentials, routes and object store. The file of a manifest is a value that a caller
-- gives. Names are compared as strings, whose normalisation is left out, and `update_book_metadata`
-- with it. The budgeted provider calls of backend/app/cost/limits.py are left out, and so are the chunks and embedding pins of the memory.
pub mod AtomManifest
pub mod Catalog
pub mod Frontier
pub mod Jobs
pub mod Limits
pub mod Memory
pub mod Passages
pub mod Prelude
pub mod Preparation
pub mod Reading
pub mod Recaps
pub mod Selection
