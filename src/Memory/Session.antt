-- ===== src/Memory/Session.antt =====
-- The connection of backend/app/memory/dal.py: the session and authorizer guards, the write scope
-- `_WriterCtx` and the outer transaction `_TransactionCtx`. SQLite is the pair of the committed
-- tables and the working ones; that a BEGIN, a commit or a rollback raises is up to the
-- environment.
pub mod Atomic
pub mod Closes
pub mod Guards
use reading_companion.Prelude.{
  ℕ, String, Bool, true, false, Option, none, some, Result, ok, err, ◌==◌, if◌then◌else◌, ℤ, Value,
  int,
}
use reading_companion.Memory.Rows.{Tables}

pub data MemoryError : Type 0 where
  connection_poisoned outside_session not_authorized not_an_ordinal : MemoryError
  nested_transaction no_active_transaction rolled_back_after_nested_failure : MemoryError
  begin_failed commit_failed rollback_failed commit_and_rollback_failed : MemoryError
  integrity_error no_such_edge no_such_state : MemoryError
  unstamped_chunks stale_chunks embed_identity_mismatch : MemoryError

pub record Connection : Type 0 where
  pub book_id : String
  pub engaged : Bool
  pub transaction_active : Bool
  pub transaction_failed : Bool
  pub poisoned : Bool
  pub active_owner : ℕ
  pub committed : Tables
  pub working : Tables

-- the calling thread, and what SQLite does
pub record Environment : Type 0 where
  pub thread : ℕ
  pub begin_fails : Tables → Bool
  pub commit_fails : Tables → Bool
  pub rollback_fails : Tables → Bool

abbrev pub Session : Type 0 → Type 0
Session A = Connection → Result MemoryError A × Connection

-- the statements of one write scope; those before a raise have been executed
abbrev pub Body : Type 0 → Type 0
Body A = Tables → Result MemoryError A × Tables

abbrev pub as_ordinal : Value → Option ℤ
as_ordinal (int n) = some n
as_ordinal _ = none

module _ (env : Environment) where
  unfoldable pub assert_in_session : Session (Unit {0})
  assert_in_session c =
      if c.poisoned
      then (err connection_poisoned, c)
      else if c.active_owner == env.thread
      then (ok tt, c)
      else (err outside_session, c)

  unfoldable pub rollback_or_poison : Session (Unit {0})
  rollback_or_poison c =
      if env.rollback_fails c.working
      then (err rollback_failed, record c { poisoned = true })
      else (ok tt, record c { working = c.committed })

  -- after a failed commit
  recover : Result MemoryError (Unit {0}) × Connection → Result MemoryError (Unit {0}) × Connection
  recover (ok _, c) = (err commit_failed, c)
  recover (err _, c) = (err commit_and_rollback_failed, c)

  unfoldable pub commit : Session (Unit {0})
  unfolding rollback_or_poison recover
  commit c =
      if env.commit_fails c.working
      then recover (rollback_or_poison c)
      else (ok tt, record c { committed = c.working })

  module _ {A : Type 0} where
    -- the result of a scope, once its commit or rollback has answered
    abbrev concluded :
        Result MemoryError A
        → Result MemoryError (Unit {0}) × Connection
        → Result MemoryError A × Connection
    concluded r (ok _, c) = (r, c)
    concluded r (err e, c) = (err e, c)

    -- `_WriterCtx.__exit__`
    writer_exit : Result MemoryError A → Session A
    unfolding commit rollback_or_poison
    writer_exit (ok a) c = if c.transaction_active then (ok a, c) else concluded (ok a) (commit c)
    writer_exit (err e) c =
        if c.transaction_active
        then (err e, record c { transaction_failed = true })
        else concluded (err e) (rollback_or_poison c)

    run_body : Body A → Session A
    unfolding writer_exit
    run_body body c =
        let (r, tables) = body c.working in writer_exit r (record c { working = tables })

    -- the guard flag is put back on every way out
    abbrev disengage : Bool → Result MemoryError A × Connection → Result MemoryError A × Connection
    disengage prev (r, c) = (r, record c { engaged = prev })

    abbrev admitted :
        Result MemoryError (Unit {0}) × Connection → Session A → Result MemoryError A × Connection
    admitted (ok _, c) m = m c
    admitted (err e, c) m = (err e, c)

    -- `with self._writer(): …`
    unfoldable pub writer : Body A → Session A
    unfolding assert_in_session run_body
    writer body c =
        admitted (assert_in_session c)
          λ c'. disengage c'.engaged (run_body body (record c' { engaged = true }))

    -- a raw read of a fact table: the authorizer denies it outside a sanctioned scope
    unfoldable pub raw_read : (Tables → A) → Session A
    raw_read query c = if c.engaged then (ok (query c.working), c) else (err not_authorized, c)

    abbrev ordinal_read : Option ℤ → (ℤ → Tables → A) → Session A
    unfolding raw_read
    ordinal_read none query c = (err not_an_ordinal, c)
    ordinal_read (some b) query c =
        disengage c.engaged (raw_read (query b) (record c { engaged = true }))

    -- `_select` of a fact table with its guards
    unfoldable pub view_read : Value → (ℤ → Tables → A) → Session A
    unfolding assert_in_session raw_read
    view_read bookmark query c =
        admitted (assert_in_session c) (ordinal_read (as_ordinal bookmark) query)

    abbrev opened : Option ℤ → Session A → Session A
    opened none m c = (err not_an_ordinal, c)
    opened (some b) m c = m c

    -- `db.view(bookmark)` and one read on the view, whose constructor tests the bookmark first
    unfoldable pub read_through_view : Value → (ℤ → Tables → A) → Session A
    unfolding view_read
    read_through_view bookmark query = opened (as_ordinal bookmark) (view_read bookmark query)

    -- `_TransactionCtx.__exit__`
    abbrev end_transaction : Result MemoryError A × Connection → Result MemoryError A × Connection
    end_transaction (r, c) =
        (r, record c { transaction_active = false; transaction_failed = false })

    abbrev nested_outcome : Bool → A → Result MemoryError A
    nested_outcome true a = err rolled_back_after_nested_failure
    nested_outcome false a = ok a

    pub transaction_exit : Result MemoryError A → Session A
    unfolding commit rollback_or_poison
    transaction_exit (err e) c = end_transaction (concluded (err e) (rollback_or_poison c))
    transaction_exit (ok a) c = end_transaction (
        concluded (nested_outcome c.transaction_failed a)
          (if c.transaction_failed then rollback_or_poison c else commit c))

    in_transaction : Session A → Session A
    unfolding transaction_exit
    in_transaction body c =
        let (r, c') = body (record c { transaction_active = true; transaction_failed = false }) in
        transaction_exit r c'

    -- from `BEGIN IMMEDIATE` on; where it raises, nothing has changed
    begin : Session A → Session A
    unfolding in_transaction
    begin body c =
        if env.begin_fails c.working then (err begin_failed, c) else in_transaction body c

    -- `with self.transaction(): …`
    unfoldable pub transaction : Session A → Session A
    unfolding assert_in_session begin
    transaction body c =
        admitted (assert_in_session c)
          λ c'. if c'.transaction_active then (err nested_transaction, c') else begin body c'
