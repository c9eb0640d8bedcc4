-- ===== src/Memory/Session/Closes.antt =====
-- What a transaction leaves behind: the flags, the working tables and the poison.
use reading_companion.Prelude.{
  true, ◌≡◌, arith, ℤ, Result, ◌∙◌, false, err, ok, ◌⊎◌, refl, inl, inr, Value,
}
use reading_companion.Memory.Rows.{Tables}
use reading_companion.Memory.Session.{
  Connection, Environment, Session, Body, writer, view_read, MemoryError, transaction_exit,
  transaction, connection_poisoned, assert_in_session,
}
use reading_companion.Memory.Session.Atomic.{
  IsNested, begun, transaction_cases, transaction_refused, refuses_poisoned,
}

module _ (env : Environment) {A : Type 0} where
  exit_closes :
      (r : Result MemoryError A) (c' : Connection)
      → ((transaction_exit env r c').1.transaction_active ≡ false)
        × ((transaction_exit env r c').1.transaction_failed ≡ false)
        × ((transaction_exit env r c').1.engaged ≡ c'.engaged)
        × (((transaction_exit env r c').1.poisoned ≡ true)
            ⊎ ((transaction_exit env r c').1.working ≡ (transaction_exit env r c').1.committed))
  unfolding transaction_exit
  exit_closes (err e) c' = ground arith
  exit_closes (ok a) c' = ground arith

module _ (env : Environment) {A : Type 0} where
  writer_refused :
      (c : Connection) (scope : Body A)
      → c.poisoned ≡ true
      → writer env scope c ≡ (err connection_poisoned, c)
  unfolding writer assert_in_session
  writer_refused c scope h = ground arith

  read_refused :
      (c : Connection) (bookmark : Value) (query : ℤ → Tables → A)
      → c.poisoned ≡ true
      → view_read env bookmark query c ≡ (err connection_poisoned, c)
  unfolding view_read assert_in_session
  read_refused c bookmark query h = ground arith

-- Every call of a session raises that the connection is poisoned.
pub IsRefusing :
    {A : Type 0} → Environment → Body A → Value → (ℤ → Tables → A) → Session A → Connection → Type 0
IsRefusing env scope bookmark query next c =
    (writer env scope c ≡ (err connection_poisoned, c))
    × (view_read env bookmark query c ≡ (err connection_poisoned, c))
    × (transaction env next c ≡ (err connection_poisoned, c))

poisoned-IsRefusing :
    {A : Type 0} (env : Environment) (scope : Body A) (bookmark : Value) (query : ℤ → Tables → A)
    (next : Session A) (c : Connection)
    → c.poisoned ≡ true
    → IsRefusing env scope bookmark query next c
unfolding IsRefusing
poisoned-IsRefusing env scope bookmark query next c h = (
  writer_refused env c scope h,
  read_refused env c bookmark query h,
  transaction_refused env next c connection_poisoned (refuses_poisoned env c h),
)

-- Take a connection with no transaction open and no failure noted, whose working tables are the
-- committed ones, and a body composed of the data layer's write scopes and reads. Whatever SQLite does
-- to BEGIN, commit and rollback, the transaction ends with its two flags cleared and the guard flag as
-- it found it. Then either the working tables are the committed ones again, or the connection is
-- poisoned, and every later write scope, view read and transaction on it raises, on any thread and
-- whatever SQLite would do, and leaves it as it is.
pub transaction_closes :
    {A B : Type 0} (env later_env : Environment) (body : Session A) (c : Connection)
    (scope : Body B) (bookmark : Value) (query : ℤ → Tables → B) (next : Session B)
    → IsNested body
    → c.transaction_active ≡ false
    → c.transaction_failed ≡ false
    → c.working ≡ c.committed
    → ((transaction env body c).1.transaction_active ≡ false)
      × ((transaction env body c).1.transaction_failed ≡ false)
      × ((transaction env body c).1.engaged ≡ c.engaged)
      × (IsRefusing later_env scope bookmark query next (transaction env body c).1
          ⊎ ((transaction env body c).1.working ≡ (transaction env body c).1.committed))
transaction_closes env later_env body c scope bookmark query next nested idle unfailed synced =
    elim (transaction_cases env body c idle) [
      | inl (e, refused) ↦ rw refused (idle, unfailed, refl, inr synced)
      | inr ran ↦
          let (active, failed, engaged, tables) =
            exit_closes env (body (begun c)).0 (body (begun c)).1 in
          rw ran (
            active,
            failed,
            engaged ∙ nested.engaged (begun c) refl,
            elim tables [
              | inl p ↦ inl (poisoned-IsRefusing later_env scope bookmark query next _ p)
              | inr same ↦ inr same
            ],
          )
    ]
