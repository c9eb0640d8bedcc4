-- ===== src/Memory/Session/Guards.antt =====
-- The guards of a read: what `_select` answers on every connection and bookmark.
use reading_companion.Prelude.{
  ◌≡◌, Option, none, some, Result, ok, err, ◌==◌, if◌then◌else◌, ℤ, arith,
}
use reading_companion.Memory.Rows.{Tables}
use reading_companion.Memory.Session.{
  MemoryError, Connection, Environment, Value, as_ordinal, view_read, raw_read, connection_poisoned,
  outside_session, not_an_ordinal, read_through_view,
}

abbrev pub answer :
    {A : Type 0} → Environment → Option ℤ → (ℤ → Tables → A) → Connection → Result MemoryError A
answer env bookmark query c =
    if c.poisoned
    then err connection_poisoned
    else if c.active_owner == env.thread
    then elim bookmark [ none ↦ err not_an_ordinal | some b ↦ ok (query b c.working) ]
    else err outside_session

module _ (env : Environment) {A : Type 0} (bookmark : Value) (query : ℤ → Tables → A)
    (c : Connection) where
  -- `_select` fails closed: on a poisoned connection, off its session's thread or with a bookmark
  -- that is not an int it raises, in that order, and otherwise it answers from the working tables
  -- without being denied by the authorizer. It never changes the connection, so a raw read of a
  -- fact table right after it is allowed or denied as it was before. A read through a new view does
  -- the same, but raises for a bookmark that is not an int before the other two tests.
  pub view_read_guarded :
      (raw : Tables → A)
      → (view_read env bookmark query c ≡ (answer env (as_ordinal bookmark) query c, c))
        × (raw_read env raw (view_read env bookmark query c).1 ≡ raw_read env raw c)
        × (read_through_view env bookmark query c ≡ (
          elim (as_ordinal bookmark) [
            | none ↦ err not_an_ordinal
            | some b ↦ answer env (some b) query c
          ],
          c,
        ))
  unfolding view_read read_through_view
  view_read_guarded raw = ground arith
