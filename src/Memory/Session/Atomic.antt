-- ===== src/Memory/Session/Atomic.antt =====
-- The outer transaction is all or nothing.
use reading_companion.Prelude.Exec.{◌>>=◌, pure, raise, resume}
use reading_companion.Prelude.{
  true, ◌≡◌, arith, ℤ, Result, ◌∙◌, false, err, ok, ◌⊎◌, Bool-cases, refl, inl, inr, ◌==◌, ap,
  if-true, if-false, if◌then◌else◌,
}
use reading_companion.Memory.Rows.{Tables}
use reading_companion.Memory.Session.{
  Connection, Environment, Session, Body, Value, writer, view_read, MemoryError, transaction_exit,
  transaction, rollback_failed, rolled_back_after_nested_failure, commit_and_rollback_failed,
  commit_failed, connection_poisoned, outside_session, assert_in_session, in_transaction, admitted,
  nested_transaction, begin, begin_failed,
}

-- Inside an open transaction `m` publishes nothing, ends nothing and forgets no failure.
pub record IsNested {A : Type 0} (m : Session A) : Type 0 where
  pub committed : (c : Connection) → c.transaction_active ≡ true → (m c).1.committed ≡ c.committed
  pub active : (c : Connection) → c.transaction_active ≡ true → (m c).1.transaction_active ≡ true
  pub failed :
      (c : Connection)
      → c.transaction_active ≡ true
      → c.transaction_failed ≡ true
      → (m c).1.transaction_failed ≡ true
  pub poisoned : (c : Connection) → c.transaction_active ≡ true → (m c).1.poisoned ≡ c.poisoned
  pub engaged : (c : Connection) → c.transaction_active ≡ true → (m c).1.engaged ≡ c.engaged

module _ (env : Environment) {A : Type 0} where
  pub IsNested-writer : (body : Body A) → IsNested (writer env body)
  unfolding writer
  IsNested-writer body = record {
    committed = λ c h. ground arith;
    active = λ c h. ground arith;
    failed = λ c h f. ground arith;
    poisoned = λ c h. ground arith;
    engaged = λ c h. ground arith;
  }

  pub IsNested-view_read :
      (bookmark : Value) (query : ℤ → Tables → A) → IsNested (view_read env bookmark query)
  unfolding view_read
  IsNested-view_read bookmark query = record {
    committed = λ c h. ground arith;
    active = λ c h. ground arith;
    failed = λ c h f. ground arith;
    poisoned = λ c h. ground arith;
    engaged = λ c h. ground arith;
  }

module _ {A : Type 0} where
  pub IsNested-pure : (a : A) → IsNested (pure {E = MemoryError} {S = Connection} a)
  IsNested-pure a = record {
    committed = λ c h. refl;
    active = λ c h. h;
    failed = λ c h f. f;
    poisoned = λ c h. refl;
    engaged = λ c h. refl;
  }

  pub IsNested-raise : (e : MemoryError) → IsNested (raise {S = Connection} {A = A} e)
  IsNested-raise e = record {
    committed = λ c h. refl;
    active = λ c h. h;
    failed = λ c h f. f;
    poisoned = λ c h. refl;
    engaged = λ c h. refl;
  }

module _ {A B : Type 0} where
  IsNested-resume :
      (r : Result MemoryError A) (f : A → Session B)
      → ((a : A) → IsNested (f a))
      → IsNested (resume r f)
  IsNested-resume (ok a) f q = q a
  IsNested-resume (err e) f q = IsNested-raise e

  pub IsNested-bind :
      (m : Session A) (f : A → Session B)
      → IsNested m
      → ((a : A) → IsNested (f a))
      → IsNested (m >>= f)
  IsNested-bind m f p q = record {
    committed = λ c h. (later c).committed (m c).1 (p.active c h) ∙ p.committed c h;
    active = λ c h. (later c).active (m c).1 (p.active c h);
    failed = λ c h g. (later c).failed (m c).1 (p.active c h) (p.failed c h g);
    poisoned = λ c h. (later c).poisoned (m c).1 (p.active c h) ∙ p.poisoned c h;
    engaged = λ c h. (later c).engaged (m c).1 (p.active c h) ∙ p.engaged c h;
  }
    where
      later : (c : Connection) → IsNested (resume (m c).0 f)
      later c = IsNested-resume (m c).0 f q

-- `try: m` / `except: k`
abbrev pub attempt : {A : Type 0} → Session A → (MemoryError → Session A) → Session A
attempt m k c = let (r, c') = m c in elim r [ ok a ↦ (ok a, c') | err e ↦ k e c' ]

-- the connection on which a transaction's body starts
abbrev pub begun : Connection → Connection
begun c = record c { transaction_active = true; transaction_failed = false }

module _ (env : Environment) where
  pub refuses_poisoned :
      (c : Connection) → c.poisoned ≡ true → assert_in_session env c ≡ (err connection_poisoned, c)
  unfolding assert_in_session
  refuses_poisoned c x = if-true c.poisoned _ _ x

  refuses_stranger :
      (c : Connection)
      → c.poisoned ≡ false
      → (c.active_owner == env.thread) ≡ false
      → assert_in_session env c ≡ (err outside_session, c)
  unfolding assert_in_session
  refuses_stranger c x y = if-false c.poisoned _ _ x ∙ if-false (c.active_owner == env.thread) _ _ y

  admits :
      (c : Connection)
      → c.poisoned ≡ false
      → (c.active_owner == env.thread) ≡ true
      → assert_in_session env c ≡ (ok tt, c)
  unfolding assert_in_session
  admits c x y = if-false c.poisoned _ _ x ∙ if-true (c.active_owner == env.thread) _ _ y

module _ (env : Environment) {A : Type 0} where
  -- How a transaction can end: nothing published and an error, or all of it published.
  pub data Outcome (body : Session A) (c : Connection) : Type 0 where
    undone :
        (e : MemoryError)
        → (transaction env body c).0 ≡ err e
        → (transaction env body c).1.committed ≡ c.committed
        → Outcome body c
    published :
        (a : A)
        → (transaction env body c).0 ≡ ok a
        → (body (begun c)).0 ≡ ok a
        → (body (begun c)).1.transaction_failed ≡ false
        → (transaction env body c).1.committed ≡ (body (begun c)).1.working
        → Outcome body c

  exit_outcome :
      (r : Result MemoryError A) (c' : Connection) (before : Tables)
      → c'.committed ≡ before
      → ((e : MemoryError) × ((transaction_exit env r c').0 ≡ err e)
          × ((transaction_exit env r c').1.committed ≡ before))
        ⊎ ((a : A) × ((transaction_exit env r c').0 ≡ ok a)
            × (r ≡ ok a)
            × (c'.transaction_failed ≡ false)
            × ((transaction_exit env r c').1.committed ≡ c'.working))
  unfolding transaction_exit
  exit_outcome (err e) c' before h = elim (Bool-cases (env.rollback_fails c'.working)) [
    | inl x ↦ inl (rollback_failed, rw x, rw x h)
    | inr x ↦ inl (e, rw x, rw x h)
  ]
  exit_outcome (ok a) c' before h = elim (Bool-cases c'.transaction_failed) [
    | inl x ↦ elim (Bool-cases (env.rollback_fails c'.working)) [
      | inl y ↦ inl (rollback_failed, rw (x, y), rw (x, y) h)
      | inr y ↦ inl (rolled_back_after_nested_failure, rw (x, y), rw (x, y) h)
    ]
    | inr x ↦ elim (Bool-cases (env.commit_fails c'.working)) [
      | inl y ↦ elim (Bool-cases (env.rollback_fails c'.working)) [
        | inl z ↦ inl (commit_and_rollback_failed, rw (x, y, z), rw (x, y, z) h)
        | inr z ↦ inl (commit_failed, rw (x, y, z), rw (x, y, z) h)
      ]
      | inr y ↦ inr (a, rw (x, y), refl, x, rw (x, y))
    ]
  ]

  module _ (body : Session A) (c : Connection) where
    pub transaction_refused :
        (e : MemoryError)
        → assert_in_session env c ≡ (err e, c)
        → transaction env body c ≡ (err e, c)
    unfolding transaction
    transaction_refused e h =
        ap
          (λ r.
            admitted env r λ c'.
              if c'.transaction_active then (err nested_transaction, c') else begin env body c')
          h

    transaction_runs :
        assert_in_session env c ≡ (ok tt, c)
        → c.transaction_active ≡ false
        → transaction env body c ≡ begin env body c
    unfolding transaction
    transaction_runs h idle =
        ap
          (λ r.
            admitted env r λ c'.
              if c'.transaction_active then (err nested_transaction, c') else begin env body c')
          h
        ∙ if-false c.transaction_active _ _ idle

    -- Refused at the door, or run to its exit.
    pub transaction_cases :
        c.transaction_active ≡ false
        → ((e : MemoryError) × (transaction env body c ≡ (err e, c)))
          ⊎ (transaction env body c ≡ transaction_exit env (body (begun c)).0 (body (begun c)).1)
    unfolding begin in_transaction
    transaction_cases idle = elim (Bool-cases c.poisoned) [
      | inl x ↦
          inl (
            connection_poisoned,
            transaction_refused connection_poisoned (refuses_poisoned env c x),
          )
      | inr x ↦ elim (Bool-cases (c.active_owner == env.thread)) [
        | inl y ↦ elim (Bool-cases (env.begin_fails c.working)) [
          | inl z ↦ inl (
            begin_failed,
            transaction_runs (admits env c x y) idle ∙ if-true (env.begin_fails c.working) _ _ z,
          )
          | inr z ↦ inr (
              transaction_runs (admits env c x y) idle ∙ if-false (env.begin_fails c.working) _ _ z)
        ]
        | inr y ↦
            inl (outside_session, transaction_refused outside_session (refuses_stranger env c x y))
      ]
    ]

  -- A transaction over any composition of the data layer's write scopes and reads, on a connection
  -- with no transaction open, either raises and leaves the committed tables as they were, or returns
  -- and has committed exactly the tables that its body left, with no nested write having failed even
  -- if the body caught the failure. This holds whether SQLite's commit and rollback succeed or not.
  pub transaction_all_or_nothing :
      (body : Session A) (c : Connection)
      → IsNested body
      → c.transaction_active ≡ false
      → Outcome body c
  transaction_all_or_nothing body c nested idle = elim (transaction_cases body c idle) [
    | inl (e, refused) ↦ undone e (ap (λ r. r.0) refused) (ap (λ r. r.1.committed) refused)
    | inr ran ↦
        elim (exit_outcome (body (begun c)).0 (body (begun c)).1 c.committed
          (nested.committed (begun c) refl)) [
            | inl (e, raised, kept) ↦
                undone e (ap (λ r. r.0) ran ∙ raised) (ap (λ r. r.1.committed) ran ∙ kept)
            | inr (a, returned, from, clean, written) ↦
                published a (ap (λ r. r.0) ran ∙ returned) from clean
                  (ap (λ r. r.1.committed) ran ∙ written)
          ]
  ]
