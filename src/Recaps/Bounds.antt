-- ===== src/Recaps/Bounds.antt =====
-- The sizes of the recap registry of backend/app/lifecycle_cache.py, and what it remembers.
use reading_companion.Prelude.{
  ℕ, ◌+◌, ◌≤◌, ◌≡◌, refl, String, Bool, true, false, not, Option, none, some, List, [], ◌∷◌, ◌++◌,
  leb, length, find, any, if◌then◌else◌, arith, length-keep, length-append, str_eq_refl, find-last,
  length-rejected, str_eq, ap, any-rejected,
}
use reading_companion.Recaps.{
  Key, Registry, same_key, holds, without, latest, trim, get, set, failure_recent, mark_failed,
  clear_failed, invalidate_book, hit, failed_at,
}

same_key_refl : (key : Key) → same_key key key ≡ true
same_key_refl key =
    ground (arith, str_eq_refl key.book_id, str_eq_refl key.incarnation, str_eq_refl key.digest)

module _ {A : Type 0} where
  trim-bound : (limit : ℕ) (m : List (Key × A)) → length (trim limit m) ≤ limit
  unfolding trim
  trim-bound limit [] = omega arith
  trim-bound limit (entry ∷ m) = ground (arith, trim-bound limit m)

  -- The last entry survives while there is room for one.
  find-trim :
      (limit : ℕ) (key : Key) (m : List (Key × A)) (entry : Key × A)
      → 1 ≤ limit
      → any (holds key) m ≡ false
      → holds key entry ≡ true
      → find (holds key) (trim limit (m ++ (entry ∷ []))) ≡ some entry
  unfolding trim
  find-trim limit key [] entry room none_here own = ground arith
  find-trim limit key (x ∷ m) entry room none_here own =
      ground (arith, find-trim limit key m entry, find-last (holds key) m entry)

  -- A recap that has been set is found, however full the cache is: only entries used longer ago are
  -- dropped for it. The registry has room for one entry, as its constructor demands.
  get-set :
      (key : Key) (value : A) (r : Registry A)
      → 1 ≤ r.max_entries
      → (get key (set key value r)).0 ≡ some value
  unfolding get set
  get-set key value r room =
      ap (λ e. (hit key e (set key value r)).0)
        (find-trim r.max_entries key (without key r.cache) (key, value) room
          (any-rejected (holds key) r.cache) (same_key_refl key))

  latest-bound :
      (limit : ℕ) (key : Key) (value : A) (m : List (Key × A)) (entry : Key × A)
      → find (holds key) m ≡ some entry
      → length m ≤ limit
      → length (latest key value m) ≤ limit
  latest-bound limit key value m entry f h = omega (
    arith,
    length-rejected (holds key) m entry f,
    length-append (without key m) ((key, value) ∷ []),
  )

abbrev pub IsBounded : {A : Type 0} → Registry A → Type 0
IsBounded r = (length r.cache ≤ r.max_entries) × (length r.failed ≤ r.max_failures)

-- The calls of one registry, in any order.
pub data RegistryCall (A : Type 0) : Type 0 where
  call_get : Key → RegistryCall A
  call_set : Key → A → RegistryCall A
  call_failure_recent : Key → (ttl now : ℕ) → RegistryCall A
  call_mark_failed : Key → (at : ℕ) → RegistryCall A
  call_clear_failed : Key → RegistryCall A
  call_invalidate_book : String → RegistryCall A

module _ {A : Type 0} where
  unfoldable pub after : RegistryCall A → Registry A → Registry A
  after (call_get key) r = (get key r).1
  after (call_set key value) r = set key value r
  after (call_failure_recent key ttl now) r = (failure_recent key ttl now r).1
  after (call_mark_failed key at) r = mark_failed key at r
  after (call_clear_failed key) r = clear_failed key r
  after (call_invalidate_book book) r = invalidate_book book r

  unfoldable pub after_all : List (RegistryCall A) → Registry A → Registry A
  after_all [] r = r
  after_all (x ∷ xs) r = after_all xs (after x r)

  get-IsBounded : (key : Key) (r : Registry A) → IsBounded r → IsBounded (get key r).1
  unfolding get
  get-IsBounded key r h = go (find (holds key) r.cache) refl
    where
      go : (e : Option (Key × A)) → find (holds key) r.cache ≡ e → IsBounded (hit key e r).1
      go none f = h
      go (some entry) f = (latest-bound r.max_entries key entry.1 r.cache entry f h.0, h.1)

  failure_recent-IsBounded :
      (key : Key) (ttl now : ℕ) (r : Registry A)
      → IsBounded r
      → IsBounded (failure_recent key ttl now r).1
  unfolding failure_recent
  failure_recent-IsBounded key ttl now r h = go (find (holds key) r.failed) refl
    where
      go :
          (e : Option (Key × ℕ))
          → find (holds key) r.failed ≡ e
          → IsBounded (failed_at key ttl now e r).1
      go none f = h
      go (some entry) f =
          let gone : Bool × Registry A = (false, record r { failed = without key r.failed }) in
          let still : Bool × Registry A =
            (true, record r { failed = latest key entry.1 r.failed }) in
          elim (leb (entry.1 + ttl) now)
            as (λ t. IsBounded (if◌then◌else◌ {A = Bool × Registry A} t gone still).1) [
              | true ↦ (h.0, omega (arith, h.1, length-keep (λ x. not (holds key x)) r.failed))
              | false ↦ (h.0, latest-bound r.max_failures key entry.1 r.failed entry f h.1)
            ]

  after-IsBounded : (x : RegistryCall A) (r : Registry A) → IsBounded r → IsBounded (after x r)
  unfolding after set mark_failed clear_failed invalidate_book
  after-IsBounded (call_get key) r h = get-IsBounded key r h
  after-IsBounded (call_set key value) r h =
      (trim-bound r.max_entries (latest key value r.cache), h.1)
  after-IsBounded (call_failure_recent key ttl now) r h = failure_recent-IsBounded key ttl now r h
  after-IsBounded (call_mark_failed key at) r h =
      (h.0, trim-bound r.max_failures (latest key at r.failed))
  after-IsBounded (call_clear_failed key) r h =
      (h.0, omega (arith, h.1, length-keep (λ e. not (holds key e)) r.failed))
  after-IsBounded (call_invalidate_book book) r h = (
    omega (arith, h.0, length-keep (λ e. not (str_eq e.0.book_id book)) r.cache),
    omega (arith, h.1, length-keep (λ e. not (str_eq e.0.book_id book)) r.failed),
  )

  -- Whatever calls a registry gets, neither of its maps outgrows its limit.
  pub after_all-IsBounded :
      (xs : List (RegistryCall A)) (r : Registry A) → IsBounded r → IsBounded (after_all xs r)
  unfolding after_all
  after_all-IsBounded [] r h = h
  after_all-IsBounded (x ∷ xs) r h = after_all-IsBounded xs (after x r) (after-IsBounded x r h)
