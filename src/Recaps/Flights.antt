-- ===== src/Recaps/Flights.antt =====
-- `RecapRegistry.flight` of backend/app/lifecycle_cache.py between threads, one step for each section
-- under the gate and for each use of the semaphore. A flight is its key and its count of references.
use reading_companion.Prelude.{
  ℕ, ◌≡◌, suc, Bool, true, false, Option, none, some, List, [], ◌∷◌, find, any, if◌then◌else◌, ◌-◌,
  length,
}
use reading_companion.Recaps.{Key, holds, Registry}

-- `reserved` slots have been acquired by threads that have not opened a flight with them; `returning`
-- ones belong to flights that are gone, and are not released yet.
pub record Airport : Type 0 where
  pub slots : ℕ
  pub reserved : ℕ
  pub returning : ℕ
  pub flights : List (Key × ℕ)

-- `entry.refs += 1` on the flight of a key
abbrev pub joined : Key → List (Key × ℕ) → List (Key × ℕ)
joined key [] = []
joined key (f ∷ fs) = if holds key f then (f.0, suc f.1) ∷ fs else f ∷ joined key fs

-- `entry.refs -= 1`
abbrev pub left : Key → List (Key × ℕ) → List (Key × ℕ)
left key [] = []
left key (f ∷ fs) = if holds key f then (f.0, f.1 - 1) ∷ fs else f ∷ left key fs

-- `del self._flights[key]`
abbrev pub closed : Key → List (Key × ℕ) → List (Key × ℕ)
closed key [] = []
closed key (f ∷ fs) = if holds key f then fs else f ∷ closed key fs

abbrev pub flying : Key → Airport → Bool
flying key a = any (holds key) a.flights

abbrev pub refs : Key → Airport → Option ℕ
refs key a = elim (find (holds key) a.flights) as (λ x. Option ℕ) [
  | none ↦ none
  | some f ↦ some f.1
]

pub data Step : Airport → Airport → Type 0 where
  -- the first look finds the flight
  step_join :
      (a : Airport) (key : Key)
      → flying key a ≡ true
      → Step a (record a { flights = joined key a.flights })
  -- `self._flight_slots.acquire()`
  step_acquire :
      (a : Airport) (n : ℕ)
      → a.slots ≡ suc n
      → Step a (record a { slots = n; reserved = suc a.reserved })
  -- the second look still finds none
  step_open :
      (a : Airport) (key : Key) (n : ℕ)
      → a.reserved ≡ suc n
      → flying key a ≡ false
      → Step a (record a { reserved = n; flights = (key, 1) ∷ a.flights })
  -- the second look finds a flight that another thread has opened: join it, and keep the slot to return
  step_join_late :
      (a : Airport) (key : Key) (n : ℕ)
      → a.reserved ≡ suc n
      → flying key a ≡ true
      → Step a
          (record a { reserved = n; returning = suc a.returning; flights = joined key a.flights })
  -- a thread leaves a flight that others still use
  step_leave :
      (a : Airport) (key : Key) (n : ℕ)
      → refs key a ≡ some (suc (suc n))
      → Step a (record a { flights = left key a.flights })
  -- the last thread leaves
  step_close :
      (a : Airport) (key : Key)
      → refs key a ≡ some 1
      → Step a (record a { returning = suc a.returning; flights = closed key a.flights })
  -- `self._flight_slots.release()`
  step_release :
      (a : Airport) (n : ℕ)
      → a.returning ≡ suc n
      → Step a (record a { slots = suc a.slots; returning = n })

-- a registry as its constructor leaves it
abbrev pub opened : ℕ → Airport
opened max_flights = record { slots = max_flights; reserved = 0; returning = 0; flights = [] }

pub data Reachable (max_flights : ℕ) : Airport → Type 0 where
  start : Reachable max_flights (opened max_flights)
  next : {a b : Airport} → Reachable max_flights a → Step a b → Reachable max_flights b

-- entries, failures and flights
unfoldable pub stats : {A : Type 0} → Registry A → Airport → ℕ × ℕ × ℕ
stats r a = (length r.cache, length r.failed, length a.flights)
