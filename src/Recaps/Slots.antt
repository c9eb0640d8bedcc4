-- ===== src/Recaps/Slots.antt =====
-- How many flights are under way at once in backend/app/lifecycle_cache.py.
use reading_companion.Prelude.{
  ℕ, ◌+◌, ◌≤◌, ◌≡◌, suc, refl, Option, none, some, List, [], ◌∷◌, length, find, arith,
}
use reading_companion.Recaps.{Key, holds}
use reading_companion.Recaps.Flights.{Airport, joined, left, closed, refs, Step, Reachable}

length-joined : (key : Key) (fs : List (Key × ℕ)) → length (joined key fs) ≡ length fs
length-joined key [] = refl
length-joined key (f ∷ fs) = ground (arith, length-joined key fs)

length-left : (key : Key) (fs : List (Key × ℕ)) → length (left key fs) ≡ length fs
length-left key [] = refl
length-left key (f ∷ fs) = ground (arith, length-left key fs)

length-closed :
    (key : Key) (fs : List (Key × ℕ)) (f : Key × ℕ)
    → find (holds key) fs ≡ some f
    → suc (length (closed key fs)) ≡ length fs
length-closed key [] f h = cc
length-closed key (g ∷ fs) f h = ground (arith, length-closed key fs f)

refs-found :
    (key : Key) (a : Airport) (n : ℕ)
    → refs key a ≡ some n
    → (f : Key × ℕ) × (find (holds key) a.flights ≡ some f)
refs-found key a n h = go (find (holds key) a.flights) refl h
  where
    go :
        (m : Option (Key × ℕ))
        → find (holds key) a.flights ≡ m
        → elim m as (λ x. Option ℕ) [ none ↦ none | some f ↦ some f.1 ] ≡ some n
        → (f : Key × ℕ) × (find (holds key) a.flights ≡ some f)
    go none e h = cc
    go (some f) e h = (f, e)

abbrev balance : Airport → ℕ
balance a = a.slots + a.reserved + a.returning + length a.flights

Step-balance : (a b : Airport) → Step a b → balance b ≡ balance a
Step-balance _ _ (Step.step_join a key h) = omega (arith, length-joined key a.flights)
Step-balance _ _ (Step.step_acquire a n h) = omega (arith, h)
Step-balance _ _ (Step.step_open a key n h f) = omega (arith, h)
Step-balance _ _ (Step.step_join_late a key n h f) = omega (arith, h, length-joined key a.flights)
Step-balance _ _ (Step.step_leave a key n h) = omega (arith, length-left key a.flights)
Step-balance _ _ (Step.step_close a key h) =
    let (f, e) = refs-found key a 1 h in omega (arith, length-closed key a.flights f e)
Step-balance _ _ (Step.step_release a n h) = omega (arith, h)

-- However the threads interleave, every slot of the semaphore is free, reserved, about to be released,
-- or owned by exactly one flight. So there are never more flights than the limit.
pub flights_bounded :
    (max_flights : ℕ) (a : Airport)
    → Reachable max_flights a
    → (a.slots + a.reserved + a.returning + length a.flights ≡ max_flights)
      × (length a.flights ≤ max_flights)
flights_bounded max_flights _ Reachable.start = (omega arith, omega arith)
flights_bounded max_flights _ (Reachable.next {a} {b} r s) =
    let (e, _) = flights_bounded max_flights a r in
    let f = Step-balance a b s in (omega (arith, e, f), omega (arith, e, f))
