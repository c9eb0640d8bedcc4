-- ===== src/Recaps/Tests.antt =====
-- A registry with two recaps.
use reading_companion.Prelude.{◌≡◌, ℕ, String, [], ◌∷◌, arith, List, ◌+◌, ◌≤◌, refl}
use reading_companion.Recaps.Flights.{Airport, Step, opened, Reachable}
use reading_companion.Recaps.Slots.{flights_bounded}
use reading_companion.Recaps.{Key, Registry}
use reading_companion.Recaps.Bounds.{RegistryCall, IsBounded, after_all, after_all-IsBounded}

abbrev key : String → Key
key digest = record { book_id = "emma"; incarnation = "a1"; digest = digest }

abbrev full : Registry ℕ
full = record {
  max_entries = 2;
  max_failures = 1;
  cache = (key "d1", 10) ∷ (key "d2", 20) ∷ [];
  failed = (key "d3", 5) ∷ [];
}

abbrev calls : List (RegistryCall ℕ)
calls =
    RegistryCall.call_get (key "d1")
    ∷ RegistryCall.call_set (key "d4") 40
    ∷ RegistryCall.call_mark_failed (key "d5") 9
    ∷ RegistryCall.call_failure_recent (key "d5") 3 10
    ∷ RegistryCall.call_invalidate_book "emma"
    ∷ []

after_all-IsBounded_example : IsBounded (after_all calls full)
after_all-IsBounded_example = after_all-IsBounded calls full (omega arith, omega arith)

-- two threads ask for one key at once, and only one flight is opened
abbrev free : Airport
free = opened 2

abbrev both_reserved : Airport
both_reserved = record { slots = 0; reserved = 2; returning = 0; flights = [] }

abbrev one_opened : Airport
one_opened = record { slots = 0; reserved = 1; returning = 0; flights = (key "d1", 1) ∷ [] }

abbrev both_aboard : Airport
both_aboard = record { slots = 0; reserved = 0; returning = 1; flights = (key "d1", 2) ∷ [] }

reached : Reachable 2 both_aboard
reached =
    Reachable.next
      (Reachable.next
        (Reachable.next (Reachable.next Reachable.start (Step.step_acquire free 1 refl)) (
          Step.step_acquire (record { slots = 1; reserved = 1; returning = 0; flights = [] }) 0
            refl))
        (Step.step_open both_reserved (key "d1") 1 refl refl))
      (Step.step_join_late one_opened (key "d1") 0 refl refl)

flights_bounded_example : (0 + 0 + 1 + 1 ≡ 2) × (1 ≤ 2)
flights_bounded_example = flights_bounded 2 both_aboard reached
