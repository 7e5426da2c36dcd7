-- ===== src/Usage/Flights/Examples.antt =====
-- Two callers for one profile and one for another (internal/usage/usage.go).
use codex_folio.Base.{◌≡◌, refl, ◌&&◌, false, [], ◌∷◌, Option, none, some, string_eq, All}
use codex_folio.Usage.Flights.{Flights, set_phase, set_inflight, arrive, lock, no_flights}
use codex_folio.Usage.Flights.Invariant.{target, open_target, is_collecting}
use codex_folio.Usage.Flights.Shared.{
  same_target, arrives, locks, Reachable, empty, next, refresh_shares_flights,
}

abbrev asked : Flights
asked = arrive "b" (arrive "a" (arrive "a" no_flights))

abbrev or_asked : Option Flights → Flights
or_asked none = asked
or_asked (some f) = f

abbrev collecting_first : Flights
collecting_first = or_asked (lock 0 asked)

-- The first two callers share a flight.
shared : asked.callers ≡ ("b", 1) ∷ ("a", 0) ∷ ("a", 0) ∷ []
unfolding arrive set_phase set_inflight
shared = refl

first_locks : lock 0 asked ≡ some collecting_first
unfolding arrive lock set_phase set_inflight
first_locks = refl

reached_first : Reachable collecting_first
reached_first =
    next asked collecting_first
      (next (arrive "a" (arrive "a" no_flights)) asked
        (next (arrive "a" no_flights) (arrive "a" (arrive "a" no_flights))
          (next no_flights (arrive "a" no_flights) empty (arrives "a" no_flights))
          (arrives "a" (arrive "a" no_flights)))
        (arrives "b" (arrive "a" (arrive "a" no_flights))))
      (locks 0 asked collecting_first first_locks)

refresh_shares_flights_example :
    All (λ c. target (collecting_first.phase c.1) ≡ some c.0) collecting_first.callers
    × (same_target (open_target (collecting_first.phase 0)) (open_target (collecting_first.phase 1))
        ≡ false)
    × (is_collecting (collecting_first.phase 0) && is_collecting (collecting_first.phase 1) ≡ false)
refresh_shares_flights_example = refresh_shares_flights collecting_first 0 1 reached_first refl
