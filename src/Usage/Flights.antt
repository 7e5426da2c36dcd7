-- ===== src/Usage/Flights.antt =====
-- internal/usage/usage.go: Service.Refresh, as callers that share a flight. A step is what the code
-- does while it holds one of its locks; what a refresh answers is a parameter.
pub mod Invariant
pub mod Phases
pub mod Shared
mod Examples
use codex_folio.Base.{
  ℕ, suc, ◌+◌, Bool, true, false, String, List, [], ◌∷◌, Option, none, some, eqb, ◌==◌, string_eq,
  if◌then◌else◌,
}
use codex_folio.Usage.Types.{Snapshot}

-- What a refresh answers: its snapshot, and whether there is an error.
pub record Answer : Type 0 where
  pub snapshot : Snapshot
  pub failed : Bool

-- A flight waits for collectionMu, collects, has its answer, and is closed.
pub data Phase : Type 0 where
  absent : Phase
  waiting collecting : String → Phase
  landed closed : String → Answer → Phase

-- `inflight` and the flights by their number; `busy` is the flight that holds collectionMu, and
-- `callers` those that asked for a profile, each with the flight that it started or joined.
pub record Flights : Type 0 where
  pub inflight : String → Option ℕ
  pub phase : ℕ → Phase
  pub next : ℕ
  pub busy : Option ℕ
  pub callers : List (String × ℕ)

unfoldable pub set_phase : ℕ → Phase → (ℕ → Phase) → ℕ → Phase
set_phase n p phase m = if eqb m n then p else phase m

unfoldable pub set_inflight : String → Option ℕ → (String → Option ℕ) → String → Option ℕ
set_inflight id n inflight key = if key == id then n else inflight key

abbrev pub join_or_start : String → Flights → Option ℕ → Flights
join_or_start id f (some n) = record f { callers = (id, n) ∷ f.callers }
join_or_start id f none = record f {
  inflight = set_inflight id (some f.next) f.inflight;
  phase = set_phase f.next (waiting id) f.phase;
  next = suc f.next;
  callers = (id, f.next) ∷ f.callers;
}

-- A caller, under mu.
unfoldable pub arrive : String → Flights → Flights
unfolding set_phase set_inflight
arrive id f = join_or_start id f (f.inflight id)

abbrev pub lock_phase : ℕ → Flights → Option ℕ → Phase → Option Flights
lock_phase n f none (waiting id) =
    some (record f { phase = set_phase n (collecting id) f.phase; busy = some n })
lock_phase n f none absent = none
lock_phase n f none (collecting id) = none
lock_phase n f none (landed id a) = none
lock_phase n f none (closed id a) = none
lock_phase n f (some m) p = none

-- The flight takes collectionMu.
unfoldable pub lock : ℕ → Flights → Option Flights
unfolding set_phase
lock n f = lock_phase n f f.busy (f.phase n)

abbrev pub land_phase : ℕ → Answer → Flights → Phase → Option Flights
land_phase n a f (collecting id) =
    some (record f { phase = set_phase n (landed id a) f.phase; busy = none })
land_phase n a f absent = none
land_phase n a f (waiting id) = none
land_phase n a f (landed id b) = none
land_phase n a f (closed id b) = none

-- The collection ends, and collectionMu is released.
unfoldable pub land : ℕ → Answer → Flights → Option Flights
unfolding set_phase
land n a f = land_phase n a f (f.phase n)

abbrev pub close_phase : ℕ → Flights → Phase → Option Flights
close_phase n f (landed id a) = some (record f {
  phase = set_phase n (closed id a) f.phase;
  inflight = set_inflight id none f.inflight;
})
close_phase n f absent = none
close_phase n f (waiting id) = none
close_phase n f (collecting id) = none
close_phase n f (closed id a) = none

-- The flight leaves `inflight` and wakes its callers, under mu.
unfoldable pub close : ℕ → Flights → Option Flights
unfolding set_phase set_inflight
close n f = close_phase n f (f.phase n)

abbrev pub no_flights : Flights
no_flights = record {
  inflight = λ id. none;
  phase = λ n. absent;
  next = 0;
  busy = none;
  callers = [];
}
