-- ===== src/Usage/Capacity.antt =====
-- internal/usage/ranking.go: providerCapacity, the evidence by which a profile takes part in the
-- ranking.
pub mod Evidence
use codex_folio.Base.{
  ℕ, zero, suc, ◌-◌, Bool, true, false, ◌&&◌, ◌||◌, not, List, [], ◌∷◌, ◌++◌, Option, none, some,
  String, ltb, eqb, ◌==◌, ◌!=◌, string_eq, Time, Duration, before, is_zero, since, is_some,
  if◌then◌else◌,
}
use codex_folio.Usage.Types.{
  Metric, metric_eq, Observation, MetricAvailability, Snapshot, float_le, float_zero, hundred,
  registry, provenance_provider, source_codex_app_server, availability_available,
  availability_stale, availability_contradictory, freshness_limit,
}

-- Why a profile has no comparable capacity.
pub data Refusal : Type 0 where
  partial contradictory incompatible : Refusal

-- The values of Candidate.CapacityState.
pub data CapacityState : Type 0 where
  fresh stale ineligible : CapacityState
  lacking : Refusal → CapacityState

-- A value, or the reason for which providerCapacity returns early and without evidence.
pub data Capacity (A : Type 0) : Type 0 where
  given : A → Capacity A
  refused : Refusal → Capacity A

infixl 5 ◌>>=◌
abbrev pub ◌>>=◌ : {A B : Type 0} → Capacity A → (A → Capacity B) → Capacity B
given a >>= f = f a
refused c >>= f = refused c

-- The last state that is reported for the metric; `state` is the one found so far.
unfoldable pub scan_availability : String → String → List MetricAvailability → Capacity String
scan_availability key state [] = given state
scan_availability key state (a ∷ more) =
    let rest = scan_availability key (if a.metric_key == key then a.state else state) more in
    if a.metric_key == key && a.state == availability_contradictory
    then refused contradictory
    else rest

unfoldable pub window_ordered : Option Time → Option Time → Bool
window_ordered (some start) (some end) = before start end
window_ordered (some start) none = false
window_ordered none end = false

unfoldable pub is_foreign : Metric → Observation → Bool
unfolding window_ordered
is_foreign metric o =
    not (metric_eq o.metric metric)
    || o.source != source_codex_app_server
    || o.source_version == ""
    || not (window_ordered o.window_start o.window_end)

unfoldable pub is_unusable : Time → Observation → Bool
is_unusable now o =
    is_zero o.captured_at
    || before now o.captured_at
    || not (float_le float_zero o.value && float_le o.value hundred)
    || (o.availability != availability_available && o.availability != availability_stale)

pub record Found : Type 0 where
  pub observation : Option Observation
  pub stale : Bool

unfoldable pub is_aged : Time → String → Observation → Bool
is_aged now state o =
    ltb freshness_limit (since o.captured_at now)
    || state == availability_stale
    || o.availability == availability_stale

-- The loop over the observations of the snapshot.
unfoldable pub scan_observations :
    Time → Metric → String → List Observation → Found → Capacity Found
scan_observations now metric state [] f = given f
scan_observations now metric state (o ∷ os) f =
    let skip = scan_observations now metric state os f in
    let take =
      scan_observations now metric state os
        (record { observation = some o; stale = f.stale || is_aged now state o }) in
    if o.metric.key != metric.key
    then skip
    else if o.availability == availability_contradictory
    then refused contradictory
    else if o.provenance != provenance_provider
    then skip
    else if is_some f.observation
    then refused contradictory
    else if is_foreign metric o
    then refused incompatible
    else if is_unusable now o
    then refused partial
    else take

unfoldable pub found_one : Option Observation → Bool → Capacity (Observation × Bool)
found_one none aged = refused partial
found_one (some o) aged = given (o, aged)

-- One turn of the loop over the registry, for a provider metric.
unfoldable pub measure : Time → Snapshot → Metric → Bool → Capacity (Observation × Bool)
unfolding found_one
measure now snapshot metric aged = do
  state ← scan_availability metric.key "" snapshot.availability
  if state != availability_available && state != availability_stale
      then refused partial
      else (scan_observations now metric state snapshot.observations
            (record { observation = none; stale = aged })
          >>= λ f. found_one f.observation f.stale)

unfoldable pub measure_all :
    Time → Snapshot → List Metric → List Observation → Bool → Capacity (List Observation × Bool)
measure_all now snapshot [] capacity aged = given (capacity, aged)
measure_all now snapshot (m ∷ ms) capacity aged =
    let skip = measure_all now snapshot ms capacity aged in
    let measured =
      (measure now snapshot m aged >>= λ (o, aged').
      measure_all now snapshot ms (capacity ++ o ∷ []) aged') in
    if m.source_class != provenance_provider then skip else measured

unfoldable pub covers : Time → Option Time → Option Time → Bool
covers now (some start) (some end) = not (before now start) && before now end
covers now (some start) none = false
covers now none end = false

unfoldable pub all_cover : Time → List Observation → Bool
all_cover now [] = true
all_cover now (o ∷ os) = covers now o.window_start o.window_end && all_cover now os

unfoldable pub conclude :
    Time → Capacity (List Observation × Bool) → List Observation × CapacityState
conclude now (refused c) = ([], lacking c)
conclude now (given (capacity, aged)) =
    if aged
    then ([], stale)
    else if all_cover now capacity
    then (capacity, fresh)
    else ([], lacking incompatible)

unfoldable pub provider_capacity : Snapshot → Time → List Observation × CapacityState
unfolding conclude
provider_capacity snapshot now = conclude now (measure_all now snapshot registry [] false)
