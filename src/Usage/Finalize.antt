-- ===== src/Usage/Finalize.antt =====
-- internal/usage/usage.go: FreshnessAt, projectCurrentQuotaWindows, snapshotStatus and
-- finalizeSnapshot, which settles what a stored snapshot says at the present instant. The maps of
-- the code, by the key of a metric, are what they hold for one key.
pub mod Backed
pub mod Current
pub mod Windows
mod Examples
use codex_folio.Base.{
  ℕ, zero, suc, ◌+◌, ◌/◌, Bool, true, false, ◌&&◌, ◌||◌, not, List, [], ◌∷◌, Option, none, some,
  String, ltb, eqb, ◌==◌, ◌!=◌, string_eq, Time, second, before, after, is_zero, since, is_some,
  is_none, if◌then◌else◌, map,
}
use codex_folio.Usage.Types.{
  Metric, Observation, MetricAvailability, Snapshot, Float, float_eq, provenance_provider,
  provenance_estimated, availability_available, availability_unsupported, availability_stale,
  availability_contradictory, availability_partial, availability_reauthentication_required,
  freshness_limit,
}

unfoldable pub freshness_at : Time → Time → Option (String × ℕ)
freshness_at captured now =
    let age = since captured now in
    if before now captured
    then none
    else some (if ltb freshness_limit age then "stale" else "fresh", age / second)

-- The reason of a state that has none.
unfoldable pub fill_reason : MetricAvailability → MetricAvailability
fill_reason a =
    if a.reason != ""
    then a
    else if a.state == availability_unsupported
    then record a { reason = "capability_unsupported" }
    else if a.state == availability_reauthentication_required
    then record a { reason = "reauthentication_required" }
    else a

unfoldable pub captured_or_observed : Observation → Time
captured_or_observed o = if is_zero o.captured_at then o.observed_at else o.captured_at

abbrev text_or : String → String → String
text_or a b = if a == "" then b else a

abbrev stamp : Snapshot → Observation → Option (String × ℕ) → Option Observation
stamp s o none = none
stamp s o (some (freshness, age)) =
    if o.provenance == provenance_estimated && o.assumptions == "" && o.uncertainty == ""
    then none
    else some (record o {
      captured_at = captured_or_observed o;
      capture_age_seconds = age;
      freshness = freshness;
      source = text_or o.source s.source;
      source_version = text_or o.source_version s.source_version;
      window_timezone =
          if o.window_timezone == "" && (is_some o.window_start || is_some o.window_end)
          then "UTC"
          else o.window_timezone;
    })

-- One turn of the loop over the observations, and the loop; none is ErrSourceInvalid.
unfoldable pub finalize_observation : Snapshot → Time → Observation → Option Observation
unfolding freshness_at captured_or_observed
finalize_observation s now o = stamp s o (freshness_at (captured_or_observed o) now)

abbrev both : Option Observation → Option (List Observation) → Option (List Observation)
both none os = none
both (some o) none = none
both (some o) (some os) = some (o ∷ os)

unfoldable pub finalize_observations :
    Snapshot → Time → List Observation → Option (List Observation)
unfolding finalize_observation
finalize_observations s now [] = some []
finalize_observations s now (o ∷ os) =
    both (finalize_observation s now o) (finalize_observations s now os)

pub record Window : Type 0 where
  pub start : Time
  pub end : Time
  pub captured_at : Time
  pub active : Bool

unfoldable pub prefer : Window → Option Window → Option Window
prefer w none = some w
prefer w (some current) =
    if (w.active && not current.active)
      || ((w.active && current.active || not w.active && not current.active)
          && after w.captured_at current.captured_at)
    then some w
    else some current

abbrev pub window_at : Time → Time → Option Time → Option Time → Option Window
window_at now captured (some start) (some end) = some (record {
  start = start;
  end = end;
  captured_at = captured;
  active = not (before now start) && before now end;
})
window_at now captured (some start) none = none
window_at now captured none end = none

abbrev pub prefer_if_any : Option Window → Option Window → Option Window
prefer_if_any none current = current
prefer_if_any (some w) current = prefer w current

-- selected[key]
unfoldable pub selected_window : Time → String → List Observation → Option Window → Option Window
unfolding prefer
selected_window now key [] current = current
selected_window now key (o ∷ os) current = selected_window now key os (
    if o.metric.key == key
      && o.metric.scope == "provider_quota_window"
      && o.provenance == provenance_provider
    then prefer_if_any (window_at now o.captured_at o.window_start o.window_end) current
    else current)

unfoldable pub in_window : Window → Option Time → Option Time → Bool
in_window w (some start) (some end) = eqb start w.start && eqb end w.end
in_window w (some start) none = false
in_window w none end = false

unfoldable pub stays : Option Window → Observation → Bool
unfolding in_window
stays none o = true
stays (some w) o = in_window w o.window_start o.window_end

-- The second loop: the observations that stay, by the windows of all of them.
unfoldable pub keep_current : Time → List Observation → List Observation → List Observation
unfolding stays selected_window
keep_current now all [] = []
keep_current now all (o ∷ os) =
    let rest = keep_current now all os in
    if stays (selected_window now o.metric.key all none) o then o ∷ rest else rest

unfoldable pub project_current_quota_windows : Time → List Observation → List Observation
unfolding keep_current
project_current_quota_windows now os = keep_current now os os

-- values[key] with seen[key], fresh[key] and contradictory[key]
pub record Tally : Type 0 where
  pub value : Option Float
  pub fresh : Bool
  pub contradictory : Bool

abbrev pub no_tally : Tally
no_tally = record { value = none; fresh = false; contradictory = false }

abbrev differs : Option Float → Float → Bool
differs none v = false
differs (some u) v = not (float_eq u v)

unfoldable pub count_in : Observation → Tally → Tally
count_in o t = record {
  value = if differs t.value o.value then t.value else some o.value;
  fresh = t.fresh || o.freshness == "fresh";
  contradictory = t.contradictory || differs t.value o.value;
}

unfoldable pub tally : String → List Observation → Tally → Tally
unfolding count_in
tally key [] t = t
tally key (o ∷ os) t = tally key os (if o.metric.key == key then count_in o t else t)

-- The state that the evidence leaves to a metric that is available.
unfoldable pub settle_state : Tally → MetricAvailability → MetricAvailability
settle_state t a =
    if is_none t.value || a.state != availability_available
    then a
    else if t.contradictory
    then record a { state = availability_contradictory; reason = "supported_sources_disagree" }
    else if not t.fresh
    then record a { state = availability_stale; reason = "evidence_older_than_10_minutes" }
    else a

unfoldable pub has_key : String → List MetricAvailability → Bool
has_key key [] = false
has_key key (a ∷ more) = a.metric_key == key || has_key key more

-- states[key] is the last one of the key; that one is settled.
unfoldable pub settle_states : List Observation → List MetricAvailability → List MetricAvailability
unfolding settle_state has_key tally
settle_states os [] = []
settle_states os (a ∷ more) =
    (if has_key a.metric_key more then a else settle_state (tally a.metric_key os no_tally) a)
    ∷ settle_states os more

unfoldable pub state_of : String → List MetricAvailability → Option String → Option String
state_of key [] found = found
state_of key (a ∷ more) found =
    state_of key more (if a.metric_key == key then some a.state else found)

abbrev with_state : Observation → Option String → Observation
with_state o none = o
with_state o (some state) =
    if o.availability != availability_contradictory then record o { availability = state } else o

unfoldable pub settle_observation : List MetricAvailability → Observation → Observation
unfolding state_of
settle_observation states o = with_state o (state_of o.metric.key states none)

unfoldable pub status_loop : String → List MetricAvailability → String
status_loop state [] = state
status_loop state (a ∷ more) =
    let rest = status_loop (if a.state != state then availability_partial else state) more in
    if a.state == availability_contradictory then availability_contradictory else rest

unfoldable pub snapshot_status : List MetricAvailability → String
unfolding status_loop
snapshot_status [] = availability_unsupported
snapshot_status (a ∷ more) = status_loop a.state (a ∷ more)

abbrev pub settled : Snapshot → List Observation → Snapshot
settled s os =
    let states = settle_states os (map fill_reason s.availability) in
    record s {
      availability = states;
      observations = map (settle_observation states) os;
      status = snapshot_status states;
    }

abbrev settle_all : Snapshot → Time → Option (List Observation) → Option Snapshot
settle_all s now none = none
settle_all s now (some os) = some (settled s (project_current_quota_windows now os))

-- The snapshot that the code leaves where it returns no error; what it leaves with an error is the
-- caller's to discard.
unfoldable pub finalize_snapshot : Snapshot → Time → Option Snapshot
unfolding finalize_observations project_current_quota_windows settle_states settle_observation
    snapshot_status
finalize_snapshot s now = settle_all s now (finalize_observations s now s.observations)
