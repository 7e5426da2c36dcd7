-- ===== src/Usage/Schedule.antt =====
-- internal/usage/scheduler.go: when a profile's usage is collected next. One tick of the scheduler
-- is in Schedule/Tick. A duration of the settings is not negative here; the code's validation
-- refuses a negative one, as smaller than the provider's minimum.
pub mod Backoff
pub mod Due
mod Examples
pub mod Tick
use codex_folio.Base.{
  ℕ, zero, suc, ◌+◌, ◌*◌, ◌-◌, ◌/◌, ◌≡◌, String, Bool, true, false, ◌&&◌, ◌||◌, not, List, [], ◌∷◌,
  Option, none, some, ltb, eqb, Time, Duration, minute, hour, before, after, is_zero, if◌then◌else◌,
}
use codex_folio.Usage.Types.{Observation, Snapshot, ProfileTarget}

abbrev pub default_active_interval : Duration
default_active_interval = 5 * minute

abbrev pub default_idle_interval : Duration
default_idle_interval = 30 * minute

abbrev pub provider_safe_minimum : Duration
provider_safe_minimum = 5 * minute

abbrev pub maximum_interval : Duration
maximum_interval = 24 * hour

abbrev pub max_collections_per_tick : ℕ
max_collections_per_tick = 4

abbrev pub max_schedule_targets : ℕ
max_schedule_targets = 64

abbrev pub reset_approaching_lead : Duration
reset_approaching_lead = 30 * minute

pub data Trigger : Type 0 where
  periodic_active periodic_idle periodic_reset : Trigger

pub data Outcome : Type 0 where
  unset succeeded failed : Outcome

pub record CollectionSettings : Type 0 where
  pub active_interval : Duration
  pub idle_interval : Duration
  pub provider_minimum : Duration

unfoldable pub default_collection_settings : CollectionSettings
default_collection_settings = record {
  active_interval = default_active_interval;
  idle_interval = default_idle_interval;
  provider_minimum = provider_safe_minimum;
}

-- `true` where the code returns no error.
unfoldable pub validate_collection_settings : CollectionSettings → Bool
validate_collection_settings s =
    let least = if eqb s.provider_minimum 0 then provider_safe_minimum else s.provider_minimum in
    not (
      not (eqb least provider_safe_minimum)
      || ltb s.active_interval least
      || ltb s.idle_interval least
      || ltb maximum_interval s.active_interval
      || ltb maximum_interval s.idle_interval)

pub record ScheduleState : Type 0 where
  pub last_attempt_at : Time
  pub next_attempt_at : Time
  pub consecutive_failures : ℕ
  pub last_outcome : Outcome

pub record ScheduleTarget : Type 0 where
  pub profile : ProfileTarget
  pub active : Bool
  pub latest : Snapshot
  pub state : ScheduleState

abbrev pub interval_of : ScheduleTarget → CollectionSettings → Duration
interval_of t s = if t.active then s.active_interval else s.idle_interval

unfoldable pub periodic_trigger : ScheduleTarget → Trigger
periodic_trigger t = if t.active then periodic_active else periodic_idle

-- The boundary at which a window's reset is looked at: the approach of the reset while that is
-- still ahead, the reset itself later.
unfoldable pub reset_boundary : Time → Time → Time → Time
reset_boundary captured now reset =
    let alert = reset - reset_approaching_lead in
    if after alert now || (eqb alert now && before captured now) then alert else reset

-- One turn of the loop over the observations.
unfoldable pub consider_reset : Time → Time → Option Time → Time × Trigger → Time × Trigger
consider_reset captured now none due = due
consider_reset captured now (some reset) (due, trigger) =
    let boundary = reset_boundary captured now reset in
    if after boundary now && before boundary due then (boundary, periodic_reset) else (due, trigger)

unfoldable pub earliest_reset : Time → Time → List Observation → Time × Trigger → Time × Trigger
earliest_reset captured now [] due = due
earliest_reset captured now (o ∷ os) due =
    earliest_reset captured now os (consider_reset captured now o.window_end due)

unfoldable pub scheduled_attempt_from_evidence :
    ScheduleTarget → CollectionSettings → Time → Time × Trigger
unfolding periodic_trigger
scheduled_attempt_from_evidence t s now =
    let captured = t.latest.captured_at in
    let floor = captured + s.provider_minimum in
    let (due, trigger) =
      earliest_reset captured now t.latest.observations
        (captured + interval_of t s, periodic_trigger t) in
    if is_zero captured
    then (now, periodic_trigger t)
    else if before due floor
    then (floor, trigger)
    else (due, trigger)

-- Does the planned attempt stand at the reset of one of the windows, or at its approach?
unfoldable pub at_reset : Time → List Observation → Bool
at_reset next [] = false
at_reset next (o ∷ os) =
    elim o.window_end [
      | none ↦ false
      | some reset ↦ eqb reset next || eqb (reset - reset_approaching_lead) next
    ]
    || at_reset next os

unfoldable pub is_failed : Outcome → Bool
is_failed failed = true
is_failed _ = false

unfoldable pub is_reset : Trigger → Bool
is_reset periodic_reset = true
is_reset _ = false

unfoldable pub next_scheduled_attempt : ScheduleTarget → CollectionSettings → Time → Time × Trigger
unfolding is_failed is_reset periodic_trigger
next_scheduled_attempt t s now =
    let next = t.state.next_attempt_at in
    let (due, trigger) = scheduled_attempt_from_evidence t s now in
    let kept = not (before next due) && not (after next (due + interval_of t s / 10)) in
    if is_zero next
    then (due, trigger)
    else if at_reset next t.latest.observations
    then (next, periodic_reset)
    else if is_failed t.state.last_outcome && ltb 0 t.state.consecutive_failures
    then (next, periodic_trigger t)
    else if is_zero t.latest.captured_at
    then (next, periodic_trigger t)
    else if is_reset trigger
    then (if eqb next due then (next, trigger) else (due, trigger))
    else if kept
    then (next, trigger)
    else (due, trigger)

unfoldable pub target_without_persisted_attempt : ScheduleTarget → ScheduleTarget
target_without_persisted_attempt t = record t { state = record (t.state) { next_attempt_at = 0 } }
