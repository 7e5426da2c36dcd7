-- ===== src/Usage/Schedule/Examples.antt =====
-- Concrete runs of the scheduler (internal/usage/scheduler.go).
use codex_folio.Base.{
  ℕ, ◌+◌, ◌*◌, ◌-◌, ◌/◌, ◌%◌, ◌^◌, ◌≡◌, ◌≢◌, ◌≤◌, ◌⊎◌, refl, true, false, [], ◌∷◌, none, some, min,
  max, arith, hour, Time, minute,
}
use codex_folio.Usage.Types.{Observation, Snapshot, ProfileTarget, primary, no_snapshot, float_zero}
use codex_folio.Usage.Schedule.{
  CollectionSettings, ScheduleTarget, ScheduleState, Outcome, unset, succeeded,
  default_collection_settings, validate_collection_settings, interval_of,
  scheduled_attempt_from_evidence, next_scheduled_attempt, at_reset, earliest_reset, consider_reset,
  reset_boundary, is_failed, max_collections_per_tick, max_schedule_targets,
}
use codex_folio.Usage.Schedule.Backoff.{
  pos, neg, maximum_backoff, exponential_backoff, exponential_backoff_closed,
}
use codex_folio.Usage.Schedule.Due.{
  reset_boundaries, earliest_of, scheduled_due_closed, next_attempt_follows_evidence,
}
use codex_folio.Usage.Schedule.Tick.{
  Environment, ok, Scheduler, tick, tick_with_settings, tick_with_targets, run_tick, tick_loop,
  inspect, collect, save, after_success, target_less,
}
use codex_folio.Usage.Schedule.Tick.Bounds.{refreshes, Bounded, tick_bounds}
use codex_folio.Usage.Schedule.Tick.Visits.{Visited}
use codex_folio.Usage.Schedule.Tick.Spacing.{Trusted, AllJustified, tick_spacing}
use codex_folio.Usage.Schedule.Tick.Advance.{tick_progress}

abbrev noon : Time
noon = 1000 * hour

abbrev work_profile : ProfileTarget
work_profile = record {
  id = "p1";
  alias = "work";
  identity_home = "home";
  login_identity = "login";
  workspace = "space";
  selected = true;
  eligible = true;
}

-- A window that resets an hour after noon.
abbrev resetting : Observation
resetting = record {
  id = "o1";
  metric = primary;
  value = float_zero;
  observed_at = noon;
  captured_at = noon;
  capture_age_seconds = 0;
  window_start = some (noon - hour);
  window_end = some (noon + hour);
  window_timezone = "UTC";
  source = "codex_app_server";
  source_version = "v2";
  provenance = "Provider-reported Metric";
  freshness = "fresh";
  availability = "available";
  assumptions = "";
  uncertainty = "";
}

abbrev snapshot_at_noon : Snapshot
snapshot_at_noon = record no_snapshot { captured_at = noon; observations = resetting ∷ [] }

abbrev new_state : ScheduleState
new_state = record {
  last_attempt_at = 0;
  next_attempt_at = 0;
  consecutive_failures = 0;
  last_outcome = unset;
}

abbrev new_target : ScheduleTarget
new_target = record {
  profile = work_profile;
  active = true;
  latest = no_snapshot;
  state = new_state;
}

abbrev seen_target : ScheduleTarget
seen_target = record new_target { latest = snapshot_at_noon }

abbrev planned_target : ScheduleTarget
planned_target = record seen_target {
  state = record new_state { next_attempt_at = noon + 5 * minute; last_outcome = succeeded };
}

abbrev failed_target : ScheduleTarget
failed_target = record seen_target {
  state = record {
    last_attempt_at = noon;
    next_attempt_at = noon + 10 * minute;
    consecutive_failures = 2;
    last_outcome = Outcome.failed;
  };
}

abbrev settings : CollectionSettings
settings = default_collection_settings

abbrev environment : Environment
environment = record {
  now = noon;
  collection_settings = ok settings;
  collection_schedule_targets = ok (new_target ∷ seen_target ∷ []);
  save_collection_schedule_state = λ log id state. none;
  refresh = λ log alias trigger. ok snapshot_at_noon;
  jitter = λ d. pos 7;
  sort_stable = λ less ts. ts;
  text_lt = λ a b. false;
}

abbrev idle : Scheduler
idle = record { running = false; cursor = 0 }

jitter_positive : {n m : ℕ} → pos n ≢ neg m
jitter_positive e = cc

trusted : Trusted environment
trusted = record { jitter_bounded = λ d. jitter_positive }

valid_settings : validate_collection_settings settings ≡ true
unfolding validate_collection_settings default_collection_settings
valid_settings = refl

positive_minimum : settings.provider_minimum ≢ 0
unfolding default_collection_settings
positive_minimum = omega arith

-- Both targets of the example: the new one is collected, the one just seen is planned.
good_end : (tick environment idle).error ≡ none
unfolding tick tick_with_settings tick_with_targets run_tick tick_loop inspect collect save
    after_success validate_collection_settings default_collection_settings next_scheduled_attempt
    scheduled_attempt_from_evidence earliest_reset consider_reset reset_boundary
good_end = refl

exponential_backoff_closed_example :
    exponential_backoff 3 (5 * minute) ≡ min (5 * minute * 2 ^ (3 - 1)) maximum_backoff
exponential_backoff_closed_example = exponential_backoff_closed 3 (5 * minute) (omega arith)

scheduled_due_closed_example :
    (scheduled_attempt_from_evidence seen_target settings noon).0
    ≡ max (noon + settings.provider_minimum) (
        earliest_of
          (noon + interval_of seen_target settings)
          (reset_boundaries noon noon (resetting ∷ [])))
scheduled_due_closed_example = scheduled_due_closed seen_target settings noon (omega arith)

planned_not_reset :
    at_reset planned_target.state.next_attempt_at planned_target.latest.observations ≡ false
unfolding at_reset
planned_not_reset = refl

planned_not_failed : is_failed planned_target.state.last_outcome ≡ false
unfolding is_failed
planned_not_failed = refl

next_attempt_follows_evidence_example :
    ((scheduled_attempt_from_evidence planned_target settings noon).0
      ≤ (next_scheduled_attempt planned_target settings noon).0)
    × ((next_scheduled_attempt planned_target settings noon).0
        ≤ (scheduled_attempt_from_evidence planned_target settings noon).0
          + interval_of planned_target settings / 10)
next_attempt_follows_evidence_example =
    next_attempt_follows_evidence planned_target settings noon (omega arith) planned_not_reset
      planned_not_failed

failed_is_failed : is_failed failed_target.state.last_outcome ≡ true
unfolding is_failed
failed_is_failed = refl

tick_bounds_example : Bounded environment (tick environment idle)
tick_bounds_example = tick_bounds environment idle

tick_spacing_example :
    AllJustified environment settings
      (environment.sort_stable (target_less environment) (new_target ∷ seen_target ∷ []))
      (tick environment idle).log
tick_spacing_example =
    tick_spacing environment idle settings (new_target ∷ seen_target ∷ []) trusted refl
      positive_minimum refl

tick_progress_example :
    (n : ℕ) × ((tick environment idle).scheduler.cursor ≡ (0 + n) % 2 ^ 64)
    × Visited environment settings (new_target ∷ seen_target ∷ []) 0 n (tick environment idle).log
    × (min 2 max_collections_per_tick ≤ n)
    × (n ≤ min 2 max_schedule_targets)
    × ((n ≡ min 2 max_schedule_targets)
        ⊎ (refreshes (tick environment idle).log ≡ max_collections_per_tick))
tick_progress_example =
    tick_progress environment idle settings (new_target ∷ seen_target ∷ []) (λ ts. refl) refl
      (omega arith) refl valid_settings refl good_end
