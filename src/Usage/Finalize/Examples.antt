-- ===== src/Usage/Finalize/Examples.antt =====
-- Concrete snapshots that are finalized (internal/usage/usage.go).
use codex_folio.Base.{
  ◌+◌, ◌-◌, ◌*◌, ◌≡◌, ◌⊎◌, refl, true, false, ◌==◌, string_eq, List, [], ◌∷◌, Option, none, some,
  Time, hour, All, map,
}
use codex_folio.Usage.Types.{
  Observation, MetricAvailability, Snapshot, primary, no_snapshot, float_zero,
}
use codex_folio.Usage.Finalize.{
  Window, freshness_at, captured_or_observed, fill_reason, finalize_observation,
  finalize_observations, prefer, selected_window, in_window, stays, keep_current,
  project_current_quota_windows, count_in, tally, settle_state, has_key, settle_states, state_of,
  settle_observation, finalize_snapshot,
}
use codex_folio.Usage.Finalize.Current.{IsDated, all_backed, finalize_snapshot-current}
use codex_folio.Usage.Finalize.Windows.{
  is_current, any_current, project_current_quota_windows-current,
}

abbrev noon : Time
noon = 1000 * hour

-- A window of the metric, from `start` on, for two hours.
abbrev window : Time → Observation
window start = record {
  id = "";
  metric = primary;
  value = float_zero;
  observed_at = noon - 1;
  captured_at = 0;
  capture_age_seconds = 0;
  window_start = some start;
  window_end = some (start + 2 * hour);
  window_timezone = "";
  source = "";
  source_version = "";
  provenance = "Provider-reported Metric";
  freshness = "";
  availability = "";
  assumptions = "";
  uncertainty = "";
}

abbrev row : MetricAvailability
row = record {
  id = "";
  metric_key = primary.key;
  state = "available";
  reason = "";
  checked_at = noon;
  provenance = "Provider-reported Metric";
}

-- A window of the past, and the present one.
abbrev observations : List Observation
observations = window (noon - 5 * hour) ∷ window (noon - hour) ∷ []

abbrev stored : Snapshot
stored = record no_snapshot {
  source = "codex_app_server";
  source_version = "v2";
  captured_at = noon;
  observations = observations;
  availability = row ∷ [];
}

abbrev or_stored : Option Snapshot → Snapshot
or_stored none = no_snapshot
or_stored (some s) = s

abbrev final : Snapshot
final = or_stored (finalize_snapshot stored noon)

finalized : finalize_snapshot stored noon ≡ some final
unfolding finalize_snapshot finalize_observations finalize_observation freshness_at
    captured_or_observed
finalized = refl

one_left : map (λ o. o.freshness) final.observations ≡ "fresh" ∷ []
unfolding finalize_snapshot finalize_observations finalize_observation freshness_at
    captured_or_observed project_current_quota_windows keep_current stays in_window selected_window
    prefer settle_states settle_state has_key tally count_in settle_observation state_of fill_reason
    float_zero
one_left = refl

finalize_snapshot-current_example :
    All (IsDated noon) final.observations
    × (all_backed final.observations final.availability ≡ true)
finalize_snapshot-current_example = finalize_snapshot-current stored noon final finalized

covered : any_current noon primary.key observations ≡ true
unfolding any_current
covered = refl

project_current_quota_windows-current_example :
    (w : Window) × (is_current noon w ≡ true)
    × All
        (λ o.
          ((o.metric.key == primary.key) ≡ false)
          ⊎ (in_window w o.window_start o.window_end ≡ true))
        (project_current_quota_windows noon observations)
project_current_quota_windows-current_example =
    project_current_quota_windows-current noon primary.key observations covered
