-- ===== src/Usage/Combine/Examples.antt =====
-- The evidence of two profiles of one login identity (internal/usage/usage.go).
use codex_folio.Base.{◌≡◌, refl, ◌*◌, true, List, [], ◌∷◌, some, hour, ◌+◌}
use codex_folio.Usage.Types.{
  Float, nan, pos, registry, metric_eq, Observation, Snapshot, no_snapshot, tokens_used,
  windows_overlap, overlap, float_eq,
}
use codex_folio.Usage.Combine.{
  is_summed, find_metric, same_scope, scope_key, is_same_evidence, is_exact, any_prior,
  deduplicate_observations, deduplicate_snapshots, deduplicate_combined_evidence, Sorts,
}
use codex_folio.Usage.Combine.View.{offered}
use codex_folio.Usage.Combine.Repeats.{Sieves, no_repeats, deduplicate_keeps_first}

abbrev tokens : Observation
tokens = record {
  id = "";
  metric = tokens_used;
  value = pos 5;
  observed_at = 1000 * hour;
  captured_at = 1000 * hour;
  capture_age_seconds = 0;
  window_start = some (999 * hour);
  window_end = some (1000 * hour);
  window_timezone = "UTC";
  source = "codex_local";
  source_version = "v2";
  provenance = "Locally-derived Metric";
  freshness = "fresh";
  availability = "available";
  assumptions = "";
  uncertainty = "";
}

abbrev work : Snapshot
work = record no_snapshot { profile_id = "a"; login_identity = "me"; observations = tokens ∷ [] }

abbrev play : Snapshot
play = record work { profile_id = "b" }

abbrev both : List Snapshot
both = work ∷ play ∷ []

-- The second profile repeats the first.
repeated : deduplicate_combined_evidence both ≡ work ∷ record play { observations = [] } ∷ []
unfolding deduplicate_combined_evidence deduplicate_snapshots deduplicate_observations is_summed
    find_metric registry metric_eq any_prior is_exact is_same_evidence same_scope scope_key
    windows_overlap overlap float_eq
repeated = refl

-- Sorts and an addition that the example needs.
abbrev plus : Float → Float → Float
plus (pos a) (pos b) = pos (a + b)
plus _ _ = nan

abbrev as_given : Sorts
as_given = record { plus = plus; by_metric_key = λ all. all; strings = λ all. all }

deduplicate_keeps_first_example :
    let kept = offered registry (deduplicate_combined_evidence both) [] in
    Sieves kept (offered registry both []) × (no_repeats kept ≡ true)
deduplicate_keeps_first_example = deduplicate_keeps_first both
