-- ===== src/Usage/Ranking/Examples.antt =====
-- Concrete runs of the ranking (internal/usage/ranking.go).
use codex_folio.Base.{
  ◌==◌, string_eq, ◌+◌, ◌*◌, ◌-◌, ◌^◌, ◌≡◌, ◌≢◌, ◌⊎◌, Bool, refl, true, false, String, List, [],
  ◌∷◌, some, arith, hour, Time, map, sym, ◌∙◌, ap, In,
}
use codex_folio.Usage.Types.{
  Observation, Snapshot, ProfileTarget, MetricAvailability, Metric, primary, secondary, no_snapshot,
  Float, pos, registry, metric_eq, float_le, float_zero, hundred, float_eq, float_lt, overlap,
  windows_overlap,
}
use codex_folio.Usage.Capacity.{
  fresh, provider_capacity, measure_all, measure, scan_availability, scan_observations, is_foreign,
  is_unusable, all_cover, conclude, covers, found_one, is_aged, window_ordered,
}
use codex_folio.Usage.Capacity.Evidence.{IsFresh, provider_capacity-IsFresh}
use codex_folio.Usage.Ranking.{
  Candidate, Entry, entry_of, rank, any_unknown, compare_all, recommend, by_profile, judge, choose,
  any_exhausted, compare_window, compare_windows, consider, dominate, is_shared, is_unknown,
  is_winner, mark, same_terms, settle, versus, window_length, won_by,
}
use codex_folio.Usage.Ranking.Counts.{lift, compare_all-certain}
use codex_folio.Usage.Ranking.Winner.{Recommended, rank-Recommended}

abbrev pub noon : Time
noon = 1000 * hour

abbrev percent : Metric → Float → Observation
percent m v = record {
  id = "";
  metric = m;
  value = v;
  observed_at = noon;
  captured_at = noon;
  capture_age_seconds = 0;
  window_start = some (noon - hour);
  window_end = some (noon + hour);
  window_timezone = "UTC";
  source = "codex_app_server";
  source_version = "v2";
  provenance = "Provider-reported Metric";
  freshness = "fresh";
  availability = "available";
  assumptions = "";
  uncertainty = "";
}

abbrev available : Metric → MetricAvailability
available m = record {
  id = "";
  metric_key = m.key;
  state = "available";
  reason = "";
  checked_at = noon;
  provenance = "Provider-reported Metric";
}

abbrev pub profile : String → ProfileTarget
profile id = record {
  id = id;
  alias = id;
  identity_home = "home";
  login_identity = id;
  workspace = "space";
  selected = false;
  eligible = true;
}

abbrev pub snapshot_of : String → Float → Float → Snapshot
snapshot_of id first second = record no_snapshot {
  profile_id = id;
  captured_at = noon;
  login_identity = id;
  workspace = "space";
  observations = percent primary first ∷ percent secondary second ∷ [];
  availability = available primary ∷ available secondary ∷ [];
}

abbrev pub twenty : Float
twenty = pos (20 * 2 ^ 1074)

abbrev pub forty : Float
forty = pos (40 * 2 ^ 1074)

-- "work" has used less than "home" in the first window, and as much in the second.
abbrev snapshots : List Snapshot
snapshots = snapshot_of "work" twenty forty ∷ snapshot_of "home" forty forty ∷ []

abbrev profiles : List ProfileTarget
profiles = profile "home" ∷ profile "work" ∷ []

abbrev pub keep : (Candidate → Candidate → Bool) → List Candidate → List Candidate
keep less cs = cs

abbrev pub lower : String → String
lower s = s

abbrev pub never : String → String → Bool
never a b = false

recommended : (rank keep lower never profiles snapshots noon true).1 ≡ "work"
unfolding rank recommend choose compare_all entry_of provider_capacity measure_all registry measure
    scan_availability by_profile scan_observations is_foreign metric_eq is_unusable float_le
    float_zero hundred all_cover conclude covers found_one is_aged window_ordered any_exhausted
    any_unknown compare_window compare_windows consider dominate is_shared is_unknown is_winner
    judge mark same_terms settle versus window_length won_by float_eq float_lt overlap
    windows_overlap
recommended = refl

abbrev entries : List Entry
entries = map (entry_of snapshots noon true) profiles

certain : (compare_all 2 entries false).1 ≡ false
unfolding compare_all entry_of provider_capacity measure_all registry measure scan_availability
    by_profile scan_observations is_foreign metric_eq is_unusable float_le float_zero hundred
    all_cover conclude covers found_one is_aged window_ordered compare_window compare_windows
    dominate is_shared judge mark same_terms settle versus window_length float_eq float_lt overlap
    windows_overlap
certain = refl

is_recommended : String → Bool
is_recommended s = s == "work"

recommends : (rank keep lower never profiles snapshots noon true).1 ≢ ""
unfolding is_recommended
recommends e = let clash : true ≡ false = ap is_recommended (sym recommended ∙ e) in cc

rank-Recommended_example :
    (p : ProfileTarget) × In p profiles
    × (p.id ≡ (rank keep lower never profiles snapshots noon true).1)
    × Recommended snapshots noon true profiles (entry_of snapshots noon true p)
rank-Recommended_example = rank-Recommended keep lower never snapshots noon true profiles recommends

compare_all-certain_example :
    (false ≡ false) × (compare_all 2 entries false ≡ (map (lift entries) entries, false))
compare_all-certain_example = compare_all-certain 2 entries false (omega arith) certain

provider_capacity-IsFresh_example :
    let (evidence, capacity) = provider_capacity (snapshot_of "work" twenty forty) noon in
    ((evidence ≡ []) × (capacity ≢ fresh))
    ⊎ ((capacity ≡ fresh) × IsFresh noon (snapshot_of "work" twenty forty) evidence)
provider_capacity-IsFresh_example = provider_capacity-IsFresh (snapshot_of "work" twenty forty) noon
