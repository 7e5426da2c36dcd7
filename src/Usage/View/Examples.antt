-- ===== src/Usage/View/Examples.antt =====
-- The alternatives to a profile, and the snapshot of a failed collection (internal/usage/usage.go).
use codex_folio.Base.{
  done, fails, ◌≡◌, ◌≢◌, refl, sym, ap, ◌∙◌, Bool, true, false, List, [], ◌∷◌, String, ◌==◌,
  string_eq, In, if◌then◌else◌,
}
use codex_folio.Usage.Types.{
  float_le, float_lt, float_eq, float_zero, hundred, registry, metric_eq, overlap, windows_overlap,
  Snapshot, ProfileTarget,
}
use codex_folio.Usage.Finalize.{
  finalize_snapshot, finalize_observations, finalize_observation, freshness_at,
  captured_or_observed, fill_reason, project_current_quota_windows, keep_current, selected_window,
  prefer, stays, in_window, settle_states, settle_state, settle_observation, tally, count_in,
  state_of, snapshot_status, status_loop, has_key,
}
use codex_folio.Usage.Capacity.{
  provider_capacity, measure_all, measure, scan_availability, scan_observations, is_foreign,
  is_unusable, all_cover, conclude, covers, found_one, is_aged, window_ordered,
}
use codex_folio.Usage.Ranking.{
  Candidate, entry_of, by_profile, rank, recommend, choose, compare_all, any_exhausted, any_unknown,
  compare_window, compare_windows, consider, dominate, is_shared, is_unknown, is_winner, judge,
  mark, same_terms, settle, versus, window_length, won_by,
}
use codex_folio.Usage.Ranking.Winner.{Recommended}
use codex_folio.Usage.Ranking.Examples.{
  noon, profile, snapshot_of, twenty, forty, keep, lower, never,
}
use codex_folio.Usage.View.{
  Environment, Outcome, other_targets, kept_targets, latest_snapshots, combined_view, show, view,
  rank_alternatives,
}
use codex_folio.Usage.View.Alternatives.{rank_alternatives-Recommended}

abbrev listed : List ProfileTarget
listed = profile "work" ∷ profile "home" ∷ profile "away" ∷ []

-- "away" has used least, and is the one to leave.
abbrev world : Environment
world = record {
  resolve_usage_profile = λ alias. done (profile alias);
  list_usage_profiles = done listed;
  latest_usage_snapshot =
      λ p. done (snapshot_of p.id (if p.id == "work" then twenty else forty) forty);
  now = noon;
  sort_slice = keep;
  to_lower = lower;
  text_lt = never;
  sorts = record { plus = λ a b. a; by_metric_key = λ xs. xs; strings = λ ss. ss };
  by_candidate = λ cs ss. ss;
}

abbrev answer_of : Outcome (List Candidate × String) → List Candidate × String
answer_of (done a) = a
answer_of (fails e) = ([], "")

abbrev answer : List Candidate × String
answer = answer_of (rank_alternatives world "away" true)

answered : rank_alternatives world "away" true ≡ done answer
unfolding rank_alternatives view kept_targets other_targets latest_snapshots finalize_snapshot
    finalize_observations finalize_observation freshness_at captured_or_observed fill_reason
    project_current_quota_windows keep_current selected_window prefer stays in_window settle_states
    settle_state settle_observation tally count_in state_of snapshot_status status_loop has_key show
    combined_view
answered = refl

recommended : answer.1 ≡ "work"
unfolding rank_alternatives view kept_targets other_targets latest_snapshots finalize_snapshot
    finalize_observations finalize_observation freshness_at captured_or_observed fill_reason
    project_current_quota_windows keep_current selected_window prefer stays in_window settle_states
    settle_state settle_observation tally count_in state_of snapshot_status status_loop has_key show
    combined_view rank recommend choose compare_all entry_of provider_capacity measure_all registry
    measure scan_availability by_profile scan_observations is_foreign metric_eq is_unusable float_le
    float_zero hundred all_cover conclude covers found_one is_aged window_ordered any_exhausted
    any_unknown compare_window compare_windows consider dominate is_shared is_unknown is_winner
    judge mark same_terms settle versus window_length won_by float_eq float_lt overlap
    windows_overlap
recommended = refl

abbrev is_work : String → Bool
is_work s = s == "work"

recommends : answer.1 ≢ ""
recommends e = let clash : true ≡ false = ap is_work (sym recommended ∙ e) in cc

rank_alternatives-Recommended_example :
    (p : ProfileTarget) × (ss : List Snapshot) × In p listed
    × (p.id ≡ answer.1)
    × ((p.id == "away") ≡ false)
    × (latest_snapshots world (other_targets "away" listed) ≡ done ss)
    × Recommended ss noon true (other_targets "away" listed) (entry_of ss noon true p)
rank_alternatives-Recommended_example =
    rank_alternatives-Recommended world "away" true listed answer refl answered recommends
