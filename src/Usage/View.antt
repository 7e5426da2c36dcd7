-- ===== src/Usage/View.antt =====
-- internal/usage/usage.go: Service.view, with View and RankAlternatives, Service.Latest and
-- NewUnavailableSnapshot. The store's answers are parameters: of SQL, and of times, texts and sorts
-- the libraries.
pub mod Alternatives
pub mod Unavailable
mod Examples
use codex_folio.Base.{
  Attempt, done, fails, ◌>>=◌, require, require_some, ℕ, suc, zero, ◌+◌, Bool, true, false, ◌&&◌,
  ◌||◌, not, List, [], ◌∷◌, Option, none, some, String, ◌==◌, ◌!=◌, string_eq, Time, is_zero,
  get_elem?, map, if◌then◌else◌,
}
use codex_folio.Usage.Types.{
  registry, Metric, MetricAvailability, Snapshot, no_snapshot, ProfileTarget,
  source_codex_app_server,
}
use codex_folio.Usage.Finalize.{finalize_snapshot}
use codex_folio.Usage.Ranking.{Candidate, rank}
use codex_folio.Usage.Combine.{Sorts, Combined, DashboardView, combine}

abbrev pub scope_selected_profile : String
scope_selected_profile = "selected_profile"

abbrev pub scope_combined_identity : String
scope_combined_identity = "combined_identity"

pub data ServiceError : Type 0 where
  request_invalid source_invalid profile_unavailable store_failed : ServiceError

abbrev pub Outcome : Type 0 → Type 0
Outcome A = Attempt ServiceError A

-- What the store answers, the clock, and the functions of libraries.
pub record Environment : Type 0 where
  pub resolve_usage_profile : String → Outcome ProfileTarget
  pub list_usage_profiles : Outcome (List ProfileTarget)
  pub latest_usage_snapshot : ProfileTarget → Outcome Snapshot
  pub now : Time
  pub sort_slice : (Candidate → Candidate → Bool) → List Candidate → List Candidate
  pub to_lower : String → String
  pub text_lt : String → String → Bool
  pub sorts : Sorts
  -- The snapshots in the order of the candidates.
  pub by_candidate : List Candidate → List Snapshot → List Snapshot

pub record View : Type 0 where
  pub scope : String
  pub dashboard : DashboardView
  pub candidates : List Candidate
  pub recommended_profile_id : String

unfoldable pub other_targets : String → List ProfileTarget → List ProfileTarget
other_targets excluded [] = []
other_targets excluded (p ∷ ps) =
    let rest = other_targets excluded ps in if p.id != excluded then p ∷ rest else rest

unfoldable pub kept_targets : String → List ProfileTarget → List ProfileTarget
unfolding other_targets
kept_targets excluded ps = if excluded != "" then other_targets excluded ps else ps

abbrev pub is_unavailable : ServiceError → Bool
is_unavailable profile_unavailable = true
is_unavailable request_invalid = false
is_unavailable source_invalid = false
is_unavailable store_failed = false

abbrev pub with_snapshot :
    Time → Outcome Snapshot → Outcome (List Snapshot) → Outcome (List Snapshot)
with_snapshot now (fails e) rest = if is_unavailable e then rest else fails e
with_snapshot now (done s) rest =
    require_some (finalize_snapshot s now) source_invalid >>= λ s'. rest >>= λ ss. done (s' ∷ ss)

-- The loop over the profiles: one without a snapshot is passed over.
unfoldable pub latest_snapshots : Environment → List ProfileTarget → Outcome (List Snapshot)
latest_snapshots env [] = done []
latest_snapshots env (p ∷ ps) =
    with_snapshot env.now (env.latest_usage_snapshot p) (latest_snapshots env ps)

unfoldable pub count_eligible : List Candidate → ℕ
count_eligible [] = 0
count_eligible (c ∷ cs) = (if c.eligible then 1 else 0) + count_eligible cs

-- order[id]: the last place of the profile among the candidates, or 0.
unfoldable pub order_among : String → List Candidate → ℕ → ℕ → ℕ
order_among id [] i found = found
order_among id (c ∷ cs) i found =
    order_among id cs (suc i) (if c.profile_id == id then i else found)

abbrev pub one_candidate : Option Candidate → List Candidate
one_candidate none = []
one_candidate (some c) = c ∷ []

unfoldable pub snapshots_of : String → List Snapshot → List Snapshot
snapshots_of id [] = []
snapshots_of id (s ∷ ss) =
    let rest = snapshots_of id ss in if s.profile_id == id then s ∷ rest else rest

unfoldable pub selected_view : ProfileTarget → List Candidate → String → List Snapshot → View
unfolding count_eligible order_among snapshots_of
selected_view p candidates recommended snapshots = record {
  scope = scope_selected_profile;
  dashboard = record {
    eligible_profile_count = count_eligible candidates;
    profiles = snapshots_of p.id snapshots;
    aggregates = [];
    ambiguous_metric_keys = [];
  };
  candidates = one_candidate (get_elem? candidates (order_among p.id candidates 0 0));
  recommended_profile_id = if recommended == p.id then recommended else "";
}

unfoldable pub first_selected : List ProfileTarget → Option ProfileTarget
first_selected [] = none
first_selected (p ∷ ps) = if p.selected then some p else first_selected ps

unfoldable pub combined_view : Environment → List Candidate → String → List Snapshot → View
unfolding count_eligible
combined_view env candidates recommended snapshots = record {
  scope = scope_combined_identity;
  dashboard = combine env.sorts snapshots (count_eligible candidates);
  candidates = candidates;
  recommended_profile_id = recommended;
}

unfoldable pub show :
    Environment
    → String
    → List ProfileTarget
    → List Snapshot
    → List Candidate × String
    → Outcome View
unfolding combined_view selected_view first_selected
show env scope targets snapshots (candidates, recommended) =
    if scope == scope_combined_identity
    then done (combined_view env candidates recommended (env.by_candidate candidates snapshots))
    else (require_some (first_selected targets) profile_unavailable >>= λ p.
        done (selected_view p candidates recommended (env.by_candidate candidates snapshots)))

-- Service.view; with no profile excluded, it is View.
unfoldable pub view : Environment → String → Bool → String → Outcome View
unfolding kept_targets latest_snapshots show
view env scope compatible excluded = do
  _ ←
      require (scope == "" || scope == scope_selected_profile || scope == scope_combined_identity)
        request_invalid
  listed ← env.list_usage_profiles
  _ ← require (not (is_zero env.now)) request_invalid
  snapshots ← latest_snapshots env (kept_targets excluded listed)
  show env scope (kept_targets excluded listed) snapshots (
      rank env.sort_slice env.to_lower env.text_lt (kept_targets excluded listed) snapshots env.now
        compatible)

unfoldable pub rank_alternatives : Environment → String → Bool → Outcome (List Candidate × String)
unfolding view
rank_alternatives env excluded compatible = do
  _ ← require (excluded != "") request_invalid
  v ← view env scope_combined_identity compatible excluded
  done (v.candidates, v.recommended_profile_id)

unfoldable pub latest : Environment → String → Outcome Snapshot
latest env alias = do
  _ ← require (alias != "") request_invalid
  target ← env.resolve_usage_profile alias
  s ← env.latest_usage_snapshot target
  _ ← require (not (is_zero env.now)) request_invalid
  require_some (finalize_snapshot s env.now) source_invalid

unfoldable pub unavailable_state : Time → String → String → Metric → MetricAvailability
unavailable_state captured_at state reason m = record {
  id = "";
  metric_key = m.key;
  state = state;
  reason = reason;
  checked_at = captured_at;
  provenance = m.source_class;
}

unfoldable pub new_unavailable_snapshot : String → Time → String → String → Snapshot
unfolding unavailable_state
new_unavailable_snapshot source_version captured_at state reason = record no_snapshot {
  source = source_codex_app_server;
  source_version = source_version;
  captured_at = captured_at;
  status = state;
  observations = [];
  availability = map (unavailable_state captured_at state reason) registry;
}
