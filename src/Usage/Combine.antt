-- ===== src/Usage/Combine.antt =====
-- internal/usage/usage.go: Combine, with combineWithRegistry, and DeduplicateCombinedEvidence. The
-- maps of the code are lists whose elements carry the key; a list that is only searched has its
-- newest element first. The addition of float64 and the sorts are parameters.
pub mod Disjoint
pub mod View
pub mod Repeats
pub mod Certain
mod Examples
use codex_folio.Base.{
  ℕ, suc, zero, ◌+◌, Bool, true, false, ◌&&◌, ◌||◌, not, List, [], ◌∷◌, ◌++◌, Option, none, some,
  String, ◌==◌, ◌!=◌, string_eq, is_some, if◌then◌else◌,
}
use codex_folio.Usage.Types.{
  Float, float_eq, float_zero, aggregation_sum, Metric, metric_eq, registry, Observation, Snapshot,
  windows_overlap,
}

-- scopeKey, the text of a scope: its prefix tells the three apart.
pub data ScopeKey : Type 0 where
  of_profile of_login_identity of_workspace : String → ScopeKey

unfoldable pub same_scope : ScopeKey → ScopeKey → Bool
same_scope (of_profile a) (of_profile b) = a == b
same_scope (of_login_identity a) (of_login_identity b) = a == b
same_scope (of_workspace a) (of_workspace b) = a == b
same_scope _ _ = false

unfoldable pub scope_key : Snapshot → Metric → ScopeKey
scope_key s m =
    if m.scope == "login_identity" && s.login_identity != ""
    then of_login_identity s.login_identity
    else if m.scope == "workspace" && s.workspace != ""
    then of_workspace s.workspace
    else of_profile s.profile_id

pub record Evidence : Type 0 where
  pub observation : Observation
  pub scope : ScopeKey
  pub profile_id : String

abbrev pub evidence : Snapshot → Observation → Evidence
evidence s o = record { observation = o; scope = scope_key s o.metric; profile_id = s.profile_id }

-- metrics[key]: a later metric of the same key replaces an earlier one.
unfoldable pub find_metric : List Metric → String → Option Metric
find_metric [] key = none
find_metric (m ∷ ms) key =
    let later = find_metric ms key in
    if is_some later then later else if m.key == key then some m else none

abbrev pub adds_up : Option Metric → Metric → Bool
adds_up none metric = false
adds_up (some m) metric =
    metric_eq m metric && m.aggregation == aggregation_sum && m.value_kind != "percentage"

-- Is the observation of a registered metric that is summed?
unfoldable pub is_summed : List Metric → Observation → Bool
unfolding find_metric
is_summed metrics o = adds_up (find_metric metrics o.metric.key) o.metric

-- Evidence of the same metric and scope with overlapping windows.
unfoldable pub is_same_evidence : Evidence → Evidence → Bool
unfolding same_scope
is_same_evidence e prior =
    prior.observation.metric.key == e.observation.metric.key
    && same_scope prior.scope e.scope
    && windows_overlap prior.observation e.observation

unfoldable pub any_prior : (Evidence → Bool) → List Evidence → Bool
any_prior test [] = false
any_prior test (e ∷ es) = test e || any_prior test es

unfoldable pub is_exact : Evidence → Evidence → Bool
unfolding is_same_evidence
is_exact e prior = is_same_evidence e prior && float_eq prior.observation.value e.observation.value

unfoldable pub is_conflict : Evidence → Evidence → Bool
unfolding is_same_evidence
is_conflict e prior =
    is_same_evidence e prior && not (float_eq prior.observation.value e.observation.value)

-- DeduplicateCombinedEvidence: the loop over the observations of a snapshot, with what was seen.
unfoldable pub deduplicate_observations :
    Snapshot → List Observation → List Evidence → List Observation × List Evidence
unfolding is_summed any_prior is_exact
deduplicate_observations s [] seen = ([], seen)
deduplicate_observations s (o ∷ os) seen =
    let e = evidence s o in
    let plain = deduplicate_observations s os seen in
    let rest = deduplicate_observations s os (e ∷ seen) in
    if not (is_summed registry o)
    then (o ∷ plain.0, plain.1)
    else if any_prior (is_exact e) seen
    then rest
    else (o ∷ rest.0, rest.1)

unfoldable pub deduplicate_snapshots : List Snapshot → List Evidence → List Snapshot
unfolding deduplicate_observations
deduplicate_snapshots [] seen = []
deduplicate_snapshots (s ∷ ss) seen =
    let kept = deduplicate_observations s s.observations seen in
    record s { observations = kept.0 } ∷ deduplicate_snapshots ss kept.1

unfoldable pub deduplicate_combined_evidence : List Snapshot → List Snapshot
unfolding deduplicate_snapshots
deduplicate_combined_evidence ss = deduplicate_snapshots ss []

-- The maps that combineWithRegistry fills; `profiles` is read off from `grouped`.
pub record Combined : Type 0 where
  pub seen : List Evidence
  pub grouped : List Evidence
  pub ambiguous : List String

unfoldable pub combine_observation : List Metric → Snapshot → Observation → Combined → Combined
unfolding is_summed any_prior is_same_evidence is_conflict
combine_observation metrics s o c =
    let e = evidence s o in
    if not (is_summed metrics o) then c else record {
      seen = e ∷ c.seen;
      grouped = if any_prior (is_same_evidence e) c.seen then c.grouped else c.grouped ++ e ∷ [];
      ambiguous =
          if any_prior (is_conflict e) c.seen then o.metric.key ∷ c.ambiguous else c.ambiguous;
    }

unfoldable pub combine_observations :
    List Metric → Snapshot → List Observation → Combined → Combined
unfolding combine_observation
combine_observations metrics s [] c = c
combine_observations metrics s (o ∷ os) c =
    combine_observations metrics s os (combine_observation metrics s o c)

unfoldable pub combine_snapshots : List Metric → List Snapshot → Combined → Combined
unfolding combine_observations
combine_snapshots metrics [] c = c
combine_snapshots metrics (s ∷ ss) c =
    combine_snapshots metrics ss (combine_observations metrics s s.observations c)

pub record Aggregate : Type 0 where
  pub metric : Option Metric
  pub value : Float
  pub profile_count : ℕ

unfoldable pub has_text : String → List String → Bool
has_text x [] = false
has_text x (y ∷ ys) = y == x || has_text x ys

-- The keys of a map, each once.
unfoldable pub keys_of : List Evidence → List String → List String
unfolding has_text
keys_of [] keys = keys
keys_of (e ∷ es) keys =
    let key = e.observation.metric.key in
    keys_of es (if has_text key keys then keys else keys ++ key ∷ [])

-- The sum over the evidence of a key, and the profiles that it is from.
unfoldable pub sum_values : (Float → Float → Float) → String → List Evidence → Float → Float
sum_values plus key [] value = value
sum_values plus key (e ∷ es) value =
    sum_values plus key es
      (if e.observation.metric.key == key then plus value e.observation.value else value)

unfoldable pub count_profiles : String → List Evidence → List String → ℕ
unfolding has_text
count_profiles key [] counted = 0
count_profiles key (e ∷ es) counted =
    let more = count_profiles key es (e.profile_id ∷ counted) in
    let same = count_profiles key es counted in
    if e.observation.metric.key == key && not (has_text e.profile_id counted)
    then suc more
    else same

pub record DashboardView : Type 0 where
  pub eligible_profile_count : ℕ
  pub profiles : List Snapshot
  pub aggregates : List Aggregate
  pub ambiguous_metric_keys : List String

pub record Sorts : Type 0 where
  pub plus : Float → Float → Float
  pub by_metric_key : List Aggregate → List Aggregate
  pub strings : List String → List String

unfoldable pub aggregate_of : Sorts → List Metric → Combined → String → Aggregate
unfolding sum_values count_profiles find_metric
aggregate_of sorts metrics c key = record {
  metric = find_metric metrics key;
  value = sum_values sorts.plus key c.grouped float_zero;
  profile_count = count_profiles key c.grouped [];
}

-- The loop over the groups: a key that is ambiguous is named, and the others are summed.
unfoldable pub ambiguous_keys : Combined → List String → List String
unfolding has_text
ambiguous_keys c [] = []
ambiguous_keys c (key ∷ keys) =
    let rest = ambiguous_keys c keys in if has_text key c.ambiguous then key ∷ rest else rest

unfoldable pub aggregates_of : Sorts → List Metric → Combined → List String → List Aggregate
unfolding aggregate_of has_text
aggregates_of sorts metrics c [] = []
aggregates_of sorts metrics c (key ∷ keys) =
    let rest = aggregates_of sorts metrics c keys in
    if has_text key c.ambiguous then rest else aggregate_of sorts metrics c key ∷ rest

abbrev pub nothing_seen : Combined
nothing_seen = record { seen = []; grouped = []; ambiguous = [] }

unfoldable pub combine_with_registry : Sorts → List Snapshot → ℕ → List Metric → DashboardView
unfolding combine_snapshots keys_of aggregates_of ambiguous_keys
combine_with_registry sorts ss eligible metrics =
    let c = combine_snapshots metrics ss nothing_seen in
    record {
      eligible_profile_count = eligible;
      profiles = ss;
      aggregates = sorts.by_metric_key (aggregates_of sorts metrics c (keys_of c.grouped []));
      ambiguous_metric_keys = sorts.strings (ambiguous_keys c (keys_of c.grouped []));
    }

unfoldable pub combine : Sorts → List Snapshot → ℕ → DashboardView
unfolding combine_with_registry
combine sorts ss eligible = combine_with_registry sorts ss eligible registry
