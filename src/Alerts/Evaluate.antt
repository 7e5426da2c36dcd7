-- ===== src/Alerts/Evaluate.antt =====
-- internal/alerts/alerts.go: Evaluate and what it calls. A constant of the code that names a
-- category, a kind or a severity is a constructor. A title and a guidance text are fixed for each kind,
-- and left out.
use codex_folio.Base.{
  ℕ, ◌*◌, ◌^◌, Bool, false, ◌&&◌, ◌||◌, not, String, List, [], ◌∷◌, ◌++◌, Option, none, some, ◌==◌,
  ◌!=◌, string_eq, Time, Duration, minute, before, after, since, ltb, leb, is_zero, if◌then◌else◌,
}
use codex_folio.Usage.Types.{
  Float, pos, float_lt, float_le, float_zero, hundred, Observation, MetricAvailability, Snapshot,
  provenance_provider, availability_available, availability_reauthentication_required,
}
use codex_folio.Usage.Schedule.{reset_approaching_lead}

abbrev pub default_warning_percent : Float
default_warning_percent = pos (20 * 2 ^ 1074)

abbrev pub default_critical_percent : Float
default_critical_percent = pos (10 * 2 ^ 1074)

abbrev stale_after : Duration
stale_after = 10 * minute

abbrev pub repeated_failure_count : ℕ
repeated_failure_count = 3

pub data Category : Type 0 where
  capacity reauthentication stale_data collection_failure compatibility : Category

pub data Kind : Type 0 where
  capacity_warning capacity_critical capacity_exhausted reset_approaching : Kind
  credit_expiry_approaching reauthentication_required stale_evidence : Kind
  repeated_collection_failure compatibility_changed : Kind

pub data Severity : Type 0 where
  info warning error : Severity

pub record Threshold : Type 0 where
  pub profile_id : String
  pub metric_key : String
  pub warning_percent : Float
  pub critical_percent : Float

unfoldable pub valid_threshold : Threshold → Bool
valid_threshold t =
    not (
      t.profile_id == ""
      || float_le t.warning_percent t.critical_percent
      || float_lt t.critical_percent float_zero
      || float_lt hundred t.warning_percent)
    && (t.metric_key == "codex.primary.used_percent"
        || t.metric_key == "codex.secondary.used_percent")

pub record Evidence : Type 0 where
  pub profile_id : String
  pub alias : String
  pub profile_status : String
  pub snapshot : Snapshot
  pub previous_source_version : String
  pub consecutive_failures : ℕ
  pub credit_expires_at : Option Time

-- The key of a condition before its parts are joined to one text.
pub record Key : Type 0 where
  pub profile_id : String
  pub kind : Kind
  pub metric_key : String
  pub start : Option Time
  pub end : Option Time

pub record Condition : Type 0 where
  pub key : Key
  pub profile_alias : String
  pub category : Category
  pub severity : Severity
  pub remaining_percent : Option Float
  pub source : String
  pub source_version : String
  pub provenance : String
  pub scope : String
  pub freshness : String
  pub availability_reason : String
  pub evidence_captured_at : Time
  pub observed_at : Time

unfoldable pub threshold_for : String → String → List Threshold → Threshold
unfolding valid_threshold
threshold_for profile metric [] = record {
  profile_id = profile;
  metric_key = metric;
  warning_percent = default_warning_percent;
  critical_percent = default_critical_percent;
}
threshold_for profile metric (t ∷ ts) =
    if t.profile_id == profile && t.metric_key == metric && valid_threshold t
    then t
    else threshold_for profile metric ts

unfoldable pub availability_reason : List MetricAvailability → String → String
availability_reason [] key = ""
availability_reason (a ∷ more) key =
    if a.metric_key == key then a.reason else availability_reason more key

-- availability[key]: the state of the last row of the key, or the empty text.
unfoldable pub availability_state : String → List MetricAvailability → String → String
availability_state key [] found = found
availability_state key (a ∷ more) found =
    availability_state key more (if a.metric_key == key then a.state else found)

unfoldable pub operational_reason : Kind → String
operational_reason reauthentication_required = "reauthentication_required"
operational_reason stale_evidence = "evidence_older_than_10_minutes"
operational_reason repeated_collection_failure = "collection_failed"
operational_reason compatibility_changed = "source_version_changed"
operational_reason _ = ""

unfoldable pub operational_condition : Evidence → Category → Kind → Severity → Time → Condition
operational_condition e category kind severity now = record {
  key = record {
    profile_id = e.profile_id;
    kind = kind;
    metric_key = "";
    start = none;
    end = none;
  };
  profile_alias = e.alias;
  category = category;
  severity = severity;
  remaining_percent = none;
  source = e.snapshot.source;
  source_version = e.snapshot.source_version;
  provenance = "";
  scope = "";
  freshness = "";
  availability_reason = operational_reason kind;
  evidence_captured_at = e.snapshot.captured_at;
  observed_at = if is_zero e.snapshot.captured_at then now else e.snapshot.captured_at;
}

unfoldable pub window_covers : Time → Option Time → Option Time → Bool
window_covers now (some start) (some end) =
    after end start && not (before now start) && before now end
window_covers now (some start) none = false
window_covers now none end = false

-- The observations that the loop does not skip.
unfoldable pub is_evidence : Evidence → Time → Observation → Bool
unfolding window_covers availability_state
is_evidence e now o =
    o.metric.value_kind == "percentage"
    && o.metric.unit == "percent"
    && o.provenance == provenance_provider
    && o.availability == availability_available
    && availability_state o.metric.key e.snapshot.availability "" == availability_available
    && not (float_lt o.value float_zero)
    && not (float_lt hundred o.value)
    && window_covers now o.window_start o.window_end

-- The kind and severity for what remains.
unfoldable pub capacity_kind : Float → Threshold → Option (Kind × Severity)
capacity_kind remaining t =
    if float_le remaining float_zero
    then some (capacity_exhausted, error)
    else if float_le remaining t.critical_percent
    then some (capacity_critical, error)
    else if float_le remaining t.warning_percent
    then some (capacity_warning, warning)
    else none

unfoldable pub observation_condition :
    Evidence → Observation → Kind → Severity → Option Float → Condition
unfolding availability_reason
observation_condition e o kind severity remaining = record {
  key = record {
    profile_id = e.profile_id;
    kind = kind;
    metric_key = o.metric.key;
    start = o.window_start;
    end = o.window_end;
  };
  profile_alias = e.alias;
  category = capacity;
  severity = severity;
  remaining_percent = remaining;
  source = o.source;
  source_version = o.source_version;
  provenance = o.provenance;
  scope = o.metric.scope;
  freshness = o.freshness;
  availability_reason = availability_reason e.snapshot.availability o.metric.key;
  evidence_captured_at = o.captured_at;
  observed_at = o.observed_at;
}

abbrev pub capacity_condition :
    Evidence → Observation → Float → Option (Kind × Severity) → List Condition
capacity_condition e o remaining none = []
capacity_condition e o remaining (some (kind, severity)) =
    observation_condition e o kind severity (some remaining) ∷ []

-- Is the instant ahead, and no more than half an hour away?
unfoldable pub approaches : Time → Option Time → Bool
approaches now none = false
approaches now (some t) = before now t && leb (since now t) reset_approaching_lead

-- `minus` is the subtraction of float64.
module _ (minus : Float → Float → Float) (e : Evidence) (thresholds : List Threshold)
    (now : Time) where
  unfoldable pub capacity_conditions : Observation → List Condition
  unfolding capacity_kind observation_condition approaches threshold_for
  capacity_conditions o =
      let remaining = minus hundred o.value in
      capacity_condition e o remaining
        (capacity_kind remaining (threshold_for e.profile_id o.metric.key thresholds))
      ++ (if approaches now o.window_end
          then observation_condition e o reset_approaching info none ∷ []
          else [])

  unfoldable pub observation_conditions : List Observation → List Condition
  unfolding is_evidence capacity_conditions
  observation_conditions [] = []
  observation_conditions (o ∷ os) =
      (if is_evidence e now o then capacity_conditions o else []) ++ observation_conditions os

unfoldable pub credit_condition : Evidence → Condition
credit_condition e = record {
  key = record {
    profile_id = e.profile_id;
    kind = credit_expiry_approaching;
    metric_key = "credits";
    start = none;
    end = e.credit_expires_at;
  };
  profile_alias = e.alias;
  category = capacity;
  severity = warning;
  remaining_percent = none;
  source = e.snapshot.source;
  source_version = e.snapshot.source_version;
  provenance = provenance_provider;
  scope = "";
  freshness = "";
  availability_reason = "";
  evidence_captured_at = e.snapshot.captured_at;
  observed_at = e.snapshot.captured_at;
}

unfoldable pub is_stale : Evidence → Time → Bool
is_stale e now =
    not (is_zero e.snapshot.captured_at) && ltb stale_after (since e.snapshot.captured_at now)

unfoldable pub version_changed : Evidence → Bool
version_changed e =
    e.previous_source_version != ""
    && e.snapshot.source_version != ""
    && e.previous_source_version != e.snapshot.source_version

-- `key_text` joins the parts of a key, times in their text form, and `sort_stable` is
-- sort.SliceStable by the order given.
module _ (minus : Float → Float → Float) (key_text : Key → String)
    (text_lt : String → String → Bool)
    (sort_stable : (Condition → Condition → Bool) → List Condition → List Condition) where
  unfoldable pub append_condition : List Condition → Condition → List Condition
  append_condition [] candidate = candidate ∷ []
  append_condition (c ∷ cs) candidate =
      if key_text c.key == key_text candidate.key then c ∷ cs else c ∷ append_condition cs candidate

  unfoldable pub append_if : Bool → List Condition → Condition → List Condition
  unfolding append_condition
  append_if test cs candidate = if test then append_condition cs candidate else cs

  abbrev pub reauthenticate : Evidence → Time → Condition
  reauthenticate e now =
      operational_condition e reauthentication reauthentication_required error now

  unfoldable pub reauthentications :
      Evidence → Time → List MetricAvailability → List Condition → List Condition
  unfolding append_if
  reauthentications e now [] cs = cs
  reauthentications e now (a ∷ more) cs =
      reauthentications e now more
        (append_if (a.state == availability_reauthentication_required) cs (reauthenticate e now))

  -- The conditions of the service behind those of the windows.
  unfoldable pub service_conditions : Evidence → Time → List Condition → List Condition
  unfolding is_stale version_changed append_if
  service_conditions e now cs =
      let stale =
        append_if (is_stale e now) cs
          (operational_condition e stale_data stale_evidence warning now) in
      let failed =
        append_if (leb repeated_failure_count e.consecutive_failures) stale
          (operational_condition e collection_failure repeated_collection_failure error now) in
      append_if (version_changed e) failed
        (operational_condition e compatibility compatibility_changed warning now)

  unfoldable pub evaluate : Evidence → List Threshold → Time → List Condition
  unfolding reauthentications service_conditions append_if
  evaluate e thresholds now =
      let first =
        append_if (e.profile_status == "needs_reauthentication")
          (reauthentications e now e.snapshot.availability []) (reauthenticate e now) in
      let windows =
        first ++ observation_conditions minus e thresholds now e.snapshot.observations in
      let credits =
        windows ++ (if approaches now e.credit_expires_at then credit_condition e ∷ [] else []) in
      sort_stable (λ a b. text_lt (key_text a.key) (key_text b.key))
        (service_conditions e now credits)
