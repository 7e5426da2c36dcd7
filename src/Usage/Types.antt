-- ===== src/Usage/Types.antt =====
-- internal/usage/usage.go: the metric registry, the evidence types and the constants.
-- Times are those of Base. Texts that the code compares are texts here.
use codex_folio.Base.{
  ℕ, ◌*◌, ◌^◌, String, Bool, true, false, ◌&&◌, ◌||◌, List, [], ◌∷◌, Option, ltb, eqb, ◌==◌, Time,
  Duration, minute, before, some, string_eq,
}

-- A float64 as the comparisons see it: a multiple of the smallest positive float, 2 ^ -1074, or a
-- NaN. `pos n` is n of them and `neg n` is -(n + 1). An infinity counts as a value past the largest
-- finite one.
pub data Float : Type 0 where
  nan : Float
  pos : ℕ → Float
  neg : ℕ → Float

unfoldable pub float_lt : Float → Float → Bool
float_lt nan b = false
float_lt (pos a) nan = false
float_lt (pos a) (pos b) = ltb a b
float_lt (pos a) (neg b) = false
float_lt (neg a) nan = false
float_lt (neg a) (pos b) = true
float_lt (neg a) (neg b) = ltb b a

unfoldable pub float_eq : Float → Float → Bool
float_eq nan b = false
float_eq (pos a) nan = false
float_eq (pos a) (pos b) = eqb a b
float_eq (pos a) (neg b) = false
float_eq (neg a) nan = false
float_eq (neg a) (pos b) = false
float_eq (neg a) (neg b) = eqb a b

unfoldable pub float_le : Float → Float → Bool
unfolding float_lt float_eq
float_le a b = float_lt a b || float_eq a b

unfoldable pub float_zero : Float
float_zero = pos 0

unfoldable pub hundred : Float
hundred = pos (100 * 2 ^ 1074)

-- Provenance of a value, and the class of source of a metric.
abbrev pub provenance_provider : String
provenance_provider = "Provider-reported Metric"

abbrev pub provenance_local : String
provenance_local = "Locally-derived Metric"

abbrev pub provenance_estimated : String
provenance_estimated = "Estimated Metric"

abbrev pub source_codex_app_server : String
source_codex_app_server = "codex_app_server"

abbrev pub aggregation_sum : String
aggregation_sum = "sum"

abbrev pub availability_available : String
availability_available = "available"

abbrev pub availability_unsupported : String
availability_unsupported = "unsupported"

abbrev pub availability_stale : String
availability_stale = "stale"

abbrev pub availability_reauthentication_required : String
availability_reauthentication_required = "reauthentication_required"

abbrev pub availability_partial : String
availability_partial = "partial"

abbrev pub availability_contradictory : String
availability_contradictory = "contradictory"

abbrev pub freshness_limit : Duration
freshness_limit = 10 * minute

pub record Metric : Type 0 where
  pub key : String
  pub value_kind : String
  pub unit : String
  pub source_class : String
  pub scope : String
  pub aggregation : String

-- `==` of two Metric structs.
unfoldable pub metric_eq : Metric → Metric → Bool
metric_eq a b =
    a.key == b.key
    && a.value_kind == b.value_kind
    && a.unit == b.unit
    && a.source_class == b.source_class
    && a.scope == b.scope
    && a.aggregation == b.aggregation

abbrev pub primary : Metric
primary = record {
  key = "codex.primary.used_percent";
  value_kind = "percentage";
  unit = "percent";
  source_class = provenance_provider;
  scope = "provider_quota_window";
  aggregation = "none";
}

abbrev pub secondary : Metric
secondary = record primary { key = "codex.secondary.used_percent" }

abbrev pub tokens_used : Metric
tokens_used = record {
  key = "codex.local.tokens_used";
  value_kind = "count";
  unit = "tokens";
  source_class = provenance_local;
  scope = "login_identity";
  aggregation = aggregation_sum;
}

abbrev pub session_duration : Metric
session_duration = record {
  key = "codex.local.session_duration";
  value_kind = "duration";
  unit = "seconds";
  source_class = provenance_local;
  scope = "workspace";
  aggregation = aggregation_sum;
}

unfoldable pub registry : List Metric
registry = primary ∷ secondary ∷ tokens_used ∷ session_duration ∷ []

pub record Observation : Type 0 where
  pub id : String
  pub metric : Metric
  pub value : Float
  pub observed_at : Time
  pub captured_at : Time
  pub capture_age_seconds : ℕ
  pub window_start : Option Time
  pub window_end : Option Time
  pub window_timezone : String
  pub source : String
  pub source_version : String
  pub provenance : String
  pub freshness : String
  pub availability : String
  pub assumptions : String
  pub uncertainty : String

pub record MetricAvailability : Type 0 where
  pub id : String
  pub metric_key : String
  pub state : String
  pub reason : String
  pub checked_at : Time
  pub provenance : String

pub record Snapshot : Type 0 where
  pub id : String
  pub profile_id : String
  pub alias : String
  pub source : String
  pub source_version : String
  pub captured_at : Time
  pub status : String
  pub trigger_reason : String
  pub observations : List Observation
  pub availability : List MetricAvailability
  pub login_identity : String
  pub workspace : String

-- The zero value of the struct.
abbrev pub no_snapshot : Snapshot
no_snapshot = record {
  id = "";
  profile_id = "";
  alias = "";
  source = "";
  source_version = "";
  captured_at = 0;
  status = "";
  trigger_reason = "";
  observations = [];
  availability = [];
  login_identity = "";
  workspace = "";
}

pub record ProfileTarget : Type 0 where
  pub id : String
  pub alias : String
  pub identity_home : String
  pub login_identity : String
  pub workspace : String
  pub selected : Bool
  pub eligible : Bool

unfoldable pub overlap : Option Time → Option Time → Option Time → Option Time → Bool
overlap (some s) (some e) (some s') (some e') = before s e' && before s' e
overlap _ _ _ _ = true

-- Observations without a window overlap with every other.
unfoldable pub windows_overlap : Observation → Observation → Bool
unfolding overlap
windows_overlap a b = overlap a.window_start a.window_end b.window_start b.window_end
