-- ===== src/Alerts/Examples.antt =====
-- A concrete evaluation (internal/alerts/alerts.go).
use codex_folio.Base.{
  ◌+◌, ◌-◌, ◌*◌, ◌^◌, ◌≡◌, refl, inl, Bool, true, false, String, List, [], ◌∷◌, none, some,
  string_eq, Time, hour, All, In,
}
use codex_folio.Usage.Types.{
  Float, nan, pos, hundred, float_le, float_lt, float_zero, Observation, MetricAvailability,
  primary, no_snapshot,
}
use codex_folio.Alerts.Evaluate.{
  Evidence, Key, Condition, capacity_critical, error, threshold_for, is_evidence, window_covers,
  availability_state, observation_condition, evaluate,
}
use codex_folio.Alerts.Supported.{IsSupported, evaluate-Supported}
use codex_folio.Alerts.Complete.{is_critical, evaluate-reports}

abbrev noon : Time
noon = 1000 * hour

-- The subtraction that the example needs.
abbrev minus : Float → Float → Float
minus (pos a) (pos b) = pos (a - b)
minus _ _ = nan

abbrev key_text : Key → String
key_text k = k.metric_key

abbrev never : String → String → Bool
never a b = false

abbrev keep : (Condition → Condition → Bool) → List Condition → List Condition
keep less cs = cs

abbrev used : Observation
used = record {
  id = "";
  metric = primary;
  value = pos (95 * 2 ^ 1074);
  observed_at = noon;
  captured_at = noon;
  capture_age_seconds = 0;
  window_start = some (noon - hour);
  window_end = some (noon + hour);
  window_timezone = "UTC";
  source = "codex_app_server";
  source_version = "v2";
  provenance = "Provider-reported Metric";
  freshness = "fresh";
  availability = "available";
  assumptions = "";
  uncertainty = "";
}

abbrev available : MetricAvailability
available = record {
  id = "";
  metric_key = primary.key;
  state = "available";
  reason = "";
  checked_at = noon;
  provenance = "Provider-reported Metric";
}

abbrev evidence : Evidence
evidence = record {
  profile_id = "p";
  alias = "work";
  profile_status = "ready";
  snapshot = record no_snapshot {
    captured_at = noon;
    observations = used ∷ [];
    availability = available ∷ [];
  };
  previous_source_version = "";
  consecutive_failures = 3;
  credit_expires_at = none;
}

evaluate-Supported_example :
    All
      (IsSupported minus key_text never keep evidence [] noon)
      (evaluate minus key_text never keep evidence [] noon)
evaluate-Supported_example =
    evaluate-Supported minus key_text never keep evidence [] noon (λ P less cs h. h)

counts : is_evidence evidence noon used ≡ true
unfolding is_evidence window_covers availability_state float_lt float_zero hundred
counts = refl

some_left : float_le (minus hundred used.value) float_zero ≡ false
unfolding hundred float_le float_lt float_zero
some_left = refl

five_left :
    float_le (minus hundred used.value) (threshold_for "p" primary.key []).critical_percent ≡ true
unfolding threshold_for hundred float_le float_lt float_zero
five_left = refl

evaluate-reports_example :
    In
      (observation_condition evidence used capacity_critical error
        (some (minus hundred used.value)))
      (evaluate minus key_text never keep evidence [] noon)
evaluate-reports_example =
    evaluate-reports minus key_text never keep evidence [] noon used capacity_critical error
      (λ c less cs m. m) (inl refl) counts (is_critical some_left five_left)
