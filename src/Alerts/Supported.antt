-- ===== src/Alerts/Supported.antt =====
-- Every condition that Evaluate returns is supported by the evidence (internal/alerts/alerts.go).
use codex_folio.Base.{
  ◌≡◌, ◌⊎◌, inl, inr, refl, Bool, true, false, ◌||◌, String, List, [], ◌∷◌, ◌++◌, none, some, ◌==◌,
  string_eq, Time, leb, if◌then◌else◌, All, In, Bool-cases, arith,
}
use codex_folio.Usage.Types.{
  Float, float_zero, hundred, float_le, Observation, MetricAvailability,
  availability_reauthentication_required,
}
use codex_folio.Alerts.Evaluate.{
  Kind, capacity_warning, capacity_critical, capacity_exhausted, reset_approaching,
  credit_expiry_approaching, reauthentication_required, stale_evidence, repeated_collection_failure,
  compatibility_changed, Severity, Threshold, Evidence, Key, Condition, threshold_for,
  operational_condition, is_evidence, capacity_kind, observation_condition, approaches,
  capacity_conditions, observation_conditions, credit_condition, append_condition, append_if,
  reauthentications, is_stale, version_changed, service_conditions, evaluate,
  repeated_failure_count,
}

-- Some row of the availability asks for a new authentication.
pub asks_again : List MetricAvailability → Bool
asks_again [] = false
asks_again (a ∷ more) = a.state == availability_reauthentication_required || asks_again more

All-append :
    (P : Condition → Type 0) (xs ys : List Condition) → All P xs → All P ys → All P (xs ++ ys)
All-append P [] ys h k = k
All-append P (x ∷ xs) ys h k = (h.0, All-append P xs ys h.1 k)

module _ (minus : Float → Float → Float) (key_text : Key → String)
    (text_lt : String → String → Bool)
    (sort_stable : (Condition → Condition → Bool) → List Condition → List Condition) (e : Evidence)
    (thresholds : List Threshold) (now : Time) where
  -- An observation that counts, of the metric and the window that the condition is about.
  abbrev pub FromWindow : Condition → Observation → Type 0
  FromWindow c o =
      In o e.snapshot.observations
      × (is_evidence e now o ≡ true)
      × (c.key.metric_key ≡ o.metric.key)
      × (c.key.start ≡ o.window_start)
      × (c.key.end ≡ o.window_end)

  abbrev pub FromCapacity : Condition → Kind → Type 0
  FromCapacity c kind =
      (o : Observation) × FromWindow c o
      × (capacity_kind (minus hundred o.value) (threshold_for e.profile_id o.metric.key thresholds)
          ≡ some (kind, c.severity))

  -- What the evidence says, for each kind of condition.
  abbrev pub SupportedAs : Condition → Kind → Type 0
  SupportedAs c capacity_warning = FromCapacity c capacity_warning
  SupportedAs c capacity_critical = FromCapacity c capacity_critical
  SupportedAs c capacity_exhausted = FromCapacity c capacity_exhausted
  SupportedAs c reset_approaching =
      (o : Observation) × FromWindow c o × (approaches now o.window_end ≡ true)
  SupportedAs c credit_expiry_approaching = approaches now e.credit_expires_at ≡ true
  SupportedAs c reauthentication_required =
      (asks_again e.snapshot.availability ≡ true)
      ⊎ ((e.profile_status == "needs_reauthentication") ≡ true)
  SupportedAs c stale_evidence = is_stale e now ≡ true
  SupportedAs c repeated_collection_failure =
      leb repeated_failure_count e.consecutive_failures ≡ true
  SupportedAs c compatibility_changed = version_changed e ≡ true

  abbrev pub IsSupported : Condition → Type 0
  IsSupported c = (c.key.profile_id ≡ e.profile_id) × SupportedAs c c.key.kind

  abbrev append_one : List Condition → Condition → List Condition
  append_one = append_condition minus key_text text_lt sort_stable

  append_condition-Supported :
      (cs : List Condition) (c : Condition)
      → All IsSupported cs
      → IsSupported c
      → All IsSupported (append_one cs c)
  unfolding append_condition
  append_condition-Supported [] c h k = (k, tt)
  append_condition-Supported (x ∷ cs) c h k = elim (Bool-cases (key_text x.key == key_text c.key)) [
    | inl same ↦ rw same h
    | inr other ↦ rw other (h.0, append_condition-Supported cs c h.1 k)
  ]

  append_if-Supported :
      (test : Bool) (cs : List Condition) (c : Condition)
      → All IsSupported cs
      → (test ≡ true → IsSupported c)
      → All IsSupported (append_if minus key_text text_lt sort_stable test cs c)
  unfolding append_if
  append_if-Supported true cs c h k = append_condition-Supported cs c h (k refl)
  append_if-Supported false cs c h k = h

  reauthentications-Supported :
      (rows : List MetricAvailability) (cs : List Condition)
      → (asks_again rows ≡ true → asks_again e.snapshot.availability ≡ true)
      → All IsSupported cs
      → All IsSupported (reauthentications minus key_text text_lt sort_stable e now rows cs)
  unfolding reauthentications operational_condition asks_again
  reauthentications-Supported [] cs up h = h
  reauthentications-Supported (a ∷ more) cs up h =
      reauthentications-Supported more _ (λ m. up (ground (arith, m)))
        (append_if-Supported (a.state == availability_reauthentication_required) cs _ h
          (λ t. (refl, inl (up (ground (arith, t))))))

  service_conditions-Supported :
      (cs : List Condition)
      → All IsSupported cs
      → All IsSupported (service_conditions minus key_text text_lt sort_stable e now cs)
  unfolding service_conditions operational_condition
  service_conditions-Supported cs h =
      append_if-Supported (version_changed e) _ _
        (append_if-Supported (leb repeated_failure_count e.consecutive_failures) _ _
          (append_if-Supported (is_stale e now) cs _ h (λ t. (refl, t))) (λ t. (refl, t)))
        (λ t. (refl, t))

  capacity_condition-Supported :
      (o : Observation)
      → In o e.snapshot.observations
      → is_evidence e now o ≡ true
      → All IsSupported (capacity_conditions minus e thresholds now o)
  unfolding capacity_conditions capacity_kind observation_condition
  capacity_condition-Supported o m h =
      let remaining = minus hundred o.value in
      let t = threshold_for e.profile_id o.metric.key thresholds in
      let resets : All IsSupported (
          if approaches now o.window_end
          then observation_condition e o reset_approaching Severity.info none ∷ []
          else []) =
        elim (Bool-cases (approaches now o.window_end)) [
          | inl near ↦ rw near ((refl, (o, (m, h, refl, refl, refl), near)), tt)
          | inr far ↦ rw far tt
        ] in
      elim (Bool-cases (float_le remaining float_zero)) [
        | inl none_left ↦
            rw none_left ((refl, (o, (m, h, refl, refl, refl), rw none_left refl)), resets)
        | inr some_left ↦ elim (Bool-cases (float_le remaining t.critical_percent)) [
          | inl low ↦
              rw (some_left, low)
                ((refl, (o, (m, h, refl, refl, refl), rw (some_left, low) refl)), resets)
          | inr more ↦ elim (Bool-cases (float_le remaining t.warning_percent)) [
            | inl less ↦
                rw (some_left, more, less)
                  ((refl, (o, (m, h, refl, refl, refl), rw (some_left, more, less) refl)), resets)
            | inr plenty ↦ rw (some_left, more, plenty) resets
          ]
        ]
      ]

  observation_conditions-Supported :
      (os : List Observation)
      → ((o : Observation) → In o os → In o e.snapshot.observations)
      → All IsSupported (observation_conditions minus e thresholds now os)
  unfolding observation_conditions
  observation_conditions-Supported [] up = tt
  observation_conditions-Supported (o ∷ os) up =
      let ih = observation_conditions-Supported os (λ x m. up x (inr m)) in
      elim (Bool-cases (is_evidence e now o)) [
        | inl counts ↦ rw counts (
            All-append IsSupported (capacity_conditions minus e thresholds now o) _
              (capacity_condition-Supported o (up o (inl refl)) counts) ih)
        | inr skipped ↦ rw skipped ih
      ]

-- Evaluate returns only conditions that the evidence supports: a capacity condition or an
-- approaching reset stems from an observation of its metric and window that counts and calls for it,
-- and each other condition from what it reports. The sort is taken to add no condition.
pub evaluate-Supported :
    (minus : Float → Float → Float) (key_text : Key → String) (text_lt : String → String → Bool)
    (sort_stable : (Condition → Condition → Bool) → List Condition → List Condition) (e : Evidence)
    (thresholds : List Threshold) (now : Time)
    → ((P : Condition → Type 0) (less : Condition → Condition → Bool) (cs : List Condition)
        → All P cs
        → All P (sort_stable less cs))
    → All
        (IsSupported minus key_text text_lt sort_stable e thresholds now)
        (evaluate minus key_text text_lt sort_stable e thresholds now)
unfolding evaluate operational_condition
evaluate-Supported minus key_text text_lt sort_stable e thresholds now keeps =
    let P = IsSupported minus key_text text_lt sort_stable e thresholds now in
    let again =
      reauthentications-Supported minus key_text text_lt sort_stable e thresholds now
        e.snapshot.availability [] (λ m. m) tt in
    let first =
      append_if-Supported minus key_text text_lt sort_stable e thresholds now
        (e.profile_status == "needs_reauthentication") _ _ again (λ t. (refl, inr t)) in
    let windows =
      All-append P _ (observation_conditions minus e thresholds now e.snapshot.observations) first (
        observation_conditions-Supported minus key_text text_lt sort_stable e thresholds now
          e.snapshot.observations (λ o m. m)) in
    let credit : All P
        (if approaches now e.credit_expires_at then credit_condition e ∷ [] else []) =
      elim (Bool-cases (approaches now e.credit_expires_at)) [
        | inl near ↦ rw near (unfold credit_condition in ((refl, near), tt))
        | inr far ↦ rw far tt
      ] in
    keeps P _ _ (
      service_conditions-Supported minus key_text text_lt sort_stable e thresholds now _
        (All-append P _ _ windows credit))
