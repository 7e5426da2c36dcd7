-- ===== src/Alerts/Complete.antt =====
-- Evaluate misses no capacity condition (internal/alerts/alerts.go).
use codex_folio.Base.{
  ◌≡◌, refl, ap, sym, ◌∙◌, subst, inl, inr, Bool, true, false, String, List, [], ◌∷◌, ◌++◌, none,
  some, ◌==◌, string_eq, Time, leb, if◌then◌else◌, In, Bool-cases,
}
use codex_folio.Usage.Types.{Float, float_le, float_zero, hundred, Observation}
use codex_folio.Alerts.Evaluate.{
  Kind, Severity, Threshold, Evidence, Key, Condition, threshold_for, is_evidence, capacity_kind,
  observation_condition, capacity_condition, capacity_conditions, observation_conditions,
  append_condition, append_if, approaches, is_stale, version_changed, service_conditions, evaluate,
  repeated_failure_count, reauthentications, operational_condition, reauthentication,
  reauthentication_required, error, credit_condition,
}

In-append_left : (c : Condition) (xs ys : List Condition) → In c xs → In c (xs ++ ys)
In-append_left c [] ys m = absurd m
In-append_left c (x ∷ xs) ys (inl here) = inl here
In-append_left c (x ∷ xs) ys (inr there) = inr (In-append_left c xs ys there)

In-append_right : (c : Condition) (xs ys : List Condition) → In c ys → In c (xs ++ ys)
In-append_right c [] ys m = m
In-append_right c (x ∷ xs) ys m = inr (In-append_right c xs ys m)

module _ (minus : Float → Float → Float) (key_text : Key → String)
    (text_lt : String → String → Bool)
    (sort_stable : (Condition → Condition → Bool) → List Condition → List Condition) (e : Evidence)
    (thresholds : List Threshold) (now : Time) where
  In-append_condition :
      (c d : Condition) (cs : List Condition)
      → In c cs
      → In c (append_condition minus key_text text_lt sort_stable cs d)
  unfolding append_condition
  In-append_condition c d [] m = absurd m
  In-append_condition c d (x ∷ cs) m = elim (Bool-cases (key_text x.key == key_text d.key)) [
    | inl same ↦ rw same m
    | inr other ↦
        rw other
          (elim m [ inl here ↦ inl here | inr there ↦ inr (In-append_condition c d cs there) ])
  ]

  In-append_if :
      (test : Bool) (c d : Condition) (cs : List Condition)
      → In c cs
      → In c (append_if minus key_text text_lt sort_stable test cs d)
  unfolding append_if
  In-append_if true c d cs m = In-append_condition c d cs m
  In-append_if false c d cs m = m

  In-service_conditions :
      (c : Condition) (cs : List Condition)
      → In c cs
      → In c (service_conditions minus key_text text_lt sort_stable e now cs)
  unfolding service_conditions
  In-service_conditions c cs m = In-append_if (version_changed e) c _ _ (
      In-append_if (leb repeated_failure_count e.consecutive_failures) c _ _
        (In-append_if (is_stale e now) c _ cs m))

  In-capacity_conditions :
      (o : Observation) (kind : Kind) (severity : Severity)
      → capacity_kind (minus hundred o.value) (threshold_for e.profile_id o.metric.key thresholds)
        ≡ some (kind, severity)
      → In
          (observation_condition e o kind severity (some (minus hundred o.value)))
          (capacity_conditions minus e thresholds now o)
  unfolding capacity_conditions
  In-capacity_conditions o kind severity h =
      subst
        (λ r. In (observation_condition e o kind severity (some (minus hundred o.value))) (
          capacity_condition e o (minus hundred o.value) r
          ++ (if approaches now o.window_end
              then observation_condition e o Kind.reset_approaching Severity.info none ∷ []
              else [])))
        (sym h) (inl refl)

  In-observation_conditions :
      (c : Condition) (o : Observation) (os : List Observation)
      → In o os
      → is_evidence e now o ≡ true
      → In c (capacity_conditions minus e thresholds now o)
      → In c (observation_conditions minus e thresholds now os)
  unfolding observation_conditions
  In-observation_conditions c o [] m h k = absurd m
  In-observation_conditions c o (x ∷ os) (inl here) h k =
      let counts : is_evidence e now x ≡ true = ap (is_evidence e now) here ∙ h in
      rw counts (
        In-append_left c _ _
          (subst (λ y. In c (capacity_conditions minus e thresholds now y)) (sym here) k))
  In-observation_conditions c o (x ∷ os) (inr there) h k =
      In-append_right c _ _ (In-observation_conditions c o os there h k)

-- What a rest calls for, from the most severe: at or below nothing, at or below the critical percentage,
-- at or below the warning percentage.
pub data Crosses : Float → Threshold → Kind → Severity → Type 0 where
  exhausts :
      {remaining : Float} {t : Threshold}
      → float_le remaining float_zero ≡ true
      → Crosses remaining t Kind.capacity_exhausted Severity.error
  is_critical :
      {remaining : Float} {t : Threshold}
      → float_le remaining float_zero ≡ false
      → float_le remaining t.critical_percent ≡ true
      → Crosses remaining t Kind.capacity_critical Severity.error
  warns :
      {remaining : Float} {t : Threshold}
      → float_le remaining float_zero ≡ false
      → float_le remaining t.critical_percent ≡ false
      → float_le remaining t.warning_percent ≡ true
      → Crosses remaining t Kind.capacity_warning Severity.warning

Crosses-capacity_kind :
    (remaining : Float) (t : Threshold) (kind : Kind) (severity : Severity)
    → Crosses remaining t kind severity
    → capacity_kind remaining t ≡ some (kind, severity)
unfolding capacity_kind
Crosses-capacity_kind remaining t _ _ (exhausts none_left) = rw none_left refl
Crosses-capacity_kind remaining t _ _ (is_critical left little) = rw (left, little) refl
Crosses-capacity_kind remaining t _ _ (warns left enough low) = rw (left, enough, low) refl

-- An observation that counts is reported if its rest crosses a threshold of its metric: as exhausted if
-- nothing is left, else as critical if the rest is at or below the critical percentage, both as an
-- error, else as a warning if it is at or below the warning percentage. The sort is taken to lose no
-- condition.
pub evaluate-reports :
    (minus : Float → Float → Float) (key_text : Key → String) (text_lt : String → String → Bool)
    (sort_stable : (Condition → Condition → Bool) → List Condition → List Condition) (e : Evidence)
    (thresholds : List Threshold) (now : Time) (o : Observation) (kind : Kind) (severity : Severity)
    → ((c : Condition) (less : Condition → Condition → Bool) (cs : List Condition)
        → In c cs
        → In c (sort_stable less cs))
    → In o e.snapshot.observations
    → is_evidence e now o ≡ true
    → Crosses
        (minus hundred o.value)
        (threshold_for e.profile_id o.metric.key thresholds)
        kind
        severity
    → In
        (observation_condition e o kind severity (some (minus hundred o.value)))
        (evaluate minus key_text text_lt sort_stable e thresholds now)
unfolding evaluate
evaluate-reports minus key_text text_lt sort_stable e thresholds now o kind severity keeps m counts
      crosses =
    let h =
      Crosses-capacity_kind (minus hundred o.value)
        (threshold_for e.profile_id o.metric.key thresholds) kind severity crosses in
    let c = observation_condition e o kind severity (some (minus hundred o.value)) in
    let first =
      append_if minus key_text text_lt sort_stable (e.profile_status == "needs_reauthentication")
        (reauthentications minus key_text text_lt sort_stable e now e.snapshot.availability [])
        (operational_condition e reauthentication reauthentication_required error now) in
    let seen = observation_conditions minus e thresholds now e.snapshot.observations in
    let credits = if approaches now e.credit_expires_at then credit_condition e ∷ [] else [] in
    keeps c _ _ (
      In-service_conditions minus key_text text_lt sort_stable e thresholds now c
        ((first ++ seen) ++ credits)
        (In-append_left c (first ++ seen) credits (
          In-append_right c first seen (
            In-observation_conditions minus key_text text_lt sort_stable e thresholds now c o
              e.snapshot.observations m counts
              (In-capacity_conditions minus key_text text_lt sort_stable e thresholds now o kind
                severity h)))))
