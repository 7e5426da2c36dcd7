-- ===== src/Alerts/Deliver/Examples.antt =====
-- A run of deliver on the table of one open alert (internal/alerts/service.go).
use codex_folio.Base.{
  ◌≤◌, ◌≡◌, ◌+◌, refl, true, false, string_eq, ℕ, hour, length, if◌then◌else◌, List, [], ◌∷◌,
}
use codex_folio.Alerts.Rows.{Environment, delivery_max_attempts}
use codex_folio.Alerts.Rows.Invariant.{IsSound}
use codex_folio.Alerts.Rows.Traces.{reached_alerts-IsSound}
use codex_folio.Alerts.Rows.Examples.{noon, world, second, second_reached}
use codex_folio.Alerts.Deliver.{Adapter, deliver, delivery_limit}
use codex_folio.Alerts.Deliver.Attempts.{attempts_of, sends}
use codex_folio.Alerts.Deliver.Bounds.{deliver-IsSound, deliver-attempts, deliver-bound}
use codex_folio.Alerts.Deliver.Runs.{Run, sends_of, deliver-sends_bound}

-- An adapter that is available and whose notifications fail.
abbrev adapter : Adapter
adapter = record {
  enabled = true;
  has_preference = true;
  available = true;
  out_of_time = λ i. false;
  deliver = λ i r. false;
}

abbrev store : ℕ → Environment
store i = world

deliver-IsSound_example : IsSound (deliver store adapter (noon + hour) second second).rows
deliver-IsSound_example =
    deliver-IsSound store adapter (noon + hour) second second
      (reached_alerts-IsSound second second_reached)

deliver-attempts_example :
    attempts_of "secondary" (deliver store adapter (noon + hour) second second).rows
    ≡ attempts_of "secondary" second
      + sends "secondary" (deliver store adapter (noon + hour) second second).sent
deliver-attempts_example =
    deliver-attempts store adapter (noon + hour) second second refl
      (reached_alerts-IsSound second second_reached) "secondary"

-- Two runs, an hour and two hours later, on the same old records.
abbrev first_run : Run
first_run = record { env = store; adapter = adapter; now = noon + hour; records = second }

abbrev two_runs : List Run
two_runs = first_run ∷ record first_run { now = noon + hour + hour } ∷ []

deliver-sends_bound_example :
    attempts_of "secondary" second + sends_of "secondary" two_runs second ≤ delivery_max_attempts
deliver-sends_bound_example =
    deliver-sends_bound two_runs second (refl, (refl, tt))
      (reached_alerts-IsSound second second_reached) "secondary"

deliver-bound_example :
    length (deliver store adapter (noon + hour) second second).sent
    ≤ (if adapter.available then delivery_limit else 0)
deliver-bound_example = deliver-bound store adapter (noon + hour) second second
