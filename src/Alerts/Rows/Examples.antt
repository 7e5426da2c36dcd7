-- ===== src/Alerts/Rows/Examples.antt =====
-- Two synchronisations of the table of alerts, an acknowledgement and a claim
-- (internal/store/alerts.go).
use codex_folio.Base.{
  done, fails, ◌≤◌, ◌≡◌, refl, Bool, true, false, String, List, [], ◌∷◌, none, some, string_eq,
  Time, All, ◌*◌, ◌+◌, hour, if◌then◌else◌,
}
use codex_folio.Alerts.Evaluate.{Condition, capacity, capacity_critical, error}
use codex_folio.Alerts.Rows.{
  Row, Environment, Outcome, request_invalid, nullable_alert_profile, find_key, has_id, update_id,
  affected, new_row, insert_row, sync_condition, sync_conditions, is_active, is_absent, absent_ids,
  resolve_row, resolve_ids, select_rows, skip, row_resolved, prune_history, sync_alerts,
}
use codex_folio.Alerts.Rows.Claims.{
  row_open, acknowledge_row, acknowledge_alert, may_claim, claim_row, claim_alert_delivery,
}
use codex_folio.Alerts.Rows.Table.{exists}
use codex_folio.Alerts.Rows.Invariant.{IsSound}
use codex_folio.Alerts.Rows.Shown.{Shows}
use codex_folio.Alerts.Rows.Sync.{sync_alerts-agrees}
use codex_folio.Alerts.Rows.History.{count, sync_alerts-history}
use codex_folio.Alerts.Rows.Traces.{
  Reachable, empty, next, synchronizes, claims, reached_alerts-IsSound, claim_once,
  acknowledge_alert-outcome,
}

abbrev pub noon : Time
noon = 1000 * hour

-- A database that works; an identifier is the text of the key.
abbrev pub world : Environment
world = record {
  works = λ s. true;
  new_id = λ key. some key;
  key_text = λ k. k.metric_key;
  profile_exists = λ p. true;
  by_last_seen = λ rows. rows;
  by_state = λ rows. rows;
}

abbrev condition : String → Condition
condition metric = record {
  key = record {
    profile_id = "p";
    kind = capacity_critical;
    metric_key = metric;
    start = none;
    end = none;
  };
  profile_alias = "work";
  category = capacity;
  severity = error;
  remaining_percent = none;
  source = "codex_app_server";
  source_version = "v2";
  provenance = "Provider-reported Metric";
  scope = "profile";
  freshness = "fresh";
  availability_reason = "";
  evidence_captured_at = noon;
  observed_at = noon;
}

abbrev rows_of : Outcome (List Row) → List Row
rows_of (done rows) = rows
rows_of (fails e) = []

abbrev claimed_rows : Outcome (Bool × List Row) → List Row
claimed_rows (done (b, rows)) = rows
claimed_rows (fails e) = []

-- The primary window is low, and later the secondary one instead.
abbrev pub first : List Row
first = rows_of (sync_alerts world "p" (condition "primary" ∷ []) noon 1 [])

abbrev pub second : List Row
second = rows_of (sync_alerts world "p" (condition "secondary" ∷ []) (noon + hour) 1 first)

abbrev third : List Row
third = claimed_rows (claim_alert_delivery world "secondary" (noon + hour) second)

first_synced : sync_alerts world "p" (condition "primary" ∷ []) noon 1 [] ≡ done first
unfolding sync_alerts sync_conditions sync_condition find_key insert_row new_row
    nullable_alert_profile has_id absent_ids is_absent is_active resolve_ids prune_history
    select_rows skip
first_synced = refl

second_synced :
    sync_alerts world "p" (condition "secondary" ∷ []) (noon + hour) 1 first ≡ done second
unfolding sync_alerts sync_conditions sync_condition find_key insert_row new_row
    nullable_alert_profile has_id absent_ids is_absent is_active resolve_ids resolve_row update_id
    prune_history select_rows skip
second_synced = refl

third_claimed : claim_alert_delivery world "secondary" (noon + hour) second ≡ done (true, third)
unfolding sync_alerts sync_conditions sync_condition find_key insert_row new_row
    nullable_alert_profile has_id absent_ids is_absent is_active resolve_ids resolve_row update_id
    prune_history select_rows skip claim_alert_delivery affected may_claim claim_row
third_claimed = refl

pub second_reached : Reachable second
second_reached =
    next first second
      (next [] first empty
        (synchronizes world "p" (condition "primary" ∷ []) noon 1 [] first first_synced))
      (synchronizes world "p" (condition "secondary" ∷ []) (noon + hour) 1 first second
        second_synced)

third_reached : Reachable third
third_reached =
    next second third second_reached
      (claims world "secondary" (noon + hour) true second third third_claimed)

reached_alerts-IsSound_example : IsSound third
reached_alerts-IsSound_example = reached_alerts-IsSound third third_reached

sync_alerts-agrees_example :
    All (λ r. is_absent world "p" (condition "secondary" ∷ []) r ≡ false) second
    × ((key : String) → is_active world (condition "secondary" ∷ []) key ≡ true → Shows key second)
sync_alerts-agrees_example =
    sync_alerts-agrees world "p" (condition "secondary" ∷ []) (noon + hour) 1 first second
      (reached_alerts-IsSound first (
        next [] first empty
          (synchronizes world "p" (condition "primary" ∷ []) noon 1 [] first first_synced)))
      second_synced

sync_alerts-history_example : count row_resolved second ≤ 1
sync_alerts-history_example =
    sync_alerts-history world "p" (condition "secondary" ∷ []) (noon + hour) 1 first second
      (λ test rows. refl) second_synced

claim_once_example :
    ¬ (claim_alert_delivery world "secondary" (noon + 2 * hour) third ≡ done (true, third))
claim_once_example =
    claim_once world world "secondary" (noon + hour) (noon + 2 * hour) second third third
      (reached_alerts-IsSound second second_reached) third_claimed

acknowledge_alert-outcome_example : acknowledge_alert world "secondary" (noon + hour) second ≡ (
    if exists "secondary" row_open second
    then done (update_id "secondary" row_open (acknowledge_row (noon + hour)) second)
    else fails request_invalid)
acknowledge_alert-outcome_example =
    acknowledge_alert-outcome world "secondary" (noon + hour) second
      (reached_alerts-IsSound second second_reached) refl refl
