-- ===== src/Alerts/Rows/Claims.antt =====
-- internal/store/alerts.go: AcknowledgeAlert, ClaimAlertDelivery, RecordAlertDelivery and ListAlerts.
use codex_folio.Base.{
  done, ◌>>=◌, require, ℕ, zero, suc, Bool, true, false, ◌&&◌, ◌||◌, not, String, List, [], ◌∷◌,
  Option, none, some, ◌!=◌, string_eq, Time, eqb, leb, ltb, is_zero, if◌then◌else◌,
}
use codex_folio.Alerts.Rows.{
  DeliveryState, pending, attempting, delivered, failed, unavailable, acknowledged, is_open,
  is_resolved, is_claimable, is_attempting, is_unavailable, delivery_max_attempts, Row,
  request_invalid, read_failed, write_failed, acknowledge, claim, record_delivery, list,
  Environment, has_id, update_id, affected, Outcome, select_rows, row_resolved,
}

unfoldable pub acknowledge_row : Time → Row → Row
acknowledge_row now r = record r { state = acknowledged; acknowledged_at = some now }

abbrev pub row_open : Row → Bool
row_open r = is_open r.state

unfoldable pub acknowledge_alert : Environment → String → Time → List Row → Outcome (List Row)
unfolding acknowledge_row
acknowledge_alert env id now rows = do
  _ ← require (id != "" && not (is_zero now)) request_invalid
  _ ← require (env.works acknowledge) write_failed
  _ ← require (eqb (affected id row_open rows) 1) request_invalid
  done (update_id id row_open (acknowledge_row now) rows)

abbrev pub is_reached : Time → Option Time → Bool
is_reached now none = true
is_reached now (some next) = leb next now

unfoldable pub may_claim : Time → Row → Bool
may_claim now r =
    is_open r.state
    && is_claimable r.delivery.state
    && ltb r.delivery.attempts delivery_max_attempts
    && is_reached now r.delivery.next_attempt_at

unfoldable pub claim_row : Time → Row → Row
claim_row now r = record r {
  delivery = record (r.delivery) {
    state = attempting;
    attempts = suc (r.delivery.attempts);
    last_attempt_at = some now;
    next_attempt_at = none;
    error_code = "";
  };
}

unfoldable pub claim_alert_delivery :
    Environment → String → Time → List Row → Outcome (Bool × List Row)
unfolding may_claim claim_row
claim_alert_delivery env id now rows = do
  _ ← require (id != "" && not (is_zero now)) request_invalid
  _ ← require (env.works claim) write_failed
  done (eqb (affected id (may_claim now) rows) 1, update_id id (may_claim now) (claim_row now) rows)

pub record DeliveryOutcome : Type 0 where
  pub state : DeliveryState
  pub attempts : ℕ
  pub attempted_at : Time
  pub next_attempt_at : Option Time
  pub delivered_at : Option Time
  pub error_code : String

abbrev pub is_outcome : DeliveryState → Bool
is_outcome delivered = true
is_outcome failed = true
is_outcome unavailable = true
is_outcome pending = false
is_outcome attempting = false

unfoldable pub may_record : DeliveryOutcome → Row → Bool
may_record o r =
    is_open r.state
    && (if is_unavailable o.state
        then is_claimable r.delivery.state
        else is_attempting r.delivery.state && eqb r.delivery.attempts o.attempts)

unfoldable pub record_row : DeliveryOutcome → Row → Row
record_row o r = record r {
  delivery = record {
    state = o.state;
    attempts = o.attempts;
    last_attempt_at = some o.attempted_at;
    next_attempt_at = o.next_attempt_at;
    delivered_at = o.delivered_at;
    error_code = o.error_code;
  };
}

unfoldable pub record_alert_delivery :
    Environment → String → DeliveryOutcome → List Row → Outcome (List Row)
unfolding may_record record_row
record_alert_delivery env id o rows = do
  _ ←
      require
        (id != ""
          && not (is_zero o.attempted_at)
          && leb o.attempts delivery_max_attempts
          && is_outcome o.state)
        request_invalid
  _ ← require (env.works record_delivery) write_failed
  _ ← require (eqb (affected id (may_record o) rows) 1) request_invalid
  done (update_id id (may_record o) (record_row o) rows)

unfoldable pub take : ℕ → List Row → List Row
take zero rows = []
take (suc n) [] = []
take (suc n) (r ∷ rows) = r ∷ take n rows

-- The rows that are not resolved, and the `limit` resolved ones that were seen last.
unfoldable pub list_alerts : Environment → ℕ → List Row → Outcome (List Row)
unfolding select_rows take
list_alerts env limit rows = do
  _ ← require (leb 1 limit) request_invalid
  _ ← require (env.works list) read_failed
  let recent = take limit (env.by_last_seen (select_rows row_resolved rows))
  done (env.by_state (select_rows (λ r. not (is_resolved r.state) || has_id r.id recent) rows))
