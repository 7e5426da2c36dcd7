-- ===== src/Alerts/Deliver.antt =====
-- internal/alerts/service.go: deliver, which notifies of the open alerts through an adapter, with
-- deliveryDue and deliveryBackoff. The text of a notification is left out.
pub mod Attempts
pub mod Bounds
pub mod Runs
mod Examples
use codex_folio.Base.{
  done, fails, ℕ, zero, suc, ◌+◌, ◌*◌, Bool, true, false, ◌&&◌, ◌||◌, not, String, List, [], ◌∷◌,
  Option, none, some, Time, Duration, minute, leb, eqb, if◌then◌else◌,
}
use codex_folio.Alerts.Rows.{
  Row, Outcome, Environment, DeliveryState, pending, attempting, delivered, failed, unavailable,
  is_open, delivery_max_attempts,
}
use codex_folio.Alerts.Rows.Claims.{
  is_reached, DeliveryOutcome, claim_alert_delivery, record_alert_delivery,
}

abbrev pub delivery_limit : ℕ
delivery_limit = 16

abbrev pub delivery_error_code : String
delivery_error_code = "CF_ALERT_NOTIFICATION_FAILED"

-- The adapter and the deadline: what they answer may depend on the number of records passed so far.
pub record Adapter : Type 0 where
  pub enabled : Bool
  pub has_preference : Bool
  pub available : Bool
  pub out_of_time : ℕ → Bool
  pub deliver : ℕ → Row → Bool

unfoldable pub delivery_due : Row → Time → Bool
delivery_due r now = elim r.delivery.state [
  | delivered ↦ false
  | attempting ↦ false
  | pending ↦ is_reached now r.delivery.next_attempt_at
  | failed ↦ is_reached now r.delivery.next_attempt_at
  | unavailable ↦ is_reached now r.delivery.next_attempt_at
]

unfoldable pub delivery_backoff : ℕ → Duration
delivery_backoff attempts = if leb attempts 1 then minute else 5 * minute

pub record Progress : Type 0 where
  pub rows : List Row
  pub sent : List String  -- the alerts of which the adapter was notified, newest first
  pub processed : ℕ
  pub stopped : Bool

-- An error of the store is dropped.
abbrev pub or_same : List Row → Outcome (List Row) → List Row
or_same rows (done rows') = rows'
or_same rows (fails e) = rows

unfoldable pub skips : Row → Time → ℕ → Bool
unfolding delivery_due
skips r now processed =
    leb delivery_limit processed
    || not (is_open r.state)
    || leb delivery_max_attempts r.delivery.attempts
    || not (delivery_due r now)

unfoldable pub unavailable_outcome : Row → Time → DeliveryOutcome
unavailable_outcome r now = record {
  state = unavailable;
  attempts = r.delivery.attempts;
  attempted_at = now;
  next_attempt_at = some (now + 30 * minute);
  delivered_at = none;
  error_code = delivery_error_code;
}

unfoldable pub attempt_outcome : Row → Time → Bool → DeliveryOutcome
unfolding delivery_backoff
attempt_outcome r now true = record {
  state = delivered;
  attempts = suc (r.delivery.attempts);
  attempted_at = now;
  next_attempt_at = none;
  delivered_at = some now;
  error_code = "";
}
attempt_outcome r now false = record {
  state = failed;
  attempts = suc (r.delivery.attempts);
  attempted_at = now;
  next_attempt_at =
      if leb delivery_max_attempts (suc (r.delivery.attempts))
      then none
      else some (now + delivery_backoff (suc (r.delivery.attempts)));
  delivered_at = none;
  error_code = delivery_error_code;
}

-- `env` is what the store answers while the i-th record is handled.
module _ (env : ℕ → Environment) (adapter : Adapter) (now : Time) where
  -- After the claim.
  unfoldable pub notify : ℕ → Row → Outcome (Bool × List Row) → Progress → Progress
  unfolding attempt_outcome
  notify i r (fails e) p = p
  notify i r (done (false, rows)) p = record p { rows = rows }
  notify i r (done (true, rows)) p = record {
    rows =
        or_same rows
          (record_alert_delivery (env i) r.id (attempt_outcome r now (adapter.deliver i r)) rows);
    sent = r.id ∷ p.sent;
    processed = suc p.processed;
    stopped = false;
  }

  -- One turn of the loop, for the i-th record.
  unfoldable pub deliver_record : ℕ → Row → Progress → Progress
  unfolding notify skips unavailable_outcome
  deliver_record i r p =
      if skips r now p.processed
      then p
      else if adapter.out_of_time i
      then record p { stopped = true }
      else if not adapter.available
      then record p {
        rows =
            or_same p.rows (record_alert_delivery (env i) r.id (unavailable_outcome r now) p.rows);
        processed = suc p.processed;
      }
      else notify i r (claim_alert_delivery (env i) r.id now p.rows) p

  unfoldable pub deliver_records : ℕ → List Row → Progress → Progress
  unfolding deliver_record
  deliver_records i [] p = p
  deliver_records i (r ∷ rs) p =
      let p' = deliver_record i r p in
      let rest = deliver_records (suc i) rs p' in if p'.stopped then p' else rest

  unfoldable pub deliver : List Row → List Row → Progress
  unfolding deliver_records
  deliver records rows =
      let start : Progress = record { rows = rows; sent = []; processed = 0; stopped = false } in
      if adapter.enabled && adapter.has_preference then deliver_records 0 records start else start
