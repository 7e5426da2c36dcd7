-- ===== src/Alerts/Rows/Invariant.antt =====
-- The invariant of the table of alerts, which every operation keeps (internal/store/alerts.go).
use codex_folio.Base.{
  done, checked, found, >>=-done, done-injective, ℕ, ◌≤◌, ◌≡◌, refl, ap, subst, ◌∙◌, Bool, true,
  false, ◌&&◌, not, String, List, [], ◌∷◌, Option, ◌!=◌, string_eq, All, arith, Bool-cases,
  Option-cases, leb, eqb, is_none, is_some, is_zero, Time, inl, inr,
}
use codex_folio.Alerts.Evaluate.{Condition}
use codex_folio.Alerts.Rows.{
  AlertState, opened, acknowledged, resolved, DeliveryState, pending, attempting, delivered, failed,
  unavailable, is_resolved, delivery_max_attempts, Row, Environment, begin, commit, lookup, insert,
  update, select_unresolved, resolve, prune, acknowledge, claim, record_delivery,
  nullable_alert_profile, find_key, has_id, update_id, affected, any_row, valid_remaining,
  known_profile, new_row, touch, insert_row, update_row, sync_condition, sync_conditions,
  absent_ids, resolve_row, resolve_ids, prune_history, sync_alerts, select_rows,
}
use codex_folio.Alerts.Rows.Claims.{
  is_outcome, acknowledge_row, row_open, acknowledge_alert, may_claim, claim_row,
  claim_alert_delivery, DeliveryOutcome, may_record, record_row, record_alert_delivery,
}
use codex_folio.Alerts.Rows.Table.{
  has_key, distinct, All-update_id, distinct-update_id, find_key-none, All-append, distinct-append,
  All-select_rows, distinct-select_rows,
}

-- The columns that go with the state of a row, and with the state of its delivery.
unfoldable pub fits_state : AlertState → Option Time → Option Time → Bool
fits_state opened ack gone = is_none ack && is_none gone
fits_state acknowledged ack gone = is_some ack && is_none gone
fits_state resolved ack gone = is_some gone

unfoldable pub fits_delivery : DeliveryState → ℕ → Option Time → Bool
fits_delivery pending n next = eqb n 0
fits_delivery attempting n next = leb 1 n && leb n delivery_max_attempts && is_none next
fits_delivery delivered n next = leb n delivery_max_attempts
fits_delivery failed n next = leb n delivery_max_attempts
fits_delivery unavailable n next = leb n delivery_max_attempts

abbrev pub IsRow : Row → Type 0
IsRow r =
    (fits_state r.state r.acknowledged_at r.resolved_at ≡ true)
    × (fits_delivery r.delivery.state r.delivery.attempts r.delivery.next_attempt_at ≡ true)
    × (1 ≤ r.occurrence_count)

pub record IsSound (rows : List Row) : Type 0 where
  pub each : All IsRow rows
  pub keys : distinct rows ≡ true

-- Each statement keeps the rows.
new_row-IsRow :
    (env : Environment) (now : Time) (id : String) (c : Condition) → IsRow (new_row env now id c)
unfolding new_row fits_state fits_delivery
new_row-IsRow env now id c = (refl, refl, omega arith)

touch-IsRow : (now : Time) (c : Condition) (r : Row) → IsRow r → IsRow (touch now c r)
unfolding touch fits_state fits_delivery
touch-IsRow now c r (s, d, n) = elim (Bool-cases (is_resolved r.state)) [
  | inl gone ↦ rw gone (refl, refl, omega arith)
  | inr here ↦ rw here (ground arith, d, omega arith)
]

resolve_row-IsRow : (now : Time) (r : Row) → IsRow r → IsRow (resolve_row now r)
unfolding resolve_row fits_state
resolve_row-IsRow now r (s, d, n) = (refl, d, n)

acknowledge_row-IsRow :
    (now : Time) (r : Row) → row_open r ≡ true → IsRow r → IsRow (acknowledge_row now r)
unfolding acknowledge_row fits_state
acknowledge_row-IsRow now r h (s, d, n) = (ground arith, d, n)

claim_row-IsRow :
    (now : Time) (r : Row) → may_claim now r ≡ true → IsRow r → IsRow (claim_row now r)
unfolding claim_row may_claim fits_delivery
claim_row-IsRow now r h (s, d, n) = (s, ground arith, n)

record_row-IsRow :
    (o : DeliveryOutcome) (r : Row)
    → leb o.attempts delivery_max_attempts && is_outcome o.state ≡ true
    → IsRow r
    → IsRow (record_row o r)
unfolding record_row fits_delivery
record_row-IsRow o r h (s, d, n) = (s, ground arith, n)

update-IsSound :
    (id : String) (test : Row → Bool) (change : Row → Row)
    → ((r : Row) → ((change r).id ≡ r.id) × ((change r).condition_key ≡ r.condition_key))
    → ((r : Row) → test r ≡ true → IsRow r → IsRow (change r))
    → (rows : List Row) → IsSound rows
    → IsSound (update_id id test change rows)
update-IsSound id test change keeps step rows s = record {
  each = All-update_id id test change IsRow step rows s.each;
  keys = distinct-update_id id test change keeps rows ∙ s.keys;
}

insert_row-IsSound :
    (env : Environment) (now : Time) (c : Condition) (rows rows' : List Row)
    → IsSound rows
    → has_key (env.key_text c.key) rows ≡ false
    → insert_row env now c rows ≡ done rows'
    → IsSound rows'
unfolding insert_row
insert_row-IsSound env now c rows rows' s free h =
    let (id, _, h1) = found (env.new_id (env.key_text c.key)) _ _ h in
    let (_, h2) = checked (env.works insert) _ _ h1 in
    let (new, h3) = checked (not (has_id id rows)) _ _ h2 in
    let (_, h4) =
      checked
        (valid_remaining c.remaining_percent
          && known_profile env (nullable_alert_profile c.key.profile_id))
        _ _ h3 in
    subst IsSound (done-injective h4) (record {
      each = All-append IsRow (new_row env now id c) rows s.each (new_row-IsRow env now id c);
      keys =
          distinct-append (new_row env now id c) rows s.keys (unfold new_row in (ground arith))
            (unfold new_row in free);
    })

touch-keeps :
    (now : Time) (c : Condition) (r : Row)
    → ((touch now c r).id ≡ r.id) × ((touch now c r).condition_key ≡ r.condition_key)
unfolding touch
touch-keeps now c r = (refl, refl)

update_row-done :
    (env : Environment) (now : Time) (c : Condition) (r : Row) (rows rows' : List Row)
    → update_row env now c r rows ≡ done rows'
    → update_id r.id any_row (touch now c) rows ≡ rows'
unfolding update_row
update_row-done env now c r rows rows' h =
    let (_, h1) = checked (env.works update && valid_remaining c.remaining_percent) _ _ h in
    done-injective h1

sync_condition-IsSound :
    (env : Environment) (now : Time) (c : Condition) (rows rows' : List Row)
    → IsSound rows
    → sync_condition env now c rows ≡ done rows'
    → IsSound rows'
unfolding sync_condition
sync_condition-IsSound env now c rows rows' s h =
    let (_, h1) = checked (env.works lookup) _ _ h in
    elim (Option-cases (find_key (env.key_text c.key) rows)) [
      | inl new ↦
          insert_row-IsSound env now c rows rows' s (find_key-none _ rows new) (rw new at h1)
      | inr (r, old) ↦ subst IsSound (update_row-done env now c r rows rows' (rw old at h1)) (
          update-IsSound r.id any_row (touch now c) (touch-keeps now c) (λ x t. touch-IsRow now c x)
            rows s)
    ]

pub sync_conditions-IsSound :
    (env : Environment) (now : Time) (cs : List Condition) (rows rows' : List Row)
    → IsSound rows
    → sync_conditions env now cs rows ≡ done rows'
    → IsSound rows'
unfolding sync_conditions
sync_conditions-IsSound env now [] rows rows' s h = subst IsSound (done-injective h) s
sync_conditions-IsSound env now (c ∷ cs) rows rows' s h =
    let (mid, e, h1) = >>=-done (sync_condition env now c rows) _ h in
    sync_conditions-IsSound env now cs mid rows' (sync_condition-IsSound env now c rows mid s e) h1

resolve_ids-IsSound :
    (now : Time) (ids : List String) (rows : List Row)
    → IsSound rows
    → IsSound (resolve_ids now ids rows)
unfolding resolve_ids
resolve_ids-IsSound now [] rows s = s
resolve_ids-IsSound now (id ∷ ids) rows s = resolve_ids-IsSound now ids _ (
    update-IsSound id any_row (resolve_row now) (λ r. unfold resolve_row in (refl, refl))
      (λ r t. resolve_row-IsRow now r) rows s)

select_rows-IsSound :
    (test : Row → Bool) (rows : List Row) → IsSound rows → IsSound (select_rows test rows)
select_rows-IsSound test rows s = record {
  each = All-select_rows IsRow test rows s.each;
  keys = distinct-select_rows test rows s.keys;
}

-- What a synchronisation that succeeds has done.
pub sync_alerts-done :
    (env : Environment) (profile : String) (cs : List Condition) (now : Time) (limit : ℕ)
    (rows rows' : List Row)
    → sync_alerts env profile cs now limit rows ≡ done rows'
    → (mid : List Row) × (sync_conditions env now cs rows ≡ done mid)
      × (prune_history env limit (resolve_ids now (absent_ids env profile cs mid) mid) ≡ rows')
unfolding sync_alerts
sync_alerts-done env profile cs now limit rows rows' h =
    let (_, h1) = checked (not (is_zero now) && leb 1 limit) _ _ h in
    let (_, h2) = checked (env.works begin) _ _ h1 in
    let (mid, e, h3) = >>=-done (sync_conditions env now cs rows) _ h2 in
    let (_, h4) = checked (env.works select_unresolved) _ _ h3 in
    let (_, h5) = checked (env.works resolve) _ _ h4 in
    let (_, h6) = checked (env.works prune) _ _ h5 in
    let (_, h7) = checked (env.works commit) _ _ h6 in (mid, e, done-injective h7)

pub sync_alerts-IsSound :
    (env : Environment) (profile : String) (cs : List Condition) (now : Time) (limit : ℕ)
    (rows rows' : List Row)
    → IsSound rows
    → sync_alerts env profile cs now limit rows ≡ done rows'
    → IsSound rows'
sync_alerts-IsSound env profile cs now limit rows rows' s h =
    let (mid, e, same) = sync_alerts-done env profile cs now limit rows rows' h in
    let solved =
      resolve_ids-IsSound now (absent_ids env profile cs mid) mid
        (sync_conditions-IsSound env now cs rows mid s e) in
    subst IsSound same (unfold prune_history in select_rows-IsSound _ _ solved)

pub acknowledge_alert-IsSound :
    (env : Environment) (id : String) (now : Time) (rows rows' : List Row)
    → IsSound rows
    → acknowledge_alert env id now rows ≡ done rows'
    → IsSound rows'
unfolding acknowledge_alert
acknowledge_alert-IsSound env id now rows rows' s h =
    let (_, h1) = checked (id != "" && not (is_zero now)) _ _ h in
    let (_, h2) = checked (env.works acknowledge) _ _ h1 in
    let (_, h3) = checked (eqb (affected id row_open rows) 1) _ _ h2 in
    subst IsSound (done-injective h3) (
      update-IsSound id row_open (acknowledge_row now) (λ r. unfold acknowledge_row in (refl, refl))
        (acknowledge_row-IsRow now) rows s)

pub claim_alert_delivery-IsSound :
    (env : Environment) (id : String) (now : Time) (rows : List Row) (claimed : Bool)
    (rows' : List Row)
    → IsSound rows
    → claim_alert_delivery env id now rows ≡ done (claimed, rows')
    → IsSound rows'
unfolding claim_alert_delivery
claim_alert_delivery-IsSound env id now rows claimed rows' s h =
    let (_, h1) = checked (id != "" && not (is_zero now)) _ _ h in
    let (_, h2) = checked (env.works claim) _ _ h1 in
    subst IsSound (ap (λ x. x.1) (done-injective h2)) (
      update-IsSound id (may_claim now) (claim_row now) (λ r. unfold claim_row in (refl, refl))
        (claim_row-IsRow now) rows s)

pub record_alert_delivery-IsSound :
    (env : Environment) (id : String) (o : DeliveryOutcome) (rows rows' : List Row)
    → IsSound rows
    → record_alert_delivery env id o rows ≡ done rows'
    → IsSound rows'
unfolding record_alert_delivery
record_alert_delivery-IsSound env id o rows rows' s h =
    let (ok, h1) =
      checked
        (id != ""
          && not (is_zero o.attempted_at)
          && leb o.attempts delivery_max_attempts
          && is_outcome o.state)
        _ _ h in
    let (_, h2) = checked (env.works record_delivery) _ _ h1 in
    let (_, h3) = checked (eqb (affected id (may_record o) rows) 1) _ _ h2 in
    subst IsSound (done-injective h3) (
      update-IsSound id (may_record o) (record_row o) (λ r. unfold record_row in (refl, refl))
        (λ r t. record_row-IsRow o r (ground arith)) rows s)
