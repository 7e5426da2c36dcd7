-- ===== src/Alerts/Rows/Traces.antt =====
-- The table of alerts as a state machine: its operations as steps (internal/store/alerts.go).
use codex_folio.Base.{
  done, fails, checked, done-injective, ℕ, ◌≡◌, refl, ap, subst, inl, inr, Bool, true, false, ◌&&◌,
  not, String, List, [], ◌∷◌, ◌==◌, ◌!=◌, string_eq, Time, eqb, is_zero, arith, Bool-cases,
  if◌then◌else◌,
}
use codex_folio.Alerts.Evaluate.{Condition}
use codex_folio.Alerts.Rows.{
  Row, Environment, update_id, affected, has_id, claim, acknowledge, request_invalid, sync_alerts,
}
use codex_folio.Alerts.Rows.Claims.{
  DeliveryOutcome, may_claim, claim_row, row_open, acknowledge_row, acknowledge_alert,
  claim_alert_delivery, record_alert_delivery,
}
use codex_folio.Alerts.Rows.Table.{distinct, exists, absent-update_id, affected-exists}
use codex_folio.Alerts.Rows.Invariant.{
  IsSound, sync_alerts-IsSound, acknowledge_alert-IsSound, claim_alert_delivery-IsSound,
  record_alert_delivery-IsSound,
}

-- An operation that ends without an error; one that fails leaves the table as it is.
pub data Step : List Row → List Row → Type 0 where
  synchronizes :
      (env : Environment) (profile : String) (cs : List Condition) (now : Time) (limit : ℕ)
      (rows rows' : List Row)
      → sync_alerts env profile cs now limit rows ≡ done rows'
      → Step rows rows'
  acknowledges :
      (env : Environment) (id : String) (now : Time) (rows rows' : List Row)
      → acknowledge_alert env id now rows ≡ done rows'
      → Step rows rows'
  claims :
      (env : Environment) (id : String) (now : Time) (claimed : Bool) (rows rows' : List Row)
      → claim_alert_delivery env id now rows ≡ done (claimed, rows')
      → Step rows rows'
  records :
      (env : Environment) (id : String) (o : DeliveryOutcome) (rows rows' : List Row)
      → record_alert_delivery env id o rows ≡ done rows'
      → Step rows rows'

pub data Reachable : List Row → Type 0 where
  empty : Reachable []
  next : (rows rows' : List Row) → Reachable rows → Step rows rows' → Reachable rows'

step-IsSound : (rows rows' : List Row) → Step rows rows' → IsSound rows → IsSound rows'
step-IsSound _ _ (synchronizes env profile cs now limit rows rows' h) s =
    sync_alerts-IsSound env profile cs now limit rows rows' s h
step-IsSound _ _ (acknowledges env id now rows rows' h) s =
    acknowledge_alert-IsSound env id now rows rows' s h
step-IsSound _ _ (claims env id now claimed rows rows' h) s =
    claim_alert_delivery-IsSound env id now rows claimed rows' s h
step-IsSound _ _ (records env id o rows rows' h) s =
    record_alert_delivery-IsSound env id o rows rows' s h

-- Every table that the operations reach from the empty one is sound: no two alerts share an
-- identifier or a key, the times of each alert fit its state and its attempts fit the state of its
-- delivery, three at most.
pub reached_alerts-IsSound : (rows : List Row) → Reachable rows → IsSound rows
reached_alerts-IsSound _ empty = record { each = tt; keys = unfold distinct in refl }
reached_alerts-IsSound _ (next rows rows' r step) =
    step-IsSound rows rows' step (reached_alerts-IsSound rows r)

claimed-none :
    (id : String) (now later : Time) (rows : List Row)
    → distinct rows ≡ true
    → affected id (may_claim now) rows ≡ 1
    → affected id (may_claim later) (update_id id (may_claim now) (claim_row now) rows) ≡ 0
unfolding affected update_id distinct
claimed-none id now later [] d h = refl
claimed-none id now later (r ∷ rows) d h = elim (Bool-cases (r.id == id)) [
  | inl same ↦
      let e : r.id ≡ id = (string_eq.is_same_iff r.id id).0 same in
      let free : has_id id rows ≡ false = subst (λ k. has_id k rows ≡ false) e (ground arith) in
      let (stay, nil) = absent-update_id id (may_claim now) (claim_row now) rows free in
      let later_nil = (absent-update_id id (may_claim later) (claim_row now) rows free).1 in
      elim (Bool-cases (may_claim now r)) [
        | inl hit ↦
            let taken : may_claim later (claim_row now r) ≡ false =
              unfold may_claim claim_row in (ground arith) in
            rw (same, hit, stay, taken) (ground (arith, later_nil))
        | inr miss ↦ ground (arith, nil, same, miss, h)
      ]
  | inr other ↦
      let ih = claimed-none id now later rows (ground arith) (ground (arith, h, other)) in
      rw other (ground (arith, ih))
]

-- An alert whose delivery was claimed cannot be claimed again at any time, as long as the table is
-- as the claim left it.
pub claim_once :
    (env env' : Environment) (id : String) (now later : Time) (rows rows' rows'' : List Row)
    → IsSound rows
    → claim_alert_delivery env id now rows ≡ done (true, rows')
    → ¬ (claim_alert_delivery env' id later rows' ≡ done (true, rows''))
unfolding claim_alert_delivery
claim_once env env' id now later rows rows' rows'' s h g =
    let (_, h1) = checked (id != "" && not (is_zero now)) _ _ h in
    let (_, h2) = checked (env.works claim) _ _ h1 in
    let (_, g1) = checked (id != "" && not (is_zero later)) _ _ g in
    let (_, g2) = checked (env'.works claim) _ _ g1 in
    let first = ap (λ y. y.0) (done-injective h2) in
    let second = ap (λ y. y.0) (done-injective g2) in
    let same = ap (λ y. y.1) (done-injective h2) in
    let nil : affected id (may_claim later) rows' ≡ 0 =
      subst (λ rs. affected id (may_claim later) rs ≡ 0) same
        (claimed-none id now later rows s.keys (ground (arith, first))) in
    ground (arith, nil, second)

-- An acknowledgement that the database carries out succeeds where the table has an open alert with
-- the identifier, and is refused as an invalid request where it has none.
pub acknowledge_alert-outcome :
    (env : Environment) (id : String) (now : Time) (rows : List Row)
    → IsSound rows
    → id != "" && not (is_zero now) ≡ true
    → env.works acknowledge ≡ true
    → acknowledge_alert env id now rows ≡ (
        if exists id row_open rows
        then done (update_id id row_open (acknowledge_row now) rows)
        else fails request_invalid)
unfolding acknowledge_alert
acknowledge_alert-outcome env id now rows s valid works =
    let n = affected-exists id row_open rows s.keys in
    elim (Bool-cases (exists id row_open rows)) [
      | inl there ↦
          let one : eqb (affected id row_open rows) 1 ≡ true = rw (n, there) refl in
          rw (valid, works, one, there) refl
      | inr missing ↦
          let nil : eqb (affected id row_open rows) 1 ≡ false = rw (n, missing) refl in
          rw (valid, works, nil, missing) refl
    ]
