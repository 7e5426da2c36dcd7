-- ===== src/Alerts/Deliver/Runs.antt =====
-- How often successive runs of deliver notify of an alert (internal/alerts/service.go).
use codex_folio.Base.{ℕ, ◌+◌, ◌≤◌, ◌≡◌, true, String, List, [], ◌∷◌, Time, All, arith}
use codex_folio.Alerts.Rows.{Row, Environment, delivery_max_attempts}
use codex_folio.Alerts.Rows.Invariant.{IsSound}
use codex_folio.Alerts.Deliver.{Adapter, deliver}
use codex_folio.Alerts.Deliver.Attempts.{attempts_of, sends}
use codex_folio.Alerts.Deliver.Bounds.{attempts-bound, deliver-IsSound, deliver-attempts}

-- A run, by the store, the adapter, the instant and the records that it works on.
pub record Run : Type 0 where
  pub env : ℕ → Environment
  pub adapter : Adapter
  pub now : Time
  pub records : List Row

-- The notifications of an alert that runs in a row send, each on the table that the one before left.
unfoldable pub sends_of : String → List Run → List Row → ℕ
sends_of id [] rows = 0
sends_of id (r ∷ runs) rows =
    let end = deliver r.env r.adapter r.now r.records rows in
    sends id end.sent + sends_of id runs end.rows

-- Over any number of runs in a row, at any instants and with the adapter available, and with no other
-- change of the table between them, the attempts counted for an alert before them and the notifications
-- of it that they send are together no more than three, also where they work on old records and where
-- outcomes cannot be recorded.
pub deliver-sends_bound :
    (runs : List Run) (rows : List Row)
    → All (λ r. r.adapter.available ≡ true) runs
    → IsSound rows
    → (id : String) → attempts_of id rows + sends_of id runs rows ≤ delivery_max_attempts
unfolding sends_of
deliver-sends_bound [] rows up s id = omega (arith, attempts-bound rows id s.each)
deliver-sends_bound (r ∷ runs) rows (up, more) s id =
    let end = deliver r.env r.adapter r.now r.records rows in
    let same = deliver-attempts r.env r.adapter r.now r.records rows up s id in
    let sound = deliver-IsSound r.env r.adapter r.now r.records rows s in
    let rest = deliver-sends_bound runs end.rows more sound id in omega (arith, same, rest)
