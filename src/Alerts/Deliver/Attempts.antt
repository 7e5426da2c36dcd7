-- ===== src/Alerts/Deliver/Attempts.antt =====
-- How often deliver notifies of an alert (internal/alerts/service.go, internal/store/alerts.go).
use codex_folio.Base.{
  flip, ℕ, suc, ◌+◌, ◌≤◌, ◌≡◌, refl, sym, ap, subst, ◌∙◌, inl, inr, true, false, ◌&&◌, String, List,
  [], ◌∷◌, ◌==◌, string_eq, Time, if◌then◌else◌, arith, Bool-cases, and_eq_true,
}
use codex_folio.Alerts.Rows.{Row, is_unavailable, has_id, update_id, affected}
use codex_folio.Alerts.Rows.Claims.{DeliveryOutcome, may_claim, claim_row, may_record, record_row}
use codex_folio.Alerts.Rows.Table.{distinct, absent-update_id}

-- The attempts that the table counts for the alert.
unfoldable pub attempts_of : String → List Row → ℕ
attempts_of id [] = 0
attempts_of id (r ∷ rs) = if r.id == id then r.delivery.attempts else attempts_of id rs

-- How often the adapter was notified of the alert.
unfoldable pub sends : String → List String → ℕ
sends id [] = 0
sends id (x ∷ xs) = (if x == id then 1 else 0) + sends id xs

claim_row-attempts :
    (now : Time) (r : Row)
    → ((claim_row now r).id ≡ r.id)
      × ((claim_row now r).delivery.attempts ≡ suc (r.delivery.attempts))
unfolding claim_row
claim_row-attempts now r = (refl, refl)

-- A claim counts one more attempt, for the row that it affects.
pub claim-attempts :
    (now : Time) (id x : String) (rows : List Row)
    → distinct rows ≡ true
    → (attempts_of x (update_id id (may_claim now) (claim_row now) rows)
        ≡ attempts_of x rows + (if id == x then affected id (may_claim now) rows else 0))
      × (affected id (may_claim now) rows ≤ 1)
unfolding distinct update_id affected attempts_of
claim-attempts now id x [] d = ground arith
claim-attempts now id x (r ∷ rows) d =
    let free : has_id r.id rows ≡ false = ground arith in
    let (ih, few) = claim-attempts now id x rows (ground arith) in
    let (kept, more) = claim_row-attempts now r in
    elim (Bool-cases (r.id == id)) [
      | inl same ↦
          let e : r.id ≡ id = (string_eq.is_same_iff r.id id).0 same in
          let (stay, nil) =
            absent-update_id id (may_claim now) (claim_row now) rows
              (subst (λ k. has_id k rows ≡ false) e free) in
          elim (Bool-cases (may_claim now r)) [
            | inl hit ↦
                rw (same, hit, stay, nil, kept, more)
                  (elim (Bool-cases (id == x)) [
                    | inl this ↦
                        let at : (r.id == x) ≡ true = ap (λ k. k == x) e ∙ this in
                        rw (at, this) (omega arith, omega arith)
                    | inr that ↦
                        let at : (r.id == x) ≡ false = ap (λ k. k == x) e ∙ that in
                        rw (at, that) (omega arith, omega arith)
                  ])
            | inr miss ↦ rw (same, miss, stay, nil) (ground arith)
          ]
      | inr other ↦ rw other (elim (Bool-cases (r.id == x)) [
        | inl this ↦
            let e : r.id ≡ x = (string_eq.is_same_iff r.id x).0 this in
            let apart : (id == x) ≡ false = flip x id (ap (λ k. k == id) (sym e) ∙ other) in
            rw (this, apart) (omega arith, omega arith)
        | inr that ↦ rw that (ground (arith, ih, few))
      ])
    ]

-- The record of an attempt keeps the count.
record_row-attempts :
    (o : DeliveryOutcome) (r : Row)
    → is_unavailable o.state ≡ false
    → may_record o r ≡ true
    → ((record_row o r).id ≡ r.id) × ((record_row o r).delivery.attempts ≡ r.delivery.attempts)
unfolding record_row may_record
record_row-attempts o r h k = (refl, ground arith)

pub record-attempts :
    (o : DeliveryOutcome) (id x : String) (rows : List Row)
    → is_unavailable o.state ≡ false
    → attempts_of x (update_id id (may_record o) (record_row o) rows) ≡ attempts_of x rows
unfolding update_id attempts_of
record-attempts o id x [] h = refl
record-attempts o id x (r ∷ rows) h = elim (Bool-cases (r.id == id && may_record o r)) [
  | inl hit ↦
      let (kept, same) = record_row-attempts o r h (and_eq_true _ _ hit).1 in
      rw (hit, kept, same, record-attempts o id x rows h) refl
  | inr miss ↦ rw (miss, record-attempts o id x rows h) refl
]
