-- ===== src/Alerts/Deliver/Bounds.antt =====
-- What a run of deliver keeps and bounds (internal/alerts/service.go).
use codex_folio.Base.{
  done, fails, checked, done-injective, ℕ, suc, ◌+◌, ◌≤◌, ◌≡◌, refl, sym, ap, ◌∙◌, inl, inr, Bool,
  true, false, ◌&&◌, not, String, List, [], ◌∷◌, Option, ◌==◌, ◌!=◌, string_eq, Time, leb, eqb,
  is_zero, if◌then◌else◌, arith, Bool-cases, All, length,
}
use codex_folio.Alerts.Rows.{
  Row, Outcome, DeliveryState, pending, attempting, delivered, failed, unavailable, Environment,
  is_unavailable, delivery_max_attempts, affected, claim, record_delivery,
}
use codex_folio.Alerts.Rows.Claims.{
  is_outcome, DeliveryOutcome, may_claim, may_record, claim_alert_delivery, record_alert_delivery,
}
use codex_folio.Alerts.Rows.Invariant.{
  IsSound, IsRow, fits_delivery, claim_alert_delivery-IsSound, record_alert_delivery-IsSound,
}
use codex_folio.Alerts.Deliver.{
  Adapter, Progress, delivery_limit, or_same, skips, unavailable_outcome, attempt_outcome, notify,
  deliver_record, deliver_records, deliver,
}
use codex_folio.Alerts.Deliver.Attempts.{attempts_of, sends, claim-attempts, record-attempts}

-- A store's statement that fails keeps the table.
or_same-keeps :
    (P : List Row → Type 0) (rows : List Row) (o : Outcome (List Row))
    → P rows
    → ((rows' : List Row) → o ≡ done rows' → P rows')
    → P (or_same rows o)
or_same-keeps P rows (done rows') here there = there rows' refl
or_same-keeps P rows (fails e) here there = here

claimed-attempts :
    (env : Environment) (id x : String) (now : Time) (rows : List Row) (claimed : Bool)
    (rows' : List Row)
    → IsSound rows
    → claim_alert_delivery env id now rows ≡ done (claimed, rows')
    → attempts_of x rows' ≡ attempts_of x rows + (if id == x then if claimed then 1 else 0 else 0)
unfolding claim_alert_delivery
claimed-attempts env id x now rows claimed rows' s h =
    let (_, h1) = checked (id != "" && not (is_zero now)) _ _ h in
    let (_, h2) = checked (env.works claim) _ _ h1 in
    let counted : eqb (affected id (may_claim now) rows) 1 ≡ claimed =
      ap (λ y. y.0) (done-injective h2) in
    let (more, few) = claim-attempts now id x rows s.keys in
    let same : attempts_of x rows'
        ≡ attempts_of x rows + (if id == x then affected id (may_claim now) rows else 0) =
      ap (attempts_of x) (sym (ap (λ y. y.1) (done-injective h2))) ∙ more in
    ground (arith, same, counted, few)

recorded-attempts :
    (env : Environment) (id x : String) (o : DeliveryOutcome) (rows rows' : List Row)
    → is_unavailable o.state ≡ false
    → record_alert_delivery env id o rows ≡ done rows'
    → attempts_of x rows' ≡ attempts_of x rows
unfolding record_alert_delivery
recorded-attempts env id x o rows rows' u h =
    let (_, h1) =
      checked
        (id != ""
          && not (is_zero o.attempted_at)
          && leb o.attempts delivery_max_attempts
          && is_outcome o.state)
        _ _ h in
    let (_, h2) = checked (env.works record_delivery) _ _ h1 in
    let (_, h3) = checked (eqb (affected id (may_record o) rows) 1) _ _ h2 in
    ap (attempts_of x) (sym (done-injective h3)) ∙ record-attempts o id x rows u

attempted :
    (r : Row) (now : Time) (b : Bool) → is_unavailable (attempt_outcome r now b).state ≡ false
unfolding attempt_outcome
attempted r now true = refl
attempted r now false = refl

fits_delivery-bound :
    (state : DeliveryState) (n : ℕ) (next : Option Time)
    → fits_delivery state n next ≡ true
    → n ≤ delivery_max_attempts
unfolding fits_delivery
fits_delivery-bound pending n next h = ground (arith, h)
fits_delivery-bound attempting n next h = ground (arith, h)
fits_delivery-bound delivered n next h = ground (arith, h)
fits_delivery-bound failed n next h = ground (arith, h)
fits_delivery-bound unavailable n next h = ground (arith, h)

pub attempts-bound :
    (rows : List Row) (id : String) → All IsRow rows → attempts_of id rows ≤ delivery_max_attempts
unfolding attempts_of
attempts-bound [] id a = omega arith
attempts-bound (r ∷ rows) id ((s, d, n), rest) =
    let few : r.delivery.attempts ≤ delivery_max_attempts =
      fits_delivery-bound r.delivery.state _ _ d in
    let later = attempts-bound rows id rest in ground (arith, few, later)

due-room : (r : Row) (now : Time) (n : ℕ) → skips r now n ≡ false → leb delivery_limit n ≡ false
unfolding skips
due-room r now n h = ground (arith, h)

module _ (env : ℕ → Environment) (adapter : Adapter) (now : Time) where
  -- What one turn, and so a run, does.
  record IsRun (p p' : Progress) : Type 0 where
    sound : IsSound p.rows → IsSound p'.rows
    counts :
        adapter.available ≡ true
        → IsSound p.rows
        → (x : String)
        → attempts_of x p'.rows + sends x p.sent ≡ attempts_of x p.rows + sends x p'.sent
    quiet : adapter.available ≡ false → length p'.sent ≡ length p.sent
    within : p.processed ≤ delivery_limit → p'.processed ≤ delivery_limit
    few : length p.sent ≤ p.processed → length p'.sent ≤ p'.processed

  idle : (p : Progress) → IsRun p p
  idle p = record {
    sound = λ s. s;
    counts = λ a s x. refl;
    quiet = λ a. refl;
    within = λ n. n;
    few = λ n. n;
  }

  stop : (p : Progress) → IsRun p (record p { stopped = true })
  stop p = record {
    sound = λ s. s;
    counts = λ a s x. refl;
    quiet = λ a. refl;
    within = λ n. n;
    few = λ n. n;
  }

  follow : (p q r : Progress) → IsRun p q → IsRun q r → IsRun p r
  follow p q r a b = record {
    sound = λ s. b.sound (a.sound s);
    counts = λ h s x.
        let one = a.counts h s x in let two = b.counts h (a.sound s) x in omega (arith, one, two);
    quiet = λ h. b.quiet h ∙ a.quiet h;
    within = λ n. b.within (a.within n);
    few = λ n. b.few (a.few n);
  }

  notify-IsRun :
      (i : ℕ) (r : Row) (p : Progress) (o : Outcome (Bool × List Row))
      → adapter.available ≡ true
      → leb delivery_limit p.processed ≡ false
      → claim_alert_delivery (env i) r.id now p.rows ≡ o
      → IsRun p (notify env adapter now i r o p)
  unfolding notify
  notify-IsRun i r p (fails e) a n h = idle p
  notify-IsRun i r p (done (false, rows)) a n h = record {
    sound = λ s. claim_alert_delivery-IsSound (env i) r.id now p.rows false rows s h;
    counts = λ _ s x.
        let same = claimed-attempts (env i) r.id x now p.rows false rows s h in
        ground (arith, same);
    quiet = λ _. refl;
    within = λ n. n;
    few = λ n. n;
  }
  notify-IsRun i r p (done (true, rows)) a n h =
      let o : DeliveryOutcome = attempt_outcome r now (adapter.deliver i r) in
      record {
        sound = λ s.
            let mid = claim_alert_delivery-IsSound (env i) r.id now p.rows true rows s h in
            or_same-keeps IsSound rows (record_alert_delivery (env i) r.id o rows) mid
              (λ rows' e. record_alert_delivery-IsSound (env i) r.id o rows rows' mid e);
        counts = λ _ s x.
            let same = claimed-attempts (env i) r.id x now p.rows true rows s h in
            let kept : attempts_of x (or_same rows (record_alert_delivery (env i) r.id o rows))
                ≡ attempts_of x rows =
              or_same-keeps (λ rows'. attempts_of x rows' ≡ attempts_of x rows) rows
                (record_alert_delivery (env i) r.id o rows) refl
                (λ rows' e.
                  recorded-attempts (env i) r.id x o rows rows'
                    (attempted r now (adapter.deliver i r)) e) in
            unfold sends in (ground (arith, same, kept));
        quiet = λ b. ground (arith, a, b);
        within = λ m. ground arith;
        few = λ m. ground (arith, m);
      }

  unavailable-IsRun :
      (i : ℕ) (r : Row) (p : Progress)
      → adapter.available ≡ false
      → leb delivery_limit p.processed ≡ false
      → IsRun p (record p {
        rows =
            or_same p.rows (record_alert_delivery (env i) r.id (unavailable_outcome r now) p.rows);
        processed = suc p.processed;
      })
  unavailable-IsRun i r p a n = record {
    sound = λ s.
        or_same-keeps IsSound p.rows
          (record_alert_delivery (env i) r.id (unavailable_outcome r now) p.rows) s
          (λ rows' e.
            record_alert_delivery-IsSound (env i) r.id (unavailable_outcome r now) p.rows rows' s
              e);
    counts = λ b s x. ground (arith, a, b);
    quiet = λ _. refl;
    within = λ m. ground arith;
    few = λ m. omega (arith, m);
  }

  deliver_record-IsRun :
      (i : ℕ) (r : Row) (p : Progress) → IsRun p (deliver_record env adapter now i r p)
  unfolding deliver_record
  deliver_record-IsRun i r p = elim (Bool-cases (skips r now p.processed)) [
    | inl over ↦ rw over (idle p)
    | inr due ↦
        let room : leb delivery_limit p.processed ≡ false = due-room r now p.processed due in
        rw due (elim (Bool-cases (adapter.out_of_time i)) [
          | inl late ↦ rw late (stop p)
          | inr early ↦ elim (Bool-cases adapter.available) [
            | inl up ↦
                simp (early, up)
                  (notify-IsRun i r p (claim_alert_delivery (env i) r.id now p.rows) up room refl)
            | inr down ↦ simp (early, down) (unavailable-IsRun i r p down room)
          ]
        ])
  ]

  deliver_records-IsRun :
      (i : ℕ) (rs : List Row) (p : Progress) → IsRun p (deliver_records env adapter now i rs p)
  unfolding deliver_records
  deliver_records-IsRun i [] p = idle p
  deliver_records-IsRun i (r ∷ rs) p =
      let p' : Progress = deliver_record env adapter now i r p in
      let one : IsRun p p' = deliver_record-IsRun i r p in
      elim (Bool-cases (deliver_record env adapter now i r p).stopped) [
        | inl over ↦ rw over one
        | inr more ↦ rw more (
            follow p p' (deliver_records env adapter now (suc i) rs p') one
              (deliver_records-IsRun (suc i) rs p'))
      ]

  abbrev start : List Row → Progress
  start rows = record { rows = rows; sent = []; processed = 0; stopped = false }

  deliver-IsRun :
      (records rows : List Row) → IsRun (start rows) (deliver env adapter now records rows)
  unfolding deliver
  deliver-IsRun records rows = elim (Bool-cases (adapter.enabled && adapter.has_preference)) [
    | inl on ↦ rw on (deliver_records-IsRun 0 records (start rows))
    | inr off ↦ rw off (idle (start rows))
  ]

  -- A run of deliver keeps the invariant of the table of alerts, whatever its statements and the
  -- adapter answer and however old the records are that it works on.
  pub deliver-IsSound :
      (records rows : List Row) → IsSound rows → IsSound (deliver env adapter now records rows).rows
  deliver-IsSound records rows s = (deliver-IsRun records rows).sound s

  -- While the adapter is available, deliver counts one attempt for each notification of an alert that
  -- it sends, also when the records it works on are old and when the outcome cannot be recorded.
  pub deliver-attempts :
      (records rows : List Row)
      → adapter.available ≡ true
      → IsSound rows
      → (id : String)
      → attempts_of id (deliver env adapter now records rows).rows
        ≡ attempts_of id rows + sends id (deliver env adapter now records rows).sent
  unfolding sends
  deliver-attempts records rows up s id =
      let same = (deliver-IsRun records rows).counts up s id in omega (arith, same)

  -- A run of deliver notifies at most sixteen times, and not at all while the adapter is unavailable.
  pub deliver-bound :
      (records rows : List Row)
      → length (deliver env adapter now records rows).sent
        ≤ (if adapter.available then delivery_limit else 0)
  deliver-bound records rows =
      let run = deliver-IsRun records rows in
      let done_few = run.few (omega arith) in
      let all_few = run.within (omega arith) in
      elim (Bool-cases adapter.available) [
        | inl up ↦ simp up (omega (arith, done_few, all_few))
        | inr down ↦ let none_sent = run.quiet down in simp down (omega (arith, none_sent))
      ]
