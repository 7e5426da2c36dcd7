-- ===== src/Alerts/Rows/Sync.antt =====
-- SyncAlerts brings the open alerts in line with the conditions (internal/store/alerts.go).
use codex_folio.Base.{
  flip, done, ℕ, ◌≡◌, refl, sym, ap, subst, ◌∙◌, ◌⊎◌, inl, inr, Bool, true, false, ◌||◌, String,
  List, [], ◌∷◌, ◌==◌, string_eq, All, In, arith, Bool-cases, Time,
}
use codex_folio.Alerts.Evaluate.{Condition}
use codex_folio.Alerts.Rows.{
  Row, Environment, has_id, update_id, any_row, is_active, is_absent, absent_ids, resolve_row,
  resolve_ids, prune_history, sync_alerts,
}
use codex_folio.Alerts.Rows.Table.{distinct, In-update_id, All-select_rows, In-select_rows}
use codex_folio.Alerts.Rows.Invariant.{IsSound, sync_conditions-IsSound, sync_alerts-done}
use codex_folio.Alerts.Rows.Shown.{Shows, sync_conditions-Shows}

other_id :
    (r x : Row) (rows : List Row) → In r rows → has_id x.id rows ≡ false → (x.id == r.id) ≡ false
unfolding has_id
other_id r x [] m h = absurd m
other_id r x (y ∷ rows) (inl here) h =
    flip r.id x.id (ap (λ z. z.id == x.id) (sym here) ∙ (ground arith))
other_id r x (y ∷ rows) (inr there) h = other_id r x rows there (ground arith)

unfoldable listed : String → List String → Bool
listed id [] = false
listed id (x ∷ xs) = x == id || listed id xs

-- What is not listed stays as it is, and what is listed is resolved.
In-resolve_ids :
    (now : Time) (ids : List String) (r : Row) (rows : List Row)
    → In r rows
    → listed r.id ids ≡ false
    → In r (resolve_ids now ids rows)
unfolding resolve_ids listed
In-resolve_ids now [] r rows m h = m
In-resolve_ids now (id ∷ ids) r rows m h =
    let other : (r.id == id) ≡ false = flip id r.id (ground arith) in
    In-resolve_ids now ids r _ (rw other at (In-update_id id any_row (resolve_row now) r rows m))
      (ground arith)

module _ (P : Row → Type 0) (now : Time) (p : (r : Row) → P (resolve_row now r)) where
  resolve_one :
      (id : String) (ids : List String) (rows : List Row)
      → All (λ r. (listed r.id (id ∷ ids) ≡ true) ⊎ P r) rows
      → All (λ r. (listed r.id ids ≡ true) ⊎ P r) (update_id id any_row (resolve_row now) rows)
  unfolding update_id listed
  resolve_one id ids [] h = tt
  resolve_one id ids (r ∷ rows) (first, others) = elim (Bool-cases (r.id == id)) [
    | inl hit ↦ rw hit (inr (p r), resolve_one id ids rows others)
    | inr miss ↦
        let apart = flip r.id id miss in
        rw miss (
          elim first [ inl m ↦ inl (rw apart at m) | inr q ↦ inr q ],
          resolve_one id ids rows others,
        )
  ]

  All-unlisted : (rows : List Row) → All (λ r. (listed r.id [] ≡ true) ⊎ P r) rows → All P rows
  unfolding listed
  All-unlisted [] h = tt
  All-unlisted (r ∷ rows) (first, others) =
      (elim first [ inl m ↦ cc | inr q ↦ q ], All-unlisted rows others)

  All-resolve_ids :
      (ids : List String) (rows : List Row)
      → All (λ r. (listed r.id ids ≡ true) ⊎ P r) rows
      → All P (resolve_ids now ids rows)
  unfolding resolve_ids
  All-resolve_ids [] rows h = All-unlisted rows h
  All-resolve_ids (id ∷ ids) rows h = All-resolve_ids ids _ (resolve_one id ids rows h)

module _ (env : Environment) (profile : String) (cs : List Condition) where
  later_listed :
      (r : Row) (rows xs : List Row)
      → All
          (λ x.
            (listed x.id (absent_ids env profile cs rows) ≡ true)
            ⊎ (is_absent env profile cs x ≡ false))
          xs
      → All
          (λ x.
            (listed x.id (absent_ids env profile cs (r ∷ rows)) ≡ true)
            ⊎ (is_absent env profile cs x ≡ false))
          xs
  unfolding absent_ids listed
  later_listed r rows [] h = tt
  later_listed r rows (x ∷ xs) (first, others) = elim (Bool-cases (is_absent env profile cs r)) [
    | inl gone ↦ (
      elim first [ inl m ↦ inl (rw gone (ground arith)) | inr q ↦ inr q ],
      later_listed r rows xs others,
    )
    | inr here ↦
        (elim first [ inl m ↦ inl (rw here m) | inr q ↦ inr q ], later_listed r rows xs others)
  ]

  -- Every absent row is listed.
  absent-listed :
      (rows : List Row)
      → All
          (λ x.
            (listed x.id (absent_ids env profile cs rows) ≡ true)
            ⊎ (is_absent env profile cs x ≡ false))
          rows
  unfolding absent_ids listed
  absent-listed [] = tt
  absent-listed (r ∷ rows) =
      let others = later_listed r rows rows (absent-listed rows) in
      elim (Bool-cases (is_absent env profile cs r)) [
        | inl gone ↦
            let same = (string_eq.is_same_iff r.id r.id).1 refl in
            (inl (rw (gone, same) refl), others)
        | inr here ↦ (inr here, others)
      ]

  -- No other row is: identifiers are distinct.
  listed-has_id :
      (id : String) (rows : List Row)
      → has_id id rows ≡ false
      → listed id (absent_ids env profile cs rows) ≡ false
  unfolding absent_ids listed has_id
  listed-has_id id [] h = refl
  listed-has_id id (r ∷ rows) h = ground (arith, listed-has_id id rows)

  present-unlisted :
      (r : Row) (rows : List Row)
      → distinct rows ≡ true
      → In r rows
      → is_absent env profile cs r ≡ false
      → listed r.id (absent_ids env profile cs rows) ≡ false
  unfolding absent_ids listed distinct
  present-unlisted r [] d m h = absurd m
  present-unlisted r (x ∷ rows) d (inl here) h =
      let present : is_absent env profile cs x ≡ false = ap (is_absent env profile cs) here ∙ h in
      rw present (
        subst (λ y. listed y.id (absent_ids env profile cs rows) ≡ false) here
          (listed-has_id x.id rows (ground arith)))
  present-unlisted r (x ∷ rows) d (inr there) h =
      let ih = present-unlisted r rows (ground arith) there h in
      let other : (x.id == r.id) ≡ false = other_id r x rows there (ground arith) in
      elim (Bool-cases (is_absent env profile cs x)) [
        | inl gone ↦ rw (gone, other) ih
        | inr here ↦ rw here ih
      ]

shown-present :
    (env : Environment) (profile : String) (cs : List Condition) (key : String) (rows : List Row)
    → (s : Shows key rows) → is_active env cs key ≡ true
    → is_absent env profile cs s.row ≡ false
unfolding is_absent
shown-present env profile cs key rows s active =
    let e : is_active env cs s.row.condition_key ≡ true = ap (is_active env cs) s.about ∙ active in
    rw e (ground arith)

-- What a synchronisation of the profile, or of all profiles where it is the empty text, leaves:
-- every alert in its scope that is not resolved has its condition, and every condition is shown.
pub sync_alerts-agrees :
    (env : Environment) (profile : String) (cs : List Condition) (now : Time) (limit : ℕ)
    (rows rows' : List Row)
    → IsSound rows
    → sync_alerts env profile cs now limit rows ≡ done rows'
    → All (λ r. is_absent env profile cs r ≡ false) rows'
      × ((key : String) → is_active env cs key ≡ true → Shows key rows')
unfolding prune_history
sync_alerts-agrees env profile cs now limit rows rows' s h =
    let (mid, e, same) = sync_alerts-done env profile cs now limit rows rows' h in
    let ids = absent_ids env profile cs mid in
    let keys = (sync_conditions-IsSound env now cs rows mid s e).keys in
    subst
      (λ rs.
        All (λ r. is_absent env profile cs r ≡ false) rs
        × ((key : String) → is_active env cs key ≡ true → Shows key rs))
      same
      (
        All-select_rows (λ r. is_absent env profile cs r ≡ false) _ (resolve_ids now ids mid)
            (All-resolve_ids (λ r. is_absent env profile cs r ≡ false) now
              (λ r. unfold is_absent resolve_row in refl) ids mid
              (absent-listed env profile cs mid)),
        λ key active.
            let shown = (sync_conditions-Shows env now cs rows mid e).1 key active in
            let present = shown-present env profile cs key mid shown active in
            let left =
              In-resolve_ids now ids shown.row mid shown.member
                (present-unlisted env profile cs shown.row mid keys shown.member present) in
            record {
              row = shown.row;
              member =
                  In-select_rows _ shown.row (resolve_ids now ids mid) left
                    (rw shown.unresolved refl);
              about = shown.about;
              unresolved = shown.unresolved;
            },
      )
