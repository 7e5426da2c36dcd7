-- ===== src/Alerts/Rows/Shown.antt =====
-- What the loop of SyncAlerts over the conditions leaves (internal/store/alerts.go).
use codex_folio.Base.{
  done, checked, found, >>=-done, done-injective, ◌≡◌, refl, subst, ◌∙◌, inl, inr, true, false,
  ◌&&◌, not, String, List, [], ◌∷◌, ◌++◌, ◌==◌, string_eq, In, Bool-cases, Option-cases, Time,
}
use codex_folio.Alerts.Evaluate.{Condition}
use codex_folio.Alerts.Rows.{
  Row, Environment, is_resolved, lookup, insert, update, find_key, has_id, update_id, any_row,
  valid_remaining, known_profile, nullable_alert_profile, new_row, touch, insert_row, update_row,
  sync_condition, sync_conditions, is_active,
}
use codex_folio.Alerts.Rows.Table.{In-update_id, find_key-In, In-append, last-In}

-- An alert of the key is open or acknowledged.
pub record Shows (key : String) (rows : List Row) : Type 0 where
  pub row : Row
  pub member : In row rows
  pub about : row.condition_key ≡ key
  pub unresolved : is_resolved row.state ≡ false

touch-unresolved :
    (now : Time) (c : Condition) (r : Row) → is_resolved (touch now c r).state ≡ false
unfolding touch
touch-unresolved now c r = elim (Bool-cases (is_resolved r.state)) [
  | inl gone ↦ rw gone refl
  | inr here ↦ rw here (here)
]

touch-key : (now : Time) (c : Condition) (r : Row) → (touch now c r).condition_key ≡ r.condition_key
unfolding touch
touch-key now c r = refl

-- A condition is shown once it has been handled, and what is shown stays so.
update-Shows :
    (now : Time) (c : Condition) (key id : String) (rows : List Row)
    → Shows key rows
    → Shows key (update_id id any_row (touch now c) rows)
update-Shows now c key id rows s = elim (Bool-cases (s.row.id == id && any_row s.row)) [
  | inl hit ↦ record {
    row = touch now c s.row;
    member = rw hit at (In-update_id id any_row (touch now c) s.row rows s.member);
    about = touch-key now c s.row ∙ s.about;
    unresolved = touch-unresolved now c s.row;
  }
  | inr miss ↦ record {
    row = s.row;
    member = rw miss at (In-update_id id any_row (touch now c) s.row rows s.member);
    about = s.about;
    unresolved = s.unresolved;
  }
]

touched-Shows :
    (now : Time) (c : Condition) (key : String) (r : Row) (rows : List Row)
    → In r rows
    → r.condition_key ≡ key
    → Shows key (update_id r.id any_row (touch now c) rows)
touched-Shows now c key r rows m e =
    let same = (string_eq.is_same_iff r.id r.id).1 refl in
    record {
      row = touch now c r;
      member = rw same at (In-update_id r.id any_row (touch now c) r rows m);
      about = touch-key now c r ∙ e;
      unresolved = touch-unresolved now c r;
    }

sync_condition-Shows :
    (env : Environment) (now : Time) (c : Condition) (rows rows' : List Row)
    → sync_condition env now c rows ≡ done rows'
    → Shows (env.key_text c.key) rows' × ((key : String) → Shows key rows → Shows key rows')
unfolding sync_condition insert_row update_row
sync_condition-Shows env now c rows rows' h =
    let (_, h1) = checked (env.works lookup) _ _ h in
    elim (Option-cases (find_key (env.key_text c.key) rows)) [
      | inl new ↦
          let (id, _, h2) = found (env.new_id (env.key_text c.key)) _ _ (rw new at h1) in
          let (_, h3) = checked (env.works insert) _ _ h2 in
          let (_, h4) = checked (not (has_id id rows)) _ _ h3 in
          let (_, h5) =
            checked
              (valid_remaining c.remaining_percent
                && known_profile env (nullable_alert_profile c.key.profile_id))
              _ _ h4 in
          let r = new_row env now id c in
          let e : rows ++ r ∷ [] ≡ rows' = done-injective h5 in
          (
            subst (Shows (env.key_text c.key)) e (record {
              row = r;
              member = last-In r rows;
              about = unfold new_row in refl;
              unresolved = unfold new_row in refl;
            }),
            λ key s. subst (Shows key) e (record {
              row = s.row;
              member = In-append r s.row rows s.member;
              about = s.about;
              unresolved = s.unresolved;
            }),
          )
      | inr (r, old) ↦
          let (m, about) = find_key-In (env.key_text c.key) r rows old in
          let (_, h2) =
            checked (env.works update && valid_remaining c.remaining_percent) _ _ (rw old at h1) in
          let e : update_id r.id any_row (touch now c) rows ≡ rows' = done-injective h2 in
          (
            subst (Shows (env.key_text c.key)) e
                (touched-Shows now c (env.key_text c.key) r rows m about),
            λ key s. subst (Shows key) e (update-Shows now c key r.id rows s),
          )
    ]

pub sync_conditions-Shows :
    (env : Environment) (now : Time) (cs : List Condition) (rows rows' : List Row)
    → sync_conditions env now cs rows ≡ done rows'
    → ((key : String) → Shows key rows → Shows key rows')
      × ((key : String) → is_active env cs key ≡ true → Shows key rows')
unfolding sync_conditions is_active
sync_conditions-Shows env now [] rows rows' h =
    ((λ key s. subst (Shows key) (done-injective h) s), λ key a. cc)
sync_conditions-Shows env now (c ∷ cs) rows rows' h =
    let (mid, e, h1) = >>=-done (sync_condition env now c rows) _ h in
    let (shown, kept) = sync_condition-Shows env now c rows mid e in
    let (kept', later) = sync_conditions-Shows env now cs mid rows' h1 in
    (
      λ key s. kept' key (kept key s),
      λ key a. elim (Bool-cases (env.key_text c.key == key)) [
        | inl here ↦ kept' key (
            subst (λ k. Shows k mid) ((string_eq.is_same_iff (env.key_text c.key) key).0 here)
              shown)
        | inr other ↦ later key (rw other at a)
      ],
    )
