-- ===== src/Profiles/Begun.antt =====
-- What a removal has done that put a profile into quarantine (internal/store/profile_lifecycle.go).
use codex_folio.Base.{
  done, fails, >>=-done, checked, found, done-injective, ◌≡◌, refl, sym, ap, subst, ◌∙◌, inl, inr,
  Bool, true, false, ◌&&◌, not, String, Option, none, some, ◌==◌, string_eq, is_zero, is_some,
  is_none, Bool-cases, if◌then◌else◌,
}
use mathlib.Core.Path.{fun_ext}
use codex_folio.Launch.Prepare.{validate_alias}
use codex_folio.Profiles.Records.{
  QuarantineState, prepared, quarantined, Quarantine, Identity, Tables, profile_not_found,
  quarantine_invalid, Outcome, begin, commit, read_alias, read_identity, read_quarantine,
  read_launches, read_selected, read_replacement, update_selected, insert_quarantine,
  delete_quarantine, delete_rows, update_quarantine, Environment, Item, RemovalRecord,
  find_identity, has_alias, is_active, get_identity_profile, get_profile, get_quarantined_profile,
  populate_identity_home_path,
}
use codex_folio.Profiles.Removal.{
  has_live, is_text, put_quarantine, reselect, quarantine_row, take_out, remove_item,
  begin_or_continue, begin_profile_removal, is_prepared, cancel_profile_removal,
}
use codex_folio.Profiles.Records.{home_failed}
use codex_folio.Profiles.Lifecycle.{is_deregistered}

selected_text : (id : String) (o : Option String) → is_text id o ≡ true → some id ≡ o
selected_text id none h = cc
selected_text id (some s) h = ap some (sym ((string_eq.is_same_iff s id).0 h))

is_none-none : (o : Option Quarantine) → is_none o ≡ true → none ≡ o
is_none-none none h = refl
is_none-none (some q) h = cc

-- What the choice of a replacement does.
reselected :
    (env : Environment) (alias replacement : String) (item : Item) (t t1 : Tables)
    → reselect env alias replacement item t ≡ done t1
    → (chosen : Option String) × (t1 ≡ record t { selected = chosen })
      × ((if is_text item.profile_id t.selected && is_some chosen
            then some item.profile_id
            else chosen)
          ≡ t.selected)
unfolding reselect
reselected env alias replacement item t t1 h =
    elim (Bool-cases (is_text item.profile_id t.selected)) [
      | inr free ↦ (t.selected, sym (done-injective (rw free at h)), rw free refl)
      | inl chosen ↦
          let (_, h1) =
            checked (validate_alias env.texts replacement && not (env.equal_fold alias replacement))
              _ _ (rw chosen at h) in
          let (_, h2) = checked (env.works read_replacement) _ _ h1 in
          let (q, _, h3) = found (find_identity (is_active env replacement t) t.profiles) _ _ h2 in
          let (_, h4) = checked q.is_ready _ _ h3 in
          let (_, h5) = checked (env.works update_selected) _ _ h4 in
          (
            some q.profile_id,
            sym (done-injective h5),
            rw chosen (selected_text item.profile_id t.selected chosen),
          )
    ]

-- What a profile's way into quarantine does.
set_aside :
    (env : Environment) (item : Item) (was : Bool) (t t' : Tables) (r : RemovalRecord)
    → take_out env item was t ≡ done (r, t')
    → is_deregistered r.action ≡ false
    → (r.item ≡ item)
      × (is_none (t.quarantine item.profile_id) ≡ true)
      × (t' ≡ record t {
        quarantine = put_quarantine item.profile_id (some (quarantine_row env was)) t.quarantine;
      })
unfolding take_out
set_aside env item was t t' r h kind = elim (Bool-cases (item.ownership == "referenced")) [
  | inl referenced ↦
      let (_, h1) = checked (env.works delete_rows) _ _ (rw referenced at h) in
      let gone : true ≡ false = ap (λ y. is_deregistered y.0.action) (done-injective h1) ∙ kind in
      cc
  | inr other ↦ elim (Bool-cases (item.ownership == "managed")) [
    | inl managed ↦
        let (_, h1) = checked (env.works insert_quarantine) _ _ (rw (other, managed) at h) in
        let (free, h2) = checked (is_none (t.quarantine item.profile_id)) _ _ h1 in
        let (_, h3) =
          checked (is_some (find_identity (λ p. p.profile_id == item.profile_id) t.profiles)) _ _
            h2 in
        (
          sym (ap (λ y. y.0.item) (done-injective h3)),
          free,
          sym (ap (λ y. y.1) (done-injective h3)),
        )
    | inr neither ↦ cc (rw (other, neither) at h)
  ]
]

pub put_back :
    (id : String) (q : Option Quarantine) (table : String → Option Quarantine)
    → is_none (table id) ≡ true
    → put_quarantine id none (put_quarantine id q table) ≡ table
unfolding put_quarantine
put_back id q table free = fun_ext (λ key. elim (Bool-cases (key == id)) [
  | inl same ↦
      let e : is_none (table key) ≡ true =
        subst (λ k. is_none (table k) ≡ true) (sym ((string_eq.is_same_iff key id).0 same)) free in
      rw same (is_none-none (table key) e)
  | inr other ↦ rw other refl
])

pub put_here :
    (id : String) (q : Option Quarantine) (table : String → Option Quarantine)
    → put_quarantine id q table id ≡ q
unfolding put_quarantine
put_here id q table = let self = (string_eq.is_same_iff id id).1 refl in rw self refl

pub cancel-done :
    (env : Environment) (id : String) (q : Quarantine) (t : Tables)
    → ((s : codex_folio.Profiles.Records.Statement) → env.works s ≡ true)
    → t.quarantine id ≡ some q
    → is_prepared (some q) ≡ true
    → cancel_profile_removal env id t
      ≡ done (record t {
        selected = if q.was_selected && is_some t.selected then some id else t.selected;
        quarantine = put_quarantine id none t.quarantine;
      })
unfolding cancel_profile_removal
cancel-done env id q t works there ready = elim (Bool-cases q.was_selected) [
  | inl was ↦
      rw
        (
          works begin,
          works read_quarantine,
          there,
          ready,
          was,
          works update_selected,
          works delete_quarantine,
          works commit,
        )
        refl
  | inr not_was ↦
      rw
        (
          works begin,
          works read_quarantine,
          there,
          ready,
          not_was,
          works delete_quarantine,
          works commit,
        )
        refl
]

-- What the removal of a profile with a managed home has done: the profile is in quarantine, and
-- where it was selected, another one is.
pub record IsBegun (env : Environment) (r : RemovalRecord) (t t' : Tables) : Type 0 where
  pub was : Bool
  pub chosen : Option String
  pub tables : t' ≡ record t {
    selected = chosen;
    quarantine = put_quarantine r.item.profile_id (some (quarantine_row env was)) t.quarantine;
  }
  pub free : is_none (t.quarantine r.item.profile_id) ≡ true
  pub back : (if was && is_some chosen then some r.item.profile_id else chosen) ≡ t.selected

remove_item-IsBegun :
    (env : Environment) (alias replacement : String) (item : Item) (r : RemovalRecord)
    (t t' : Tables)
    → remove_item env alias replacement item t ≡ done (r, t')
    → is_deregistered r.action ≡ false
    → IsBegun env r t t'
unfolding remove_item
remove_item-IsBegun env alias replacement item r t t' h kind =
    let (_, h1) = checked (not (is_zero env.texts.now)) _ _ h in
    let (_, h2) = checked (env.works begin) _ _ h1 in
    let (_, h3) = checked (env.works read_launches) _ _ h2 in
    let (_, h4) = checked (not (has_live item.profile_id t.launches)) _ _ h3 in
    let (_, h5) = checked (env.works read_selected) _ _ h4 in
    let was = is_text item.profile_id t.selected in
    let (t1, e1, h6) = >>=-done (reselect env alias replacement item t) _ h5 in
    let (taken, e2, h7) = >>=-done (take_out env item was t1) _ h6 in
    let (_, h8) = checked (env.works commit) _ _ h7 in
    let pair : taken ≡ (r, t') = done-injective h8 in
    let (chosen, moved, back) = reselected env alias replacement item t t1 e1 in
    let (same, free, aside) =
      set_aside env item was t1 t' r (subst (λ y. take_out env item was t1 ≡ done y) pair e2)
        kind in
    let id = item.profile_id in
    let end : t' ≡ record t {
      selected = chosen;
      quarantine = put_quarantine id (some (quarantine_row env was)) t.quarantine;
    } =
      aside
      ∙ ap {A = Tables} {B = Tables}
          (λ u. record u {
            quarantine = put_quarantine id (some (quarantine_row env was)) u.quarantine;
          })
          moved in
    let empty : is_none (t.quarantine id) ≡ true =
      ap (λ u. is_none (u.quarantine id)) (sym moved) ∙ free in
    let known : id ≡ r.item.profile_id = ap (λ i. i.profile_id) (sym same) in
    record {
      was = was;
      chosen = chosen;
      tables =
          subst
            (λ k. t' ≡ record t {
              selected = chosen;
              quarantine = put_quarantine k (some (quarantine_row env was)) t.quarantine;
            })
            known end;
      free = subst (λ k. is_none (t.quarantine k) ≡ true) known empty;
      back =
          subst (λ k. (if was && is_some chosen then some k else chosen) ≡ t.selected) known back;
    }

pub begin-IsBegun :
    (env : Environment) (alias replacement : String) (r : RemovalRecord) (t t' : Tables)
    → get_quarantined_profile env alias t ≡ fails profile_not_found
    → begin_profile_removal env alias replacement t ≡ done (r, t')
    → is_deregistered r.action ≡ false
    → IsBegun env r t t'
unfolding begin_profile_removal begin_or_continue
begin-IsBegun env alias replacement r t t' new h kind =
    let (_, h1) = checked (validate_alias env.texts alias) _ _ h in
    let h2 : begin_or_continue env alias replacement t (fails profile_not_found) ≡ done (r, t') =
      subst (λ o. begin_or_continue env alias replacement t o ≡ done (r, t')) new h1 in
    let (item, _, h3) = >>=-done (get_profile env alias t) _ h2 in
    remove_item-IsBegun env alias replacement item r t t' h3 kind
