-- ===== src/Profiles/Leaving.antt =====
-- The ways out of the quarantine, and the selection, keep the invariant
-- (internal/store/profile_lifecycle.go, internal/store/profiles.go).
use codex_folio.Base.{
  flip, done, checked, found, done-injective, ◌≡◌, refl, sym, subst, inl, inr, Bool, true, ◌&&◌,
  ◌||◌, not, String, Option, none, some, ◌==◌, string_eq, is_some, is_none, before, Bool-cases,
  and_eq_true, if◌then◌else◌,
}
use codex_folio.Launch.Prepare.{validate_alias}
use codex_folio.Profiles.Records.{
  quarantined, Quarantine, Tables, begin, commit, read_alias, read_quarantine, read_launches,
  update_selected, delete_quarantine, delete_rows, update_quarantine, Environment, find_identity,
  has_alias, is_active,
}
use codex_folio.Profiles.Removal.{
  put_quarantine, find_prepared, find_ready, complete_profile_quarantine, cancel_profile_removal,
  restore_profile, purge_profile, commit_selection,
}
use codex_folio.Profiles.Invariant.{IsSound, find_identity-In}
use codex_folio.Profiles.Soundness.{released-IsSound, delete_profile_rows-IsSound, selected-IsSound}

find_prepared-some :
    (o : Option Quarantine) (q : Quarantine) → find_prepared o ≡ some q → is_some o ≡ true
find_prepared-some none q h = cc
find_prepared-some (some p) q h = refl

pub completed-IsSound :
    (env : Environment) (id : String) (t t' : Tables)
    → IsSound t
    → complete_profile_quarantine env id t ≡ done t'
    → IsSound t'
unfolding complete_profile_quarantine put_quarantine
completed-IsSound env id t t' s h =
    let (_, h1) = checked (env.works update_quarantine) _ _ h in
    let (q, seen, h2) = found (find_prepared (t.quarantine id)) _ _ h1 in
    let there : is_some (t.quarantine id) ≡ true = find_prepared-some (t.quarantine id) q seen in
    let still : (key : String)
        → is_some (put_quarantine id (some (record q { state = quarantined })) t.quarantine key)
          ≡ true
        → is_some (t.quarantine key) ≡ true =
      λ key k. elim (Bool-cases (key == id)) [
        | inl same ↦
            subst (λ x. is_some (t.quarantine x) ≡ true)
              (sym ((string_eq.is_same_iff key id).0 same)) there
        | inr other ↦ rw other at k
      ] in
    subst IsSound (done-injective h2) (record {
      ids = s.ids;
      idle = λ key k. s.idle key (still key k);
      unselected = λ key k. s.unselected key (still key k);
    })

pub cancelled-IsSound :
    (env : Environment) (id : String) (t t' : Tables)
    → IsSound t
    → cancel_profile_removal env id t ≡ done t'
    → IsSound t'
unfolding cancel_profile_removal
cancelled-IsSound env id t t' s h =
    let (_, h1) = checked (env.works begin) _ _ h in
    let (_, h2) = checked (env.works read_quarantine) _ _ h1 in
    let (q, _, h3) = found (find_prepared (t.quarantine id)) _ _ h2 in
    let (_, h4) = checked (not q.was_selected || env.works update_selected) _ _ h3 in
    let (_, h5) = checked (env.works delete_quarantine) _ _ h4 in
    let (_, h6) = checked (env.works commit) _ _ h5 in
    subst IsSound (done-injective h6) (
      released-IsSound id (if q.was_selected && is_some t.selected then some id else t.selected) t s
        (λ key other free. elim (Bool-cases (q.was_selected && is_some t.selected)) [
          | inl back ↦ rw back (flip key id other)
          | inr kept ↦ rw kept free
        ]))

pub restored-IsSound :
    (env : Environment) (id : String) (t t' : Tables)
    → IsSound t
    → restore_profile env id t ≡ done t'
    → IsSound t'
unfolding restore_profile
restored-IsSound env id t t' s h =
    let (_, h1) = checked (env.works read_quarantine) _ _ h in
    let (q, _, h2) = found (find_ready (t.quarantine id)) _ _ h1 in
    let (_, h3) = checked (before env.texts.now q.purge_after) _ _ h2 in
    let (_, h4) = checked (env.works delete_quarantine) _ _ h3 in
    subst IsSound (done-injective h4) (released-IsSound id t.selected t s (λ key other free. free))

pub purged-IsSound :
    (env : Environment) (id : String) (t t' : Tables)
    → IsSound t
    → purge_profile env id t ≡ done t'
    → IsSound t'
unfolding purge_profile
purged-IsSound env id t t' s h =
    let (_, h1) = checked (env.works begin) _ _ h in
    let (_, h2) = checked (env.works read_quarantine) _ _ h1 in
    let (_, _, h3) = found (find_ready (t.quarantine id)) _ _ h2 in
    let (_, h4) = checked (env.works delete_rows) _ _ h3 in
    let (_, h5) = checked (env.works commit) _ _ h4 in
    subst IsSound (done-injective h5) (delete_profile_rows-IsSound id t s)

pub chosen-IsSound :
    (env : Environment) (alias : String) (warns : Bool) (t t' : Tables)
    → IsSound t
    → commit_selection env alias t ≡ done (warns, t')
    → IsSound t'
unfolding commit_selection is_active
chosen-IsSound env alias warns t t' s h =
    let (_, h1) = checked (validate_alias env.texts alias) _ _ h in
    let (_, h2) = checked (env.works begin) _ _ h1 in
    let (_, h3) = checked (env.works read_alias) _ _ h2 in
    let (p, seen, h4) = found (find_identity (is_active env alias t) t.profiles) _ _ h3 in
    let (_, h5) = checked p.is_ready _ _ h4 in
    let (_, h6) = checked (env.works update_selected) _ _ h5 in
    let (_, h7) = checked (env.works read_launches) _ _ h6 in
    let (_, h8) = checked (env.works commit) _ _ h7 in
    let (_, active) = find_identity-In (is_active env alias t) t.profiles p seen in
    subst (λ y. IsSound y.1) (done-injective h8)
      (selected-IsSound p t s
        (and_eq_true (has_alias env alias p.alias) (is_none (t.quarantine p.profile_id)) active).1)
