-- ===== src/Profiles/Beginning.antt =====
-- The removal of a profile keeps the invariant, and so does every trace of the operations
-- (internal/store/profile_lifecycle.go, internal/store/profiles.go, internal/store/launches.go).
use codex_folio.Base.{
  done, fails, >>=-done, checked, found, done-injective, ◌≡◌, refl, sym, ap, subst, ◌∙◌, inl, inr,
  true, false, ◌&&◌, not, String, Option, none, some, ◌==◌, string_eq, is_zero, is_none, In, arith,
  Bool-cases, and_eq_true,
}
use codex_folio.Launch.Prepare.{validate_alias}
use codex_folio.Profiles.Records.{
  Identity, Tables, profile_not_found, Outcome, begin, commit, read_launches, read_selected,
  read_replacement, update_selected, Environment, Item, RemovalRecord, find_identity, has_alias,
  is_active, get_profile, get_quarantined_profile,
}
use codex_folio.Profiles.Removal.{
  has_live, is_text, reselect, take_out, remove_item, begin_or_continue, begin_profile_removal,
}
use codex_folio.Profiles.Invariant.{
  IsSound, IsFolding, distinct, find_identity-In, distinct-same, get_profile-active,
}
use codex_folio.Profiles.Soundness.{selected-IsSound, take_out-IsSound}

-- Two names of one alias are equal to EqualFold.
named_alike :
    (env : Environment) (a b : String) (o : Option String)
    → IsFolding env
    → has_alias env a o ≡ true
    → has_alias env b o ≡ true
    → env.texts.same_alias a b ≡ true
named_alike env a b none f h k = cc
named_alike env a b (some c) f h k =
    let one = (string_eq.is_same_iff (f.fold c) (f.fold a)).0 (sym (f.same c a) ∙ h) in
    let two = (string_eq.is_same_iff (f.fold c) (f.fold b)).0 (sym (f.same c b) ∙ k) in
    f.same a b ∙ (string_eq.is_same_iff (f.fold a) (f.fold b)).1 (sym one ∙ two)

-- A replacement is another profile than the one that an alias names.
replacement-differs :
    (env : Environment) (alias replacement : String) (t : Tables) (p q : Identity)
    → IsFolding env
    → distinct t.profiles ≡ true
    → In p t.profiles
    → In q t.profiles
    → has_alias env alias p.alias ≡ true
    → has_alias env replacement q.alias ≡ true
    → env.equal_fold alias replacement ≡ false
    → (q.profile_id == p.profile_id) ≡ false
replacement-differs env alias replacement t p q f d m n a b apart =
    elim (Bool-cases (q.profile_id == p.profile_id)) [
      | inr other ↦ other
      | inl same ↦
          let one : q ≡ p =
            distinct-same q p t.profiles d n m
              ((string_eq.is_same_iff q.profile_id p.profile_id).0 same) in
          let both : has_alias env replacement p.alias ≡ true =
            ap (λ r. has_alias env replacement r.alias) (sym one) ∙ b in
          let wide =
            f.wider alias replacement (named_alike env alias replacement p.alias f a both) in
          ground (arith, wide, apart)
    ]

reselect-IsSound :
    (env : Environment) (alias replacement : String) (item : Item) (p : Identity) (t t' : Tables)
    → IsFolding env
    → IsSound t
    → In p t.profiles
    → has_alias env alias p.alias ≡ true
    → p.profile_id ≡ item.profile_id
    → reselect env alias replacement item t ≡ done t'
    → IsSound t' × (is_text item.profile_id t'.selected ≡ false) × (t'.launches ≡ t.launches)
unfolding reselect is_active
reselect-IsSound env alias replacement item p t t' f s m a same h =
    elim (Bool-cases (is_text item.profile_id t.selected)) [
      | inr free ↦
          subst
            (λ u.
              IsSound u × (is_text item.profile_id u.selected ≡ false) × (u.launches ≡ t.launches))
            (done-injective (rw free at h)) (s, free, refl)
      | inl chosen ↦
          let (valid, h1) =
            checked (validate_alias env.texts replacement && not (env.equal_fold alias replacement))
              _ _ (rw chosen at h) in
          let (_, h2) = checked (env.works read_replacement) _ _ h1 in
          let (q, seen, h3) =
            found (find_identity (is_active env replacement t) t.profiles) _ _ h2 in
          let (_, h4) = checked q.is_ready _ _ h3 in
          let (_, h5) = checked (env.works update_selected) _ _ h4 in
          let (n, active) = find_identity-In (is_active env replacement t) t.profiles q seen in
          let (named, there) =
            and_eq_true (has_alias env replacement q.alias) (is_none (t.quarantine q.profile_id))
              active in
          let differs =
            replacement-differs env alias replacement t p q f s.ids m n a named
              (ground (arith, valid)) in
          subst
            (λ u.
              IsSound u × (is_text item.profile_id u.selected ≡ false) × (u.launches ≡ t.launches))
            (done-injective h5)
            (
              selected-IsSound q t s there,
              subst (λ k. (q.profile_id == k) ≡ false) same differs,
              refl,
            )
    ]

remove_item-IsSound :
    (env : Environment) (alias replacement : String) (item : Item) (p : Identity) (t : Tables)
    (r : RemovalRecord × Tables)
    → IsFolding env
    → IsSound t
    → In p t.profiles
    → has_alias env alias p.alias ≡ true
    → p.profile_id ≡ item.profile_id
    → remove_item env alias replacement item t ≡ done r
    → IsSound r.1
unfolding remove_item
remove_item-IsSound env alias replacement item p t r f s m a same h =
    let (_, h1) = checked (not (is_zero env.texts.now)) _ _ h in
    let (_, h2) = checked (env.works begin) _ _ h1 in
    let (_, h3) = checked (env.works read_launches) _ _ h2 in
    let (quiet, h4) = checked (not (has_live item.profile_id t.launches)) _ _ h3 in
    let (_, h5) = checked (env.works read_selected) _ _ h4 in
    let (t1, e1, h6) = >>=-done (reselect env alias replacement item t) _ h5 in
    let (taken, e2, h7) =
      >>=-done (take_out env item (is_text item.profile_id t.selected) t1) _ h6 in
    let (_, h8) = checked (env.works commit) _ _ h7 in
    let (s1, free, launches) = reselect-IsSound env alias replacement item p t t1 f s m a same e1 in
    let quiet1 : has_live item.profile_id t1.launches ≡ false =
      ap (has_live item.profile_id) launches ∙ ground (arith, quiet) in
    subst (λ y. IsSound y.1) (done-injective h8)
      (take_out-IsSound env item (is_text item.profile_id t.selected) t1 taken s1 quiet1 free e2)

begin_or_continue-IsSound :
    (env : Environment) (alias replacement : String) (t : Tables) (o : Outcome RemovalRecord)
    (r : RemovalRecord × Tables)
    → IsFolding env
    → IsSound t
    → begin_or_continue env alias replacement t o ≡ done r
    → IsSound r.1
unfolding begin_or_continue is_active
begin_or_continue-IsSound env alias replacement t (done existing) r f s h =
    subst (λ y. IsSound y.1) (done-injective h) s
begin_or_continue-IsSound env alias replacement t (fails profile_not_found) r f s h =
    let (item, e, h1) = >>=-done (get_profile env alias t) _ h in
    let (p, m, active, same) = get_profile-active env alias t item e in
    let (named, _) =
      and_eq_true (has_alias env alias p.alias) (is_none (t.quarantine p.profile_id)) active in
    remove_item-IsSound env alias replacement item p t r f s m named same h1
begin_or_continue-IsSound env alias replacement t (fails e) r f s h = cc

pub begin_profile_removal-IsSound :
    (env : Environment) (alias replacement : String) (t : Tables) (r : RemovalRecord × Tables)
    → IsFolding env
    → IsSound t
    → begin_profile_removal env alias replacement t ≡ done r
    → IsSound r.1
unfolding begin_profile_removal
begin_profile_removal-IsSound env alias replacement t r f s h =
    let (_, h1) = checked (validate_alias env.texts alias) _ _ h in
    begin_or_continue-IsSound env alias replacement t (get_quarantined_profile env alias t) r f s h1
