-- ===== src/Profiles/Invariant.antt =====
-- What every operation on the profiles keeps: a profile in quarantine has no launch and is not
-- selected (internal/store/profile_lifecycle.go, internal/store/profiles.go).
use codex_folio.Base.{
  done, >>=-done, checked, found, done-injective, ◌≡◌, refl, sym, ap, subst, ◌∙◌, inl, inr, Bool,
  true, false, ◌&&◌, ◌||◌, not, String, List, [], ◌∷◌, Option, some, ◌==◌, string_eq, is_some, In,
  arith, Bool-cases,
}
use codex_folio.Launch.Prepare.{validate_alias}
use codex_folio.Profiles.Records.{
  Identity, Tables, read_alias, read_identity, Environment, Item, find_identity, is_active,
  get_identity_profile, get_profile, populate_identity_home_path,
}
use codex_folio.Profiles.Removal.{has_live, is_text}

unfoldable pub has_profile : String → List Identity → Bool
has_profile id [] = false
has_profile id (p ∷ ps) = p.profile_id == id || has_profile id ps

-- profile_id is the primary key.
unfoldable pub distinct : List Identity → Bool
unfolding has_profile
distinct [] = true
distinct (p ∷ ps) = not (has_profile p.profile_id ps) && distinct ps

pub record IsSound (t : Tables) : Type 0 where
  pub ids : distinct t.profiles ≡ true
  pub idle : (id : String) → is_some (t.quarantine id) ≡ true → has_live id t.launches ≡ false
  pub unselected : (id : String) → is_some (t.quarantine id) ≡ true → is_text id t.selected ≡ false

-- COLLATE NOCASE compares what a folding makes of two texts, and EqualFold equates at least as many.
pub record IsFolding (env : Environment) : Type 0 where
  pub fold : String → String
  pub same : (a b : String) → env.texts.same_alias a b ≡ (fold a == fold b)
  pub wider : (a b : String) → env.texts.same_alias a b ≡ true → env.equal_fold a b ≡ true

pub find_identity-In :
    (test : Identity → Bool) (ps : List Identity) (p : Identity)
    → find_identity test ps ≡ some p
    → In p ps × (test p ≡ true)
unfolding find_identity
find_identity-In test [] p h = cc
find_identity-In test (q ∷ ps) p h = elim (Bool-cases (test q)) [
  | inl hit ↦
      let found_here : ◌≡◌ {A = Option Identity} (some q) (some p) = rw hit at h in
      let same : q ≡ p = cc in (inl same, ap test (sym same) ∙ hit)
  | inr miss ↦
      let (member, passes) = find_identity-In test ps p (rw miss at h) in (inr member, passes)
]

In-has_profile : (p : Identity) (ps : List Identity) → In p ps → has_profile p.profile_id ps ≡ true
unfolding has_profile
In-has_profile p [] m = absurd m
In-has_profile p (q ∷ ps) (inl here) =
    let same : (q.profile_id == p.profile_id) ≡ true =
      (string_eq.is_same_iff q.profile_id p.profile_id).1 (ap (λ r. r.profile_id) here) in
    rw same refl
In-has_profile p (q ∷ ps) (inr there) = let ih = In-has_profile p ps there in ground (arith, ih)

pub distinct-same :
    (p q : Identity) (ps : List Identity)
    → distinct ps ≡ true
    → In p ps
    → In q ps
    → p.profile_id ≡ q.profile_id
    → p ≡ q
unfolding distinct
distinct-same p q [] d m n e = absurd m
distinct-same p q (r ∷ ps) d (inl here) (inl there) e = sym here ∙ there
distinct-same p q (r ∷ ps) d (inl here) (inr there) e =
    let taken : has_profile r.profile_id ps ≡ true =
      subst (λ k. has_profile k ps ≡ true) (sym e ∙ ap (λ y. y.profile_id) (sym here))
        (In-has_profile q ps there) in
    ground (arith, taken, d)
distinct-same p q (r ∷ ps) d (inr here) (inl there) e =
    let taken : has_profile r.profile_id ps ≡ true =
      subst (λ k. has_profile k ps ≡ true) (e ∙ ap (λ y. y.profile_id) (sym there))
        (In-has_profile p ps here) in
    ground (arith, taken, d)
distinct-same p q (r ∷ ps) d (inr here) (inr there) e =
    distinct-same p q ps (ground (arith, d)) here there e

-- The item that getIdentityProfile reads has the identifier that was asked for.
pub get_identity_profile-id :
    (env : Environment) (id : String) (t : Tables) (item : Item)
    → get_identity_profile env id t ≡ done item
    → id ≡ item.profile_id
unfolding get_identity_profile
get_identity_profile-id env id t item h =
    let (_, h1) = checked (env.works read_identity) _ _ h in
    let (p, _, h2) = found (find_identity (λ p. p.profile_id == id) t.profiles) _ _ h1 in
    let (_, h3) = checked (is_some p.alias) _ _ h2 in
    let (path, _, h4) = >>=-done (populate_identity_home_path env p) _ h3 in
    ap (λ i. i.profile_id) (done-injective h4)

pub get_profile-active :
    (env : Environment) (alias : String) (t : Tables) (item : Item)
    → get_profile env alias t ≡ done item
    → (p : Identity) × In p t.profiles
      × (is_active env alias t p ≡ true)
      × (p.profile_id ≡ item.profile_id)
unfolding get_profile
get_profile-active env alias t item h =
    let (_, h1) = checked (validate_alias env.texts alias) _ _ h in
    let (_, h2) = checked (env.works read_alias) _ _ h1 in
    let (p, seen, h3) = found (find_identity (is_active env alias t) t.profiles) _ _ h2 in
    let (member, passes) = find_identity-In (is_active env alias t) t.profiles p seen in
    (p, member, passes, get_identity_profile-id env p.profile_id t item h3)
