-- ===== src/Profiles/Live.antt =====
-- The launches of a profile that are pending or running, while internal/store/launches.go works on
-- them: only a launch that is prepared for the profile adds one.
use codex_folio.Base.{
  done, >>=-done, checked, found, done-injective, ◌≡◌, refl, sym, ap, subst, ◌∙◌, inl, inr, Bool,
  true, false, ◌&&◌, not, String, List, [], ◌∷◌, ◌++◌, Option, none, some, ◌==◌, ◌!=◌, string_eq,
  is_zero, is_none, In, arith, Bool-cases,
}
use codex_folio.Launch.Records.{
  State, Launch, Profile, Tables, Environment, begin, commit, read_profile, update_checkpoint,
  insert_launch, is_pending, is_running, is_live, is_launching, find_launch, update_launches,
  affects_checkpoint,
}
use codex_folio.Launch.Prepare.{
  PrepareRequest, Plan, validate_alias, valid_path, find_profile, find_home, claim_if_named,
  new_row, any_state, insert_row, record_launch, prepare_launch,
}
use codex_folio.Launch.Marks.{complete_checkpoint, release_checkpoint, release_left}
use codex_folio.Launch.Handoff.{claim_if_named-done}
use codex_folio.Profiles.Removal.{is_live_of, has_live}

module _ (x : String) where
  pub has_live-update :
      (lease : String) (test : State → Bool) (change : Launch → Launch)
      → ((l : Launch) → (change l).profile_id ≡ l.profile_id)
      → ((s : State) → test s ≡ true → is_live s ≡ true)
      → (ls : List Launch) → has_live x ls ≡ false
      → has_live x (update_launches lease test change ls) ≡ false
  unfolding has_live is_live_of update_launches
  has_live-update lease test change same live [] h = refl
  has_live-update lease test change same live (l ∷ ls) h =
      let ih = has_live-update lease test change same live ls (ground (arith, h)) in
      elim (Bool-cases (l.lease_id == lease && test l.state)) [
        | inl hit ↦
            let l_live = live l.state (ground (arith, hit)) in
            let other : (l.profile_id == x) ≡ false = ground (arith, h, l_live) in
            rw (hit, same l, other, ih) refl
        | inr miss ↦
            let here : (l.profile_id == x && is_live l.state) ≡ false = ground (arith, h) in
            rw (miss, here, ih) refl
      ]

  pub has_live-append :
      (row : Launch) (ls : List Launch)
      → has_live x ls ≡ false
      → (row.profile_id == x) ≡ false
      → has_live x (ls ++ row ∷ []) ≡ false
  unfolding has_live is_live_of
  has_live-append row [] h other = rw other refl
  has_live-append row (l ∷ ls) h other =
      let ih = has_live-append row ls (ground (arith, h)) other in
      let here : (l.profile_id == x && is_live l.state) ≡ false = ground (arith, h) in
      rw (here, ih) refl

  pub pending-live : (s : State) → is_pending s ≡ true → is_live s ≡ true
  pending-live s h = ground (arith, h)

  pub running-live : (s : State) → is_running s ≡ true → is_live s ≡ true
  running-live s h = ground (arith, h)

pub complete_checkpoint-launches :
    (env : Environment) (o : Option String) (t t' : Tables)
    → complete_checkpoint env o t ≡ done t'
    → t.launches ≡ t'.launches
unfolding complete_checkpoint
complete_checkpoint-launches env none t t' h = ap (λ u. u.launches) (done-injective h)
complete_checkpoint-launches env (some id) t t' h =
    let (_, h1) = checked (env.works update_checkpoint) _ _ h in
    let (_, h2) = checked (affects_checkpoint id is_launching t.checkpoints) _ _ h1 in
    ap (λ u. u.launches) (done-injective h2)

pub release_checkpoint-launches :
    (env : Environment) (o : Option String) (t t' : Tables)
    → release_checkpoint env o t ≡ done t'
    → t.launches ≡ t'.launches
unfolding release_checkpoint
release_checkpoint-launches env none t t' h = ap (λ u. u.launches) (done-injective h)
release_checkpoint-launches env (some id) t t' h =
    let (_, h1) = checked (env.works update_checkpoint) _ _ h in
    ap (λ u. u.launches) (done-injective h1)

pub release_left-launches :
    (env : Environment) (o : Option String) (t t' : Tables)
    → release_left env o t ≡ done t'
    → t.launches ≡ t'.launches
unfolding release_left
release_left-launches env none t t' h = ap (λ u. u.launches) (done-injective h)
release_left-launches env (some id) t t' h = elim (Bool-cases (id != "")) [
  | inl given ↦ release_checkpoint-launches env (some id) t t' (rw given at h)
  | inr empty ↦ ap (λ u. u.launches) (done-injective (rw empty at h))
]

claim_if_named-launches :
    (env : Environment) (request : PrepareRequest) (p : Profile) (t t' : Tables)
    → claim_if_named env request p t ≡ done t'
    → t.launches ≡ t'.launches
claim_if_named-launches env request p t t' h =
    sym (ap (λ u. u.launches) ((claim_if_named-done env request p t t' h).1))

record_launch-launches :
    (env : Environment) (request : PrepareRequest) (p : Profile) (t : Tables) (lt : String × Tables)
    → record_launch env request p t ≡ done lt
    → (lease : String) × (lt.1.launches ≡ t.launches ++ new_row env request p lease ∷ [])
unfolding record_launch insert_row
record_launch-launches env request p t lt h =
    let (_, h1) = checked (not (is_zero env.now)) _ _ h in
    let (_, _, h2) = found env.new_launch _ _ h1 in
    let (lease, _, h3) = found env.new_lease _ _ h2 in
    let (t1, e1, h4) = >>=-done (claim_if_named env request p t) _ h3 in
    let row = new_row env request p lease in
    let (t2, e2, h5) = >>=-done (insert_row env row t1) _ h4 in
    let (_, i1) = checked (env.works insert_launch) _ _ e2 in
    let (_, i2) = checked (is_none (find_launch row.lease_id any_state t1.launches)) _ _ i1 in
    let (_, h6) = checked (env.works commit) _ _ h5 in
    (
      lease,
      sym (ap (λ u. u.launches) (done-injective i2) ∙ ap (λ y. y.1.launches) (done-injective h6))
          ∙ ap (λ ls. ls ++ row ∷ []) (sym (claim_if_named-launches env request p t t1 e1)),
    )

find_profile-active :
    (env : Environment) (alias : String) (ps : List Profile) (p : Profile)
    → find_profile env alias ps ≡ some p
    → In p ps × (p.quarantined ≡ false)
unfolding find_profile
find_profile-active env alias [] p h = cc
find_profile-active env alias (q ∷ ps) p h =
    elim (Bool-cases (env.same_alias q.alias alias && not q.quarantined)) [
      | inl hit ↦
          let found_here : ◌≡◌ {A = Option Profile} (some q) (some p) = rw hit at h in
          let same : q ≡ p = cc in
          (inl same, subst (λ r. r.quarantined ≡ false) same (ground (arith, hit)))
      | inr miss ↦
          let (member, active) = find_profile-active env alias ps p (rw miss at h) in
          (inr member, active)
    ]

-- A launch is prepared for a profile that is not in quarantine.
pub prepare_launch-active :
    (env : Environment) (request : PrepareRequest) (t : Tables) (plan : Plan) (t' : Tables)
    → prepare_launch env request t ≡ done (plan, t')
    → (p : Profile) × (lease : String) × In p t.profiles
      × (p.quarantined ≡ false)
      × (t'.launches ≡ t.launches ++ new_row env request p lease ∷ [])
unfolding prepare_launch
prepare_launch-active env request t plan t' h =
    let (_, h1) = checked (validate_alias env request.alias) _ _ h in
    let (_, h2) =
      checked (valid_path env request.executable && valid_path env request.working_directory) _ _
        h1 in
    let (_, h3) = checked (env.works begin) _ _ h2 in
    let (_, h4) = checked (env.works read_profile) _ _ h3 in
    let (p, seen, h5) = found (find_profile env request.alias t.profiles) _ _ h4 in
    let (_, h6) = checked p.is_ready _ _ h5 in
    let (home, _, h7) = >>=-done (find_home env request p) _ h6 in
    let (lt, e, h8) = >>=-done (record_launch env request p t) _ h7 in
    let (lease, added) = record_launch-launches env request p t lt e in
    let (member, active) = find_profile-active env request.alias t.profiles p seen in
    (p, lease, member, active, ap (λ y. y.1.launches) (sym (done-injective h8)) ∙ added)
