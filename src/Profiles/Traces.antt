-- ===== src/Profiles/Traces.antt =====
-- The profiles and their launches as a state machine: the operations of
-- internal/store/profile_lifecycle.go, SelectProfile of internal/store/profiles.go and the operations
-- of internal/store/launches.go as steps.
use codex_folio.Base.{
  done, ◌≡◌, sym, ap, ◌∙◌, inl, inr, Bool, true, false, String, List, [], ◌∷◌, none, some, ◌==◌,
  string_eq, is_some, In, arith, Option-cases,
}
use codex_folio.Launch.Records.{Launch, is_live, is_running}
use codex_folio.Profiles.Records.{Identity, Tables, Environment, RemovalRecord}
use codex_folio.Profiles.Removal.{
  has_live, is_text, begin_profile_removal, complete_profile_quarantine, cancel_profile_removal,
  restore_profile, purge_profile, commit_selection,
}
use codex_folio.Profiles.Invariant.{IsSound, IsFolding, distinct}
use codex_folio.Profiles.Beginning.{begin_profile_removal-IsSound}
use codex_folio.Profiles.Steps.{Step-idle}
use codex_folio.Profiles.Leaving.{
  completed-IsSound, cancelled-IsSound, restored-IsSound, purged-IsSound, chosen-IsSound,
}

-- The rows that PrepareLaunch reads: the profiles that have an alias.
unfoldable pub launch_rows : Tables → List Identity → List codex_folio.Launch.Records.Profile
launch_rows t [] = []
launch_rows t (p ∷ ps) =
    let rest = launch_rows t ps in
    elim p.alias [
      | none ↦ rest
      | some alias ↦
          record {
            profile_id = p.profile_id;
            alias = alias;
            is_ready = p.is_ready;
            quarantined = is_some (t.quarantine p.profile_id);
            home_id = p.home_id;
            ownership = p.ownership;
            has_ciphertext = p.has_ciphertext;
            home = p.home;
          }
          ∷ rest
    ]

unfoldable pub launch_tables : Tables → codex_folio.Launch.Records.Tables
unfolding launch_rows
launch_tables t = record {
  profiles = launch_rows t t.profiles;
  launches = t.launches;
  checkpoints = t.checkpoints;
}

-- An operation that ends without an error; one that fails leaves the tables as they are. `E` is what
-- is known of the environments in which removals begin.
pub data Step (E : Environment → Type 0) : Tables → Tables → Type 0 where
  begins :
      (env : Environment) (alias replacement : String) (r : RemovalRecord) (t t' : Tables)
      → E env
      → begin_profile_removal env alias replacement t ≡ done (r, t')
      → Step E t t'
  completes :
      (env : Environment) (id : String) (t t' : Tables)
      → complete_profile_quarantine env id t ≡ done t'
      → Step E t t'
  cancels :
      (env : Environment) (id : String) (t t' : Tables)
      → cancel_profile_removal env id t ≡ done t'
      → Step E t t'
  restores :
      (env : Environment) (id : String) (t t' : Tables)
      → restore_profile env id t ≡ done t'
      → Step E t t'
  purges :
      (env : Environment) (id : String) (t t' : Tables)
      → purge_profile env id t ≡ done t'
      → Step E t t'
  selects :
      (env : Environment) (alias : String) (warns : Bool) (t t' : Tables)
      → commit_selection env alias t ≡ done (warns, t')
      → Step E t t'
  launches :
      (t : Tables) (l : codex_folio.Launch.Records.Tables)
      → codex_folio.Launch.Traces.Step (launch_tables t) l
      → Step E t (record t { launches = l.launches; checkpoints = l.checkpoints })

-- Before a removal no profile is in quarantine.
pub record IsInitial (t : Tables) : Type 0 where
  pub ids : distinct t.profiles ≡ true
  pub none_aside : (id : String) → is_some (t.quarantine id) ≡ false

pub data Reachable (E : Environment → Type 0) : Tables → Type 0 where
  initial : (t : Tables) → IsInitial t → Reachable E t
  next : (t t' : Tables) → Reachable E t → Step E t t' → Reachable E t'

launch_rows-aside :
    (t : Tables) (id : String) (ps : List Identity) (l : codex_folio.Launch.Records.Profile)
    → In l (launch_rows t ps)
    → (l.profile_id == id) ≡ true
    → is_some (t.quarantine id) ≡ true
    → l.quarantined ≡ true
unfolding launch_rows
launch_rows-aside t id [] l m same h = absurd m
launch_rows-aside t id (p ∷ ps) l m same h = elim (Option-cases p.alias) [
  | inl none_there ↦ launch_rows-aside t id ps l (rw none_there at m) same h
  | inr (alias, there) ↦ elim (rw there at m) [
    | inl here ↦
        let e : p.profile_id ≡ id =
          ap (λ r. r.profile_id) here ∙ (string_eq.is_same_iff l.profile_id id).0 same in
        ap (λ r. r.quarantined) (sym here) ∙ ap (λ k. is_some (t.quarantine k)) e ∙ h
    | inr later ↦ launch_rows-aside t id ps l later same h
  ]
]

launched-IsSound :
    (t : Tables) (l : codex_folio.Launch.Records.Tables)
    → IsSound t
    → codex_folio.Launch.Traces.Step (launch_tables t) l
    → IsSound (record t { launches = l.launches; checkpoints = l.checkpoints })
unfolding launch_tables
launched-IsSound t l s step = record {
  ids = s.ids;
  idle = λ id h.
      Step-idle id (launch_tables t) l step
        (λ p m same. launch_rows-aside t id t.profiles p m same h) (s.idle id h);
  unselected = s.unselected;
}

Step-IsSound : (t t' : Tables) → Step IsFolding t t' → IsSound t → IsSound t'
Step-IsSound _ _ (begins env alias replacement r t t' f h) s =
    begin_profile_removal-IsSound env alias replacement t (r, t') f s h
Step-IsSound _ _ (completes env id t t' h) s = completed-IsSound env id t t' s h
Step-IsSound _ _ (cancels env id t t' h) s = cancelled-IsSound env id t t' s h
Step-IsSound _ _ (restores env id t t' h) s = restored-IsSound env id t t' s h
Step-IsSound _ _ (purges env id t t' h) s = purged-IsSound env id t t' s h
Step-IsSound _ _ (selects env alias warns t t' h) s = chosen-IsSound env alias warns t t' s h
Step-IsSound _ _ (launches t l step) s = launched-IsSound t l s step

reached : (t : Tables) → Reachable IsFolding t → IsSound t
reached _ (initial t i) = record {
  ids = i.ids;
  idle = λ id h. let no = i.none_aside id in ground (arith, h, no);
  unselected = λ id h. let no = i.none_aside id in ground (arith, h, no);
}
reached _ (next t t' r step) = Step-IsSound t t' step (reached t r)

-- In every reachable state a profile in quarantine has no pending or running launch and is not the
-- selected profile. The steps are the removals, the selections and all operations on launches, in any
-- order; a removal is one step, and its environment folds aliases.
pub quarantine_isolated :
    (t : Tables) (id : String)
    → Reachable IsFolding t
    → is_some (t.quarantine id) ≡ true
    → (has_live id t.launches ≡ false) × (is_text id t.selected ≡ false)
quarantine_isolated t id r h = ((reached t r).idle id h, (reached t r).unselected id h)
