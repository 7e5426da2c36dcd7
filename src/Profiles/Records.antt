-- ===== src/Profiles/Records.antt =====
-- The rows that internal/store/profile_lifecycle.go and internal/store/profiles.go read and write,
-- and the reading of a profile. A stored time is its instant, which always parses.
use codex_folio.Base.{
  Attempt, done, ◌>>=◌, require, require_some, ◌*◌, Bool, false, ◌&&◌, String, List, [], ◌∷◌,
  Option, none, some, Time, Duration, hour, if◌then◌else◌, ◌==◌, string_eq, is_some, is_none,
}
use codex_folio.Launch.Records.{Launch, Checkpoint}
use codex_folio.Launch.Prepare.{validate_alias}

pub data QuarantineState : Type 0 where
  prepared quarantined : QuarantineState

-- A row of profile_quarantine.
pub record Quarantine : Type 0 where
  pub state : QuarantineState
  pub was_selected : Bool
  pub quarantined_at : Time
  pub purge_after : Time

-- A row of identity_profiles with its alias and its home, where it has them. `home` is what the
-- ciphertext of the home decrypts to.
pub record Identity : Type 0 where
  pub profile_id : String
  pub alias : Option String
  pub is_ready : Bool
  pub home_id : Option String
  pub ownership : Option String
  pub has_ciphertext : Bool
  pub home : Option String

pub record Tables : Type 0 where
  pub profiles : List Identity
  pub quarantine : String → Option Quarantine  -- by primary key
  pub selected : Option String  -- the row of selected_profile
  pub launches : List Launch
  pub checkpoints : String → Option Checkpoint

pub data Error : Type 0 where
  alias_invalid profile_not_found removal_blocked replacement_required : Error
  not_selectable home_invalid quarantine_invalid quarantine_expired home_failed : Error
  read_failed write_failed vault_failed : Error

abbrev pub Outcome : Type 0 → Type 0
Outcome A = Attempt Error A

pub data Statement : Type 0 where
  begin commit read_quarantine read_alias read_identity read_home read_launches : Statement
  read_selected read_replacement update_selected insert_quarantine delete_quarantine : Statement
  delete_rows update_quarantine : Statement

-- What is called outside. `texts` holds the clock, the libraries for texts and paths and whether
-- there is a vault.
pub record Environment : Type 0 where
  pub works : Statement → Bool
  pub texts : codex_folio.Launch.Records.Environment
  pub equal_fold : String → String → Bool

pub data RemovalAction : Type 0 where
  no_action deregistered to_quarantine restored purged : RemovalAction

-- IdentityProfile, as far as the lifecycle reads it.
pub record Item : Type 0 where
  pub profile_id : String
  pub ownership : String
  pub home_path : String

pub record RemovalRecord : Type 0 where
  pub item : Item
  pub action : RemovalAction
  pub state : Option QuarantineState
  pub quarantined_at : Time
  pub purge_after : Time

abbrev pub quarantine_period : Duration
quarantine_period = 7 * 24 * hour

unfoldable pub find_identity : (Identity → Bool) → List Identity → Option Identity
find_identity test [] = none
find_identity test (p ∷ ps) = if test p then some p else find_identity test ps

abbrev pub has_alias : Environment → String → Option String → Bool
has_alias env alias none = false
has_alias env alias (some a) = env.texts.same_alias a alias

-- The profile of an alias that is not in quarantine, and the one that is.
unfoldable pub is_active : Environment → String → Tables → Identity → Bool
is_active env alias t p = has_alias env alias p.alias && is_none (t.quarantine p.profile_id)

unfoldable pub is_set_aside : Environment → String → Tables → Identity → Bool
is_set_aside env alias t p = has_alias env alias p.alias && is_some (t.quarantine p.profile_id)

abbrev pub or_empty : Option String → String
or_empty none = ""
or_empty (some s) = s

-- populateIdentityHomePath
unfoldable pub populate_identity_home_path : Environment → Identity → Outcome String
populate_identity_home_path env p =
    if or_empty p.home_id == ""
    then done ""
    else (require env.texts.has_vault vault_failed >>= λ _.
        require (env.works read_home) read_failed >>= λ _.
        require p.has_ciphertext home_invalid >>= λ _. require_some p.home vault_failed >>= λ home.
        require (env.texts.is_abs (env.texts.clean home)) home_invalid >>= λ _.
        done (env.texts.clean home))

-- getIdentityProfile, with its home's path. A profile without an alias cannot be read.
unfoldable pub get_identity_profile : Environment → String → Tables → Outcome Item
unfolding find_identity populate_identity_home_path
get_identity_profile env id t = do
  _ ← require (env.works read_identity) read_failed
  p ← require_some (find_identity (λ p. p.profile_id == id) t.profiles) profile_not_found
  _ ← require (is_some p.alias) read_failed
  path ← populate_identity_home_path env p
  done (record { profile_id = id; ownership = or_empty p.ownership; home_path = path })

unfoldable pub get_profile : Environment → String → Tables → Outcome Item
unfolding is_active get_identity_profile
get_profile env alias t = do
  _ ← require (validate_alias env.texts alias) alias_invalid
  _ ← require (env.works read_alias) read_failed
  p ← require_some (find_identity (is_active env alias t) t.profiles) profile_not_found
  get_identity_profile env p.profile_id t

unfoldable pub get_quarantined_profile : Environment → String → Tables → Outcome RemovalRecord
unfolding is_set_aside get_identity_profile
get_quarantined_profile env alias t = do
  _ ← require (validate_alias env.texts alias) alias_invalid
  _ ← require (env.works read_quarantine) read_failed
  p ← require_some (find_identity (is_set_aside env alias t) t.profiles) profile_not_found
  q ← require_some (t.quarantine p.profile_id) profile_not_found
  item ← get_identity_profile env p.profile_id t
  done (record {
    item = item;
    action = to_quarantine;
    state = some q.state;
    quarantined_at = q.quarantined_at;
    purge_after = q.purge_after;
  })
