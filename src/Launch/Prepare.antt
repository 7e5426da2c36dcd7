-- ===== src/Launch/Prepare.antt =====
-- internal/store/launches.go: PrepareLaunch, which records a pending launch and claims the
-- checkpoint that it continues. internal/profile/profile.go: ValidateAlias.
use codex_folio.Base.{
  done, ◌>>=◌, require, require_some, ℕ, Bool, true, false, ◌&&◌, ◌||◌, not, String, List, [], ◌∷◌,
  ◌++◌, Option, none, some, Time, if◌then◌else◌, ◌==◌, ◌!=◌, string_eq, is_zero, before, length,
  ltb, leb, eqb, is_some, is_none,
}
use codex_folio.Launch.Records.{
  pending, abandoned, State, Status, launching, Launch, Profile, Tables, alias_invalid,
  plan_invalid, profile_not_found, profile_unavailable, home_invalid, checkpoint_invalid,
  read_failed, write_failed, vault_failed, Outcome, begin, commit, read_profile, read_checkpoint,
  read_source, claim_checkpoint, insert_launch, Environment, nullable_string, is_exited,
  is_approved, find_launch, update_checkpoint_status, affects_checkpoint,
}

pub record PrepareRequest : Type 0 where
  pub alias : String
  pub executable : String
  pub working_directory : String
  pub arguments : List String
  pub project_id : String
  pub expected_session_id : String
  pub checkpoint_id : String
  pub checkpoint_revision : String
  pub source_profile_id : String
  pub boot_session_id : String

pub record Plan : Type 0 where
  pub lease_id : String
  pub executable : String
  pub working_directory : String
  pub arguments : List String
  pub codex_home : String

-- A letter or a digit, by its byte.
unfoldable pub is_alphanumeric : ℕ → Bool
is_alphanumeric c = (leb 97 c && leb c 122) || (leb 65 c && leb c 90) || (leb 48 c && leb c 57)

unfoldable pub valid_rest : List ℕ → Bool
valid_rest [] = true
valid_rest (c ∷ cs) = (is_alphanumeric c || eqb c 45 || eqb c 95 || eqb c 46) && valid_rest cs

unfoldable pub valid_bytes : List ℕ → Bool
valid_bytes [] = true
valid_bytes (c ∷ cs) = is_alphanumeric c && valid_rest cs

unfoldable pub validate_alias : Environment → String → Bool
validate_alias env alias =
    not (alias == "" || alias != env.trim_space alias || ltb 64 (length (env.bytes alias)))
    && valid_bytes (env.bytes alias)

-- A path that is given, and absolute.
unfoldable pub valid_path : Environment → String → Bool
valid_path env path = env.trim_space path != "" && env.is_abs path

-- The query for the profile of the alias.
unfoldable pub find_profile : Environment → String → List Profile → Option Profile
find_profile env alias [] = none
find_profile env alias (p ∷ ps) =
    if env.same_alias p.alias alias && not p.quarantined then some p else find_profile env alias ps

abbrev text_or_empty : Option String → String
text_or_empty none = ""
text_or_empty (some s) = s

unfoldable pub valid_home : Environment → Profile → Bool
valid_home env p =
    is_some p.home_id
    && env.trim_space (text_or_empty p.home_id) != ""
    && is_some p.ownership
    && (text_or_empty p.ownership == "managed" || text_or_empty p.ownership == "referenced")
    && p.has_ciphertext

unfoldable pub find_home : Environment → PrepareRequest → Profile → Outcome String
unfolding valid_home
find_home env request p = do
  _ ← require (valid_home env p) home_invalid
  _ ← require env.has_vault vault_failed
  home ← require_some p.home vault_failed
  _ ← require (env.is_abs (env.clean home)) home_invalid
  _ ← require (request.checkpoint_id == "" || env.is_dir (env.clean home)) home_invalid
  done (env.clean home)

abbrev pub in_project : String → Option String → Bool
in_project project none = false
in_project project (some p) = p == project

abbrev pub is_abandoned : State → Bool
is_abandoned abandoned = true
is_abandoned _ = false

-- definitiveSourceLaunchSQL: the launches of the project that ran, and the newest of them.
unfoldable pub has_run : String → Launch → Bool
has_run project l =
    in_project project l.project_id && not (is_abandoned l.state && is_none l.process_id)

unfoldable pub all_exited : String → List Launch → Bool
unfolding has_run
all_exited project [] = true
all_exited project (l ∷ ls) =
    (not (has_run project l) || is_exited l.state) && all_exited project ls

-- A later row is taken where it did not end before the one found so far.
unfoldable pub newest : Environment → String → List Launch → Option Launch → Option Launch
unfolding has_run
newest env project [] found = found
newest env project (l ∷ ls) none =
    newest env project ls (if has_run project l then some l else none)
newest env project (l ∷ ls) (some m) =
    newest env project ls
      (if has_run project l && not (env.ended_before l.ended_at m.ended_at) then some l else some m)

unfoldable pub definitive_source_launch : Environment → String → List Launch → Option Launch
definitive_source_launch env project ls =
    if all_exited project ls then newest env project ls none else none

-- The expiry of the checkpoint lies ahead, or there is none.
unfoldable pub unexpired : Time → Option (Option Time) → Bool
unexpired now none = true
unexpired now (some none) = false
unexpired now (some (some expiry)) = before now expiry

abbrev pub approves : String → Option (Status × String) → Bool
approves revision none = false
approves revision (some (status, text)) = is_approved status && text == revision

-- The checks on the checkpoint that is to be continued, and its claim.
unfoldable pub claim : Environment → PrepareRequest → Profile → Tables → Outcome Tables
unfolding definitive_source_launch unexpired
claim env request p t = do
  _ ← require (env.trim_space request.boot_session_id != "") plan_invalid
  _ ← require (env.works read_checkpoint) checkpoint_invalid
  c ← require_some (t.checkpoints request.checkpoint_id) checkpoint_invalid
  _ ← require (is_approved c.status && c.project_id == request.project_id) checkpoint_invalid
  _ ← require (unexpired env.now c.expires_at) checkpoint_invalid
  metadata ← require_some c.metadata vault_failed
  _ ← require (approves request.checkpoint_revision metadata) checkpoint_invalid
  _ ← require (env.works read_source) checkpoint_invalid
  source ←
      require_some (definitive_source_launch env request.project_id t.launches) checkpoint_invalid
  _ ←
      require
        (is_exited source.state
          && source.profile_id == request.source_profile_id
          && source.profile_id != p.profile_id)
        checkpoint_invalid
  _ ← require (env.works claim_checkpoint) write_failed
  _ ←
      require (affects_checkpoint request.checkpoint_id is_approved t.checkpoints)
        checkpoint_invalid
  done (record t {
    checkpoints =
        update_checkpoint_status request.checkpoint_id is_approved launching t.checkpoints;
  })

unfoldable pub claim_if_named : Environment → PrepareRequest → Profile → Tables → Outcome Tables
unfolding claim
claim_if_named env request p t =
    if request.checkpoint_id != "" then claim env request p t else done t

unfoldable pub new_row : Environment → PrepareRequest → Profile → String → Launch
new_row env request p lease = record {
  profile_id = p.profile_id;
  lease_id = lease;
  project_id = nullable_string request.project_id;
  state = pending;
  started_at = env.now;
  ended_at = none;
  process_id = none;
  exit_status = none;
  expected_session_id = nullable_string request.expected_session_id;
  checkpoint_id = nullable_string request.checkpoint_id;
  revision = nullable_string request.checkpoint_revision;
  boot_session_id = nullable_string request.boot_session_id;
}

abbrev pub any_state : State → Bool
any_state s = true

-- The insert refuses a lease that is there: lease_id is UNIQUE.
unfoldable pub insert_row : Environment → Launch → Tables → Outcome Tables
insert_row env row t = do
  _ ← require (env.works insert_launch) write_failed
  _ ← require (is_none (find_launch row.lease_id any_state t.launches)) write_failed
  done (record t { launches = t.launches ++ row ∷ [] })

unfoldable pub record_launch :
    Environment → PrepareRequest → Profile → Tables → Outcome (String × Tables)
unfolding claim_if_named insert_row
record_launch env request p t = do
  _ ← require (not (is_zero env.now)) write_failed
  _ ← require_some env.new_launch write_failed
  lease ← require_some env.new_lease write_failed
  t1 ← claim_if_named env request p t
  t2 ← insert_row env (new_row env request p lease) t1
  _ ← require (env.works commit) write_failed
  done (lease, t2)

unfoldable pub prepare_launch : Environment → PrepareRequest → Tables → Outcome (Plan × Tables)
unfolding find_home record_launch
prepare_launch env request t = do
  _ ← require (validate_alias env request.alias) alias_invalid
  _ ←
      require (valid_path env request.executable && valid_path env request.working_directory)
        plan_invalid
  _ ← require (env.works begin) write_failed
  _ ← require (env.works read_profile) read_failed
  p ← require_some (find_profile env request.alias t.profiles) profile_not_found
  _ ← require p.is_ready profile_unavailable
  home ← find_home env request p
  recorded ← record_launch env request p t
  done (
    record {
      lease_id = recorded.0;
      executable = env.clean request.executable;
      working_directory = env.clean request.working_directory;
      arguments = request.arguments;
      codex_home = home;
    },
    recorded.1,
  )
