-- ===== src/Launch/Records.antt =====
-- The rows that internal/store/launches.go reads and writes, and what it calls.
-- Each statement on the database may fail, and a transaction that fails leaves the tables alone.
use codex_folio.Base.{
  Attempt, ℕ, ◌+◌, Bool, true, false, ◌&&◌, ◌||◌, String, List, [], ◌∷◌, Option, none, some, Time,
  if◌then◌else◌, ◌==◌, string_eq,
}

pub data State : Type 0 where
  pending running exited abandoned : State

pub data Status : Type 0 where
  draft approved launching completed expired : Status

-- A row of managed_launches.
pub record Launch : Type 0 where
  pub profile_id : String
  pub lease_id : String
  pub project_id : Option String
  pub state : State
  pub started_at : Time
  pub ended_at : Option Time
  pub process_id : Option ℕ
  pub exit_status : Option ℕ
  pub expected_session_id : Option String
  pub checkpoint_id : Option String
  pub revision : Option String
  pub boot_session_id : Option String

-- A row of checkpoints. `metadata` is what its recovery metadata decrypts and decodes to, a status
-- and a revision, and is none where that fails.
pub record Checkpoint : Type 0 where
  pub status : Status
  pub project_id : String
  pub expires_at : Option (Option Time)  -- none inside: a text that is no time
  pub metadata : Option (Option (Status × String))  -- none: the vault fails; none inside: no JSON

-- A row of the query for the profile. `home` is what the ciphertext decrypts to.
pub record Profile : Type 0 where
  pub profile_id : String
  pub alias : String
  pub is_ready : Bool
  pub quarantined : Bool
  pub home_id : Option String
  pub ownership : Option String
  pub has_ciphertext : Bool
  pub home : Option String

pub record Tables : Type 0 where
  pub profiles : List Profile
  pub launches : List Launch  -- by rowid
  pub checkpoints : String → Option Checkpoint  -- by primary key

pub data Error : Type 0 where
  alias_invalid plan_invalid profile_not_found profile_unavailable : Error
  home_invalid checkpoint_invalid lease_invalid process_status_invalid : Error
  read_failed write_failed vault_failed : Error

abbrev pub Outcome : Type 0 → Type 0
Outcome A = Attempt Error A

pub data Statement : Type 0 where
  begin commit read_profile read_checkpoint read_source claim_checkpoint : Statement
  insert_launch read_launch update_launch update_checkpoint read_launches : Statement

-- What is called outside: the database (`works` says which statements do), the clock, the random
-- identifiers, the file system and the libraries for texts and paths.
pub record Environment : Type 0 where
  pub works : Statement → Bool
  pub now : Time
  pub new_lease : Option String
  pub new_launch : Option String
  pub has_vault : Bool
  pub is_dir : String → Bool
  pub is_abs : String → Bool
  pub clean : String → String
  pub trim_space : String → String
  pub bytes : String → List ℕ
  pub same_alias : String → String → Bool  -- COLLATE NOCASE
  pub ended_before : Option Time → Option Time → Bool  -- the order of the stored texts

-- nullableString
unfoldable pub nullable_string : String → Option String
nullable_string s = if s == "" then none else some s

abbrev pub is_pending : State → Bool
is_pending pending = true
is_pending _ = false

abbrev pub is_running : State → Bool
is_running running = true
is_running _ = false

abbrev pub is_exited : State → Bool
is_exited exited = true
is_exited _ = false

abbrev pub is_live : State → Bool
is_live s = is_pending s || is_running s

abbrev pub is_approved : Status → Bool
is_approved approved = true
is_approved _ = false

abbrev pub is_launching : Status → Bool
is_launching launching = true
is_launching _ = false

-- SELECT ... WHERE lease_id = ? AND state ...
unfoldable pub find_launch : String → (State → Bool) → List Launch → Option Launch
find_launch lease test [] = none
find_launch lease test (l ∷ ls) =
    if l.lease_id == lease && test l.state then some l else find_launch lease test ls

-- UPDATE managed_launches SET ... WHERE lease_id = ? AND state ...
unfoldable pub update_launches :
    String → (State → Bool) → (Launch → Launch) → List Launch → List Launch
update_launches lease test change [] = []
update_launches lease test change (l ∷ ls) =
    (if l.lease_id == lease && test l.state then change l else l)
    ∷ update_launches lease test change ls

-- The rows that the update affects.
unfoldable pub affected_launches : String → (State → Bool) → List Launch → ℕ
affected_launches lease test [] = 0
affected_launches lease test (l ∷ ls) =
    (if l.lease_id == lease && test l.state then 1 else 0) + affected_launches lease test ls

-- UPDATE checkpoints SET status = ? WHERE checkpoint_id = ? AND status = ?
abbrev pub move_status : (Status → Bool) → Status → Checkpoint → Checkpoint
move_status test to c = if test c.status then record c { status = to } else c

abbrev pub map_checkpoint : (Checkpoint → Checkpoint) → Option Checkpoint → Option Checkpoint
map_checkpoint f none = none
map_checkpoint f (some c) = some (f c)

unfoldable pub update_checkpoint_status :
    String → (Status → Bool) → Status → (String → Option Checkpoint) → String → Option Checkpoint
update_checkpoint_status id test to table key =
    if key == id then map_checkpoint (move_status test to) (table key) else table key

abbrev pub has_status : (Status → Bool) → Option Checkpoint → Bool
has_status test none = false
has_status test (some c) = test c.status

-- Does the update affect the one row?
unfoldable pub affects_checkpoint : String → (Status → Bool) → (String → Option Checkpoint) → Bool
affects_checkpoint id test table = has_status test (table id)
