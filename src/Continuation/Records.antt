-- ===== src/Continuation/Records.antt =====
-- The values of internal/continuation/checkpoint.go, and what its service calls.
use mathlib.Core.Int.{ℤ, pos}
use codex_folio.Base.{Attempt, ℕ, Bool, String, List, [], Option, none, Time}
use codex_folio.Launch.Records.{Status, Launch}

pub data Error : Type 0 where
  checkpoint_invalid checkpoint_not_found checkpoint_oversize checkpoint_revision_changed : Error
  handoff_not_ready repository_inspection : Error
  vault_failed read_failed write_failed : Error  -- the coded errors of the store

abbrev pub Outcome : Type 0 → Type 0
Outcome A = Attempt Error A

abbrev pub max_checkpoint_bytes : ℕ
max_checkpoint_bytes = 16_384

abbrev pub repository_first : String
repository_first = "repository-first"

abbrev pub transcript_assisted : String
transcript_assisted = "transcript-assisted"

abbrev pub redacted_value : String
redacted_value = "[REDACTED]"

-- What is known of a value: where it comes from, and how much of it is there.
pub record Evidence (A : Type 0) : Type 0 where
  pub value : A
  pub provenance : String
  pub completeness : String

pub record UpstreamDivergence : Type 0 where
  pub ahead : ℤ
  pub behind : ℤ

pub record DiffStatistics : Type 0 where
  pub files_changed : ℤ
  pub insertions : ℤ
  pub deletions : ℤ
  pub binary_files : ℤ

pub record RepositoryInventory : Type 0 where
  pub branch : String
  pub head : String
  pub upstream : Option UpstreamDivergence
  pub staged : List String
  pub modified : List String
  pub untracked : List String
  pub diff : DiffStatistics
  pub configured_commands : List String

pub record RepositoryState : Type 0 where
  pub branch : Evidence String
  pub head : Evidence String
  pub upstream : Evidence (Option UpstreamDivergence)
  pub staged : Evidence (List String)
  pub modified : Evidence (List String)
  pub untracked : Evidence (List String)
  pub diff : Evidence DiffStatistics
  pub configured_commands : Evidence (List String)

pub record ValidationEvidence : Type 0 where
  pub command : String
  pub timestamp : Option Time
  pub exit_status : Option ℤ
  pub source : String
  pub freshness : String

pub record CheckpointFields : Type 0 where
  pub goal : Evidence String
  pub completed_work : Evidence String
  pub pending_work : Evidence String
  pub validation : Evidence (List ValidationEvidence)
  pub risks : Evidence String
  pub next_action : Evidence String

-- Go's zero values, which an expired checkpoint keeps.
abbrev pub no_evidence : {A : Type 0} → A → Evidence A
no_evidence a = record { value = a; provenance = ""; completeness = "" }

abbrev pub no_fields : CheckpointFields
no_fields = record {
  goal = no_evidence "";
  completed_work = no_evidence "";
  pending_work = no_evidence "";
  validation = no_evidence [];
  risks = no_evidence "";
  next_action = no_evidence "";
}

abbrev pub no_repository : RepositoryState
no_repository = record {
  branch = no_evidence "";
  head = no_evidence "";
  upstream = no_evidence none;
  staged = no_evidence [];
  modified = no_evidence [];
  untracked = no_evidence [];
  diff = no_evidence (record {
    files_changed = pos 0;
    insertions = pos 0;
    deletions = pos 0;
    binary_files = pos 0;
  });
  configured_commands = no_evidence [];
}

pub record Project : Type 0 where
  pub id : String
  pub alias : String
  pub basename : String

pub record Checkpoint : Type 0 where
  pub id : String
  pub status : Status
  pub project : Project
  pub repository : RepositoryState
  pub fields : CheckpointFields
  pub source : String
  pub retention : String
  pub created_at : Time
  pub expires_at : Option Time
  pub size_bytes : ℕ
  pub revision : String

-- What the revision of a checkpoint is the digest of.
pub record Content : Type 0 where
  pub project : Project
  pub repository : RepositoryState
  pub fields : CheckpointFields
  pub source : String
  pub retention : String
  pub created_at : Time
  pub expires_at : Option Time

unfoldable pub content_of : Checkpoint → Content
content_of c = record {
  project = c.project;
  repository = c.repository;
  fields = c.fields;
  source = c.source;
  retention = c.retention;
  created_at = c.created_at;
  expires_at = c.expires_at;
}

pub record CheckpointRecord : Type 0 where
  pub id : String
  pub project_id : String
  pub status : Status
  pub metadata : String
  pub expected_status : Option Status
  pub expected_revision : String
  pub goal : Option String
  pub completed_work : Option String
  pub pending_work : Option String
  pub validation : Option String
  pub risks : Option String
  pub next_action : Option String
  pub created_at : Time
  pub expires_at : Option Time

-- A row of checkpoints, with the plain texts of its columns. The column of the metadata may be NULL,
-- and none inside is a ciphertext that does not decrypt.
pub record Row : Type 0 where
  pub project_id : Option String
  pub status : Status
  pub goal : Option String
  pub completed_work : Option String
  pub pending_work : Option String
  pub validation : Option String
  pub risks : Option String
  pub next_action : Option String
  pub metadata : Option (Option String)
  pub is_readable : Bool  -- the ciphertexts of the other columns decrypt
  pub has_times : Bool  -- the texts of its times parse
  pub created_at : Time
  pub expires_at : Option Time

pub record Tables : Type 0 where
  pub rows : String → Option Row  -- checkpoints, by primary key
  pub launches : List Launch  -- managed_launches, by rowid

pub data Statement : Type 0 where
  begin commit read_checkpoint read_launches read_settings : Statement
  put_row delete_row clear_launches : Statement

-- What the service calls outside: the database, the clock, the random numbers, and the libraries for
-- texts, paths, times and JSON.
pub record Environment : Type 0 where
  pub works : Statement → Bool
  pub has_vault : Bool  -- it is there, and encrypts
  pub now : Time
  pub new_id : Option String
  pub home : String
  pub trim_space : String → String
  pub characters : String → List ℕ
  pub is_control : ℕ → Bool
  pub bytes : String → List ℕ
  pub has_prefix : String → String → Bool  -- the text, the prefix
  pub replace_all : String → String → String → String  -- the text, the old part, the new one
  pub replace_fold : String → String → String → String  -- the same, in any case of letters
  pub clean_slashes : String → String  -- filepath.ToSlash of filepath.Clean
  pub is_abs : String → Bool
  pub atoi : String → Option ℕ  -- none for a negative number too
  pub itoa : ℕ → String
  pub add_days : Time → ℕ → Time
  pub year : Time → ℕ
  pub ended_before : Option Time → Option Time → Bool  -- the order of the stored texts
  pub sha256 : String → String  -- in hexadecimal digits
  pub marshal : Checkpoint → Option String
  pub marshal_content : Content → Option String
  pub marshal_expired : Checkpoint → Option String  -- without the fields and the repository
  pub marshal_validation : List ValidationEvidence → String
  pub unmarshal : String → Option Checkpoint
  pub unmarshal_revision : String → Option String
  pub unmarshal_claim : String → Option (Status × String)  -- the status and the revision
