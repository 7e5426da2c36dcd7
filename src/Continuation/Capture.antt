-- ===== src/Continuation/Capture.antt =====
-- internal/continuation/checkpoint.go: the capture of a checkpoint from a repository, and what is
-- handed to a launch that continues from one. The projects and the inspector are called outside.
use codex_folio.Base.{
  done, ◌>>=◌, require, require_some, Bool, true, false, ◌&&◌, ◌||◌, not, String, List, [], ◌∷◌,
  map, ◌++◌, Option, none, some, Time, if◌then◌else◌, ◌==◌, ◌!=◌, string_eq, is_none, eqb,
}
use codex_folio.Launch.Records.{draft, is_approved}
use codex_folio.Continuation.Records.{
  Environment, Outcome, Row, Tables, Checkpoint, RepositoryState, RepositoryInventory, Evidence,
  ValidationEvidence, Project, checkpoint_invalid, handoff_not_ready, repository_inspection,
  repository_first,
}
use codex_folio.Continuation.Retention.{
  Settings, checkpoint_retention, policy_setting, retention_expiry,
}
use codex_folio.Continuation.Text.{
  any, invalid_text, invalid_redactions, invalid_validation, sanitize_text, sanitize_paths,
  normalized_redactions, user_field, user_values, validation_list,
}
use codex_folio.Continuation.Store.{
  SourceState, source_exited, save_checkpoint, load_checkpoint, text_or_empty, latest_source_launch,
}
use codex_folio.Continuation.Review.{
  Stateful, with_result, saved, record_of, prepare_checkpoint, check_size, usable_text, has_passed,
}

pub record CaptureRequest : Type 0 where
  pub path : String
  pub alias : String
  pub goal : String
  pub completed_work : String
  pub pending_work : String
  pub risks : String
  pub next_action : String
  pub validation : Option ValidationEvidence
  pub configured_commands : List String
  pub redact_paths : List String
  pub redact_text : List String

-- The interfaces Projects and Inspector.
pub record Workspace : Type 0 where
  pub resolve : String → String → Outcome Project
  pub canonical_location : String → Outcome String
  pub inspect : String → Option RepositoryInventory

abbrev observed : {A : Type 0} → A → Bool → Evidence A
observed a complete = record {
  value = a;
  provenance = "local-observed";
  completeness = if complete then "complete" else "unknown";
}

unfoldable pub repository_state : RepositoryInventory → RepositoryState
repository_state i = record {
  branch = observed i.branch (i.branch != "");
  head = observed i.head (i.head != "");
  upstream = observed i.upstream (not (is_none i.upstream));
  staged = observed i.staged true;
  modified = observed i.modified true;
  untracked = observed i.untracked true;
  diff = observed i.diff true;
  configured_commands = user_values i.configured_commands;
}

abbrev listed : {A : Type 0} → Option A → List A
listed none = []
listed (some a) = a ∷ []

unfoldable pub invalid_capture : Environment → CaptureRequest → Bool
invalid_capture env r =
    env.trim_space r.path == ""
    || any (invalid_text env) (
        r.alias ∷ r.goal ∷ r.completed_work ∷ r.pending_work ∷ r.risks ∷ r.next_action
        ∷ r.configured_commands)
    || invalid_redactions env r.redact_paths r.redact_text
    || any (invalid_validation env) (listed r.validation)

-- The inventory without what the request redacts, with the commands that it names.
unfoldable pub clean_inventory :
    Environment → CaptureRequest → RepositoryInventory → Outcome RepositoryInventory
clean_inventory env r i = do
  let clean = sanitize_text env env.home r.redact_text
  let paths = sanitize_paths env (normalized_redactions env r.redact_paths)
  staged ← paths i.staged
  modified ← paths i.modified
  untracked ← paths i.untracked
  done (record i {
    branch = clean i.branch;
    staged = staged;
    modified = modified;
    untracked = untracked;
    configured_commands = i.configured_commands ++ map clean r.configured_commands;
  })

unfoldable pub new_checkpoint :
    Environment
    → CaptureRequest
    → Project
    → RepositoryInventory
    → String
    → Option Time
    → String
    → Checkpoint
new_checkpoint env r project inventory setting expiry id =
    let field : String → Evidence String =
      λ s. user_field env (sanitize_text env env.home r.redact_text s) in
    record {
      id = id;
      status = draft;
      project = project;
      repository = repository_state inventory;
      fields = record {
        goal = field r.goal;
        completed_work = field r.completed_work;
        pending_work = field r.pending_work;
        validation = validation_list env env.home r.redact_text (listed r.validation);
        risks = field r.risks;
        next_action = field r.next_action;
      };
      source = repository_first;
      retention = setting;
      created_at = env.now;
      expires_at = expiry;
      size_bytes = 0;
      revision = "";
    }

-- Capture, up to its save.
unfoldable pub captured :
    Environment → Workspace → Option Settings → CaptureRequest → Outcome (Checkpoint × String)
unfolding invalid_capture clean_inventory new_checkpoint
captured env workspace settings r = do
  _ ← require (not (invalid_capture env r)) checkpoint_invalid
  resolved ← workspace.resolve r.path r.alias
  let clean = sanitize_text env env.home r.redact_text
  path ← workspace.canonical_location resolved.id
  inspected ← require_some (workspace.inspect path) repository_inspection
  inventory ← clean_inventory env r inspected
  policy ← checkpoint_retention env settings
  setting ← policy_setting env policy repository_first
  expiry ← retention_expiry env env.now setting
  id ← require_some env.new_id checkpoint_invalid
  prepared ← prepare_checkpoint env (
      new_checkpoint env r
        (record resolved { alias = clean resolved.alias; basename = clean resolved.basename })
        inventory setting expiry id)
  _ ← check_size prepared.0
  done prepared

-- Service.Capture: the save expects nothing of the table.
unfoldable pub capture :
    Environment → Workspace → Option Settings → CaptureRequest → Tables → Stateful Checkpoint
unfolding captured
capture env workspace settings r t = with_result (captured env workspace settings r) t (λ prepared.
    saved prepared.0 (save_checkpoint env (record_of env prepared.0 prepared.1 none "") t) t)

-- Service.CaptureProject
unfoldable pub capture_project :
    Environment
    → Workspace
    → Option Settings
    → String
    → CaptureRequest
    → Tables
    → Stateful Checkpoint
unfolding capture
capture_project env workspace settings project r t =
    with_result
      (require
        (usable_text env project && env.trim_space r.path == "" && env.trim_space r.alias == "")
        checkpoint_invalid)
      t
      (λ _.
        with_result (workspace.canonical_location project) t
          (λ path. capture env workspace settings (record r { path = path }) t))

pub record PreparedHandoff : Type 0 where
  pub checkpoint_id : String
  pub revision : String
  pub project_id : String
  pub source_profile_id : String
  pub working_directory : String
  pub context : String

abbrev pub same_expiry : Option Time → Option Time → Bool
same_expiry none none = true
same_expiry (some a) (some b) = eqb a b
same_expiry _ _ = false

abbrev pub is_exited_source : SourceState → Bool
is_exited_source source_exited = true
is_exited_source _ = false

-- The row and its metadata name one approved checkpoint of the revision that has not expired.
unfoldable pub is_ready : Environment → String → Row → Checkpoint → Bool
is_ready env revision row c =
    is_approved row.status
    && is_approved c.status
    && c.revision == revision
    && text_or_empty row.project_id != ""
    && c.project.id == text_or_empty row.project_id
    && not (has_passed env.now row.expires_at)
    && same_expiry c.expires_at row.expires_at

-- Service.PrepareHandoff
unfoldable pub prepare_handoff :
    Environment → Workspace → String → String → String → Tables → Outcome PreparedHandoff
unfolding is_ready
prepare_handoff env workspace id revision target t = do
  _ ←
      require (usable_text env id && usable_text env revision && usable_text env target)
        checkpoint_invalid
  loaded ← load_checkpoint env id t
  c ← require_some (env.unmarshal loaded.0) checkpoint_invalid
  _ ← require (is_ready env revision loaded.1 c) handoff_not_ready
  let project = text_or_empty loaded.1.project_id
  source ← latest_source_launch env project t
  _ ←
      require
        (is_exited_source source.state && source.profile_id != "" && source.profile_id != target)
        handoff_not_ready
  directory ← workspace.canonical_location project
  _ ← require_some (workspace.inspect directory) repository_inspection
  done (record {
    checkpoint_id = id;
    revision = revision;
    project_id = project;
    source_profile_id = source.profile_id;
    working_directory = directory;
    context = loaded.0;
  })
