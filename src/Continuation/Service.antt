-- ===== src/Continuation/Service.antt =====
-- internal/continuation/checkpoint.go: the operations of the service.
use codex_folio.Base.{
  done, ◌>>=◌, require, Bool, true, false, ◌&&◌, not, String, List, map, Option, some, ◌==◌, ◌!=◌,
  string_eq,
}
use codex_folio.Launch.Records.{
  Status, draft, approved, launching, completed, expired, is_launching,
}
use codex_folio.Continuation.Records.{
  Environment, Outcome, Tables, Checkpoint, CheckpointFields, RepositoryState, Evidence,
  checkpoint_invalid, checkpoint_revision_changed, handoff_not_ready, repository_first,
  transcript_assisted,
}
use codex_folio.Continuation.Retention.{
  Settings, checkpoint_retention, policy_setting, retention_expiry,
}
use codex_folio.Continuation.Text.{
  invalid_text, invalid_redactions, sanitize_text, sanitize_paths, normalized_redactions,
  sanitize_fields,
}
use codex_folio.Continuation.Store.{save_checkpoint, purge_checkpoint}
use codex_folio.Continuation.Review.{
  Stateful, then_with, with_result, saved, show, record_of, prepare_checkpoint, finalize_checkpoint,
  check_size, usable_text, has_passed,
}

pub record EditRequest : Type 0 where
  pub fields : CheckpointFields
  pub redact_paths : List String
  pub redact_text : List String

abbrev with_value : {A : Type 0} → Evidence A → A → Evidence A
with_value e a = record e { value = a }

-- applyEdit
unfoldable pub edit_repository :
    Environment → EditRequest → RepositoryState → Outcome RepositoryState
edit_repository env request r = do
  let clean = sanitize_text env env.home request.redact_text
  let paths = sanitize_paths env (normalized_redactions env request.redact_paths)
  staged ← paths r.staged.value
  modified ← paths r.modified.value
  untracked ← paths r.untracked.value
  done (record r {
    branch = with_value r.branch (clean r.branch.value);
    staged = with_value r.staged staged;
    modified = with_value r.modified modified;
    untracked = with_value r.untracked untracked;
    configured_commands = with_value r.configured_commands (map clean r.configured_commands.value);
  })

unfoldable pub apply_edit : Environment → EditRequest → Checkpoint → Outcome Checkpoint
unfolding edit_repository
apply_edit env request c = do
  let clean = sanitize_text env env.home request.redact_text
  fields ← sanitize_fields env env.home request.redact_text request.fields
  repository ← edit_repository env request c.repository
  done (record c {
    fields = fields;
    project = record c.project {
      alias = clean c.project.alias;
      basename = clean c.project.basename;
    };
    repository = repository;
  })

abbrev pub is_final : Status → Bool
is_final launching = true
is_final completed = true
is_final expired = true
is_final _ = false

abbrev pub is_draft : Status → Bool
is_draft draft = true
is_draft _ = false

-- Edit, after show: a draft again, with a new revision.
unfoldable pub edited : Environment → EditRequest → Checkpoint → Outcome (Checkpoint × String)
unfolding apply_edit
edited env request c = do
  _ ← require (not (is_final c.status)) handoff_not_ready
  changed ← apply_edit env request c
  prepared ← prepare_checkpoint env (record changed { status = draft })
  _ ← check_size prepared.0
  done prepared

-- The save of an operation that has prepared a checkpoint, over the status and the revision.
abbrev pub save_over :
    Environment → Status → String → Checkpoint × String → Tables → Stateful Checkpoint
save_over env status revision (c, metadata) t =
    saved c (save_checkpoint env (record_of env c metadata (some status) revision) t) t

-- Service.Edit
unfoldable pub edit : Environment → String → EditRequest → Tables → Stateful Checkpoint
unfolding show edited
edit env id request t =
    with_result
      (require (not (invalid_redactions env request.redact_paths request.redact_text))
        checkpoint_invalid)
      t
      (λ _. then_with (show env id t) (λ c t1.
        with_result (edited env request c) t1
          (λ prepared. save_over env c.status c.revision prepared t1)))

-- Approve, after show.
unfoldable pub approval : Environment → String → Checkpoint → Outcome (Checkpoint × String)
approval env revision c = do
  _ ← require (not (is_final c.status)) handoff_not_ready
  _ ← require (c.revision == revision) checkpoint_revision_changed
  final ← finalize_checkpoint env (record c { status = approved })
  _ ← check_size final.0
  done final

-- Service.Approve
unfoldable pub approve : Environment → String → String → Tables → Stateful Checkpoint
unfolding show approval
approve env id revision t =
    with_result (require (revision != "" && not (invalid_text env revision)) checkpoint_invalid) t
      (λ _. then_with (show env id t) (λ c t1.
        with_result (approval env revision c) t1
          (λ final. save_over env c.status c.revision final t1)))

-- previewAssisted, after show.
unfoldable pub preview :
    Environment → Option Settings → String → EditRequest → Checkpoint → Outcome Checkpoint
unfolding apply_edit
preview env settings revision request c = do
  _ ←
      require (is_draft c.status && c.source == repository_first && c.revision == revision)
        checkpoint_revision_changed
  changed ← apply_edit env request c
  policy ← checkpoint_retention env settings
  retention ← policy_setting env policy transcript_assisted
  expiry ← retention_expiry env changed.created_at retention
  _ ← require (not (has_passed env.now expiry)) handoff_not_ready
  prepared ←
      prepare_checkpoint env (record changed {
        source = transcript_assisted;
        retention = retention;
        expires_at = expiry;
      })
  _ ← check_size prepared.0
  done prepared.0

-- Service.PreviewAssisted
unfoldable pub preview_assisted :
    Environment → Option Settings → String → String → EditRequest → Tables → Stateful Checkpoint
unfolding show preview
preview_assisted env settings id revision request t =
    with_result
      (require
        (usable_text env revision
          && not (invalid_redactions env request.redact_paths request.redact_text))
        checkpoint_invalid)
      t
      (λ _.
        then_with (show env id t)
          (λ c t1. with_result (preview env settings revision request c) t1 (λ p. (done p, t1))))

unfoldable pub approve_preview : Environment → String → Checkpoint → Outcome (Checkpoint × String)
approve_preview env preview_revision c = do
  _ ← require (c.revision == preview_revision) checkpoint_revision_changed
  final ← finalize_checkpoint env (record c { status = approved })
  _ ← check_size final.0
  done final

-- Service.ApproveAssisted
unfoldable pub approve_assisted :
    Environment
    → Option Settings
    → String
    → String
    → String
    → EditRequest
    → Tables
    → Stateful Checkpoint
unfolding preview_assisted approve_preview
approve_assisted env settings id revision preview_revision request t =
    with_result (require (usable_text env preview_revision) checkpoint_invalid) t (λ _.
      then_with (preview_assisted env settings id revision request t) (λ c t1.
        with_result (approve_preview env preview_revision c) t1
          (λ final. save_over env draft revision final t1)))

-- Service.Purge
unfoldable pub purge : Environment → String → String → Tables → Stateful Bool
unfolding show
purge env id revision t =
    with_result (require (usable_text env id && usable_text env revision) checkpoint_invalid) t
      (λ _. then_with (show env id t) (λ c t1.
        with_result (require (c.revision == revision) checkpoint_revision_changed) t1 (λ _.
          with_result (require (not (is_launching c.status)) handoff_not_ready) t1
            (λ _. saved true (purge_checkpoint env id revision t1) t1))))
