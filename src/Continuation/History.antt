-- ===== src/Continuation/History.antt =====
-- internal/continuation/checkpoint.go: the lists, the settings and the history that the service
-- offers; internal/continuation/export.go: Export, up to its encryption.
use codex_folio.Base.{
  Attempt, done, fails, ◌>>=◌, require, require_some, Bool, true, false, ◌&&◌, ◌||◌, String, List,
  [], ◌∷◌, map, Option, Time, if◌then◌else◌, ◌==◌, ◌!=◌, string_eq,
}
use codex_folio.Launch.Records.{Status, completed, is_approved}
use codex_folio.Continuation.Records.{
  Environment, Error, Outcome, Tables, Checkpoint, CheckpointFields, Evidence, ValidationEvidence,
  checkpoint_invalid, handoff_not_ready, repository_first, transcript_assisted,
}
use codex_folio.Continuation.Retention.{
  RetentionPolicy, Settings, checkpoint_retention, policy_setting, set_checkpoint_retention,
}
use codex_folio.Continuation.Text.{sanitize_text}
use codex_folio.Continuation.Store.{SourceLaunch, latest_source_launch}
use codex_folio.Continuation.Review.{Stateful, then_with, with_result, show, usable_text}
use codex_folio.Continuation.Service.{is_draft}
use codex_folio.Continuation.Capture.{is_exited_source}

-- Service.List, over the identifiers that ListCheckpoints loads: every one is shown.
unfoldable pub list_shown : Environment → List String → Tables → Stateful (List Checkpoint)
unfolding show
list_shown env [] t = (done [], t)
list_shown env (id ∷ ids) t =
    then_with (show env id t)
      (λ c t1. then_with (list_shown env ids t1) (λ cs t2. (done (c ∷ cs), t2)))

-- Service.Source
unfoldable pub source_of : Environment → String → Tables → Outcome SourceLaunch
source_of env project t = do
  _ ← require (usable_text env project) checkpoint_invalid
  latest_source_launch env project t

-- Service.Retention, without a setting: both settings with their defaults.
unfoldable pub shown_retention : Environment → Option Settings → Outcome RetentionPolicy
shown_retention env row = do
  policy ← checkpoint_retention env row
  first ← policy_setting env policy repository_first
  second ← policy_setting env policy transcript_assisted
  done (record { repository_first = first; transcript_assisted = second })

unfoldable pub retention :
    Environment → String → String → Option Settings → Outcome RetentionPolicy × Option Settings
unfolding shown_retention
retention env source setting row =
    if source == "" && setting == ""
    then (shown_retention env row, row)
    else if source == "" || setting == ""
    then (fails checkpoint_invalid, row)
    else set_checkpoint_retention env source setting row

-- Service.PrepareHistory, whose refusals are ErrHistoryUnavailable; filepath.Clean and what
-- SourceIdentityHome answers for a profile are parameters.
pub data HistoryError : Type 0 where
  history_unavailable : HistoryError
  of_checkpoint : Error → HistoryError

pub record HistorySource : Type 0 where
  pub source_profile_id : String
  pub identity_home : String

abbrev pub or_unavailable : {A : Type 0} → Outcome A → Attempt HistoryError A
or_unavailable (done a) = done a
or_unavailable (fails e) = fails history_unavailable

unfoldable pub history_of :
    Environment
    → (String → String)
    → (String → Option String)
    → String
    → Checkpoint
    → Tables
    → Attempt HistoryError HistorySource
history_of env clean home_of revision c t = do
  _ ←
      require (is_draft c.status && c.source == repository_first && c.revision == revision)
        history_unavailable
  source ← or_unavailable (latest_source_launch env c.project.id t)
  _ ← require (is_exited_source source.state && source.profile_id != "") history_unavailable
  home ← require_some (home_of source.profile_id) history_unavailable
  _ ← require (env.is_abs home) history_unavailable
  done (record { source_profile_id = source.profile_id; identity_home = clean home })

abbrev pub as_history :
    {A : Type 0}
    → Stateful A
    → (A → Tables → Attempt HistoryError HistorySource)
    → Attempt HistoryError HistorySource × Tables
as_history (done a, t) f = (f a t, t)
as_history (fails e, t) f = (fails (of_checkpoint e), t)

unfoldable pub prepare_history :
    Environment
    → (String → String)
    → (String → Option String)
    → String
    → String
    → Tables
    → Attempt HistoryError HistorySource × Tables
unfolding show history_of
prepare_history env clean home_of id revision t =
    as_history
      (with_result (require (usable_text env id && usable_text env revision) checkpoint_invalid) t
        (λ _. show env id t))
      (history_of env clean home_of revision)

-- MergeHistoryCandidates: a candidate that is not blank takes the place of the field.
abbrev pub merged : Environment → Evidence String → Evidence String → Evidence String
merged env base candidate = if env.trim_space candidate.value != "" then candidate else base

unfoldable pub merge_history_candidates :
    Environment → CheckpointFields → CheckpointFields → CheckpointFields
merge_history_candidates env base candidates = record base {
  goal = merged env base.goal candidates.goal;
  completed_work = merged env base.completed_work candidates.completed_work;
  pending_work = merged env base.pending_work candidates.pending_work;
  risks = merged env base.risks candidates.risks;
  next_action = merged env base.next_action candidates.next_action;
}

-- RedactHistoryIdentityHome
abbrev pub without_home : Environment → String → Evidence String → Evidence String
without_home env home e = record e { value = sanitize_text env home [] e.value }

abbrev pub validation_without_home : Environment → String → ValidationEvidence → ValidationEvidence
validation_without_home env home v = record v {
  command = sanitize_text env home [] v.command;
  source = sanitize_text env home [] v.source;
}

unfoldable pub redact_history_identity_home :
    Environment → String → CheckpointFields → CheckpointFields
redact_history_identity_home env home fields = record {
  goal = without_home env home fields.goal;
  completed_work = without_home env home fields.completed_work;
  pending_work = without_home env home fields.pending_work;
  validation = record fields.validation {
    value = map (validation_without_home env home) fields.validation.value;
  };
  risks = without_home env home fields.risks;
  next_action = without_home env home fields.next_action;
}

pub record CheckpointExport : Type 0 where
  pub format_version : String
  pub exported_at : Time
  pub checkpoint : Checkpoint

abbrev pub is_completed : Status → Bool
is_completed completed = true
is_completed _ = false

-- Service.Export
unfoldable pub export : Environment → String → Tables → Stateful CheckpointExport
unfolding show
export env id t = then_with (show env id t) (λ c t1.
    with_result (require (is_approved c.status || is_completed c.status) handoff_not_ready) t1 (λ _.
      (
        done (record {
          format_version = "codex-folio.checkpoint.v1";
          exported_at = env.now;
          checkpoint = c;
        }),
        t1,
      )))
