-- ===== src/Continuation/Examples/Edits.antt =====
-- A concrete edit of a checkpoint (internal/continuation/checkpoint.go).
use codex_folio.Base.{done, ◌≡◌, refl, String, List, [], ◌∷◌, string_eq}
use codex_folio.Launch.Records.{draft}
use codex_folio.Continuation.Records.{
  Checkpoint, no_fields, no_repository, content_of, Evidence, CheckpointFields, RepositoryState,
}
use codex_folio.Continuation.Review.{finalize_checkpoint, finalize_loop, prepare_checkpoint}
use codex_folio.Continuation.Redaction.{HasDigest, SharesPaths, edited-SharesPaths}
use codex_folio.Continuation.Service.{EditRequest, edited, apply_edit, edit_repository}
use codex_folio.Continuation.Finalize.{sized}
use codex_folio.Continuation.Text.{
  invalid_text, invalid_relative_path, sanitize_paths, sanitize_fields, sanitize_field,
  sanitize_text, redact, validation_list, user_field, normalized_redactions, invalid_validation,
}
use codex_folio.Continuation.Examples.{shown, env}

abbrev unknown : Evidence String
unknown = record { value = ""; provenance = "unknown"; completeness = "unknown" }

abbrev empty_fields : CheckpointFields
empty_fields = record {
  goal = unknown;
  completed_work = unknown;
  pending_work = unknown;
  validation = record { value = []; provenance = "unknown"; completeness = "unknown" };
  risks = unknown;
  next_action = unknown;
}

-- An edit that redacts one of the paths.
abbrev changes : EditRequest
changes = record { fields = no_fields; redact_paths = "secret" ∷ []; redact_text = [] }

abbrev changed_repository : List String → RepositoryState
changed_repository paths = record no_repository {
  staged = record { value = paths; provenance = "local-observed"; completeness = "complete" };
}

abbrev opened : Checkpoint
opened = record shown { repository = changed_repository ("src" ∷ "secret" ∷ []) }

abbrev redrafted : Checkpoint
redrafted =
    sized
      (record shown {
        status = draft;
        fields = empty_fields;
        repository = changed_repository ("src" ∷ "[REDACTED]" ∷ []);
      })
      3

edit_run : edited env changes opened ≡ done (redrafted, "text")
unfolding edited apply_edit sanitize_fields sanitize_field sanitize_text redact edit_repository
    sanitize_paths invalid_relative_path user_field validation_list invalid_text
    normalized_redactions prepare_checkpoint finalize_checkpoint finalize_loop invalid_validation
    content_of
edit_run = refl

edited-SharesPaths_example :
    (redrafted.status ≡ draft)
    × HasDigest env redrafted
    × SharesPaths env
        (normalized_redactions env changes.redact_paths)
        opened.repository
        redrafted.repository
edited-SharesPaths_example = edited-SharesPaths env changes opened (redrafted, "text") edit_run
