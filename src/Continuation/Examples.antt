-- ===== src/Continuation/Examples.antt =====
-- Concrete checkpoints (internal/continuation/checkpoint.go): one that is approved, and one whose time
-- has passed.
mod Handoffs
mod Edits
mod Runs
use mathlib.Core.Int.{pos}
use codex_folio.Base.{
  done, ℕ, ◌+◌, ◌≡◌, ◌≤◌, refl, true, false, String, List, [], ◌∷◌, Option, none, some,
  if◌then◌else◌, ◌==◌, string_eq, eqb, leb, arith, length, Bool-cases, inl, inr, is_some, subst,
}
use codex_folio.Launch.Records.{
  Launch, Profile, Status, draft, approved, exited, has_status, is_launching, is_approved,
  launching, Environment as LaunchEnvironment, update_checkpoint_status,
}
use codex_folio.Launch.Prepare.{PrepareRequest, definitive_source_launch, claim, has_run}
use codex_folio.Launch.Counts.{count}
use codex_folio.Launch.Invariant.{claims, started}
use codex_folio.Launch.Traces.{IsInitial}
use codex_folio.Continuation.Records.{
  Environment, Row, Tables, Checkpoint, RepositoryInventory, no_fields, no_repository, content_of,
  repository_first, Evidence, CheckpointFields, RepositoryState,
}
use codex_folio.Continuation.Review.{
  show, load_shown, read_checkpoint_of, show_expired, is_stale, scrubbed, expired_record,
  finalize_checkpoint, finalize_loop, record_of, prepare_checkpoint,
}
use codex_folio.Continuation.Store.{
  load_checkpoint, save_checkpoint, check_expected, check_expectations, has_revision, row_of,
  put_at, purge_checkpoint, active_launches, as_claimed, latest_source_launch, unresolved,
  latest_exited, source_exited,
}
use codex_folio.Continuation.Runs.{accepts, run, run-Reached}
use codex_folio.Continuation.Traces.{
  Reached, starts, continues, approves, purges, continuation_handoff_once,
}
use codex_folio.Continuation.Source.{latest_source_launch-agrees}
use codex_folio.Continuation.Soundness.{claimed}
use codex_folio.Continuation.Handoff.{IsShared, continuing, prepare_handoff-claims}
use codex_folio.Continuation.Redaction.{HasDigest, SharesPaths, edited-SharesPaths}
use codex_folio.Continuation.Service.{
  approve, approval, EditRequest, edited, apply_edit, edit_repository,
}
use codex_folio.Continuation.Finalize.{IsSized, sized, finalize_checkpoint-ends}
use codex_folio.Continuation.Approval.{IsApproved, approved_row, approve-exact, pair}
use codex_folio.Continuation.Expiry.{IsScrubbed, show-IsScrubbed}
use codex_folio.Continuation.Text.{
  invalid_text, invalid_relative_path, sanitize_paths, sanitize_fields, sanitize_field,
  sanitize_text, redact, validation_list, user_field, normalized_redactions, invalid_validation,
}
use codex_folio.Continuation.Capture.{
  Workspace, PreparedHandoff, prepare_handoff, is_ready, is_exited_source,
}

abbrev shown : Checkpoint
shown = record {
  id = "c1";
  status = approved;
  project = record { id = "project"; alias = "p"; basename = "p" };
  repository = no_repository;
  fields = no_fields;
  source = repository_first;
  retention = "30";
  created_at = 20;
  expires_at = some 130;
  size_bytes = 3;
  revision = "digest";
}

abbrev pub env : Environment
env = record {
  works = λ s. true;
  has_vault = true;
  now = 100;
  new_id = some "c1";
  home = "";
  trim_space = λ s. s;
  characters = λ s. [];
  is_control = λ c. false;
  bytes = λ s. if s == "long" then 1 ∷ 2 ∷ 3 ∷ 4 ∷ [] else 1 ∷ 2 ∷ 3 ∷ [];
  has_prefix = λ s p. s == "../up";
  replace_all = λ s old new. s;
  replace_fold = λ s old new. s;
  clean_slashes = λ s. s;
  is_abs = λ s. s == "/etc";
  atoi = λ s. if s == "45" then some 45 else some 30;
  itoa = λ n. "30";
  add_days = λ t d. t + d;
  year = λ t. 2026;
  ended_before = λ a b. false;
  sha256 = λ s. s;
  marshal = λ c. if leb 4 c.size_bytes then some "long" else some "text";
  marshal_content = λ c. some "digest";
  marshal_expired = λ c. some "empty";
  marshal_validation = λ vs. "[]";
  unmarshal = λ s. if s == "" then none else some shown;
  unmarshal_revision = λ s. some "digest";
  unmarshal_claim = λ s. some (approved, "digest");
}

abbrev row : Status → Row
row status = record {
  project_id = some "project";
  status = status;
  goal = some "goal";
  completed_work = none;
  pending_work = none;
  validation = none;
  risks = none;
  next_action = none;
  metadata = some (some "text");
  is_readable = true;
  has_times = true;
  created_at = 20;
  expires_at = some 130;
}

abbrev source : Launch
source = record {
  profile_id = "a";
  lease_id = "lease";
  project_id = some "project";
  state = exited;
  started_at = 1;
  ended_at = some 2;
  process_id = some 7;
  exit_status = some 0;
  expected_session_id = none;
  checkpoint_id = none;
  revision = none;
  boot_session_id = none;
}

abbrev table : Status → Tables
table status = record {
  rows = λ id. if id == "c1" then some (row status) else none;
  launches = source ∷ [];
}

wider : (a b : ℕ) → a ≤ b → (if leb 4 a then 1 else 0) ≤ (if leb 4 b then 1 else 0)
wider a b h = ground arith

narrow : (a : ℕ) → (if leb 4 a then 1 else 0) ≤ 20
narrow a = ground arith

encoding :
    (n : ℕ)
    → (m : String) × (env.marshal (sized shown n) ≡ some m)
      × (length (env.bytes m) ≡ 3 + (if leb 4 n then 1 else 0))
encoding n = elim (Bool-cases (leb 4 n)) [
  | inl h ↦ rw h ("long", refl, refl)
  | inr h ↦ rw h ("text", refl, refl)
]

-- The size settles in the second round: that of a longer encoding takes more room.
sizes : IsSized env (sized shown 7)
sizes = record {
  base = 3;
  width = λ n. if leb 4 n then 1 else 0;
  mono = λ a b h. wider a b h;
  bound = λ a. narrow a;
  encodes = λ n. encoding n;
}

finalize_checkpoint-ends_example :
    (n : ℕ) × (m : String) × (finalize_checkpoint env (sized shown 7) ≡ done (sized shown n, m))
    × (env.marshal (sized shown n) ≡ some m)
    × (length (env.bytes m) ≡ n)
finalize_checkpoint-ends_example = finalize_checkpoint-ends env (sized shown 7) sizes

abbrev final : Checkpoint
final = sized (record shown { status = approved }) 3

approve_run :
    approve env "c1" "digest" (table draft)
    ≡ pair final (approved_row env final "text" draft (table draft))
unfolding approve show load_shown load_checkpoint read_checkpoint_of approval finalize_checkpoint
    finalize_loop save_checkpoint check_expected check_expectations has_revision invalid_text
    record_of
approve_run = refl

approve-exact_example :
    IsApproved env "digest" (table draft) (approved_row env final "text" draft (table draft)) final
approve-exact_example = approve-exact env "c1" "digest" (table draft) _ _ approve_run

abbrev late : Environment
late = record env { now = 200 }

abbrev gone : Checkpoint
gone = scrubbed (row draft) (record shown { status = draft })

abbrev emptied : Tables
emptied = record (table draft) {
  rows = put_at "c1" (some (row_of (expired_record (row draft) gone "empty"))) (table draft).rows;
}

show_run : show late "c1" (table draft) ≡ pair gone emptied
unfolding show load_shown load_checkpoint read_checkpoint_of show_expired is_stale save_checkpoint
    check_expected check_expectations has_revision scrubbed expired_record invalid_text
show_run = refl

show-IsScrubbed_example : IsScrubbed late "c1" emptied gone
unfolding scrubbed
show-IsScrubbed_example =
    show-IsScrubbed late "c1" (table draft) emptied gone show_run refl refl refl
