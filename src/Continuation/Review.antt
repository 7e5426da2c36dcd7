-- ===== src/Continuation/Review.antt =====
-- internal/continuation/checkpoint.go: what the service does with one checkpoint, from its capture
-- to its approval. The service's lock makes each operation one step of the service; the store may
-- change between its load and its save.
use codex_folio.Base.{
  done, fails, ◌>>=◌, require, require_some, ℕ, Bool, false, ◌&&◌, ◌||◌, not, String, Option, none,
  some, Time, if◌then◌else◌, ◌==◌, ◌!=◌, string_eq, before, eqb, ltb, length, is_some, zero, suc,
}
use codex_folio.Launch.Records.{Status, expired, is_launching}
use codex_folio.Continuation.Records.{
  Environment, Outcome, Row, Tables, CheckpointRecord, Checkpoint, content_of, no_fields,
  no_repository, checkpoint_invalid, checkpoint_oversize, max_checkpoint_bytes, transcript_assisted,
}
use codex_folio.Continuation.Retention.{default_repository_retention, default_transcript_retention}
use codex_folio.Continuation.Text.{invalid_text}
use codex_folio.Continuation.Store.{same_status, text_or_empty, save_checkpoint, load_checkpoint}

-- A result with the tables that it leaves, also when it is an error.
abbrev pub Stateful : Type 0 → Type 0
Stateful A = Outcome A × Tables

abbrev pub then_with : {A B : Type 0} → Stateful A → (A → Tables → Stateful B) → Stateful B
then_with (done a, t) f = f a t
then_with (fails e, t) f = (fails e, t)

-- A computation without the store.
abbrev pub with_result : {A B : Type 0} → Outcome A → Tables → (A → Stateful B) → Stateful B
with_result (done a) t f = f a
with_result (fails e) t f = (fails e, t)

-- finalizeCheckpoint: the size is that of the encoding, which holds the size.
pub data Encoded : Type 0 where
  out_of_fuel not_encoded : Encoded
  encoded : Checkpoint → String → Encoded

unfoldable pub finalize_loop : Environment → ℕ → Checkpoint → Encoded
finalize_loop env zero c = out_of_fuel
finalize_loop env (suc fuel) c = elim (env.marshal c) [
  | none ↦ not_encoded
  | some m ↦
      let rest = finalize_loop env fuel (record c { size_bytes = length (env.bytes m) }) in
      if eqb c.size_bytes (length (env.bytes m)) then encoded c m else rest
]

abbrev pub finalize_fuel : ℕ
finalize_fuel = 32

-- Its callers turn every error into this one.
abbrev pub encoded_or_invalid : Encoded → Outcome (Checkpoint × String)
encoded_or_invalid (encoded c m) = done (c, m)
encoded_or_invalid _ = fails checkpoint_invalid

unfoldable pub finalize_checkpoint : Environment → Checkpoint → Outcome (Checkpoint × String)
unfolding finalize_loop
finalize_checkpoint env c = encoded_or_invalid (finalize_loop env finalize_fuel c)

-- prepareCheckpoint: the revision is the digest of the content.
unfoldable pub prepare_checkpoint : Environment → Checkpoint → Outcome (Checkpoint × String)
unfolding finalize_checkpoint content_of
prepare_checkpoint env c = do
  content ← require_some (env.marshal_content (content_of c)) checkpoint_invalid
  finalize_checkpoint env (record c { revision = env.sha256 content })

abbrev pub check_size : Checkpoint → Outcome Bool
check_size c = require (not (ltb max_checkpoint_bytes c.size_bytes)) checkpoint_oversize

abbrev pub pointer_or_nil : String → Option String
pointer_or_nil s = if s == "" then none else some s

-- What Service.save hands to the store.
unfoldable pub record_of :
    Environment → Checkpoint → String → Option Status → String → CheckpointRecord
record_of env c metadata expected_status expected_revision = record {
  id = c.id;
  project_id = c.project.id;
  status = c.status;
  metadata = metadata;
  expected_status = expected_status;
  expected_revision = expected_revision;
  goal = pointer_or_nil c.fields.goal.value;
  completed_work = pointer_or_nil c.fields.completed_work.value;
  pending_work = pointer_or_nil c.fields.pending_work.value;
  validation = pointer_or_nil (env.marshal_validation c.fields.validation.value);
  risks = pointer_or_nil c.fields.risks.value;
  next_action = pointer_or_nil c.fields.next_action.value;
  created_at = c.created_at;
  expires_at = c.expires_at;
}

-- The end of an operation: the save, whose failure leaves the tables alone.
abbrev pub saved : {A : Type 0} → A → Outcome Tables → Tables → Stateful A
saved a (done t') t = (done a, t')
saved a (fails e) t = (fails e, t)

abbrev pub default_retention : String → String → String
default_retention source retention =
    if retention == ""
    then if source == transcript_assisted
      then default_transcript_retention
      else default_repository_retention
    else retention

-- The time of the expiry has come.
abbrev pub has_passed : Time → Option Time → Bool
has_passed now none = false
has_passed now (some expiry) = not (before now expiry)

unfoldable pub scrubbed : Row → Checkpoint → Checkpoint
scrubbed row c = record c {
  status = expired;
  project = record { id = text_or_empty row.project_id; alias = ""; basename = "" };
  repository = no_repository;
  fields = no_fields;
  size_bytes = 0;
}

abbrev pub holds_sensitive : Row → Bool
holds_sensitive row =
    is_some row.goal
    || is_some row.completed_work
    || is_some row.pending_work
    || is_some row.validation
    || is_some row.risks
    || is_some row.next_action

-- The record of an expired checkpoint has none of the fields.
unfoldable pub expired_record : Row → Checkpoint → String → CheckpointRecord
expired_record row c metadata = record {
  id = c.id;
  project_id = c.project.id;
  status = c.status;
  metadata = metadata;
  expected_status = some row.status;
  expected_revision = c.revision;
  goal = none;
  completed_work = none;
  pending_work = none;
  validation = none;
  risks = none;
  next_action = none;
  created_at = c.created_at;
  expires_at = c.expires_at;
}

unfoldable pub is_stale : Row → String → String → Bool
is_stale row old new = not (same_status row.status expired) || old != new || holds_sensitive row

unfoldable pub show_expired : Environment → Row → String → Checkpoint → Tables → Stateful Checkpoint
unfolding is_stale expired_record
show_expired env row old c t =
    with_result (require_some (env.marshal_expired c) checkpoint_invalid) t (λ new.
      if is_stale row old new
      then saved c (save_checkpoint env (expired_record row c new) t) t
      else (done c, t))

unfoldable pub read_checkpoint_of : Environment → String → Row → Outcome Checkpoint
read_checkpoint_of env metadata row = do
  c ← require_some (env.unmarshal metadata) checkpoint_invalid
  done (record c { status = row.status; retention = default_retention c.source c.retention })

abbrev pub usable_text : Environment → String → Bool
usable_text env s = env.trim_space s != "" && not (invalid_text env s)

unfoldable pub load_shown : Environment → String → Tables → Outcome (Checkpoint × (String × Row))
unfolding read_checkpoint_of
load_shown env id t = do
  _ ← require (usable_text env id) checkpoint_invalid
  loaded ← load_checkpoint env id t
  c ← read_checkpoint_of env loaded.0 loaded.1
  done (c, loaded)

-- Service.show
unfoldable pub show : Environment → String → Tables → Stateful Checkpoint
unfolding load_shown show_expired scrubbed
show env id t = with_result (load_shown env id t) t (λ shown.
    let (c, (metadata, row)) = shown in
    if has_passed env.now c.expires_at && not (is_launching c.status)
    then show_expired env row metadata (scrubbed row c) t
    else (done c, t))
