-- ===== src/Continuation/Store.antt =====
-- The checkpoints in the database: internal/store/continuation.go (SaveCheckpoint, LoadCheckpoint,
-- PurgeCheckpoint, LatestSourceLaunch) and putCheckpoint and GetCheckpoint of
-- internal/store/secure.go. A transaction that fails leaves the tables alone.
use codex_folio.Base.{
  done, ◌>>=◌, require, require_some, ℕ, ◌+◌, Bool, true, false, ◌&&◌, not, String, List, [], ◌∷◌,
  map, Option, none, some, if◌then◌else◌, ◌==◌, ◌!=◌, string_eq, eqb, Time,
}
use codex_folio.Launch.Records.{
  Launch, Status, draft, approved, launching, completed, expired, nullable_string, is_launching,
  is_live, is_running, is_exited, Checkpoint,
}
use codex_folio.Launch.Prepare.{has_run, in_project}
use codex_folio.Continuation.Records.{
  Environment, Outcome, Row, Tables, CheckpointRecord, checkpoint_invalid, checkpoint_not_found,
  checkpoint_revision_changed, handoff_not_ready, vault_failed, read_failed, write_failed, begin,
  commit, read_checkpoint, read_launches, put_row, delete_row, clear_launches,
}

abbrev pub same_status : Status → Status → Bool
same_status draft draft = true
same_status approved approved = true
same_status launching launching = true
same_status completed completed = true
same_status expired expired = true
same_status _ _ = false

unfoldable pub row_of : CheckpointRecord → Row
row_of r = record {
  project_id = nullable_string r.project_id;
  status = r.status;
  goal = r.goal;
  completed_work = r.completed_work;
  pending_work = r.pending_work;
  validation = r.validation;
  risks = r.risks;
  next_action = r.next_action;
  metadata = some (some r.metadata);
  is_readable = true;
  has_times = true;
  created_at = r.created_at;
  expires_at = r.expires_at;
}

-- decryptField, which fails on a NULL column too.
abbrev pub decrypted : Option (Option String) → Option String
decrypted none = none
decrypted (some m) = m

abbrev pub has_text : Option String → String → Bool
has_text none text = false
has_text (some s) text = s == text

-- The revision that the metadata holds.
unfoldable pub has_revision : Environment → String → String → Bool
has_revision env metadata revision = has_text (env.unmarshal_revision metadata) revision

-- The row that a save with expectations replaces.
unfoldable pub check_expected : Environment → CheckpointRecord → Status → Tables → Outcome Bool
unfolding has_revision
check_expected env r expected t = do
  _ ← require (env.works read_checkpoint) read_failed
  row ← require_some (t.rows r.id) checkpoint_not_found
  _ ← require (same_status row.status expected) handoff_not_ready
  metadata ← require_some (decrypted row.metadata) vault_failed
  require (has_revision env metadata r.expected_revision) checkpoint_revision_changed

unfoldable pub check_expectations :
    Environment → CheckpointRecord → Option Status → Tables → Outcome Bool
unfolding check_expected
check_expectations env r none t = require (r.expected_revision == "") checkpoint_invalid
check_expectations env r (some expected) t = do
  _ ← require (r.expected_revision != "") checkpoint_invalid
  check_expected env r expected t

abbrev pub put_at : String → Option Row → (String → Option Row) → String → Option Row
put_at id row rows key = if key == id then row else rows key

-- SaveCheckpoint and putCheckpoint: INSERT ... ON CONFLICT(checkpoint_id) DO UPDATE
unfoldable pub save_checkpoint : Environment → CheckpointRecord → Tables → Outcome Tables
unfolding check_expectations
save_checkpoint env r t = do
  _ ← require env.has_vault vault_failed
  _ ← require (env.works begin) write_failed
  _ ← check_expectations env r r.expected_status t
  _ ← require (env.works put_row) write_failed
  _ ← require (env.works commit) write_failed
  done (record t { rows = put_at r.id (some (row_of r)) t.rows })

abbrev pub text_or_empty : Option String → String
text_or_empty none = ""
text_or_empty (some s) = s

-- GetCheckpoint: the metadata, and the row with its texts.
abbrev pub open_metadata : Option (Option String) → Outcome String
open_metadata none = done ""
open_metadata (some m) = require_some m vault_failed

unfoldable pub load_checkpoint : Environment → String → Tables → Outcome (String × Row)
load_checkpoint env id t = do
  _ ← require env.has_vault vault_failed
  _ ← require (env.works read_checkpoint) read_failed
  row ← require_some (t.rows id) checkpoint_not_found
  _ ← require row.is_readable vault_failed
  metadata ← open_metadata row.metadata
  _ ← require row.has_times read_failed
  done (metadata, row)

-- The launches that refer to the checkpoint and have not ended.
abbrev pub refers : String → Launch → Bool
refers id l = has_text l.checkpoint_id id

unfoldable pub active_launches : String → List Launch → ℕ
active_launches id [] = 0
active_launches id (l ∷ ls) =
    (if refers id l && is_live l.state then 1 else 0) + active_launches id ls

unfoldable pub clear_row : String → Launch → Launch
clear_row id l = if refers id l then record l { checkpoint_id = none; revision = none } else l

-- PurgeCheckpoint
unfoldable pub purge_checkpoint : Environment → String → String → Tables → Outcome Tables
unfolding has_revision active_launches clear_row
purge_checkpoint env id revision t = do
  _ ← require env.has_vault vault_failed
  _ ← require (env.works begin) write_failed
  _ ← require (env.works read_checkpoint) read_failed
  row ← require_some (t.rows id) checkpoint_not_found
  _ ← require (not (is_launching row.status)) handoff_not_ready
  metadata ← require_some (decrypted row.metadata) vault_failed
  _ ← require (has_revision env metadata revision) checkpoint_revision_changed
  _ ← require (env.works read_launches) read_failed
  _ ← require (eqb (active_launches id t.launches) 0) handoff_not_ready
  _ ← require (env.works clear_launches) write_failed
  _ ← require (env.works delete_row) write_failed
  _ ← require (env.works commit) write_failed
  done (record { rows = put_at id none t.rows; launches = map (clear_row id) t.launches })

pub data SourceState : Type 0 where
  source_exited source_running source_uncertain : SourceState

pub record SourceLaunch : Type 0 where
  pub profile_id : String
  pub state : SourceState

-- unresolvedSourceLaunchSQL: the last row of the project that has run and not exited.
unfoldable pub unresolved : String → List Launch → Option Launch → Option Launch
unfolding has_run
unresolved project [] found = found
unresolved project (l ∷ ls) found =
    unresolved project ls (if has_run project l && not (is_exited l.state) then some l else found)

-- latestExitedSourceLaunchSQL: a later row is taken where it did not end before the one found.
unfoldable pub latest_exited : Environment → String → List Launch → Option Launch → Option Launch
latest_exited env project [] found = found
latest_exited env project (l ∷ ls) none =
    latest_exited env project ls
      (if in_project project l.project_id && is_exited l.state then some l else none)
latest_exited env project (l ∷ ls) (some m) = latest_exited env project ls (
    if in_project project l.project_id
      && is_exited l.state
      && not (env.ended_before l.ended_at m.ended_at)
    then some l
    else some m)

abbrev pub unresolved_source : Launch → SourceLaunch
unresolved_source l = record {
  profile_id = l.profile_id;
  state = if is_running l.state then source_running else source_uncertain;
}

abbrev pub exited_source : Option Launch → SourceLaunch
exited_source none = record { profile_id = ""; state = source_uncertain }
exited_source (some l) = record {
  profile_id = l.profile_id;
  state =
      if is_exited l.state
      then source_exited
      else if is_running l.state
      then source_running
      else source_uncertain;
}

abbrev pub choose_source : Option Launch → Option Launch → SourceLaunch
choose_source none exited = exited_source exited
choose_source (some l) exited = unresolved_source l

-- LatestSourceLaunch
unfoldable pub latest_source_launch : Environment → String → Tables → Outcome SourceLaunch
unfolding unresolved latest_exited
latest_source_launch env project t = do
  _ ← require (env.works read_launches) read_failed
  done (
      choose_source (unresolved project t.launches none)
        (latest_exited env project t.launches none))

-- The checkpoint as the launch store reads it. A project that is NULL, at which its scan fails, is read
-- as the empty text, which names no project.
abbrev pub claim_of : Environment → Option String → Option (Option (Status × String))
claim_of env none = none
claim_of env (some metadata) = some (env.unmarshal_claim metadata)

abbrev pub stored_expiry : Option Time → Option (Option Time)
stored_expiry none = none
stored_expiry (some t) = some (some t)

unfoldable pub as_claimed : Environment → Option Row → Option Checkpoint
as_claimed env none = none
as_claimed env (some row) = some (record {
  status = row.status;
  project_id = text_or_empty row.project_id;
  expires_at = stored_expiry row.expires_at;
  metadata = claim_of env (decrypted row.metadata);
})
