-- ===== src/Launch/Marks.antt =====
-- internal/store/launches.go: the marks of a launch as started, exited and abandoned, and the
-- reconciliation with the processes that run.
use codex_folio.Base.{
  done, ◌>>=◌, require, require_some, ℕ, ◌^◌, Bool, false, ◌&&◌, not, String, List, [], ◌∷◌, Option,
  none, some, Time, if◌then◌else◌, ◌!=◌, string_eq, is_zero, ltb, eqb,
}
use codex_folio.Launch.Records.{
  running, exited, abandoned, approved, completed, Launch, Tables, lease_invalid,
  checkpoint_invalid, process_status_invalid, read_failed, write_failed, Outcome, begin, commit,
  read_launch, update_launch, update_checkpoint, read_launches, Environment, is_pending, is_running,
  is_live, is_launching, find_launch, update_launches, affected_launches, update_checkpoint_status,
  affects_checkpoint,
}

unfoldable pub mark_started_row : ℕ → Launch → Launch
mark_started_row pid l = record l { state = running; process_id = some pid }

unfoldable pub mark_exited_row : Time → ℕ → Launch → Launch
mark_exited_row now status l = record l {
  state = exited;
  exit_status = some status;
  ended_at = some now;
}

unfoldable pub mark_abandoned_row : Time → Launch → Launch
mark_abandoned_row now l = record l { state = abandoned; ended_at = some now }

-- The checkpoint of a launch that has started is completed.
unfoldable pub complete_checkpoint : Environment → Option String → Tables → Outcome Tables
complete_checkpoint env none t = done t
complete_checkpoint env (some id) t = do
  _ ← require (env.works update_checkpoint) write_failed
  _ ← require (affects_checkpoint id is_launching t.checkpoints) checkpoint_invalid
  done (record t { checkpoints = update_checkpoint_status id is_launching completed t.checkpoints })

unfoldable pub mark_managed_launch_started : Environment → String → ℕ → Tables → Outcome Tables
unfolding complete_checkpoint
mark_managed_launch_started env lease pid t = do
  _ ← require (env.trim_space lease != "" && not (eqb pid 0)) lease_invalid
  _ ← require (env.works begin) write_failed
  _ ← require (env.works read_launch) lease_invalid
  row ← require_some (find_launch lease is_pending t.launches) lease_invalid
  _ ← require (env.works update_launch) write_failed
  _ ← require (not (eqb (affected_launches lease is_pending t.launches) 0)) lease_invalid
  t' ←
      complete_checkpoint env row.checkpoint_id
        (record t { launches = update_launches lease is_pending (mark_started_row pid) t.launches })
  _ ← require (env.works commit) write_failed
  done t'

-- ValidProcessStatus, for a status that is not negative.
unfoldable pub valid_process_status : ℕ → Bool
valid_process_status status = ltb status (2 ^ 32)

unfoldable pub mark_managed_launch_exited : Environment → String → ℕ → Tables → Outcome Tables
mark_managed_launch_exited env lease status t = do
  _ ← require (env.trim_space lease != "") lease_invalid
  _ ← require (valid_process_status status) process_status_invalid
  _ ← require (not (is_zero env.now)) write_failed
  _ ← require (env.works update_launch) write_failed
  _ ← require (not (eqb (affected_launches lease is_running t.launches) 0)) lease_invalid
  done (record t {
    launches = update_launches lease is_running (mark_exited_row env.now status) t.launches;
  })

-- The checkpoint of a launch that is given up can be launched again.
unfoldable pub release_checkpoint : Environment → Option String → Tables → Outcome Tables
release_checkpoint env none t = done t
release_checkpoint env (some id) t = do
  _ ← require (env.works update_checkpoint) write_failed
  done (record t { checkpoints = update_checkpoint_status id is_launching approved t.checkpoints })

unfoldable pub abandon_launch : Environment → String → Tables → Tables
abandon_launch env lease t = record t {
  launches = update_launches lease is_live (mark_abandoned_row env.now) t.launches;
}

unfoldable pub mark_managed_launch_abandoned : Environment → String → Tables → Outcome Tables
unfolding release_checkpoint abandon_launch
mark_managed_launch_abandoned env lease t = do
  _ ← require (env.trim_space lease != "") lease_invalid
  _ ← require (not (is_zero env.now)) write_failed
  _ ← require (env.works begin) write_failed
  _ ← require (env.works read_launch) lease_invalid
  row ← require_some (find_launch lease is_live t.launches) lease_invalid
  _ ← require (env.works update_launch) write_failed
  _ ← require (not (eqb (affected_launches lease is_live t.launches) 0)) lease_invalid
  t' ← release_checkpoint env row.checkpoint_id (abandon_launch env lease t)
  _ ← require (env.works commit) write_failed
  done t'

-- ProcessInspector: `none` where it answers with an error.
pub record Inspector : Type 0 where
  pub is_process_running : ℕ → Option Bool
  pub boot_session_id : Option String

-- Is a pending launch with these texts left over from another boot?
unfoldable pub is_left_pending : Option Inspector → Option String → Option String → Outcome Bool
is_left_pending (some i) (some checkpoint) (some boot) =
    require_some i.boot_session_id read_failed >>= λ current.
    done (current != "" && current != boot)
is_left_pending (some i) (some checkpoint) none = done false
is_left_pending (some i) none boot = done false
is_left_pending none checkpoint boot = done false

-- Does the process of a running launch run no more?
unfoldable pub is_left_running : Option Inspector → Option ℕ → Outcome Bool
is_left_running (some i) (some pid) =
    if eqb pid 0
    then done false
    else (require_some (i.is_process_running pid) read_failed >>= λ runs. done (not runs))
is_left_running (some i) none = done false
is_left_running none pid = done false

unfoldable pub is_left : Option Inspector → Launch → Outcome Bool
is_left inspector l =
    if is_pending l.state
    then is_left_pending inspector l.checkpoint_id l.boot_session_id
    else is_left_running inspector l.process_id

-- The loop over the rows: the launches to abandon.
unfoldable pub left_launches : Option Inspector → List Launch → Outcome (List Launch)
unfolding is_left
left_launches inspector [] = done []
left_launches inspector (l ∷ ls) =
    let rest = left_launches inspector ls in
    let next =
      (is_left inspector l >>= λ left. rest >>= λ more. done (if left then l ∷ more else more)) in
    if is_live l.state then next else rest

-- A launch without a checkpoint is kept with the empty text.
unfoldable pub release_left : Environment → Option String → Tables → Outcome Tables
unfolding release_checkpoint
release_left env none t = done t
release_left env (some id) t = if id != "" then release_checkpoint env (some id) t else done t

unfoldable pub abandon_all : Environment → List Launch → Tables → Outcome Tables
unfolding release_left abandon_launch
abandon_all env [] t = done t
abandon_all env (l ∷ ls) t = require (env.works update_launch) write_failed >>= λ _.
    release_left env l.checkpoint_id (abandon_launch env l.lease_id t) >>= λ t'.
    abandon_all env ls t'

unfoldable pub abandon_left : Environment → List Launch → Tables → Outcome Tables
unfolding abandon_all
abandon_left env [] t = done t
abandon_left env (l ∷ ls) t = do
  _ ← require (not (is_zero env.now)) write_failed
  _ ← require (env.works begin) write_failed
  t' ← abandon_all env (l ∷ ls) t
  _ ← require (env.works commit) write_failed
  done t'

unfoldable pub reconcile_managed_launches : Environment → Option Inspector → Tables → Outcome Tables
unfolding left_launches abandon_left
reconcile_managed_launches env inspector t = do
  _ ← require (env.works read_launches) read_failed
  abandoned_launches ← left_launches inspector t.launches
  abandon_left env abandoned_launches t
