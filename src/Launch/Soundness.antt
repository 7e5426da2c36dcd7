-- ===== src/Launch/Soundness.antt =====
-- The marks keep the invariant (internal/store/launches.go: MarkManagedLaunchStarted,
-- MarkManagedLaunchExited and MarkManagedLaunchAbandoned).
use codex_folio.Base.{
  done, >>=-done, checked, found, done-injective, ℕ, ◌≡◌, sym, subst, ◌∙◌, true, String, Option,
  none, some, ◌!=◌, string_eq, is_zero, ◌&&◌, not, eqb, Option-cases, inl, inr,
}
use codex_folio.Launch.Records.{
  Launch, Tables, Environment, begin, commit, read_launch, update_launch, update_checkpoint,
  write_failed, lease_invalid, is_pending, is_running, is_live, is_launching, has_status,
  find_launch, update_launches, affected_launches, affects_checkpoint, completed, approved,
}
use codex_folio.Launch.Marks.{
  mark_started_row, mark_exited_row, complete_checkpoint, release_checkpoint, abandon_launch,
  valid_process_status, mark_managed_launch_started, mark_managed_launch_exited,
  mark_managed_launch_abandoned,
}
use codex_folio.Launch.Counts.{update-none}
use codex_folio.Launch.Invariant.{IsSound}
use codex_folio.Launch.Moves.{moved, start-IsSound, abandon-IsSound, exit-IsSound}

complete_checkpoint-done :
    (env : Environment) (o : Option String) (t t' : Tables)
    → complete_checkpoint env o t ≡ done t'
    → ((id : String) → o ≡ some id → has_status is_launching (t.checkpoints id) ≡ true)
      × (t' ≡ record t { checkpoints = moved is_launching completed o t.checkpoints })
unfolding complete_checkpoint affects_checkpoint
complete_checkpoint-done env none t t' h = ((λ id e. cc), sym (done-injective h))
complete_checkpoint-done env (some id) t t' h =
    let (_, h1) = checked (env.works update_checkpoint) _ _ h in
    let (hit, h2) = checked (has_status is_launching (t.checkpoints id)) _ _ h1 in
    (
      (λ k e.
          let same : id ≡ k = cc in
          subst (λ x. has_status is_launching (t.checkpoints x) ≡ true) same hit),
      sym (done-injective h2),
    )

-- A launch that is marked as started keeps the tables sound.
pub mark_managed_launch_started-IsSound :
    (env : Environment) (lease : String) (pid : ℕ) (t t' : Tables)
    → IsSound t
    → mark_managed_launch_started env lease pid t ≡ done t'
    → IsSound t'
unfolding mark_managed_launch_started
mark_managed_launch_started-IsSound env lease pid t t' s h =
    let (_, h1) = checked (env.trim_space lease != "" && not (eqb pid 0)) lease_invalid _ h in
    let (_, h2) = checked (env.works begin) write_failed _ h1 in
    let (_, h3) = checked (env.works read_launch) lease_invalid _ h2 in
    let (row, is_there, h4) = found (find_launch lease is_pending t.launches) lease_invalid _ h3 in
    let (_, h5) = checked (env.works update_launch) write_failed _ h4 in
    let (_, h6) =
      checked (not (eqb (affected_launches lease is_pending t.launches) 0)) lease_invalid _ h5 in
    let (t1, e1, h7) =
      >>=-done
        (complete_checkpoint env row.checkpoint_id (record t {
          launches = update_launches lease is_pending (mark_started_row pid) t.launches;
        }))
        _ h6 in
    let (_, h8) = checked (env.works commit) write_failed _ h7 in
    let (launches, same) = complete_checkpoint-done env row.checkpoint_id _ t1 e1 in
    subst IsSound (sym same ∙ done-injective h8) (start-IsSound lease pid row t s is_there launches)

-- So does one that is marked as exited.
pub mark_managed_launch_exited-IsSound :
    (env : Environment) (lease : String) (status : ℕ) (t t' : Tables)
    → IsSound t
    → mark_managed_launch_exited env lease status t ≡ done t'
    → IsSound t'
unfolding mark_managed_launch_exited
mark_managed_launch_exited-IsSound env lease status t t' s h =
    let (_, h1) = checked (env.trim_space lease != "") _ _ h in
    let (_, h2) = checked (valid_process_status status) _ _ h1 in
    let (_, h3) = checked (not (is_zero env.now)) _ _ h2 in
    let (_, h4) = checked (env.works update_launch) _ _ h3 in
    let (_, h5) = checked (not (eqb (affected_launches lease is_running t.launches) 0)) _ _ h4 in
    subst IsSound (done-injective h5)
      (elim (Option-cases (find_launch lease is_running t.launches)) [
        | inl absent ↦
            subst (λ ls. IsSound (record t { launches = ls }))
              (sym
                (update-none lease is_running (mark_exited_row env.now status) t.launches absent))
              s
        | inr (row, is_there) ↦ exit-IsSound env.now status lease row t s is_there
      ])

release_checkpoint-done :
    (env : Environment) (o : Option String) (t t' : Tables)
    → release_checkpoint env o t ≡ done t'
    → t' ≡ record t { checkpoints = moved is_launching approved o t.checkpoints }
unfolding release_checkpoint
release_checkpoint-done env none t t' h = sym (done-injective h)
release_checkpoint-done env (some id) t t' h =
    let (_, h1) = checked (env.works update_checkpoint) _ _ h in sym (done-injective h1)

-- A launch that is given up, with its checkpoint.
pub abandon_launch-IsSound :
    (env : Environment) (lease : String) (row : Launch) (t t' : Tables)
    → IsSound t
    → find_launch lease is_live t.launches ≡ some row
    → release_checkpoint env row.checkpoint_id (abandon_launch env lease t) ≡ done t'
    → IsSound t'
unfolding abandon_launch
abandon_launch-IsSound env lease row t t' s is_there h =
    subst IsSound (sym (release_checkpoint-done env row.checkpoint_id _ t' h))
      (abandon-IsSound env.now lease row t s is_there)

-- A launch that is marked as abandoned keeps the tables sound.
pub mark_managed_launch_abandoned-IsSound :
    (env : Environment) (lease : String) (t t' : Tables)
    → IsSound t
    → mark_managed_launch_abandoned env lease t ≡ done t'
    → IsSound t'
unfolding mark_managed_launch_abandoned
mark_managed_launch_abandoned-IsSound env lease t t' s h =
    let (_, h1) = checked (env.trim_space lease != "") _ _ h in
    let (_, h2) = checked (not (is_zero env.now)) _ _ h1 in
    let (_, h3) = checked (env.works begin) _ _ h2 in
    let (_, h4) = checked (env.works read_launch) _ _ h3 in
    let (row, is_there, h5) = found (find_launch lease is_live t.launches) _ _ h4 in
    let (_, h6) = checked (env.works update_launch) _ _ h5 in
    let (_, h7) = checked (not (eqb (affected_launches lease is_live t.launches) 0)) _ _ h6 in
    let (t1, e1, h8) =
      >>=-done (release_checkpoint env row.checkpoint_id (abandon_launch env lease t)) _ h7 in
    let (_, h9) = checked (env.works commit) _ _ h8 in
    subst IsSound (done-injective h9) (abandon_launch-IsSound env lease row t t1 s is_there e1)
