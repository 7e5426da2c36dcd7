-- ===== src/Profiles/Steps.antt =====
-- A step of the launches (internal/store/launches.go) gives a profile in quarantine no launch.
use codex_folio.Base.{
  done, >>=-done, checked, found, done-injective, ℕ, ◌≡◌, refl, sym, ap, subst, ◌∙◌, inl, inr, true,
  false, ◌&&◌, not, String, List, [], ◌∷◌, Option, ◌==◌, ◌!=◌, string_eq, is_zero, eqb, In, arith,
  Bool-cases,
}
use codex_folio.Launch.Records.{
  Launch, Profile, Tables, Environment, begin, commit, read_launch, update_launch, read_launches,
  is_pending, is_running, is_live, find_launch, update_launches, affected_launches,
}
use codex_folio.Launch.Prepare.{new_row}
use codex_folio.Launch.Marks.{
  Inspector, mark_started_row, mark_exited_row, mark_abandoned_row, complete_checkpoint,
  valid_process_status, mark_managed_launch_started, mark_managed_launch_exited, release_checkpoint,
  abandon_launch, mark_managed_launch_abandoned, left_launches, release_left, abandon_all,
  abandon_left, reconcile_managed_launches,
}
use codex_folio.Launch.Traces.{Step, prepares, starts, exits, abandons, reconciles}
use codex_folio.Profiles.Removal.{has_live}
use codex_folio.Profiles.Live.{
  has_live-update, has_live-append, pending-live, running-live, complete_checkpoint-launches,
  release_checkpoint-launches, release_left-launches, prepare_launch-active,
}

module _ (x : String) where
  started-idle :
      (env : Environment) (lease : String) (pid : ℕ) (t t' : Tables)
      → mark_managed_launch_started env lease pid t ≡ done t'
      → has_live x t.launches ≡ false
      → has_live x t'.launches ≡ false
  unfolding mark_managed_launch_started
  started-idle env lease pid t t' h idle =
      let (_, h1) = checked (env.trim_space lease != "" && not (eqb pid 0)) _ _ h in
      let (_, h2) = checked (env.works begin) _ _ h1 in
      let (_, h3) = checked (env.works read_launch) _ _ h2 in
      let (row, _, h4) = found (find_launch lease is_pending t.launches) _ _ h3 in
      let (_, h5) = checked (env.works update_launch) _ _ h4 in
      let (_, h6) = checked (not (eqb (affected_launches lease is_pending t.launches) 0)) _ _ h5 in
      let moved : Tables = record t {
        launches = update_launches lease is_pending (mark_started_row pid) t.launches;
      } in
      let (t1, e, h7) = >>=-done (complete_checkpoint env row.checkpoint_id moved) _ h6 in
      let (_, h8) = checked (env.works commit) _ _ h7 in
      subst (λ ls. has_live x ls ≡ false)
        (complete_checkpoint-launches env row.checkpoint_id moved t1 e
          ∙ ap (λ u. u.launches) (done-injective h8))
        (has_live-update x lease is_pending (mark_started_row pid)
          (λ l. unfold mark_started_row in refl) (pending-live x) t.launches idle)

  exited-idle :
      (env : Environment) (lease : String) (status : ℕ) (t t' : Tables)
      → mark_managed_launch_exited env lease status t ≡ done t'
      → has_live x t.launches ≡ false
      → has_live x t'.launches ≡ false
  unfolding mark_managed_launch_exited
  exited-idle env lease status t t' h idle =
      let (_, h1) = checked (env.trim_space lease != "") _ _ h in
      let (_, h2) = checked (valid_process_status status) _ _ h1 in
      let (_, h3) = checked (not (is_zero env.now)) _ _ h2 in
      let (_, h4) = checked (env.works update_launch) _ _ h3 in
      let (_, h5) = checked (not (eqb (affected_launches lease is_running t.launches) 0)) _ _ h4 in
      subst (λ ls. has_live x ls ≡ false) (ap (λ u. u.launches) (done-injective h5))
        (has_live-update x lease is_running (mark_exited_row env.now status)
          (λ l. unfold mark_exited_row in refl) (running-live x) t.launches idle)

  abandoned-idle :
      (env : Environment) (lease : String) (t : Tables)
      → has_live x t.launches ≡ false
      → has_live x (abandon_launch env lease t).launches ≡ false
  unfolding abandon_launch
  abandoned-idle env lease t idle =
      has_live-update x lease is_live (mark_abandoned_row env.now)
        (λ l. unfold mark_abandoned_row in refl) (λ s h. h) t.launches idle

  given_up-idle :
      (env : Environment) (lease : String) (t t' : Tables)
      → mark_managed_launch_abandoned env lease t ≡ done t'
      → has_live x t.launches ≡ false
      → has_live x t'.launches ≡ false
  unfolding mark_managed_launch_abandoned
  given_up-idle env lease t t' h idle =
      let (_, h1) = checked (env.trim_space lease != "") _ _ h in
      let (_, h2) = checked (not (is_zero env.now)) _ _ h1 in
      let (_, h3) = checked (env.works begin) _ _ h2 in
      let (_, h4) = checked (env.works read_launch) _ _ h3 in
      let (row, _, h5) = found (find_launch lease is_live t.launches) _ _ h4 in
      let (_, h6) = checked (env.works update_launch) _ _ h5 in
      let (_, h7) = checked (not (eqb (affected_launches lease is_live t.launches) 0)) _ _ h6 in
      let (t1, e, h8) =
        >>=-done (release_checkpoint env row.checkpoint_id (abandon_launch env lease t)) _ h7 in
      let (_, h9) = checked (env.works commit) _ _ h8 in
      subst (λ ls. has_live x ls ≡ false)
        (release_checkpoint-launches env row.checkpoint_id _ t1 e
          ∙ ap (λ u. u.launches) (done-injective h9))
        (abandoned-idle env lease t idle)

  abandon_all-idle :
      (env : Environment) (xs : List Launch) (t t' : Tables)
      → abandon_all env xs t ≡ done t'
      → has_live x t.launches ≡ false
      → has_live x t'.launches ≡ false
  unfolding abandon_all
  abandon_all-idle env [] t t' h idle =
      subst (λ u. has_live x u.launches ≡ false) (done-injective h) idle
  abandon_all-idle env (l ∷ xs) t t' h idle =
      let (_, h1) = checked (env.works update_launch) _ _ h in
      let (t1, e, h2) =
        >>=-done (release_left env l.checkpoint_id (abandon_launch env l.lease_id t)) _ h1 in
      abandon_all-idle env xs t1 t' h2 (
        subst (λ ls. has_live x ls ≡ false) (release_left-launches env l.checkpoint_id _ t1 e)
          (abandoned-idle env l.lease_id t idle))

  abandon_left-idle :
      (env : Environment) (xs : List Launch) (t t' : Tables)
      → abandon_left env xs t ≡ done t'
      → has_live x t.launches ≡ false
      → has_live x t'.launches ≡ false
  unfolding abandon_left
  abandon_left-idle env [] t t' h idle =
      subst (λ u. has_live x u.launches ≡ false) (done-injective h) idle
  abandon_left-idle env (l ∷ xs) t t' h idle =
      let (_, h1) = checked (not (is_zero env.now)) _ _ h in
      let (_, h2) = checked (env.works begin) _ _ h1 in
      let (t1, e, h3) = >>=-done (abandon_all env (l ∷ xs) t) _ h2 in
      let (_, h4) = checked (env.works commit) _ _ h3 in
      subst (λ u. has_live x u.launches ≡ false) (done-injective h4)
        (abandon_all-idle env (l ∷ xs) t t1 e idle)

  reconciled-idle :
      (env : Environment) (inspector : Option Inspector) (t t' : Tables)
      → reconcile_managed_launches env inspector t ≡ done t'
      → has_live x t.launches ≡ false
      → has_live x t'.launches ≡ false
  unfolding reconcile_managed_launches
  reconciled-idle env inspector t t' h idle =
      let (_, h1) = checked (env.works read_launches) _ _ h in
      let (xs, _, h2) = >>=-done (left_launches inspector t.launches) _ h1 in
      abandon_left-idle env xs t t' h2 idle

  -- A step of the launches leaves a profile without a live launch where each row of it is in
  -- quarantine.
  pub Step-idle :
      (t t' : Tables)
      → Step t t'
      → ((p : Profile) → In p t.profiles → (p.profile_id == x) ≡ true → p.quarantined ≡ true)
      → has_live x t.launches ≡ false
      → has_live x t'.launches ≡ false
  Step-idle _ _ (prepares env request plan t t' h) away idle =
      let (p, lease, member, active, added) = prepare_launch-active env request t plan t' h in
      let other : (p.profile_id == x) ≡ false = elim (Bool-cases (p.profile_id == x)) [
        | inl same ↦ let apart = away p member same in ground (arith, active, apart)
        | inr other ↦ other
      ] in
      subst (λ ls. has_live x ls ≡ false) (sym added)
        (has_live-append x (new_row env request p lease) t.launches idle (unfold new_row in other))
  Step-idle _ _ (starts env lease pid t t' h) away idle = started-idle env lease pid t t' h idle
  Step-idle _ _ (exits env lease status t t' h) away idle = exited-idle env lease status t t' h idle
  Step-idle _ _ (abandons env lease t t' h) away idle = given_up-idle env lease t t' h idle
  Step-idle _ _ (reconciles env inspector t t' h) away idle =
      reconciled-idle env inspector t t' h idle
