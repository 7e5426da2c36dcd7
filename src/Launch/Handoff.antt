-- ===== src/Launch/Handoff.antt =====
-- PrepareLaunch keeps the invariant: the claim of a checkpoint and the new row
-- (internal/store/launches.go).
use codex_folio.Base.{
  done, >>=-done, checked, found, done-injective, ◌≡◌, refl, sym, ap, subst, ◌∙◌, true, false,
  String, List, [], ◌∷◌, ◌++◌, Option, none, some, ◌==◌, ◌!=◌, string_eq, is_zero, ◌&&◌, not, arith,
  Bool-cases, inl, inr, is_none,
}
use codex_folio.Launch.Records.{
  Launch, Profile, Tables, Environment, begin, commit, read_profile, read_checkpoint, read_source,
  claim_checkpoint, insert_launch, Checkpoint, is_launching, map_checkpoint, move_status,
  is_approved, is_exited, has_status, find_launch, affects_checkpoint, launching, nullable_string,
  update_checkpoint_status,
}
use codex_folio.Launch.Prepare.{
  PrepareRequest, Plan, validate_alias, valid_path, find_profile, find_home, unexpired, approves,
  definitive_source_launch, all_exited, claim, claim_if_named, new_row, any_state, insert_row,
  record_launch, prepare_launch,
}
use codex_folio.Launch.Counts.{bit, count, is_free, distinct-append, count-append, All-append}
use codex_folio.Launch.Invariant.{
  IsSound, IsRow, is_named, fits_state, names, claims, started, claim-balanced,
}
use codex_folio.Launch.Moves.{moved, moved-here, moved-elsewhere, has_name}

definitive-all_exited :
    (env : Environment) (project : String) (l : Launch) (ls : List Launch)
    → definitive_source_launch env project ls ≡ some l
    → all_exited project ls ≡ true
unfolding definitive_source_launch
definitive-all_exited env project l ls h = elim (Bool-cases (all_exited project ls)) [
  | inl all ↦ all
  | inr more ↦ let clash : none ≡ some l = rw more at h in cc
]

-- The checks of the claim that the tables show.
claim-done :
    (env : Environment) (request : PrepareRequest) (p : Profile) (t t' : Tables)
    → claim env request p t ≡ done t'
    → (has_status is_approved (t.checkpoints request.checkpoint_id) ≡ true)
      × (all_exited request.project_id t.launches ≡ true)
      × (t' ≡ record t {
        checkpoints =
            update_checkpoint_status request.checkpoint_id is_approved launching t.checkpoints;
      })
unfolding claim affects_checkpoint
claim-done env request p t t' h =
    let (_, h1) = checked (env.trim_space request.boot_session_id != "") _ _ h in
    let (_, h2) = checked (env.works read_checkpoint) _ _ h1 in
    let (c, _, h3) = found (t.checkpoints request.checkpoint_id) _ _ h2 in
    let (_, h4) = checked (is_approved c.status && c.project_id == request.project_id) _ _ h3 in
    let (_, h5) = checked (unexpired env.now c.expires_at) _ _ h4 in
    let (m, _, h6) = found c.metadata _ _ h5 in
    let (_, h7) = checked (approves request.checkpoint_revision m) _ _ h6 in
    let (_, h8) = checked (env.works read_source) _ _ h7 in
    let (l, source, h9) =
      found (definitive_source_launch env request.project_id t.launches) _ _ h8 in
    let (_, h10) =
      checked
        (is_exited l.state
          && l.profile_id == request.source_profile_id
          && l.profile_id != p.profile_id)
        _ _ h9 in
    let (_, h11) = checked (env.works claim_checkpoint) _ _ h10 in
    let (hit, h12) =
      checked (has_status is_approved (t.checkpoints request.checkpoint_id)) _ _ h11 in
    (
      hit,
      definitive-all_exited env request.project_id l t.launches source,
      sym (done-injective h12),
    )

-- With a checkpoint or without.
pub claim_if_named-done :
    (env : Environment) (request : PrepareRequest) (p : Profile) (t t' : Tables)
    → claim_if_named env request p t ≡ done t'
    → ((id : String)
        → nullable_string request.checkpoint_id ≡ some id
        → has_status is_approved (t.checkpoints id) ≡ true)
      × (t' ≡ record t {
        checkpoints =
            moved is_approved launching (nullable_string request.checkpoint_id) t.checkpoints;
      })
unfolding claim_if_named nullable_string
claim_if_named-done env request p t t' h = elim (Bool-cases (request.checkpoint_id == "")) [
  | inl blank ↦ rw blank ((λ id e. cc), sym (done-injective (rw blank at h)))
  | inr given ↦
      let (hit, _, e) = claim-done env request p t t' (rw given at h) in
      rw given (
        (λ id q.
            let same : request.checkpoint_id ≡ id = cc in
            subst (λ x. has_status is_approved (t.checkpoints x) ≡ true) same hit),
        e,
      )
]

named-nullable : (s : String) → is_named (nullable_string s) ≡ true
unfolding is_named nullable_string
named-nullable s = elim (Bool-cases (s == "")) [ inl e ↦ rw e refl | inr e ↦ rw e (rw e refl) ]

new_row-counts :
    (env : Environment) (request : PrepareRequest) (p : Profile) (lease c : String)
    → (bit (claims c (new_row env request p lease))
        ≡ bit (names c (nullable_string request.checkpoint_id)))
      × (bit (started c (new_row env request p lease)) ≡ 0)
unfolding claims started new_row bit
new_row-counts env request p lease c = (refl, refl)

new_row-IsRow :
    (env : Environment) (request : PrepareRequest) (p : Profile) (lease : String)
    → IsRow (new_row env request p lease)
unfolding new_row fits_state
new_row-IsRow env request p lease = (refl, named-nullable request.checkpoint_id)

insert-IsSound :
    (env : Environment) (request : PrepareRequest) (p : Profile) (lease : String) (t : Tables)
    → IsSound t
    → is_free (new_row env request p lease).lease_id t.launches ≡ true
    → ((id : String)
        → nullable_string request.checkpoint_id ≡ some id
        → has_status is_approved (t.checkpoints id) ≡ true)
    → IsSound (record t {
      launches = t.launches ++ new_row env request p lease ∷ [];
      checkpoints =
          moved is_approved launching (nullable_string request.checkpoint_id) t.checkpoints;
    })
insert-IsSound env request p lease t s free ready =
    let o = nullable_string request.checkpoint_id in
    let row = new_row env request p lease in
    record {
      rows = All-append IsRow row t.launches s.rows (new_row-IsRow env request p lease);
      leases = distinct-append row t.launches s.leases free;
      balance = λ c.
          let (a, b) = new_row-counts env request p lease c in
          let q = count-append (claims c) row t.launches in
          let r = count-append (started c) row t.launches in
          let same_started : count (started c) (t.launches ++ row ∷ [])
              ≡ count (started c) t.launches =
            omega arith in
          elim (Bool-cases (names c o)) [
            | inl here ↦
                let one : bit (names c o) ≡ 1 = unfold bit in rw here refl in
                rw (moved-here is_approved launching o t.checkpoints c here, same_started)
                  (claim-balanced (t.checkpoints c) _ _ _
                    (has_name is_approved o t.checkpoints c ready here) (s.balance c) (omega arith))
            | inr elsewhere ↦
                let nil : bit (names c o) ≡ 0 = unfold bit in rw elsewhere refl in
                let same_claims : count (claims c) (t.launches ++ row ∷ [])
                    ≡ count (claims c) t.launches =
                  omega arith in
                rw
                  (
                    moved-elsewhere is_approved launching o t.checkpoints c elsewhere,
                    same_claims,
                    same_started,
                  )
                  (s.balance c)
          ];
    }

record_launch-IsSound :
    (env : Environment) (request : PrepareRequest) (p : Profile) (t : Tables) (lt : String × Tables)
    → IsSound t
    → record_launch env request p t ≡ done lt
    → IsSound lt.1
unfolding record_launch insert_row
record_launch-IsSound env request p t lt s h =
    let (_, h1) = checked (not (is_zero env.now)) _ _ h in
    let (_, _, h2) = found env.new_launch _ _ h1 in
    let (lease, _, h3) = found env.new_lease _ _ h2 in
    let (t1, e1, h4) = >>=-done (claim_if_named env request p t) _ h3 in
    let (ready, same) = claim_if_named-done env request p t t1 e1 in
    let row = new_row env request p lease in
    let (t2, e2, h5) = >>=-done (insert_row env row t1) _ h4 in
    let (_, i1) = checked (env.works insert_launch) _ _ e2 in
    let (free, i2) = checked (is_none (find_launch row.lease_id any_state t1.launches)) _ _ i1 in
    let (_, h6) = checked (env.works commit) _ _ h5 in
    let free' : is_free row.lease_id t.launches ≡ true =
      unfold is_free in
      ap (λ u. is_none (find_launch row.lease_id any_state u.launches)) (sym same) ∙ free in
    let end : record t1 { launches = t1.launches ++ row ∷ [] } ≡ lt.1 =
      done-injective i2 ∙ ap (λ x. x.1) (done-injective h6) in
    subst IsSound
      (ap {A = Tables} {B = Tables} (λ u. record u { launches = u.launches ++ row ∷ [] }) (sym same)
        ∙ end)
      (insert-IsSound env request p lease t s free' ready)

-- A launch that is prepared keeps the tables sound.
pub prepare_launch-IsSound :
    (env : Environment) (request : PrepareRequest) (t : Tables) (plan : Plan) (t' : Tables)
    → IsSound t
    → prepare_launch env request t ≡ done (plan, t')
    → IsSound t'
unfolding prepare_launch
prepare_launch-IsSound env request t plan t' s h =
    let (_, h1) = checked (validate_alias env request.alias) _ _ h in
    let (_, h2) =
      checked (valid_path env request.executable && valid_path env request.working_directory) _ _
        h1 in
    let (_, h3) = checked (env.works begin) _ _ h2 in
    let (_, h4) = checked (env.works read_profile) _ _ h3 in
    let (p, _, h5) = found (find_profile env request.alias t.profiles) _ _ h4 in
    let (_, h6) = checked p.is_ready _ _ h5 in
    let (home, _, h7) = >>=-done (find_home env request p) _ h6 in
    let (lt, e, h8) = >>=-done (record_launch env request p t) _ h7 in
    subst IsSound (ap (λ x. x.1) (done-injective h8)) (record_launch-IsSound env request p t lt s e)

claimed-launching :
    (o : Option Checkpoint)
    → has_status is_approved o ≡ true
    → has_status is_launching (map_checkpoint (move_status is_approved launching) o) ≡ true
claimed-launching none h = cc
claimed-launching (some c) h = rw h refl

record_launch-claims :
    (env : Environment) (request : PrepareRequest) (p : Profile) (t : Tables) (lt : String × Tables)
    → (request.checkpoint_id == "") ≡ false
    → record_launch env request p t ≡ done lt
    → (has_status is_approved (t.checkpoints request.checkpoint_id) ≡ true)
      × (has_status is_launching (lt.1.checkpoints request.checkpoint_id) ≡ true)
      × (all_exited request.project_id t.launches ≡ true)
unfolding record_launch insert_row claim_if_named update_checkpoint_status
record_launch-claims env request p t lt given h =
    let (_, h1) = checked (not (is_zero env.now)) _ _ h in
    let (_, _, h2) = found env.new_launch _ _ h1 in
    let (lease, _, h3) = found env.new_lease _ _ h2 in
    let (t1, e1, h4) = >>=-done (claim_if_named env request p t) _ h3 in
    let (hit, all, same) = claim-done env request p t t1 (rw given at e1) in
    let row = new_row env request p lease in
    let (t2, e2, h5) = >>=-done (insert_row env row t1) _ h4 in
    let (_, i1) = checked (env.works insert_launch) _ _ e2 in
    let (free, i2) = checked (is_none (find_launch row.lease_id any_state t1.launches)) _ _ i1 in
    let (_, h6) = checked (env.works commit) _ _ h5 in
    let end : t1.checkpoints ≡ lt.1.checkpoints =
      ap (λ u. u.checkpoints) (done-injective i2) ∙ ap (λ x. x.1.checkpoints) (done-injective h6) in
    let self = (string_eq.is_same_iff request.checkpoint_id request.checkpoint_id).1 refl in
    let now_launching : has_status is_launching (
          update_checkpoint_status request.checkpoint_id is_approved launching t.checkpoints
            request.checkpoint_id)
        ≡ true =
      rw self (claimed-launching (t.checkpoints request.checkpoint_id) hit) in
    (
      hit,
      subst (λ table. has_status is_launching (table request.checkpoint_id) ≡ true)
          (ap (λ u. u.checkpoints) (sym same) ∙ end) now_launching,
      all,
    )

-- A launch is prepared for a checkpoint only while the checkpoint is approved and each launch of the
-- project that ran has exited; the checkpoint is launching then, so that a second launch from the
-- same approval is refused.
pub prepare_launch-claims :
    (env : Environment) (request : PrepareRequest) (t : Tables) (plan : Plan) (t' : Tables)
    → (request.checkpoint_id == "") ≡ false
    → prepare_launch env request t ≡ done (plan, t')
    → (has_status is_approved (t.checkpoints request.checkpoint_id) ≡ true)
      × (has_status is_launching (t'.checkpoints request.checkpoint_id) ≡ true)
      × (all_exited request.project_id t.launches ≡ true)
unfolding prepare_launch
prepare_launch-claims env request t plan t' given h =
    let (_, h1) = checked (validate_alias env request.alias) _ _ h in
    let (_, h2) =
      checked (valid_path env request.executable && valid_path env request.working_directory) _ _
        h1 in
    let (_, h3) = checked (env.works begin) _ _ h2 in
    let (_, h4) = checked (env.works read_profile) _ _ h3 in
    let (p, _, h5) = found (find_profile env request.alias t.profiles) _ _ h4 in
    let (_, h6) = checked p.is_ready _ _ h5 in
    let (home, _, h7) = >>=-done (find_home env request p) _ h6 in
    let (lt, e, h8) = >>=-done (record_launch env request p t) _ h7 in
    subst
      (λ u.
        (has_status is_approved (t.checkpoints request.checkpoint_id) ≡ true)
        × (has_status is_launching (u.checkpoints request.checkpoint_id) ≡ true)
        × (all_exited request.project_id t.launches ≡ true))
      (ap (λ x. x.1) (done-injective h8)) (record_launch-claims env request p t lt given e)
