-- ===== src/Continuation/Traces.antt =====
-- The checkpoints and the launches as one state machine: the saves and the purges of
-- internal/continuation/checkpoint.go between the operations of internal/store/launches.go. An
-- operation of the service saves what it prepared from a checkpoint that it loaded earlier, so any
-- other step may come between.
use codex_folio.Base.{
  done, ◌>>=◌, checked, found, >>=-done, done-injective, ◌+◌, ◌≡◌, ◌≤◌, refl, sym, ap, subst, ◌∙◌,
  true, false, not, ◌==◌, string_eq, String, List, [], Option, none, some, eqb, arith,
}
use codex_folio.Launch.Records.{Profile, Status, draft, approved, expired, has_status, is_launching}
use codex_folio.Launch.Counts.{count}
use codex_folio.Launch.Invariant.{IsSound, claims, started}
use codex_folio.Launch.Traces.{Step, IsInitial, Step-IsSound, initial-IsSound, balanced-once}
use codex_folio.Continuation.Records.{
  Environment, Row, Tables, Checkpoint, repository_first, content_of,
}
use codex_folio.Continuation.Retention.{
  Settings, checkpoint_retention, policy_setting, retention_expiry,
}
use codex_folio.Continuation.Store.{save_checkpoint, purge_checkpoint, as_claimed}
use codex_folio.Continuation.Review.{
  record_of, expired_record, scrubbed, finalize_checkpoint, prepare_checkpoint, check_size,
}
use codex_folio.Continuation.Service.{
  EditRequest, edited, approval, approve_preview, is_final, apply_edit,
}
use codex_folio.Continuation.Capture.{
  Workspace, CaptureRequest, captured, invalid_capture, clean_inventory, new_checkpoint,
}
use codex_folio.Continuation.Soundness.{
  claimed, save_checkpoint-IsSound, save_new-IsSound, may_become,
}
use codex_folio.Continuation.Finalize.{finalize_checkpoint-Finalized}
use codex_folio.Continuation.Clearing.{purge_checkpoint-IsSound}

-- The parameters that read a row are the same throughout; the rest of the environment is each
-- step's own. A capture draws an identifier that no row has.
pub data Move (codec : Environment) : Tables → Tables → Type 0 where
  launches :
      (before after : List Profile) (t t' : Tables)
      → Step (claimed codec before t) (claimed codec after t')
      → Move codec t t'
  captures :
      (env : Environment) (w : Workspace) (s : Option Settings) (r : CaptureRequest)
      (p : Checkpoint × String) (t t' : Tables)
      → captured env w s r ≡ done p
      → t.rows p.0.id ≡ none
      → save_checkpoint env (record_of env p.0 p.1 none "") t ≡ done t'
      → Move codec t t'
  expires :
      (env : Environment) (row : Row) (c : Checkpoint) (m : String) (t t' : Tables)
      → is_launching row.status ≡ false
      → save_checkpoint env (expired_record row (scrubbed row c) m) t ≡ done t'
      → Move codec t t'
  edits :
      (env : Environment) (r : EditRequest) (c : Checkpoint) (p : Checkpoint × String)
      (t t' : Tables)
      → edited env r c ≡ done p
      → save_checkpoint env (record_of env p.0 p.1 (some c.status) c.revision) t ≡ done t'
      → Move codec t t'
  approves :
      (env : Environment) (revision : String) (c : Checkpoint) (p : Checkpoint × String)
      (t t' : Tables)
      → approval env revision c ≡ done p
      → save_checkpoint env (record_of env p.0 p.1 (some c.status) c.revision) t ≡ done t'
      → Move codec t t'
  approves_preview :
      (env : Environment) (revision preview_revision : String) (c : Checkpoint)
      (p : Checkpoint × String) (t t' : Tables)
      → approve_preview env preview_revision c ≡ done p
      → save_checkpoint env (record_of env p.0 p.1 (some draft) revision) t ≡ done t'
      → Move codec t t'
  purges :
      (env : Environment) (id revision : String) (t t' : Tables)
      → purge_checkpoint env id revision t ≡ done t'
      → Move codec t t'

-- What the operations save.
finalize-status :
    (env : Environment) (c : Checkpoint) (p : Checkpoint × String)
    → finalize_checkpoint env c ≡ done p
    → p.0.status ≡ c.status
finalize-status env c p h = ap (λ k. k.status) (finalize_checkpoint-Finalized env c p h).0

prepare-status :
    (env : Environment) (c : Checkpoint) (p : Checkpoint × String)
    → prepare_checkpoint env c ≡ done p
    → p.0.status ≡ c.status
unfolding prepare_checkpoint
prepare-status env c p h =
    let (content, _, h1) = found (env.marshal_content (content_of c)) _ _ h in
    finalize-status env _ p h1

prepare-id :
    (env : Environment) (c : Checkpoint) (p : Checkpoint × String)
    → prepare_checkpoint env c ≡ done p
    → p.0.id ≡ c.id
unfolding prepare_checkpoint
prepare-id env c p h =
    let (content, _, h1) = found (env.marshal_content (content_of c)) _ _ h in
    ap (λ k. k.id) (finalize_checkpoint-Finalized env _ p h1).0

to_draft : (s : Status) → not (is_final s) ≡ true → may_become s draft ≡ true
unfolding may_become
to_draft s h = ground arith

to_approved : (s : Status) → not (is_final s) ≡ true → may_become s approved ≡ true
unfolding may_become
to_approved s h = ground arith

to_expired : (s : Status) → is_launching s ≡ false → may_become s expired ≡ true
unfolding may_become
to_expired s h = ground arith

module _ (env : Environment) (c : Checkpoint) (p : Checkpoint × String) where
  edited-moves : (r : EditRequest) → edited env r c ≡ done p → may_become c.status p.0.status ≡ true
  unfolding edited
  edited-moves r h =
      let (live, h1) = checked (not (is_final c.status)) _ _ h in
      let (changed, _, h2) = >>=-done (apply_edit env r c) _ h1 in
      let (q, e, h3) = >>=-done (prepare_checkpoint env (record changed { status = draft })) _ h2 in
      let (_, _, h4) = >>=-done (check_size q.0) _ h3 in
      let same : q ≡ p = done-injective h4 in
      subst (λ k. may_become c.status k.0.status ≡ true) same
        (rw (prepare-status env _ q e) (to_draft c.status live))

  approval-moves :
      (revision : String) → approval env revision c ≡ done p → may_become c.status p.0.status ≡ true
  unfolding approval
  approval-moves revision h =
      let (live, h1) = checked (not (is_final c.status)) _ _ h in
      let (_, h2) = checked (c.revision == revision) _ _ h1 in
      let (q, e, h3) = >>=-done (finalize_checkpoint env (record c { status = approved })) _ h2 in
      let (_, _, h4) = >>=-done (check_size q.0) _ h3 in
      let same : q ≡ p = done-injective h4 in
      subst (λ k. may_become c.status k.0.status ≡ true) same
        (rw (finalize-status env _ q e) (to_approved c.status live))

  preview-moves :
      (revision : String)
      → approve_preview env revision c ≡ done p
      → may_become draft p.0.status ≡ true
  unfolding approve_preview may_become
  preview-moves revision h =
      let (_, h1) = checked (c.revision == revision) _ _ h in
      let (q, e, h2) = >>=-done (finalize_checkpoint env (record c { status = approved })) _ h1 in
      let (_, _, h3) = >>=-done (check_size q.0) _ h2 in
      let same : q ≡ p = done-injective h3 in
      subst (λ k. may_become draft k.0.status ≡ true) same (rw (finalize-status env _ q e) refl)

-- The end of a capture, for the checkpoint that it filled in.
prepared-new :
    (env : Environment) (c : Checkpoint) (id : String) (p : Checkpoint × String)
    → c.status ≡ draft
    → c.id ≡ id
    → env.new_id ≡ some id
    → (do prepared ← prepare_checkpoint env c; _ ← check_size prepared.0; done prepared) ≡ done p
    → (p.0.status ≡ draft) × (env.new_id ≡ some p.0.id)
prepared-new env c id p status named drawn h =
    let (q, e, h1) = >>=-done (prepare_checkpoint env c) _ h in
    let (_, _, h2) = >>=-done (check_size q.0) _ h1 in
    let same : q ≡ p = done-injective h2 in
    subst (λ k. (k.0.status ≡ draft) × (env.new_id ≡ some k.0.id)) same
      (prepare-status env c q e ∙ status, drawn ∙ ap some (sym (prepare-id env c q e ∙ named)))

-- A capture is a draft with the identifier that was drawn.
pub captured-new :
    (env : Environment) (w : Workspace) (s : Option Settings) (r : CaptureRequest)
    (p : Checkpoint × String)
    → captured env w s r ≡ done p
    → (p.0.status ≡ draft) × (env.new_id ≡ some p.0.id)
unfolding captured
captured-new env w s r p h =
    let (_, h1) = checked (not (invalid_capture env r)) _ _ h in
    let (resolved, _, h2) = >>=-done (w.resolve r.path r.alias) _ h1 in
    let (path, _, h3) = >>=-done (w.canonical_location resolved.id) _ h2 in
    let (inspected, _, h4) = found (w.inspect path) _ _ h3 in
    let (inventory, _, h5) = >>=-done (clean_inventory env r inspected) _ h4 in
    let (policy, _, h6) = >>=-done (checkpoint_retention env s) _ h5 in
    let (setting, _, h7) = >>=-done (policy_setting env policy repository_first) _ h6 in
    let (expiry, _, h8) = >>=-done (retention_expiry env env.now setting) _ h7 in
    let (id, drawn, h9) = found env.new_id _ _ h8 in
    prepared-new env _ id p (unfold new_checkpoint in refl) (unfold new_checkpoint in refl) drawn h9

-- The profiles are no part of what is sound.
other-profiles :
    (codec : Environment) (ps qs : List Profile) (t : Tables)
    → IsSound (claimed codec ps t)
    → IsSound (claimed codec qs t)
unfolding claimed
other-profiles codec ps qs t s = record { rows = s.rows; leases = s.leases; balance = s.balance }

Move-IsSound :
    (codec : Environment) (profiles : List Profile) (t t' : Tables)
    → Move codec t t'
    → IsSound (claimed codec profiles t)
    → IsSound (claimed codec profiles t')
unfolding record_of expired_record scrubbed
Move-IsSound codec profiles _ _ (launches before after t t' step) s =
    other-profiles codec after profiles t'
      (Step-IsSound _ _ step (other-profiles codec profiles before t s))
Move-IsSound codec profiles _ _ (captures env w o r p t t' e free h) s =
    save_new-IsSound codec env profiles (record_of env p.0 p.1 none "") t t' s
      (captured-new env w o r p e).0 free h
Move-IsSound codec profiles _ _ (expires env row c m t t' idle h) s =
    save_checkpoint-IsSound codec env profiles (expired_record row (scrubbed row c) m) row.status t
      t' s refl (to_expired row.status idle) h
Move-IsSound codec profiles _ _ (edits env r c p t t' e h) s =
    save_checkpoint-IsSound codec env profiles (record_of env p.0 p.1 (some c.status) c.revision)
      c.status t t' s refl (edited-moves env c p r e) h
Move-IsSound codec profiles _ _ (approves env revision c p t t' e h) s =
    save_checkpoint-IsSound codec env profiles (record_of env p.0 p.1 (some c.status) c.revision)
      c.status t t' s refl (approval-moves env c p revision e) h
Move-IsSound codec profiles _ _ (approves_preview env revision x c p t t' e h) s =
    save_checkpoint-IsSound codec env profiles (record_of env p.0 p.1 (some draft) revision) draft t
      t' s refl (preview-moves env c p x e) h
Move-IsSound codec profiles _ _ (purges env id revision t t' h) s =
    purge_checkpoint-IsSound codec env profiles id revision t t' s h

pub data Reached (codec : Environment) : Tables → Type 0 where
  starts : (t : Tables) → IsInitial (claimed codec [] t) → Reached codec t
  continues : (t t' : Tables) → Reached codec t → Move codec t t' → Reached codec t'

pub Reached-IsSound :
    (codec : Environment) (t : Tables) → Reached codec t → IsSound (claimed codec [] t)
Reached-IsSound codec _ (starts t h) = initial-IsSound (claimed codec [] t) h
Reached-IsSound codec _ (continues t t' r move) =
    Move-IsSound codec [] t t' move (Reached-IsSound codec t r)

-- However the saves and the purges of the continuation service and the operations of the launch
-- store follow each other, an operation of the service saving what it prepared from an older load:
-- of all launches that refer to a checkpoint, at most one is pending or was ever given a process,
-- and the checkpoint is launching exactly while one is pending.
pub continuation_handoff_once :
    (codec : Environment) (t : Tables) (id : String)
    → Reached codec t
    → (count (claims id) t.launches + count (started id) t.launches ≤ 1)
      × (has_status is_launching (as_claimed codec (t.rows id))
          ≡ eqb (count (claims id) t.launches) 1)
unfolding claimed
continuation_handoff_once codec t id r =
    balanced-once (as_claimed codec (t.rows id)) _ _ ((Reached-IsSound codec t r).balance id)
