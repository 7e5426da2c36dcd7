-- ===== src/Continuation/Handoff.antt =====
-- PrepareHandoff of internal/continuation/checkpoint.go and the claim of PrepareLaunch
-- (internal/store/launches.go): what the one hands over, the other accepts.
pub mod Loading
use codex_folio.Base.{
  done, checked, found, >>=-done, done-injective, ◌≡◌, refl, sym, ap, subst, true, ◌&&◌, not,
  String, List, Option, none, some, Time, ◌==◌, ◌!=◌, string_eq, arith, Option-cases, inl, inr,
}
use codex_folio.Launch.Records.{
  Profile, Launch, Checkpoint, Status, launching, is_approved, Statement, read_checkpoint,
  read_source, claim_checkpoint, Tables as LaunchTables, Environment as LaunchEnvironment,
  update_checkpoint_status, affects_checkpoint, is_exited, has_status,
}
use codex_folio.Launch.Prepare.{
  PrepareRequest, claim, approves, unexpired, definitive_source_launch,
}
use codex_folio.Continuation.Records
use codex_folio.Continuation.Records.{Environment, Row, Tables, read_checkpoint as read_row}
use codex_folio.Continuation.Store.{
  load_checkpoint, open_metadata, decrypted, as_claimed, text_or_empty, stored_expiry, claim_of,
  latest_source_launch, SourceLaunch,
}
use codex_folio.Continuation.Review.{usable_text, has_passed}
use codex_folio.Continuation.Capture.{
  Workspace, PreparedHandoff, prepare_handoff, is_ready, is_exited_source,
}
use codex_folio.Continuation.Soundness.{claimed}
use codex_folio.Continuation.Source.{latest_source_launch-agrees, definitive_source_launch-exited}
use codex_folio.Continuation.Handoff.Loading.{Found, prepare_handoff-Found}

-- The request of a launch that continues from what was handed over.
abbrev pub continuing : PrepareRequest → PreparedHandoff → PrepareRequest
continuing request h = record request {
  checkpoint_id = h.checkpoint_id;
  checkpoint_revision = h.revision;
  project_id = h.project_id;
  source_profile_id = h.source_profile_id;
  working_directory = h.working_directory;
}

-- What the libraries and the clocks of the two have in common: an empty text is no JSON, the decoding
-- of the status and the revision is part of that of the checkpoint, and they order times alike.
pub record IsShared (env : Environment) (launch : LaunchEnvironment) : Type 0 where
  pub no_text : env.unmarshal "" ≡ none
  pub decodes :
      (m : String) (c : codex_folio.Continuation.Records.Checkpoint)
      → env.unmarshal m ≡ some c
      → env.unmarshal_claim m ≡ some (c.status, c.revision)
  pub same_now : launch.now ≡ env.now
  pub same_order : (a b : Option Time) → launch.ended_before a b ≡ env.ended_before a b
  pub works : (s : Statement) → launch.works s ≡ true

not-passed :
    (now : Time) (o : Option Time)
    → not (has_passed now o) ≡ true
    → unexpired now (stored_expiry o) ≡ true
unfolding unexpired
not-passed now none h = refl
not-passed now (some e) h = ground (arith, h)

open-some :
    (env : Environment) (o : Option (Option String)) (m : String)
    (c : codex_folio.Continuation.Records.Checkpoint)
    → env.unmarshal "" ≡ none
    → env.unmarshal m ≡ some c
    → open_metadata o ≡ done m
    → decrypted o ≡ some m
open-some env none m c n d h = absurd (let e : "" ≡ m = done-injective h in cc)
open-some env (some none) m c n d h = cc
open-some env (some (some x)) m c n d h = ap some (done-injective h)

-- The row as the launch store reads it.
abbrev claimed_row : Environment → Row → Checkpoint
claimed_row env row = record {
  status = row.status;
  project_id = text_or_empty row.project_id;
  expires_at = stored_expiry row.expires_at;
  metadata = claim_of env (decrypted row.metadata);
}

-- The claim, where all of its checks pass.
claim-accepts :
    (launch : LaunchEnvironment) (r : PrepareRequest) (p : Profile) (t : LaunchTables)
    (c : Checkpoint) (m : Option (Status × String)) (l : Launch)
    → (launch.trim_space r.boot_session_id != "") ≡ true
    → ((s : Statement) → launch.works s ≡ true)
    → t.checkpoints r.checkpoint_id ≡ some c
    → is_approved c.status ≡ true
    → (c.project_id == r.project_id) ≡ true
    → unexpired launch.now c.expires_at ≡ true
    → c.metadata ≡ some m
    → approves r.checkpoint_revision m ≡ true
    → definitive_source_launch launch r.project_id t.launches ≡ some l
    → (is_exited l.state && l.profile_id == r.source_profile_id && l.profile_id != p.profile_id)
      ≡ true
    → claim launch r p t
      ≡ done (record t {
        checkpoints = update_checkpoint_status r.checkpoint_id is_approved launching t.checkpoints;
      })
unfolding claim affects_checkpoint
claim-accepts launch r p t c m l boot works there ok project ahead meta same source good =
    let ready : has_status is_approved (t.checkpoints r.checkpoint_id) ≡ true = rw there ok in
    let conditions : (is_approved c.status && c.project_id == r.project_id) ≡ true =
      rw ok project in
    rw
      (
        boot,
        works read_checkpoint,
        there,
        conditions,
        ahead,
        meta,
        same,
        works read_source,
        source,
        good,
        works claim_checkpoint,
        ok,
      )
      refl

ready-parts :
    (env : Environment) (revision : String) (row : Row)
    (c : codex_folio.Continuation.Records.Checkpoint)
    → is_ready env revision row c ≡ true
    → (is_approved row.status ≡ true)
      × (is_approved c.status ≡ true)
      × ((c.revision == revision) ≡ true)
      × (not (has_passed env.now row.expires_at) ≡ true)
unfolding is_ready
ready-parts env revision row c h =
    (ground (arith, h), ground (arith, h), ground (arith, h), ground (arith, h))

module _ (env : Environment) (launch : LaunchEnvironment) (id revision : String) (p : Profile)
    (profiles : List Profile) (t : Tables) (h : PreparedHandoff)
    (f : Found env id revision p.profile_id t h) (shared : IsShared env launch) where
  claimed-there :
      (claimed env profiles t).checkpoints h.checkpoint_id ≡ some (claimed_row env f.row)
  unfolding claimed as_claimed
  claimed-there = rw (f.result.0, f.there) refl

  claimed-metadata :
      (claimed_row env f.row).metadata ≡ some (some (f.checkpoint.status, f.checkpoint.revision))
  claimed-metadata =
      let meta =
        open-some env f.row.metadata f.metadata f.checkpoint shared.no_text f.decoded f.opened in
      let claimable = shared.decodes f.metadata f.checkpoint f.decoded in rw (meta, claimable) refl

  claimed-approves : approves h.revision (some (f.checkpoint.status, f.checkpoint.revision)) ≡ true
  claimed-approves =
      let (_, a, b, _) = ready-parts env revision f.row f.checkpoint f.ready in
      rw (f.result.1, a, b) refl

  claimed-project : (text_or_empty f.row.project_id == h.project_id) ≡ true
  claimed-project =
      let project = text_or_empty f.row.project_id in
      rw f.project ((string_eq.is_same_iff project project).1 refl)

  claimed-source :
      (l : Launch) × (definitive_source_launch launch h.project_id t.launches ≡ some l)
      × ((is_exited l.state && l.profile_id == h.source_profile_id && l.profile_id != p.profile_id)
          ≡ true)
  claimed-source =
      let project = text_or_empty f.row.project_id in
      let (agrees, same) =
        latest_source_launch-agrees env launch project shared.same_order t f.source f.latest in
      elim (Option-cases (definitive_source_launch launch project t.launches)) [
        | inl nothing ↦ absurd (let x = (rw nothing at agrees) in let y = f.exited in cc)
        | inr (l, source) ↦
            let ended =
              definitive_source_launch-exited env launch project shared.same_order t.launches l
                source in
            let named = same l source in
            let own : (f.source.profile_id == f.source.profile_id) ≡ true =
              (string_eq.is_same_iff f.source.profile_id f.source.profile_id).1 refl in
            (l, rw f.project source, rw (f.profile, ended, named, own) f.other)
      ]

  Found-claims :
      (request : PrepareRequest)
      → (launch.trim_space request.boot_session_id != "") ≡ true
      → claim launch (continuing request h) p (claimed env profiles t)
        ≡ done (record (claimed env profiles t) {
          checkpoints =
              update_checkpoint_status h.checkpoint_id is_approved launching
                (claimed env profiles t).checkpoints;
        })
  unfolding claimed
  Found-claims request boot =
      let (a, _, _, d) = ready-parts env revision f.row f.checkpoint f.ready in
      let (l, source, good) = claimed-source in
      claim-accepts launch (continuing request h) p (claimed env profiles t) (claimed_row env f.row)
        (some (f.checkpoint.status, f.checkpoint.revision)) l boot shared.works claimed-there a
        claimed-project (rw shared.same_now (not-passed env.now f.row.expires_at d))
        claimed-metadata claimed-approves source good

-- What PrepareHandoff hands over for a profile, PrepareLaunch's claim accepts for a request of that
-- profile with a boot session, while the tables stay as they were: it claims the
-- checkpoint, which moves from approved to launching.
pub prepare_handoff-claims :
    (env : Environment) (launch : LaunchEnvironment) (w : Workspace) (id revision : String)
    (p : Profile) (profiles : List Profile) (t : Tables) (h : PreparedHandoff)
    (request : PrepareRequest)
    → IsShared env launch
    → (launch.trim_space request.boot_session_id != "") ≡ true
    → prepare_handoff env w id revision p.profile_id t ≡ done h
    → claim launch (continuing request h) p (claimed env profiles t)
      ≡ done (record (claimed env profiles t) {
        checkpoints =
            update_checkpoint_status h.checkpoint_id is_approved launching
              (claimed env profiles t).checkpoints;
      })
prepare_handoff-claims env launch w id revision p profiles t h request shared boot e =
    Found-claims env launch id revision p profiles t h
      (prepare_handoff-Found env w id revision p.profile_id t h e) shared request boot
