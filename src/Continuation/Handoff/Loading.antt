-- ===== src/Continuation/Handoff/Loading.antt =====
-- PrepareHandoff of internal/continuation/checkpoint.go, and the load of a checkpoint: what they
-- found where they succeed.
use codex_folio.Base.{
  done, checked, found, >>=-done, done-injective, ◌≡◌, sym, ap, subst, true, ◌&&◌, String, some,
  ◌!=◌, string_eq, arith,
}
use codex_folio.Continuation.Records
use codex_folio.Continuation.Records.{Environment, Row, Tables, read_checkpoint as read_row}
use codex_folio.Continuation.Store.{
  load_checkpoint, open_metadata, text_or_empty, latest_source_launch, SourceLaunch,
}
use codex_folio.Continuation.Review.{usable_text}
use codex_folio.Continuation.Capture.{
  Workspace, PreparedHandoff, prepare_handoff, is_ready, is_exited_source,
}

pub load_checkpoint-done :
    (env : Environment) (id : String) (t : Tables) (l : String × Row)
    → load_checkpoint env id t ≡ done l
    → (t.rows id ≡ some l.1) × (open_metadata l.1.metadata ≡ done l.0)
unfolding load_checkpoint
load_checkpoint-done env id t l h =
    let (_, h1) = checked env.has_vault _ _ h in
    let (_, h2) = checked (env.works read_row) _ _ h1 in
    let (row, e, h3) = found (t.rows id) _ _ h2 in
    let (_, h4) = checked row.is_readable _ _ h3 in
    let (m, f, h5) = >>=-done (open_metadata row.metadata) _ h4 in
    let (_, h6) = checked row.has_times _ _ h5 in
    let same : (m, row) ≡ l = done-injective h6 in
    subst (λ k. (t.rows id ≡ some k.1) × (open_metadata k.1.metadata ≡ done k.0)) same (e, f)

-- What PrepareHandoff found.
pub record Found (env : Environment) (id revision target : String) (t : Tables)
    (h : PreparedHandoff) : Type 0 where
  pub row : Row
  pub metadata : String
  pub checkpoint : codex_folio.Continuation.Records.Checkpoint
  pub source : SourceLaunch
  pub there : t.rows id ≡ some row
  pub opened : open_metadata row.metadata ≡ done metadata
  pub decoded : env.unmarshal metadata ≡ some checkpoint
  pub ready : is_ready env revision row checkpoint ≡ true
  pub latest : latest_source_launch env (text_or_empty row.project_id) t ≡ done source
  pub exited : is_exited_source source.state ≡ true
  pub other : (source.profile_id != target) ≡ true
  pub result : (h.checkpoint_id ≡ id) × (h.revision ≡ revision)
  pub project : h.project_id ≡ text_or_empty row.project_id
  pub profile : h.source_profile_id ≡ source.profile_id

pub prepare_handoff-Found :
    (env : Environment) (w : Workspace) (id revision target : String) (t : Tables)
    (h : PreparedHandoff)
    → prepare_handoff env w id revision target t ≡ done h
    → Found env id revision target t h
unfolding prepare_handoff
prepare_handoff-Found env w id revision target t h e =
    let (_, e1) =
      checked (usable_text env id && usable_text env revision && usable_text env target) _ _ e in
    let (l, loaded, e2) = >>=-done (load_checkpoint env id t) _ e1 in
    let (c, decoded, e3) = found (env.unmarshal l.0) _ _ e2 in
    let (ready, e4) = checked (is_ready env revision l.1 c) _ _ e3 in
    let (s, latest, e5) =
      >>=-done (latest_source_launch env (text_or_empty l.1.project_id) t) _ e4 in
    let (ends, e6) =
      checked (is_exited_source s.state && s.profile_id != "" && s.profile_id != target) _ _ e5 in
    let (d, _, e7) = >>=-done (w.canonical_location (text_or_empty l.1.project_id)) _ e6 in
    let (_, _, e8) = found (w.inspect d) _ _ e7 in
    let (there, opened) = load_checkpoint-done env id t l loaded in
    let same = done-injective e8 in
    record {
      row = l.1;
      metadata = l.0;
      checkpoint = c;
      source = s;
      there = there;
      opened = opened;
      decoded = decoded;
      ready = ready;
      latest = latest;
      exited = ground (arith, ends);
      other = ground (arith, ends);
      result = (sym (ap (λ k. k.checkpoint_id) same), sym (ap (λ k. k.revision) same));
      project = sym (ap (λ k. k.project_id) same);
      profile = sym (ap (λ k. k.source_profile_id) same);
    }
