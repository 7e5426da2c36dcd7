-- ===== src/Continuation/Runs.antt =====
-- The operations of the continuation service (internal/continuation/checkpoint.go) as steps of the
-- state machine of the checkpoints and the launches.
use codex_folio.Base.{
  Attempt, ◌||◌, some, done, fails, checked, found, >>=-done, done-injective, ◌≡◌, refl, sym, ap,
  subst, true, false, ◌&&◌, not, String, List, [], ◌∷◌, Option, none, ◌==◌, ◌!=◌, string_eq,
  Bool-cases, inl, inr, arith, and_eq_true, require, require_some,
}
use codex_folio.Launch.Records.{is_launching, is_approved}
use codex_folio.Continuation.Records.{
  Environment, Outcome, Row, Tables, Checkpoint, checkpoint_invalid, checkpoint_revision_changed,
  handoff_not_ready,
}
use codex_folio.Continuation.Retention.{Settings}
use codex_folio.Continuation.Text.{invalid_text, invalid_redactions}
use codex_folio.Continuation.Store.{save_checkpoint, load_checkpoint}
use codex_folio.Continuation.Review.{
  Stateful, then_with, with_result, saved, show, load_shown, show_expired, scrubbed, has_passed,
  is_stale, expired_record, read_checkpoint_of, usable_text,
}
use codex_folio.Continuation.Service.{
  EditRequest, edit, edited, approve, approval, preview, preview_assisted, approve_preview,
  approve_assisted, purge,
}
use codex_folio.Continuation.Capture.{Workspace, CaptureRequest, capture, captured, capture_project}
use codex_folio.Continuation.History.{
  list_shown, HistoryError, HistorySource, as_history, history_of, prepare_history, export,
  is_completed,
}
use codex_folio.Continuation.Traces.{
  captured-new, expires, edits, approves, approves_preview, purges, captures, Reached, continues,
}

-- A property of the tables that an operation leaves, by its parts.
module _ (P : Tables → Type 0) where
  with_result-leaves :
      {A B : Type 0} (r : Outcome A) (t : Tables) (f : A → Stateful B)
      → P t
      → ((a : A) → r ≡ done a → P (f a).1)
      → P (with_result r t f).1
  with_result-leaves (done a) t f p g = g a refl
  with_result-leaves (fails e) t f p g = p

  then_with-leaves :
      {A B : Type 0} (s : Stateful A) (f : A → Tables → Stateful B)
      → P s.1
      → ((a : A) (t : Tables) → P t → P (f a t).1)
      → P (then_with s f).1
  then_with-leaves (done a, t) f p g = g a t p
  then_with-leaves (fails e, t) f p g = p

  saved-leaves :
      {A : Type 0} (a : A) (r : Outcome Tables) (t : Tables)
      → P t
      → ((t' : Tables) → r ≡ done t' → P t')
      → P (saved a r t).1
  saved-leaves a (done t') t p g = g t' refl
  saved-leaves a (fails e) t p g = p

as_history-leaves :
    (P : Tables → Type 0) {A : Type 0} (s : Stateful A)
    (f : A → Tables → Attempt HistoryError HistorySource)
    → P s.1
    → P (as_history s f).1
as_history-leaves P (done a, t) f p = p
as_history-leaves P (fails e, t) f p = p

shown-status :
    (env : Environment) (id : String) (t : Tables) (s : Checkpoint × (String × Row))
    → load_shown env id t ≡ done s
    → s.0.status ≡ s.1.1.status
unfolding load_shown read_checkpoint_of
shown-status env id t s h =
    let (_, h1) = checked (usable_text env id) _ _ h in
    let (l, _, h2) = >>=-done (load_checkpoint env id t) _ h1 in
    let (c, read, h3) = >>=-done (read_checkpoint_of env l.0 l.1) _ h2 in
    let (u, _, k) = found (env.unmarshal l.0) _ _ read in
    let e : c.status ≡ l.1.status = ap (λ x. x.status) (sym (done-injective k)) in
    subst (λ x. x.0.status ≡ x.1.1.status) (done-injective h3) e

module _ (codec env : Environment) where
  expired-Reached :
      (row : Row) (old : String) (c : Checkpoint) (t : Tables)
      → is_launching row.status ≡ false
      → Reached codec t
      → Reached codec (show_expired env row old (scrubbed row c) t).1
  unfolding show_expired
  expired-Reached row old c t idle r =
      with_result-leaves (Reached codec)
        (require_some (env.marshal_expired (scrubbed row c)) checkpoint_invalid) t _ r
        (λ m _. elim (Bool-cases (is_stale row old m)) [
          | inl stale ↦ rw stale (
              saved-leaves (Reached codec) (scrubbed row c)
                (save_checkpoint env (expired_record row (scrubbed row c) m) t) t r
                (λ t' h. continues t t' r (expires env row c m t t' idle h)))
          | inr fresh ↦ rw fresh r
        ])

  pub show-Reached : (id : String) (t : Tables) → Reached codec t → Reached codec (show env id t).1
  unfolding show
  show-Reached id t r = with_result-leaves (Reached codec) (load_shown env id t) t _ r (λ s e.
      elim (Bool-cases (has_passed env.now s.0.expires_at && not (is_launching s.0.status))) [
        | inl late ↦
            let (_, idle) = and_eq_true (has_passed env.now s.0.expires_at) _ late in
            let status = shown-status env id t s e in
            let live : is_launching s.0.status ≡ false = ground (arith, idle) in
            rw late (expired-Reached s.1.1 s.1.0 s.0 t (rw status at live) r)
        | inr early ↦ rw early r
      ])

  list_shown-Reached :
      (ids : List String) (t : Tables) → Reached codec t → Reached codec (list_shown env ids t).1
  unfolding list_shown
  list_shown-Reached [] t r = r
  list_shown-Reached (id ∷ ids) t r =
      then_with-leaves (Reached codec) (show env id t) _ (show-Reached id t r) (λ c t1 r1.
        then_with-leaves (Reached codec) (list_shown env ids t1) _ (list_shown-Reached ids t1 r1)
          (λ cs t2 r2. r2))

  edit-Reached :
      (id : String) (q : EditRequest) (t : Tables)
      → Reached codec t
      → Reached codec (edit env id q t).1
  unfolding edit
  edit-Reached id q t r =
      with_result-leaves (Reached codec)
        (require (not (invalid_redactions env q.redact_paths q.redact_text)) checkpoint_invalid) t _
        r
        (λ _ _. then_with-leaves (Reached codec) (show env id t) _ (show-Reached id t r) (λ c t1 r1.
          with_result-leaves (Reached codec) (edited env q c) t1 _ r1 (λ p e.
            saved-leaves (Reached codec) p.0 _ t1 r1
              (λ t' h. continues t1 t' r1 (edits env q c p t1 t' e h)))))

  approve-Reached :
      (id revision : String) (t : Tables)
      → Reached codec t
      → Reached codec (approve env id revision t).1
  unfolding approve
  approve-Reached id revision t r =
      with_result-leaves (Reached codec)
        (require (revision != "" && not (invalid_text env revision)) checkpoint_invalid) t _ r
        (λ _ _. then_with-leaves (Reached codec) (show env id t) _ (show-Reached id t r) (λ c t1 r1.
          with_result-leaves (Reached codec) (approval env revision c) t1 _ r1 (λ p e.
            saved-leaves (Reached codec) p.0 _ t1 r1
              (λ t' h. continues t1 t' r1 (approves env revision c p t1 t' e h)))))

  preview_assisted-Reached :
      (settings : Option Settings) (id revision : String) (q : EditRequest) (t : Tables)
      → Reached codec t
      → Reached codec (preview_assisted env settings id revision q t).1
  unfolding preview_assisted
  preview_assisted-Reached settings id revision q t r =
      with_result-leaves (Reached codec)
        (require
          (usable_text env revision && not (invalid_redactions env q.redact_paths q.redact_text))
          checkpoint_invalid)
        t _ r
        (λ _ _. then_with-leaves (Reached codec) (show env id t) _ (show-Reached id t r) (λ c t1 r1.
          with_result-leaves (Reached codec) (preview env settings revision q c) t1 _ r1
            (λ p e. r1)))

  approve_assisted-Reached :
      (settings : Option Settings) (id revision shown_revision : String) (q : EditRequest)
      (t : Tables)
      → Reached codec t
      → Reached codec (approve_assisted env settings id revision shown_revision q t).1
  unfolding approve_assisted
  approve_assisted-Reached settings id revision shown_revision q t r =
      with_result-leaves (Reached codec)
        (require (usable_text env shown_revision) checkpoint_invalid) t _ r
        (λ _ _.
          then_with-leaves (Reached codec) (preview_assisted env settings id revision q t) _
            (preview_assisted-Reached settings id revision q t r)
            (λ c t1 r1.
              with_result-leaves (Reached codec) (approve_preview env shown_revision c) t1 _ r1
                (λ p e. saved-leaves (Reached codec) p.0 _ t1 r1 (λ t' h.
                  continues t1 t' r1
                    (approves_preview env revision shown_revision c p t1 t' e h)))))

  purge-Reached :
      (id revision : String) (t : Tables)
      → Reached codec t
      → Reached codec (purge env id revision t).1
  unfolding purge
  purge-Reached id revision t r =
      with_result-leaves (Reached codec)
        (require (usable_text env id && usable_text env revision) checkpoint_invalid) t _ r
        (λ _ _. then_with-leaves (Reached codec) (show env id t) _ (show-Reached id t r) (λ c t1 r1.
          with_result-leaves (Reached codec)
            (require (c.revision == revision) checkpoint_revision_changed) t1 _ r1
            (λ _ _.
              with_result-leaves (Reached codec)
                (require (not (is_launching c.status)) handoff_not_ready) t1 _ r1
                (λ _ _.
                  saved-leaves (Reached codec) true _ t1 r1
                    (λ t' h. continues t1 t' r1 (purges env id revision t1 t' h))))))

  prepare_history-Reached :
      (clean : String → String) (home_of : String → Option String) (id revision : String)
      (t : Tables)
      → Reached codec t
      → Reached codec (prepare_history env clean home_of id revision t).1
  unfolding prepare_history
  prepare_history-Reached clean home_of id revision t r =
      as_history-leaves (Reached codec) _ (history_of env clean home_of revision) (
        with_result-leaves (Reached codec)
          (require (usable_text env id && usable_text env revision) checkpoint_invalid) t _ r
          (λ _ _. show-Reached id t r))

  export-Reached : (id : String) (t : Tables) → Reached codec t → Reached codec (export env id t).1
  unfolding export
  export-Reached id t r =
      then_with-leaves (Reached codec) (show env id t) _ (show-Reached id t r) (λ c t1 r1.
        with_result-leaves (Reached codec)
          (require (is_approved c.status || is_completed c.status) handoff_not_ready) t1 _ r1
          (λ _ _. r1))

  module _ (t : Tables) (fresh : (id : String) → env.new_id ≡ some id → t.rows id ≡ none) where
    capture-Reached :
        (w : Workspace) (settings : Option Settings) (q : CaptureRequest)
        → Reached codec t
        → Reached codec (capture env w settings q t).1
    unfolding capture
    capture-Reached w settings q r =
        with_result-leaves (Reached codec) (captured env w settings q) t _ r (λ p e.
          saved-leaves (Reached codec) p.0 _ t r (λ t' h. continues t t' r (
            captures env w settings q p t t' e (fresh p.0.id (captured-new env w settings q p e).1)
              h)))

    capture_project-Reached :
        (w : Workspace) (settings : Option Settings) (project : String) (q : CaptureRequest)
        → Reached codec t
        → Reached codec (capture_project env w settings project q t).1
    unfolding capture_project
    capture_project-Reached w settings project q r =
        with_result-leaves (Reached codec)
          (require
            (usable_text env project && env.trim_space q.path == "" && env.trim_space q.alias == "")
            checkpoint_invalid)
          t _ r
          (λ _ _.
            with_result-leaves (Reached codec) (w.canonical_location project) t _ r
              (λ path _. capture-Reached w settings (record q { path = path }) r))

-- The operations of the service that read or write a row of checkpoints, but for PrepareHandoff, which
-- only reads.
pub data Operation : Type 0 where
  captures_path : Workspace → Option Settings → CaptureRequest → Operation
  captures_project : Workspace → Option Settings → String → CaptureRequest → Operation
  shows : String → Operation
  lists : List String → Operation
  changes : String → EditRequest → Operation
  accepts : String → String → Operation
  previews : Option Settings → String → String → EditRequest → Operation
  accepts_assisted : Option Settings → String → String → String → EditRequest → Operation
  consults : (String → String) → (String → Option String) → String → String → Operation
  exports : String → Operation
  removes : String → String → Operation

-- The tables that an operation leaves, whether it succeeds or not.
unfoldable pub run : Environment → Operation → Tables → Tables
unfolding capture capture_project show list_shown edit approve preview_assisted approve_assisted
    prepare_history export purge
run env (captures_path w settings q) t = (capture env w settings q t).1
run env (captures_project w settings project q) t = (capture_project env w settings project q t).1
run env (shows id) t = (show env id t).1
run env (lists ids) t = (list_shown env ids t).1
run env (changes id q) t = (edit env id q t).1
run env (accepts id revision) t = (approve env id revision t).1
run env (previews settings id revision q) t = (preview_assisted env settings id revision q t).1
run env (accepts_assisted settings id revision shown_revision q) t =
    (approve_assisted env settings id revision shown_revision q t).1
run env (consults clean home_of id revision) t = (prepare_history env clean home_of id revision t).1
run env (exports id) t = (export env id t).1
run env (removes id revision) t = (purge env id revision t).1

-- Whatever a capture, a look at one checkpoint, at a list or at the history, an edit, a preview, an
-- approval, an export or a purge answers, an error too, it leaves a state that the state machine of the
-- checkpoints and the launches reaches, from one that it reaches, where no row has the identifier that a
-- capture would draw.
pub run-Reached :
    (codec env : Environment) (operation : Operation) (t : Tables)
    → ((id : String) → env.new_id ≡ some id → t.rows id ≡ none)
    → Reached codec t
    → Reached codec (run env operation t)
unfolding run
run-Reached codec env (captures_path w settings q) t fresh r =
    capture-Reached codec env t fresh w settings q r
run-Reached codec env (captures_project w settings project q) t fresh r =
    capture_project-Reached codec env t fresh w settings project q r
run-Reached codec env (shows id) t fresh r = show-Reached codec env id t r
run-Reached codec env (lists ids) t fresh r = list_shown-Reached codec env ids t r
run-Reached codec env (changes id q) t fresh r = edit-Reached codec env id q t r
run-Reached codec env (accepts id revision) t fresh r = approve-Reached codec env id revision t r
run-Reached codec env (previews settings id revision q) t fresh r =
    preview_assisted-Reached codec env settings id revision q t r
run-Reached codec env (accepts_assisted settings id revision shown_revision q) t fresh r =
    approve_assisted-Reached codec env settings id revision shown_revision q t r
run-Reached codec env (consults clean home_of id revision) t fresh r =
    prepare_history-Reached codec env clean home_of id revision t r
run-Reached codec env (exports id) t fresh r = export-Reached codec env id t r
run-Reached codec env (removes id revision) t fresh r = purge-Reached codec env id revision t r
