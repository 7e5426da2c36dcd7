-- ===== src/Continuation/Approval.antt =====
-- internal/continuation/checkpoint.go: show, and what an approval or an edit that succeeds has read
-- and has written.
use codex_folio.Base.{
  done, fails, checked, >>=-done, done-injective, ◌≡◌, ◌≤◌, refl, sym, ap, subst, ◌∙◌, Bool, true,
  false, ◌&&◌, not, String, Option, none, some, ◌==◌, ◌!=◌, string_eq, length, ltb, arith, inl, inr,
  ◌⊎◌, if-cases, require_some, require,
}
use codex_folio.Launch.Records.{Status, approved, expired, is_launching}
use codex_folio.Continuation.Records.{
  Environment, Outcome, Row, Tables, Checkpoint, max_checkpoint_bytes, checkpoint_invalid,
  checkpoint_oversize, Error,
}
use codex_folio.Continuation.Text.{invalid_text}
use codex_folio.Continuation.Store.{save_checkpoint, put_at, row_of}
use codex_folio.Continuation.Review.{
  Stateful, then_with, with_result, saved, show, load_shown, show_expired, scrubbed, has_passed,
  record_of, finalize_checkpoint, check_size, is_stale, expired_record,
}
use codex_folio.Continuation.Service.{is_final, approval, approve, save_over}
use codex_folio.Continuation.Finalize.{Finalized, finalize_checkpoint-Finalized}
use codex_folio.Continuation.Soundness.{row_matches, save_checkpoint-over}

abbrev pub pair : {A : Type 0} → A → Tables → Stateful A
pair a t = (done a, t)

pub then_with-done :
    {A B : Type 0} (s : Stateful A) (f : A → Tables → Stateful B) {b : B} {t' : Tables}
    → then_with s f ≡ pair b t'
    → (a : A) × (t : Tables) × (s ≡ pair a t) × (f a t ≡ pair b t')
then_with-done (done a, t) f h = (a, t, refl, h)
then_with-done (fails e, t) f h = absurd (let x = ap (λ p. p.0) h in cc)

pub with_result-done :
    {A B : Type 0} (r : Outcome A) (t : Tables) (f : A → Stateful B) {b : B} {t' : Tables}
    → with_result r t f ≡ pair b t'
    → (a : A) × (r ≡ done a) × (f a ≡ pair b t')
with_result-done (done a) t f h = (a, refl, h)
with_result-done (fails e) t f h = absurd (let x = ap (λ p. p.0) h in cc)

pub saved-done :
    {A : Type 0} (a : A) (r : Outcome Tables) (t : Tables) {b : A} {t' : Tables}
    → saved a r t ≡ pair b t'
    → (a ≡ b) × (r ≡ done t')
saved-done a (done x) t h = (done-injective (ap (λ p. p.0) h), ap (λ p. done p.1) h)
saved-done a (fails e) t h = absurd (let x = ap (λ p. p.0) h in cc)

require_some-done :
    {A : Type 0} (o : Option A) (e : Error) {a : A} → require_some o e ≡ done a → o ≡ some a
require_some-done none e h = cc
require_some-done (some a) e h = ap some (done-injective h)

require-done : (b : Bool) (e : Error) {r : Bool} → require b e ≡ done r → b ≡ true
require-done true e h = refl
require-done false e h = cc

-- The record of an expired checkpoint, and whether it had to be saved.
pub show_expired-done :
    (env : Environment) (row : Row) (old : String) (c c' : Checkpoint) (t t' : Tables)
    → show_expired env row old c t ≡ pair c' t'
    → (c ≡ c')
      × (new : String) × (env.marshal_expired c ≡ some new)
      × (((is_stale row old new ≡ true)
            × (save_checkpoint env (expired_record row c new) t ≡ done t'))
          ⊎ ((is_stale row old new ≡ false) × (t ≡ t')))
unfolding show_expired
show_expired-done env row old c c' t t' h =
    let (new, e, h1) =
      with_result-done (require_some (env.marshal_expired c) checkpoint_invalid) t _ h in
    let text = require_some-done (env.marshal_expired c) checkpoint_invalid e in
    elim (if-cases (is_stale row old new) h1) [
      | inl (stale, k) ↦
          let (a, b) = saved-done c (save_checkpoint env (expired_record row c new) t) t k in
          (a, new, text, inl (stale, b))
      | inr (kept, k) ↦ (done-injective (ap (λ p. p.0) k), new, text, inr (kept, ap (λ p. p.1) k))
    ]

-- A checkpoint that is shown with a status that allows a change is that of its row, and the tables
-- are as they were.
pub show-unexpired :
    (env : Environment) (id : String) (t t' : Tables) (c : Checkpoint)
    → show env id t ≡ pair c t'
    → is_final c.status ≡ false
    → t' ≡ t
unfolding show scrubbed
show-unexpired env id t t' c h live =
    let (s, _, h1) = with_result-done (load_shown env id t) t _ h in
    elim (if-cases (has_passed env.now s.0.expires_at && not (is_launching s.0.status)) h1) [
      | inl (_, k) ↦
          let (same, _, _, _) = show_expired-done env s.1.1 s.1.0 (scrubbed s.1.1 s.0) c t t' k in
          absurd
            (let e : is_final expired ≡ is_final c.status = ap (λ k. is_final k.status) same in cc)
      | inr (_, k) ↦ sym (ap (λ p. p.1) k)
    ]

-- What an approval leaves: the row of the checkpoint, which is approved.
abbrev pub approved_row : Environment → Checkpoint → String → Status → Tables → Tables
approved_row env c m status t = record t {
  rows = put_at c.id (some (row_of (record_of env c m (some status) c.revision))) t.rows;
}

-- It replaces a draft or an approved checkpoint of the revision that was reviewed. The checkpoint has
-- that revision, is approved and fits the size limit, its size being that of the encoding which the
-- row holds.
abbrev pub IsApproved : Environment → String → Tables → Tables → Checkpoint → Type 0
IsApproved env revision t t' c =
    (status : Status) × (m : String) × (is_final status ≡ false)
    × (row_matches env status revision (t.rows c.id) ≡ true)
    × ((c.status ≡ approved) × (c.revision ≡ revision))
    × ((env.marshal c ≡ some m) × (length (env.bytes m) ≡ c.size_bytes))
    × (c.size_bytes ≤ max_checkpoint_bytes)
    × (t' ≡ approved_row env c m status t)

approval-parts :
    (env : Environment) (revision : String) (c : Checkpoint) (p : Checkpoint × String)
    → approval env revision c ≡ done p
    → (is_final c.status ≡ false)
      × (c.revision ≡ revision)
      × Finalized env (record c { status = approved }) p.0 p.1
      × (p.0.size_bytes ≤ max_checkpoint_bytes)
unfolding approval
approval-parts env revision c p h =
    let (live, h1) = checked (not (is_final c.status)) _ _ h in
    let (same, h2) = checked (c.revision == revision) _ _ h1 in
    let (q, final, h3) = >>=-done (finalize_checkpoint env (record c { status = approved })) _ h2 in
    let (b, fits, h4) = >>=-done (check_size q.0) _ h3 in
    let small =
      require-done (not (ltb max_checkpoint_bytes q.0.size_bytes)) checkpoint_oversize fits in
    let e : q ≡ p = done-injective h4 in
    (
      ground (arith, live),
      (string_eq.is_same_iff c.revision revision).0 same,
      subst (λ k. Finalized env (record c { status = approved }) k.0 k.1) e
          (finalize_checkpoint-Finalized env _ q final),
      subst (λ k. k.0.size_bytes ≤ max_checkpoint_bytes) e (ground (arith, small)),
    )

save_over-done :
    (env : Environment) (status : Status) (revision : String) (p : Checkpoint × String)
    (c : Checkpoint) (t t' : Tables)
    → save_over env status revision p t ≡ pair c t'
    → (p.0 ≡ c)
      × (row_matches env status revision (t.rows p.0.id) ≡ true)
      × (t' ≡ record t {
        rows = put_at p.0.id (some (row_of (record_of env p.0 p.1 (some status) revision))) t.rows;
      })
unfolding record_of
save_over-done env status revision p c t t' h =
    let r = record_of env p.0 p.1 (some status) revision in
    let (same, saved_it) = saved-done p.0 (save_checkpoint env r t) t h in
    let (hit, e) = save_checkpoint-over env r status t t' refl saved_it in (same, hit, e)

-- The approval of a checkpoint that was shown.
approves-exact :
    (env : Environment) (revision : String) (t t' : Tables) (c0 c : Checkpoint)
    (p : Checkpoint × String)
    → approval env revision c0 ≡ done p
    → save_over env c0.status c0.revision p t ≡ pair c t'
    → IsApproved env revision t t' c
approves-exact env revision t t' c0 c p a s =
    let (live, same, (only, encodes, size), fits) = approval-parts env revision c0 p a in
    let (e, hit, left) = save_over-done env c0.status c0.revision p c t t' s in
    let kept : p.0.revision ≡ revision = ap (λ k. k.revision) only ∙ same in
    let moved : p.0.status ≡ approved = ap (λ k. k.status) only in
    subst (λ k. IsApproved env revision t t' k) e
      (
        c0.status,
        p.1,
        live,
        subst (λ r. row_matches env c0.status r (t.rows p.0.id) ≡ true) same hit,
        (moved, kept),
        (encodes, size),
        fits,
        subst
            (λ r. t' ≡ record t {
              rows =
                  put_at p.0.id (some (row_of (record_of env p.0 p.1 (some c0.status) r))) t.rows;
            })
            (sym (ap (λ k. k.revision) only)) left,
      )

-- An approval that succeeds has found, at its save, a draft or an approved checkpoint of exactly the
-- revision that was reviewed. What it returns is approved, has that revision and fits the size
-- limit, its size being that of its encoding; the one row that the tables change is that of the
-- checkpoint, which then holds that encoding.
pub approve-exact :
    (env : Environment) (id revision : String) (t t' : Tables) (c : Checkpoint)
    → approve env id revision t ≡ pair c t'
    → IsApproved env revision t t' c
unfolding approve
approve-exact env id revision t t' c h =
    let (_, _, h1) =
      with_result-done
        (require (revision != "" && not (invalid_text env revision)) checkpoint_invalid) t _ h in
    let (c0, t1, shown, h2) = then_with-done (show env id t) _ h1 in
    let (p, a, h3) = with_result-done (approval env revision c0) t1 _ h2 in
    let (live, _, _, _) = approval-parts env revision c0 p a in
    let same : t1 ≡ t = show-unexpired env id t t1 c0 shown live in
    subst (λ k. IsApproved env revision k t' c) same (approves-exact env revision t1 t' c0 c p a h3)
