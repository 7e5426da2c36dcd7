-- ===== src/Continuation/Expiry.antt =====
-- internal/continuation/checkpoint.go: show of a checkpoint whose time has passed.
use codex_folio.Base.{
  done, checked, >>=-done, done-injective, ◌≡◌, refl, sym, ap, subst, ◌∙◌, true, false, ◌&&◌, not,
  String, some, ◌==◌, string_eq, inl, inr, if-cases, arith,
}
use codex_folio.Launch.Records.{expired, is_launching}
use codex_folio.Continuation.Records.{
  Environment, Row, Tables, Checkpoint, no_fields, no_repository,
}
use codex_folio.Continuation.Store.{save_checkpoint, load_checkpoint, row_of, open_metadata}
use codex_folio.Continuation.Review.{
  show, load_shown, show_expired, scrubbed, has_passed, expired_record, is_stale, holds_sensitive,
  read_checkpoint_of, usable_text,
}
use codex_folio.Continuation.Soundness.{save_checkpoint-over, same-status}
use codex_folio.Continuation.Approval.{pair, with_result-done, show_expired-done}
use codex_folio.Continuation.Handoff.Loading.{load_checkpoint-done}

-- Nothing of the checkpoint is left: neither in what is shown nor in the row, whose metadata are
-- the encoding without fields and repository.
abbrev pub IsScrubbed : Environment → String → Tables → Checkpoint → Type 0
IsScrubbed env id t c =
    (c.status ≡ expired)
    × ((c.fields ≡ no_fields) × (c.repository ≡ no_repository))
    × (row : Row) × (metadata : String) × (t.rows id ≡ some row)
    × (row.status ≡ expired)
    × (holds_sensitive row ≡ false)
    × ((env.marshal_expired c ≡ some metadata) × (open_metadata row.metadata ≡ done metadata))

load_shown-done :
    (env : Environment) (id : String) (t : Tables) (s : Checkpoint × (String × Row))
    → load_shown env id t ≡ done s
    → load_checkpoint env id t ≡ done s.1
unfolding load_shown
load_shown-done env id t s h =
    let (_, h1) = checked (usable_text env id) _ _ h in
    let (l, e, h2) = >>=-done (load_checkpoint env id t) _ h1 in
    let (c, _, h3) = >>=-done (read_checkpoint_of env l.0 l.1) _ h2 in
    e ∙ ap (λ k. done k.1) (done-injective h3)

saved-IsScrubbed :
    (env : Environment) (id m : String) (row : Row) (c : Checkpoint) (t t' : Tables)
    → (scrubbed row c).id ≡ id
    → env.marshal_expired (scrubbed row c) ≡ some m
    → save_checkpoint env (expired_record row (scrubbed row c) m) t ≡ done t'
    → IsScrubbed env id t' (scrubbed row c)
unfolding expired_record scrubbed row_of
saved-IsScrubbed env id m row c t t' named e h =
    let (_, same) =
      save_checkpoint-over env (expired_record row (scrubbed row c) m) row.status t t' refl h in
    let own = (string_eq.is_same_iff c.id c.id).1 refl in
    (
      refl,
      (refl, refl),
      row_of (expired_record row (scrubbed row c) m),
      m,
      rw (sym named, same) (rw own refl),
      refl,
      refl,
      (e, refl),
    )

kept-IsScrubbed :
    (env : Environment) (id old m : String) (row : Row) (c : Checkpoint) (t : Tables)
    → t.rows id ≡ some row
    → open_metadata row.metadata ≡ done old
    → env.marshal_expired (scrubbed row c) ≡ some m
    → is_stale row old m ≡ false
    → IsScrubbed env id t (scrubbed row c)
unfolding is_stale scrubbed
kept-IsScrubbed env id old m row c t there opened e fresh =
    let same : (old == m) ≡ true = ground (arith, fresh) in
    (
      refl,
      (refl, refl),
      row,
      old,
      there,
      same-status row.status expired (ground (arith, fresh)),
      ground (arith, fresh),
      (e ∙ ap some (sym ((string_eq.is_same_iff old m).0 same)), opened),
    )

expired-IsScrubbed :
    (env : Environment) (id old : String) (row : Row) (c0 c : Checkpoint) (t t' : Tables)
    → t.rows id ≡ some row
    → open_metadata row.metadata ≡ done old
    → c.id ≡ id
    → show_expired env row old (scrubbed row c0) t ≡ pair c t'
    → IsScrubbed env id t' c
expired-IsScrubbed env id old row c0 c t t' there opened named h =
    let (same, m, e, which) = show_expired-done env row old (scrubbed row c0) c t t' h in
    subst (λ k. IsScrubbed env id t' k) same
      (elim which [
        | inl (_, s) ↦ saved-IsScrubbed env id m row c0 t t' (ap (λ k. k.id) same ∙ named) e s
        | inr (fresh, kept) ↦
            subst (λ k. IsScrubbed env id k (scrubbed row c0)) kept
              (kept-IsScrubbed env id old m row c0 t there opened e fresh)
      ])

-- Once a checkpoint is shown whose time has passed and which is not launching, it is expired, and
-- nothing of its fields, of the repository or of the texts of its row is left, neither in what is
-- returned nor in the database, if the metadata name the row that they stand in.
pub show-IsScrubbed :
    (env : Environment) (id : String) (t t' : Tables) (c : Checkpoint)
    → show env id t ≡ pair c t'
    → c.id ≡ id
    → has_passed env.now c.expires_at ≡ true
    → is_launching c.status ≡ false
    → IsScrubbed env id t' c
unfolding show
show-IsScrubbed env id t t' c h named late idle =
    let (s, e, h1) = with_result-done (load_shown env id t) t _ h in
    let (there, opened) = load_checkpoint-done env id t s.1 (load_shown-done env id t s e) in
    elim (if-cases (has_passed env.now s.0.expires_at && not (is_launching s.0.status)) h1) [
      | inl (_, k) ↦ expired-IsScrubbed env id s.1.0 s.1.1 s.0 c t t' there opened named k
      | inr (early, k) ↦ absurd (
          let same : s.0 ≡ c = done-injective (ap (λ p. p.0) k) in
          let a : has_passed env.now s.0.expires_at ≡ true =
            subst (λ x. has_passed env.now x.expires_at ≡ true) (sym same) late in
          let b : is_launching s.0.status ≡ false =
            subst (λ x. is_launching x.status ≡ false) (sym same) idle in
          let x = (rw (a, b) at early) in cc)
    ]
