-- ===== src/Continuation/Redaction.antt =====
-- internal/continuation/checkpoint.go: the paths that a checkpoint keeps.
use codex_folio.Base.{
  done, checked, found, >>=-done, done-injective, ◌≡◌, refl, sym, ap, subst, ◌∙◌, Bool, true, false,
  ◌&&◌, not, String, List, [], ◌∷◌, some, ◌==◌, string_eq, Bool-cases, inl, inr, arith,
  if◌then◌else◌,
}
use codex_folio.Launch.Records.{draft}
use codex_folio.Continuation.Records.{
  Environment, Checkpoint, RepositoryState, content_of, redacted_value,
}
use codex_folio.Continuation.Text.{
  any, sanitize_paths, invalid_relative_path, contains, sanitize_fields, normalized_redactions,
}
use codex_folio.Continuation.Review.{prepare_checkpoint, check_size}
use codex_folio.Continuation.Service.{EditRequest, edit_repository, apply_edit, edited, is_final}
use codex_folio.Continuation.Finalize.{finalize_checkpoint-Finalized}

-- What a path becomes: it is relative and has no control character, and it is kept in its clean
-- form, which does not lead upwards, or it is replaced by the mark of a redaction, where its clean form
-- is to be redacted.
unfoldable pub may_share : Environment → List String → String → String → Bool
may_share env redactions path kept =
    not (env.is_abs path)
    && not (any env.is_control (env.characters path))
    && (if contains redactions (env.clean_slashes path)
        then kept == redacted_value
        else kept == env.clean_slashes path
          && not (kept == "..")
          && not (env.has_prefix kept "../"))

-- One path of the one list for each of the other, in order.
unfoldable pub all_shared : Environment → List String → List String → List String → Bool
unfolding may_share
all_shared env redactions [] [] = true
all_shared env redactions (p ∷ ps) (k ∷ ks) =
    may_share env redactions p k && all_shared env redactions ps ks
all_shared env redactions _ _ = false

kept-shared :
    (env : Environment) (redactions : List String) (path : String)
    → not (invalid_relative_path env path (env.clean_slashes path)) ≡ true
    → may_share env redactions path (
        if contains redactions (env.clean_slashes path)
        then redacted_value
        else env.clean_slashes path)
      ≡ true
unfolding may_share invalid_relative_path
kept-shared env redactions path h =
    let normalized = env.clean_slashes path in
    let self : (normalized == normalized) ≡ true =
      (string_eq.is_same_iff normalized normalized).1 refl in
    elim (Bool-cases (contains redactions normalized)) [
      | inl hit ↦ rw hit (ground (arith, h))
      | inr miss ↦ rw (miss, self) (ground (arith, h))
    ]

sanitize_paths-shared :
    (env : Environment) (redactions paths out : List String)
    → sanitize_paths env redactions paths ≡ done out
    → all_shared env redactions paths out ≡ true
unfolding sanitize_paths all_shared
sanitize_paths-shared env redactions [] out h =
    subst (λ k. all_shared env redactions [] k ≡ true) (done-injective h) refl
sanitize_paths-shared env redactions (p ∷ ps) out h =
    let n = env.clean_slashes p in
    let (ok, h1) = checked (not (invalid_relative_path env p n)) _ _ h in
    let (rest, e, h2) = >>=-done (sanitize_paths env redactions ps) _ h1 in
    subst (λ k. all_shared env redactions (p ∷ ps) k ≡ true) (done-injective h2)
      (let a = kept-shared env redactions p ok in
        let b = sanitize_paths-shared env redactions ps rest e in rw (a, b) refl)

-- The three lists of paths of a repository, before and after.
abbrev pub SharesPaths : Environment → List String → RepositoryState → RepositoryState → Type 0
SharesPaths env redactions r r' =
    (all_shared env redactions r.staged.value r'.staged.value ≡ true)
    × (all_shared env redactions r.modified.value r'.modified.value ≡ true)
    × (all_shared env redactions r.untracked.value r'.untracked.value ≡ true)

edit_repository-SharesPaths :
    (env : Environment) (request : EditRequest) (r r' : RepositoryState)
    → edit_repository env request r ≡ done r'
    → SharesPaths env (normalized_redactions env request.redact_paths) r r'
unfolding edit_repository
edit_repository-SharesPaths env request r r' h =
    let redactions = normalized_redactions env request.redact_paths in
    let (a, e1, h1) = >>=-done (sanitize_paths env redactions r.staged.value) _ h in
    let (b, e2, h2) = >>=-done (sanitize_paths env redactions r.modified.value) _ h1 in
    let (c, e3, h3) = >>=-done (sanitize_paths env redactions r.untracked.value) _ h2 in
    subst (λ k. SharesPaths env redactions r k) (done-injective h3)
      (
        sanitize_paths-shared env redactions r.staged.value a e1,
        sanitize_paths-shared env redactions r.modified.value b e2,
        sanitize_paths-shared env redactions r.untracked.value c e3,
      )

abbrev pub HasDigest : Environment → Checkpoint → Type 0
HasDigest env c =
    (text : String) × (env.marshal_content (content_of c) ≡ some text)
    × (c.revision ≡ env.sha256 text)

-- An edit that is prepared is a draft whose revision is the digest of its content. Each path of the
-- checkpoint, in order, is relative and without control characters, and is kept in its clean form, which
-- does not lead upwards, unless the request redacts it, and then the mark of a redaction stands for it.
pub edited-SharesPaths :
    (env : Environment) (request : EditRequest) (c : Checkpoint) (p : Checkpoint × String)
    → edited env request c ≡ done p
    → (p.0.status ≡ draft)
      × HasDigest env p.0
      × SharesPaths env (normalized_redactions env request.redact_paths) c.repository p.0.repository
unfolding edited apply_edit prepare_checkpoint content_of
edited-SharesPaths env request c p h =
    let redactions = normalized_redactions env request.redact_paths in
    let (_, h1) = checked (not (is_final c.status)) _ _ h in
    let (changed, e1, h2) = >>=-done (apply_edit env request c) _ h1 in
    let (_, _, k1) =
      >>=-done (sanitize_fields env env.home request.redact_text request.fields) _ e1 in
    let (r, e2, k2) = >>=-done (edit_repository env request c.repository) _ k1 in
    let (q, e3, h3) = >>=-done (prepare_checkpoint env (record changed { status = draft })) _ h2 in
    let (content, text, k3) =
      found (env.marshal_content (content_of (record changed { status = draft }))) _ _ e3 in
    let (only, _, _) = finalize_checkpoint-Finalized env _ q k3 in
    let (_, _, h4) = >>=-done (check_size q.0) _ h3 in
    let same : changed.repository ≡ r = ap (λ k. k.repository) (sym (done-injective k2)) in
    subst
      (λ k.
        (k.0.status ≡ draft)
        × HasDigest env k.0
        × SharesPaths env redactions c.repository k.0.repository)
      (done-injective h4)
      (
        ap (λ k. k.status) only,
        (
          content,
          ap (λ k. env.marshal_content (content_of k)) only ∙ text,
          ap (λ k. k.revision) only,
        ),
        subst (λ k. SharesPaths env redactions c.repository k)
            (sym (ap (λ k. k.repository) only ∙ same))
            (edit_repository-SharesPaths env request c.repository r e2),
      )
