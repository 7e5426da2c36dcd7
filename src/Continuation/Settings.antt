-- ===== src/Continuation/Settings.antt =====
-- internal/continuation/retention.go and internal/store/retention.go: a retention setting that is
-- stored is read back.
mod Examples
use codex_folio.Base.{
  done, fails, checked, found, >>=-done, ◌>>=◌, done-injective, ℕ, ◌≡◌, ◌≤◌, refl, sym, ap, subst,
  ◌∙◌, Bool, true, false, not, ◌||◌, String, Option, none, some, ◌==◌, ◌!=◌, string_eq, Bool-cases,
  inl, inr, arith, if◌then◌else◌, if-cases, ltb, require, require_some,
}
use codex_folio.Continuation.Records.{
  Environment, Outcome, read_settings, put_row, repository_first, transcript_assisted,
  checkpoint_invalid,
}
use codex_folio.Continuation.Retention.{
  RetentionPolicy, Settings, Mode, parse_retention, policy_setting, stored_setting, mode_of,
  with_mode, mode_setting, write_retention, checkpoint_retention, settings_or_default,
  settings_policy, policy_of,
}

abbrev pub InBounds : Option ℕ → Type 0
InBounds none = Unit
InBounds (some d) = (1 ≤ d) × (d ≤ 3_652_059)

parse_retention-bounds :
    (env : Environment) (s : String) (o : Option ℕ) → parse_retention env s ≡ done o → InBounds o
unfolding parse_retention
parse_retention-bounds env s o h = elim (if-cases (s == "unlimited") h) [
  | inl (_, e) ↦ subst InBounds (done-injective e) tt
  | inr (_, e) ↦
      let (d, _, e1) = found (env.atoi s) _ _ e in
      let (ok, e2) = checked (not (ltb d 1 || ltb 3_652_059 d)) _ _ e1 in
      subst InBounds (done-injective e2) (ground (arith, ok), ground (arith, ok))
]

-- The texts of numbers: strconv reads what fmt prints of a number of days in the bounds, and the text
-- of a number is neither empty nor a word.
pub record IsDecimal (env : Environment) : Type 0 where
  pub reads : (n : ℕ) → n ≤ 3_652_059 → env.atoi (env.itoa n) ≡ some n
  pub full : (n : ℕ) → (env.itoa n == "") ≡ false
  pub number : (n : ℕ) → (env.itoa n == "unlimited") ≡ false

module _ (env : Environment) (decimal : IsDecimal env) where
  mode-parse :
      (o : Option ℕ)
      → InBounds o
      → ((mode_setting env (mode_of o) == "") ≡ false)
        × (parse_retention env (mode_setting env (mode_of o)) ≡ done o)
  unfolding mode_setting parse_retention
  mode-parse none b = (refl, refl)
  mode-parse (some d) (low, high) =
      let ok : not (ltb d 1 || ltb 3_652_059 d) ≡ true = ground arith in
      (decimal.full d, rw (decimal.number d, decimal.reads d high, ok) refl)

  then-parse :
      (s fallback : String) (o : Option ℕ)
      → (s == "") ≡ false
      → parse_retention env s ≡ done o
      → ((parse_retention env (if s == "" then fallback else s) >>= λ _.
            done (if s == "" then fallback else s))
          >>= parse_retention env)
        ≡ done o
  then-parse s fallback o full parses = rw (full, parses) parses

  with_mode-reads :
      (source : String) (o : Option ℕ) (s : Settings)
      → env.works read_settings ≡ true
      → (source == repository_first || source == transcript_assisted) ≡ true
      → (mode_setting env (mode_of o) == "") ≡ false
      → parse_retention env (mode_setting env (mode_of o)) ≡ done o
      → (checkpoint_retention env (some (with_mode source (mode_of o) s)) >>= λ policy.
          policy_setting env policy source >>= parse_retention env)
        ≡ done o
  unfolding checkpoint_retention policy_setting
  with_mode-reads source o s works known full parses =
      elim (Bool-cases (source == transcript_assisted)) [
        | inl second ↦ rw (works, second) (then-parse _ _ o full parses)
        | inr first ↦
            let only : (source == repository_first) ≡ true = ground (arith, known, first) in
            rw (works, first, only) (then-parse _ _ o full parses)
      ]

  -- A retention that is stored for a source is between one day and 3652059 days, or unlimited, and
  -- is the one that a later look at the setting of that source parses to.
  pub write_retention-reads :
      (source setting : String) (row : Option Settings) (stored : Settings)
      → env.works read_settings ≡ true
      → write_retention env source setting row ≡ done stored
      → (days : Option ℕ) × InBounds days
        × (parse_retention env setting ≡ done days)
        × ((checkpoint_retention env (some stored) >>= λ policy.
              policy_setting env policy source >>= parse_retention env)
            ≡ done days)
  unfolding write_retention
  write_retention-reads source setting row stored works h =
      let (days, e, h1) = >>=-done (parse_retention env setting) _ h in
      let (known, h2) =
        checked (source == repository_first || source == transcript_assisted) _ _ h1 in
      let (_, h4) = checked (env.works put_row) _ _ h2 in
      let bounds = parse_retention-bounds env setting days e in
      let (full, parses) = mode-parse days bounds in
      (
        days,
        bounds,
        e,
        subst
            (λ k.
              (checkpoint_retention env (some k) >>= λ policy.
              policy_setting env policy source >>= parse_retention env)
              ≡ done days)
            (done-injective h4)
            (with_mode-reads source days (settings_or_default row) works known full parses),
      )
