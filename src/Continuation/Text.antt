-- ===== src/Continuation/Text.antt =====
-- internal/continuation/checkpoint.go: the checks and the redaction of the texts and the paths of a
-- checkpoint.
use codex_folio.Base.{
  done, ◌>>=◌, require, ℕ, Bool, false, ◌&&◌, ◌||◌, not, String, List, [], ◌∷◌, ◌++◌, map,
  if◌then◌else◌, ◌==◌, ◌!=◌, string_eq, eqb, is_none,
}
use codex_folio.Continuation.Records.{
  Environment, Outcome, checkpoint_invalid, redacted_value, Evidence, ValidationEvidence,
  CheckpointFields,
}

abbrev pub any : {A : Type 0} → (A → Bool) → List A → Bool
any f [] = false
any f (x ∷ xs) = f x || any f xs

-- A control character that is neither a line feed nor a tab.
unfoldable pub invalid_text : Environment → String → Bool
invalid_text env value =
    any (λ r. env.is_control r && not (eqb r 10) && not (eqb r 9)) (env.characters value)

unfoldable pub invalid_relative_path : Environment → String → String → Bool
invalid_relative_path env value normalized =
    env.is_abs value
    || normalized == ".."
    || env.has_prefix normalized "../"
    || any env.is_control (env.characters value)

unfoldable pub invalid_redactions : Environment → List String → List String → Bool
unfolding invalid_relative_path invalid_text
invalid_redactions env paths text =
    any (λ p. invalid_relative_path env p (env.clean_slashes p)) paths
    || any (λ s. s == "" || invalid_text env s) (paths ++ text)

unfoldable pub invalid_validation : Environment → ValidationEvidence → Bool
unfolding invalid_text
invalid_validation env v =
    env.trim_space v.command == ""
    || invalid_text env v.command
    || invalid_text env v.source
    || (v.freshness != ""
        && v.freshness != "fresh"
        && v.freshness != "stale"
        && v.freshness != "unknown")

-- A drive letter, or two slashes.
abbrev pub windows_bytes : List ℕ → Bool
windows_bytes (_ ∷ c ∷ s ∷ _) = eqb c 58 && (eqb s 92 || eqb s 47)
windows_bytes _ = false

unfoldable pub is_windows_path : Environment → String → Bool
is_windows_path env path =
    windows_bytes (env.bytes path) || env.has_prefix path "\\\\" || env.has_prefix path "//"

-- The home is written with its own slashes, with forward and with backward ones.
unfoldable pub replace_home : Environment → String → List String → String → String
unfolding is_windows_path
replace_home env home [] value = value
replace_home env home (c ∷ cs) value = replace_home env home cs (
    if is_windows_path env home
    then env.replace_fold value c "[HOME]"
    else env.replace_all value c "[HOME]")

unfoldable pub redact : Environment → List String → String → String
redact env [] value = value
redact env (r ∷ rs) value = redact env rs (env.replace_all value r redacted_value)

unfoldable pub sanitize_text : Environment → String → List String → String → String
unfolding replace_home redact
sanitize_text env home redactions value = redact env redactions (
    if home != ""
    then replace_home env home
        (home ∷ env.replace_all home "\\" "/" ∷ env.replace_all home "/" "\\" ∷ []) value
    else value)

abbrev pub contains : List String → String → Bool
contains values value = any (λ v. v == value) values

unfoldable pub sanitize_paths : Environment → List String → List String → Outcome (List String)
unfolding invalid_relative_path
sanitize_paths env redactions [] = done []
sanitize_paths env redactions (path ∷ paths) = do
  let normalized = env.clean_slashes path
  _ ← require (not (invalid_relative_path env path normalized)) checkpoint_invalid
  rest ← sanitize_paths env redactions paths
  done ((if contains redactions normalized then redacted_value else normalized) ∷ rest)

unfoldable pub normalized_redactions : Environment → List String → List String
normalized_redactions env values = map env.clean_slashes values

unfoldable pub user_field : Environment → String → Evidence String
user_field env value =
    if env.trim_space value == ""
    then record { value = value; provenance = "unknown"; completeness = "unknown" }
    else record { value = value; provenance = "user-confirmed"; completeness = "complete" }

abbrev pub unknown_list : {A : Type 0} → Evidence (List A)
unknown_list = record { value = []; provenance = "unknown"; completeness = "unknown" }

unfoldable pub user_values : List String → Evidence (List String)
user_values [] = unknown_list
user_values (v ∷ vs) = record {
  value = v ∷ vs;
  provenance = "user-confirmed";
  completeness = "complete";
}

abbrev pub or_unknown : String → String
or_unknown s = if s == "" then "unknown" else s

-- One result of a validation, as validationField keeps it, and whether it is complete.
unfoldable pub validation_entry :
    Environment → String → List String → ValidationEvidence → ValidationEvidence
validation_entry env home redactions v = record v {
  command = sanitize_text env home redactions v.command;
  source = sanitize_text env home redactions (or_unknown v.source);
  freshness = or_unknown v.freshness;
}

unfoldable pub is_partial : ValidationEvidence → Bool
is_partial v =
    is_none v.timestamp
    || is_none v.exit_status
    || v.source == ""
    || v.source == "unknown"
    || v.freshness == ""
    || v.freshness == "unknown"

unfoldable pub validation_list :
    Environment
    → String
    → List String
    → List ValidationEvidence
    → Evidence (List ValidationEvidence)
unfolding validation_entry is_partial
validation_list env home redactions [] = unknown_list
validation_list env home redactions (v ∷ vs) = record {
  value = map (validation_entry env home redactions) (v ∷ vs);
  provenance = "user-confirmed";
  completeness = if any is_partial (v ∷ vs) then "partial" else "complete";
}

unfoldable pub sanitize_field :
    Environment → String → List String → Evidence String → Outcome (Evidence String)
unfolding invalid_text user_field
sanitize_field env home redactions field = do
  _ ← require (not (invalid_text env field.value)) checkpoint_invalid
  done (user_field env (sanitize_text env home redactions field.value))

unfoldable pub sanitize_fields :
    Environment → String → List String → CheckpointFields → Outcome CheckpointFields
unfolding sanitize_field validation_list invalid_validation
sanitize_fields env home redactions fields = do
  goal ← sanitize_field env home redactions fields.goal
  completed_work ← sanitize_field env home redactions fields.completed_work
  pending_work ← sanitize_field env home redactions fields.pending_work
  risks ← sanitize_field env home redactions fields.risks
  next_action ← sanitize_field env home redactions fields.next_action
  _ ← require (not (any (invalid_validation env) fields.validation.value)) checkpoint_invalid
  done (record {
    goal = goal;
    completed_work = completed_work;
    pending_work = pending_work;
    validation = validation_list env home redactions fields.validation.value;
    risks = risks;
    next_action = next_action;
  })
