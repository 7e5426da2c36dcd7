-- ===== src/Continuation/Retention.antt =====
-- internal/continuation/retention.go, and internal/store/retention.go: how long a checkpoint stays.
use codex_folio.Base.{
  done, fails, ◌>>=◌, require, require_some, ℕ, ◌||◌, not, String, Option, none, some, Time,
  if◌then◌else◌, ◌==◌, string_eq, ltb,
}
use codex_folio.Continuation.Records.{
  Environment, Outcome, checkpoint_invalid, read_failed, write_failed, repository_first,
  transcript_assisted, read_settings, put_row,
}

abbrev pub default_repository_retention : String
default_repository_retention = "30"

abbrev pub default_transcript_retention : String
default_transcript_retention = "7"

pub record RetentionPolicy : Type 0 where
  pub repository_first : String
  pub transcript_assisted : String

-- ParseRetention: none for an unlimited retention.
unfoldable pub parse_retention : Environment → String → Outcome (Option ℕ)
parse_retention env setting =
    if setting == "unlimited"
    then done none
    else require_some (env.atoi setting) checkpoint_invalid >>= λ days.
        require (not (ltb days 1 || ltb 3_652_059 days)) checkpoint_invalid >>= λ _.
        done (some days)

abbrev pub stored_setting : RetentionPolicy → String → Outcome (String × String)
stored_setting policy source =
    if source == transcript_assisted
    then done (policy.transcript_assisted, default_transcript_retention)
    else if source == repository_first
    then done (policy.repository_first, default_repository_retention)
    else fails checkpoint_invalid

-- RetentionPolicy.setting
unfoldable pub policy_setting : Environment → RetentionPolicy → String → Outcome String
unfolding parse_retention
policy_setting env policy source = do
  stored ← stored_setting policy source
  let setting = if stored.0 == "" then stored.1 else stored.0
  _ ← parse_retention env setting
  done setting

unfoldable pub expiry_after : Environment → Time → Option ℕ → Outcome (Option Time)
expiry_after env created none = done none
expiry_after env created (some days) = do
  _ ← require (not (ltb 9999 (env.year (env.add_days created days)))) checkpoint_invalid
  done (some (env.add_days created days))

-- retentionExpiry
unfoldable pub retention_expiry : Environment → Time → String → Outcome (Option Time)
unfolding parse_retention expiry_after
retention_expiry env created setting = parse_retention env setting >>= expiry_after env created

-- A row of settings: for each source a mode, and the days where the mode is not unlimited.
pub record Mode : Type 0 where
  pub mode : String
  pub days : Option ℕ

pub record Settings : Type 0 where
  pub repository : Mode
  pub transcript : Mode

abbrev pub number_or_zero : Option ℕ → ℕ
number_or_zero none = 0
number_or_zero (some n) = n

-- checkpointRetentionSetting
unfoldable pub mode_setting : Environment → Mode → String
mode_setting env m = if m.mode == "unlimited" then "unlimited" else env.itoa (number_or_zero m.days)

abbrev pub settings_policy : Environment → Settings → RetentionPolicy
settings_policy env s = record {
  repository_first = mode_setting env s.repository;
  transcript_assisted = mode_setting env s.transcript;
}

abbrev pub policy_of : Environment → Option Settings → RetentionPolicy
policy_of env none = record {
  repository_first = default_repository_retention;
  transcript_assisted = default_transcript_retention;
}
policy_of env (some s) = settings_policy env s

-- CheckpointRetention
unfoldable pub checkpoint_retention : Environment → Option Settings → Outcome RetentionPolicy
checkpoint_retention env row = do
  _ ← require (env.works read_settings) read_failed
  done (policy_of env row)

abbrev pub mode_of : Option ℕ → Mode
mode_of none = record { mode = "unlimited"; days = none }
mode_of (some n) = record { mode = "days"; days = some n }

-- The columns of a new row that the statement leaves out have their defaults.
abbrev pub default_settings : Settings
default_settings = record {
  repository = record { mode = "days"; days = some 30 };
  transcript = record { mode = "days"; days = some 7 };
}

abbrev pub settings_or_default : Option Settings → Settings
settings_or_default none = default_settings
settings_or_default (some s) = s

abbrev pub with_mode : String → Mode → Settings → Settings
with_mode source m s =
    if source == transcript_assisted
    then record s { transcript = m }
    else record s { repository = m }

-- SetCheckpointRetention: the write, and the settings that are read back.
unfoldable pub write_retention : Environment → String → String → Option Settings → Outcome Settings
unfolding parse_retention
write_retention env source setting row = do
  days ← parse_retention env setting
  _ ← require (source == repository_first || source == transcript_assisted) checkpoint_invalid
  _ ← require (env.works put_row) write_failed
  done (with_mode source (mode_of days) (settings_or_default row))

abbrev pub read_back :
    Environment → Outcome Settings → Option Settings → Outcome RetentionPolicy × Option Settings
read_back env (fails e) row = (fails e, row)
read_back env (done s) row =
    (require (env.works read_settings) read_failed >>= λ _. done (settings_policy env s), some s)

unfoldable pub set_checkpoint_retention :
    Environment → String → String → Option Settings → Outcome RetentionPolicy × Option Settings
unfolding write_retention
set_checkpoint_retention env source setting row =
    read_back env (write_retention env source setting row) row
