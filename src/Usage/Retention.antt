-- ===== src/Usage/Retention.antt =====
-- internal/usage/retention.go: ParseRetention and Retention.String. `atoi` is strconv.Atoi, with
-- none for its error, and `itoa` strconv.Itoa.
use codex_folio.Base.{
  ℕ, ◌≤◌, ◌≡◌, ◌≢◌, ◌⊎◌, refl, sym, subst, inl, inr, Bool, true, false, ◌&&◌, ◌||◌, not, String,
  Option, none, some, ◌==◌, string_eq, ltb, eqb, arith, if◌then◌else◌, Bool-cases,
}
use codex_folio.Usage.Schedule.Backoff.{Int64, pos, neg}
pub mod RoundTrip

abbrev pub default_retention : String
default_retention = "13-months"

pub record Retention : Type 0 where
  pub days : ℕ
  pub unlimited : Bool

-- The days that a text may ask for; none is ErrInvalid.
unfoldable pub days_of : Option Int64 → Option Retention
days_of none = none
days_of (some (neg n)) = none
days_of (some (pos days)) =
    if ltb days 30 || ltb 3652059 days
    then none
    else some (record { days = days; unlimited = false })

module _ (atoi : String → Option Int64) (itoa : ℕ → String) where
  unfoldable pub parse_retention : String → Option Retention
  unfolding days_of
  parse_retention setting =
      if setting == default_retention
      then some (record { days = 0; unlimited = false })
      else if setting == "unlimited"
      then some (record { days = 0; unlimited = true })
      else days_of (atoi setting)

  unfoldable pub print_retention : Retention → String
  print_retention policy =
      if policy.unlimited
      then "unlimited"
      else if eqb policy.days 0
      then default_retention
      else itoa policy.days
