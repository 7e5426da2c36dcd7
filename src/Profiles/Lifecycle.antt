-- ===== src/Profiles/Lifecycle.antt =====
-- internal/profile/lifecycle.go: Remove, Restore and Purge, which work on the home of a profile and
-- on the store. The answers of the homes are parameters.
use codex_folio.Base.{
  done, fails, ◌>>=◌, require, ℕ, Bool, true, false, String, Option, none, some, Time, before,
  if◌then◌else◌,
}
use codex_folio.Profiles.Records.{
  QuarantineState, prepared, quarantined, Tables, quarantine_invalid, quarantine_expired,
  home_failed, Outcome, Environment, RemovalAction, no_action, deregistered, to_quarantine,
  restored, purged, RemovalRecord, get_quarantined_profile,
}
use codex_folio.Profiles.Removal.{
  begin_profile_removal, complete_profile_quarantine, cancel_profile_removal, restore_profile,
  purge_profile,
}

-- HomeLifecycle: whether the homes can be moved away, moved back and deleted.
pub record Homes : Type 0 where
  pub quarantine : String → String → Bool
  pub restore : String → String → Bool
  pub purge : String → Bool

abbrev pub is_deregistered : RemovalAction → Bool
is_deregistered deregistered = true
is_deregistered no_action = false
is_deregistered to_quarantine = false
is_deregistered restored = false
is_deregistered purged = false

abbrev is_ready : Option QuarantineState → Bool
is_ready none = false
is_ready (some prepared) = false
is_ready (some quarantined) = true

-- The tables after an operation.
abbrev pub kept : Tables → Outcome Tables → Tables
kept t (done t') = t'
kept t (fails e) = t

-- The answer to a call, with the tables that it leaves.
abbrev pub finish : RemovalRecord → Tables → Outcome Tables → Outcome RemovalRecord × Tables
finish r t (done t') = (done r, t')
finish r t (fails e) = (fails e, t)

-- `env i` is what the store answers to the i-th call.
module _ (env : ℕ → Environment) (homes : Homes) where
  unfoldable pub after_begin :
      Tables → Outcome (RemovalRecord × Tables) → Outcome RemovalRecord × Tables
  after_begin t (fails e) = (fails e, t)
  after_begin t (done (r, t')) =
      if is_deregistered r.action
      then (done r, t')
      else if homes.quarantine r.item.profile_id r.item.home_path
      then finish (record r { state = some quarantined }) t'
          (complete_profile_quarantine (env 1) r.item.profile_id t')
      else (fails home_failed, kept t' (cancel_profile_removal (env 1) r.item.profile_id t'))

  unfoldable pub remove : String → String → Tables → Outcome RemovalRecord × Tables
  unfolding after_begin
  remove alias replacement t = after_begin t (begin_profile_removal (env 0) alias replacement t)

  -- The record of a profile whose quarantine is complete.
  unfoldable pub ready_record : String → Tables → Outcome RemovalRecord
  ready_record alias t = do
    r ← get_quarantined_profile (env 0) alias t
    _ ← require (is_ready r.state) quarantine_invalid
    done r

  unfoldable pub restorable_record : String → Time → Tables → Outcome RemovalRecord
  unfolding ready_record
  restorable_record alias now t = do
    r ← ready_record alias t
    _ ← require (before now r.purge_after) quarantine_expired
    _ ← require (homes.restore r.item.profile_id r.item.home_path) home_failed
    done r

  unfoldable pub after_restore : Tables → Outcome RemovalRecord → Outcome RemovalRecord × Tables
  after_restore t (fails e) = (fails e, t)
  after_restore t (done r) =
      finish (record r { action = restored; state = none }) t
        (restore_profile (env 1) r.item.profile_id t)

  unfoldable pub restore : String → Time → Tables → Outcome RemovalRecord × Tables
  unfolding restorable_record after_restore
  restore alias now t = after_restore t (restorable_record alias now t)

  unfoldable pub purgeable_record : String → Tables → Outcome RemovalRecord
  unfolding ready_record
  purgeable_record alias t = do
    r ← ready_record alias t
    _ ← require (homes.purge r.item.profile_id) home_failed
    done r

  unfoldable pub after_purge : Tables → Outcome RemovalRecord → Outcome RemovalRecord × Tables
  after_purge t (fails e) = (fails e, t)
  after_purge t (done r) =
      finish (record r { action = purged; state = none }) t
        (purge_profile (env 1) r.item.profile_id t)

  unfoldable pub purge : String → Tables → Outcome RemovalRecord × Tables
  unfolding purgeable_record after_purge
  purge alias t = after_purge t (purgeable_record alias t)
