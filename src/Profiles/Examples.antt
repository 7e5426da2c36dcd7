-- ===== src/Profiles/Examples.antt =====
-- Two profiles, of which the selected one is removed (internal/store/profile_lifecycle.go,
-- internal/profile/lifecycle.go).
use codex_folio.Base.{
  done, fails, ◌≡◌, ◌⊎◌, refl, ℕ, ◌+◌, ◌*◌, hour, Bool, true, false, String, [], ◌∷◌, none, some,
  ◌==◌, string_eq, is_some, before, if◌then◌else◌,
}
use codex_folio.Launch.Prepare.{validate_alias, valid_bytes, valid_rest, is_alphanumeric}
use codex_folio.Profiles.Records.{
  Statement, Identity, Tables, Environment, Outcome, RemovalRecord, profile_not_found,
  quarantine_expired, quarantine_period, find_identity, is_active, is_set_aside,
  populate_identity_home_path, get_identity_profile, get_profile, get_quarantined_profile,
}
use codex_folio.Profiles.Removal.{
  has_live, is_text, put_quarantine, reselect, quarantine_row, take_out, remove_item,
  begin_or_continue, begin_profile_removal, complete_profile_quarantine, cancel_profile_removal,
  restore_profile,
}
use codex_folio.Profiles.Lifecycle.{Homes, is_deregistered, after_begin, remove}
use codex_folio.Profiles.Invariant.{IsFolding, distinct, has_profile}
use codex_folio.Profiles.Traces.{Reachable, initial, next, begins, quarantine_isolated}
use codex_folio.Profiles.Undo.{cancel_undoes_removal, remove_all_or_nothing}
use codex_folio.Profiles.Return.{restore_undoes_removal}

abbrev texts : ℕ → codex_folio.Launch.Records.Environment
texts now = record {
  works = λ s. true;
  now = now;
  new_lease = some "lease";
  new_launch = some "launch";
  has_vault = true;
  is_dir = λ s. true;
  is_abs = λ s. true;
  clean = λ s. s;
  trim_space = λ s. s;
  bytes = λ s. 97 ∷ [];
  same_alias = λ a b. a == b;
  ended_before = λ a b. false;
}

abbrev world : ℕ → Environment
world now = record { works = λ s. true; texts = texts now; equal_fold = λ a b. a == b }

abbrev identity : String → String → Identity
identity id alias = record {
  profile_id = id;
  alias = some alias;
  is_ready = true;
  home_id = some "home";
  ownership = some "managed";
  has_ciphertext = true;
  home = some "/home";
}

-- "work" is selected.
abbrev before_removal : Tables
before_removal = record {
  profiles = identity "a" "work" ∷ identity "b" "play" ∷ [];
  quarantine = λ id. none;
  selected = some "a";
  launches = [];
  checkpoints = λ id. none;
}

abbrev nothing : Tables
nothing = record before_removal { profiles = [] }

abbrev no_record : RemovalRecord
no_record = record {
  item = record { profile_id = ""; ownership = ""; home_path = "" };
  action = codex_folio.Profiles.Records.no_action;
  state = none;
  quarantined_at = 0;
  purge_after = 0;
}

abbrev pair_of : Outcome (RemovalRecord × Tables) → RemovalRecord × Tables
pair_of (done p) = p
pair_of (fails e) = (no_record, nothing)

abbrev record_of : Outcome RemovalRecord → RemovalRecord
record_of (done r) = r
record_of (fails e) = no_record

abbrev begun : RemovalRecord × Tables
begun = pair_of (begin_profile_removal (world hour) "work" "play" before_removal)

work_begun :
    begin_profile_removal (world hour) "work" "play" before_removal ≡ done (begun.0, begun.1)
unfolding begin_profile_removal begin_or_continue validate_alias valid_bytes valid_rest
    is_alphanumeric get_quarantined_profile find_identity is_set_aside get_profile is_active
    get_identity_profile populate_identity_home_path remove_item has_live reselect take_out
    put_quarantine quarantine_row
work_begun = refl

not_aside : get_quarantined_profile (world hour) "work" before_removal ≡ fails profile_not_found
unfolding validate_alias valid_bytes valid_rest is_alphanumeric get_quarantined_profile
    find_identity is_set_aside
not_aside = refl

managed : is_deregistered begun.0.action ≡ false
unfolding begin_profile_removal begin_or_continue validate_alias valid_bytes valid_rest
    is_alphanumeric get_quarantined_profile find_identity is_set_aside get_profile is_active
    get_identity_profile populate_identity_home_path remove_item has_live reselect take_out
    put_quarantine quarantine_row
managed = refl

work_aside : is_some (begun.1.quarantine "a") ≡ true
unfolding begin_profile_removal begin_or_continue validate_alias valid_bytes valid_rest
    is_alphanumeric get_quarantined_profile find_identity is_set_aside get_profile is_active
    get_identity_profile populate_identity_home_path remove_item has_live reselect take_out
    put_quarantine quarantine_row
work_aside = refl

folds : IsFolding (world hour)
folds = record { fold = λ s. s; same = λ a b. refl; wider = λ a b h. h }

begun_reached : Reachable IsFolding begun.1
unfolding distinct has_profile
begun_reached =
    next before_removal begun.1
      (initial before_removal (record { ids = refl; none_aside = λ id. refl }))
      (begins (world hour) "work" "play" begun.0 before_removal begun.1 folds work_begun)

quarantine_isolated_example :
    (has_live "a" begun.1.launches ≡ false) × (is_text "a" begun.1.selected ≡ false)
quarantine_isolated_example = quarantine_isolated begun.1 "a" begun_reached work_aside

cancel_undoes_removal_example :
    cancel_profile_removal (world (2 * hour)) begun.0.item.profile_id begun.1 ≡ done before_removal
cancel_undoes_removal_example =
    cancel_undoes_removal (world hour) (world (2 * hour)) "work" "play" begun.0 before_removal
      begun.1 (λ s. refl) not_aside work_begun managed

abbrev homes : Bool → Homes
homes moves = record {
  quarantine = λ id path. moves;
  restore = λ id path. true;
  purge = λ id. true;
}

abbrev worlds : ℕ → Environment
worlds i = world hour

remove_all_or_nothing_example :
    ((r : RemovalRecord) × ((remove worlds (homes false) "work" "play" before_removal).0 ≡ done r)
      × (is_deregistered r.action ≡ true))
    ⊎ ((remove worlds (homes false) "work" "play" before_removal).1 ≡ before_removal)
remove_all_or_nothing_example =
    remove_all_or_nothing worlds (homes false) "work" "play" before_removal (λ s. refl)
      (λ id path. refl) not_aside

abbrev taken : RemovalRecord
taken = record_of (remove worlds (homes true) "work" "play" before_removal).0

abbrev left : Tables
left = (remove worlds (homes true) "work" "play" before_removal).1

work_removed : remove worlds (homes true) "work" "play" before_removal ≡ (done taken, left)
unfolding remove after_begin complete_profile_quarantine begin_profile_removal begin_or_continue
    validate_alias valid_bytes valid_rest is_alphanumeric get_quarantined_profile find_identity
    is_set_aside get_profile is_active get_identity_profile populate_identity_home_path remove_item
    has_live reselect take_out put_quarantine quarantine_row
work_removed = refl

taken_managed : is_deregistered taken.action ≡ false
unfolding remove after_begin complete_profile_quarantine begin_profile_removal begin_or_continue
    validate_alias valid_bytes valid_rest is_alphanumeric get_quarantined_profile find_identity
    is_set_aside get_profile is_active get_identity_profile populate_identity_home_path remove_item
    has_live reselect take_out put_quarantine quarantine_row
taken_managed = refl

restore_undoes_removal_example : restore_profile (world (2 * hour)) taken.item.profile_id left ≡ (
    if before (2 * hour) (hour + quarantine_period)
    then done (record before_removal { selected = left.selected })
    else fails quarantine_expired)
restore_undoes_removal_example =
    restore_undoes_removal worlds (world (2 * hour)) (homes true) "work" "play" taken before_removal
      left (λ s. refl) not_aside work_removed taken_managed
