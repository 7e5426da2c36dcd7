-- ===== src/Launch/Examples.antt =====
-- A concrete handoff (internal/store/launches.go): one profile runs and exits, and another takes its
-- checkpoint over.
use codex_folio.Base.{
  done, fails, ◌+◌, ◌*◌, ◌≡◌, ◌≤◌, refl, Bool, true, false, String, [], ◌∷◌, Option, none, some,
  ◌==◌, string_eq, eqb, arith, hour, if◌then◌else◌,
}
use codex_folio.Launch.Records.{
  approved, Checkpoint, Profile, Tables, Outcome, Environment, is_pending, is_approved,
  is_launching, has_status, find_launch, update_launches, affected_launches, nullable_string,
  update_checkpoint_status, affects_checkpoint,
}
use codex_folio.Launch.Prepare.{
  PrepareRequest, Plan, prepare_launch, validate_alias, valid_bytes, valid_rest, is_alphanumeric,
  valid_path, find_profile, valid_home, find_home, has_run, all_exited, newest,
  definitive_source_launch, unexpired, claim, claim_if_named, new_row, insert_row, record_launch,
}
use codex_folio.Launch.Marks.{
  mark_started_row, mark_exited_row, complete_checkpoint, mark_managed_launch_started,
  mark_managed_launch_exited, valid_process_status, Inspector, mark_abandoned_row,
  reconcile_managed_launches, left_launches, is_left, is_left_pending, is_left_running,
  abandon_left, abandon_all, release_left, release_checkpoint, abandon_launch,
}
use codex_folio.Launch.Counts.{count}
use codex_folio.Launch.Invariant.{claims, started}
use codex_folio.Launch.Handoff.{prepare_launch-claims}
use codex_folio.Launch.Traces.{
  prepares, starts, exits, Reachable, initial, next, handoff_once, start_accepted,
}

abbrev world : String → Environment
world lease = record {
  works = λ s. true;
  now = 1000 * hour;
  new_lease = some lease;
  new_launch = some lease;
  has_vault = true;
  is_dir = λ p. true;
  is_abs = λ p. true;
  clean = λ p. p;
  trim_space = λ s. s;
  bytes = λ s. 97 ∷ [];
  same_alias = λ a b. a == b;
  ended_before = λ a b. false;
}

abbrev profile : String → Profile
profile id = record {
  profile_id = id;
  alias = id;
  is_ready = true;
  quarantined = false;
  home_id = some id;
  ownership = some "managed";
  has_ciphertext = true;
  home = some "/home";
}

abbrev checkpoint : Checkpoint
checkpoint = record {
  status = approved;
  project_id = "project";
  expires_at = none;
  metadata = some (some (approved, "r1"));
}

abbrev checkpoints : String → Option Checkpoint
checkpoints id = if id == "checkpoint" then some checkpoint else none

abbrev start : Tables
start = record {
  profiles = profile "a" ∷ profile "b" ∷ [];
  launches = [];
  checkpoints = checkpoints;
}

abbrev plain_request : PrepareRequest
plain_request = record {
  alias = "a";
  executable = "/bin/codex";
  working_directory = "/work";
  arguments = [];
  project_id = "project";
  expected_session_id = "";
  checkpoint_id = "";
  checkpoint_revision = "";
  source_profile_id = "";
  boot_session_id = "";
}

abbrev handoff_request : PrepareRequest
handoff_request = record plain_request {
  alias = "b";
  checkpoint_id = "checkpoint";
  checkpoint_revision = "r1";
  source_profile_id = "a";
  boot_session_id = "boot";
}

abbrev no_plan : Plan
no_plan = record {
  lease_id = "";
  executable = "";
  working_directory = "";
  arguments = [];
  codex_home = "";
}

abbrev prepared : Outcome (Plan × Tables) → Plan × Tables
prepared (done pt) = pt
prepared (fails e) = (no_plan, start)

abbrev marked : Outcome Tables → Tables
marked (done t) = t
marked (fails e) = start

abbrev first : Plan × Tables
first = prepared (prepare_launch (world "l1") plain_request start)

abbrev running_first : Tables
running_first = marked (mark_managed_launch_started (world "") "l1" 7 first.1)

abbrev exited_first : Tables
exited_first = marked (mark_managed_launch_exited (world "") "l1" 0 running_first)

abbrev second : Plan × Tables
second = prepared (prepare_launch (world "l2") handoff_request exited_first)

first_prepared : prepare_launch (world "l1") plain_request start ≡ done first
unfolding prepare_launch validate_alias valid_bytes valid_rest is_alphanumeric valid_path
    find_profile find_home valid_home record_launch claim_if_named insert_row new_row
    nullable_string find_launch
first_prepared = refl

first_started : mark_managed_launch_started (world "") "l1" 7 first.1 ≡ done running_first
unfolding prepare_launch validate_alias valid_bytes valid_rest is_alphanumeric valid_path
    find_profile find_home valid_home record_launch claim_if_named insert_row new_row
    nullable_string find_launch mark_managed_launch_started affected_launches complete_checkpoint
    update_launches mark_started_row
first_started = refl

first_exited : mark_managed_launch_exited (world "") "l1" 0 running_first ≡ done exited_first
unfolding prepare_launch validate_alias valid_bytes valid_rest is_alphanumeric valid_path
    find_profile find_home valid_home record_launch claim_if_named insert_row new_row
    nullable_string find_launch mark_managed_launch_started affected_launches complete_checkpoint
    update_launches mark_started_row mark_managed_launch_exited valid_process_status mark_exited_row
first_exited = refl

second_prepared : prepare_launch (world "l2") handoff_request exited_first ≡ done second
unfolding prepare_launch validate_alias valid_bytes valid_rest is_alphanumeric valid_path
    find_profile find_home valid_home record_launch claim_if_named insert_row new_row
    nullable_string find_launch mark_managed_launch_started affected_launches complete_checkpoint
    update_launches mark_started_row mark_managed_launch_exited valid_process_status mark_exited_row
    claim definitive_source_launch all_exited has_run newest unexpired affects_checkpoint
    update_checkpoint_status
second_prepared = refl

second_found :
    find_launch "l2" is_pending second.1.launches
    ≡ some (new_row (world "l2") handoff_request (profile "b") "l2")
unfolding prepare_launch validate_alias valid_bytes valid_rest is_alphanumeric valid_path
    find_profile find_home valid_home record_launch claim_if_named insert_row new_row
    nullable_string find_launch mark_managed_launch_started affected_launches complete_checkpoint
    update_launches mark_started_row mark_managed_launch_exited valid_process_status mark_exited_row
    claim definitive_source_launch all_exited has_run newest unexpired affects_checkpoint
    update_checkpoint_status
second_found = refl

not_launching : (b : Bool) → has_status is_launching (if b then some checkpoint else none) ≡ false
not_launching true = refl
not_launching false = refl

second_reached : Reachable second.1
second_reached =
    next exited_first second.1
      (next running_first exited_first
        (next first.1 running_first
          (next start first.1
            (initial start (record {
              no_launches = refl;
              none_launching = λ c. not_launching (c == "checkpoint");
            }))
            (prepares (world "l1") plain_request first.0 start first.1 first_prepared))
          (starts (world "") "l1" 7 first.1 running_first first_started))
        (exits (world "") "l1" 0 running_first exited_first first_exited))
      (prepares (world "l2") handoff_request second.0 exited_first second.1 second_prepared)

handoff_once_example :
    (count (claims "checkpoint") second.1.launches + count (started "checkpoint") second.1.launches
      ≤ 1)
    × (has_status is_launching (second.1.checkpoints "checkpoint")
        ≡ eqb (count (claims "checkpoint") second.1.launches) 1)
handoff_once_example = handoff_once second.1 "checkpoint" second_reached

start_accepted_example :
    (t : Tables) × (mark_managed_launch_started (world "") "l2" 8 second.1 ≡ done t)
start_accepted_example =
    start_accepted (world "") "l2" 8 second.1
      (new_row (world "l2") handoff_request (profile "b") "l2") second_reached (λ s. refl) refl
      (omega arith) second_found

prepare_launch-claims_example :
    (has_status is_approved (exited_first.checkpoints "checkpoint") ≡ true)
    × (has_status is_launching (second.1.checkpoints "checkpoint") ≡ true)
    × (all_exited "project" exited_first.launches ≡ true)
prepare_launch-claims_example =
    prepare_launch-claims (world "l2") handoff_request exited_first second.0 second.1 refl
      second_prepared

-- After a reboot the pending launch is given up.
abbrev inspector : Inspector
inspector = record { is_process_running = λ pid. some true; boot_session_id = some "later" }

abbrev reconciled : Tables
reconciled = marked (reconcile_managed_launches (world "") (some inspector) second.1)

second_reconciled :
    reconcile_managed_launches (world "") (some inspector) second.1 ≡ done reconciled
unfolding prepare_launch validate_alias valid_bytes valid_rest is_alphanumeric valid_path
    find_profile find_home valid_home record_launch claim_if_named insert_row new_row
    nullable_string find_launch mark_managed_launch_started affected_launches complete_checkpoint
    update_launches mark_started_row mark_managed_launch_exited valid_process_status mark_exited_row
    claim definitive_source_launch all_exited has_run newest unexpired affects_checkpoint
    update_checkpoint_status reconcile_managed_launches left_launches is_left is_left_pending
    is_left_running abandon_left abandon_all release_left release_checkpoint abandon_launch
    mark_abandoned_row
second_reconciled = refl

released : has_status is_approved (reconciled.checkpoints "checkpoint") ≡ true
unfolding prepare_launch validate_alias valid_bytes valid_rest is_alphanumeric valid_path
    find_profile find_home valid_home record_launch claim_if_named insert_row new_row
    nullable_string find_launch mark_managed_launch_started affected_launches complete_checkpoint
    update_launches mark_started_row mark_managed_launch_exited valid_process_status mark_exited_row
    claim definitive_source_launch all_exited has_run newest unexpired affects_checkpoint
    update_checkpoint_status reconcile_managed_launches left_launches is_left is_left_pending
    is_left_running abandon_left abandon_all release_left release_checkpoint abandon_launch
    mark_abandoned_row
released = refl
