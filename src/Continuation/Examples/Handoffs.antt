-- ===== src/Continuation/Examples/Handoffs.antt =====
-- A concrete handoff of a checkpoint (internal/continuation/checkpoint.go,
-- internal/store/continuation.go).
use mathlib.Core.Int.{pos}
use codex_folio.Base.{
  done, ◌≡◌, refl, true, false, String, [], Option, none, some, ◌==◌, string_eq, Bool-cases, inl,
  inr, is_some, subst,
}
use codex_folio.Launch.Records.{
  Launch, Profile, Status, approved, is_approved, launching, Environment as LaunchEnvironment,
  update_checkpoint_status,
}
use codex_folio.Launch.Prepare.{PrepareRequest, definitive_source_launch, claim, has_run}
use codex_folio.Continuation.Records.{Checkpoint, RepositoryInventory}
use codex_folio.Continuation.Store.{
  load_checkpoint, latest_source_launch, unresolved, latest_exited, source_exited,
}
use codex_folio.Continuation.Source.{latest_source_launch-agrees}
use codex_folio.Continuation.Soundness.{claimed}
use codex_folio.Continuation.Handoff.{IsShared, continuing, prepare_handoff-claims}
use codex_folio.Continuation.Text.{invalid_text}
use codex_folio.Continuation.Capture.{
  Workspace, PreparedHandoff, prepare_handoff, is_ready, is_exited_source,
}
use codex_folio.Continuation.Examples.{shown, env, table}

abbrev inventory : RepositoryInventory
inventory = record {
  branch = "main";
  head = "abc";
  upstream = none;
  staged = [];
  modified = [];
  untracked = [];
  diff = record {
    files_changed = pos 0;
    insertions = pos 0;
    deletions = pos 0;
    binary_files = pos 0;
  };
  configured_commands = [];
}

-- The handoff to the profile "b".
abbrev workspace : Workspace
workspace = record {
  resolve = λ path alias. done (shown.project);
  canonical_location = λ id. done "/work";
  inspect = λ path. some inventory;
}

abbrev handed : PreparedHandoff
handed = record {
  checkpoint_id = "c1";
  revision = "digest";
  project_id = "project";
  source_profile_id = "a";
  working_directory = "/work";
  context = "text";
}

handoff_run : prepare_handoff env workspace "c1" "digest" "b" (table approved) ≡ done handed
unfolding prepare_handoff load_checkpoint is_ready latest_source_launch unresolved latest_exited
    has_run invalid_text
handoff_run = refl

abbrev handoff_env : LaunchEnvironment
handoff_env = record {
  works = λ s. true;
  now = 100;
  new_lease = some "lease2";
  new_launch = some "launch2";
  has_vault = true;
  is_dir = λ p. true;
  is_abs = λ p. true;
  clean = λ p. p;
  trim_space = λ s. s;
  bytes = λ s. [];
  same_alias = λ a b. a == b;
  ended_before = λ a b. false;
}

abbrev target : Profile
target = record {
  profile_id = "b";
  alias = "b";
  is_ready = true;
  quarantined = false;
  home_id = some "h";
  ownership = some "managed";
  has_ciphertext = true;
  home = some "/home";
}

abbrev request : PrepareRequest
request = record {
  alias = "b";
  executable = "/bin/codex";
  working_directory = "/work";
  arguments = [];
  project_id = "";
  expected_session_id = "";
  checkpoint_id = "";
  checkpoint_revision = "";
  source_profile_id = "";
  boot_session_id = "boot";
}

some-injective : {A : Type 0} {a b : A} → ◌≡◌ {A = Option A} (some a) (some b) → a ≡ b
some-injective h = cc

source_run :
    latest_source_launch env "project" (table approved)
    ≡ done (record { profile_id = "a"; state = source_exited })
unfolding latest_source_launch unresolved latest_exited has_run
source_run = refl

decodes_shown :
    (m : String) (c : Checkpoint)
    → env.unmarshal m ≡ some c
    → env.unmarshal_claim m ≡ some (c.status, c.revision)
decodes_shown m c h = elim (Bool-cases (m == "")) [
  | inl e ↦ absurd (let x = (rw e at h) in cc)
  | inr e ↦
      let same : shown ≡ c = (let x = (rw e at h) in some-injective x) in
      subst
        (λ k.
          ◌≡◌ {A = Option (Status × String)} (some (approved, "digest"))
            (some (k.status, k.revision)))
        same refl
]

shared : IsShared env handoff_env
shared = record {
  no_text = refl;
  decodes = λ m c h. decodes_shown m c h;
  same_now = refl;
  same_order = λ a b. refl;
  works = λ s. refl;
}

prepare_handoff-claims_example :
    claim handoff_env (continuing request handed) target (claimed env [] (table approved))
    ≡ done (record (claimed env [] (table approved)) {
      checkpoints =
          update_checkpoint_status "c1" is_approved launching
            (claimed env [] (table approved)).checkpoints;
    })
prepare_handoff-claims_example =
    prepare_handoff-claims env handoff_env workspace "c1" "digest" target [] (table approved) handed
      request shared refl handoff_run

latest_source_launch-agrees_example :
    (is_exited_source source_exited
      ≡ is_some (definitive_source_launch handoff_env "project" (table approved).launches))
    × ((l : Launch)
        → definitive_source_launch handoff_env "project" (table approved).launches ≡ some l
        → l.profile_id ≡ "a")
latest_source_launch-agrees_example =
    latest_source_launch-agrees env handoff_env "project" (λ a b. refl) (table approved)
      (record { profile_id = "a"; state = source_exited }) source_run
