-- ===== src/Usage/Schedule/Tick.antt =====
-- One tick of the scheduler: internal/usage/scheduler.go, Scheduler.Tick.
-- The store and the refresher are outside; what they are asked is the log of calls, newest first,
-- and what they answer may depend on the log. The receiver and its parts are not nil.
pub mod Bounds
pub mod Spacing
pub mod Visits
pub mod Advance
use codex_folio.Base.{
  ℕ, zero, suc, ◌+◌, ◌%◌, ◌^◌, Bool, true, false, ◌&&◌, ◌||◌, not, List, [], ◌∷◌, Option, none,
  some, String, leb, eqb, Time, Duration, before, is_zero, min, if◌then◌else◌, length, get_elem?,
  is_none,
}
use codex_folio.Usage.Types.{Snapshot}
use codex_folio.Usage.Schedule.{
  ScheduleTarget, ScheduleState, CollectionSettings, Trigger, Outcome, succeeded, interval_of,
  next_scheduled_attempt, target_without_persisted_attempt, validate_collection_settings,
  max_collections_per_tick, max_schedule_targets,
}
use codex_folio.Usage.Schedule.Backoff.{Int64, exponential_backoff, bounded_jitter, shift}

pub data Call : Type 0 where
  refreshed : String → Trigger → Call
  saved : String → ScheduleState → Call

abbrev pub Log : Type 0
Log = List Call

-- Errors: the scheduler's own, one that the store returned, and the panic of an index out of range.
pub data Error : Type 0 where
  schedule_invalid : Error
  store_failed : String → Error
  index_panic : Error

pub data Result (A : Type 0) : Type 0 where
  ok : A → Result A
  err : String → Result A

pub record Environment : Type 0 where
  pub now : Time
  pub collection_settings : Result CollectionSettings
  pub collection_schedule_targets : Result (List ScheduleTarget)
  pub save_collection_schedule_state : Log → String → ScheduleState → Option String
  pub refresh : Log → String → Trigger → Result Snapshot
  pub jitter : Duration → Int64
  -- sort.SliceStable, by the order given.
  pub sort_stable :
      (ScheduleTarget → ScheduleTarget → Bool) → List ScheduleTarget → List ScheduleTarget
  -- The order of texts, `<`.
  pub text_lt : String → String → Bool

pub record TickResult : Type 0 where
  pub collected : ℕ
  pub failed : ℕ
  pub coalesced : Bool

abbrev pub no_result : TickResult
no_result = record { collected = 0; failed = 0; coalesced = false }

pub record Scheduler : Type 0 where
  pub running : Bool
  pub cursor : ℕ  -- uint64

-- The order in which targets are inspected.
unfoldable pub target_less : Environment → ScheduleTarget → ScheduleTarget → Bool
target_less env a b =
    if (a.active && not b.active) || (not a.active && b.active)
    then a.active
    else env.text_lt a.profile.alias b.profile.alias

-- The state that is saved after a refresh: after a failure, and after a success.
unfoldable pub after_failure : Environment → CollectionSettings → ScheduleTarget → ScheduleState
after_failure env s t =
    let failures = suc t.state.consecutive_failures in
    let backoff = exponential_backoff failures s.provider_minimum in
    record {
      last_attempt_at = env.now;
      next_attempt_at = shift (env.now + backoff) (bounded_jitter backoff (env.jitter backoff));
      consecutive_failures = failures;
      last_outcome = Outcome.failed;
    }

unfoldable pub next_after_success :
    Environment → CollectionSettings → ScheduleTarget → Snapshot → Time
next_after_success env s t snapshot =
    let interval = interval_of t s in
    let jitter = bounded_jitter interval (env.jitter interval) in
    let planned =
      (next_scheduled_attempt (target_without_persisted_attempt (record t { latest = snapshot })) s
        env.now).0 in
    if is_zero snapshot.captured_at
    then shift (env.now + interval) jitter
    else if eqb planned (snapshot.captured_at + interval)
    then shift planned jitter
    else planned

unfoldable pub after_success :
    Environment → CollectionSettings → ScheduleTarget → Snapshot → ScheduleState
after_success env s t snapshot = record {
  last_attempt_at = env.now;
  next_attempt_at = next_after_success env s t snapshot;
  consecutive_failures = 0;
  last_outcome = succeeded;
}

pub record Progress : Type 0 where
  pub log : Log
  pub result : TickResult
  pub error : Option Error

-- SaveCollectionScheduleState, which ends the tick where it fails.
unfoldable pub save : Environment → ScheduleTarget → ScheduleState → Log → TickResult → Progress
save env t state log result = record {
  log = saved t.profile.id state ∷ log;
  result = result;
  error = elim (env.save_collection_schedule_state log t.profile.id state) [
    | none ↦ none
    | some e ↦ some (store_failed e)
  ];
}

unfoldable pub collect :
    Environment
    → CollectionSettings
    → ScheduleTarget
    → Log
    → TickResult
    → Result Snapshot
    → Progress
unfolding save after_failure after_success
collect env s t log r (ok snapshot) =
    save env t (after_success env s t snapshot) log (record r { collected = suc r.collected })
collect env s t log r (err e) =
    save env t (after_failure env s t) log
      (record r { collected = suc r.collected; failed = suc r.failed })

-- The body of the loop, for the target at hand.
unfoldable pub inspect :
    Environment → CollectionSettings → ScheduleTarget → Log → TickResult → Progress
inspect env s t log r =
    let next = t.state.next_attempt_at in
    let (due, trigger) = next_scheduled_attempt t s env.now in
    if before env.now due
    then (if is_zero next || not (eqb next due)
        then save env t (record (t.state) { next_attempt_at = due }) log r
        else record { log = log; result = r; error = none })
    else collect env s t (refreshed t.profile.alias trigger ∷ log) r
        (env.refresh log t.profile.alias trigger)

pub record LoopEnd : Type 0 where
  pub inspected : ℕ
  pub log : Log
  pub result : TickResult
  pub error : Option Error

abbrev pub stop : ℕ → Progress → LoopEnd
stop inspected p = record { inspected = inspected; log = p.log; result = p.result; error = p.error }

module _ (env : Environment) (s : CollectionSettings) (targets : List ScheduleTarget)
    (start : ℕ) where
  -- The loop, by the rounds that `inspected < limit` still allows.
  unfoldable pub tick_loop : ℕ → ℕ → Log → TickResult → LoopEnd
  tick_loop zero inspected log r = stop inspected (record { log = log; result = r; error = none })
  tick_loop (suc rounds) inspected log r =
      if leb max_collections_per_tick r.collected
      then stop inspected (record { log = log; result = r; error = none })
      else elim (get_elem? targets ((start + inspected) % length targets)) [
        | none ↦ stop (suc inspected) (record { log = log; result = r; error = some index_panic })
        | some t ↦
            let p = inspect env s t log r in
            let rest = tick_loop rounds (suc inspected) p.log p.result in
            if is_none p.error then rest else stop (suc inspected) p
      ]

unfoldable pub run_tick : Environment → CollectionSettings → List ScheduleTarget → ℕ → LoopEnd
run_tick env s targets cursor =
    let limit = min (length targets) max_schedule_targets in
    let start = if eqb (length targets) 0 then 0 else cursor % length targets in
    tick_loop env s targets start limit 0 [] no_result

pub record TickEnd : Type 0 where
  pub scheduler : Scheduler
  pub log : Log
  pub result : TickResult
  pub error : Option Error

-- Tick returns with an error before the loop.
abbrev give_up : Scheduler → Error → TickEnd
give_up scheduler e = record {
  scheduler = record scheduler { running = false };
  log = [];
  result = no_result;
  error = some e;
}

-- The part of Tick behind the read of the targets, and behind the read of the settings.
unfoldable pub tick_with_targets :
    Environment → Scheduler → CollectionSettings → Result (List ScheduleTarget) → TickEnd
tick_with_targets env scheduler s (err e) = give_up scheduler (store_failed e)
tick_with_targets env scheduler s (ok targets) =
    let end = run_tick env s (env.sort_stable (target_less env) targets) scheduler.cursor in
    record {
      scheduler = record { running = false; cursor = (scheduler.cursor + end.inspected) % 2 ^ 64 };
      log = end.log;
      result = end.result;
      error = end.error;
    }

unfoldable pub tick_with_settings : Environment → Scheduler → Result CollectionSettings → TickEnd
tick_with_settings env scheduler (err e) = give_up scheduler (store_failed e)
tick_with_settings env scheduler (ok s) =
    if validate_collection_settings s
    then tick_with_targets env scheduler s env.collection_schedule_targets
    else give_up scheduler schedule_invalid

unfoldable pub tick : Environment → Scheduler → TickEnd
unfolding tick_with_targets tick_with_settings
tick env scheduler =
    if scheduler.running
    then record {
      scheduler = scheduler;
      log = [];
      result = record no_result { coalesced = true };
      error = none;
    }
    else if is_zero env.now
    then give_up scheduler schedule_invalid
    else tick_with_settings env scheduler env.collection_settings
