-- ===== src/Usage/Schedule/Tick/Spacing.antt =====
-- Which profiles a tick refreshes, and when they are refreshed next (internal/usage/scheduler.go,
-- Scheduler.Tick).
use codex_folio.Base.{
  ℕ, suc, ◌+◌, ◌%◌, ◌≤◌, ◌<◌, ◌≡◌, refl, sym, subst, ◌≢◌, ◌⊎◌, inl, inr, true, List, [], ◌∷◌, min,
  length, arith, Bool-cases, eqb, ltb→lt, ◌||◌, not, before, is_zero, if◌then◌else◌, Time, Duration,
  In, In-get_elem?, String,
}
use codex_folio.Usage.Types.{Snapshot}
use codex_folio.Usage.Schedule.{
  CollectionSettings, ScheduleTarget, ScheduleState, Trigger, provider_safe_minimum, interval_of,
  max_schedule_targets, next_scheduled_attempt, validate_collection_settings,
  target_without_persisted_attempt,
}
use codex_folio.Usage.Schedule.Backoff.{
  neg, most_negative, exponential_backoff, exponential_backoff_bounds, bounded_jitter,
  bounded_jitter_range, shift,
}
use codex_folio.Usage.Schedule.Due.{scheduled_due_bounds}
use codex_folio.Usage.Schedule.Tick.{
  Call, refreshed, saved, Log, Environment, Result, ok, err, TickResult, no_result, Scheduler,
  after_success, after_failure, next_after_success, save, collect, inspect, run_tick, tick,
  target_less, tick_with_targets, tick_with_settings,
}
use codex_folio.Usage.Schedule.Tick.Bounds.{tick_loop_rule}

-- What the code relies on: the jitter function does not answer the most negative int64.
pub record Trusted (env : Environment) : Type 0 where
  pub jitter_bounded : (d : Duration) → env.jitter d ≢ neg most_negative

jittered :
    (env : Environment) (h : Trusted env) (interval : Duration) (t : Time)
    → t ≤ shift t (bounded_jitter interval (env.jitter interval))
unfolding shift
jittered env h interval t =
    let (n, e, _) =
      bounded_jitter_range interval (env.jitter interval) (h.jitter_bounded interval) in
    rw e (omega arith)

-- What the validation gives.
settings_bounds :
    (s : CollectionSettings) (t : ScheduleTarget)
    → validate_collection_settings s ≡ true
    → s.provider_minimum ≢ 0
    → (s.provider_minimum ≡ provider_safe_minimum) × (s.provider_minimum ≤ interval_of t s)
unfolding validate_collection_settings
settings_bounds s t v z = ground arith

after_failure-spaced :
    (env : Environment) (h : Trusted env) (s : CollectionSettings) (t : ScheduleTarget)
    → s.provider_minimum ≡ provider_safe_minimum
    → env.now + s.provider_minimum ≤ (after_failure env s t).next_attempt_at
unfolding after_failure
after_failure-spaced env h s t m =
    let failures = suc t.state.consecutive_failures in
    let backoff = exponential_backoff failures s.provider_minimum in
    omega (
      arith,
      exponential_backoff_bounds failures s.provider_minimum (omega arith),
      jittered env h backoff (env.now + backoff),
    )

planned_lem :
    (s : CollectionSettings) (t : ScheduleTarget) (snapshot : Snapshot) (now : Time)
    → snapshot.captured_at ≢ 0
    → s.provider_minimum ≤ interval_of t s
    → snapshot.captured_at + s.provider_minimum
      ≤ (next_scheduled_attempt
          (target_without_persisted_attempt (record t { latest = snapshot }))
          s
          now).0
unfolding next_scheduled_attempt target_without_persisted_attempt
planned_lem s t snapshot now c m =
    (scheduled_due_bounds (target_without_persisted_attempt (record t { latest = snapshot })) s now
      c m).0

-- The instant from which the wait after a refresh counts: the capture of the snapshot, if it has one,
-- which is earlier than now where the refresher joined a collection under way.
abbrev captured_from : Time → Time → Time
captured_from now captured = if is_zero captured then now else captured

unfoldable pub counted_from : Time → Result Snapshot → Time
counted_from now (ok snapshot) = captured_from now snapshot.captured_at
counted_from now (err e) = now

next_after_success-spaced :
    (env : Environment) (h : Trusted env) (s : CollectionSettings) (t : ScheduleTarget)
    (snapshot : Snapshot)
    → s.provider_minimum ≤ interval_of t s
    → captured_from env.now snapshot.captured_at + s.provider_minimum
      ≤ next_after_success env s t snapshot
unfolding next_after_success
next_after_success-spaced env h s t snapshot m =
    let interval = interval_of t s in
    let planned =
      (next_scheduled_attempt (target_without_persisted_attempt (record t { latest = snapshot })) s
        env.now).0 in
    ground (
      arith,
      jittered env h interval (env.now + interval),
      jittered env h interval planned,
      planned_lem s t snapshot env.now,
    )

-- What a call of a tick says of the target that it is about, by the calls before it.
module _ (env : Environment) (s : CollectionSettings) (targets : List ScheduleTarget) where
  abbrev pub Postponed : ScheduleTarget → ScheduleState → Type 0
  Postponed t state =
      let due = (next_scheduled_attempt t s env.now).0 in
      (env.now < due) × (state ≡ record (t.state) { next_attempt_at = due })

  abbrev pub Attempted : ScheduleTarget → ScheduleState → Log → Type 0
  Attempted t state log =
      (before_it : Log) × (trigger : Trigger) × (log
        ≡ refreshed t.profile.alias trigger ∷ before_it)
      × (state.last_attempt_at ≡ env.now)
      × (counted_from env.now (env.refresh before_it t.profile.alias trigger)
            + provider_safe_minimum
          ≤ state.next_attempt_at)

  abbrev pub Justified : Call → Log → Type 0
  Justified (refreshed alias trigger) log =
      (t : ScheduleTarget) × In t targets
      × (t.profile.alias ≡ alias)
      × ((next_scheduled_attempt t s env.now).0 ≤ env.now)
      × ((next_scheduled_attempt t s env.now).1 ≡ trigger)
  Justified (saved id state) log =
      (t : ScheduleTarget) × In t targets
      × (t.profile.id ≡ id)
      × (Postponed t state ⊎ Attempted t state log)

  -- Each call of a log, with the calls before it.
  pub data AllJustified : Log → Type 0 where
    no_call : AllJustified []
    and_call :
        {call : Call} {log : Log}
        → Justified call log
        → AllJustified log
        → AllJustified (call ∷ log)

  save-Justified :
      (t : ScheduleTarget) (state : ScheduleState) (log : Log) (r : TickResult)
      → In t targets
      → Postponed t state ⊎ Attempted t state log
      → AllJustified log
      → AllJustified (save env t state log r).log
  unfolding save
  save-Justified t state log r m p j = and_call (t, m, refl, p) j

  module _ (h : Trusted env) (v : validate_collection_settings s ≡ true)
      (z : s.provider_minimum ≢ 0) where
    success-spaced :
        (t : ScheduleTarget) (snapshot : Snapshot)
        → counted_from env.now (ok snapshot) + provider_safe_minimum
          ≤ (after_success env s t snapshot).next_attempt_at
    unfolding after_success counted_from
    success-spaced t snapshot =
        let (least, fits) = settings_bounds s t v z in
        omega (arith, next_after_success-spaced env h s t snapshot fits)

    failure-spaced :
        (t : ScheduleTarget) (e : String)
        → counted_from env.now (err e) + provider_safe_minimum
          ≤ (after_failure env s t).next_attempt_at
    unfolding counted_from
    failure-spaced t e =
        let (least, fits) = settings_bounds s t v z in
        omega (arith, after_failure-spaced env h s t least)

    collect-Justified :
        (t : ScheduleTarget) (trigger : Trigger) (log : Log) (r : TickResult)
        (answer : Result Snapshot)
        → env.refresh log t.profile.alias trigger ≡ answer
        → In t targets
        → AllJustified (refreshed t.profile.alias trigger ∷ log)
        → AllJustified (collect env s t (refreshed t.profile.alias trigger ∷ log) r answer).log
    unfolding collect
    collect-Justified t trigger log r (ok snapshot) e m j =
        save-Justified t (after_success env s t snapshot) (refreshed t.profile.alias trigger ∷ log)
          (record r { collected = suc r.collected }) m
          (inr (
            log,
            trigger,
            refl,
            unfold after_success in refl,
            subst
                (λ a.
                  counted_from env.now a + provider_safe_minimum
                  ≤ (after_success env s t snapshot).next_attempt_at)
                (sym e) (success-spaced t snapshot),
          ))
          j
    collect-Justified t trigger log r (err x) e m j =
        save-Justified t (after_failure env s t) (refreshed t.profile.alias trigger ∷ log)
          (record r { collected = suc r.collected; failed = suc r.failed }) m
          (inr (
            log,
            trigger,
            refl,
            unfold after_failure in refl,
            subst
                (λ a.
                  counted_from env.now a + provider_safe_minimum
                  ≤ (after_failure env s t).next_attempt_at)
                (sym e) (failure-spaced t x),
          ))
          j

    inspect-Justified :
        (t : ScheduleTarget) (log : Log) (r : TickResult)
        → In t targets
        → AllJustified log
        → AllJustified (inspect env s t log r).log
    unfolding inspect
    inspect-Justified t log r m j =
        let due = (next_scheduled_attempt t s env.now).0 in
        let trigger = (next_scheduled_attempt t s env.now).1 in
        let next = t.state.next_attempt_at in
        elim (Bool-cases (before env.now due)) [
          | inl early ↦ rw early (elim (Bool-cases (is_zero next || not (eqb next due))) [
            | inl moved ↦ rw moved (
                save-Justified t (record (t.state) { next_attempt_at = due }) log r m
                  (inl (ltb→lt env.now due early, refl)) j)
            | inr kept ↦ rw kept j
          ])
          | inr ready ↦ rw ready (
              collect-Justified t trigger log r (env.refresh log t.profile.alias trigger) refl m
                (and_call (t, m, refl, ground arith, refl) j))
        ]

    run_tick-Justified : (cursor : ℕ) → AllJustified (run_tick env s targets cursor).log
    unfolding run_tick
    run_tick-Justified cursor =
        let start = if eqb (length targets) 0 then 0 else cursor % length targets in
        let limit = min (length targets) max_schedule_targets in
        (tick_loop_rule env s targets start (λ left inspected log r. AllJustified log)
          (λ rounds inspected log r t j l found.
            inspect-Justified t log r
              (In-get_elem? targets ((start + inspected) % length targets) found) j)
          limit 0 [] no_result (omega arith) no_call).1

settings-Justified :
    (env : Environment) (scheduler : Scheduler) (s : CollectionSettings)
    (targets : List ScheduleTarget)
    → Trusted env
    → s.provider_minimum ≢ 0
    → env.collection_schedule_targets ≡ ok targets
    → AllJustified env s
        (env.sort_stable (target_less env) targets)
        (tick_with_settings env scheduler (ok s)).log
unfolding tick_with_settings tick_with_targets
settings-Justified env scheduler s targets h z et =
    elim (Bool-cases (validate_collection_settings s)) [
      | inl v ↦
          let sorted = env.sort_stable (target_less env) targets in
          rw v (
            subst (λ a. AllJustified env s sorted (tick_with_targets env scheduler s a).log)
              (sym et) (run_tick-Justified env s sorted h v z scheduler.cursor))
      | inr v ↦ rw v no_call
    ]

-- In a tick under settings whose provider minimum is set, with a jitter function that never answers the
-- most negative int64: a profile is refreshed only when its next attempt is due, with the trigger that
-- made it due. A state is saved either of a profile that is not due, to move its next attempt to the
-- instant at which it is due, which lies ahead; or right after a refresh of the profile, to record the
-- attempt and to plan the next one at least five minutes after the capture of the snapshot, or after now
-- if the refresh failed or its snapshot has no capture time.
pub tick_spacing :
    (env : Environment) (scheduler : Scheduler) (s : CollectionSettings)
    (targets : List ScheduleTarget)
    → Trusted env
    → env.collection_settings ≡ ok s
    → s.provider_minimum ≢ 0
    → env.collection_schedule_targets ≡ ok targets
    → AllJustified env s (env.sort_stable (target_less env) targets) (tick env scheduler).log
unfolding tick
tick_spacing env scheduler s targets h es z et = elim (Bool-cases scheduler.running) [
  | inl running ↦ rw running no_call
  | inr idle ↦ rw idle (elim (Bool-cases (is_zero env.now)) [
    | inl unset ↦ rw unset no_call
    | inr set ↦ rw set (
        subst
          (λ a.
            AllJustified env s (env.sort_stable (target_less env) targets)
              (tick_with_settings env scheduler a).log)
          (sym es) (settings-Justified env scheduler s targets h z et))
  ])
]
