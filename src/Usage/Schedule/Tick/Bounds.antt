-- ===== src/Usage/Schedule/Tick/Bounds.antt =====
-- How much one tick of the scheduler does (internal/usage/scheduler.go, Scheduler.Tick).
use native.Mathlib.Nat.{mod-lt}
use codex_folio.Base.{
  ℕ, zero, suc, ◌+◌, ◌%◌, ◌≤◌, ◌<◌, ◌≡◌, refl, ◌∙◌, ◌≢◌, ◌⊎◌, inl, inr, List, [], ◌∷◌, none, some,
  min, length, get_elem?, arith, leb, Bool-cases, Option-cases, eqb, leb→le, get_elem?-lt,
  if◌then◌else◌,
}
use codex_folio.Usage.Types.{Snapshot}
use codex_folio.Usage.Schedule.{
  CollectionSettings, ScheduleTarget, ScheduleState, max_collections_per_tick, max_schedule_targets,
  next_scheduled_attempt,
}
use codex_folio.Usage.Schedule.Tick.{
  refreshed, saved, Log, Environment, index_panic, Result, ok, err, TickResult, no_result, LoopEnd,
  Scheduler, TickEnd, after_success, after_failure, save, collect, inspect, tick_loop, run_tick,
  tick, tick_with_targets, tick_with_settings, target_less,
}

pub refreshes : Log → ℕ
refreshes [] = 0
refreshes (refreshed alias trigger ∷ log) = suc (refreshes log)
refreshes (saved id state ∷ log) = refreshes log

-- The refreshes of a log that the refresher answered with an error.
abbrev fault : Result Snapshot → ℕ
fault (ok snapshot) = 0
fault (err e) = 1

pub refresh_failures : Environment → Log → ℕ
refresh_failures env [] = 0
refresh_failures env (refreshed alias trigger ∷ log) =
    fault (env.refresh log alias trigger) + refresh_failures env log
refresh_failures env (saved id state ∷ log) = refresh_failures env log

-- The counters agree with the calls made, and the limit holds.
pub record Counted (env : Environment) (log : Log) (r : TickResult) : Type 0 where
  pub counted : refreshes log ≡ r.collected
  pub limited : r.collected ≤ max_collections_per_tick
  pub faults : refresh_failures env log ≡ r.failed
  pub failures : r.failed ≤ r.collected

collect-Counted :
    (env : Environment) (s : CollectionSettings) (t : ScheduleTarget) (log : Log) (r : TickResult)
    (answer : Result Snapshot)
    → refreshes log ≡ suc r.collected
    → r.collected < max_collections_per_tick
    → refresh_failures env log ≡ fault answer + r.failed
    → r.failed ≤ r.collected
    → let p = collect env s t log r answer in
      Counted env p.log p.result × (p.result.collected ≡ suc r.collected)
unfolding collect refreshes refresh_failures
collect-Counted env s t log r (ok snapshot) c l k f = ground arith
collect-Counted env s t log r (err e) c l k f = ground arith

inspect-Counted :
    (env : Environment) (s : CollectionSettings) (t : ScheduleTarget) (log : Log) (r : TickResult)
    → Counted env log r
    → r.collected < max_collections_per_tick
    → let p = inspect env s t log r in
      Counted env p.log p.result × (p.result.collected ≤ suc r.collected)
unfolding inspect save refreshes refresh_failures
inspect-Counted env s t log r c l =
    let trigger = (next_scheduled_attempt t s env.now).1 in
    ground (
      arith,
      collect-Counted env s t (refreshed t.profile.alias trigger ∷ log) r
          (env.refresh log t.profile.alias trigger),
    )

save-ne-panic :
    (env : Environment) (t : ScheduleTarget) (state : ScheduleState) (log : Log) (r : TickResult)
    → (save env t state log r).error ≢ some index_panic
unfolding save
save-ne-panic env t state log r e =
    elim (Option-cases (env.save_collection_schedule_state log t.profile.id state)) [
      | inl p ↦ ground arith
      | inr (x, p) ↦ ground arith
    ]

collect-ne-panic :
    (env : Environment) (s : CollectionSettings) (t : ScheduleTarget) (log : Log) (r : TickResult)
    (answer : Result Snapshot)
    → (collect env s t log r answer).error ≢ some index_panic
unfolding collect
collect-ne-panic env s t log r (ok snapshot) =
    save-ne-panic env t (after_success env s t snapshot) log
      (record r { collected = suc r.collected })
collect-ne-panic env s t log r (err e) =
    save-ne-panic env t (after_failure env s t) log
      (record r { collected = suc r.collected; failed = suc r.failed })

inspect-ne-panic :
    (env : Environment) (s : CollectionSettings) (t : ScheduleTarget) (log : Log) (r : TickResult)
    → (inspect env s t log r).error ≢ some index_panic
unfolding inspect
inspect-ne-panic env s t log r e =
    let (due, trigger) = next_scheduled_attempt t s env.now in
    ground (
      arith,
      save-ne-panic env t (record (t.state) { next_attempt_at = due }) log r,
      collect-ne-panic env s t (refreshed t.profile.alias trigger ∷ log) r
          (env.refresh log t.profile.alias trigger),
    )

-- The rule for the loop: an invariant of the rounds left, the targets inspected, the calls and the
-- counters holds at the end, the loop never runs out of the list, and where no save failed it has
-- used up its rounds or its collections.
module _ (env : Environment) (s : CollectionSettings) (targets : List ScheduleTarget) (start : ℕ)
    (I : ℕ → ℕ → Log → TickResult → Type 0)
    (step : (rounds inspected : ℕ) (log : Log) (r : TickResult) (t : ScheduleTarget)
      → I (suc rounds) inspected log r
      → r.collected < max_collections_per_tick
      → get_elem? targets ((start + inspected) % length targets) ≡ some t
      → let p = inspect env s t log r in I rounds (suc inspected) p.log p.result) where
  abbrev pub Ends : LoopEnd → Type 0
  Ends end =
      (left : ℕ) × I left end.inspected end.log end.result
      × (end.error ≢ some index_panic)
      × (end.error ≡ none → (left ≡ 0) ⊎ (max_collections_per_tick ≤ end.result.collected))

  pub tick_loop_rule :
      (rounds inspected : ℕ) (log : Log) (r : TickResult)
      → rounds ≤ length targets
      → I rounds inspected log r
      → Ends (tick_loop env s targets start rounds inspected log r)
  unfolding tick_loop
  tick_loop_rule zero inspected log r h i = (0, i, (λ e. cc), λ e. inl refl)
  tick_loop_rule (suc rounds) inspected log r h i =
      elim (Bool-cases (leb max_collections_per_tick r.collected)) [
        | inl full ↦ rw full (suc rounds, i, (λ e. cc), λ e. inr (leb→le _ _ full))
        | inr more ↦
            let (t, found) =
              get_elem?-lt targets ((start + inspected) % length targets)
                (mod-lt _ (omega arith)) in
            let p = inspect env s t log r in
            let i' = step rounds inspected log r t i (ground arith) found in
            rw (more, found)
              (elim (Option-cases p.error) [
                | inl fine ↦
                    rw fine (tick_loop_rule rounds (suc inspected) p.log p.result (omega arith) i')
                | inr (e, failed) ↦
                    rw failed
                      (rounds, i', (λ q. inspect-ne-panic env s t log r (failed ∙ q)), λ q. cc)
              ])
      ]

no_calls : (env : Environment) → Counted env [] no_result
unfolding refreshes refresh_failures
no_calls env = omega arith

-- The state of the loop in a tick that began with no call and no result.
abbrev pub Loop : Environment → ℕ → ℕ → ℕ → Log → TickResult → Type 0
Loop env limit left inspected log r =
    (left + inspected ≡ limit) × Counted env log r × (r.collected ≤ inspected)

pub run_tick-Ends :
    (env : Environment) (s : CollectionSettings) (targets : List ScheduleTarget) (cursor : ℕ)
    → let end = run_tick env s targets cursor in
      let limit = min (length targets) max_schedule_targets in
      (left : ℕ) × Loop env limit left end.inspected end.log end.result
      × (end.error ≢ some index_panic)
      × (end.error ≡ none → (left ≡ 0) ⊎ (max_collections_per_tick ≤ end.result.collected))
unfolding run_tick
run_tick-Ends env s targets cursor =
    tick_loop_rule env s targets (if eqb (length targets) 0 then 0 else cursor % length targets)
      (Loop env (min (length targets) max_schedule_targets))
      (λ rounds inspected log r t i l found.
        let (c, k) = inspect-Counted env s t log r i.1 l in (omega arith, c, omega arith))
      (min (length targets) max_schedule_targets) 0 [] no_result (omega arith)
      (omega arith, no_calls env, omega arith)

-- What holds of every end of a tick.
abbrev pub Bounded : Environment → TickEnd → Type 0
Bounded env end =
    (refreshes end.log ≡ end.result.collected)
    × (refresh_failures env end.log ≡ end.result.failed)
    × (end.result.collected ≤ max_collections_per_tick)
    × (end.result.failed ≤ end.result.collected)
    × (end.error ≢ some index_panic)

tick_with_targets-Bounded :
    (env : Environment) (scheduler : Scheduler) (s : CollectionSettings)
    (targets : Result (List ScheduleTarget))
    → Bounded env (tick_with_targets env scheduler s targets)
unfolding tick_with_targets refreshes refresh_failures
tick_with_targets-Bounded env scheduler s (err e) = ground arith
tick_with_targets-Bounded env scheduler s (ok targets) =
    let (left, (_, c, _), panics, _) =
      run_tick-Ends env s (env.sort_stable (target_less env) targets) scheduler.cursor in
    (c.counted, c.faults, c.limited, c.failures, panics)

tick_with_settings-Bounded :
    (env : Environment) (scheduler : Scheduler) (settings : Result CollectionSettings)
    → Bounded env (tick_with_settings env scheduler settings)
unfolding tick_with_settings refreshes refresh_failures
tick_with_settings-Bounded env scheduler (err e) = ground arith
tick_with_settings-Bounded env scheduler (ok s) =
    ground (arith, tick_with_targets-Bounded env scheduler s env.collection_schedule_targets)

-- Whatever the store and the refresher answer, a tick refreshes at most four profiles, counts the
-- refreshes that it made and those of them that the refresher answered with an error, and never
-- indexes past the targets.
pub tick_bounds : (env : Environment) (scheduler : Scheduler) → Bounded env (tick env scheduler)
unfolding tick refreshes refresh_failures
tick_bounds env scheduler =
    ground (arith, tick_with_settings-Bounded env scheduler env.collection_settings)
