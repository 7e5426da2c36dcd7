-- ===== src/Usage/Schedule/Tick/Advance.antt =====
-- How far the cursor of the scheduler moves (internal/usage/scheduler.go, Scheduler.Tick).
use codex_folio.Base.{
  ℕ, ◌+◌, ◌%◌, ◌^◌, ◌≤◌, ◌≡◌, refl, sym, subst, ap, ◌∙◌, ◌⊎◌, inl, inr, ◌≢◌, true, false, List,
  none, min, length, arith, is_zero, eqb, if◌then◌else◌,
}
use codex_folio.Usage.Schedule.{
  CollectionSettings, ScheduleTarget, max_collections_per_tick, max_schedule_targets,
  validate_collection_settings,
}
use codex_folio.Usage.Schedule.Tick.{
  Environment, ok, Scheduler, run_tick, tick, target_less, tick_with_targets, tick_with_settings,
}
use codex_folio.Usage.Schedule.Tick.Bounds.{refreshes, run_tick-Ends}
use codex_folio.Usage.Schedule.Tick.Visits.{Visited, run_tick-Visited}

-- A tick of an idle scheduler with a clock, valid settings and a list of targets reaches the loop.
tick_reaches :
    (env : Environment) (scheduler : Scheduler) (s : CollectionSettings)
    (targets : List ScheduleTarget)
    → scheduler.running ≡ false
    → is_zero env.now ≡ false
    → env.collection_settings ≡ ok s
    → validate_collection_settings s ≡ true
    → env.collection_schedule_targets ≡ ok targets
    → tick env scheduler ≡ tick_with_targets env scheduler s (ok targets)
unfolding tick tick_with_settings
tick_reaches env scheduler s targets idle clock es v et =
    rw (idle, clock)
      (subst
        (λ a. tick_with_settings env scheduler a ≡ tick_with_targets env scheduler s (ok targets))
        (sym es)
        (rw v (
          subst
            (λ a.
              tick_with_targets env scheduler s a ≡ tick_with_targets env scheduler s (ok targets))
            (sym et) refl)))

loop_advance :
    (len limit left inspected collected : ℕ)
    → limit ≡ min len max_schedule_targets
    → left + inspected ≡ limit
    → collected ≤ inspected
    → (left ≡ 0) ⊎ (max_collections_per_tick ≤ collected)
    → min len max_collections_per_tick ≤ inspected
loop_advance len limit left inspected collected e s c (inl done) = omega arith
loop_advance len limit left inspected collected e s c (inr full) = omega arith

loop_stops :
    (limit left inspected collected : ℕ)
    → left + inspected ≡ limit
    → collected ≤ max_collections_per_tick
    → (left ≡ 0) ⊎ (max_collections_per_tick ≤ collected)
    → (inspected ≡ limit) ⊎ (collected ≡ max_collections_per_tick)
loop_stops limit left inspected collected s c (inl done) = inl (omega arith)
loop_stops limit left inspected collected s c (inr full) = inr (omega arith)

-- What the loop leaves for the cursor, once no save has failed.
advance :
    (env : Environment) (s : CollectionSettings) (targets : List ScheduleTarget) (cursor : ℕ)
    → (run_tick env s targets cursor).error ≡ none
    → let end = run_tick env s targets cursor in
      (min (length targets) max_collections_per_tick ≤ end.inspected)
      × (end.inspected ≤ min (length targets) max_schedule_targets)
      × ((end.inspected ≡ min (length targets) max_schedule_targets)
          ⊎ (refreshes end.log ≡ max_collections_per_tick))
advance env s targets cursor fine =
    let end = run_tick env s targets cursor in
    let limit = min (length targets) max_schedule_targets in
    let (left, (total, counts, collected), _, finished) = run_tick-Ends env s targets cursor in
    (
      loop_advance (length targets) limit left end.inspected end.result.collected refl total
          collected (finished fine),
      omega arith,
      subst (λ c. (end.inspected ≡ limit) ⊎ (c ≡ max_collections_per_tick)) (sym counts.counted)
          (loop_stops limit left end.inspected end.result.collected total counts.limited
            (finished fine)),
    )

-- A tick that reaches its loop and ends without an error moves the cursor (a uint64 that wraps) past
-- the n targets that it inspected, in the order of the sorted list from the cursor on: each of them is
-- refreshed if it is due, and otherwise is left with the instant at which it is, and no call is about
-- another. These are at least four targets, or all of them if there are fewer, and at most 64 and
-- never more than there are; and the tick stops before that only after four refreshes. The sort is
-- taken to keep the number of targets.
pub tick_progress :
    (env : Environment) (scheduler : Scheduler) (s : CollectionSettings)
    (targets : List ScheduleTarget)
    → ((ts : List ScheduleTarget) → length (env.sort_stable (target_less env) ts) ≡ length ts)
    → scheduler.running ≡ false
    → env.now ≢ 0
    → env.collection_settings ≡ ok s
    → validate_collection_settings s ≡ true
    → env.collection_schedule_targets ≡ ok targets
    → (tick env scheduler).error ≡ none
    → let sorted = env.sort_stable (target_less env) targets in
      (n : ℕ) × ((tick env scheduler).scheduler.cursor ≡ (scheduler.cursor + n) % 2 ^ 64)
      × Visited env s sorted
          (if eqb (length sorted) 0 then 0 else scheduler.cursor % length sorted)
          n
          (tick env scheduler).log
      × (min (length targets) max_collections_per_tick ≤ n)
      × (n ≤ min (length targets) max_schedule_targets)
      × ((n ≡ min (length targets) max_schedule_targets)
          ⊎ (refreshes (tick env scheduler).log ≡ max_collections_per_tick))
unfolding tick_with_targets
tick_progress env scheduler s targets keeps idle clock es v et fine =
    let sorted = env.sort_stable (target_less env) targets in
    let end = run_tick env s sorted scheduler.cursor in
    let start = if eqb (length sorted) 0 then 0 else scheduler.cursor % length sorted in
    let reached = tick_reaches env scheduler s targets idle (ground arith) es v et in
    let same_log : (tick env scheduler).log ≡ end.log = ap (λ e. e.log) reached in
    let (least, most, stops) =
      advance env s sorted scheduler.cursor (sym (ap (λ e. e.error) reached) ∙ fine) in
    (
      end.inspected,
      ap (λ e. e.scheduler.cursor) reached,
      subst (λ log. Visited env s sorted start end.inspected log) (sym same_log)
          (run_tick-Visited env s sorted scheduler.cursor),
      subst (λ m. min m max_collections_per_tick ≤ end.inspected) (keeps targets) least,
      subst (λ m. end.inspected ≤ min m max_schedule_targets) (keeps targets) most,
      subst
          (λ m.
            (end.inspected ≡ min m max_schedule_targets)
            ⊎ (refreshes (tick env scheduler).log ≡ max_collections_per_tick))
          (keeps targets)
          (subst
            (λ log.
              (end.inspected ≡ min (length sorted) max_schedule_targets)
              ⊎ (refreshes log ≡ max_collections_per_tick))
            (sym same_log) stops),
    )
