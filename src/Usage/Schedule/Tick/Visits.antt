-- ===== src/Usage/Schedule/Tick/Visits.antt =====
-- Which targets one tick of the scheduler attends to (internal/usage/scheduler.go, Scheduler.Tick).
use codex_folio.Base.{
  ℕ, suc, ◌+◌, ◌%◌, ◌≤◌, ◌<◌, ◌≡◌, refl, sym, inl, inr, List, [], ◌∷◌, some, min, length, get_elem?,
  arith, Bool-cases, eqb, ltb→lt, ◌||◌, not, before, is_zero, if◌then◌else◌, In, All, subst,
}
use codex_folio.Usage.Types.{Snapshot}
use codex_folio.Usage.Schedule.{
  CollectionSettings, ScheduleTarget, ScheduleState, max_schedule_targets, next_scheduled_attempt,
}
use codex_folio.Usage.Schedule.Tick.{
  Call, refreshed, saved, Log, Environment, Result, ok, err, TickResult, no_result, after_success,
  after_failure, save, collect, inspect, run_tick,
}
use codex_folio.Usage.Schedule.Tick.Bounds.{tick_loop_rule}

-- What is done for a target by a log: it is not due and its state says so already, it is not due and
-- its state is saved with the instant at which it is, or it is due and is refreshed.
pub data Attended (env : Environment) (s : CollectionSettings) (t : ScheduleTarget) (log : Log)
    : Type 0 where
  is_kept :
      env.now < (next_scheduled_attempt t s env.now).0
      → t.state.next_attempt_at ≡ (next_scheduled_attempt t s env.now).0
      → Attended env s t log
  is_planned :
      env.now < (next_scheduled_attempt t s env.now).0
      → In
          (saved t.profile.id
            (record (t.state) { next_attempt_at = (next_scheduled_attempt t s env.now).0 }))
          log
      → Attended env s t log
  is_refreshed :
      (next_scheduled_attempt t s env.now).0 ≤ env.now
      → In (refreshed t.profile.alias (next_scheduled_attempt t s env.now).1) log
      → Attended env s t log

abbrev pub IsAbout : ScheduleTarget → Call → Type 0
IsAbout t (refreshed alias trigger) = t.profile.alias ≡ alias
IsAbout t (saved id state) = t.profile.id ≡ id

-- A log that adds calls about a target to another.
data Extends (t : ScheduleTarget) (log : Log) : Log → Type 0 where
  no_more : Extends t log log
  one_more : {c : Call} {more : Log} → IsAbout t c → Extends t log more → Extends t log (c ∷ more)

In-Extends :
    (t : ScheduleTarget) (log more : Log) (c : Call) → Extends t log more → In c log → In c more
In-Extends t log _ c no_more m = m
In-Extends t log _ c (one_more about e) m = inr (In-Extends t log _ c e m)

All-Extends :
    (t : ScheduleTarget) (log more : Log) (P : Call → Type 0)
    → Extends t log more
    → ((c : Call) → IsAbout t c → P c)
    → All P log
    → All P more
All-Extends t log _ P no_more new all = all
All-Extends t log _ P (one_more about e) new all = (new _ about, All-Extends t log _ P e new all)

module _ (env : Environment) (s : CollectionSettings) where
  save-Extends :
      (t : ScheduleTarget) (state : ScheduleState) (first log : Log) (r : TickResult)
      → Extends t first log
      → Extends t first (save env t state log r).log
  unfolding save
  save-Extends t state first log r e = one_more refl e

  collect-Extends :
      (t : ScheduleTarget) (first log : Log) (r : TickResult) (answer : Result Snapshot)
      → Extends t first log
      → Extends t first (collect env s t log r answer).log
  unfolding collect
  collect-Extends t first log r (ok snapshot) e =
      save-Extends t (after_success env s t snapshot) first log
        (record r { collected = suc r.collected }) e
  collect-Extends t first log r (err x) e =
      save-Extends t (after_failure env s t) first log
        (record r { collected = suc r.collected; failed = suc r.failed }) e

  inspect-Extends :
      (t : ScheduleTarget) (log : Log) (r : TickResult)
      → Extends t log (inspect env s t log r).log × Attended env s t (inspect env s t log r).log
  unfolding inspect
  inspect-Extends t log r =
      let due = (next_scheduled_attempt t s env.now).0 in
      let trigger = (next_scheduled_attempt t s env.now).1 in
      let next = t.state.next_attempt_at in
      elim (Bool-cases (before env.now due)) [
        | inl early ↦ rw early (elim (Bool-cases (is_zero next || not (eqb next due))) [
          | inl moved ↦ rw moved (
            save-Extends t (record (t.state) { next_attempt_at = due }) log log r no_more,
            is_planned (ltb→lt env.now due early) (unfold save in inl refl),
          )
          | inr kept ↦ rw kept (no_more, is_kept (ltb→lt env.now due early) (ground (arith, kept)))
        ])
        | inr ready ↦
            let called : Log = refreshed t.profile.alias trigger ∷ log in
            let answer = env.refresh log t.profile.alias trigger in
            rw ready (
              collect-Extends t log called r answer (one_more refl no_more),
              is_refreshed (ground (arith, ready)) (
                  In-Extends t called _ (refreshed t.profile.alias trigger)
                    (collect-Extends t called called r answer no_more) (inl refl)),
            )
      ]

  Attended-Extends :
      (t u : ScheduleTarget) (log more : Log)
      → Extends u log more
      → Attended env s t log
      → Attended env s t more
  Attended-Extends t u log more e (is_kept early same) = is_kept early same
  Attended-Extends t u log more e (is_planned early m) =
      is_planned early (In-Extends u log more _ e m)
  Attended-Extends t u log more e (is_refreshed ready m) =
      is_refreshed ready (In-Extends u log more _ e m)

  module _ (targets : List ScheduleTarget) (start : ℕ) where
    -- The target at a position after the start.
    abbrev pub IsAt : ℕ → ScheduleTarget → Type 0
    IsAt i t = get_elem? targets ((start + i) % length targets) ≡ some t

    -- The first n targets after the start are attended to, and no call is about another.
    pub record Visited (n : ℕ) (log : Log) : Type 0 where
      pub attended : (i : ℕ) → i < n → (t : ScheduleTarget) × IsAt i t × Attended env s t log
      pub only : All (λ c. (i : ℕ) × (t : ScheduleTarget) × (i < n) × IsAt i t × IsAbout t c) log

    All-further :
        (n : ℕ) (log : Log)
        → All (λ c. (i : ℕ) × (t : ScheduleTarget) × (i < n) × IsAt i t × IsAbout t c) log
        → All (λ c. (i : ℕ) × (t : ScheduleTarget) × (i < suc n) × IsAt i t × IsAbout t c) log
    All-further n [] h = tt
    All-further n (c ∷ log) ((i, t, l, at, about), rest) =
        ((i, t, omega arith, at, about), All-further n log rest)

    inspect-Visited :
        (n : ℕ) (log : Log) (r : TickResult) (t : ScheduleTarget)
        → Visited n log
        → IsAt n t
        → Visited (suc n) (inspect env s t log r).log
    inspect-Visited n log r t v at =
        let (extends, here) = inspect-Extends t log r in
        let more = (inspect env s t log r).log in
        record {
          attended = λ i l. elim (Bool-cases (eqb i n)) [
            | inl last ↦ (t, subst (λ k. IsAt k t) (sym (ground (arith, last))) at, here)
            | inr earlier ↦
                let (u, there, old) = v.attended i (ground (arith, earlier, l)) in
                (u, there, Attended-Extends u t log more extends old)
          ];
          only =
              All-Extends t log more _ extends (λ c about. (n, t, omega arith, at, about))
                (All-further n log v.only);
        }

  pub run_tick-Visited :
      (targets : List ScheduleTarget) (cursor : ℕ)
      → let end = run_tick env s targets cursor in
        Visited targets
          (if eqb (length targets) 0 then 0 else cursor % length targets)
          end.inspected
          end.log
  unfolding run_tick
  run_tick-Visited targets cursor =
      let start = if eqb (length targets) 0 then 0 else cursor % length targets in
      let none_yet : Visited targets start 0 [] = record {
        attended = λ i l. absurd (omega (arith, l));
        only = tt;
      } in
      (tick_loop_rule env s targets start
        (λ left inspected log r. Visited targets start inspected log)
        (λ rounds inspected log r t v l at. inspect-Visited targets start inspected log r t v at)
        (min (length targets) max_schedule_targets) 0 [] no_result (omega arith) none_yet).1
