-- ===== src/Usage/Schedule/Due.antt =====
-- When a collection is due: internal/usage/scheduler.go, scheduledAttemptFromEvidence and
-- nextScheduledAttempt, against the definition by the earliest boundary.
use codex_folio.Base.{
  ◌+◌, ◌/◌, ◌≤◌, ◌<◌, ◌≡◌, refl, ◌∙◌, ◌≢◌, true, false, List, [], ◌∷◌, Option, none, some, Time,
  after, min, max, arith, if◌then◌else◌,
}
use codex_folio.Usage.Types.{Observation}
use codex_folio.Usage.Schedule.{
  ScheduleTarget, CollectionSettings, Trigger, interval_of, periodic_trigger, reset_boundary,
  consider_reset, earliest_reset, scheduled_attempt_from_evidence, at_reset, is_failed,
  next_scheduled_attempt,
}

-- The reset boundaries of the windows that are still ahead.
add_boundary : Time → Time → Option Time → List Time → List Time
add_boundary captured now none rest = rest
add_boundary captured now (some reset) rest =
    let boundary = reset_boundary captured now reset in
    if after boundary now then boundary ∷ rest else rest

pub reset_boundaries : Time → Time → List Observation → List Time
unfolding add_boundary
reset_boundaries captured now [] = []
reset_boundaries captured now (o ∷ os) =
    add_boundary captured now o.window_end (reset_boundaries captured now os)

pub earliest_of : Time → List Time → Time
earliest_of t [] = t
earliest_of t (u ∷ us) = min u (earliest_of t us)

earliest_of-min :
    (t u : Time) (us : List Time) → earliest_of (min t u) us ≡ min u (earliest_of t us)
unfolding earliest_of
earliest_of-min t u [] = omega arith
earliest_of-min t u (v ∷ us) = omega (arith, earliest_of-min t u us)

earliest_of-consider_reset :
    (captured now : Time) (end : Option Time) (due : Time × Trigger) (rest : List Time)
    → earliest_of (consider_reset captured now end due).0 rest
      ≡ earliest_of due.0 (add_boundary captured now end rest)
unfolding consider_reset add_boundary earliest_of
earliest_of-consider_reset captured now none due rest = refl
earliest_of-consider_reset captured now (some reset) (due, trigger) rest =
    ground (arith, earliest_of-min due (reset_boundary captured now reset) rest)

earliest_reset_lem :
    (captured now : Time) (os : List Observation) (due : Time × Trigger)
    → (earliest_reset captured now os due).0 ≡ earliest_of due.0 (reset_boundaries captured now os)
unfolding earliest_reset reset_boundaries
earliest_reset_lem captured now [] due = unfold earliest_of in refl
earliest_reset_lem captured now (o ∷ os) due =
    earliest_reset_lem captured now os (consider_reset captured now o.window_end due)
    ∙ earliest_of-consider_reset captured now o.window_end due (reset_boundaries captured now os)

-- With evidence in hand the next attempt is due an interval after its capture or at the earliest
-- reset boundary ahead, whichever is first, but never before the provider's minimum has passed.
pub scheduled_due_closed :
    (t : ScheduleTarget) (s : CollectionSettings) (now : Time)
    → t.latest.captured_at ≢ 0
    → (scheduled_attempt_from_evidence t s now).0
      ≡ max (t.latest.captured_at + s.provider_minimum) (
          earliest_of
            (t.latest.captured_at + interval_of t s)
            (reset_boundaries t.latest.captured_at now t.latest.observations))
unfolding scheduled_attempt_from_evidence
scheduled_due_closed t s now h = ground (
  arith,
  earliest_reset_lem t.latest.captured_at now t.latest.observations
      (t.latest.captured_at + interval_of t s, periodic_trigger t),
)

earliest_of-le : (t : Time) (us : List Time) → earliest_of t us ≤ t
unfolding earliest_of
earliest_of-le t [] = omega arith
earliest_of-le t (u ∷ us) = omega (arith, earliest_of-le t us)

-- With evidence in hand, under settings whose interval is no shorter than the provider's minimum,
-- the next attempt is due at least the minimum and at most the interval after the capture.
pub scheduled_due_bounds :
    (t : ScheduleTarget) (s : CollectionSettings) (now : Time)
    → t.latest.captured_at ≢ 0
    → s.provider_minimum ≤ interval_of t s
    → (t.latest.captured_at + s.provider_minimum ≤ (scheduled_attempt_from_evidence t s now).0)
      × ((scheduled_attempt_from_evidence t s now).0 ≤ t.latest.captured_at + interval_of t s)
scheduled_due_bounds t s now h k = omega (
  arith,
  scheduled_due_closed t s now h,
  earliest_of-le (t.latest.captured_at + interval_of t s)
      (reset_boundaries t.latest.captured_at now t.latest.observations),
)

-- A planned attempt is followed only as far as the evidence allows: unless it stands at a reset or
-- after a failed collection, the attempt is made no earlier than the evidence makes it due, and at
-- most a tenth of the interval later.
pub next_attempt_follows_evidence :
    (t : ScheduleTarget) (s : CollectionSettings) (now : Time)
    → t.latest.captured_at ≢ 0
    → at_reset t.state.next_attempt_at t.latest.observations ≡ false
    → is_failed t.state.last_outcome ≡ false
    → ((scheduled_attempt_from_evidence t s now).0 ≤ (next_scheduled_attempt t s now).0)
      × ((next_scheduled_attempt t s now).0
          ≤ (scheduled_attempt_from_evidence t s now).0 + interval_of t s / 10)
unfolding next_scheduled_attempt
next_attempt_follows_evidence t s now h r f = ground arith

-- After a failed collection the planned attempt stands, whatever the evidence says.
pub next_attempt_after_failure :
    (t : ScheduleTarget) (s : CollectionSettings) (now : Time)
    → t.state.next_attempt_at ≢ 0
    → is_failed t.state.last_outcome ≡ true
    → 0 < t.state.consecutive_failures
    → (next_scheduled_attempt t s now).0 ≡ t.state.next_attempt_at
unfolding next_scheduled_attempt
next_attempt_after_failure t s now h f c = ground arith
