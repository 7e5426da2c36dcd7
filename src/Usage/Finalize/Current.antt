-- ===== src/Usage/Finalize/Current.antt =====
-- What a finalized snapshot guarantees (internal/usage/usage.go, finalizeSnapshot and
-- projectCurrentQuotaWindows).
use codex_folio.Base.{
  ◌≤◌, ◌≡◌, refl, sym, ap, subst, ◌∙◌, inl, inr, Bool, true, false, ◌&&◌, ◌||◌, not, List, [], ◌∷◌,
  Option, none, some, String, ltb, leb, ◌==◌, ◌!=◌, string_eq, Time, before, since, is_none,
  if◌then◌else◌, map, All, arith, Bool-cases, Option-cases,
}
use codex_folio.Usage.Types.{
  Observation, MetricAvailability, Snapshot, provenance_estimated, availability_available,
  freshness_limit,
}
use codex_folio.Usage.Finalize.Backed.{supported, is_unobserved, some_fresh, agree, supported-tally}
use codex_folio.Usage.Finalize.{
  freshness_at, captured_or_observed, fill_reason, finalize_observation, finalize_observations,
  selected_window, stays, keep_current, project_current_quota_windows, Tally, no_tally, count_in,
  tally, settle_state, has_key, settle_states, state_of, settle_observation, settled,
  finalize_snapshot,
}

-- Dated: captured no later than now, with the freshness that its age gives.
abbrev captured_of : Option Observation → Time
captured_of none = 0
captured_of (some o) = o.captured_at

abbrev freshness_of : Option Observation → String
freshness_of none = ""
freshness_of (some o) = o.freshness

abbrev pub IsDated : Time → Observation → Type 0
IsDated now o =
    (o.captured_at ≤ now)
    × ((o.freshness == "fresh") ≡ leb (since o.captured_at now) freshness_limit)

abbrev fresh_word : Bool → String
fresh_word b = if b then "stale" else "fresh"

fresh_text : (b : Bool) → (fresh_word b == "fresh") ≡ not b
fresh_text true = refl
fresh_text false = refl

finalize_observation-IsDated :
    (s : Snapshot) (now : Time) (o o' : Observation)
    → finalize_observation s now o ≡ some o'
    → IsDated now o'
unfolding finalize_observation freshness_at
finalize_observation-IsDated s now o o' h =
    elim (Bool-cases (before now (captured_or_observed o))) [
      | inl ahead ↦ let clash : none ≡ some o' = rw ahead at h in cc
      | inr past ↦
          let h1 = rw past at h in
          elim (Bool-cases
            (o.provenance == provenance_estimated && o.assumptions == "" && o.uncertainty == "")) [
              | inl vague ↦ let clash : none ≡ some o' = rw vague at h1 in cc
              | inr clear ↦
                  let captured : captured_or_observed o ≡ o'.captured_at =
                    ap (λ r. captured_of r) (rw clear at h1) in
                  let freshness = ap (λ r. freshness_of r) (rw clear at h1) in
                  subst
                    (λ c.
                      (c ≤ now) × ((o'.freshness == "fresh") ≡ leb (since c now) freshness_limit))
                    captured
                    (
                      ground arith,
                      ap (λ f. f == "fresh") (sym freshness)
                          ∙ fresh_text (ltb freshness_limit (since (captured_or_observed o) now))
                          ∙ (ground arith),
                    )
            ]
    ]

finalize_observations-IsDated :
    (s : Snapshot) (now : Time) (os os' : List Observation)
    → finalize_observations s now os ≡ some os'
    → All (IsDated now) os'
unfolding finalize_observations
finalize_observations-IsDated s now [] os' h =
    let e : [] ≡ os' = cc in subst (All (IsDated now)) e tt
finalize_observations-IsDated s now (o ∷ os) os' h =
    elim (Option-cases (finalize_observation s now o)) [
      | inl bad ↦ let clash : none ≡ some os' = rw bad at h in cc
      | inr (x, good) ↦ elim (Option-cases (finalize_observations s now os)) [
        | inl bad ↦ let clash : none ≡ some os' = rw (good, bad) at h in cc
        | inr (xs, fine) ↦
            let e : some (x ∷ xs) ≡ some os' = rw (good, fine) at h in
            let e' : x ∷ xs ≡ os' = cc in
            subst (All (IsDated now)) e' (
              finalize_observation-IsDated s now o x good,
              finalize_observations-IsDated s now os xs fine,
            )
      ]
    ]

-- The projection keeps observations as they are.
All-keep_current :
    (P : Observation → Type 0) (now : Time) (all os : List Observation)
    → All P os
    → All P (keep_current now all os)
unfolding keep_current
All-keep_current P now all [] h = tt
All-keep_current P now all (o ∷ os) h =
    elim (Bool-cases (stays (selected_window now o.metric.key all none) o)) [
      | inl in' ↦ rw in' (h.0, All-keep_current P now all os h.1)
      | inr out ↦ rw out (All-keep_current P now all os h.1)
    ]

-- Nor does the last loop change more than the availability.
settle_observation-keeps :
    (states : List MetricAvailability) (o : Observation)
    → ((settle_observation states o).metric ≡ o.metric)
      × ((settle_observation states o).value ≡ o.value)
      × ((settle_observation states o).freshness ≡ o.freshness)
      × ((settle_observation states o).captured_at ≡ o.captured_at)
unfolding settle_observation
settle_observation-keeps states o = elim (Option-cases (state_of o.metric.key states none)) [
  | inl absent ↦ rw absent (refl, refl, refl, refl)
  | inr (state, e) ↦ rw e (ground arith)
]

All-settle_observation :
    (now : Time) (states : List MetricAvailability) (os : List Observation)
    → All (IsDated now) os
    → All (IsDated now) (map (settle_observation states) os)
All-settle_observation now states [] h = tt
All-settle_observation now states (o ∷ os) h =
    let (_, _, freshness, captured) = settle_observation-keeps states o in
    (rw (freshness, captured) h.0, All-settle_observation now states os h.1)

-- Another turn of the tally for an observation that differs in its availability only.
tally-settle_observation :
    (states : List MetricAvailability) (key : String) (os : List Observation) (t : Tally)
    → tally key (map (settle_observation states) os) t ≡ tally key os t
unfolding tally count_in
tally-settle_observation states key [] t = refl
tally-settle_observation states key (o ∷ os) t =
    let (metric, value, freshness, _) = settle_observation-keeps states o in
    rw (metric, value, freshness)
      (tally-settle_observation states key os (if o.metric.key == key then count_in o t else t))

-- An available metric, by the last row of its key, rests on fresh and undisputed observations, if on
-- any: by the tally, and by the observations.
unfoldable pub all_supported : List Observation → List MetricAvailability → Bool
unfolding supported
all_supported os [] = true
all_supported os (a ∷ more) =
    (has_key a.metric_key more
      || a.state != availability_available
      || supported (tally a.metric_key os no_tally))
    && all_supported os more

settle_state-key :
    (t : Tally) (a : MetricAvailability) → (settle_state t a).metric_key ≡ a.metric_key
unfolding settle_state
settle_state-key t a = ground arith

settle_state-supported :
    (t : Tally) (a : MetricAvailability)
    → ((settle_state t a).state != availability_available || supported t) ≡ true
unfolding settle_state supported
settle_state-supported t a =
    elim (Bool-cases (is_none t.value || a.state != availability_available)) [
      | inl kept ↦ rw kept (ground arith)
      | inr active ↦ elim (Bool-cases t.contradictory) [
        | inl disputed ↦ rw (active, disputed) refl
        | inr clear ↦ elim (Bool-cases t.fresh) [
          | inl new ↦ rw (active, clear, new) (ground arith)
          | inr old ↦ rw (active, clear, old) refl
        ]
      ]
    ]

has_key-settle_states :
    (key : String) (os : List Observation) (states : List MetricAvailability)
    → has_key key (settle_states os states) ≡ has_key key states
unfolding has_key settle_states
has_key-settle_states key os [] = refl
has_key-settle_states key os (a ∷ more) =
    let ih = has_key-settle_states key os more in
    elim (Bool-cases (has_key a.metric_key more)) [
      | inl later ↦ rw (later, ih) refl
      | inr last ↦ rw (last, ih, settle_state-key (tally a.metric_key os no_tally) a) refl
    ]

settle_states-supported :
    (os : List Observation) (states : List MetricAvailability)
    → all_supported os (settle_states os states) ≡ true
unfolding all_supported settle_states
settle_states-supported os [] = refl
settle_states-supported os (a ∷ more) =
    let ih = settle_states-supported os more in
    let keys = has_key-settle_states a.metric_key os more in
    let t = tally a.metric_key os no_tally in
    elim (Bool-cases (has_key a.metric_key more)) [
      | inl later ↦ rw (later, keys, later, ih) refl
      | inr last ↦ rw (last, settle_state-key t a, keys, last, ih, settle_state-supported t a) refl
    ]

all_supported-map :
    (states : List MetricAvailability) (os : List Observation) (rows : List MetricAvailability)
    → all_supported (map (settle_observation states) os) rows ≡ all_supported os rows
unfolding all_supported
all_supported-map states os [] = refl
all_supported-map states os (a ∷ more) =
    rw (tally-settle_observation states a.metric_key os no_tally, all_supported-map states os more)
      refl

finalize-cases :
    (s : Snapshot) (now : Time) (s' : Snapshot)
    → finalize_snapshot s now ≡ some s'
    → (os : List Observation) × (finalize_observations s now s.observations ≡ some os)
      × (settled s (project_current_quota_windows now os) ≡ s')
unfolding finalize_snapshot
finalize-cases s now s' h = elim (Option-cases (finalize_observations s now s.observations)) [
  | inl bad ↦ let clash : none ≡ some s' = rw bad at h in cc
  | inr (os, good) ↦
      let e : some (settled s (project_current_quota_windows now os)) ≡ some s' = rw good at h in
      (os, good, cc)
]

unfoldable pub all_backed : List Observation → List MetricAvailability → Bool
unfolding is_unobserved some_fresh agree
all_backed os [] = true
all_backed os (a ∷ more) =
    (has_key a.metric_key more
      || a.state != availability_available
      || (is_unobserved a.metric_key os || (some_fresh a.metric_key os && agree a.metric_key os)))
    && all_backed os more

all_supported-backed :
    (os : List Observation) (rows : List MetricAvailability)
    → all_backed os rows ≡ all_supported os rows
unfolding all_backed all_supported
all_supported-backed os [] = refl
all_supported-backed os (a ∷ more) =
    rw (supported-tally a.metric_key os, all_supported-backed os more) refl

-- In a finalized snapshot no observation lies ahead of now, and one is marked as fresh exactly if it
-- was captured in the last ten minutes; and where a metric is available, by the last row of its key,
-- the observations of it that are left, if any, all have the value of the first of them and one of
-- them is fresh.
pub finalize_snapshot-current :
    (s : Snapshot) (now : Time) (s' : Snapshot)
    → finalize_snapshot s now ≡ some s'
    → All (IsDated now) s'.observations × (all_backed s'.observations s'.availability ≡ true)
unfolding project_current_quota_windows
finalize_snapshot-current s now s' h =
    let (os, good, e) = finalize-cases s now s' h in
    let left = project_current_quota_windows now os in
    let rows = settle_states left (map fill_reason s.availability) in
    subst
      (λ r. All (IsDated now) r.observations × (all_backed r.observations r.availability ≡ true)) e
      (
        All-settle_observation now rows left (
            All-keep_current (IsDated now) now os os
              (finalize_observations-IsDated s now s.observations os good)),
        all_supported-backed (map (settle_observation rows) left) rows
            ∙ all_supported-map rows left rows
            ∙ settle_states-supported left (map fill_reason s.availability),
      )
