-- ===== src/Usage/Finalize/Windows.antt =====
-- The quota windows that a finalized snapshot keeps, and its status (internal/usage/usage.go,
-- projectCurrentQuotaWindows and snapshotStatus).
use codex_folio.Base.{
  ◌≡◌, refl, sym, ap, subst, ◌∙◌, ◌⊎◌, inl, inr, Bool, true, false, ◌&&◌, ◌||◌, not, List, [], ◌∷◌,
  Option, none, some, String, ◌==◌, string_eq, Time, before, if◌then◌else◌, All, arith, Bool-cases,
  Option-cases,
}
use codex_folio.Usage.Types.{
  Observation, MetricAvailability, provenance_provider, availability_contradictory,
  availability_partial,
}
use codex_folio.Usage.Finalize.{
  Window, prefer, window_at, prefer_if_any, selected_window, in_window, stays, keep_current,
  project_current_quota_windows, status_loop, snapshot_status,
}

-- A window whose activity is what its ends say.
abbrev pub is_current : Time → Window → Bool
is_current now w = not (before now w.start) && before now w.end

unfoldable honest : Time → Option Window → Bool
honest now none = true
honest now (some w) = (w.active && is_current now w) || (not w.active && not (is_current now w))

abbrev is_active : Option Window → Bool
is_active none = false
is_active (some w) = w.active

abbrev is_quota : String → Observation → Bool
is_quota key o =
    o.metric.key == key
    && o.metric.scope == "provider_quota_window"
    && o.provenance == provenance_provider

abbrev covers_now : Time → Option Time → Option Time → Bool
covers_now now (some start) (some end) = not (before now start) && before now end
covers_now now (some start) none = false
covers_now now none end = false

-- Does a window of the metric that the provider reports cover now?
unfoldable pub any_current : Time → String → List Observation → Bool
any_current now key [] = false
any_current now key (o ∷ os) =
    (is_quota key o && covers_now now o.window_start o.window_end) || any_current now key os

prefer-honest :
    (now : Time) (w : Window) (current : Option Window)
    → honest now (some w) ≡ true
    → honest now current ≡ true
    → (honest now (prefer w current) ≡ true)
      × ((is_active (some w) || is_active current) ≡ is_active (prefer w current))
unfolding prefer honest
prefer-honest now w none h k = (h, ground arith)
prefer-honest now w (some v) h k = ground arith

step-honest :
    (now c : Time) (start end : Option Time) (current : Option Window)
    → honest now current ≡ true
    → let next = prefer_if_any (window_at now c start end) current in
      (honest now next ≡ true) × ((covers_now now start end || is_active current) ≡ is_active next)
unfolding honest
step-honest now c (some start) (some end) current h =
    let w : Window = record {
      start = start;
      end = end;
      captured_at = c;
      active = not (before now start) && before now end;
    } in
    prefer-honest now w current (ground arith) h
step-honest now c (some start) none current h = (h, refl)
step-honest now c none end current h = (h, refl)

selected_window-honest :
    (now : Time) (key : String) (os : List Observation) (current : Option Window)
    → honest now current ≡ true
    → let w = selected_window now key os current in
      (honest now w ≡ true) × ((any_current now key os || is_active current) ≡ is_active w)
unfolding selected_window any_current
selected_window-honest now key [] current h = (h, refl)
selected_window-honest now key (o ∷ os) current h = elim (Bool-cases (is_quota key o)) [
  | inl quota ↦
      let (h1, e1) = step-honest now o.captured_at o.window_start o.window_end current h in
      let (h2, e2) = selected_window-honest now key os _ h1 in rw quota (h2, ground (arith, e1, e2))
  | inr other ↦ let (h2, e2) = selected_window-honest now key os current h in rw other (h2, e2)
]

-- What is left of the metric lies in the window that its key selects.
keep_current-window :
    (now : Time) (key : String) (w : Window) (all os : List Observation)
    → selected_window now key all none ≡ some w
    → All
        (λ o. ((o.metric.key == key) ≡ false) ⊎ (in_window w o.window_start o.window_end ≡ true))
        (keep_current now all os)
unfolding keep_current stays
keep_current-window now key w all [] h = tt
keep_current-window now key w all (o ∷ os) h =
    let ih = keep_current-window now key w all os h in
    elim (Bool-cases (stays (selected_window now o.metric.key all none) o)) [
      | inr out ↦ rw out ih
      | inl in' ↦ rw in' (
        elim (Bool-cases (o.metric.key == key)) [
          | inr other ↦ inl other
          | inl same ↦
              let e : selected_window now o.metric.key all none ≡ some w =
                subst (λ k. selected_window now k all none ≡ some w)
                  (sym ((string_eq.is_same_iff o.metric.key key).0 same)) h in
              inr (ap (λ x. stays x o) (sym e) ∙ in')
        ],
        ih,
      )
    ]

-- Where a window of a metric that the provider reports covers now, the projection leaves of that
-- metric only observations in one and the same window, which covers now.
pub project_current_quota_windows-current :
    (now : Time) (key : String) (os : List Observation)
    → any_current now key os ≡ true
    → (w : Window) × (is_current now w ≡ true)
      × All
          (λ o. ((o.metric.key == key) ≡ false) ⊎ (in_window w o.window_start o.window_end ≡ true))
          (project_current_quota_windows now os)
unfolding project_current_quota_windows
project_current_quota_windows-current now key os h =
    let (sound, same) = selected_window-honest now key os none (unfold honest in refl) in
    elim (Option-cases (selected_window now key os none)) [
      | inl absent ↦
          let e : is_active (selected_window now key os none) ≡ false = rw absent refl in
          let k : true ≡ false = sym (ground (arith, h, same)) ∙ e in cc
      | inr (w, e) ↦
          let active : w.active ≡ true = sym (ap is_active e) ∙ sym same ∙ (ground arith) in
          let good : honest now (some w) ≡ true = ap (honest now) (sym e) ∙ sound in
          (w, unfold honest in (ground arith), keep_current-window now key w os os e)
    ]

-- The status by what the rows have in common.
pub any_state_is : String → List MetricAvailability → Bool
any_state_is state [] = false
any_state_is state (a ∷ more) = a.state == state || any_state_is state more

pub all_states_are : String → List MetricAvailability → Bool
all_states_are state [] = true
all_states_are state (a ∷ more) = a.state == state && all_states_are state more

same_branches :
    (b c : Bool) (x : String)
    → (if b then x else if c then availability_partial else availability_partial)
      ≡ (if b then x else availability_partial)
same_branches b true x = refl
same_branches b false x = refl

status_loop_lem :
    (state : String) (rows : List MetricAvailability)
    → status_loop state rows ≡ (
        if any_state_is availability_contradictory rows
        then availability_contradictory
        else if all_states_are state rows
        then state
        else availability_partial)
unfolding status_loop any_state_is all_states_are
status_loop_lem state [] = refl
status_loop_lem state (a ∷ more) = elim (Bool-cases (a.state == availability_contradictory)) [
  | inl disputed ↦ rw disputed refl
  | inr calm ↦ elim (Bool-cases (a.state == state)) [
    | inl same ↦ rw (calm, same) (status_loop_lem state more)
    | inr other ↦
        rw (calm, other)
          (status_loop_lem availability_partial more
            ∙ same_branches (any_state_is availability_contradictory more)
                (all_states_are availability_partial more) availability_contradictory)
  ]
]

-- The status of a snapshot with availability rows: contradictory if one of them is, else the state
-- that they share, else partial.
pub snapshot_status_closed :
    (a : MetricAvailability) (more : List MetricAvailability)
    → snapshot_status (a ∷ more) ≡ (
        if any_state_is availability_contradictory (a ∷ more)
        then availability_contradictory
        else if all_states_are a.state (a ∷ more)
        then a.state
        else availability_partial)
unfolding snapshot_status
snapshot_status_closed a more = status_loop_lem a.state (a ∷ more)
