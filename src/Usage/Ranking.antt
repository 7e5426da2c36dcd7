-- ===== src/Usage/Ranking.antt =====
-- internal/usage/ranking.go: Rank. The parallel arrays of the code (profiles, evidence, candidates,
-- dominated) are one list of entries here.
pub mod Dominance
pub mod Counts
pub mod Choosing
pub mod Maximum
pub mod Winner
pub mod Examples
use codex_folio.Base.{
  ℕ, zero, suc, ◌+◌, Bool, true, false, ◌&&◌, ◌||◌, not, List, [], ◌∷◌, Option, none, some, String,
  ltb, eqb, ◌==◌, ◌!=◌, string_eq, Time, Duration, before, since, map, length, if◌then◌else◌,
}
use codex_folio.Usage.Types.{
  Observation, Snapshot, no_snapshot, ProfileTarget, metric_eq, float_lt, float_eq, hundred,
  windows_overlap,
}
use codex_folio.Usage.Capacity.{
  CapacityState, fresh, stale, ineligible, lacking, contradictory, incompatible, provider_capacity,
}

pub record Candidate : Type 0 where
  pub profile_id : String
  pub alias : String
  pub eligible : Bool
  pub capacity_state : CapacityState

pub record Entry : Type 0 where
  pub scope : Snapshot
  pub candidate : Candidate
  pub evidence : List Observation
  pub dominated : ℕ

-- byProfile[id]: the last snapshot of the profile, or the zero value.
unfoldable pub by_profile : String → List Snapshot → Snapshot → Snapshot
by_profile id [] found = found
by_profile id (s ∷ ss) found = by_profile id ss (if s.profile_id == id then s else found)

unfoldable pub entry_of : List Snapshot → Time → Bool → ProfileTarget → Entry
entry_of snapshots now compatible p =
    let scope = by_profile p.id snapshots no_snapshot in
    let eligible = p.eligible && compatible && p.id != "" in
    let (evidence, state) = if eligible then provider_capacity scope now else ([], ineligible) in
    record {
      scope = scope;
      candidate = record {
        profile_id = p.id;
        alias = p.alias;
        eligible = eligible;
        capacity_state = state;
      };
      evidence = evidence;
      dominated = 0;
    }

abbrev pub is_fresh : CapacityState → Bool
is_fresh fresh = true
is_fresh stale = false
is_fresh ineligible = false
is_fresh (lacking r) = false

abbrev pub is_stale : CapacityState → Bool
is_stale stale = true
is_stale fresh = false
is_stale ineligible = false
is_stale (lacking r) = false

abbrev pub is_contradictory : CapacityState → Bool
is_contradictory (lacking contradictory) = true
is_contradictory _ = false

-- An eligible profile whose capacity is not known makes the ranking uncertain.
unfoldable pub is_unknown : Entry → Bool
is_unknown e =
    e.candidate.eligible
    && not (is_fresh e.candidate.capacity_state)
    && not (is_stale e.candidate.capacity_state)

unfoldable pub any_unknown : List Entry → Bool
any_unknown [] = false
any_unknown (e ∷ es) = is_unknown e || any_unknown es

pub record Verdict : Type 0 where
  pub left_better : Bool
  pub right_better : Bool
  pub compatible : Bool
  pub contradictory : Bool

-- The length of a window. An observation that is evidence has both ends.
unfoldable pub window_length : Option Time → Option Time → Duration
window_length (some start) (some end) = since start end
window_length (some start) none = 0
window_length none end = 0

unfoldable pub same_terms : Observation → Observation → Bool
unfolding window_length
same_terms a b =
    metric_eq a.metric b.metric
    && a.source == b.source
    && a.source_version == b.source_version
    && a.window_timezone == b.window_timezone
    && eqb (window_length a.window_start a.window_end) (window_length b.window_start b.window_end)

-- One turn of the loop over the windows of two profiles.
unfoldable pub compare_window : Bool → Observation → Observation → Verdict → Verdict
compare_window shared a b v = record {
  left_better = v.left_better || float_lt a.value b.value;
  right_better = v.right_better || float_lt b.value a.value;
  compatible = v.compatible && same_terms a b;
  contradictory =
      v.contradictory
      || (shared && a.source == b.source && windows_overlap a b && not (float_eq a.value b.value));
}

-- The loop. Both profiles hold the same number of windows.
unfoldable pub compare_windows : Bool → List Observation → List Observation → Verdict → Verdict
unfolding compare_window
compare_windows shared [] bs v = v
compare_windows shared (a ∷ more) [] v = v
compare_windows shared (a ∷ more) (b ∷ bs) v =
    compare_windows shared more bs (compare_window shared a b v)

unfoldable pub is_shared : Snapshot → Snapshot → Bool
is_shared l r =
    l.login_identity != ""
    && l.workspace != ""
    && l.login_identity == r.login_identity
    && l.workspace == r.workspace

unfoldable pub judge : Entry → Entry → Verdict
judge l r =
    compare_windows (is_shared l.scope r.scope) l.evidence r.evidence (record {
      left_better = false;
      right_better = false;
      compatible = true;
      contradictory = false;
    })

-- A contradiction is not overwritten.
unfoldable pub mark : CapacityState → Entry → Entry
mark state e =
    if is_contradictory e.candidate.capacity_state
    then e
    else record e { candidate = record (e.candidate) { capacity_state = state } }

unfoldable pub dominate : Entry → Entry
dominate e = record e { dominated = suc e.dominated }

unfoldable pub settle : Verdict → Entry → Entry → Entry × Entry × Bool
unfolding mark
settle v l r =
    let state = lacking (if v.contradictory then contradictory else incompatible) in
    if v.contradictory || not v.compatible
    then (mark state l, mark state r, true)
    else if v.left_better && not v.right_better
    then (l, dominate r, false)
    else if v.right_better && not v.left_better
    then (dominate l, r, false)
    else (l, r, false)

abbrev pub is_empty {ℓ} : {A : Type ℓ} → List A → Bool
is_empty [] = true
is_empty (x ∷ xs) = false

abbrev keep_right : Entry → Entry × List Entry × Bool → Entry × List Entry × Bool
keep_right r (l, rs, u) = (l, r ∷ rs, u)

abbrev keep_left : Entry → List Entry × Bool → List Entry × Bool
keep_left l (rs, u) = (l ∷ rs, u)

-- The inner loop: the left profile against those to its right.
unfoldable pub versus : Entry → List Entry → Bool → Entry × List Entry × Bool
versus l [] uncertain = (l, [], uncertain)
versus l (r ∷ rs) uncertain =
    let skip = keep_right r (versus l rs uncertain) in
    let (l1, r1, u1) = settle (judge l r) l r in
    let take = keep_right r1 (versus l1 rs (uncertain || u1)) in
    if is_empty r.evidence then skip else take

-- The outer loop, by the rounds left.
unfoldable pub compare_all : ℕ → List Entry → Bool → List Entry × Bool
compare_all zero es uncertain = (es, uncertain)
compare_all (suc n) [] uncertain = ([], uncertain)
compare_all (suc n) (l ∷ rs) uncertain =
    let skip = keep_left l (compare_all n rs uncertain) in
    let (l', rs', u') = versus l rs uncertain in
    let take = keep_left l' (compare_all n rs' u') in if is_empty l.evidence then skip else take

unfoldable pub any_exhausted : List Observation → Bool
any_exhausted [] = false
any_exhausted (o ∷ os) = float_eq o.value hundred || any_exhausted os

pub record Choice : Type 0 where
  pub recommended : String
  pub winners : ℕ
  pub uncertain : Bool

unfoldable pub is_winner : Entry → Bool
is_winner e = is_fresh e.candidate.capacity_state && eqb e.dominated 0

-- One turn of the loop over the candidates, for a winner and for any candidate.
unfoldable pub won_by : Entry → Choice → Choice
won_by e c = record {
  recommended = e.candidate.profile_id;
  winners = suc c.winners;
  uncertain = c.uncertain || any_exhausted e.evidence;
}

unfoldable pub consider : Entry → Choice → Choice
unfolding won_by
consider e c = if is_winner e then won_by e c else c

unfoldable pub choose : List Entry → Choice → Choice
choose [] c = c
choose (e ∷ es) c = choose es (consider e c)

unfoldable pub recommend : List Entry → Bool → String
recommend es uncertain =
    let c = choose es (record { recommended = ""; winners = 0; uncertain = uncertain }) in
    if c.uncertain || not (eqb c.winners 1) then "" else c.recommended

-- order[id]: the count of the last entry with the id.
unfoldable pub order_of : String → List Entry → ℕ → ℕ
order_of id [] found = found
order_of id (e ∷ es) found =
    order_of id es (if e.candidate.profile_id == id then e.dominated else found)

unfoldable pub group : Candidate → ℕ
group c =
    if not c.eligible
    then 3
    else if is_fresh c.capacity_state
    then 0
    else if is_stale c.capacity_state
    then 1
    else 2

-- `sort_slice` is sort.Slice, `to_lower` strings.ToLower and `text_lt` the order of texts.
module _ (sort_slice : (Candidate → Candidate → Bool) → List Candidate → List Candidate)
    (to_lower : String → String) (text_lt : String → String → Bool) where
  unfoldable pub candidate_less : List Entry → Candidate → Candidate → Bool
  candidate_less es a b =
      let order_a = order_of a.profile_id es 0 in
      let order_b = order_of b.profile_id es 0 in
      if not (eqb (group a) (group b))
      then ltb (group a) (group b)
      else if is_fresh a.capacity_state && is_fresh b.capacity_state && not (eqb order_a order_b)
      then ltb order_a order_b
      else if to_lower a.alias != to_lower b.alias
      then text_lt (to_lower a.alias) (to_lower b.alias)
      else text_lt a.profile_id b.profile_id

  unfoldable pub rank : List ProfileTarget → List Snapshot → Time → Bool → List Candidate × String
  rank profiles snapshots now compatible =
      let entries = map (entry_of snapshots now compatible) profiles in
      let (compared, uncertain) = compare_all (length entries) entries (any_unknown entries) in
      (
        sort_slice (candidate_less compared) (map (λ e. e.candidate) compared),
        recommend compared uncertain,
      )
