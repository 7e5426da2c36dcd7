-- ===== src/Alerts/Rows.antt =====
-- internal/store/alerts.go: the table of alerts and the statements on it. A stored time is its
-- instant: the texts of times compare, without their Z, as the instants do.
pub mod Claims
pub mod Table
pub mod Invariant
pub mod Shown
pub mod Sync
pub mod History
pub mod Traces
pub mod Examples
use codex_folio.Base.{
  Attempt, done, fails, ◌>>=◌, require, require_some, ℕ, zero, suc, ◌+◌, Bool, true, false, ◌&&◌,
  ◌||◌, not, String, List, [], ◌∷◌, ◌++◌, Option, none, some, ◌==◌, ◌!=◌, string_eq, Time, eqb, leb,
  ltb, is_zero, is_some, if◌then◌else◌,
}
use codex_folio.Usage.Types.{Float, float_le, float_zero, hundred}
use codex_folio.Alerts.Evaluate.{Key, Condition}

pub data AlertState : Type 0 where
  opened acknowledged resolved : AlertState

pub data DeliveryState : Type 0 where
  pending attempting delivered failed unavailable : DeliveryState

abbrev pub is_open : AlertState → Bool
is_open opened = true
is_open acknowledged = false
is_open resolved = false

abbrev pub is_resolved : AlertState → Bool
is_resolved resolved = true
is_resolved opened = false
is_resolved acknowledged = false

-- IN ('pending', 'failed', 'unavailable')
abbrev pub is_claimable : DeliveryState → Bool
is_claimable pending = true
is_claimable failed = true
is_claimable unavailable = true
is_claimable attempting = false
is_claimable delivered = false

abbrev pub is_attempting : DeliveryState → Bool
is_attempting attempting = true
is_attempting pending = false
is_attempting delivered = false
is_attempting failed = false
is_attempting unavailable = false

abbrev pub is_unavailable : DeliveryState → Bool
is_unavailable unavailable = true
is_unavailable pending = false
is_unavailable attempting = false
is_unavailable delivered = false
is_unavailable failed = false

abbrev pub delivery_max_attempts : ℕ
delivery_max_attempts = 3

-- The columns on the delivery of a row.
pub record Delivery : Type 0 where
  pub state : DeliveryState
  pub attempts : ℕ
  pub last_attempt_at : Option Time
  pub next_attempt_at : Option Time
  pub delivered_at : Option Time
  pub error_code : String

abbrev pub no_delivery : Delivery
no_delivery = record {
  state = pending;
  attempts = 0;
  last_attempt_at = none;
  next_attempt_at = none;
  delivered_at = none;
  error_code = "";
}

-- A row of alerts. `condition` holds the columns that a condition fills; its times of evidence and
-- observation are stored as they are, the zero time as NULL.
pub record Row : Type 0 where
  pub id : String
  pub condition_key : String
  pub profile_id : Option String
  pub condition : Condition
  pub state : AlertState
  pub first_seen_at : Time
  pub last_seen_at : Time
  pub acknowledged_at : Option Time
  pub resolved_at : Option Time
  pub occurrence_count : ℕ
  pub delivery : Delivery

pub data StoreError : Type 0 where
  request_invalid read_failed write_failed : StoreError

pub data Statement : Type 0 where
  begin commit lookup insert update select_unresolved resolve prune acknowledge claim
        record_delivery list :
      Statement

-- What is called outside: the database, the random identifiers, and ORDER BY. `new_id` may depend on
-- the key for which an identifier is made.
pub record Environment : Type 0 where
  pub works : Statement → Bool
  pub new_id : String → Option String
  pub key_text : Key → String
  pub profile_exists : String → Bool
  -- The resolved rows, last seen first.
  pub by_last_seen : List Row → List Row
  -- The rows of a listing: the open ones, the acknowledged ones and the resolved ones, last seen first.
  pub by_state : List Row → List Row

-- nullableAlertProfile
unfoldable pub nullable_alert_profile : String → Option String
nullable_alert_profile value = if value == "" then none else some value

-- SELECT ... WHERE condition_key = ?
unfoldable pub find_key : String → List Row → Option Row
find_key key [] = none
find_key key (r ∷ rs) = if r.condition_key == key then some r else find_key key rs

unfoldable pub has_id : String → List Row → Bool
has_id id [] = false
has_id id (r ∷ rs) = r.id == id || has_id id rs

-- UPDATE ... WHERE alert_id = ? AND ..., and the number of rows that it affects.
unfoldable pub update_id : String → (Row → Bool) → (Row → Row) → List Row → List Row
update_id id test change [] = []
update_id id test change (r ∷ rs) =
    (if r.id == id && test r then change r else r) ∷ update_id id test change rs

unfoldable pub affected : String → (Row → Bool) → List Row → ℕ
affected id test [] = 0
affected id test (r ∷ rs) = (if r.id == id && test r then 1 else 0) + affected id test rs

abbrev pub any_row : Row → Bool
any_row r = true

-- The CHECK on remaining_percent.
abbrev pub valid_remaining : Option Float → Bool
valid_remaining none = true
valid_remaining (some v) = float_le float_zero v && float_le v hundred

abbrev pub known_profile : Environment → Option String → Bool
known_profile env none = true
known_profile env (some id) = env.profile_exists id

unfoldable pub new_row : Environment → Time → String → Condition → Row
unfolding nullable_alert_profile
new_row env now id c = record {
  id = id;
  condition_key = env.key_text c.key;
  profile_id = nullable_alert_profile c.key.profile_id;
  condition = c;
  state = opened;
  first_seen_at = now;
  last_seen_at = now;
  acknowledged_at = none;
  resolved_at = none;
  occurrence_count = 1;
  delivery = no_delivery;
}

-- Is this another reading than the one on which the row rests?
unfoldable pub is_new_evidence : Row → Condition → Bool
is_new_evidence r c =
    is_resolved r.state || not (eqb r.condition.evidence_captured_at c.evidence_captured_at)

-- The update of a row by a condition: a resolved row is opened again.
unfoldable pub touch : Time → Condition → Row → Row
unfolding is_new_evidence
touch now c r = record r {
  condition = c;
  last_seen_at = if is_new_evidence r c then now else r.last_seen_at;
  occurrence_count = r.occurrence_count + (if is_new_evidence r c then 1 else 0);
  state = if is_resolved r.state then opened else r.state;
  acknowledged_at = if is_resolved r.state then none else r.acknowledged_at;
  resolved_at = none;
  delivery = if is_resolved r.state then no_delivery else r.delivery;
}

abbrev pub Outcome : Type 0 → Type 0
Outcome A = Attempt StoreError A

unfoldable pub insert_row : Environment → Time → Condition → List Row → Outcome (List Row)
insert_row env now c rows = do
  id ← require_some (env.new_id (env.key_text c.key)) write_failed
  _ ← require (env.works insert) write_failed
  _ ← require (not (has_id id rows)) write_failed
  _ ←
      require
        (valid_remaining c.remaining_percent
          && known_profile env (nullable_alert_profile c.key.profile_id))
        write_failed
  done (rows ++ new_row env now id c ∷ [])

unfoldable pub update_row : Environment → Time → Condition → Row → List Row → Outcome (List Row)
update_row env now c r rows = do
  _ ← require (env.works update && valid_remaining c.remaining_percent) write_failed
  done (update_id r.id any_row (touch now c) rows)

abbrev pub insert_or_update :
    Environment → Time → Condition → List Row → Option Row → Outcome (List Row)
insert_or_update env now c rows none = insert_row env now c rows
insert_or_update env now c rows (some r) = update_row env now c r rows

-- One turn of the loop over the conditions, and the loop.
unfoldable pub sync_condition : Environment → Time → Condition → List Row → Outcome (List Row)
sync_condition env now c rows = do
  _ ← require (env.works lookup) write_failed
  insert_or_update env now c rows (find_key (env.key_text c.key) rows)

unfoldable pub sync_conditions : Environment → Time → List Condition → List Row → Outcome (List Row)
unfolding sync_condition
sync_conditions env now [] rows = done rows
sync_conditions env now (c ∷ cs) rows =
    sync_condition env now c rows >>= λ rows'. sync_conditions env now cs rows'

-- active[key]
unfoldable pub is_active : Environment → List Condition → String → Bool
is_active env [] key = false
is_active env (c ∷ cs) key = env.key_text c.key == key || is_active env cs key

abbrev pub in_scope : String → Option String → Bool
in_scope profile none = profile == ""
in_scope profile (some id) = profile == "" || id == profile

unfoldable pub is_absent : Environment → String → List Condition → Row → Bool
unfolding is_active
is_absent env profile cs r =
    not (is_resolved r.state)
    && in_scope profile r.profile_id
    && not (is_active env cs r.condition_key)

unfoldable pub absent_ids : Environment → String → List Condition → List Row → List String
unfolding is_absent
absent_ids env profile cs [] = []
absent_ids env profile cs (r ∷ rs) =
    if is_absent env profile cs r
    then r.id ∷ absent_ids env profile cs rs
    else absent_ids env profile cs rs

unfoldable pub resolve_row : Time → Row → Row
resolve_row now r = record r { state = resolved; resolved_at = some now }

unfoldable pub resolve_ids : Time → List String → List Row → List Row
resolve_ids now [] rows = rows
resolve_ids now (id ∷ ids) rows = resolve_ids now ids (update_id id any_row (resolve_row now) rows)

unfoldable pub select_rows : (Row → Bool) → List Row → List Row
select_rows test [] = []
select_rows test (r ∷ rs) = if test r then r ∷ select_rows test rs else select_rows test rs

unfoldable pub skip : ℕ → List Row → List Row
skip zero rows = rows
skip (suc n) [] = []
skip (suc n) (r ∷ rows) = skip n rows

abbrev pub row_resolved : Row → Bool
row_resolved r = is_resolved r.state

-- DELETE of the resolved rows behind the first `limit`.
unfoldable pub prune_history : Environment → ℕ → List Row → List Row
unfolding select_rows skip
prune_history env limit rows =
    let old = skip limit (env.by_last_seen (select_rows row_resolved rows)) in
    select_rows (λ r. not (is_resolved r.state && has_id r.id old)) rows

unfoldable pub sync_alerts :
    Environment → String → List Condition → Time → ℕ → List Row → Outcome (List Row)
unfolding sync_conditions absent_ids resolve_ids prune_history
sync_alerts env profile cs now limit rows = do
  _ ← require (not (is_zero now) && leb 1 limit) request_invalid
  _ ← require (env.works begin) write_failed
  rows' ← sync_conditions env now cs rows
  _ ← require (env.works select_unresolved) write_failed
  _ ← require (env.works resolve) write_failed
  _ ← require (env.works prune) write_failed
  _ ← require (env.works commit) write_failed
  done (prune_history env limit (resolve_ids now (absent_ids env profile cs rows') rows'))
