-- ===== src/Launch/Traces.antt =====
-- The launches as a state machine: the operations of internal/store/launches.go as steps, and what
-- holds of every state that they reach.
use codex_folio.Base.{
  done, ℕ, ◌+◌, ◌≡◌, ◌≤◌, ◌≢◌, refl, sym, subst, true, false, ◌&&◌, String, List, [], ◌∷◌, Option,
  none, some, ◌==◌, ◌!=◌, string_eq, eqb, arith, Bool-cases, inl, inr,
}
use codex_folio.Launch.Records.{
  Checkpoint, Launch, Tables, Environment, Statement, begin, commit, read_launch, update_launch,
  update_checkpoint, is_pending, is_launching, has_status, find_launch, update_launches,
  affected_launches, affects_checkpoint,
}
use codex_folio.Launch.Prepare.{PrepareRequest, Plan, prepare_launch}
use codex_folio.Launch.Marks.{
  Inspector, mark_managed_launch_started, mark_managed_launch_exited, mark_managed_launch_abandoned,
  reconcile_managed_launches, complete_checkpoint, mark_started_row,
}
use codex_folio.Launch.Counts.{distinct, count, bit, bit-count, find_launch-All}
use codex_folio.Launch.Invariant.{IsSound, IsRow, claims, started, names, balanced, balanced_status}
use codex_folio.Launch.Soundness.{
  mark_managed_launch_started-IsSound, mark_managed_launch_exited-IsSound,
  mark_managed_launch_abandoned-IsSound,
}
use codex_folio.Launch.Handoff.{prepare_launch-IsSound}
use codex_folio.Launch.Reconcile.{reconcile_managed_launches-IsSound}

-- An operation that ends without an error; one that fails leaves the tables as they are.
pub data Step : Tables → Tables → Type 0 where
  prepares :
      (env : Environment) (request : PrepareRequest) (plan : Plan) (t t' : Tables)
      → prepare_launch env request t ≡ done (plan, t')
      → Step t t'
  starts :
      (env : Environment) (lease : String) (pid : ℕ) (t t' : Tables)
      → mark_managed_launch_started env lease pid t ≡ done t'
      → Step t t'
  exits :
      (env : Environment) (lease : String) (status : ℕ) (t t' : Tables)
      → mark_managed_launch_exited env lease status t ≡ done t'
      → Step t t'
  abandons :
      (env : Environment) (lease : String) (t t' : Tables)
      → mark_managed_launch_abandoned env lease t ≡ done t'
      → Step t t'
  reconciles :
      (env : Environment) (inspector : Option Inspector) (t t' : Tables)
      → reconcile_managed_launches env inspector t ≡ done t'
      → Step t t'

-- No launch yet, so no checkpoint is being launched.
pub record IsInitial (t : Tables) : Type 0 where
  pub no_launches : t.launches ≡ []
  pub none_launching : (c : String) → has_status is_launching (t.checkpoints c) ≡ false

pub data Reachable : Tables → Type 0 where
  initial : (t : Tables) → IsInitial t → Reachable t
  next : (t t' : Tables) → Reachable t → Step t t' → Reachable t'

initial-balanced :
    (o : Option Checkpoint) → has_status is_launching o ≡ false → balanced o 0 0 ≡ true
unfolding balanced balanced_status
initial-balanced none h = refl
initial-balanced (some c) h = ground arith

pub initial-IsSound : (t : Tables) → IsInitial t → IsSound t
initial-IsSound t h =
    subst (λ ls. IsSound (record t { launches = ls })) (sym h.no_launches)
      (record {
        rows = tt;
        leases = unfold distinct in refl;
        balance = λ c. unfold count in initial-balanced (t.checkpoints c) (h.none_launching c);
      })

pub Step-IsSound : (t t' : Tables) → Step t t' → IsSound t → IsSound t'
Step-IsSound _ _ (prepares env request plan t t' h) s =
    prepare_launch-IsSound env request t plan t' s h
Step-IsSound _ _ (starts env lease pid t t' h) s =
    mark_managed_launch_started-IsSound env lease pid t t' s h
Step-IsSound _ _ (exits env lease status t t' h) s =
    mark_managed_launch_exited-IsSound env lease status t t' s h
Step-IsSound _ _ (abandons env lease t t' h) s =
    mark_managed_launch_abandoned-IsSound env lease t t' s h
Step-IsSound _ _ (reconciles env inspector t t' h) s =
    reconcile_managed_launches-IsSound env inspector t t' s h

-- The tables stay sound along every sequence of operations: leases are distinct, the columns of a
-- row go with its state, and the launches of a checkpoint go with its status.
pub Reachable-IsSound : (t : Tables) → Reachable t → IsSound t
Reachable-IsSound _ (initial t h) = initial-IsSound t h
Reachable-IsSound _ (next t t' r step) = Step-IsSound t t' step (Reachable-IsSound t r)

pub balanced-once :
    (o : Option Checkpoint) (p s : ℕ)
    → balanced o p s ≡ true
    → (p + s ≤ 1) × (has_status is_launching o ≡ eqb p 1)
unfolding balanced balanced_status
balanced-once none p s h = ground arith
balanced-once (some c) p s h = ground arith

-- From tables without a launch and without a checkpoint that is launching, however the operations
-- are ordered, and whichever of them fail: of all launches that they record for
-- a checkpoint, at most one is pending or was ever given a process, and the checkpoint is launching
-- exactly while one is pending.
pub handoff_once :
    (t : Tables) (c : String)
    → Reachable t
    → (count (claims c) t.launches + count (started c) t.launches ≤ 1)
      × (has_status is_launching (t.checkpoints c) ≡ eqb (count (claims c) t.launches) 1)
handoff_once t c r = balanced-once (t.checkpoints c) _ _ ((Reachable-IsSound t r).balance c)

claimed-launching :
    (o : Option Checkpoint) (p s : ℕ)
    → balanced o p s ≡ true
    → 1 ≤ p
    → has_status is_launching o ≡ true
unfolding balanced balanced_status
claimed-launching none p s h k = absurd (ground arith)
claimed-launching (some c) p s h k = ground arith

affected-found :
    (lease : String) (row : Launch) (ls : List Launch)
    → find_launch lease is_pending ls ≡ some row
    → eqb (affected_launches lease is_pending ls) 0 ≡ false
unfolding find_launch affected_launches
affected-found lease row [] h = cc
affected-found lease row (l ∷ ls) h =
    elim (Bool-cases (l.lease_id == lease && is_pending l.state)) [
      | inl hit ↦ rw hit (ground arith)
      | inr miss ↦ rw miss (ground (arith, affected-found lease row ls (rw miss at h)))
    ]

pending-claims :
    (row : Launch) (id : String)
    → is_pending row.state ≡ true
    → row.checkpoint_id ≡ some id
    → bit (claims id row) ≡ 1
unfolding claims bit names
pending-claims row id p e = let same = (string_eq.is_same_iff id id).1 refl in rw (p, e, same) refl

complete-succeeds :
    (env : Environment) (o : Option String) (t : Tables)
    → env.works update_checkpoint ≡ true
    → ((id : String) → o ≡ some id → has_status is_launching (t.checkpoints id) ≡ true)
    → (t' : Tables) × (complete_checkpoint env o t ≡ done t')
unfolding complete_checkpoint affects_checkpoint
complete-succeeds env none t w h = (t, refl)
complete-succeeds env (some id) t w h = let hit = h id refl in rw (w, hit) (_, refl)

-- In a state that the operations reach, with a database that works, a start report for a pending
-- lease and a process is never refused: the checkpoint of a pending launch is always launching, so
-- the check on the row of the checkpoint passes.
pub start_accepted :
    (env : Environment) (lease : String) (pid : ℕ) (t : Tables) (row : Launch)
    → Reachable t
    → ((s : Statement) → env.works s ≡ true)
    → (env.trim_space lease != "") ≡ true
    → pid ≢ 0
    → find_launch lease is_pending t.launches ≡ some row
    → (t' : Tables) × (mark_managed_launch_started env lease pid t ≡ done t')
unfolding mark_managed_launch_started
start_accepted env lease pid t row r works named positive is_there =
    let s = Reachable-IsSound t r in
    let (_, p) = find_launch-All IsRow lease is_pending row t.launches s.rows is_there in
    let some_pid : eqb pid 0 ≡ false = ground arith in
    let hits = affected-found lease row t.launches is_there in
    let t0 : Tables = record t {
      launches = update_launches lease is_pending (mark_started_row pid) t.launches;
    } in
    let (t1, e) = complete-succeeds env row.checkpoint_id t0 (works update_checkpoint) (λ id q.
      claimed-launching (t.checkpoints id) _ _ (s.balance id) (
        omega (
          arith,
          pending-claims row id p q,
          bit-count lease is_pending (mark_started_row pid) (claims id) row t.launches is_there,
        ))) in
    rw
      (
        named,
        some_pid,
        works begin,
        works read_launch,
        is_there,
        works update_launch,
        hits,
        e,
        works commit,
      )
      (t1, refl)
