-- ===== src/Launch/Invariant.antt =====
-- The invariant of the launches and their checkpoints (internal/store/launches.go), and the marks.
use codex_folio.Base.{
  ℕ, ◌+◌, ◌≡◌, Bool, true, false, ◌&&◌, String, Option, none, some, Time, ◌==◌, ◌!=◌, string_eq,
  is_none, is_some, arith, All, Bool-cases, inl, inr, eqb, leb,
}
use codex_folio.Launch.Records.{
  State, pending, running, exited, abandoned, Status, draft, approved, launching, completed,
  expired, Launch, Checkpoint, Tables, is_pending, is_approved, is_launching, has_status,
  map_checkpoint, move_status,
}
use codex_folio.Launch.Counts.{bit, count, distinct}

-- The columns that go with the state of a row; a checkpoint that is named has a name.
unfoldable pub fits_state : State → Option ℕ → Option Time → Option ℕ → Bool
fits_state pending pid ended status = is_none pid && is_none ended && is_none status
fits_state running pid ended status = is_some pid && is_none ended && is_none status
fits_state exited pid ended status = is_some pid && is_some ended && is_some status
fits_state abandoned pid ended status = is_some ended && is_none status

unfoldable pub is_named : Option String → Bool
is_named none = true
is_named (some id) = id != ""

abbrev pub IsRow : Launch → Type 0
IsRow l =
    (fits_state l.state l.process_id l.ended_at l.exit_status ≡ true)
    × (is_named l.checkpoint_id ≡ true)

unfoldable pub names : String → Option String → Bool
names c none = false
names c (some id) = c == id

-- The launches that have claimed the checkpoint, and those that were started from it.
unfoldable pub claims : String → Launch → Bool
claims c l = is_pending l.state && names c l.checkpoint_id

unfoldable pub started : String → Launch → Bool
started c l = is_some l.process_id && names c l.checkpoint_id

-- A checkpoint that is launching is claimed by one launch, and has started none; a completed one,
-- and one that has expired, perhaps after that, has started at most one; any other has no launch
-- that claims it or was started from it.
unfoldable pub balanced_status : Status → ℕ → ℕ → Bool
balanced_status launching p s = eqb p 1 && eqb s 0
balanced_status completed p s = eqb p 0 && leb s 1
balanced_status draft p s = eqb p 0 && eqb s 0
balanced_status approved p s = eqb p 0 && eqb s 0
balanced_status expired p s = eqb p 0 && leb s 1

unfoldable pub balanced : Option Checkpoint → ℕ → ℕ → Bool
balanced none p s = eqb p 0 && eqb s 0
balanced (some c) p s = balanced_status c.status p s

pub record IsSound (t : Tables) : Type 0 where
  pub rows : All IsRow t.launches
  pub leases : distinct t.launches ≡ true
  pub balance :
      (c : String)
      → balanced (t.checkpoints c) (count (claims c) t.launches) (count (started c) t.launches)
        ≡ true

-- The effect on the checkpoint of the row of each move.
pub complete-balanced :
    (o : Option Checkpoint) (p s p' s' : ℕ)
    → has_status is_launching o ≡ true
    → balanced o p s ≡ true
    → p' + 1 ≡ p
    → s' ≡ s + 1
    → balanced (map_checkpoint (move_status is_launching completed) o) p' s' ≡ true
unfolding balanced balanced_status
complete-balanced none p s p' s' h b e f = cc
complete-balanced (some c) p s p' s' h b e f = elim (Bool-cases (is_launching c.status)) [
  | inl l ↦ rw l (ground arith)
  | inr n ↦ cc
]

pub release-balanced :
    (o : Option Checkpoint) (p s p' : ℕ)
    → balanced o p s ≡ true
    → p' + bit (has_status is_launching o) ≡ p
    → balanced (map_checkpoint (move_status is_launching approved) o) p' s ≡ true
unfolding balanced balanced_status bit
release-balanced none p s p' b e = ground arith
release-balanced (some c) p s p' b e = elim (Bool-cases (is_launching c.status)) [
  | inl l ↦ rw l (ground arith)
  | inr n ↦ rw n (ground arith)
]

pub claim-balanced :
    (o : Option Checkpoint) (p s p' : ℕ)
    → has_status is_approved o ≡ true
    → balanced o p s ≡ true
    → p' ≡ p + 1
    → balanced (map_checkpoint (move_status is_approved launching) o) p' s ≡ true
unfolding balanced balanced_status
claim-balanced none p s p' h b e = cc
claim-balanced (some c) p s p' h b e = elim (Bool-cases (is_approved c.status)) [
  | inl l ↦ rw l (ground arith)
  | inr n ↦ cc
]
