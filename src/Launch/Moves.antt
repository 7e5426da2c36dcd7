-- ===== src/Launch/Moves.antt =====
-- Each move of a launch keeps the invariant (internal/store/launches.go).
use codex_folio.Base.{
  ℕ, ◌≤◌, ◌≡◌, refl, sym, subst, Bool, true, false, String, Option, none, some, Time, string_eq,
  arith, Bool-cases, inl, inr,
}
use codex_folio.Launch.Records.{
  Status, approved, completed, Launch, Checkpoint, Tables, is_pending, is_running, is_live,
  is_launching, has_status, map_checkpoint, move_status, find_launch, update_launches,
  update_checkpoint_status,
}
use codex_folio.Launch.Marks.{mark_started_row, mark_exited_row, mark_abandoned_row}
use codex_folio.Launch.Counts.{
  bit, count, count-update, All-update, distinct-update, find_launch-All, bit-count,
}
use codex_folio.Launch.Invariant.{
  fits_state, IsRow, names, claims, started, balanced_status, balanced, IsSound, complete-balanced,
  release-balanced,
}

-- The rows after a move keep what a row must satisfy.
started-IsRow :
    (pid : ℕ) (l : Launch) → is_pending l.state ≡ true → IsRow l → IsRow (mark_started_row pid l)
unfolding mark_started_row fits_state
started-IsRow pid l h (fits, named) = (ground arith, named)

exited-IsRow :
    (now : Time) (n : ℕ) (l : Launch)
    → is_running l.state ≡ true
    → IsRow l
    → IsRow (mark_exited_row now n l)
unfolding mark_exited_row fits_state
exited-IsRow now n l h (fits, named) = (ground arith, named)

abandoned-IsRow :
    (now : Time) (l : Launch) → is_live l.state ≡ true → IsRow l → IsRow (mark_abandoned_row now l)
unfolding mark_abandoned_row fits_state
abandoned-IsRow now l h (fits, named) = (ground arith, named)

-- How each move changes what a row counts for.
started-counts :
    (pid : ℕ) (c : String) (r : Launch)
    → is_pending r.state ≡ true
    → IsRow r
    → (bit (claims c r) ≡ bit (names c r.checkpoint_id))
      × (bit (claims c (mark_started_row pid r)) ≡ 0)
      × (bit (started c r) ≡ 0)
      × (bit (started c (mark_started_row pid r)) ≡ bit (names c r.checkpoint_id))
unfolding mark_started_row claims started fits_state bit
started-counts pid c r h (fits, named) = ground arith

exited-counts :
    (now : Time) (n : ℕ) (c : String) (r : Launch)
    → is_running r.state ≡ true
    → (bit (claims c r) ≡ bit (claims c (mark_exited_row now n r)))
      × (bit (started c r) ≡ bit (started c (mark_exited_row now n r)))
unfolding mark_exited_row claims started bit
exited-counts now n c r h = ground arith

abandoned-counts :
    (now : Time) (c : String) (r : Launch)
    → (bit (claims c (mark_abandoned_row now r)) ≡ 0)
      × (bit (started c r) ≡ bit (started c (mark_abandoned_row now r)))
unfolding mark_abandoned_row claims started bit
abandoned-counts now c r = ground arith

-- The columns of the checkpoint that the moves set.
abbrev pub moved :
    (Status → Bool)
    → Status
    → Option String
    → (String → Option Checkpoint)
    → String
    → Option Checkpoint
moved test to none table = table
moved test to (some id) table = update_checkpoint_status id test to table

pub moved-here :
    (test : Status → Bool) (to : Status) (o : Option String) (table : String → Option Checkpoint)
    (c : String)
    → names c o ≡ true
    → moved test to o table c ≡ map_checkpoint (move_status test to) (table c)
unfolding names update_checkpoint_status
moved-here test to none table c h = cc
moved-here test to (some id) table c h = rw h refl

pub moved-elsewhere :
    (test : Status → Bool) (to : Status) (o : Option String) (table : String → Option Checkpoint)
    (c : String)
    → names c o ≡ false
    → moved test to o table c ≡ table c
unfolding names update_checkpoint_status
moved-elsewhere test to none table c h = refl
moved-elsewhere test to (some id) table c h = rw h refl

pub has_name :
    (test : Status → Bool) (o : Option String) (table : String → Option Checkpoint) (c : String)
    → ((id : String) → o ≡ some id → has_status test (table id) ≡ true)
    → names c o ≡ true
    → has_status test (table c) ≡ true
unfolding names
has_name test none table c h n = cc
has_name test (some id) table c h n =
    subst (λ k. has_status test (table k) ≡ true) (sym ((string_eq.is_same_iff c id).0 n))
      (h id refl)

-- A launch that starts.
pub start-IsSound :
    (lease : String) (pid : ℕ) (r : Launch) (t : Tables)
    → IsSound t
    → find_launch lease is_pending t.launches ≡ some r
    → ((id : String)
        → r.checkpoint_id ≡ some id
        → has_status is_launching (t.checkpoints id) ≡ true)
    → IsSound (record t {
      launches = update_launches lease is_pending (mark_started_row pid) t.launches;
      checkpoints = moved is_launching completed r.checkpoint_id t.checkpoints;
    })
start-IsSound lease pid r t h found launches =
    let (row, live) = find_launch-All IsRow lease is_pending r t.launches h.rows found in
    record {
      rows =
          All-update lease is_pending (mark_started_row pid) IsRow (started-IsRow pid) t.launches
            h.rows;
      leases =
          distinct-update lease is_pending (mark_started_row pid)
            (λ l. unfold mark_started_row in refl) t.launches h.leases;
      balance = λ c.
          let (a1, a2, b1, b2) = started-counts pid c r live row in
          let p =
            count-update lease is_pending (mark_started_row pid) (claims c) r t.launches h.leases
              found in
          let s =
            count-update lease is_pending (mark_started_row pid) (started c) r t.launches h.leases
              found in
          elim (Bool-cases (names c r.checkpoint_id)) [
            | inl here ↦
                let one : bit (names c r.checkpoint_id) ≡ 1 = unfold bit in rw here refl in
                rw (moved-here is_launching completed r.checkpoint_id t.checkpoints c here) (
                  complete-balanced (t.checkpoints c) _ _ _ _
                    (has_name is_launching r.checkpoint_id t.checkpoints c launches here)
                    (h.balance c) (omega arith) (omega arith))
            | inr elsewhere ↦
                let nil : bit (names c r.checkpoint_id) ≡ 0 = unfold bit in rw elsewhere refl in
                let same_claims : count (claims c)
                      (update_launches lease is_pending (mark_started_row pid) t.launches)
                    ≡ count (claims c) t.launches =
                  omega arith in
                let same_started : count (started c)
                      (update_launches lease is_pending (mark_started_row pid) t.launches)
                    ≡ count (started c) t.launches =
                  omega arith in
                rw
                  (
                    moved-elsewhere is_launching completed r.checkpoint_id t.checkpoints c
                        elsewhere,
                    same_claims,
                    same_started,
                  )
                  (h.balance c)
          ];
    }

release_bit_of :
    (o : Option Checkpoint) (r : Launch) (c : String) (p s : ℕ)
    → balanced o p s ≡ true
    → IsRow r
    → is_live r.state ≡ true
    → names c r.checkpoint_id ≡ true
    → bit (claims c r) ≤ p
    → bit (started c r) ≤ s
    → bit (claims c r) ≡ bit (has_status is_launching o)
unfolding balanced balanced_status claims started fits_state bit
release_bit_of none r c p s b row live here k m = ground arith
release_bit_of (some ck) r c p s b row live here k m = ground arith

-- The update of the checkpoint of a launch that is given up affects its row just where the launch
-- was the one that had claimed it.
release_bit :
    (now : Time) (lease : String) (c : String) (r : Launch) (t : Tables)
    → IsSound t
    → IsRow r
    → is_live r.state ≡ true
    → find_launch lease is_live t.launches ≡ some r
    → names c r.checkpoint_id ≡ true
    → bit (claims c r) ≡ bit (has_status is_launching (t.checkpoints c))
release_bit now lease c r t h row live found here =
    let p = bit-count lease is_live (mark_abandoned_row now) (claims c) r t.launches found in
    let s = bit-count lease is_live (mark_abandoned_row now) (started c) r t.launches found in
    release_bit_of (t.checkpoints c) r c _ _ (h.balance c) row live here p s

pub abandon-IsSound :
    (now : Time) (lease : String) (r : Launch) (t : Tables)
    → IsSound t
    → find_launch lease is_live t.launches ≡ some r
    → IsSound (record t {
      launches = update_launches lease is_live (mark_abandoned_row now) t.launches;
      checkpoints = moved is_launching approved r.checkpoint_id t.checkpoints;
    })
abandon-IsSound now lease r t h found =
    let (row, live) = find_launch-All IsRow lease is_live r t.launches h.rows found in
    record {
      rows =
          All-update lease is_live (mark_abandoned_row now) IsRow (abandoned-IsRow now) t.launches
            h.rows;
      leases =
          distinct-update lease is_live (mark_abandoned_row now)
            (λ l. unfold mark_abandoned_row in refl) t.launches h.leases;
      balance = λ c.
          let (a, b) = abandoned-counts now c r in
          let p =
            count-update lease is_live (mark_abandoned_row now) (claims c) r t.launches h.leases
              found in
          let s =
            count-update lease is_live (mark_abandoned_row now) (started c) r t.launches h.leases
              found in
          let same_started : count (started c)
                (update_launches lease is_live (mark_abandoned_row now) t.launches)
              ≡ count (started c) t.launches =
            omega arith in
          elim (Bool-cases (names c r.checkpoint_id)) [
            | inl here ↦
                rw
                  (
                    moved-here is_launching approved r.checkpoint_id t.checkpoints c here,
                    same_started,
                  )
                  (release-balanced (t.checkpoints c) _ _ _ (h.balance c)
                    (omega (arith, release_bit now lease c r t h row live found here)))
            | inr elsewhere ↦
                let nil : bit (claims c r) ≡ 0 = unfold claims bit in rw elsewhere (ground arith) in
                let same_claims : count (claims c)
                      (update_launches lease is_live (mark_abandoned_row now) t.launches)
                    ≡ count (claims c) t.launches =
                  omega arith in
                rw
                  (
                    moved-elsewhere is_launching approved r.checkpoint_id t.checkpoints c elsewhere,
                    same_claims,
                    same_started,
                  )
                  (h.balance c)
          ];
    }

pub exit-IsSound :
    (now : Time) (n : ℕ) (lease : String) (r : Launch) (t : Tables)
    → IsSound t
    → find_launch lease is_running t.launches ≡ some r
    → IsSound (record t {
      launches = update_launches lease is_running (mark_exited_row now n) t.launches;
    })
exit-IsSound now n lease r t h found =
    let (row, runs) = find_launch-All IsRow lease is_running r t.launches h.rows found in
    record {
      rows =
          All-update lease is_running (mark_exited_row now n) IsRow (exited-IsRow now n) t.launches
            h.rows;
      leases =
          distinct-update lease is_running (mark_exited_row now n)
            (λ l. unfold mark_exited_row in refl) t.launches h.leases;
      balance = λ c.
          let (a, b) = exited-counts now n c r runs in
          let p =
            count-update lease is_running (mark_exited_row now n) (claims c) r t.launches h.leases
              found in
          let s =
            count-update lease is_running (mark_exited_row now n) (started c) r t.launches h.leases
              found in
          let same_started : count (started c)
                (update_launches lease is_running (mark_exited_row now n) t.launches)
              ≡ count (started c) t.launches =
            omega arith in
          let same_claims : count (claims c)
                (update_launches lease is_running (mark_exited_row now n) t.launches)
              ≡ count (claims c) t.launches =
            omega arith in
          rw (same_claims, same_started) (h.balance c);
    }
