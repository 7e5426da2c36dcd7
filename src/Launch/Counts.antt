-- ===== src/Launch/Counts.antt =====
-- What an update of one row of managed_launches does to the counts of rows
-- (internal/store/launches.go).
use codex_folio.Base.{
  ℕ, ◌+◌, ◌≤◌, ◌≡◌, refl, sym, ap, subst, Bool, true, false, ◌&&◌, String, List, [], ◌∷◌, ◌++◌,
  none, some, ◌==◌, string_eq, and_eq_true, is_none, arith, All, Bool-cases, inl, inr,
}
use codex_folio.Launch.Records.{State, Launch, find_launch, update_launches}
use codex_folio.Launch.Prepare.{any_state}

unfoldable pub bit : Bool → ℕ
bit true = 1
bit false = 0

unfoldable pub count : (Launch → Bool) → List Launch → ℕ
unfolding bit
count f [] = 0
count f (l ∷ ls) = bit (f l) + count f ls

-- No row has the lease, and no two rows have the same.
unfoldable pub is_free : String → List Launch → Bool
is_free lease ls = is_none (find_launch lease any_state ls)

unfoldable pub distinct : List Launch → Bool
unfolding is_free
distinct [] = true
distinct (l ∷ ls) = is_free l.lease_id ls && distinct ls

module _ (lease : String) (test : State → Bool) (change : Launch → Launch) where
  update-free :
      (ls : List Launch) → is_free lease ls ≡ true → update_launches lease test change ls ≡ ls
  unfolding is_free update_launches find_launch
  update-free [] h = refl
  update-free (l ∷ ls) h = elim (Bool-cases (l.lease_id == lease)) [
    | inl same ↦ absurd (ground arith)
    | inr other ↦ rw other (ap (λ rest. l ∷ rest) (update-free ls (rw other at h)))
  ]

  update-free_same :
      (l : Launch) (ls : List Launch)
      → (l.lease_id == lease) ≡ true
      → is_free l.lease_id ls ≡ true
      → update_launches lease test change ls ≡ ls
  update-free_same l ls same h =
      update-free ls
        (subst (λ x. is_free x ls ≡ true) ((string_eq.is_same_iff l.lease_id lease).0 same) h)

  -- The update moves one row: the one that the query finds.
  pub count-update :
      (f : Launch → Bool) (r : Launch) (ls : List Launch)
      → distinct ls ≡ true
      → find_launch lease test ls ≡ some r
      → count f (update_launches lease test change ls) + bit (f r) ≡ count f ls + bit (f (change r))
  unfolding distinct update_launches find_launch count
  count-update f r [] d h = cc
  count-update f r (l ∷ ls) d h = elim (Bool-cases (l.lease_id == lease)) [
    | inl same ↦ elim (Bool-cases (test l.state)) [
      | inl hit ↦
          let here : some l ≡ some r = rw (same, hit) at h in
          let found : l ≡ r = cc in
          let rest = update-free_same l ls same (and_eq_true _ _ d).0 in
          rw (same, hit, rest)
            (subst
              (λ x.
                bit (f (change l)) + count f ls + bit (f x)
                ≡ bit (f l) + count f ls + bit (f (change x)))
              found (omega arith))
      | inr miss ↦
          rw (same, miss)
            (omega (arith, count-update f r ls (and_eq_true _ _ d).1 (rw (same, miss) at h)))
    ]
    | inr other ↦
        rw other (omega (arith, count-update f r ls (and_eq_true _ _ d).1 (rw other at h)))
  ]

  -- What is found is counted.
  pub bit-count :
      (f : Launch → Bool) (r : Launch) (ls : List Launch)
      → find_launch lease test ls ≡ some r
      → bit (f r) ≤ count f ls
  unfolding find_launch count
  bit-count f r [] h = cc
  bit-count f r (l ∷ ls) h = elim (Bool-cases (l.lease_id == lease && test l.state)) [
    | inl hit ↦
        let here : some l ≡ some r = rw hit at h in
        let found : l ≡ r = cc in
        subst (λ x. bit (f x) ≤ bit (f l) + count f ls) found (omega arith)
    | inr miss ↦ omega (arith, bit-count f r ls (rw miss at h))
  ]

  pub update-none :
      (ls : List Launch)
      → find_launch lease test ls ≡ none
      → update_launches lease test change ls ≡ ls
  unfolding update_launches find_launch
  update-none [] h = refl
  update-none (l ∷ ls) h = elim (Bool-cases (l.lease_id == lease && test l.state)) [
    | inl hit ↦ absurd (ground arith)
    | inr miss ↦ rw miss (ap (λ rest. l ∷ rest) (update-none ls (rw miss at h)))
  ]

  pub All-update :
      (P : Launch → Type 0)
      → ((l : Launch) → test l.state ≡ true → P l → P (change l))
      → (ls : List Launch) → All P ls
      → All P (update_launches lease test change ls)
  unfolding update_launches
  All-update P step [] h = tt
  All-update P step (l ∷ ls) h = elim (Bool-cases (l.lease_id == lease && test l.state)) [
    | inl hit ↦ rw hit (step l (and_eq_true _ _ hit).1 h.0, All-update P step ls h.1)
    | inr miss ↦ rw miss (h.0, All-update P step ls h.1)
  ]

  module _ (keeps : (l : Launch) → (change l).lease_id ≡ l.lease_id) where
    is_free-update :
        (x : String) (ls : List Launch)
        → is_free x ls ≡ true
        → is_free x (update_launches lease test change ls) ≡ true
    unfolding is_free update_launches find_launch
    is_free-update x [] h = refl
    is_free-update x (l ∷ ls) h =
        let kept = keeps l in
        elim (Bool-cases (l.lease_id == x)) [
          | inl same ↦ absurd (ground arith)
          | inr other ↦
              let ih = is_free-update x ls (rw other at h) in
              elim (Bool-cases (l.lease_id == lease && test l.state)) [
                | inl hit ↦ rw (hit, keeps l, other) ih
                | inr miss ↦ rw (miss, other) ih
              ]
        ]

    pub distinct-update :
        (ls : List Launch)
        → distinct ls ≡ true
        → distinct (update_launches lease test change ls) ≡ true
    unfolding distinct update_launches
    distinct-update [] h = refl
    distinct-update (l ∷ ls) h =
        let free = is_free-update l.lease_id ls (and_eq_true _ _ h).0 in
        let ih = distinct-update ls (and_eq_true _ _ h).1 in
        elim (Bool-cases (l.lease_id == lease && test l.state)) [
          | inl hit ↦ rw (hit, keeps l, free, ih) refl
          | inr miss ↦ rw (miss, free, ih) refl
        ]

-- What a query finds is a row of the table, and passes the test.
pub find_launch-All :
    (P : Launch → Type 0) (lease : String) (test : State → Bool) (r : Launch) (ls : List Launch)
    → All P ls
    → find_launch lease test ls ≡ some r
    → P r × (test r.state ≡ true)
unfolding find_launch
find_launch-All P lease test r [] a h = cc
find_launch-All P lease test r (l ∷ ls) a h =
    elim (Bool-cases (l.lease_id == lease && test l.state)) [
      | inl hit ↦
          let here : some l ≡ some r = rw hit at h in
          let found : l ≡ r = cc in
          (subst P found a.0, subst (λ x. test x.state ≡ true) found (and_eq_true _ _ hit).1)
      | inr miss ↦ find_launch-All P lease test r ls a.1 (rw miss at h)
    ]

-- A new row at the end.
pub count-append :
    (f : Launch → Bool) (r : Launch) (ls : List Launch)
    → count f (ls ++ r ∷ []) ≡ count f ls + bit (f r)
unfolding count
count-append f r [] = omega arith
count-append f r (l ∷ ls) = omega (arith, count-append f r ls)

pub All-append :
    (P : Launch → Type 0) (r : Launch) (ls : List Launch) → All P ls → P r → All P (ls ++ r ∷ [])
All-append P r [] h p = (p, tt)
All-append P r (l ∷ ls) h p = (h.0, All-append P r ls h.1 p)

is_free-append :
    (x : String) (r : Launch) (ls : List Launch)
    → is_free x ls ≡ true
    → (r.lease_id == x) ≡ false
    → is_free x (ls ++ r ∷ []) ≡ true
unfolding is_free find_launch
is_free-append x r [] h other = rw other refl
is_free-append x r (l ∷ ls) h other = elim (Bool-cases (l.lease_id == x)) [
  | inl same ↦ absurd (ground arith)
  | inr apart ↦ rw apart (is_free-append x r ls (rw apart at h) other)
]

pub distinct-append :
    (r : Launch) (ls : List Launch)
    → distinct ls ≡ true
    → is_free r.lease_id ls ≡ true
    → distinct (ls ++ r ∷ []) ≡ true
unfolding distinct is_free find_launch
distinct-append r [] h free = refl
distinct-append r (l ∷ ls) h free = elim (Bool-cases (l.lease_id == r.lease_id)) [
  | inl same ↦ absurd (ground arith)
  | inr other ↦
      let apart : (r.lease_id == l.lease_id) ≡ false =
        elim (Bool-cases (r.lease_id == l.lease_id)) [
          | inl e ↦
              let back =
                (string_eq.is_same_iff l.lease_id r.lease_id).1
                  (sym ((string_eq.is_same_iff r.lease_id l.lease_id).0 e)) in
              cc
          | inr e ↦ e
        ] in
      let first = is_free-append l.lease_id r ls (and_eq_true _ _ h).0 apart in
      let ih = distinct-append r ls (and_eq_true _ _ h).1 (rw other at free) in rw (first, ih) refl
]
