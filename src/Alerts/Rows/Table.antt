-- ===== src/Alerts/Rows/Table.antt =====
-- What the statements on the table of alerts keep (internal/store/alerts.go).
use codex_folio.Base.{
  flip, ◌≡◌, refl, sym, ap, subst, ◌∙◌, inl, inr, Bool, true, false, ◌&&◌, ◌||◌, not, String, List,
  [], ◌∷◌, ◌++◌, none, some, ◌==◌, string_eq, All, In, arith, Bool-cases, and_eq_true,
  if◌then◌else◌,
}
use codex_folio.Alerts.Rows.{Row, find_key, has_id, update_id, affected, select_rows}

unfoldable pub has_key : String → List Row → Bool
has_key key [] = false
has_key key (r ∷ rs) = r.condition_key == key || has_key key rs

-- No two rows share an identifier, nor a key.
unfoldable pub distinct : List Row → Bool
unfolding has_key has_id
distinct [] = true
distinct (r ∷ rs) = not (has_id r.id rs) && not (has_key r.condition_key rs) && distinct rs

module _ (id : String) (test : Row → Bool) (change : Row → Row) where
  pub All-update_id :
      (P : Row → Type 0)
      → ((r : Row) → test r ≡ true → P r → P (change r))
      → (rows : List Row) → All P rows
      → All P (update_id id test change rows)
  unfolding update_id
  All-update_id P step [] h = tt
  All-update_id P step (r ∷ rows) h = elim (Bool-cases (r.id == id && test r)) [
    | inl hit ↦ rw hit (step r (and_eq_true _ _ hit).1 h.0, All-update_id P step rows h.1)
    | inr miss ↦ rw miss (h.0, All-update_id P step rows h.1)
  ]

  -- A row of the table, before and after.
  pub In-update_id :
      (r : Row) (rows : List Row)
      → In r rows
      → In (if r.id == id && test r then change r else r) (update_id id test change rows)
  unfolding update_id
  In-update_id r [] m = absurd m
  In-update_id r (x ∷ rows) (inl here) =
      inl (ap (λ y. if y.id == id && test y then change y else y) here)
  In-update_id r (x ∷ rows) (inr there) = inr (In-update_id r rows there)

  module _
      (keeps : (r : Row)
        → ((change r).id ≡ r.id) × ((change r).condition_key ≡ r.condition_key)) where
    has_id-update_id :
        (x : String) (rows : List Row) → has_id x (update_id id test change rows) ≡ has_id x rows
    unfolding has_id update_id
    has_id-update_id x [] = refl
    has_id-update_id x (r ∷ rows) = elim (Bool-cases (r.id == id && test r)) [
      | inl hit ↦ rw (hit, (keeps r).0, has_id-update_id x rows) refl
      | inr miss ↦ rw (miss, has_id-update_id x rows) refl
    ]

    has_key-update_id :
        (x : String) (rows : List Row) → has_key x (update_id id test change rows) ≡ has_key x rows
    unfolding has_key update_id
    has_key-update_id x [] = refl
    has_key-update_id x (r ∷ rows) = elim (Bool-cases (r.id == id && test r)) [
      | inl hit ↦ rw (hit, (keeps r).1, has_key-update_id x rows) refl
      | inr miss ↦ rw (miss, has_key-update_id x rows) refl
    ]

    pub distinct-update_id :
        (rows : List Row) → distinct (update_id id test change rows) ≡ distinct rows
    unfolding distinct update_id
    distinct-update_id [] = refl
    distinct-update_id (r ∷ rows) = elim (Bool-cases (r.id == id && test r)) [
      | inl hit ↦
          rw
            (
              hit,
              (keeps r).0,
              (keeps r).1,
              has_id-update_id r.id rows,
              has_key-update_id r.condition_key rows,
              distinct-update_id rows,
            )
            refl
      | inr miss ↦
          rw
            (
              miss,
              has_id-update_id r.id rows,
              has_key-update_id r.condition_key rows,
              distinct-update_id rows,
            )
            refl
    ]

pub find_key-none :
    (key : String) (rows : List Row) → find_key key rows ≡ none → has_key key rows ≡ false
unfolding find_key has_key
find_key-none key [] h = refl
find_key-none key (r ∷ rows) h = elim (Bool-cases (r.condition_key == key)) [
  | inl same ↦ let clash : some r ≡ none = rw same at h in cc
  | inr other ↦ rw other (find_key-none key rows (rw other at h))
]

pub find_key-In :
    (key : String) (r : Row) (rows : List Row)
    → find_key key rows ≡ some r
    → In r rows × (r.condition_key ≡ key)
unfolding find_key
find_key-In key r [] h = cc
find_key-In key r (x ∷ rows) h = elim (Bool-cases (x.condition_key == key)) [
  | inl same ↦
      let e : some x ≡ some r = rw same at h in
      let here : x ≡ r = cc in
      (
        inl here,
        ap (λ y. y.condition_key) (sym here) ∙ (string_eq.is_same_iff x.condition_key key).0 same,
      )
  | inr other ↦ let (m, e) = find_key-In key r rows (rw other at h) in (inr m, e)
]

-- A new row behind the others.
pub All-append :
    (P : Row → Type 0) (r : Row) (rows : List Row) → All P rows → P r → All P (rows ++ r ∷ [])
All-append P r [] h p = (p, tt)
All-append P r (x ∷ rows) h p = (h.0, All-append P r rows h.1 p)

pub In-append : (r x : Row) (rows : List Row) → In x rows → In x (rows ++ r ∷ [])
In-append r x [] m = absurd m
In-append r x (y ∷ rows) (inl here) = inl here
In-append r x (y ∷ rows) (inr there) = inr (In-append r x rows there)

pub last-In : (r : Row) (rows : List Row) → In r (rows ++ r ∷ [])
last-In r [] = inl refl
last-In r (x ∷ rows) = inr (last-In r rows)

has_id-append :
    (x : String) (r : Row) (rows : List Row)
    → has_id x rows ≡ false
    → (r.id == x) ≡ false
    → has_id x (rows ++ r ∷ []) ≡ false
unfolding has_id
has_id-append x r [] h other = rw other refl
has_id-append x r (y ∷ rows) h other = ground (arith, has_id-append x r rows)

has_key-append :
    (x : String) (r : Row) (rows : List Row)
    → has_key x rows ≡ false
    → (r.condition_key == x) ≡ false
    → has_key x (rows ++ r ∷ []) ≡ false
unfolding has_key
has_key-append x r [] h other = rw other refl
has_key-append x r (y ∷ rows) h other = ground (arith, has_key-append x r rows)

pub distinct-append :
    (r : Row) (rows : List Row)
    → distinct rows ≡ true
    → has_id r.id rows ≡ false
    → has_key r.condition_key rows ≡ false
    → distinct (rows ++ r ∷ []) ≡ true
unfolding distinct has_id has_key
distinct-append r [] d i k = refl
distinct-append r (x ∷ rows) d i k =
    let id_differs : (x.id == r.id) ≡ false = ground arith in
    let key_differs : (x.condition_key == r.condition_key) ≡ false = ground arith in
    let ih = distinct-append r rows (ground arith) (ground arith) (ground arith) in
    let first = has_id-append x.id r rows (ground arith) (flip x.id r.id id_differs) in
    let second =
      has_key-append x.condition_key r rows (ground arith)
        (flip x.condition_key r.condition_key key_differs) in
    rw (first, second, ih) refl

-- A selection of the rows.
pub All-select_rows :
    (P : Row → Type 0) (test : Row → Bool) (rows : List Row)
    → All P rows
    → All P (select_rows test rows)
unfolding select_rows
All-select_rows P test [] h = tt
All-select_rows P test (r ∷ rows) h = elim (Bool-cases (test r)) [
  | inl keep ↦ rw keep (h.0, All-select_rows P test rows h.1)
  | inr drop ↦ rw drop (All-select_rows P test rows h.1)
]

pub In-select_rows :
    (test : Row → Bool) (r : Row) (rows : List Row)
    → In r rows
    → test r ≡ true
    → In r (select_rows test rows)
unfolding select_rows
In-select_rows test r [] m h = absurd m
In-select_rows test r (x ∷ rows) (inl here) h =
    let keep : test x ≡ true = ap test here ∙ h in rw keep (inl here)
In-select_rows test r (x ∷ rows) (inr there) h = elim (Bool-cases (test x)) [
  | inl keep ↦ rw keep (inr (In-select_rows test r rows there h))
  | inr drop ↦ rw drop (In-select_rows test r rows there h)
]

has_id-select_rows :
    (test : Row → Bool) (x : String) (rows : List Row)
    → has_id x rows ≡ false
    → has_id x (select_rows test rows) ≡ false
unfolding has_id select_rows
has_id-select_rows test x [] h = refl
has_id-select_rows test x (r ∷ rows) h = ground (arith, has_id-select_rows test x rows)

has_key-select_rows :
    (test : Row → Bool) (x : String) (rows : List Row)
    → has_key x rows ≡ false
    → has_key x (select_rows test rows) ≡ false
unfolding has_key select_rows
has_key-select_rows test x [] h = refl
has_key-select_rows test x (r ∷ rows) h = ground (arith, has_key-select_rows test x rows)

pub distinct-select_rows :
    (test : Row → Bool) (rows : List Row)
    → distinct rows ≡ true
    → distinct (select_rows test rows) ≡ true
unfolding distinct select_rows
distinct-select_rows test [] h = refl
distinct-select_rows test (r ∷ rows) h = ground (
  arith,
  has_id-select_rows test r.id rows,
  has_key-select_rows test r.condition_key rows,
  distinct-select_rows test rows,
)

-- No row has the identifier, so no statement on it has an effect.
pub absent-update_id :
    (id : String) (test : Row → Bool) (change : Row → Row) (rows : List Row)
    → has_id id rows ≡ false
    → (update_id id test change rows ≡ rows) × (affected id test rows ≡ 0)
unfolding has_id update_id affected
absent-update_id id test change [] h = (refl, refl)
absent-update_id id test change (r ∷ rows) h =
    let other : (r.id == id) ≡ false = ground arith in
    let (e, n) = absent-update_id id test change rows (ground arith) in
    rw other (ap (λ rs. r ∷ rs) e, omega (arith, n))

-- Does a row with the identifier pass the test?
unfoldable pub exists : String → (Row → Bool) → List Row → Bool
exists id test [] = false
exists id test (r ∷ rs) = (r.id == id && test r) || exists id test rs

absent-exists :
    (id : String) (test : Row → Bool) (rows : List Row)
    → has_id id rows ≡ false
    → exists id test rows ≡ false
unfolding has_id exists
absent-exists id test [] h = refl
absent-exists id test (r ∷ rows) h =
    let ih = absent-exists id test rows (ground arith) in ground (arith, ih)

-- A statement on an identifier affects one row or none.
pub affected-exists :
    (id : String) (test : Row → Bool) (rows : List Row)
    → distinct rows ≡ true
    → affected id test rows ≡ (if exists id test rows then 1 else 0)
unfolding distinct affected exists
affected-exists id test [] d = refl
affected-exists id test (r ∷ rows) d =
    let ih = affected-exists id test rows (ground arith) in
    elim (Bool-cases (r.id == id)) [
      | inl same ↦
          let e : r.id ≡ id = (string_eq.is_same_iff r.id id).0 same in
          let free : has_id id rows ≡ false = subst (λ k. has_id k rows ≡ false) e (ground arith) in
          let none_left = absent-exists id test rows free in ground (arith, ih, none_left, same)
      | inr other ↦ ground (arith, ih, other)
    ]
