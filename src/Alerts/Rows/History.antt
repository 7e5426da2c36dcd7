-- ===== src/Alerts/Rows/History.antt =====
-- How many resolved alerts the pruning of a synchronisation leaves (internal/store/alerts.go).
use codex_folio.Base.{
  done, ℕ, zero, suc, ◌+◌, ◌≤◌, ◌≡◌, refl, sym, ap, subst, ◌∙◌, inl, inr, Bool, true, false, ◌&&◌,
  not, String, List, [], ◌∷◌, ◌==◌, string_eq, Time, All, arith, Bool-cases, if◌then◌else◌,
}
use codex_folio.Alerts.Evaluate.{Condition}
use codex_folio.Alerts.Rows.{
  Row, Environment, has_id, select_rows, skip, is_resolved, row_resolved, prune_history,
  sync_alerts,
}
use codex_folio.Alerts.Rows.Invariant.{sync_alerts-done}

-- The rows that pass a test.
unfoldable pub count : (Row → Bool) → List Row → ℕ
count test [] = 0
count test (r ∷ rs) = (if test r then 1 else 0) + count test rs

-- An order of the rows keeps how many of them pass a test.
abbrev pub IsOrder : (List Row → List Row) → Type 0
IsOrder order = (test : Row → Bool) (rows : List Row) → count test (order rows) ≡ count test rows

count-select_rows :
    (p q : Row → Bool) (rows : List Row)
    → count p (select_rows q rows) ≡ count (λ r. q r && p r) rows
unfolding count select_rows
count-select_rows p q [] = refl
count-select_rows p q (r ∷ rows) = elim (Bool-cases (q r)) [
  | inl hit ↦ rw (hit, count-select_rows p q rows) refl
  | inr miss ↦ let ih = count-select_rows p q rows in rw miss (omega (arith, ih))
]

count-swap :
    (p q : Row → Bool) (rows : List Row) → ((r : Row) → p r ≡ q r) → count p rows ≡ count q rows
unfolding count
count-swap p q [] h = refl
count-swap p q (r ∷ rows) h = rw (h r, count-swap p q rows h) refl

count-skip : (p : Row → Bool) (n : ℕ) (rows : List Row) → count p rows ≤ n + count p (skip n rows)
unfolding count skip
count-skip p zero rows = omega arith
count-skip p (suc n) [] = omega arith
count-skip p (suc n) (r ∷ rows) = let ih = count-skip p n rows in ground (arith, ih)

count-none : (p : Row → Bool) (rows : List Row) → All (λ r. p r ≡ false) rows → count p rows ≡ 0
unfolding count
count-none p [] h = refl
count-none p (r ∷ rows) (here, there) =
    let ih = count-none p rows there in rw here (omega (arith, ih))

All-weaken :
    (P Q : Row → Type 0) (rows : List Row) → ((r : Row) → P r → Q r) → All P rows → All Q rows
All-weaken P Q [] f h = tt
All-weaken P Q (r ∷ rows) f (here, there) = (f r here, All-weaken P Q rows f there)

own_id : (rows : List Row) → All (λ r. has_id r.id rows ≡ true) rows
unfolding has_id
own_id [] = tt
own_id (r ∷ rows) =
    let mine : (r.id == r.id) ≡ true = (string_eq.is_same_iff r.id r.id).1 refl in
    (
      rw mine refl,
      All-weaken (λ x. has_id x.id rows ≡ true) _ rows (λ x h. ground (arith, h)) (own_id rows),
    )

-- Of the rows in an order at most n are not behind the first n.
count-kept : (n : ℕ) (rows : List Row) → count (λ r. not (has_id r.id (skip n rows))) rows ≤ n
count-kept n rows =
    let old = skip n rows in
    let behind : count (λ r. not (has_id r.id old)) old ≡ 0 =
      count-none _ old
        (All-weaken (λ r. has_id r.id old ≡ true) _ old (λ r h. ap not h) (own_id old)) in
    let split = count-skip (λ r. not (has_id r.id old)) n rows in omega (arith, behind, split)

prune_history-bound :
    (env : Environment) (limit : ℕ) (rows : List Row)
    → IsOrder env.by_last_seen
    → count row_resolved (prune_history env limit rows) ≤ limit
unfolding prune_history
prune_history-bound env limit rows order =
    let found = select_rows row_resolved rows in
    let old = skip limit (env.by_last_seen found) in
    let p : Row → Bool = λ r. not (has_id r.id old) in
    let one =
      count-select_rows row_resolved (λ r. not (is_resolved r.state && has_id r.id old)) rows in
    let two : count (λ r. not (is_resolved r.state && has_id r.id old) && is_resolved r.state) rows
        ≡ count (λ r. is_resolved r.state && p r) rows =
      count-swap _ _ rows (λ r. ground arith) in
    let three = sym (count-select_rows p row_resolved rows) in
    let four = sym (order p found) in
    subst (λ n. n ≤ limit) (sym (one ∙ two ∙ three ∙ four))
      (count-kept limit (env.by_last_seen found))

-- A synchronisation that succeeds leaves no more resolved alerts than its history limit, where the
-- order by the time last seen keeps the rows.
pub sync_alerts-history :
    (env : Environment) (profile : String) (cs : List Condition) (now : Time) (limit : ℕ)
    (rows rows' : List Row)
    → IsOrder env.by_last_seen
    → sync_alerts env profile cs now limit rows ≡ done rows'
    → count row_resolved rows' ≤ limit
sync_alerts-history env profile cs now limit rows rows' order h =
    let (mid, _, same) = sync_alerts-done env profile cs now limit rows rows' h in
    subst (λ rs. count row_resolved rs ≤ limit) same (prune_history-bound env limit _ order)
