-- ===== src/Usage/Ranking/Counts.antt =====
-- What the pairwise comparison of Rank counts (internal/usage/ranking.go).
use mathlib.Core.Path.{fun_ext}
use mathlib.Core.List.{map-map}
use codex_folio.Base.{
  ℕ, zero, suc, ◌+◌, Bool, true, false, ◌&&◌, ◌||◌, not, ◌≡◌, ◌≤◌, refl, sym, ap, subst, ◌∙◌, inl,
  inr, List, [], ◌∷◌, arith, length, map, Bool-cases, if◌then◌else◌,
}
use codex_folio.Usage.Types.{Observation}
use codex_folio.Usage.Ranking.{
  Entry, judge, settle, dominate, versus, keep_right, keep_left, compare_all, is_empty,
}
use codex_folio.Usage.Ranking.Dominance.{beats, judge-better, beats_irreflexive}

-- Does an entry have evidence, and does it beat the given evidence?
unfoldable pub beaten_by : List Observation → Entry → Bool
beaten_by x r = not (is_empty r.evidence) && beats r.evidence x

-- How many of the entries have evidence and beat the given evidence.
unfoldable pub dominators : List Observation → List Entry → ℕ
dominators x [] = 0
dominators x (r ∷ rs) = if beaten_by x r then suc (dominators x rs) else dominators x rs

-- The entry with `n` more dominators.
abbrev pub raise : ℕ → Entry → Entry
raise n e = record e { dominated = n + e.dominated }

abbrev bump_if : Bool → Entry → Entry
bump_if b e = if b then dominate e else e

bump : List Observation → Entry → Entry
bump x r = bump_if (not (is_empty r.evidence) && beats x r.evidence) r

raise_zero : (e : Entry) → raise 0 e ≡ e
raise_zero e = ground arith

raise-dominate : (n : ℕ) (e : Entry) → raise n (dominate e) ≡ raise (suc n) e
unfolding dominate
raise-dominate n e = ground arith

settle-certain :
    (l r : Entry)
    → (settle (judge l r) l r).2 ≡ false
    → settle (judge l r) l r
      ≡ (bump_if (beats r.evidence l.evidence) l, bump_if (beats l.evidence r.evidence) r, false)
unfolding settle beats
settle-certain l r h = ground (arith, judge-better l r)

abbrev Versus : Entry → List Entry → Entry × List Entry × Bool → Type 0
Versus l rs end = end ≡ (raise (dominators l.evidence rs) l, map (bump l.evidence) rs, false)

raise-bump :
    (b : Bool) (l r : Entry) (rs : List Entry) (end : Entry × List Entry × Bool)
    → Versus (bump_if b l) rs end
    → keep_right r end ≡ (
      raise (if b then suc (dominators l.evidence rs) else dominators l.evidence rs) l,
      r ∷ map (bump l.evidence) rs,
      false,
    )
unfolding dominate
raise-bump true l r rs end e =
    ap (keep_right r) e
    ∙ ap (λ x. (x, r ∷ map (bump l.evidence) rs, false))
        (raise-dominate (dominators l.evidence rs) l)
raise-bump false l r rs end e = ap (keep_right r) e

or_false : (a b : Bool) → (a || b) ≡ false → (a ≡ false) × (b ≡ false)
or_false a b h = ground arith

versus_step :
    (l r : Entry) (rs : List Entry) (u : Bool)
    → let s = settle (judge l r) l r in
      (u || s.2) ≡ false
      → Versus s.0 rs (versus s.0 rs (u || s.2))
      → keep_right s.1 (versus s.0 rs (u || s.2)) ≡ (
        raise
            (if beats r.evidence l.evidence
              then suc (dominators l.evidence rs)
              else dominators l.evidence rs)
            l,
        bump_if (beats l.evidence r.evidence) r ∷ map (bump l.evidence) rs,
        false,
      )
versus_step l r rs u q e =
    let b = beats r.evidence l.evidence in
    let r1 = bump_if (beats l.evidence r.evidence) r in
    let sc = settle-certain l r (or_false u _ q).1 in
    let e' = subst (λ s. Versus s.0 rs (versus s.0 rs (u || s.2))) sc e in
    subst
      (λ s. keep_right s.1 (versus s.0 rs (u || s.2)) ≡ (
        raise (if b then suc (dominators l.evidence rs) else dominators l.evidence rs) l,
        r1 ∷ map (bump l.evidence) rs,
        false,
      ))
      (sym sc) (raise-bump b l r1 rs (versus (bump_if b l) rs (u || false)) e')

versus-certain :
    (l : Entry) (rs : List Entry) (u : Bool)
    → (versus l rs u).2 ≡ false
    → (u ≡ false) × Versus l rs (versus l rs u)
unfolding versus dominators bump beaten_by
versus-certain l [] u h = (h, λ i. (sym (raise_zero l) i, [], h i))
versus-certain l (r ∷ rs) u h = elim (Bool-cases (is_empty r.evidence)) [
  | inl none ↦
      let (q, e) = versus-certain l rs u (rw none at h) in (q, rw none (ap (keep_right r) e))
  | inr evident ↦
      let s = settle (judge l r) l r in
      let (q, e) = versus-certain s.0 rs (u || s.2) (rw evident at h) in
      ((or_false u s.2 q).0, rw evident (versus_step l r rs u q e))
]

bump_if-evidence : (b : Bool) (e : Entry) → (bump_if b e).evidence ≡ e.evidence
unfolding dominate
bump_if-evidence true e = refl
bump_if-evidence false e = refl

beaten_by-bump : (x y : List Observation) (r : Entry) → beaten_by y (bump x r) ≡ beaten_by y r
unfolding bump beaten_by
beaten_by-bump x y r =
    ap (λ z. not (is_empty z) && beats z y)
      (bump_if-evidence (not (is_empty r.evidence) && beats x r.evidence) r)

dominators-bump :
    (x y : List Observation) (rs : List Entry) → dominators y (map (bump x) rs) ≡ dominators y rs
unfolding dominators
dominators-bump x y [] = refl
dominators-bump x y (r ∷ rs) = ground (arith, beaten_by-bump x y r, dominators-bump x y rs)

-- The entry with the entries that beat it counted, if it has evidence.
unfoldable pub lift : List Entry → Entry → Entry
lift es e = if is_empty e.evidence then e else raise (dominators e.evidence es) e

lift-cons_empty :
    (l : Entry) (rs : List Entry) (e : Entry)
    → is_empty l.evidence ≡ true
    → lift rs e ≡ lift (l ∷ rs) e
unfolding lift dominators beaten_by
lift-cons_empty l rs e h = rw h

lift_empty : (es : List Entry) (e : Entry) → is_empty e.evidence ≡ true → lift es e ≡ e
unfolding lift
lift_empty es e h = rw h

lift_evident :
    (es : List Entry) (e : Entry)
    → is_empty e.evidence ≡ false
    → lift es e ≡ raise (dominators e.evidence es) e
unfolding lift
lift_evident es e h = rw h

bump_empty : (x : List Observation) (r : Entry) → is_empty r.evidence ≡ true → bump x r ≡ r
unfolding bump
bump_empty x r h = rw h

bump_evident :
    (x : List Observation) (r : Entry)
    → is_empty r.evidence ≡ false
    → bump x r ≡ bump_if (beats x r.evidence) r
unfolding bump
bump_evident x r h = rw h

dominators_evident :
    (x : List Observation) (l : Entry) (rs : List Entry)
    → is_empty l.evidence ≡ false
    → dominators x (l ∷ rs)
      ≡ (if beats l.evidence x then suc (dominators x rs) else dominators x rs)
unfolding dominators beaten_by
dominators_evident x l rs h = rw h

raise-bump_if :
    (b : Bool) (n : ℕ) (r : Entry) → raise n (bump_if b r) ≡ raise (if b then suc n else n) r
raise-bump_if true n r = raise-dominate n r
raise-bump_if false n r = refl

lift-bump_if :
    (b : Bool) (es : List Entry) (r : Entry)
    → is_empty r.evidence ≡ false
    → lift es (bump_if b r) ≡ raise (dominators r.evidence es) (bump_if b r)
unfolding dominate
lift-bump_if true es r h = lift_evident es (dominate r) h
lift-bump_if false es r h = lift_evident es r h

lift-bump :
    (l : Entry) (rs : List Entry) (r : Entry)
    → is_empty l.evidence ≡ false
    → lift (map (bump l.evidence) rs) (bump l.evidence r) ≡ lift (l ∷ rs) r
lift-bump l rs r h = elim (Bool-cases (is_empty r.evidence)) [
  | inl none ↦
      ap (lift (map (bump l.evidence) rs)) (bump_empty l.evidence r none)
      ∙ lift_empty (map (bump l.evidence) rs) r none
      ∙ sym (lift_empty (l ∷ rs) r none)
  | inr evident ↦
      let es = map (bump l.evidence) rs in
      let b = beats l.evidence r.evidence in
      let x = r.evidence in
      ap (lift es) (bump_evident l.evidence r evident)
      ∙ lift-bump_if b es r evident
      ∙ ap (λ n. raise n (bump_if b r)) (dominators-bump l.evidence x rs)
      ∙ raise-bump_if b (dominators x rs) r
      ∙ ap (λ n. raise n r) (sym (dominators_evident x l rs h))
      ∙ sym (lift_evident (l ∷ rs) r evident)
]

lift_self :
    (l : Entry) (rs : List Entry)
    → is_empty l.evidence ≡ false
    → raise (dominators l.evidence rs) l ≡ lift (l ∷ rs) l
unfolding lift dominators beaten_by
lift_self l rs h = rw (h, beats_irreflexive)

length-versus : (l : Entry) (rs : List Entry) (u : Bool) → length (versus l rs u).1 ≡ length rs
unfolding versus
length-versus l [] u = refl
length-versus l (r ∷ rs) u = elim (Bool-cases (is_empty r.evidence)) [
  | inl none ↦ rw none (ap suc (length-versus l rs u))
  | inr evident ↦
      let s = settle (judge l r) l r in rw evident (ap suc (length-versus s.0 rs (u || s.2)))
]

map-lift-bump :
    (l : Entry) (rs : List Entry)
    → is_empty l.evidence ≡ false
    → map (lift (map (bump l.evidence) rs)) (map (bump l.evidence) rs) ≡ map (lift (l ∷ rs)) rs
map-lift-bump l rs h =
    map-map (lift (map (bump l.evidence) rs)) (bump l.evidence) rs
    ∙ ap (λ f. map f rs) (fun_ext (λ r. lift-bump l rs r h))

-- Where the comparison of the profiles is certain, it changes nothing but the counts, and counts for
-- each profile with evidence the profiles that beat it.
pub compare_all-certain :
    (n : ℕ) (es : List Entry) (u : Bool)
    → length es ≤ n
    → (compare_all n es u).1 ≡ false
    → (u ≡ false) × (compare_all n es u ≡ (map (lift es) es, false))
unfolding compare_all
compare_all-certain zero [] u k h = (h, λ i. ([], h i))
compare_all-certain zero (l ∷ rs) u k h = absurd (omega arith)
compare_all-certain (suc n) [] u k h = (h, λ i. ([], h i))
compare_all-certain (suc n) (l ∷ rs) u k h = elim (Bool-cases (is_empty l.evidence)) [
  | inl none ↦
      let (q, e) = compare_all-certain n rs u (omega arith) (rw none at h) in
      (
        q,
        rw none (
            ap (keep_left l) e ∙ λ i. (
              sym (lift_empty (l ∷ rs) l none) i
                  ∷ ap (λ f. map f rs) (fun_ext (λ e. lift-cons_empty l rs e none)) i,
              false,
            )),
      )
  | inr evident ↦
      let v = versus l rs u in
      let h' : (compare_all n v.1 v.2).1 ≡ false = rw evident at h in
      let (q, e) = compare_all-certain n v.1 v.2 (omega (arith, length-versus l rs u)) h' in
      let (q', e') = versus-certain l rs u q in
      (
        q',
        rw evident (
            ap (keep_left v.0) e
            ∙ ap (λ w. (w.0 ∷ map (lift w.1) w.1, false)) e'
            ∙ (λ i. (lift_self l rs evident i ∷ map-lift-bump l rs evident i, false))),
      )
]
