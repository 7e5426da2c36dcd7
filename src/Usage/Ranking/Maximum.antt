-- ===== src/Usage/Ranking/Maximum.antt =====
-- In the order of Rank, a profile that alone is beaten by none beats all others
-- (internal/usage/ranking.go).
use codex_folio.Base.{
  ℕ, zero, suc, true, false, ◌≡◌, ◌≢◌, ◌≤◌, ◌<◌, refl, sym, ap, ◌∙◌, ◌⊎◌, inl, inr, List, [], ◌∷◌,
  arith, length, Bool-cases, In, All, subst, eqb, eqb_iff,
}
use codex_folio.Usage.Types.{Observation}
use codex_folio.Usage.Ranking.{Entry, is_empty}
use codex_folio.Usage.Ranking.Dominance.{beats, beats_trans, beats_irreflexive, IsNumber}
use codex_folio.Usage.Ranking.Counts.{beaten_by, dominators}

beaten_by-parts :
    (x : List Observation) (r : Entry)
    → beaten_by x r ≡ true
    → (is_empty r.evidence ≡ false) × (beats r.evidence x ≡ true)
unfolding beaten_by
beaten_by-parts x r h = ground arith

beaten_by-intro :
    (x : List Observation) (r : Entry)
    → is_empty r.evidence ≡ false
    → beats r.evidence x ≡ true
    → beaten_by x r ≡ true
unfolding beaten_by
beaten_by-intro x r e h = ground arith

not_beaten_self : (r : Entry) → beaten_by r.evidence r ≡ false
unfolding beaten_by
not_beaten_self r = rw beats_irreflexive (ground arith)

some_dominator :
    (x : List Observation) (es : List Entry)
    → dominators x es ≢ 0
    → (r : Entry) × In r es × (beaten_by x r ≡ true)
unfolding dominators
some_dominator x [] h = absurd (h refl)
some_dominator x (e ∷ es) h = elim (Bool-cases (beaten_by x e)) [
  | inl hit ↦ (e, inl refl, hit)
  | inr miss ↦ let (r, m, b) = some_dominator x es (rw miss at h) in (r, inr m, b)
]

abbrev Within : List Observation → List Observation → List Entry → Type 0
Within y x es = (s : Entry) → In s es → beaten_by y s ≡ true → beaten_by x s ≡ true

dominators-le :
    (y x : List Observation) (es : List Entry) → Within y x es → dominators y es ≤ dominators x es
unfolding dominators
dominators-le y x [] h = omega arith
dominators-le y x (e ∷ es) h =
    ground (arith, dominators-le y x es (λ s m. h s (inr m)), h e (inl refl))

dominators-lt :
    (y x : List Observation) (es : List Entry) (r : Entry)
    → Within y x es
    → In r es
    → beaten_by x r ≡ true
    → beaten_by y r ≡ false
    → dominators y es < dominators x es
unfolding dominators
dominators-lt y x [] r h m p q = absurd m
dominators-lt y x (e ∷ es) r h (inl here) p q =
    let p' : beaten_by x e ≡ true = ap (beaten_by x) here ∙ p in
    let q' : beaten_by y e ≡ false = ap (beaten_by y) here ∙ q in
    rw (p', q') (omega (arith, dominators-le y x es (λ s m. h s (inr m))))
dominators-lt y x (e ∷ es) r h (inr there) p q =
    ground (arith, dominators-lt y x es r (λ s m. h s (inr m)) there p q, h e (inl refl))

-- What the evidence of the ranking guarantees of every entry.
pub record IsSound (e : Entry) : Type 0 where
  pub numbers : All IsNumber e.evidence
  pub windows : is_empty e.evidence ≡ false → length e.evidence ≡ 2

-- Entries of one profile.
abbrev pub Same : Entry → Entry → Type 0
Same a b = (a.candidate ≡ b.candidate) × (a.evidence ≡ b.evidence)

module _ (es : List Entry) (sound : (e : Entry) → In e es → IsSound e) (w : Entry)
    (member : In w es) (evident : is_empty w.evidence ≡ false)
    (sole : (e : Entry)
      → In e es
      → is_empty e.evidence ≡ false
      → dominators e.evidence es ≡ 0
      → Same e w) where
  trans :
      (a b c : Entry)
      → In a es
      → In b es
      → In c es
      → is_empty a.evidence ≡ false
      → is_empty b.evidence ≡ false
      → is_empty c.evidence ≡ false
      → beats a.evidence b.evidence ≡ true
      → beats b.evidence c.evidence ≡ true
      → beats a.evidence c.evidence ≡ true
  trans a b c m n o p q r =
      let sa = sound a m in
      let sb = sound b n in
      let sc = sound c o in
      beats_trans a.evidence b.evidence c.evidence sa.numbers sb.numbers sc.numbers
        (sa.windows p ∙ sym (sb.windows q)) (sb.windows q ∙ sym (sc.windows r))

  fewer :
      (e r : Entry)
      → In e es
      → In r es
      → is_empty e.evidence ≡ false
      → beaten_by e.evidence r ≡ true
      → dominators r.evidence es < dominators e.evidence es
  fewer e r m n p b =
      let (q, hit) = beaten_by-parts e.evidence r b in
      dominators-lt r.evidence e.evidence es r
        (λ s o h.
          let (t, hit') = beaten_by-parts r.evidence s h in
          beaten_by-intro e.evidence s t (trans s r e o n m t q p hit' hit))
        n b (not_beaten_self r)

  -- Every profile with evidence is the one that is beaten by none, or is beaten by it.
  pub maximum :
      (k : ℕ) (e : Entry)
      → dominators e.evidence es ≤ k
      → In e es
      → is_empty e.evidence ≡ false
      → Same e w ⊎ (beats w.evidence e.evidence ≡ true)
  maximum zero e h m p = inl (sole e m p (omega arith))
  maximum (suc k) e h m p = elim (Bool-cases (eqb (dominators e.evidence es) 0)) [
    | inl free ↦ inl (sole e m p ((eqb_iff _ 0).0 free))
    | inr held ↦
        let (r, n, b) = some_dominator e.evidence es (λ z. cc ((eqb_iff _ 0).1 z)) in
        let (q, hit) = beaten_by-parts e.evidence r b in
        elim (maximum k r (omega (arith, fewer e r m n p b)) n q) [
          | inl same ↦ inr (subst (λ x. beats x e.evidence ≡ true) same.1 hit)
          | inr above ↦ inr (trans w r e member n m evident q p above hit)
        ]
  ]
