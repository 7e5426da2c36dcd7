-- ===== src/Usage/Ranking/Choosing.antt =====
-- The loop over the candidates of Rank (internal/usage/ranking.go).
use codex_folio.Base.{
  Bool, true, false, ◌||◌, ◌≡◌, ◌≤◌, refl, sym, ap, ◌∙◌, ◌⊎◌, inl, inr, List, [], ◌∷◌, arith, In,
}
use codex_folio.Usage.Ranking.{Entry, Choice, is_winner, won_by, consider, choose, any_exhausted}

or_right : (a b : Bool) → (a || b) ≡ false → b ≡ false
or_right a b h = ground arith

consider-cases :
    (e : Entry) (c : Choice)
    → ((is_winner e ≡ true) × (consider e c ≡ won_by e c))
      ⊎ ((is_winner e ≡ false) × (consider e c ≡ c))
unfolding consider
consider-cases e c = ground arith

consider_mono : (e : Entry) (c : Choice) → c.winners ≤ (consider e c).winners
unfolding consider
consider_mono e c = ground arith

consider_mono_uncertain :
    (e : Entry) (c : Choice) → (consider e c).uncertain ≡ false → c.uncertain ≡ false
unfolding consider
consider_mono_uncertain e c h = ground arith

choose_mono : (es : List Entry) (c : Choice) → c.winners ≤ (choose es c).winners
unfolding choose
choose_mono [] c = omega arith
choose_mono (e ∷ es) c = omega (arith, choose_mono es (consider e c), consider_mono e c)

pub choose_mono_uncertain :
    (es : List Entry) (c : Choice) → (choose es c).uncertain ≡ false → c.uncertain ≡ false
unfolding choose
choose_mono_uncertain [] c h = h
choose_mono_uncertain (e ∷ es) c h =
    consider_mono_uncertain e c (choose_mono_uncertain es (consider e c) h)

-- No further winner: the choice stands.
choose-none :
    (es : List Entry) (c : Choice)
    → (choose es c).winners ≡ c.winners
    → (choose es c ≡ c) × ((e : Entry) → In e es → is_winner e ≡ false)
unfolding choose
choose-none [] c h = (refl, λ e m. absurd m)
choose-none (e ∷ es) c h = elim (consider-cases e c) [
  | inl (won, eq) ↦
      absurd (unfold won_by in omega (arith, choose_mono es (consider e c), ap (λ x. x.winners) eq))
  | inr (lost, eq) ↦
      let (same, rest) = choose-none es (consider e c) (h ∙ ap (λ x. x.winners) (sym eq)) in
      (
        same ∙ eq,
        λ x. elim [ inl here ↦ ap is_winner (sym here) ∙ lost | inr there ↦ rest x there ],
      )
]

-- The only winner, of whom the recommendation is made.
abbrev pub Sole : List Entry → Choice → Entry → Type 0
Sole es c w =
    In w es
    × (is_winner w ≡ true)
    × (c.recommended ≡ w.candidate.profile_id)
    × (any_exhausted w.evidence ≡ false)
    × ((e : Entry) → In e es → is_winner e ≡ true → e ≡ w)

pub choose-one :
    (es : List Entry) (c : Choice)
    → c.winners ≡ 0
    → (choose es c).winners ≡ 1
    → (choose es c).uncertain ≡ false
    → (w : Entry) × Sole es (choose es c) w
unfolding choose
choose-one [] c z h u = absurd (omega arith)
choose-one (e ∷ es) c z h u = elim (consider-cases e c) [
  | inl (won, eq) ↦
      let count : (consider e c).winners ≡ 1 =
        ap (λ x. x.winners) eq ∙ unfold won_by in omega arith in
      let (same, rest) = choose-none es (consider e c) (h ∙ sym count) in
      let certain : (won_by e c).uncertain ≡ false = ap (λ x. x.uncertain) (sym (same ∙ eq)) ∙ u in
      (
        e,
        (
          inl refl,
          won,
          ap (λ x. x.recommended) (same ∙ eq) ∙ unfold won_by in refl,
          or_right c.uncertain (any_exhausted e.evidence) (unfold won_by in certain),
          λ x. elim [ inl here ↦ λ _. sym here | inr there ↦ λ q. cc (rest x there) ],
        ),
      )
  | inr (lost, eq) ↦
      let (w, (member, won, id, exhausted, sole)) =
        choose-one es (consider e c) (ap (λ x. x.winners) eq ∙ z) h u in
      (
        w,
        (
          inr member,
          won,
          id,
          exhausted,
          λ x. elim [ inl here ↦ λ q. cc (ap is_winner here) | inr there ↦ sole x there ],
        ),
      )
]
