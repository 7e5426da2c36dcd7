-- ===== src/Usage/Ranking/Winner.antt =====
-- What a recommendation of Rank means (internal/usage/ranking.go).
use codex_folio.Base.{
  suc, Bool, true, false, ◌&&◌, ◌||◌, not, ◌≡◌, ◌≢◌, refl, sym, ap, subst, ◌∙◌, and_eq_true, ◌⊎◌,
  inl, inr, List, [], ◌∷◌, arith, length, map, Bool-cases, In, All, eqb, String, string_eq, ◌!=◌,
  Time,
}
use codex_folio.Usage.Types.{Observation, Snapshot, Metric, ProfileTarget, registry}
use codex_folio.Usage.Capacity.{CapacityState, fresh, stale, ineligible, lacking, provider_capacity}
use codex_folio.Usage.Capacity.Evidence.{
  Complete, IsFresh, provider_metrics, provider_capacity-IsFresh,
}
use codex_folio.Usage.Ranking.{
  Entry, Choice, Candidate, entry_of, is_fresh, is_stale, is_unknown, is_winner, choose, recommend,
  any_exhausted, any_unknown, compare_all, rank, is_empty,
}
use codex_folio.Usage.Ranking.Dominance.{beats, IsNumber}
use codex_folio.Usage.Ranking.Counts.{dominators, lift, compare_all-certain}
use codex_folio.Usage.Ranking.Choosing.{Sole, choose-one, choose_mono_uncertain}
use codex_folio.Usage.Ranking.Maximum.{IsSound, Same, maximum}

Complete-numbers :
    (now : Time) (snapshot : Snapshot) (ms : List Metric) (os : List Observation)
    → Complete now snapshot ms os
    → All IsNumber os × (length os ≡ length ms)
Complete-numbers now snapshot [] [] c = (tt, refl)
Complete-numbers now snapshot [] (o ∷ os) c = absurd c
Complete-numbers now snapshot (m ∷ ms) [] c = absurd c
Complete-numbers now snapshot (m ∷ ms) (o ∷ os) c =
    let (numbers, same) = Complete-numbers now snapshot ms os c.1 in
    ((c.0.1.nonnegative, numbers), ap suc same)

two_metrics : length (provider_metrics registry) ≡ 2
unfolding registry
two_metrics = refl

-- The state of the capacity, and the evidence, of an eligible profile or of another.
entry-cases :
    (snapshots : List Snapshot) (now : Time) (compatible : Bool) (p : ProfileTarget)
    → let e = entry_of snapshots now compatible p in
      ((e.candidate.eligible ≡ false)
        × (e.evidence ≡ [])
        × (e.candidate.capacity_state ≡ ineligible))
      ⊎ ((e.candidate.eligible ≡ true)
          × (e.evidence ≡ (provider_capacity e.scope now).0)
          × (e.candidate.capacity_state ≡ (provider_capacity e.scope now).1))
unfolding entry_of
entry-cases snapshots now compatible p =
    elim (Bool-cases (p.eligible && compatible && p.id != "")) [
      | inl suited ↦ rw suited (inr (refl, refl, refl))
      | inr unsuited ↦ rw unsuited (inl (refl, refl, refl))
    ]

-- What every entry of the ranking satisfies.
pub record Entered (now : Time) (e : Entry) : Type 0 where
  pub sound : IsSound e
  pub uncounted : e.dominated ≡ 0
  pub state_evident :
      ((is_empty e.evidence ≡ true) × (is_fresh e.candidate.capacity_state ≡ false))
      ⊎ ((is_empty e.evidence ≡ false)
          × (is_fresh e.candidate.capacity_state ≡ true)
          × (e.candidate.eligible ≡ true)
          × IsFresh now e.scope e.evidence)

is_fresh-ne : (s : CapacityState) → s ≢ fresh → is_fresh s ≡ false
is_fresh-ne fresh h = absurd (h refl)
is_fresh-ne stale h = refl
is_fresh-ne ineligible h = refl
is_fresh-ne (lacking r) h = refl

empty_of_length : {A : Type 0} (xs : List A) → length xs ≡ 2 → is_empty xs ≡ false
empty_of_length [] h = absurd (omega arith)
empty_of_length (x ∷ xs) h = refl

no_evidence :
    (now : Time) (e : Entry)
    → e.dominated ≡ 0
    → e.evidence ≡ []
    → is_fresh e.candidate.capacity_state ≡ false
    → Entered now e
no_evidence now e z h f = record {
  sound = record { numbers = subst (All IsNumber) (sym h) tt; windows = λ q. cc (ap is_empty h) };
  uncounted = z;
  state_evident = inl (ap is_empty h, f);
}

entry-Entered :
    (snapshots : List Snapshot) (now : Time) (compatible : Bool) (p : ProfileTarget)
    → Entered now (entry_of snapshots now compatible p)
entry-Entered snapshots now compatible p =
    let e = entry_of snapshots now compatible p in
    let zero_count : e.dominated ≡ 0 = unfold entry_of in refl in
    elim (entry-cases snapshots now compatible p) [
      | inl (_, none, state) ↦ no_evidence now e zero_count none (ap is_fresh state)
      | inr (eligible, evidence, state) ↦ elim (provider_capacity-IsFresh e.scope now) [
        | inl (none, other) ↦
            no_evidence now e zero_count (evidence ∙ none) (ap is_fresh state ∙ is_fresh-ne _ other)
        | inr (current, is_new) ↦
            let full : IsFresh now e.scope e.evidence =
              subst (IsFresh now e.scope) (sym evidence) is_new in
            let (numbers, count) =
              Complete-numbers now e.scope (provider_metrics registry) e.evidence full.complete in
            let two = count ∙ two_metrics in
            record {
              sound = record { numbers = numbers; windows = λ _. two };
              uncounted = zero_count;
              state_evident =
                  inr
                    (empty_of_length e.evidence two, ap is_fresh (state ∙ current), eligible, full);
            }
      ]
    ]

In-map :
    {A B : Type 0} (f : A → B) (xs : List A) (y : B)
    → In y (map f xs)
    → (x : A) × In x xs × (f x ≡ y)
In-map f [] y m = absurd m
In-map f (x ∷ xs) y (inl here) = (x, inl refl, here)
In-map f (x ∷ xs) y (inr there) = let (z, n, e) = In-map f xs y there in (z, inr n, e)

map-In : {A B : Type 0} (f : A → B) (xs : List A) (x : A) → In x xs → In (f x) (map f xs)
map-In f [] x m = absurd m
map-In f (z ∷ xs) x (inl here) = inl (ap f here)
map-In f (z ∷ xs) x (inr there) = inr (map-In f xs x there)

All-intro :
    {P : ProfileTarget → Type 0} (xs : List ProfileTarget)
    → ((x : ProfileTarget) → In x xs → P x)
    → All P xs
All-intro [] h = tt
All-intro (x ∷ xs) h = (h x (inl refl), All-intro xs (λ y m. h y (inr m)))

lift-Same : (es : List Entry) (e : Entry) → Same (lift es e) e
unfolding lift
lift-Same es e = elim (Bool-cases (is_empty e.evidence)) [
  | inl none ↦ rw none (refl, refl)
  | inr evident ↦ rw evident (refl, refl)
]

-- An entry with evidence that none beats wins.
unbeaten-wins :
    (now : Time) (es : List Entry) (e : Entry)
    → Entered now e
    → is_empty e.evidence ≡ false
    → dominators e.evidence es ≡ 0
    → is_winner (lift es e) ≡ true
unfolding is_winner lift
unbeaten-wins now es e h p d = elim h.state_evident [
  | inl (none, _) ↦ cc
  | inr (_, new, _, _) ↦ rw (p, new, d, h.uncounted)
]

winner-evident :
    (now : Time) (es : List Entry) (e : Entry)
    → Entered now e
    → is_winner (lift es e) ≡ true
    → (is_empty e.evidence ≡ false) × (e.candidate.eligible ≡ true) × IsFresh now e.scope e.evidence
unfolding is_winner
winner-evident now es e h won =
    let new : is_fresh e.candidate.capacity_state ≡ true =
      ap (λ c. is_fresh c.capacity_state) (sym (lift-Same es e).0) ∙ (and_eq_true _ _ won).0 in
    elim h.state_evident [
      | inl (_, old) ↦ cc
      | inr (evident, _, eligible, full) ↦ (evident, eligible, full)
    ]

any_unknown-false :
    (es : List Entry) (e : Entry) → In e es → any_unknown es ≡ false → is_unknown e ≡ false
unfolding any_unknown
any_unknown-false [] e m h = absurd m
any_unknown-false (x ∷ es) e (inl here) h = ap is_unknown (sym here) ∙ (ground arith)
any_unknown-false (x ∷ es) e (inr there) h = any_unknown-false es e there (ground arith)

recommend-cases :
    (es : List Entry) (u : Bool)
    → recommend es u ≢ ""
    → let c = choose es (record { recommended = ""; winners = 0; uncertain = u }) in
      (c.uncertain ≡ false) × (c.winners ≡ 1) × (recommend es u ≡ c.recommended)
unfolding recommend
recommend-cases es u h =
    let c = choose es (record { recommended = ""; winners = 0; uncertain = u }) in
    elim (Bool-cases (c.uncertain || not (eqb c.winners 1))) [
      | inl blank ↦ absurd (h (rw blank refl))
      | inr clear ↦ (ground arith, ground arith, rw clear refl)
    ]

-- What a recommendation stands for: `w` is the entry of the recommended profile.
module _ (snapshots : List Snapshot) (now : Time) (compatible : Bool)
    (profiles : List ProfileTarget) where
  abbrev entry : ProfileTarget → Entry
  entry = entry_of snapshots now compatible

  -- The standing of another profile below the recommended one.
  abbrev pub Below : Entry → Entry → Type 0
  Below w e =
      (e.candidate ≡ w.candidate)
      ⊎ (beats w.evidence e.evidence ≡ true)
      ⊎ (e.candidate.eligible ≡ false)
      ⊎ (is_stale e.candidate.capacity_state ≡ true)

  abbrev pub Recommended : Entry → Type 0
  Recommended w =
      (w.candidate.eligible ≡ true)
      × IsFresh now w.scope w.evidence
      × (any_exhausted w.evidence ≡ false)
      × All (λ q. Below w (entry q)) profiles

  entered : (e : Entry) → In e (map entry profiles) → Entered now e
  entered e m =
      let (p, n, eq) = In-map entry profiles e m in
      subst (Entered now) eq (entry-Entered snapshots now compatible p)

  below :
      (w e : Entry)
      → Entered now e
      → is_unknown e ≡ false
      → (is_empty e.evidence ≡ false → Same e w ⊎ (beats w.evidence e.evidence ≡ true))
      → Below w e
  unfolding is_unknown
  below w e h known top = elim h.state_evident [
    | inl (none, old) ↦ elim (Bool-cases e.candidate.eligible) [
      | inl eligible ↦ inr (inr (inr (ground arith)))
      | inr unfit ↦ inr (inr (inl unfit))
    ]
    | inr (evident, _, _, _) ↦ elim (top evident) [
      | inl same ↦ inl same.0
      | inr beaten ↦ inr (inl beaten)
    ]
  ]

  winner :
      (es : List Entry) (w' : Entry)
      → es ≡ map (lift (map entry profiles)) (map entry profiles)
      → any_unknown (map entry profiles) ≡ false
      → (c : Choice) → Sole es c w'
      → (p : ProfileTarget) × In p profiles × (p.id ≡ c.recommended) × Recommended (entry p)
  unfolding entry_of
  winner es w' eq known c (member, won, id, exhausted, only) =
      let all = map entry profiles in
      let (w, m, lifted) = In-map (lift all) all w' (subst (In w') eq member) in
      let (p, n, named) = In-map entry profiles w m in
      let raised : lift all (entry p) ≡ w' = ap (lift all) named ∙ lifted in
      let here = map-In entry profiles p n in
      let same = lift-Same all (entry p) in
      let own : (entry p).candidate ≡ w'.candidate = sym same.0 ∙ ap (λ x. x.candidate) raised in
      let kept : (entry p).evidence ≡ w'.evidence = sym same.1 ∙ ap (λ x. x.evidence) raised in
      let (evident, eligible, full) =
        winner-evident now all (entry p) (entered (entry p) here) (ap is_winner raised ∙ won) in
      let sole : (e : Entry)
          → In e all
          → is_empty e.evidence ≡ false
          → dominators e.evidence all ≡ 0
          → Same e (entry p) =
        λ e k q d.
          let wins = unbeaten-wins now all e (entered e k) q d in
          let met =
            only (lift all e) (subst (In (lift all e)) (sym eq) (map-In (lift all) all e k)) wins in
          let other = lift-Same all e in
          (
            sym other.0 ∙ ap (λ x. x.candidate) met ∙ sym own,
            sym other.1 ∙ ap (λ x. x.evidence) met ∙ sym kept,
          ) in
      (
        p,
        n,
        ap (λ x. x.profile_id) own ∙ sym id,
        (
          eligible,
          full,
          ap any_exhausted kept ∙ exhausted,
          All-intro profiles (λ q k.
              let e = entry q in
              let at = map-In entry profiles q k in
              below (entry p) e (entered e at) (any_unknown-false all e at known) (λ v.
                maximum all (λ x i. (entered x i).sound) (entry p) here evident sole
                  (dominators e.evidence all) e (omega arith) at v)),
        ),
      )

-- Where Rank recommends a profile, that profile is one of those ranked, is eligible, and has fresh
-- evidence in which no window is used up; every other profile is ineligible, or its evidence is
-- stale, or the recommended profile has used less in one of the windows and more in none.
pub rank-Recommended :
    (sort_slice : (Candidate → Candidate → Bool) → List Candidate → List Candidate)
    (to_lower : String → String) (text_lt : String → String → Bool) (snapshots : List Snapshot)
    (now : Time) (compatible : Bool) (profiles : List ProfileTarget)
    → (rank sort_slice to_lower text_lt profiles snapshots now compatible).1 ≢ ""
    → (p : ProfileTarget) × In p profiles
      × (p.id ≡ (rank sort_slice to_lower text_lt profiles snapshots now compatible).1)
      × Recommended snapshots now compatible profiles (entry_of snapshots now compatible p)
unfolding rank
rank-Recommended sort_slice to_lower text_lt snapshots now compatible profiles h =
    let all = map (entry_of snapshots now compatible) profiles in
    let end = compare_all (length all) all (any_unknown all) in
    let (certain, one, chosen) = recommend-cases end.0 end.1 h in
    let start : Choice = record { recommended = ""; winners = 0; uncertain = end.1 } in
    let (known, compared) =
      compare_all-certain (length all) all (any_unknown all) (omega arith)
        (choose_mono_uncertain end.0 start certain) in
    let (w, sole) = choose-one end.0 start refl one certain in
    let (p, m, id, r) =
      winner snapshots now compatible profiles end.0 w (ap (λ x. x.0) compared) known
        (choose end.0 start) sole in
    (p, m, id ∙ sym chosen, r)
