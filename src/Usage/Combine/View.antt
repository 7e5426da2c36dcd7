-- ===== src/Usage/Combine/View.antt =====
-- What the loops of combineWithRegistry leave of the evidence offered (internal/usage/usage.go).
use codex_folio.Base.{
  ◌≡◌, refl, ap, sym, ◌∙◌, inl, inr, Bool, true, false, ◌||◌, List, [], ◌∷◌, ◌++◌, String, ◌==◌,
  string_eq, Bool-cases, arith, if◌then◌else◌,
}
use codex_folio.Usage.Types.{Metric, Observation, Snapshot}
use codex_folio.Usage.Combine.{
  Evidence, evidence, is_summed, is_same_evidence, is_conflict, any_prior, has_text, Combined,
  combine_observation, combine_observations, combine_snapshots,
}
use codex_folio.Usage.Combine.Disjoint.{overlaps, disagrees, consistent, of_key, is_told}

-- The evidence that adds up among the observations of the snapshots, the newest first.
unfoldable pub offer : List Metric → Snapshot → List Observation → List Evidence → List Evidence
offer metrics s [] es = es
offer metrics s (o ∷ os) es =
    offer metrics s os (if is_summed metrics o then evidence s o ∷ es else es)

unfoldable pub offered : List Metric → List Snapshot → List Evidence → List Evidence
unfolding offer
offered metrics [] es = es
offered metrics (s ∷ ss) es = offered metrics ss (offer metrics s s.observations es)

conflict_lem :
    (e : Evidence) (es : List Evidence) → any_prior (is_conflict e) es ≡ any_prior (disagrees e) es
unfolding is_conflict is_same_evidence disagrees overlaps
conflict_lem e es = refl

-- Evidence that was told of is of a consistent metric where its key is not named.
pub told-consistent :
    (key : String) (es : List Evidence) (names : List String)
    → is_told es names ≡ true
    → has_text key names ≡ false
    → consistent key es ≡ true
unfolding is_told consistent
told-consistent key [] names told quiet = refl
told-consistent key (e ∷ es) names told quiet =
    let ih = told-consistent key es names (ground (arith, told)) quiet in
    elim (Bool-cases (e.observation.metric.key == key)) [
      | inr other ↦ rw (other, ih) refl
      | inl same ↦
          let here : e.observation.metric.key ≡ key =
            (string_eq.is_same_iff e.observation.metric.key key).0 same in
          let unnamed : has_text e.observation.metric.key names ≡ false =
            ap (λ k. has_text k names) here ∙ quiet in
          let alone : any_prior (disagrees e) es ≡ false =
            sym (conflict_lem e es) ∙ (ground (arith, told, unnamed)) in
          rw (same, alone, ih) refl
    ]

any_prior-last :
    (test : Evidence → Bool) (e : Evidence) (es : List Evidence)
    → any_prior test (es ++ e ∷ []) ≡ (any_prior test es || test e)
unfolding any_prior
any_prior-last test e [] = ground arith
any_prior-last test e (x ∷ es) = let ih = any_prior-last test e es in ground (arith, ih)

same-of_key :
    (key : String) (e : Evidence) (es : List Evidence)
    → any_prior (is_same_evidence e) es ≡ true
    → of_key key e ≡ true
    → any_prior (of_key key) es ≡ true
unfolding any_prior is_same_evidence
same-of_key key e [] h k = cc
same-of_key key e (x ∷ es) h k = elim (Bool-cases (is_same_evidence e x)) [
  | inl same ↦
      let keys : (x.observation.metric.key == e.observation.metric.key) ≡ true =
        ground (arith, same) in
      let xe = (string_eq.is_same_iff x.observation.metric.key e.observation.metric.key).0 keys in
      let ek = (string_eq.is_same_iff e.observation.metric.key key).0 k in
      let xk : of_key key x ≡ true =
        (string_eq.is_same_iff x.observation.metric.key key).1 (xe ∙ ek) in
      rw xk refl
  | inr other ↦ let ih = same-of_key key e es (ground (arith, h, other)) k in ground (arith, ih)
]

module _ (metrics : List Metric) where
  -- A metric is named only if it is not consistent, and each metric seen is grouped.
  pub record IsFair (c : Combined) : Type 0 where
    pub fair : (key : String) → consistent key c.seen ≡ true → has_text key c.ambiguous ≡ false
    pub reaches :
        (key : String)
        → any_prior (of_key key) c.seen ≡ true
        → any_prior (of_key key) c.grouped ≡ true

  named_fairly :
      (key : String) (e : Evidence) (c : Combined)
      → IsFair c
      → consistent key (e ∷ c.seen) ≡ true
      → has_text key (
          if any_prior (is_conflict e) c.seen
          then e.observation.metric.key ∷ c.ambiguous
          else c.ambiguous)
        ≡ false
  unfolding consistent has_text
  named_fairly key e c h k =
      let old = h.fair key (ground (arith, k)) in
      elim (Bool-cases (any_prior (is_conflict e) c.seen)) [
        | inr alone ↦ rw alone old
        | inl conflict ↦
            let told : any_prior (disagrees e) c.seen ≡ true =
              sym (conflict_lem e c.seen) ∙ conflict in
            let other : (e.observation.metric.key == key) ≡ false = ground (arith, k, told) in
            rw (conflict, other) old
      ]

  grouped_covers :
      (key : String) (e : Evidence) (c : Combined)
      → IsFair c
      → any_prior (of_key key) (e ∷ c.seen) ≡ true
      → any_prior
          (of_key key)
          (if any_prior (is_same_evidence e) c.seen then c.grouped else c.grouped ++ e ∷ [])
        ≡ true
  unfolding any_prior
  grouped_covers key e c h k = elim (Bool-cases (any_prior (is_same_evidence e) c.seen)) [
    | inr new ↦
        let last = any_prior-last (of_key key) e c.grouped in
        rw (new, last)
          (elim (Bool-cases (of_key key e)) [
            | inl here ↦ ground (arith, here)
            | inr other ↦ ground (arith, other, h.reaches key)
          ])
    | inl again ↦ rw again (elim (Bool-cases (of_key key e)) [
      | inl here ↦ h.reaches key (same-of_key key e c.seen again here)
      | inr other ↦ h.reaches key (ground (arith, other))
    ])
  ]

  combine_observation-IsFair :
      (s : Snapshot) (o : Observation) (c : Combined)
      → IsFair c
      → IsFair (combine_observation metrics s o c)
  unfolding combine_observation
  combine_observation-IsFair s o c h = elim (Bool-cases (is_summed metrics o)) [
    | inr plain ↦ rw plain h
    | inl adds ↦ rw adds (record {
      fair = λ key k. named_fairly key (evidence s o) c h k;
      reaches = λ key k. grouped_covers key (evidence s o) c h k;
    })
  ]

  combine_observations-IsFair :
      (s : Snapshot) (os : List Observation) (c : Combined)
      → IsFair c
      → IsFair (combine_observations metrics s os c)
        × ((combine_observations metrics s os c).seen ≡ offer metrics s os c.seen)
  unfolding combine_observations offer combine_observation
  combine_observations-IsFair s [] c h = (h, refl)
  combine_observations-IsFair s (o ∷ os) c h =
      let (fair, seen) =
        combine_observations-IsFair s os (combine_observation metrics s o c)
          (combine_observation-IsFair s o c h) in
      (
        fair,
        elim (Bool-cases (is_summed metrics o)) [
          | inl adds ↦ seen ∙ (rw adds refl)
          | inr plain ↦ seen ∙ (rw plain refl)
        ],
      )

  pub combine_snapshots-IsFair :
      (ss : List Snapshot) (c : Combined)
      → IsFair c
      → IsFair (combine_snapshots metrics ss c)
        × ((combine_snapshots metrics ss c).seen ≡ offered metrics ss c.seen)
  unfolding combine_snapshots offered
  combine_snapshots-IsFair [] c h = (h, refl)
  combine_snapshots-IsFair (s ∷ ss) c h =
      let (fair, seen) = combine_observations-IsFair s s.observations c h in
      let (fair', seen') =
        combine_snapshots-IsFair ss (combine_observations metrics s s.observations c) fair in
      (fair', seen' ∙ ap (offered metrics ss) seen)
