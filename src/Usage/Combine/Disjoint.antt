-- ===== src/Usage/Combine/Disjoint.antt =====
-- What combineWithRegistry sums (internal/usage/usage.go).
use codex_folio.Base.{
  ◌≡◌, refl, inl, inr, Bool, true, false, ◌&&◌, ◌||◌, not, List, [], ◌∷◌, ◌++◌, String, ◌==◌, ◌!=◌,
  string_eq, Bool-cases, arith, All, if◌then◌else◌,
}
use codex_folio.Usage.Types.{float_eq, windows_overlap, Metric, Observation, Snapshot}
use codex_folio.Usage.Combine.{
  Evidence, evidence, is_summed, same_scope, is_same_evidence, is_conflict, any_prior, has_text,
  Combined, combine_observation, combine_observations, combine_snapshots,
}

-- Evidence of one metric and scope whose windows overlap, and such evidence with another value.
unfoldable pub overlaps : Evidence → Evidence → Bool
overlaps e prior =
    prior.observation.metric.key == e.observation.metric.key
    && same_scope prior.scope e.scope
    && windows_overlap prior.observation e.observation

unfoldable pub disagrees : Evidence → Evidence → Bool
unfolding overlaps
disagrees e prior = overlaps e prior && not (float_eq prior.observation.value e.observation.value)

-- No two of the evidence are of the same metric and scope with overlapping windows.
unfoldable pub disjoint : List Evidence → Bool
unfolding any_prior overlaps
disjoint [] = true
disjoint (e ∷ es) = not (any_prior (λ later. overlaps later e) es) && disjoint es

-- No evidence of a metric disagrees with earlier evidence, the newest being first.
unfoldable pub consistent : String → List Evidence → Bool
unfolding any_prior disagrees
consistent key [] = true
consistent key (e ∷ es) =
    (e.observation.metric.key != key || not (any_prior (disagrees e) es)) && consistent key es

abbrev pub of_key : String → Evidence → Bool
of_key key e = e.observation.metric.key == key

-- Evidence that contradicts earlier evidence is of a metric that is named ambiguous.
unfoldable pub is_told : List Evidence → List String → Bool
unfolding any_prior is_conflict has_text
is_told [] names = true
is_told (e ∷ es) names =
    (not (any_prior (is_conflict e) es) || has_text e.observation.metric.key names)
    && is_told es names

any_prior-append :
    (test : Evidence → Bool) (e : Evidence) (es : List Evidence)
    → any_prior test es ≡ false
    → test e ≡ false
    → any_prior test (es ++ e ∷ []) ≡ false
unfolding any_prior
any_prior-append test e [] h k = rw k refl
any_prior-append test e (x ∷ es) h k =
    let ih = any_prior-append test e es (ground (arith, h)) k in ground (arith, h, ih)

All-append :
    (P : Evidence → Type 0) (e : Evidence) (es : List Evidence)
    → All P es
    → P e
    → All P (es ++ e ∷ [])
All-append P e [] h p = (p, tt)
All-append P e (x ∷ es) (here, there) p = (here, All-append P e es there p)

disjoint-append :
    (e : Evidence) (es : List Evidence)
    → disjoint es ≡ true
    → any_prior (is_same_evidence e) es ≡ false
    → disjoint (es ++ e ∷ []) ≡ true
unfolding disjoint any_prior overlaps is_same_evidence
disjoint-append e [] d h = refl
disjoint-append e (x ∷ es) d h =
    let ih = disjoint-append e es (ground (arith, d)) (ground (arith, h)) in
    let here : is_same_evidence e x ≡ false = ground (arith, h) in
    let rest : any_prior (λ later. is_same_evidence later x) (es ++ e ∷ []) ≡ false =
      any_prior-append (λ later. is_same_evidence later x) e es (ground (arith, d)) here in
    rw (rest, ih) refl

is_told-more :
    (name : String) (names : List String) (es : List Evidence)
    → is_told es names ≡ true
    → is_told es (name ∷ names) ≡ true
unfolding is_told has_text
is_told-more name names [] h = refl
is_told-more name names (e ∷ es) h =
    let ih = is_told-more name names es (ground (arith, h)) in ground (arith, h, ih)

module _ (metrics : List Metric) where
  pub record IsSound (c : Combined) : Type 0 where
    pub part :
        (test : Evidence → Bool) → any_prior test c.seen ≡ false → any_prior test c.grouped ≡ false
    pub apart : disjoint c.grouped ≡ true
    pub summed : All (λ e. is_summed metrics e.observation ≡ true) c.grouped
    pub told : is_told c.seen c.ambiguous ≡ true

  grouped_part :
      (e : Evidence) (c : Combined)
      → IsSound c
      → (test : Evidence → Bool) → any_prior test (e ∷ c.seen) ≡ false
      → any_prior test
          (if any_prior (is_same_evidence e) c.seen then c.grouped else c.grouped ++ e ∷ [])
        ≡ false
  unfolding any_prior
  grouped_part e c h test miss =
      let old = h.part test (ground (arith, miss)) in
      elim (Bool-cases (any_prior (is_same_evidence e) c.seen)) [
        | inl again ↦ rw again old
        | inr new ↦ rw new (any_prior-append test e c.grouped old (ground (arith, miss)))
      ]

  grouped_apart :
      (e : Evidence) (c : Combined)
      → IsSound c
      → disjoint (if any_prior (is_same_evidence e) c.seen then c.grouped else c.grouped ++ e ∷ [])
        ≡ true
  grouped_apart e c h = elim (Bool-cases (any_prior (is_same_evidence e) c.seen)) [
    | inl again ↦ rw again h.apart
    | inr new ↦ rw new (disjoint-append e c.grouped h.apart (h.part (is_same_evidence e) new))
  ]

  grouped_summed :
      (e : Evidence) (c : Combined)
      → IsSound c
      → is_summed metrics e.observation ≡ true
      → All
          (λ x. is_summed metrics x.observation ≡ true)
          (if any_prior (is_same_evidence e) c.seen then c.grouped else c.grouped ++ e ∷ [])
  grouped_summed e c h adds = elim (Bool-cases (any_prior (is_same_evidence e) c.seen)) [
    | inl again ↦ rw again h.summed
    | inr new ↦
        rw new (All-append (λ x. is_summed metrics x.observation ≡ true) e c.grouped h.summed adds)
  ]

  told_more :
      (e : Evidence) (c : Combined)
      → IsSound c
      → is_told (e ∷ c.seen) (
          if any_prior (is_conflict e) c.seen
          then e.observation.metric.key ∷ c.ambiguous
          else c.ambiguous)
        ≡ true
  unfolding is_told has_text
  told_more e c h = elim (Bool-cases (any_prior (is_conflict e) c.seen)) [
    | inl conflict ↦
        let self : (e.observation.metric.key == e.observation.metric.key) ≡ true =
          (string_eq.is_same_iff e.observation.metric.key e.observation.metric.key).1 refl in
        rw (conflict, self, is_told-more e.observation.metric.key c.ambiguous c.seen h.told) refl
    | inr none_there ↦ rw (none_there, h.told) refl
  ]

  combine_observation-IsSound :
      (s : Snapshot) (o : Observation) (c : Combined)
      → IsSound c
      → IsSound (combine_observation metrics s o c)
  unfolding combine_observation
  combine_observation-IsSound s o c h = elim (Bool-cases (is_summed metrics o)) [
    | inr plain ↦ rw plain h
    | inl adds ↦ rw adds (record {
      part = λ test miss. grouped_part (evidence s o) c h test miss;
      apart = grouped_apart (evidence s o) c h;
      summed = grouped_summed (evidence s o) c h adds;
      told = told_more (evidence s o) c h;
    })
  ]

  combine_observations-IsSound :
      (s : Snapshot) (os : List Observation) (c : Combined)
      → IsSound c
      → IsSound (combine_observations metrics s os c)
  unfolding combine_observations
  combine_observations-IsSound s [] c h = h
  combine_observations-IsSound s (o ∷ os) c h =
      combine_observations-IsSound s os (combine_observation metrics s o c)
        (combine_observation-IsSound s o c h)

  pub combine_snapshots-IsSound :
      (ss : List Snapshot) (c : Combined) → IsSound c → IsSound (combine_snapshots metrics ss c)
  unfolding combine_snapshots
  combine_snapshots-IsSound [] c h = h
  combine_snapshots-IsSound (s ∷ ss) c h =
      combine_snapshots-IsSound ss (combine_observations metrics s s.observations c)
        (combine_observations-IsSound s s.observations c h)
