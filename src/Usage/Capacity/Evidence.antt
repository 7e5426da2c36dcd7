-- ===== src/Usage/Capacity/Evidence.antt =====
-- What the evidence of providerCapacity guarantees (internal/usage/ranking.go).
use mathlib.Core.List.{append-nil, append_assoc}
use codex_folio.Base.{
  Bool, true, false, ◌&&◌, ◌||◌, ◌≤◌, ◌≡◌, ◌≢◌, ◌⊎◌, inl, inr, refl, ap, sym, ◌∙◌, List, [], ◌∷◌,
  ◌++◌, Option, none, some, arith, In, String, Time, is_some, since, All, subst, and_eq_true,
  Bool-cases, if-cases, ◌==◌, ◌!=◌, string_eq, if◌then◌else◌,
}
use codex_folio.Usage.Types.{
  Metric, metric_eq, Observation, Snapshot, float_le, float_zero, hundred, registry,
  provenance_provider, freshness_limit, availability_contradictory, availability_available,
  availability_stale,
}
use codex_folio.Usage.Capacity.{
  fresh, Capacity, given, refused, ◌>>=◌, Found, scan_availability, scan_observations, found_one,
  measure, measure_all, is_aged, is_foreign, is_unusable, window_ordered, covers, all_cover,
  conclude, provider_capacity,
}

-- An observation that counts for the metric at `now`.
pub record IsUsable (now : Time) (metric : Metric) (o : Observation) : Type 0 where
  pub same_metric : metric_eq o.metric metric ≡ true
  pub provider : (o.provenance == provenance_provider) ≡ true
  pub ordered : window_ordered o.window_start o.window_end ≡ true
  pub captured : o.captured_at ≢ 0
  pub not_ahead : o.captured_at ≤ now
  pub nonnegative : float_le float_zero o.value ≡ true
  pub at_most_hundred : float_le o.value hundred ≡ true

abbrev pub IsRecent : Time → Observation → Type 0
IsRecent now o = since o.captured_at now ≤ freshness_limit

accepted :
    (now : Time) (metric : Metric) (o : Observation)
    → (o.provenance != provenance_provider) ≡ false
    → is_foreign metric o ≡ false
    → is_unusable now o ≡ false
    → IsUsable now metric o
unfolding is_foreign is_unusable
accepted now metric o p f u = record {
  same_metric = ground arith;
  provider = ground arith;
  ordered = ground arith;
  captured = ground arith;
  not_ahead = ground arith;
  nonnegative = ground arith;
  at_most_hundred = ground arith;
}

unaged :
    (now : Time) (state : String) (o : Observation) → is_aged now state o ≡ false → IsRecent now o
unfolding is_aged
unaged now state o h = ground arith

-- What the loop over the observations leaves: the observation that was there before, or one of the
-- list that counts; where nothing is stale after it, nothing was before it and the new one is recent.
abbrev Scanned : Time → Metric → List Observation → Found → Found → Type 0
Scanned now metric os f g =
    (g ≡ f)
    ⊎ ((o : Observation) × (g.observation ≡ some o)
        × In o os
        × IsUsable now metric o
        × (g.stale ≡ false → (f.stale ≡ false) × IsRecent now o))

later :
    (now : Time) (metric : Metric) (o : Observation) (os : List Observation) (f g : Found)
    → Scanned now metric os f g
    → Scanned now metric (o ∷ os) f g
later now metric o os f g (inl same) = inl same
later now metric o os f g (inr (x, e, m, u, r)) = inr (x, e, inr m, u, r)

unstale :
    (now : Time) (state : String) (o : Observation) (f : Found) {b : Bool}
    → b ≡ (f.stale || is_aged now state o)
    → b ≡ false
    → (f.stale ≡ false) × IsRecent now o
unstale now state o f e fine = (ground arith, unaged now state o (ground arith))

taken :
    (now : Time) (metric : Metric) (state : String) (o : Observation) (os : List Observation)
    (f g : Found)
    → IsUsable now metric o
    → Scanned now metric os
        (record { observation = some o; stale = f.stale || is_aged now state o })
        g
    → Scanned now metric (o ∷ os) f g
taken now metric state o os f g u (inl same) = inr (
  o,
  ap (λ x. x.observation) same,
  inl refl,
  u,
  λ fine. unstale now state o f (ap (λ x. x.stale) same) fine,
)
taken now metric state o os f g u (inr (x, e, m, v, r)) =
    inr (x, e, inr m, v, λ fine. ((unstale now state o f refl (r fine).0).0, (r fine).1))

scan_observations-Scanned :
    (now : Time) (metric : Metric) (state : String) (os : List Observation) (f g : Found)
    → scan_observations now metric state os f ≡ given g
    → Scanned now metric os f g
unfolding scan_observations
scan_observations-Scanned now metric state [] f g e = inl (ground arith)
scan_observations-Scanned now metric state (o ∷ os) f g e =
    elim (if-cases (o.metric.key != metric.key) e) [
      | inl (_, skip) ↦
          later now metric o os f g (scan_observations-Scanned now metric state os f g skip)
      | inr (_, e) ↦ elim (if-cases (o.availability == availability_contradictory) e) [
        | inl (_, stop) ↦ cc
        | inr (_, e) ↦ elim (if-cases (o.provenance != provenance_provider) e) [
          | inl (_, skip) ↦
              later now metric o os f g (scan_observations-Scanned now metric state os f g skip)
          | inr (provider, e) ↦ elim (if-cases (is_some f.observation) e) [
            | inl (_, stop) ↦ cc
            | inr (_, e) ↦ elim (if-cases (is_foreign metric o) e) [
              | inl (_, stop) ↦ cc
              | inr (own, e) ↦ elim (if-cases (is_unusable now o) e) [
                | inl (_, stop) ↦ cc
                | inr (usable, take) ↦
                    taken now metric state o os f g (accepted now metric o provider own usable) (
                      scan_observations-Scanned now metric state os
                        (record { observation = some o; stale = f.stale || is_aged now state o }) g
                        take)
              ]
            ]
          ]
        ]
      ]
    ]

-- The observation that stands for a provider metric of the snapshot.
abbrev pub Measured : Time → Snapshot → Metric → Observation → Type 0
Measured now snapshot m o = In o snapshot.observations × IsUsable now m o

found_one-given :
    (w : Option Observation) (aged : Bool) (o : Observation) (aged' : Bool)
    → found_one w aged ≡ given (o, aged')
    → (w ≡ some o) × (aged ≡ aged')
unfolding found_one
found_one-given none aged o aged' e = cc
found_one-given (some x) aged o aged' e = (cc, cc)

found_one-Measured :
    (now : Time) (snapshot : Snapshot) (m : Metric) (aged : Bool) (f : Found) (o : Observation)
    (aged' : Bool)
    → Scanned now m snapshot.observations (record { observation = none; stale = aged }) f
    → found_one f.observation f.stale ≡ given (o, aged')
    → Measured now snapshot m o × (aged' ≡ false → (aged ≡ false) × IsRecent now o)
found_one-Measured now snapshot m aged f o aged' (inl same) e =
    let (found, _) = found_one-given f.observation f.stale o aged' e in
    cc (found, ap (λ x. x.observation) same)
found_one-Measured now snapshot m aged f o aged' (inr (x, found, member, usable, recent)) e =
    let (found', same) = found_one-given f.observation f.stale o aged' e in
    let eq : x ≡ o = cc in
    subst (λ y. Measured now snapshot m y × (aged' ≡ false → (aged ≡ false) × IsRecent now y)) eq
      ((member, usable), λ fine. recent (same ∙ fine))

>>=-eq-given :
    {A B : Type 0} (m : Capacity A) (f : A → Capacity B) {b : B}
    → (m >>= f) ≡ given b
    → (a : A) × (m ≡ given a) × (f a ≡ given b)
>>=-eq-given (given a) f e = (a, refl, e)
>>=-eq-given (refused c) f e = cc

measure-Measured :
    (now : Time) (snapshot : Snapshot) (m : Metric) (aged : Bool) (o : Observation) (aged' : Bool)
    → measure now snapshot m aged ≡ given (o, aged')
    → Measured now snapshot m o × (aged' ≡ false → (aged ≡ false) × IsRecent now o)
unfolding measure
measure-Measured now snapshot m aged o aged' e =
    let (state, _, e) = >>=-eq-given (scan_availability m.key "" snapshot.availability) _ e in
    elim (if-cases (state != availability_available && state != availability_stale) e) [
      | inl (_, stop) ↦ cc
      | inr (_, e) ↦
          let (f, scanned, e) =
            >>=-eq-given
              (scan_observations now m state snapshot.observations
                (record { observation = none; stale = aged }))
              _ e in
          found_one-Measured now snapshot m aged f o aged'
            (scan_observations-Scanned now m state snapshot.observations
              (record { observation = none; stale = aged }) f scanned)
            e
    ]

-- The evidence holds one usable observation for each provider metric, in the registry's order.
abbrev pub Complete : Time → Snapshot → List Metric → List Observation → Type 0
Complete now snapshot [] [] = Unit {0}
Complete now snapshot [] (o ∷ os) = ⊥
Complete now snapshot (m ∷ ms) [] = ⊥
Complete now snapshot (m ∷ ms) (o ∷ os) = Measured now snapshot m o × Complete now snapshot ms os

abbrev pub provider_metrics : List Metric → List Metric
provider_metrics [] = []
provider_metrics (m ∷ ms) =
    if m.source_class != provenance_provider then provider_metrics ms else m ∷ provider_metrics ms

measure_all-Complete :
    (now : Time) (snapshot : Snapshot) (ms : List Metric) (capacity : List Observation)
    (aged : Bool) (evidence : List Observation) (aged' : Bool)
    → measure_all now snapshot ms capacity aged ≡ given (evidence, aged')
    → (new : List Observation) × (evidence ≡ capacity ++ new)
      × Complete now snapshot (provider_metrics ms) new
      × (aged' ≡ false → (aged ≡ false) × All (IsRecent now) new)
unfolding measure_all
measure_all-Complete now snapshot [] capacity aged evidence aged' e =
    let same : (capacity ≡ evidence) × (aged ≡ aged') = (cc, cc) in
    ([], sym same.0 ∙ sym (append-nil capacity), tt, λ fine. (same.1 ∙ fine, tt))
measure_all-Complete now snapshot (m ∷ ms) capacity aged evidence aged' e =
    elim (if-cases (m.source_class != provenance_provider) e) [
      | inl (local, skip) ↦
          let (new, same, complete, recent) =
            measure_all-Complete now snapshot ms capacity aged evidence aged' skip in
          (new, same, rw local complete, recent)
      | inr (provider, e) ↦
          let ((o, aged''), measured, e) = >>=-eq-given (measure now snapshot m aged) _ e in
          let (new, same, complete, recent) =
            measure_all-Complete now snapshot ms (capacity ++ o ∷ []) aged'' evidence aged' e in
          let (usable, recent') = measure-Measured now snapshot m aged o aged'' measured in
          (
            o ∷ new,
            same ∙ append_assoc capacity (o ∷ []) new,
            rw provider (usable, complete),
            λ fine.
                let (mid, tail) = recent fine in
                let (first, head) = recent' mid in (first, (head, tail)),
          )
    ]

all_cover-Covers :
    (now : Time) (os : List Observation)
    → all_cover now os ≡ true
    → All (λ o. covers now o.window_start o.window_end ≡ true) os
unfolding all_cover
all_cover-Covers now [] h = tt
all_cover-Covers now (o ∷ os) h =
    let (first, others) = and_eq_true _ _ h in (first, all_cover-Covers now os others)

-- Fresh evidence.
pub record IsFresh (now : Time) (snapshot : Snapshot) (evidence : List Observation) : Type 0 where
  pub complete : Complete now snapshot (provider_metrics registry) evidence
  pub recent : All (IsRecent now) evidence
  pub current : All (λ o. covers now o.window_start o.window_end ≡ true) evidence

conclude-cases :
    (now : Time) (snapshot : Snapshot) (c : Capacity (List Observation × Bool))
    → measure_all now snapshot registry [] false ≡ c
    → let (evidence, capacity) = conclude now c in
      ((evidence ≡ []) × (capacity ≢ fresh)) ⊎ ((capacity ≡ fresh) × IsFresh now snapshot evidence)
unfolding conclude
conclude-cases now snapshot (refused c) m = inl (refl, (λ e. cc))
conclude-cases now snapshot (given (os, aged)) m = elim (Bool-cases aged) [
  | inl old ↦ rw old (inl (refl, (λ e. cc)))
  | inr young ↦ elim (Bool-cases (all_cover now os)) [
    | inl covered ↦
        let (new, same, complete, recent) =
          measure_all-Complete now snapshot registry [] false os aged m in
        rw (young, covered)
          (inr (
            refl,
            record {
              complete =
                  subst (Complete now snapshot (provider_metrics registry)) (sym same) complete;
              recent = subst (All (IsRecent now)) (sym same) (recent young).1;
              current = all_cover-Covers now os covered;
            },
          ))
    | inr uncovered ↦ rw (young, uncovered) (inl (refl, (λ e. cc)))
  ]
]

-- A snapshot has fresh capacity exactly when there is evidence to compare. Then there is one usable
-- observation of the snapshot for each provider metric of the registry, from the provider, of that
-- very metric, captured in the last ten minutes and not ahead of now, between 0 and 100, and in a
-- window that covers now. In every other state the evidence is empty.
pub provider_capacity-IsFresh :
    (snapshot : Snapshot) (now : Time)
    → let (evidence, capacity) = provider_capacity snapshot now in
      ((evidence ≡ []) × (capacity ≢ fresh)) ⊎ ((capacity ≡ fresh) × IsFresh now snapshot evidence)
unfolding provider_capacity
provider_capacity-IsFresh snapshot now =
    conclude-cases now snapshot (measure_all now snapshot registry [] false) refl
