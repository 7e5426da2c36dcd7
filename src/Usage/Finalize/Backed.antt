-- ===== src/Usage/Finalize/Backed.antt =====
-- What the tally of the observations of a metric says of them (internal/usage/usage.go,
-- finalizeSnapshot).
use codex_folio.Base.{
  ◌≡◌, refl, sym, ap, ◌∙◌, inl, inr, Bool, true, false, ◌&&◌, ◌||◌, not, List, [], ◌∷◌, some,
  String, ◌==◌, ◌!=◌, string_eq, is_none, if◌then◌else◌, arith, Bool-cases,
}
use codex_folio.Usage.Types.{Float, nan, pos, neg, float_eq, Observation}
use codex_folio.Usage.Finalize.{Tally, no_tally, count_in, tally}

-- What settle_state asks of a tally.
unfoldable pub supported : Tally → Bool
supported t = is_none t.value || (t.fresh && not t.contradictory)

or_false : (b : Bool) → (b || false) ≡ b
or_false true = refl
or_false false = refl

or_assoc : (a b c : Bool) → ((a || b) || c) ≡ (a || (b || c))
or_assoc true b c = refl
or_assoc false b c = refl

or_not : (a b c : Bool) → ((a || not b) || not c) ≡ (a || not (b && c))
or_not true b c = refl
or_not false true c = refl
or_not false false c = refl

supported-known :
    (v : Float) (f b : Bool)
    → supported (record { value = some v; fresh = f; contradictory = not b }) ≡ (f && b)
unfolding supported
supported-known v true true = refl
supported-known v true false = refl
supported-known v false true = refl
supported-known v false false = refl

-- What supports an available metric, read off the observations: there are none of its key, or one of
-- them is fresh and each has the value of the first.
unfoldable pub is_unobserved : String → List Observation → Bool
is_unobserved key [] = true
is_unobserved key (o ∷ os) = o.metric.key != key && is_unobserved key os

unfoldable pub some_fresh : String → List Observation → Bool
some_fresh key [] = false
some_fresh key (o ∷ os) = (o.metric.key == key && o.freshness == "fresh") || some_fresh key os

unfoldable pub all_equal : Float → String → List Observation → Bool
all_equal v key [] = true
all_equal v key (o ∷ os) = (o.metric.key != key || float_eq v o.value) && all_equal v key os

unfoldable pub agree : String → List Observation → Bool
unfolding all_equal
agree key [] = true
agree key (o ∷ os) = if o.metric.key == key then all_equal o.value key os else agree key os

same_float : (a b : Float) → float_eq a b ≡ true → a ≡ b
unfolding float_eq
same_float nan b h = cc
same_float (pos a) nan h = cc
same_float (pos a) (pos b) h = ap pos (ground (arith, h))
same_float (pos a) (neg b) h = cc
same_float (neg a) nan h = cc
same_float (neg a) (pos b) h = cc
same_float (neg a) (neg b) h = ap neg (ground (arith, h))

count_in-value :
    (o : Observation) (v : Float) (f c : Bool)
    → count_in o (record { value = some v; fresh = f; contradictory = c }) ≡ record {
      value = some v;
      fresh = f || o.freshness == "fresh";
      contradictory = c || not (float_eq v o.value);
    }
unfolding count_in
count_in-value o v f c = elim (Bool-cases (float_eq v o.value)) [
  | inl same ↦ rw (same, sym (same_float v o.value same)) refl
  | inr other ↦ rw other refl
]

tally-counts :
    (key : String) (os : List Observation) (v : Float) (f c : Bool)
    → tally key os (record { value = some v; fresh = f; contradictory = c }) ≡ record {
      value = some v;
      fresh = f || some_fresh key os;
      contradictory = c || not (all_equal v key os);
    }
unfolding tally some_fresh all_equal
tally-counts key [] v f c = rw (or_false f, or_false c) refl
tally-counts key (o ∷ os) v f c = elim (Bool-cases (o.metric.key == key)) [
  | inr other ↦ rw (other, tally-counts key os v f c) refl
  | inl same ↦
      rw
        (
          same,
          count_in-value o v f c,
          tally-counts key os v (f || o.freshness == "fresh") (c || not (float_eq v o.value)),
          or_assoc f (o.freshness == "fresh") (some_fresh key os),
          or_not c (float_eq v o.value) (all_equal v key os),
        )
        refl
]

pub supported-tally :
    (key : String) (os : List Observation)
    → supported (tally key os no_tally)
      ≡ (is_unobserved key os || (some_fresh key os && agree key os))
unfolding supported tally count_in is_unobserved some_fresh agree
supported-tally key [] = refl
supported-tally key (o ∷ os) = elim (Bool-cases (o.metric.key == key)) [
  | inr other ↦
      let skipped : tally key (o ∷ os) no_tally ≡ tally key os no_tally = rw other refl in
      ap supported skipped ∙ supported-tally key os ∙ (rw other refl)
  | inl same ↦
      let counted : tally key (o ∷ os) no_tally ≡ record {
        value = some o.value;
        fresh = o.freshness == "fresh" || some_fresh key os;
        contradictory = not (all_equal o.value key os);
      } =
        rw same (tally-counts key os o.value (o.freshness == "fresh") false) in
      ap supported counted
      ∙ supported-known o.value (o.freshness == "fresh" || some_fresh key os)
          (all_equal o.value key os)
      ∙ (rw same refl)
]
