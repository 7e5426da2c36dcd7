-- ===== src/Usage/Combine/Repeats.antt =====
-- What DeduplicateCombinedEvidence keeps (internal/usage/usage.go).
use codex_folio.Base.{
  ◌≡◌, refl, sym, ◌∙◌, subst, inl, inr, Bool, true, false, ◌&&◌, not, List, [], ◌∷◌, string_eq,
  Bool-cases, arith,
}
use codex_folio.Usage.Types.{Observation, Snapshot, registry, float_eq}
use codex_folio.Usage.Combine.{
  Evidence, evidence, scope_key, is_summed, is_exact, is_same_evidence, any_prior,
  deduplicate_observations, deduplicate_snapshots, deduplicate_combined_evidence,
}
use codex_folio.Usage.Combine.Disjoint.{overlaps}
use codex_folio.Usage.Combine.View.{offer, offered}

-- Evidence with the value of other evidence of its metric and scope with an overlapping window.
unfoldable pub repeats : Evidence → Evidence → Bool
unfolding overlaps
repeats e prior = overlaps e prior && float_eq prior.observation.value e.observation.value

-- No evidence repeats earlier evidence, the newest being first.
unfoldable pub no_repeats : List Evidence → Bool
unfolding any_prior repeats
no_repeats [] = true
no_repeats (e ∷ es) = not (any_prior (repeats e) es) && no_repeats es

repeats_lem :
    (e : Evidence) (es : List Evidence) → any_prior (is_exact e) es ≡ any_prior (repeats e) es
unfolding is_exact is_same_evidence repeats overlaps
repeats_lem e es = refl

-- What is kept of the evidence offered, both with the newest first: that which repeats nothing that was
-- offered before it.
pub data Sieves : List Evidence → List Evidence → Type 0 where
  nothing : Sieves [] []
  keeps :
      {e : Evidence} {kept all : List Evidence}
      → any_prior (repeats e) all ≡ false
      → Sieves kept all
      → Sieves (e ∷ kept) (e ∷ all)
  drops :
      {e : Evidence} {kept all : List Evidence}
      → any_prior (repeats e) all ≡ true
      → Sieves kept all
      → Sieves kept (e ∷ all)

Sieves-any_prior :
    (test : Evidence → Bool) (kept all : List Evidence)
    → Sieves kept all
    → any_prior test all ≡ false
    → any_prior test kept ≡ false
unfolding any_prior
Sieves-any_prior test _ _ nothing h = refl
Sieves-any_prior test _ _ (keeps {e = e} {kept = kept} {all = all} new rest) h =
    let ih = Sieves-any_prior test kept all rest (ground (arith, h)) in ground (arith, h, ih)
Sieves-any_prior test kept _ (drops {e = e} {all = all} again rest) h =
    Sieves-any_prior test kept all rest (ground (arith, h))

Sieves-no_repeats : (kept all : List Evidence) → Sieves kept all → no_repeats kept ≡ true
unfolding no_repeats
Sieves-no_repeats _ _ nothing = refl
Sieves-no_repeats _ _ (keeps {e = e} {kept = kept} {all = all} new rest) =
    rw (Sieves-any_prior (repeats e) kept all rest new) (Sieves-no_repeats kept all rest)
Sieves-no_repeats kept _ (drops {all = all} again rest) = Sieves-no_repeats kept all rest

offer-summed :
    (s : Snapshot) (o : Observation) (os : List Observation) (es : List Evidence)
    → is_summed registry o ≡ true
    → offer registry s (o ∷ os) es ≡ offer registry s os (evidence s o ∷ es)
unfolding offer
offer-summed s o os es adds = rw adds refl

-- The loop over the observations, where `k` stands for those that the snapshot is given.
deduplicate_observations-Sieves :
    (s : Snapshot) (k os : List Observation) (kept seen : List Evidence)
    → Sieves kept seen
    → let p = deduplicate_observations s os seen in
      Sieves (offer registry (record s { observations = k }) p.0 kept) p.1
      × (p.1 ≡ offer registry s os seen)
unfolding deduplicate_observations offer scope_key
deduplicate_observations-Sieves s k [] kept seen h = (h, refl)
deduplicate_observations-Sieves s k (o ∷ os) kept seen h =
    let e = evidence s o in
    elim (Bool-cases (is_summed registry o)) [
      | inr plain ↦ rw (plain, plain) (deduplicate_observations-Sieves s k os kept seen h)
      | inl adds ↦ elim (Bool-cases (any_prior (is_exact e) seen)) [
        | inl again ↦
            rw (adds, again)
              (deduplicate_observations-Sieves s k os kept (e ∷ seen)
                (drops (sym (repeats_lem e seen) ∙ again) h))
        | inr new ↦
            rw (adds, new)
              (let (sieved, same) =
                  deduplicate_observations-Sieves s k os (e ∷ kept) (e ∷ seen)
                    (keeps (sym (repeats_lem e seen) ∙ new) h) in
                (
                  subst (λ es. Sieves es (deduplicate_observations s os (e ∷ seen)).1)
                      (sym (
                        offer-summed (record s { observations = k }) o
                          (deduplicate_observations s os (e ∷ seen)).0 kept adds))
                      sieved,
                  same,
                ))
      ]
    ]

deduplicate_snapshots-Sieves :
    (ss : List Snapshot) (kept seen : List Evidence)
    → Sieves kept seen
    → Sieves (offered registry (deduplicate_snapshots ss seen) kept) (offered registry ss seen)
unfolding deduplicate_snapshots offered
deduplicate_snapshots-Sieves [] kept seen h = h
deduplicate_snapshots-Sieves (s ∷ ss) kept seen h =
    let p = deduplicate_observations s s.observations seen in
    let s' : Snapshot = record s { observations = p.0 } in
    let (here, same) = deduplicate_observations-Sieves s p.0 s.observations kept seen h in
    subst
      (λ es.
        Sieves (offered registry (deduplicate_snapshots ss p.1) (offer registry s' p.0 kept))
          (offered registry ss es))
      same (deduplicate_snapshots-Sieves ss (offer registry s' p.0 kept) p.1 here)

-- Of the evidence that adds up, the deduplication keeps exactly that which repeats no value offered
-- before it for the same metric and scope with an overlapping window; so none that it keeps repeats
-- another that it keeps.
pub deduplicate_keeps_first :
    (ss : List Snapshot)
    → let kept = offered registry (deduplicate_combined_evidence ss) [] in
      Sieves kept (offered registry ss []) × (no_repeats kept ≡ true)
unfolding deduplicate_combined_evidence
deduplicate_keeps_first ss =
    let sieved = deduplicate_snapshots-Sieves ss [] [] nothing in
    (sieved, Sieves-no_repeats _ _ sieved)
