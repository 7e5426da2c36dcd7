-- ===== src/Usage/View/Alternatives.antt =====
-- What RankAlternatives recommends (internal/usage/usage.go).
use codex_folio.Base.{
  done, >>=-done, checked, done-injective, ◌≡◌, ◌≢◌, refl, sym, ap, ◌∙◌, inl, inr, Bool, false, not,
  List, [], ◌∷◌, String, ◌==◌, ◌!=◌, string_eq, is_zero, In, Bool-cases, arith,
}
use codex_folio.Usage.Types.{Snapshot, ProfileTarget}
use codex_folio.Usage.Ranking.{Candidate, entry_of, rank}
use codex_folio.Usage.Ranking.Winner.{Recommended, rank-Recommended}
use codex_folio.Usage.View.{
  Environment, View, scope_combined_identity, other_targets, kept_targets, latest_snapshots,
  combined_view, show, view, rank_alternatives,
}

other_targets-In :
    (excluded : String) (ps : List ProfileTarget) (p : ProfileTarget)
    → In p (other_targets excluded ps)
    → In p ps × ((p.id == excluded) ≡ false)
unfolding other_targets
other_targets-In excluded [] p m = absurd m
other_targets-In excluded (q ∷ ps) p m = elim (Bool-cases (q.id == excluded)) [
  | inl same ↦
      let (there, other) = other_targets-In excluded ps p (rw same at m) in (inr there, other)
  | inr differs ↦ elim (rw differs at m) [
    | inl here ↦ (inl here, ap (λ r. r.id == excluded) (sym here) ∙ differs)
    | inr later ↦ let (there, other) = other_targets-In excluded ps p later in (inr there, other)
  ]
]

kept_targets-excluded :
    (excluded : String) (ps : List ProfileTarget)
    → (excluded == "") ≡ false
    → kept_targets excluded ps ≡ other_targets excluded ps
unfolding kept_targets
kept_targets-excluded excluded ps given = rw given refl

-- What a combined view that is shown has ranked.
view-combined :
    (env : Environment) (excluded : String) (compatible : Bool) (v : View)
    (listed : List ProfileTarget)
    → (excluded == "") ≡ false
    → env.list_usage_profiles ≡ done listed
    → view env scope_combined_identity compatible excluded ≡ done v
    → (ss : List Snapshot) × (latest_snapshots env (other_targets excluded listed) ≡ done ss)
      × ((rank env.sort_slice env.to_lower env.text_lt
            (other_targets excluded listed)
            ss
            env.now
            compatible).1
          ≡ v.recommended_profile_id)
unfolding view kept_targets show combined_view
view-combined env excluded compatible v listed given list h =
    let (listed', same, h2) = >>=-done env.list_usage_profiles _ h in
    let (_, h3) = checked (not (is_zero env.now)) _ _ h2 in
    let (ss, e, h4) = >>=-done (latest_snapshots env (kept_targets excluded listed')) _ h3 in
    let one : listed' ≡ listed = done-injective (sym same ∙ list) in
    let targets : kept_targets excluded listed' ≡ other_targets excluded listed =
      kept_targets-excluded excluded listed' given ∙ ap (other_targets excluded) one in
    (
      ss,
      ap (latest_snapshots env) (sym targets) ∙ e,
      ap (λ ts. (rank env.sort_slice env.to_lower env.text_lt ts ss env.now compatible).1)
            (sym targets)
          ∙ ap (λ w. w.recommended_profile_id) (done-injective h4),
    )

-- A profile that RankAlternatives recommends is one of the profiles that the store lists, is not the
-- excluded one, and is what Rank recommends among the others for their latest evidence: it is
-- eligible and has fresh evidence in which no window is used up, and every other one is ineligible or
-- stale or has used more.
pub rank_alternatives-Recommended :
    (env : Environment) (excluded : String) (compatible : Bool) (listed : List ProfileTarget)
    (r : List Candidate × String)
    → env.list_usage_profiles ≡ done listed
    → rank_alternatives env excluded compatible ≡ done r
    → r.1 ≢ ""
    → (p : ProfileTarget) × (ss : List Snapshot) × In p listed
      × (p.id ≡ r.1)
      × ((p.id == excluded) ≡ false)
      × (latest_snapshots env (other_targets excluded listed) ≡ done ss)
      × Recommended ss env.now compatible
          (other_targets excluded listed)
          (entry_of ss env.now compatible p)
unfolding rank_alternatives
rank_alternatives-Recommended env excluded compatible listed r list h some_id =
    let (given, h1) = checked (excluded != "") _ _ h in
    let (v, e, h2) = >>=-done (view env scope_combined_identity compatible excluded) _ h1 in
    let (ss, read, ranked) =
      view-combined env excluded compatible v listed (ground (arith, given)) list e in
    let chosen : (rank env.sort_slice env.to_lower env.text_lt (other_targets excluded listed) ss
          env.now compatible).1
        ≡ r.1 =
      ranked ∙ ap (λ x. x.1) (done-injective h2) in
    let (p, m, id, best) =
      rank-Recommended env.sort_slice env.to_lower env.text_lt ss env.now compatible
        (other_targets excluded listed) (λ empty. some_id (sym chosen ∙ empty)) in
    let (member, other) = other_targets-In excluded listed p m in
    (p, ss, member, id ∙ chosen, other, read, best)
