-- ===== src/Continuation/Source.antt =====
-- The launch that a checkpoint continues, as the service finds it (internal/store/continuation.go:
-- LatestSourceLaunch) and as PrepareLaunch does (definitiveSourceLaunchSQL).
use codex_folio.Base.{
  done, checked, done-injective, ◌≡◌, refl, sym, Bool, true, false, ◌&&◌, ◌||◌, not, String, List,
  [], ◌∷◌, Option, none, some, Time, Bool-cases, Option-cases, inl, inr, string_eq, arith, ◌∙◌,
  and_eq_true, is_none, is_some, subst, if◌then◌else◌,
}
use codex_folio.Launch.Records.{
  Launch, State, pending, running, exited, abandoned, is_exited, is_running,
  Environment as LaunchEnvironment,
}
use codex_folio.Launch.Prepare.{
  has_run, in_project, is_abandoned, all_exited, newest, definitive_source_launch,
}
use codex_folio.Continuation.Records.{Environment, Tables, read_launches}
use codex_folio.Continuation.Store.{
  SourceLaunch, unresolved, latest_exited, choose_source, latest_source_launch,
}
use codex_folio.Continuation.Capture.{is_exited_source}

unresolved-some :
    (project : String) (ls : List Launch) (m : Launch)
    → (l : Launch) × (unresolved project ls (some m) ≡ some l)
unfolding unresolved
unresolved-some project [] m = (m, refl)
unresolved-some project (l ∷ ls) m =
    elim (Bool-cases (has_run project l && not (is_exited l.state))) [
      | inl h ↦ rw h (unresolved-some project ls l)
      | inr h ↦ rw h (unresolved-some project ls m)
    ]

unresolved-none :
    (project : String) (ls : List Launch)
    → unresolved project ls none ≡ none
    → all_exited project ls ≡ true
unfolding unresolved all_exited
unresolved-none project [] h = refl
unresolved-none project (l ∷ ls) h =
    elim (Bool-cases (has_run project l && not (is_exited l.state))) [
      | inl k ↦ absurd (let (x, e) = unresolved-some project ls l in let c = (rw k at h) in cc)
      | inr k ↦ let rest = unresolved-none project ls (rw k at h) in ground (arith, rest, k)
    ]

resolved :
    (project : String) (ls : List Launch)
    → all_exited project ls ≡ true
    → unresolved project ls none ≡ none
unfolding unresolved all_exited
resolved project [] h = refl
resolved project (l ∷ ls) h =
    let (here, rest) = and_eq_true (not (has_run project l) || is_exited l.state) _ h in
    let k : (has_run project l && not (is_exited l.state)) ≡ false = ground (arith, here) in
    rw k (resolved project ls rest)

ran-only :
    (b n : Bool) (s : State)
    → (not (b && not (is_abandoned s && n)) || is_exited s) ≡ true
    → (b && not (is_abandoned s && n)) ≡ (b && is_exited s)
ran-only true n pending h = cc
ran-only true n running h = cc
ran-only true n exited h = refl
ran-only true true abandoned h = refl
ran-only true false abandoned h = cc
ran-only false n s h = refl

-- The row that is found, if one is, is in such a state.
abbrev all_are : (State → Bool) → Option Launch → Bool
all_are test none = true
all_are test (some l) = test l.state

module _ (env : Environment) (project : String) where
  step-exited :
      (b : Bool) (l : Launch) (found : Option Launch)
      → (b ≡ true → is_exited l.state ≡ true)
      → all_are is_exited found ≡ true
      → all_are is_exited (if b then some l else found) ≡ true
  step-exited true l found k h = k refl
  step-exited false l found k h = h

  latest_exited-exited :
      (ls : List Launch) (found : Option Launch)
      → all_are is_exited found ≡ true
      → all_are is_exited (latest_exited env project ls found) ≡ true
  unfolding latest_exited
  latest_exited-exited [] found h = h
  latest_exited-exited (l ∷ ls) none h =
      latest_exited-exited ls _ (step-exited _ l none (λ k. ground (arith, k)) h)
  latest_exited-exited (l ∷ ls) (some m) h =
      latest_exited-exited ls _ (step-exited _ l (some m) (λ k. ground (arith, k)) h)

module _ (env : Environment) (launch : LaunchEnvironment) (project : String)
    (same_order : (a b : Option Time) → launch.ended_before a b ≡ env.ended_before a b) where
  ran-exited :
      (l : Launch)
      → (not (has_run project l) || is_exited l.state) ≡ true
      → has_run project l ≡ (in_project project l.project_id && is_exited l.state)
  unfolding has_run
  ran-exited l h = ran-only (in_project project l.project_id) (is_none l.process_id) l.state h

  newest-latest_exited :
      (ls : List Launch) (found : Option Launch)
      → all_exited project ls ≡ true
      → newest launch project ls found ≡ latest_exited env project ls found
  unfolding newest latest_exited all_exited
  newest-latest_exited [] found h = refl
  newest-latest_exited (l ∷ ls) none h =
      let (here, rest) = and_eq_true (not (has_run project l) || is_exited l.state) _ h in
      rw (ran-exited l here) (newest-latest_exited ls _ rest)
  newest-latest_exited (l ∷ ls) (some m) h =
      let (here, rest) = and_eq_true (not (has_run project l) || is_exited l.state) _ h in
      rw (ran-exited l here, same_order l.ended_at m.ended_at) (newest-latest_exited ls _ rest)

  -- Where one of the two finds a launch that has exited, so does the other, and the same.
  same-choice :
      (ls : List Launch)
      → (is_exited_source
            (choose_source (unresolved project ls none) (latest_exited env project ls none)).state
          ≡ is_some (definitive_source_launch launch project ls))
        × ((l : Launch)
            → definitive_source_launch launch project ls ≡ some l
            → l.profile_id
              ≡ (choose_source
                  (unresolved project ls none)
                  (latest_exited env project ls none)).profile_id)
  unfolding definitive_source_launch
  same-choice ls = elim (Bool-cases (all_exited project ls)) [
    | inl all ↦
        let same = newest-latest_exited ls none all in
        let none_left = resolved project ls all in
        elim (Option-cases (latest_exited env project ls none)) [
          | inl e ↦ rw (all, same, none_left, e) (refl, λ l q. cc)
          | inr (l, e) ↦
              let done_state : is_exited l.state ≡ true =
                rw e at (latest_exited-exited env project ls none refl) in
              rw (all, same, none_left, e) (rw done_state refl, λ k q. cc)
        ]
    | inr more ↦ elim (Option-cases (unresolved project ls none)) [
      | inl e ↦ absurd (let x = unresolved-none project ls e in cc)
      | inr (l, e) ↦
          rw (more, e)
            (
              elim (Bool-cases (is_running l.state)) [ inl r ↦ rw r refl | inr r ↦ rw r refl ],
              λ k q. cc,
            )
    ]
  ]

  -- LatestSourceLaunch reports an exited source exactly where PrepareLaunch's query finds a
  -- launch to continue, and then both name the same profile, if both order the times alike.
  pub latest_source_launch-agrees :
      (t : Tables) (s : SourceLaunch)
      → latest_source_launch env project t ≡ done s
      → (is_exited_source s.state ≡ is_some (definitive_source_launch launch project t.launches))
        × ((l : Launch)
            → definitive_source_launch launch project t.launches ≡ some l
            → l.profile_id ≡ s.profile_id)
  unfolding latest_source_launch
  latest_source_launch-agrees t s h =
      let (_, e) = checked (env.works read_launches) _ _ h in
      subst
        (λ x.
          (is_exited_source x.state ≡ is_some (definitive_source_launch launch project t.launches))
          × ((l : Launch)
              → definitive_source_launch launch project t.launches ≡ some l
              → l.profile_id ≡ x.profile_id))
        (done-injective e) (same-choice t.launches)

  -- What that query finds has exited.
  pub definitive_source_launch-exited :
      (ls : List Launch) (l : Launch)
      → definitive_source_launch launch project ls ≡ some l
      → is_exited l.state ≡ true
  unfolding definitive_source_launch
  definitive_source_launch-exited ls l h = elim (Bool-cases (all_exited project ls)) [
    | inl all ↦
        let same = newest-latest_exited ls none all in
        let e : latest_exited env project ls none ≡ some l = sym same ∙ (rw all at h) in
        rw e at (latest_exited-exited env project ls none refl)
    | inr more ↦ absurd (let x = (rw more at h) in cc)
  ]
