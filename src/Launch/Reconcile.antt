-- ===== src/Launch/Reconcile.antt =====
-- ReconcileManagedLaunches keeps the invariant (internal/store/launches.go).
use codex_folio.Base.{
  done, >>=-done, checked, done-injective, ◌≡◌, refl, sym, ap, subst, ◌∙◌, Bool, true, false,
  String, List, [], ◌∷◌, Option, none, some, ◌==◌, string_eq, is_zero, ◌&&◌, not, arith, Bool-cases,
  inl, inr, All, and_eq_true,
}
use codex_folio.Launch.Records.{
  State, Launch, Tables, Environment, begin, commit, read_launches, update_launch,
  update_checkpoint, is_live, find_launch, update_launches,
}
use codex_folio.Launch.Marks.{
  Inspector, mark_abandoned_row, release_checkpoint, release_left, abandon_launch, is_left,
  left_launches, abandon_all, abandon_left, reconcile_managed_launches,
}
use codex_folio.Launch.Counts.{is_free, distinct, find_launch-All}
use codex_folio.Launch.Invariant.{IsSound, IsRow, is_named}
use codex_folio.Launch.Soundness.{abandon_launch-IsSound}

-- The row is in the table, live, and the one that its lease finds.
abbrev IsLive : List Launch → Launch → Type 0
IsLive ls l = find_launch l.lease_id is_live ls ≡ some l

free_find :
    (x : String) (test : State → Bool) (ls : List Launch)
    → is_free x ls ≡ true
    → find_launch x test ls ≡ none
unfolding is_free find_launch
free_find x test [] h = refl
free_find x test (l ∷ ls) h = elim (Bool-cases (l.lease_id == x)) [
  | inl same ↦ absurd (ground arith)
  | inr other ↦ rw other (free_find x test ls (rw other at h))
]

-- A row that a longer table still finds.
IsLive-cons :
    (l m : Launch) (ls : List Launch)
    → is_free l.lease_id ls ≡ true
    → IsLive ls m
    → IsLive (l ∷ ls) m
unfolding find_launch
IsLive-cons l m ls free h = elim (Bool-cases (l.lease_id == m.lease_id)) [
  | inl same ↦
      let e : l.lease_id ≡ m.lease_id = (string_eq.is_same_iff l.lease_id m.lease_id).0 same in
      let none' = free_find m.lease_id is_live ls (subst (λ x. is_free x ls ≡ true) e free) in
      let clash : none ≡ some m = sym none' ∙ h in cc
  | inr other ↦ rw other h
]

All-cons :
    (l : Launch) (ls xs : List Launch)
    → is_free l.lease_id ls ≡ true
    → All (IsLive ls) xs
    → All (IsLive (l ∷ ls)) xs
All-cons l ls [] free h = tt
All-cons l ls (x ∷ xs) free h = (IsLive-cons l x ls free h.0, All-cons l ls xs free h.1)

-- The launches to abandon: live rows, each once.
abbrev IsSelection : List Launch → List Launch → Type 0
IsSelection ls xs =
    All (IsLive ls) xs
    × (distinct xs ≡ true)
    × ((x : String) → is_free x ls ≡ true → is_free x xs ≡ true)

free-cons :
    (x : String) (l : Launch) (ls : List Launch)
    → is_free x (l ∷ ls) ≡ true
    → ((l.lease_id == x) ≡ false) × (is_free x ls ≡ true)
unfolding is_free find_launch
free-cons x l ls h = elim (Bool-cases (l.lease_id == x)) [
  | inl same ↦ absurd (ground arith)
  | inr other ↦ (other, rw other at h)
]

cons-free :
    (x : String) (l : Launch) (ls : List Launch)
    → (l.lease_id == x) ≡ false
    → is_free x ls ≡ true
    → is_free x (l ∷ ls) ≡ true
unfolding is_free find_launch
cons-free x l ls other h = rw other h

here-IsLive : (l : Launch) (ls : List Launch) → is_live l.state ≡ true → IsLive (l ∷ ls) l
unfolding find_launch
here-IsLive l ls live =
    let same = (string_eq.is_same_iff l.lease_id l.lease_id).1 refl in rw (same, live) refl

skip-IsSelection :
    (l : Launch) (ls xs : List Launch)
    → is_free l.lease_id ls ≡ true
    → IsSelection ls xs
    → IsSelection (l ∷ ls) xs
skip-IsSelection l ls xs free (live, once, rest) =
    (All-cons l ls xs free live, once, λ x h. rest x (free-cons x l ls h).1)

take-IsSelection :
    (l : Launch) (ls xs : List Launch)
    → is_live l.state ≡ true
    → is_free l.lease_id ls ≡ true
    → IsSelection ls xs
    → IsSelection (l ∷ ls) (l ∷ xs)
unfolding distinct
take-IsSelection l ls xs here free (live, once, rest) = (
  (here-IsLive l ls here, All-cons l ls xs free live),
  rw (rest l.lease_id free, once) refl,
  λ x h. cons-free x l xs (free-cons x l ls h).0 (rest x (free-cons x l ls h).1),
)

left_launches-IsSelection :
    (inspector : Option Inspector) (ls xs : List Launch)
    → distinct ls ≡ true
    → left_launches inspector ls ≡ done xs
    → IsSelection ls xs
unfolding left_launches distinct
left_launches-IsSelection inspector [] xs d h =
    subst (IsSelection []) (done-injective h) (tt, refl, λ x f. f)
left_launches-IsSelection inspector (l ∷ ls) xs d h =
    let (free, d') = and_eq_true _ _ d in
    elim (Bool-cases (is_live l.state)) [
      | inl live ↦
          let (left, _, h1) = >>=-done (is_left inspector l) _ (rw live at h) in
          let (more, e, h2) = >>=-done (left_launches inspector ls) _ h1 in
          let ih = left_launches-IsSelection inspector ls more d' e in
          elim (Bool-cases left) [
            | inl taken ↦
                let same : l ∷ more ≡ xs = done-injective (rw taken at h2) in
                subst (IsSelection (l ∷ ls)) same (take-IsSelection l ls more live free ih)
            | inr passed ↦
                let same : more ≡ xs = done-injective (rw passed at h2) in
                subst (IsSelection (l ∷ ls)) same (skip-IsSelection l ls more free ih)
          ]
      | inr dead ↦
          skip-IsSelection l ls xs free
            (left_launches-IsSelection inspector ls xs d' (rw dead at h))
    ]

-- To abandon one row leaves the others live.
IsLive-update :
    (now : _) (lease : String) (m : Launch) (ls : List Launch)
    → (m.lease_id == lease) ≡ false
    → IsLive ls m
    → IsLive (update_launches lease is_live (mark_abandoned_row now) ls) m
unfolding find_launch update_launches mark_abandoned_row
IsLive-update now lease m [] other h = h
IsLive-update now lease m (l ∷ ls) other h = elim (Bool-cases (l.lease_id == m.lease_id)) [
  | inl same ↦
      let e : l.lease_id ≡ m.lease_id = (string_eq.is_same_iff l.lease_id m.lease_id).0 same in
      let apart : (l.lease_id == lease) ≡ false = subst (λ x. (x == lease) ≡ false) (sym e) other in
      elim (Bool-cases (is_live l.state)) [
        | inl live ↦ rw (apart, same, live) (rw (same, live) at h)
        | inr dead ↦
            rw (apart, same, dead) (IsLive-update now lease m ls other (rw (same, dead) at h))
      ]
  | inr apart ↦
      let ih = IsLive-update now lease m ls other (rw apart at h) in
      elim (Bool-cases (l.lease_id == lease && is_live l.state)) [
        | inl hit ↦ rw (hit, apart) ih
        | inr miss ↦ rw (miss, apart) ih
      ]
]

All-IsLive-update :
    (now : _) (lease : String) (xs ls : List Launch)
    → is_free lease xs ≡ true
    → All (IsLive ls) xs
    → All (IsLive (update_launches lease is_live (mark_abandoned_row now) ls)) xs
All-IsLive-update now lease [] ls free h = tt
All-IsLive-update now lease (x ∷ xs) ls free h =
    let (other, free') = free-cons lease x xs free in
    (IsLive-update now lease x ls other h.0, All-IsLive-update now lease xs ls free' h.1)

release_left-launches :
    (env : Environment) (o : Option String) (t t' : Tables)
    → is_named o ≡ true
    → release_left env o t ≡ done t'
    → (release_checkpoint env o t ≡ done t') × (t'.launches ≡ t.launches)
unfolding release_left release_checkpoint is_named
release_left-launches env none t t' n h = (h, sym (ap (λ u. u.launches) (done-injective h)))
release_left-launches env (some id) t t' n h =
    let h' = rw n at h in
    let (_, h1) = checked (env.works update_checkpoint) _ _ h' in
    (h', sym (ap (λ u. u.launches) (done-injective h1)))

abandon_all-IsSound :
    (env : Environment) (xs : List Launch) (t t' : Tables)
    → IsSound t
    → All (IsLive t.launches) xs
    → distinct xs ≡ true
    → abandon_all env xs t ≡ done t'
    → IsSound t'
unfolding abandon_all distinct
abandon_all-IsSound env [] t t' s live d h = subst IsSound (done-injective h) s
abandon_all-IsSound env (l ∷ xs) t t' s live d h =
    let (free, d') = and_eq_true _ _ d in
    let (_, h1) = checked (env.works update_launch) _ _ h in
    let (t1, e, h2) =
      >>=-done (release_left env l.checkpoint_id (abandon_launch env l.lease_id t)) _ h1 in
    let (row, _) = find_launch-All IsRow l.lease_id is_live l t.launches s.rows live.0 in
    let (released, same) = release_left-launches env l.checkpoint_id _ t1 row.1 e in
    let s1 = abandon_launch-IsSound env l.lease_id l t t1 s live.0 released in
    let live1 = All-IsLive-update env.now l.lease_id xs t.launches free live.1 in
    let moved_on = same ∙ (unfold abandon_launch in refl) in
    abandon_all-IsSound env xs t1 t' s1 (subst (λ ls. All (IsLive ls) xs) (sym moved_on) live1) d'
      h2

abandon_left-IsSound :
    (env : Environment) (xs : List Launch) (t t' : Tables)
    → IsSound t
    → IsSelection t.launches xs
    → abandon_left env xs t ≡ done t'
    → IsSound t'
unfolding abandon_left
abandon_left-IsSound env [] t t' s c h = subst IsSound (done-injective h) s
abandon_left-IsSound env (l ∷ xs) t t' s (live, once, _) h =
    let (_, h1) = checked (not (is_zero env.now)) _ _ h in
    let (_, h2) = checked (env.works begin) _ _ h1 in
    let (t1, e, h3) = >>=-done (abandon_all env (l ∷ xs) t) _ h2 in
    let (_, h4) = checked (env.works commit) _ _ h3 in
    subst IsSound (done-injective h4) (abandon_all-IsSound env (l ∷ xs) t t1 s live once e)

-- A reconciliation keeps the tables sound.
pub reconcile_managed_launches-IsSound :
    (env : Environment) (inspector : Option Inspector) (t t' : Tables)
    → IsSound t
    → reconcile_managed_launches env inspector t ≡ done t'
    → IsSound t'
unfolding reconcile_managed_launches
reconcile_managed_launches-IsSound env inspector t t' s h =
    let (_, h1) = checked (env.works read_launches) _ _ h in
    let (xs, e, h2) = >>=-done (left_launches inspector t.launches) _ h1 in
    abandon_left-IsSound env xs t t' s
      (left_launches-IsSelection inspector t.launches xs s.leases e) h2
