-- ===== src/Usage/Flights/Phases.antt =====
-- A flight takes the lock, lands and is closed (internal/usage/usage.go).
use codex_folio.Base.{
  ℕ, ◌≡◌, refl, sym, ap, subst, ◌∙◌, inl, inr, true, false, String, Option, none, some, eqb, ◌==◌,
  string_eq, nat_eq, Bool-cases,
}
use codex_folio.Usage.Flights.{
  Answer, Phase, absent, waiting, collecting, landed, closed, Flights, set_phase, set_inflight,
  lock, lock_phase, land, land_phase, close, close_phase,
}
use codex_folio.Usage.Flights.Invariant.{
  target, open_target, is_collecting, IsSound, served-set, moved-IsSound,
}

locked :
    (n : ℕ) (f f' : Flights) (busy : Option ℕ) (p : Phase)
    → lock_phase n f busy p ≡ some f'
    → (id : String) × (busy ≡ none)
      × (p ≡ waiting id)
      × (record f { phase = set_phase n (collecting id) f.phase; busy = some n } ≡ f')
locked n f f' none (waiting id) h = (id, refl, refl, (let e = h in cc))
locked n f f' none absent h = cc
locked n f f' none (collecting id) h = cc
locked n f f' none (landed id a) h = cc
locked n f f' none (closed id a) h = cc
locked n f f' (some m) p h = cc

pub lock-IsSound : (n : ℕ) (f f' : Flights) → IsSound f → lock n f ≡ some f' → IsSound f'
unfolding lock set_phase
lock-IsSound n f f' s h =
    let (id, idle, waits, e) = locked n f f' f.busy (f.phase n) h in
    subst IsSound e (
      moved-IsSound n (collecting id) (some n) f s (ap open_target (sym waits))
        (ap target (sym waits))
        (λ m k. elim (Bool-cases (eqb m n)) [
          | inl here ↦ ap some (sym ((nat_eq.is_same_iff m n).0 here))
          | inr other ↦ let held = s.alone m (rw other at k) in cc
        ])
        (λ bare. let no : absent ≡ waiting id = sym bare ∙ waits in cc))

landed_from :
    (n : ℕ) (a : Answer) (f f' : Flights) (p : Phase)
    → land_phase n a f p ≡ some f'
    → (id : String) × (p ≡ collecting id)
      × (record f { phase = set_phase n (landed id a) f.phase; busy = none } ≡ f')
landed_from n a f f' (collecting id) h = (id, refl, (let e = h in cc))
landed_from n a f f' absent h = cc
landed_from n a f f' (waiting id) h = cc
landed_from n a f f' (landed id b) h = cc
landed_from n a f f' (closed id b) h = cc

pub land-IsSound :
    (n : ℕ) (a : Answer) (f f' : Flights) → IsSound f → land n a f ≡ some f' → IsSound f'
unfolding land set_phase
land-IsSound n a f f' s h =
    let (id, collects, e) = landed_from n a f f' (f.phase n) h in
    let held : f.busy ≡ some n = s.alone n (ap is_collecting collects) in
    subst IsSound e (
      moved-IsSound n (landed id a) none f s (ap open_target (sym collects))
        (ap target (sym collects))
        (λ m k. elim (Bool-cases (eqb m n)) [
          | inl here ↦ let no : false ≡ true = rw here at k in cc
          | inr other ↦
              let also = s.alone m (rw other at k) in
              let same : eqb m n ≡ true = (nat_eq.is_same_iff m n).1 cc in cc
        ])
        (λ bare. let no : absent ≡ collecting id = sym bare ∙ collects in cc))

closed_from :
    (n : ℕ) (f f' : Flights) (p : Phase)
    → close_phase n f p ≡ some f'
    → (id : String) × (a : Answer) × (p ≡ landed id a)
      × (record f {
        phase = set_phase n (closed id a) f.phase;
        inflight = set_inflight id none f.inflight;
      }
          ≡ f')
closed_from n f f' (landed id a) h = (id, a, refl, (let e = h in cc))
closed_from n f f' absent h = cc
closed_from n f f' (waiting id) h = cc
closed_from n f f' (collecting id) h = cc
closed_from n f f' (closed id a) h = cc

pub close-IsSound : (n : ℕ) (f f' : Flights) → IsSound f → close n f ≡ some f' → IsSound f'
unfolding close set_phase set_inflight
close-IsSound n f f' s h =
    let (id, a, ends, e) = closed_from n f f' (f.phase n) h in
    let mine : f.inflight id ≡ some n = s.listed n id (ap open_target ends) in
    subst IsSound e (record {
      listed = λ m key k. elim (Bool-cases (eqb m n)) [
        | inl here ↦ let no : none ≡ some key = rw here at k in cc
        | inr other ↦
            let old = s.listed m key (rw other at k) in
            elim (Bool-cases (key == id)) [
              | inl same ↦
                  let also : f.inflight id ≡ some m =
                    subst (λ x. f.inflight x ≡ some m) ((string_eq.is_same_iff key id).0 same)
                      old in
                  let clash : eqb m n ≡ true = (nat_eq.is_same_iff m n).1 cc in cc
              | inr differs ↦ rw differs old
            ]
      ];
      opened = λ m key k. elim (Bool-cases (key == id)) [
        | inl same ↦ let no : none ≡ some m = rw same at k in cc
        | inr differs ↦
            let old = s.opened m key (rw differs at k) in
            elim (Bool-cases (eqb m n)) [
              | inl here ↦
                  let there : open_target (f.phase n) ≡ some key =
                    subst (λ x. open_target (f.phase x) ≡ some key)
                      ((nat_eq.is_same_iff m n).0 here) old in
                  let both : some id ≡ some key = ap open_target (sym ends) ∙ there in
                  let clash : (key == id) ≡ true = (string_eq.is_same_iff key id).1 cc in cc
              | inr other ↦ rw other old
            ]
      ];
      alone = λ m k. elim (Bool-cases (eqb m n)) [
        | inl here ↦ let no : false ≡ true = rw here at k in cc
        | inr other ↦ s.alone m (rw other at k)
      ];
      served =
          served-set n (closed id a) f.phase f.callers (λ key k. ap target (sym ends) ∙ k) s.served;
      unused = λ m k. elim (Bool-cases (eqb m n)) [
        | inl here ↦
            let no : absent ≡ landed id a =
              sym (subst (λ x. f.phase x ≡ absent) ((nat_eq.is_same_iff m n).0 here) (s.unused m k))
              ∙ ends in
            cc
        | inr other ↦ rw other (s.unused m k)
      ];
    })
