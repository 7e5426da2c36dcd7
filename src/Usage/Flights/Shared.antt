-- ===== src/Usage/Flights/Shared.antt =====
-- Which callers share a flight, and that collections do not overlap (internal/usage/usage.go).
use codex_folio.Base.{
  ℕ, ◌≡◌, refl, sym, ap, inl, inr, Bool, true, false, String, Option, none, some, eqb, ◌==◌,
  string_eq, nat_eq, All, Bool-cases, and_eq_true, ◌&&◌, arith,
}
use codex_folio.Usage.Flights.{Answer, Flights, arrive, lock, land, close, no_flights}
use codex_folio.Usage.Flights.Invariant.{
  target, open_target, is_collecting, IsSound, arrive-IsSound,
}
use codex_folio.Usage.Flights.Phases.{lock-IsSound, land-IsSound, close-IsSound}

pub data Step : Flights → Flights → Type 0 where
  arrives : (id : String) (f : Flights) → Step f (arrive id f)
  locks : (n : ℕ) (f f' : Flights) → lock n f ≡ some f' → Step f f'
  lands : (n : ℕ) (a : Answer) (f f' : Flights) → land n a f ≡ some f' → Step f f'
  closes : (n : ℕ) (f f' : Flights) → close n f ≡ some f' → Step f f'

pub data Reachable : Flights → Type 0 where
  empty : Reachable no_flights
  next : (f f' : Flights) → Reachable f → Step f f' → Reachable f'

reached : (f : Flights) → Reachable f → IsSound f
reached _ empty = record {
  listed = λ n id h. cc;
  opened = λ n id h. cc;
  alone = λ n h. cc;
  served = tt;
  unused = λ n h. refl;
}
reached _ (next _ _ r (arrives id f)) = arrive-IsSound id f (reached f r)
reached _ (next _ _ r (locks n f f' h)) = lock-IsSound n f f' (reached f r) h
reached _ (next _ _ r (lands n a f f' h)) = land-IsSound n a f f' (reached f r) h
reached _ (next _ _ r (closes n f f' h)) = close-IsSound n f f' (reached f r) h

abbrev pub same_target : Option String → Option String → Bool
same_target (some a) (some b) = a == b
same_target (some a) none = false
same_target none o = false

same_target-both :
    (o o' : Option String)
    → same_target o o' ≡ true
    → (id : String) × (o ≡ some id) × (o' ≡ some id)
same_target-both (some a) (some b) h = (a, refl, ap some (sym ((string_eq.is_same_iff a b).0 h)))
same_target-both (some a) none h = cc
same_target-both none o h = cc

not_same : (n m : ℕ) → eqb n m ≡ false → ¬ (n ≡ m)
not_same n m h e = let same = (nat_eq.is_same_iff n m).1 e in ground (arith, h, same)

-- In every reachable state each caller has a flight of the profile that it asked for, and of two
-- flights not both are open for the same profile, nor do both collect.
pub refresh_shares_flights :
    (f : Flights) (n m : ℕ)
    → Reachable f
    → eqb n m ≡ false
    → All (λ c. target (f.phase c.1) ≡ some c.0) f.callers
      × (same_target (open_target (f.phase n)) (open_target (f.phase m)) ≡ false)
      × (is_collecting (f.phase n) && is_collecting (f.phase m) ≡ false)
refresh_shares_flights f n m r differ =
    let s = reached f r in
    (
      s.served,
      elim (Bool-cases (same_target (open_target (f.phase n)) (open_target (f.phase m)))) [
        | inr apart ↦ apart
        | inl both ↦
            let (id, one, two) =
              same_target-both (open_target (f.phase n)) (open_target (f.phase m)) both in
            let here : f.inflight id ≡ some n = s.listed n id one in
            let there : f.inflight id ≡ some m = s.listed m id two in
            let same : n ≡ m = cc in absurd (not_same n m differ same)
      ],
      elim (Bool-cases (is_collecting (f.phase n) && is_collecting (f.phase m))) [
        | inr apart ↦ apart
        | inl both ↦
            let here : f.busy ≡ some n = s.alone n (and_eq_true _ _ both).0 in
            let there : f.busy ≡ some m = s.alone m (and_eq_true _ _ both).1 in
            let same : n ≡ m = cc in absurd (not_same n m differ same)
      ],
    )
