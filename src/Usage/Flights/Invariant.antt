-- ===== src/Usage/Flights/Invariant.antt =====
-- The invariant of the flights, and a caller that arrives (internal/usage/usage.go).
use codex_folio.Base.{
  ℕ, ◌≤◌, ◌≡◌, refl, sym, ap, subst, ◌∙◌, inl, inr, Bool, true, false, String, List, [], ◌∷◌,
  Option, none, some, eqb, ◌==◌, string_eq, nat_eq, All, Bool-cases, Option-cases, arith,
}
use codex_folio.Usage.Flights.{
  Phase, absent, waiting, collecting, landed, closed, Flights, set_phase, set_inflight,
  join_or_start, arrive,
}

-- The profile of a flight, and of one that is not closed.
abbrev pub target : Phase → Option String
target absent = none
target (waiting id) = some id
target (collecting id) = some id
target (landed id a) = some id
target (closed id a) = some id

abbrev pub open_target : Phase → Option String
open_target absent = none
open_target (waiting id) = some id
open_target (collecting id) = some id
open_target (landed id a) = some id
open_target (closed id a) = none

abbrev pub is_collecting : Phase → Bool
is_collecting absent = false
is_collecting (waiting id) = false
is_collecting (collecting id) = true
is_collecting (landed id a) = false
is_collecting (closed id a) = false

pub record IsSound (f : Flights) : Type 0 where
  pub listed : (n : ℕ) (id : String) → open_target (f.phase n) ≡ some id → f.inflight id ≡ some n
  pub opened : (n : ℕ) (id : String) → f.inflight id ≡ some n → open_target (f.phase n) ≡ some id
  pub alone : (n : ℕ) → is_collecting (f.phase n) ≡ true → f.busy ≡ some n
  pub served : All (λ c. target (f.phase c.1) ≡ some c.0) f.callers
  pub unused : (n : ℕ) → f.next ≤ n → f.phase n ≡ absent

open-target : (p : Phase) (id : String) → open_target p ≡ some id → target p ≡ some id
open-target absent id h = cc
open-target (waiting x) id h = h
open-target (collecting x) id h = h
open-target (landed x a) id h = h
open-target (closed x a) id h = cc

pub served-set :
    (n : ℕ) (p : Phase) (phase : ℕ → Phase) (cs : List (String × ℕ))
    → ((id : String) → target (phase n) ≡ some id → target p ≡ some id)
    → All (λ c. target (phase c.1) ≡ some c.0) cs
    → All (λ c. target (set_phase n p phase c.1) ≡ some c.0) cs
unfolding set_phase
served-set n p phase [] keeps h = tt
served-set n p phase ((id, m) ∷ cs) keeps (here, there) = (
  elim (Bool-cases (eqb m n)) [
    | inl same ↦
        rw same (
          keeps id (subst (λ k. target (phase k) ≡ some id) ((nat_eq.is_same_iff m n).0 same) here))
    | inr other ↦ rw other here
  ],
  served-set n p phase cs keeps there,
)

-- A flight goes on for the same profile, and stays open.
pub moved-IsSound :
    (n : ℕ) (p : Phase) (busy : Option ℕ) (f : Flights)
    → IsSound f
    → open_target p ≡ open_target (f.phase n)
    → target p ≡ target (f.phase n)
    → ((m : ℕ) → is_collecting (set_phase n p f.phase m) ≡ true → busy ≡ some m)
    → (f.phase n ≡ absent → p ≡ absent)
    → IsSound (record f { phase = set_phase n p f.phase; busy = busy })
unfolding set_phase
moved-IsSound n p busy f s opens same alone bare = record {
  listed = λ m id h. elim (Bool-cases (eqb m n)) [
    | inl here ↦
        subst (λ k. f.inflight id ≡ some k) (sym ((nat_eq.is_same_iff m n).0 here))
          (s.listed n id (sym opens ∙ rw here at h))
    | inr other ↦ s.listed m id (rw other at h)
  ];
  opened = λ m id h. elim (Bool-cases (eqb m n)) [
    | inl here ↦ rw here (
        opens
        ∙ subst (λ k. open_target (f.phase k) ≡ some id) ((nat_eq.is_same_iff m n).0 here)
            (s.opened m id h))
    | inr other ↦ rw other (s.opened m id h)
  ];
  alone = alone;
  served = served-set n p f.phase f.callers (λ id h. same ∙ h) s.served;
  unused = λ m h. elim (Bool-cases (eqb m n)) [
    | inl here ↦
        rw here
          (bare (subst (λ k. f.phase k ≡ absent) ((nat_eq.is_same_iff m n).0 here) (s.unused m h)))
    | inr other ↦ rw other (s.unused m h)
  ];
}

-- A new flight.
start-IsSound :
    (id : String) (f : Flights)
    → IsSound f
    → f.inflight id ≡ none
    → IsSound (join_or_start id f none)
unfolding set_phase set_inflight
start-IsSound id f s free =
    let fresh : f.phase f.next ≡ absent = s.unused f.next (omega arith) in
    record {
      listed = λ m key h. elim (Bool-cases (eqb m f.next)) [
        | inl here ↦
            let e : ◌≡◌ {A = Option String} (some id) (some key) = rw here at h in
            let same : key ≡ id = cc in
            let hit : (key == id) ≡ true = (string_eq.is_same_iff key id).1 same in
            rw hit (ap some (sym ((nat_eq.is_same_iff m f.next).0 here)))
        | inr other ↦
            let old = s.listed m key (rw other at h) in
            elim (Bool-cases (key == id)) [
              | inl same ↦
                  let taken : f.inflight id ≡ some m =
                    subst (λ k. f.inflight k ≡ some m) ((string_eq.is_same_iff key id).0 same)
                      old in
                  cc
              | inr differs ↦ rw differs old
            ]
      ];
      opened = λ m key h. elim (Bool-cases (key == id)) [
        | inl same ↦
            let e : ◌≡◌ {A = Option ℕ} (some f.next) (some m) = rw same at h in
            let this : (eqb m f.next) ≡ true = (nat_eq.is_same_iff m f.next).1 cc in
            rw this (ap some (sym ((string_eq.is_same_iff key id).0 same)))
        | inr differs ↦
            let old = s.opened m key (rw differs at h) in
            elim (Bool-cases (eqb m f.next)) [
              | inl here ↦
                  let clash : open_target (f.phase f.next) ≡ some key =
                    subst (λ k. open_target (f.phase k) ≡ some key)
                      ((nat_eq.is_same_iff m f.next).0 here) old in
                  let nothing : none ≡ some key = ap open_target (sym fresh) ∙ clash in cc
              | inr other ↦ rw other old
            ]
      ];
      alone = λ m h. elim (Bool-cases (eqb m f.next)) [
        | inl here ↦ let no : false ≡ true = rw here at h in cc
        | inr other ↦ s.alone m (rw other at h)
      ];
      served = (
        (let self : eqb f.next f.next ≡ true = (nat_eq.is_same_iff f.next f.next).1 refl in
            rw self refl),
        served-set f.next (waiting id) f.phase f.callers
            (λ key h. let nothing : none ≡ some key = ap target (sym fresh) ∙ h in cc) s.served,
      );
      unused = λ m h. elim (Bool-cases (eqb m f.next)) [
        | inl here ↦
            let same : m ≡ f.next = (nat_eq.is_same_iff m f.next).0 here in
            absurd (omega (arith, h, same))
        | inr other ↦ rw other (s.unused m (omega (arith, h)))
      ];
    }

pub arrive-IsSound : (id : String) (f : Flights) → IsSound f → IsSound (arrive id f)
unfolding arrive
arrive-IsSound id f s = elim (Option-cases (f.inflight id)) [
  | inl free ↦ rw free (start-IsSound id f s free)
  | inr (n, there) ↦ rw there (record {
    listed = s.listed;
    opened = s.opened;
    alone = s.alone;
    served = (open-target (f.phase n) id (s.opened n id there), s.served);
    unused = s.unused;
  })
]
