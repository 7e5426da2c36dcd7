-- ===== src/Continuation/Finalize.antt =====
-- finalizeCheckpoint of internal/continuation/checkpoint.go: its loop ends, with a size that is that
-- of the encoding.
use codex_folio.Base.{
  done, done-injective, ℕ, zero, suc, ◌+◌, ◌≤◌, ◌≡◌, refl, sym, subst, ◌∙◌, Option-cases, false,
  String, none, some, length, eqb, leb, if◌then◌else◌, Bool-cases, inl, inr, arith,
}
use codex_folio.Continuation.Records.{Environment, Checkpoint}
use codex_folio.Continuation.Review.{
  Encoded, encoded, out_of_fuel, not_encoded, encoded_or_invalid, finalize_loop,
  finalize_checkpoint, finalize_fuel,
}

-- The checkpoint with a size, and the text that it is encoded as.
abbrev pub sized : Checkpoint → ℕ → Checkpoint
sized c n = record c { size_bytes = n }

-- The encoding has a fixed part, and the digits of the size.
pub record IsSized (env : Environment) (c : Checkpoint) : Type 0 where
  pub base : ℕ
  pub width : ℕ → ℕ
  pub mono : (a b : ℕ) → a ≤ b → width a ≤ width b
  pub bound : (a : ℕ) → width a ≤ 20  -- the digits of an int
  pub encodes :
      (n : ℕ)
      → (m : String) × (env.marshal (sized c n) ≡ some m) × (length (env.bytes m) ≡ base + width n)

-- The loop ends, with the encoding of the checkpoint that has its size.
abbrev pub Settles : Environment → Checkpoint → Encoded → Type 0
Settles env c e =
    (n : ℕ) × (m : String) × (e ≡ encoded (sized c n) m)
    × (env.marshal (sized c n) ≡ some m)
    × (length (env.bytes m) ≡ n)

finalize_loop-round :
    (env : Environment) (fuel : ℕ) (c : Checkpoint) (m : String)
    → env.marshal c ≡ some m
    → finalize_loop env (suc fuel) c ≡ (
        if eqb c.size_bytes (length (env.bytes m))
        then encoded c m
        else finalize_loop env fuel (sized c (length (env.bytes m))))
unfolding finalize_loop
finalize_loop-round env fuel c m e = rw (finalize_loop, e) refl

finalize_loop-stuck :
    (env : Environment) (fuel : ℕ) (c : Checkpoint)
    → env.marshal c ≡ none
    → finalize_loop env (suc fuel) c ≡ not_encoded
unfolding finalize_loop
finalize_loop-stuck env fuel c e = rw (finalize_loop, e) refl

encoded-done :
    (e : Encoded) (p : Checkpoint × String) → encoded_or_invalid e ≡ done p → e ≡ encoded p.0 p.1
encoded-done (encoded c m) p h =
    let same : (c, m) ≡ p = done-injective h in subst (λ q. encoded c m ≡ encoded q.0 q.1) same refl
encoded-done out_of_fuel p h = cc
encoded-done not_encoded p h = cc

-- What the loop returns: the checkpoint with another size, and its encoding.
abbrev pub Finalized : Environment → Checkpoint → Checkpoint → String → Type 0
Finalized env c c' m =
    (c' ≡ sized c c'.size_bytes)
    × (env.marshal c' ≡ some m)
    × (length (env.bytes m) ≡ c'.size_bytes)

finalize_loop-Finalized :
    (env : Environment) (fuel : ℕ) (c c' : Checkpoint) (m : String)
    → finalize_loop env fuel c ≡ encoded c' m
    → Finalized env c c' m
finalize_loop-Finalized env zero c c' m h =
    absurd (let e : out_of_fuel ≡ encoded c' m = unfold finalize_loop in h in cc)
finalize_loop-Finalized env (suc fuel) c c' m h = elim (Option-cases (env.marshal c)) [
  | inl e ↦ absurd (let s = finalize_loop-stuck env fuel c e in cc)
  | inr (x, e) ↦
      let s = finalize_loop-round env fuel c x e in
      elim (Bool-cases (eqb c.size_bytes (length (env.bytes x)))) [
        | inl same ↦
            let r : encoded c x ≡ encoded c' m = sym (rw same at s) ∙ h in
            let a : c ≡ c' = cc in
            let b : x ≡ m = cc in
            subst (λ k. Finalized env c k m) a
              (refl, rw (sym b) e, rw (sym b) (ground (arith, same)))
        | inr other ↦
            finalize_loop-Finalized env fuel (sized c (length (env.bytes x))) c' m
              (sym (rw other at s) ∙ h)
      ]
]

pub finalize_checkpoint-Finalized :
    (env : Environment) (c : Checkpoint) (p : Checkpoint × String)
    → finalize_checkpoint env c ≡ done p
    → Finalized env c p.0 p.1
unfolding finalize_checkpoint
finalize_checkpoint-Finalized env c p h =
    finalize_loop-Finalized env finalize_fuel c p.0 p.1
      (encoded-done (finalize_loop env finalize_fuel c) p h)

module _ (env : Environment) (c : Checkpoint) (s : IsSized env c) where
  -- One round: the size is right, or the loop goes on with that of the encoding.
  round :
      (fuel n : ℕ)
      → ((eqb n (s.base + s.width n) ≡ false)
          → Settles env c (finalize_loop env fuel (sized c (s.base + s.width n))))
      → Settles env c (finalize_loop env (suc fuel) (sized c n))
  round fuel n next =
      let (m, e, size) = s.encodes n in
      let step = finalize_loop-round env fuel (sized c n) m e in
      elim (Bool-cases (eqb n (s.base + s.width n))) [
        | inl same ↦ rw (step, size, same) (n, m, refl, e, ground (arith, size, same))
        | inr other ↦ rw (step, size, other) (next other)
      ]

  climb :
      (fuel n : ℕ)
      → n ≤ s.base + s.width n
      → s.base + 21 ≤ n + fuel
      → Settles env c (finalize_loop env fuel (sized c n))
  climb zero n up enough = absurd (omega (arith, s.bound n))
  climb (suc fuel) n up enough = round fuel n (λ other.
      climb fuel (s.base + s.width n) (omega (arith, s.mono n (s.base + s.width n) up))
        (ground (arith, other)))

  descend :
      (fuel n : ℕ)
      → s.base + s.width n ≤ n
      → n + 1 ≤ s.base + fuel
      → Settles env c (finalize_loop env fuel (sized c n))
  descend zero n down enough = absurd (omega arith)
  descend (suc fuel) n down enough = round fuel n (λ other.
      descend fuel (s.base + s.width n) (omega (arith, s.mono (s.base + s.width n) n down))
        (ground (arith, other)))

  loop-ends : (n : ℕ) → Settles env c (finalize_loop env finalize_fuel (sized c n))
  loop-ends n = round 31 n (λ other. elim (Bool-cases (leb n (s.base + s.width n))) [
    | inl up ↦
        climb 31 (s.base + s.width n)
          (let le : n ≤ s.base + s.width n = ground arith in
            omega (arith, s.mono n (s.base + s.width n) le))
          (omega arith)
    | inr down ↦
        descend 31 (s.base + s.width n)
          (let le : s.base + s.width n ≤ n = ground arith in
            omega (arith, s.mono (s.base + s.width n) n le))
          (omega (arith, s.bound n))
  ])

  -- Where the encoding is a fixed part and the digits of the size, of which a longer number has no
  -- fewer and which are at most 20, the loop of finalizeCheckpoint ends within its fuel: it returns
  -- the checkpoint with the size of its own encoding, and that encoding.
  pub finalize_checkpoint-ends :
      (n : ℕ) × (m : String) × (finalize_checkpoint env c ≡ done (sized c n, m))
      × (env.marshal (sized c n) ≡ some m)
      × (length (env.bytes m) ≡ n)
  unfolding finalize_checkpoint
  finalize_checkpoint-ends =
      let (n, m, e, encodes, size) = loop-ends c.size_bytes in rw e (n, m, refl, encodes, size)
