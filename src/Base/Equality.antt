-- ===== src/Base/Equality.antt =====
-- The Boolean equality that Go's `==` is on numbers and texts.
use Prim.Native.Nat.{ℕ}
use Prim.Native.String.{String}
use text.Mathlib.Text.{◌==◌ as same_text}
use text.Mathlib.TextEquality.{eq_iff}
use mathlib.Core.Path.{◌≡◌, sym}
use mathlib.Core.Logic.{◌↔◌, inl, inr}
use mathlib.Core.Bool.{Bool, true, false, not}
use codex_folio.Base.Tests.{eqb, eqb_iff, Bool-cases}

-- The types that `==` compares in the source, with the law that makes the test an equality.
pub record Comparable {ℓ} (T : Type ℓ) : Type ℓ where
  pub is_same : T → T → Bool
  pub is_same_iff : (left right : T) → (is_same left right ≡ true) ↔ (left ≡ right)

instance abbrev pub string_eq : Comparable String
string_eq = record { is_same = same_text; is_same_iff = eq_iff }

instance abbrev pub nat_eq : Comparable ℕ
nat_eq = record { is_same = eqb; is_same_iff = eqb_iff }

infix 50 ◌==◌ ◌!=◌
abbrev pub ◌==◌ {ℓ} : {T : Type ℓ} ⦃c : Comparable T⦄ → T → T → Bool
◌==◌ ⦃c⦄ left right = c.is_same left right

abbrev pub ◌!=◌ {ℓ} : {T : Type ℓ} ⦃c : Comparable T⦄ → T → T → Bool
◌!=◌ ⦃c⦄ left right = not (c.is_same left right)

-- A text that differs from another one, the other way round.
pub flip : (a b : String) → (a == b) ≡ false → (b == a) ≡ false
flip a b h = elim (Bool-cases (b == a)) [
  | inl same ↦
      let back = (string_eq.is_same_iff a b).1 (sym ((string_eq.is_same_iff b a).0 same)) in cc
  | inr other ↦ other
]
