-- ===== src/Usage/Ranking/Dominance.antt =====
-- The order by which Rank compares two profiles: better in one window and worse in none
-- (internal/usage/ranking.go).
use codex_folio.Base.{
  Bool, true, false, ◌&&◌, ◌||◌, not, ◌≡◌, refl, ◌∙◌, List, [], ◌∷◌, arith, length, All,
}
use codex_folio.Usage.Types.{Observation, Float, float_lt, float_le, float_zero}
use codex_folio.Usage.Ranking.{Entry, Verdict, compare_window, compare_windows, judge, is_shared}

-- Is one of the values of the first list less used than its counterpart?
pub better : List Observation → List Observation → Bool
better [] bs = false
better (a ∷ more) [] = false
better (a ∷ more) (b ∷ bs) = float_lt a.value b.value || better more bs

unfoldable pub beats : List Observation → List Observation → Bool
beats x y = better x y && not (better y x)

abbrev pub IsNumber : Observation → Type 0
IsNumber o = float_le float_zero o.value ≡ true

pub beats_irreflexive : (x : List Observation) → beats x x ≡ false
unfolding beats
beats_irreflexive x = ground arith

le_lt_trans :
    (a b c : Float)
    → float_le float_zero a ≡ true
    → float_le float_zero b ≡ true
    → float_le float_zero c ≡ true
    → (float_lt b a ≡ false → float_lt c b ≡ false → float_lt c a ≡ false)
      × (float_lt a b ≡ true → float_lt c b ≡ false → float_lt a c ≡ true)
unfolding float_lt float_le float_zero
le_lt_trans a b c p q r = ground arith

not_better_trans :
    (x y z : List Observation)
    → All IsNumber x
    → All IsNumber y
    → All IsNumber z
    → length x ≡ length y
    → length y ≡ length z
    → better y x ≡ false
    → better z y ≡ false
    → better z x ≡ false
unfolding better
not_better_trans [] y [] p q r e f h k = refl
not_better_trans [] y (c ∷ z) p q r e f h k = refl
not_better_trans (a ∷ x) [] z p q r e f h k = absurd (omega arith)
not_better_trans (a ∷ x) (b ∷ y) [] p q r e f h k = refl
not_better_trans (a ∷ x) (b ∷ y) (c ∷ z) p q r e f h k = ground (
  arith,
  le_lt_trans a.value b.value c.value,
  not_better_trans x y z p.1 q.1 r.1 (omega arith) (omega arith),
)

better_trans :
    (x y z : List Observation)
    → All IsNumber x
    → All IsNumber y
    → All IsNumber z
    → length x ≡ length y
    → length y ≡ length z
    → better x y ≡ true
    → better z y ≡ false
    → better x z ≡ true
unfolding better
better_trans [] y z p q r e f h k = cc
better_trans (a ∷ x) [] z p q r e f h k = cc
better_trans (a ∷ x) (b ∷ y) [] p q r e f h k = absurd (omega arith)
better_trans (a ∷ x) (b ∷ y) (c ∷ z) p q r e f h k = ground (
  arith,
  le_lt_trans a.value b.value c.value,
  better_trans x y z p.1 q.1 r.1 (omega arith) (omega arith),
)

pub beats_trans :
    (x y z : List Observation)
    → All IsNumber x
    → All IsNumber y
    → All IsNumber z
    → length x ≡ length y
    → length y ≡ length z
    → beats x y ≡ true
    → beats y z ≡ true
    → beats x z ≡ true
unfolding beats
beats_trans x y z p q r e f h k =
    ground (arith, not_better_trans x y z p q r e f, better_trans x y z p q r e f)

or_assoc : (a b c : Bool) → ((a || b) || c) ≡ (a || (b || c))
or_assoc a b c = ground arith

compare_windows-better :
    (shared : Bool) (xs ys : List Observation) (v : Verdict)
    → ((compare_windows shared xs ys v).left_better ≡ v.left_better || better xs ys)
      × ((compare_windows shared xs ys v).right_better ≡ v.right_better || better ys xs)
unfolding compare_windows better
compare_windows-better shared [] [] v = ground arith
compare_windows-better shared [] (b ∷ ys) v = ground arith
compare_windows-better shared (a ∷ xs) [] v = ground arith
compare_windows-better shared (a ∷ xs) (b ∷ ys) v =
    let (left, right) = compare_windows-better shared xs ys (compare_window shared a b v) in
    (
      left ∙ or_assoc v.left_better (float_lt a.value b.value) (better xs ys),
      right ∙ or_assoc v.right_better (float_lt b.value a.value) (better ys xs),
    )

-- The verdict of the windows is the order on the values.
pub judge-better :
    (l r : Entry)
    → ((judge l r).left_better ≡ better l.evidence r.evidence)
      × ((judge l r).right_better ≡ better r.evidence l.evidence)
unfolding judge
judge-better l r = compare_windows-better (is_shared l.scope r.scope) l.evidence r.evidence _
