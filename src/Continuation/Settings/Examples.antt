-- ===== src/Continuation/Settings/Examples.antt =====
-- A concrete retention of a checkpoint (internal/continuation/retention.go), with numbers written in
-- unary.
use Prim.Native.String.{◌∷◌, []}
use Prim.Native.Char.{code, nul}
use codex_folio.Base.{
  done, ◌>>=◌, ℕ, zero, suc, ◌≡◌, refl, sym, ap, ◌∙◌, inl, inr, false, String, Option, none, some,
  ◌==◌, string_eq, eqb, if◌then◌else◌, Bool-cases,
}
use codex_folio.Continuation.Records.{Environment}
use codex_folio.Continuation.Examples.{env}
use codex_folio.Continuation.Retention.{
  Settings, default_settings, parse_retention, write_retention, checkpoint_retention,
  policy_setting,
}
use codex_folio.Continuation.Settings.{IsDecimal, InBounds, write_retention-reads}

abbrev strokes : ℕ → String
strokes zero = []
strokes (suc n) = nul ∷ strokes n

abbrev itoa : ℕ → String
itoa n = nul ∷ strokes n

abbrev count : String → ℕ
count [] = 0
count (c ∷ s) = suc (count s)

abbrev atoi : String → Option ℕ
atoi [] = none
atoi (c ∷ s) = if eqb (code c) 0 then some (count s) else none

count-strokes : (n : ℕ) → count (strokes n) ≡ n
count-strokes zero = refl
count-strokes (suc n) = ap suc (count-strokes n)

reads : (n : ℕ) → atoi (itoa n) ≡ some n
reads n = ap some (count-strokes n)

other_word : (n : ℕ) (word : String) → atoi word ≡ none → (itoa n == word) ≡ false
other_word n word h = elim (Bool-cases (itoa n == word)) [
  | inl same ↦
      let clash : some n ≡ none =
        sym (reads n) ∙ ap atoi ((string_eq.is_same_iff (itoa n) word).0 same) ∙ h in
      cc
  | inr apart ↦ apart
]

abbrev unary : Environment
unary = record env { atoi = atoi; itoa = itoa }

decimal : IsDecimal unary
decimal = record {
  reads = λ n h. reads n;
  full = λ n. other_word n "" refl;
  number = λ n. other_word n "unlimited" refl;
}

-- Four days for the checkpoints of a transcript.
abbrev stored : Settings
stored = record default_settings { transcript = record { mode = "days"; days = some 4 } }

write_run : write_retention unary "transcript-assisted" (itoa 4) none ≡ done stored
unfolding write_retention parse_retention
write_run = refl

write_retention-reads_example :
    (days : Option ℕ) × InBounds days
    × (parse_retention unary (itoa 4) ≡ done days)
    × ((checkpoint_retention unary (some stored) >>= λ policy.
          policy_setting unary policy "transcript-assisted" >>= parse_retention unary)
        ≡ done days)
write_retention-reads_example =
    write_retention-reads unary decimal "transcript-assisted" (itoa 4) none stored refl write_run
