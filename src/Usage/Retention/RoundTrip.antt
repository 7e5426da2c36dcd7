-- ===== src/Usage/Retention/RoundTrip.antt =====
-- The text of a retention setting stands for the setting (internal/usage/retention.go).
use codex_folio.Base.{
  ℕ, ◌≡◌, refl, sym, subst, inl, inr, Bool, true, false, ◌&&◌, ◌||◌, String, Option, none, some,
  ◌==◌, string_eq, ltb, leb, eqb, arith, if◌then◌else◌, Bool-cases,
}
use codex_folio.Usage.Schedule.Backoff.{Int64, pos, neg}
use codex_folio.Usage.Retention.{
  default_retention, Retention, days_of, parse_retention, print_retention,
}

-- A setting that a text can stand for.
unfoldable pub valid_retention : Retention → Bool
valid_retention p =
    if p.unlimited then eqb p.days 0 else eqb p.days 0 || (leb 30 p.days && leb p.days 3652059)

days_of-valid : (n : Option Int64) (p : Retention) → days_of n ≡ some p → valid_retention p ≡ true
unfolding days_of valid_retention
days_of-valid none p h = cc
days_of-valid (some (neg n)) p h = cc
days_of-valid (some (pos d)) p h = elim (Bool-cases (ltb d 30 || ltb 3652059 d)) [
  | inl out ↦ let clash : none ≡ some p = rw out at h in cc
  | inr fits ↦
      let e : some (record { days = d; unlimited = false }) ≡ some p = rw fits at h in
      let same : record { days = d; unlimited = false } ≡ p = cc in
      subst
        (λ q.
          (if q.unlimited
            then eqb q.days 0
            else eqb q.days 0 || (leb 30 q.days && leb q.days 3652059))
          ≡ true)
        same (ground arith)
]

module _ (atoi : String → Option Int64) (itoa : ℕ → String)
    (reads : (n : ℕ) → atoi (itoa n) ≡ some (pos n))
    (word : (n : ℕ) → (itoa n == default_retention) ≡ false)
    (other : (n : ℕ) → (itoa n == "unlimited") ≡ false) where
  parse-valid :
      (setting : String) (p : Retention)
      → parse_retention atoi itoa setting ≡ some p
      → valid_retention p ≡ true
  unfolding parse_retention
  parse-valid setting p h = elim (Bool-cases (setting == default_retention)) [
    | inl months ↦
        let e : some (record { days = 0; unlimited = false }) ≡ some p = rw months at h in
        let same : record { days = 0; unlimited = false } ≡ p = cc in
        subst (λ q. valid_retention q ≡ true) same (unfold valid_retention in refl)
    | inr rest ↦ elim (Bool-cases (setting == "unlimited")) [
      | inl forever ↦
          let e : some (record { days = 0; unlimited = true }) ≡ some p = rw (rest, forever) at h in
          let same : record { days = 0; unlimited = true } ≡ p = cc in
          subst (λ q. valid_retention q ≡ true) same (unfold valid_retention in refl)
      | inr number ↦ days_of-valid (atoi setting) p (rw (rest, number) at h)
    ]
  ]

  print-parse :
      (d : ℕ) (u : Bool)
      → valid_retention (record { days = d; unlimited = u }) ≡ true
      → parse_retention atoi itoa (print_retention atoi itoa (record { days = d; unlimited = u }))
        ≡ some (record { days = d; unlimited = u })
  unfolding parse_retention print_retention valid_retention days_of
  print-parse d true h =
      let zero_days : d ≡ 0 = ground arith in
      λ i. some (record { days = sym zero_days i; unlimited = true })
  print-parse d false h = elim (Bool-cases (eqb d 0)) [
    | inl none' ↦
        let zero_days : d ≡ 0 = ground arith in
        rw none' (λ i. some (record { days = sym zero_days i; unlimited = false }))
    | inr given ↦
        let fits : (ltb d 30 || ltb 3652059 d) ≡ false = ground arith in
        rw (given, word d, other d, reads d, fits) refl
  ]

-- What a text is read as prints as a text that is read as the same, and is unlimited, thirteen
-- months, or 30 to 3652059 days. The decimal text of a number is taken to be read as that number,
-- and to be neither of the two words.
pub parse-print_retention :
    (atoi : String → Option Int64) (itoa : ℕ → String)
    → ((n : ℕ) → atoi (itoa n) ≡ some (pos n))
    → ((n : ℕ) → (itoa n == default_retention) ≡ false)
    → ((n : ℕ) → (itoa n == "unlimited") ≡ false)
    → (setting : String) (p : Retention) → parse_retention atoi itoa setting ≡ some p
    → (parse_retention atoi itoa (print_retention atoi itoa p) ≡ some p)
      × (valid_retention p ≡ true)
parse-print_retention atoi itoa reads word other setting p h =
    let valid = parse-valid atoi itoa reads word other setting p h in
    (print-parse atoi itoa reads word other p.days p.unlimited valid, valid)
