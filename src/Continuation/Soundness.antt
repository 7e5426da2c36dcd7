-- ===== src/Continuation/Soundness.antt =====
-- A save keeps the launch store's invariant (internal/store/secure.go: putCheckpoint, with
-- internal/store/launches.go): what a save expects of the row it replaces.
use codex_folio.Base.{
  done, checked, found, >>=-done, done-injective, ℕ, ◌≡◌, refl, sym, ap, subst, Bool, true, false,
  ◌&&◌, ◌==◌, ◌!=◌, string_eq, String, List, Option, none, some, arith, Bool-cases, inl, inr,
  and_eq_true,
}
use codex_folio.Launch.Records.{
  Profile, Status, draft, approved, launching, completed, expired, Tables as LaunchTables,
}
use codex_folio.Launch.Counts.{count}
use codex_folio.Launch.Invariant.{IsSound, claims, started, balanced, balanced_status}
use codex_folio.Continuation.Records.{
  Environment, Row, Tables, CheckpointRecord, begin, commit, read_checkpoint, put_row,
}
use codex_folio.Continuation.Store.{
  same_status, row_of, decrypted, has_revision, check_expected, check_expectations, put_at,
  save_checkpoint, as_claimed,
}

-- The tables as the launch store sees them.
unfoldable pub claimed : Environment → List Profile → Tables → LaunchTables
claimed codec profiles t = record {
  profiles = profiles;
  launches = t.launches;
  checkpoints = λ id. as_claimed codec (t.rows id);
}

-- The row is of the status, and its metadata of the revision.
abbrev pub holds_revision : Environment → String → Option String → Bool
holds_revision env revision none = false
holds_revision env revision (some metadata) = has_revision env metadata revision

unfoldable pub row_matches : Environment → Status → String → Option Row → Bool
row_matches env status revision none = false
row_matches env status revision (some row) =
    same_status row.status status && holds_revision env revision (decrypted row.metadata)

check_expected-matches :
    (env : Environment) (r : CheckpointRecord) (status : Status) (t : Tables) (b : Bool)
    → check_expected env r status t ≡ done b
    → row_matches env status r.expected_revision (t.rows r.id) ≡ true
unfolding check_expected row_matches
check_expected-matches env r status t b h =
    let (_, h1) = checked (env.works read_checkpoint) _ _ h in
    let (row, e, h2) = found (t.rows r.id) _ _ h1 in
    let (same, h3) = checked (same_status row.status status) _ _ h2 in
    let (metadata, e', h4) = found (decrypted row.metadata) _ _ h3 in
    elim (Bool-cases (has_revision env metadata r.expected_revision)) [
      | inl hit ↦ rw (e, same, e') hit
      | inr miss ↦ absurd (let clash = (rw miss at h4) in cc)
    ]

-- What a save that succeeds has found, and what it leaves.
pub save_checkpoint-over :
    (env : Environment) (r : CheckpointRecord) (status : Status) (t t' : Tables)
    → r.expected_status ≡ some status
    → save_checkpoint env r t ≡ done t'
    → (row_matches env status r.expected_revision (t.rows r.id) ≡ true)
      × (t' ≡ record t { rows = put_at r.id (some (row_of r)) t.rows })
unfolding save_checkpoint check_expectations
save_checkpoint-over env r status t t' over h =
    let (_, h1) = checked env.has_vault _ _ h in
    let (_, h2) = checked (env.works begin) _ _ h1 in
    let (b, e, h3) = >>=-done (check_expectations env r r.expected_status t) _ h2 in
    let (_, h4) = checked (env.works put_row) _ _ h3 in
    let (_, h5) = checked (env.works commit) _ _ h4 in
    let e1 : check_expectations env r (some status) t ≡ done b = rw over at e in
    let (_, e2) = checked (r.expected_revision != "") _ _ e1 in
    (check_expected-matches env r status t b e2, sym (done-injective h5))

pub save_checkpoint-new :
    (env : Environment) (r : CheckpointRecord) (t t' : Tables)
    → save_checkpoint env r t ≡ done t'
    → t' ≡ record t { rows = put_at r.id (some (row_of r)) t.rows }
unfolding save_checkpoint
save_checkpoint-new env r t t' h =
    let (_, h1) = checked env.has_vault _ _ h in
    let (_, h2) = checked (env.works begin) _ _ h1 in
    let (b, e, h3) = >>=-done (check_expectations env r r.expected_status t) _ h2 in
    let (_, h4) = checked (env.works put_row) _ _ h3 in
    let (_, h5) = checked (env.works commit) _ _ h4 in sym (done-injective h5)

-- The moves of a status that a save makes.
unfoldable pub may_become : Status → Status → Bool
may_become draft draft = true
may_become draft approved = true
may_become draft expired = true
may_become approved draft = true
may_become approved approved = true
may_become approved expired = true
may_become completed expired = true
may_become expired expired = true
may_become _ _ = false

moved-balanced :
    (a b : Status) (p s : ℕ)
    → may_become a b ≡ true
    → balanced_status a p s ≡ true
    → balanced_status b p s ≡ true
unfolding may_become balanced_status
moved-balanced draft b p s m h = elim b [
  | draft ↦ ground arith
  | approved ↦ ground arith
  | launching ↦ ground arith
  | completed ↦ ground arith
  | expired ↦ ground arith
]
moved-balanced approved b p s m h = elim b [
  | draft ↦ ground arith
  | approved ↦ ground arith
  | launching ↦ ground arith
  | completed ↦ ground arith
  | expired ↦ ground arith
]
moved-balanced completed b p s m h = elim b [
  | draft ↦ ground arith
  | approved ↦ ground arith
  | launching ↦ ground arith
  | completed ↦ ground arith
  | expired ↦ ground arith
]
moved-balanced expired b p s m h = elim b [
  | draft ↦ ground arith
  | approved ↦ ground arith
  | launching ↦ ground arith
  | completed ↦ ground arith
  | expired ↦ ground arith
]
moved-balanced launching b p s m h = cc

pub same-status : (a b : Status) → same_status a b ≡ true → a ≡ b
same-status draft b h =
    elim b as (λ k. same_status draft k ≡ true → draft ≡ k) [
      | draft ↦ λ e. refl
      | approved ↦ λ e. cc
      | launching ↦ λ e. cc
      | completed ↦ λ e. cc
      | expired ↦ λ e. cc
    ]
      h
same-status approved b h =
    elim b as (λ k. same_status approved k ≡ true → approved ≡ k) [
      | draft ↦ λ e. cc
      | approved ↦ λ e. refl
      | launching ↦ λ e. cc
      | completed ↦ λ e. cc
      | expired ↦ λ e. cc
    ]
      h
same-status launching b h =
    elim b as (λ k. same_status launching k ≡ true → launching ≡ k) [
      | draft ↦ λ e. cc
      | approved ↦ λ e. cc
      | launching ↦ λ e. refl
      | completed ↦ λ e. cc
      | expired ↦ λ e. cc
    ]
      h
same-status completed b h =
    elim b as (λ k. same_status completed k ≡ true → completed ≡ k) [
      | draft ↦ λ e. cc
      | approved ↦ λ e. cc
      | launching ↦ λ e. cc
      | completed ↦ λ e. refl
      | expired ↦ λ e. cc
    ]
      h
same-status expired b h =
    elim b as (λ k. same_status expired k ≡ true → expired ≡ k) [
      | draft ↦ λ e. cc
      | approved ↦ λ e. cc
      | launching ↦ λ e. cc
      | completed ↦ λ e. cc
      | expired ↦ λ e. refl
    ]
      h

replaced-balanced :
    (codec env : Environment) (r : CheckpointRecord) (status : Status) (o : Option Row) (p s : ℕ)
    → may_become status r.status ≡ true
    → row_matches env status r.expected_revision o ≡ true
    → balanced (as_claimed codec o) p s ≡ true
    → balanced (as_claimed codec (some (row_of r))) p s ≡ true
unfolding row_matches as_claimed balanced row_of
replaced-balanced codec env r status none p s m h b = cc
replaced-balanced codec env r status (some row) p s m h b =
    let (same, _) = and_eq_true (same_status row.status status) _ h in
    let e = same-status row.status status same in moved-balanced status r.status p s m (rw e at b)

new-balanced :
    (codec : Environment) (r : CheckpointRecord) (p s : ℕ)
    → r.status ≡ draft
    → balanced (as_claimed codec none) p s ≡ true
    → balanced (as_claimed codec (some (row_of r))) p s ≡ true
unfolding as_claimed balanced balanced_status row_of
new-balanced codec r p s e b = rw e b

module _ (codec : Environment) (profiles : List Profile) (t : Tables) (id : String)
    (row : Row) where
  -- A row that is put keeps the invariant, where its status goes with the launches.
  pub put-IsSound :
      IsSound (claimed codec profiles t)
      → ((p s : ℕ)
          → balanced (as_claimed codec (t.rows id)) p s ≡ true
          → balanced (as_claimed codec (some row)) p s ≡ true)
      → IsSound (claimed codec profiles (record t { rows = put_at id (some row) t.rows }))
  unfolding claimed
  put-IsSound s fits = record {
    rows = s.rows;
    leases = s.leases;
    balance = λ c. elim (Bool-cases (c == id)) [
      | inl here ↦
          let same = (string_eq.is_same_iff c id).0 here in
          let there : t.rows c ≡ t.rows id = ap t.rows same in
          rw here (
            fits (count (claims c) t.launches) (count (started c) t.launches)
              (rw there at (s.balance c)))
      | inr elsewhere ↦ rw elsewhere (s.balance c)
    ];
  }

-- A save over a row that may become what is saved keeps the launches and their checkpoints sound.
pub save_checkpoint-IsSound :
    (codec env : Environment) (profiles : List Profile) (r : CheckpointRecord) (status : Status)
    (t t' : Tables)
    → IsSound (claimed codec profiles t)
    → r.expected_status ≡ some status
    → may_become status r.status ≡ true
    → save_checkpoint env r t ≡ done t'
    → IsSound (claimed codec profiles t')
save_checkpoint-IsSound codec env profiles r status t t' s over m h =
    let (hit, e) = save_checkpoint-over env r status t t' over h in
    subst (λ x. IsSound (claimed codec profiles x)) (sym e)
      (put-IsSound codec profiles t r.id (row_of r) s
        (λ p n b. replaced-balanced codec env r status (t.rows r.id) p n m hit b))

-- So does the save of a new draft.
pub save_new-IsSound :
    (codec env : Environment) (profiles : List Profile) (r : CheckpointRecord) (t t' : Tables)
    → IsSound (claimed codec profiles t)
    → r.status ≡ draft
    → t.rows r.id ≡ none
    → save_checkpoint env r t ≡ done t'
    → IsSound (claimed codec profiles t')
save_new-IsSound codec env profiles r t t' s is_draft free h =
    subst (λ x. IsSound (claimed codec profiles x)) (sym (save_checkpoint-new env r t t' h))
      (put-IsSound codec profiles t r.id (row_of r) s
        (λ p n b. new-balanced codec r p n is_draft (rw free at b)))
