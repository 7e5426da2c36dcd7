-- ===== src/Continuation/Clearing.antt =====
-- PurgeCheckpoint of internal/store/continuation.go: what it asks for, and that the rows of
-- managed_launches which it clears stay sound.
use codex_folio.Base.{
  done, checked, found, done-injective, ◌≡◌, refl, sym, subst, true, false, ◌&&◌, not, ◌==◌,
  string_eq, String, List, [], ◌∷◌, map, Option, none, some, eqb, arith, Bool-cases, inl, inr, All,
  is_some, flip, if◌then◌else◌, ◌∙◌,
}
use codex_folio.Launch.Records.{Profile, Launch, find_launch, is_launching, is_pending}
use codex_folio.Launch.Counts.{bit, count, is_free, distinct}
use codex_folio.Launch.Invariant.{IsSound, IsRow, is_named, names, claims, started, balanced}
use codex_folio.Continuation.Records.{
  Environment, Row, Tables, begin, commit, read_checkpoint, read_launches, clear_launches,
  delete_row,
}
use codex_folio.Continuation.Store.{
  put_at, as_claimed, refers, has_text, clear_row, active_launches, purge_checkpoint, decrypted,
  has_revision,
}
use codex_folio.Continuation.Soundness.{claimed, holds_revision}

cleared-IsRow : (id : String) (l : Launch) → IsRow l → IsRow (clear_row id l)
unfolding clear_row
cleared-IsRow id l (fits, named) = elim (Bool-cases (refers id l)) [
  | inl hit ↦ rw hit (fits, unfold is_named in refl)
  | inr miss ↦ rw miss (fits, named)
]

cleared-All : (id : String) (ls : List Launch) → All IsRow ls → All IsRow (map (clear_row id) ls)
cleared-All id [] a = tt
cleared-All id (l ∷ ls) a = (cleared-IsRow id l a.0, cleared-All id ls a.1)

cleared-lease : (id : String) (l : Launch) → (clear_row id l).lease_id ≡ l.lease_id
unfolding clear_row
cleared-lease id l = elim (Bool-cases (refers id l)) [ inl h ↦ rw h refl | inr h ↦ rw h refl ]

cleared-state : (id : String) (l : Launch) → (clear_row id l).state ≡ l.state
unfolding clear_row
cleared-state id l = elim (Bool-cases (refers id l)) [ inl h ↦ rw h refl | inr h ↦ rw h refl ]

cleared-is_free :
    (id lease : String) (ls : List Launch)
    → is_free lease (map (clear_row id) ls) ≡ is_free lease ls
unfolding is_free find_launch
cleared-is_free id lease [] = refl
cleared-is_free id lease (l ∷ ls) = elim (Bool-cases (l.lease_id == lease)) [
  | inl h ↦ rw (cleared-lease id l, h) refl
  | inr h ↦ rw (cleared-lease id l, h) (cleared-is_free id lease ls)
]

cleared-distinct : (id : String) (ls : List Launch) → distinct (map (clear_row id) ls) ≡ distinct ls
unfolding distinct
cleared-distinct id [] = refl
cleared-distinct id (l ∷ ls) =
    rw (cleared-lease id l, cleared-is_free id l.lease_id ls, cleared-distinct id ls) refl

cleared-process : (id : String) (l : Launch) → (clear_row id l).process_id ≡ l.process_id
unfolding clear_row
cleared-process id l = elim (Bool-cases (refers id l)) [ inl h ↦ rw h refl | inr h ↦ rw h refl ]

cleared-name :
    (id c x : String) → names c (if x == id then none else some x) ≡ (not (c == id) && (c == x))
unfolding names
cleared-name id c x = elim (Bool-cases (x == id)) [
  | inl h ↦
      let e : x ≡ id = (string_eq.is_same_iff x id).0 h in
      elim (Bool-cases (c == id)) [
        | inl k ↦ rw (h, k) refl
        | inr k ↦ rw (h, k) (sym (subst (λ y. (c == y) ≡ false) (sym e) k))
      ]
  | inr h ↦ elim (Bool-cases (c == id)) [
    | inl k ↦
        let e : c ≡ id = (string_eq.is_same_iff c id).0 k in
        rw (h, k) (subst (λ y. (y == x) ≡ false) (sym e) (flip x id h))
    | inr k ↦ rw (h, k) refl
  ]
]

cleared-option :
    (id c : String) (o : Option String)
    → names c (if has_text o id then none else o) ≡ (not (c == id) && names c o)
unfolding names
cleared-option id c none = elim (Bool-cases (c == id)) [ inl h ↦ rw h refl | inr h ↦ rw h refl ]
cleared-option id c (some x) = cleared-name id c x

-- The launches that name the checkpoint name none, the others what they named.
cleared-names :
    (id c : String) (l : Launch)
    → names c (clear_row id l).checkpoint_id ≡ (not (c == id) && names c l.checkpoint_id)
unfolding clear_row
cleared-names id c l =
    let o = cleared-option id c l.checkpoint_id in
    elim (Bool-cases (refers id l)) [ inl h ↦ rw h (rw h at o) | inr h ↦ rw h (rw h at o) ]

-- The claims of a checkpoint are those that were there, or none where it is the one purged.
module _ (id c : String) where
  cleared-claims :
      (ls : List Launch)
      → (c == id) ≡ false
      → count (claims c) (map (clear_row id) ls) ≡ count (claims c) ls
  unfolding count claims
  cleared-claims [] other = refl
  cleared-claims (l ∷ ls) other =
      rw (cleared-state id l, cleared-names id c l, other, cleared-claims ls other) refl

  cleared-started :
      (ls : List Launch)
      → (c == id) ≡ false
      → count (started c) (map (clear_row id) ls) ≡ count (started c) ls
  unfolding count started
  cleared-started [] other = refl
  cleared-started (l ∷ ls) other =
      rw (cleared-process id l, cleared-names id c l, other, cleared-started ls other) refl

  no-claims : (ls : List Launch) → (c == id) ≡ true → count (claims c) (map (clear_row id) ls) ≡ 0
  unfolding count claims bit
  no-claims [] same = refl
  no-claims (l ∷ ls) same =
      rw (cleared-names id c l, same, no-claims ls same)
        (elim (Bool-cases (is_pending (clear_row id l).state)) [
          | inl h ↦ rw h refl
          | inr h ↦ rw h refl
        ])

  no-started : (ls : List Launch) → (c == id) ≡ true → count (started c) (map (clear_row id) ls) ≡ 0
  unfolding count started bit
  no-started [] same = refl
  no-started (l ∷ ls) same =
      rw (cleared-names id c l, same, no-started ls same)
        (elim (Bool-cases (is_some (clear_row id l).process_id)) [
          | inl h ↦ rw h refl
          | inr h ↦ rw h refl
        ])

cleared-IsSound :
    (codec : Environment) (profiles : List Profile) (id : String) (t : Tables)
    → IsSound (claimed codec profiles t)
    → IsSound (
        claimed codec profiles
          (record { rows = put_at id none t.rows; launches = map (clear_row id) t.launches }))
unfolding claimed balanced as_claimed
cleared-IsSound codec profiles id t s = record {
  rows = cleared-All id t.launches s.rows;
  leases = cleared-distinct id t.launches ∙ s.leases;
  balance = λ c. elim (Bool-cases (c == id)) [
    | inl here ↦ simp (here, no-claims id c t.launches here, no-started id c t.launches here)
    | inr elsewhere ↦
        rw
          (
            elsewhere,
            cleared-claims id c t.launches elsewhere,
            cleared-started id c t.launches elsewhere,
          )
          (s.balance c)
  ];
}

-- A purge that succeeds has found the row with the given revision, not launching and with no
-- launch that is pending or runs; it leaves no row, and no launch that refers to one.
pub purge_checkpoint-done :
    (env : Environment) (id revision : String) (t t' : Tables)
    → purge_checkpoint env id revision t ≡ done t'
    → ((row : Row) × (t.rows id ≡ some row)
        × (is_launching row.status ≡ false)
        × (holds_revision env revision (decrypted row.metadata) ≡ true))
      × (active_launches id t.launches ≡ 0)
      × (t' ≡ record { rows = put_at id none t.rows; launches = map (clear_row id) t.launches })
unfolding purge_checkpoint
purge_checkpoint-done env id revision t t' h =
    let (_, h1) = checked env.has_vault _ _ h in
    let (_, h2) = checked (env.works begin) _ _ h1 in
    let (_, h3) = checked (env.works read_checkpoint) _ _ h2 in
    let (row, is_there, h4) = found (t.rows id) _ _ h3 in
    let (idle, h5) = checked (not (is_launching row.status)) _ _ h4 in
    let (metadata, e, h6) = found (decrypted row.metadata) _ _ h5 in
    let (hit, h7) = checked (has_revision env metadata revision) _ _ h6 in
    let (_, h8) = checked (env.works read_launches) _ _ h7 in
    let (none_active, h9) = checked (eqb (active_launches id t.launches) 0) _ _ h8 in
    let (_, h10) = checked (env.works clear_launches) _ _ h9 in
    let (_, h11) = checked (env.works delete_row) _ _ h10 in
    let (_, h12) = checked (env.works commit) _ _ h11 in
    (
      (row, is_there, ground (arith, idle), rw e hit),
      ground (arith, none_active),
      sym (done-injective h12),
    )

pub purge_checkpoint-IsSound :
    (codec env : Environment) (profiles : List Profile) (id revision : String) (t t' : Tables)
    → IsSound (claimed codec profiles t)
    → purge_checkpoint env id revision t ≡ done t'
    → IsSound (claimed codec profiles t')
purge_checkpoint-IsSound codec env profiles id revision t t' s h =
    let (_, _, e) = purge_checkpoint-done env id revision t t' h in
    subst (λ x. IsSound (claimed codec profiles x)) (sym e) (cleared-IsSound codec profiles id t s)
