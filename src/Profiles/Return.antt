-- ===== src/Profiles/Return.antt =====
-- A profile that was put into quarantine comes back within seven days, and no later
-- (internal/store/profile_lifecycle.go, internal/profile/lifecycle.go).
use codex_folio.Base.{
  done, fails, checked, found, done-injective, ◌≡◌, refl, sym, ◌+◌, ap, subst, ◌∙◌, ℕ, inl, inr,
  Bool, true, false, String, Option, none, some, ◌==◌, string_eq, is_none, before, arith,
  Bool-cases, if◌then◌else◌,
}
use mathlib.Core.Path.{fun_ext}
use codex_folio.Profiles.Records.{
  QuarantineState, prepared, quarantined, Quarantine, Identity, Tables, profile_not_found,
  quarantine_invalid, Outcome, begin, commit, read_alias, read_identity, read_quarantine,
  read_launches, read_selected, read_replacement, update_selected, insert_quarantine,
  delete_quarantine, delete_rows, update_quarantine, Environment, Item, RemovalRecord,
  find_identity, has_alias, is_active, get_identity_profile, get_profile, get_quarantined_profile,
  populate_identity_home_path,
}
use codex_folio.Profiles.Removal.{
  put_quarantine, quarantine_row, begin_profile_removal, is_prepared, find_prepared,
  complete_profile_quarantine, restore_profile,
}
use codex_folio.Profiles.Records.{home_failed}
use codex_folio.Profiles.Lifecycle.{Homes, is_deregistered, finish, after_begin, remove}
use codex_folio.Profiles.Records.{home_failed, quarantine_expired, quarantine_period}
use codex_folio.Profiles.Begun.{IsBegun, begin-IsBegun, put_back, put_here}

put_twice :
    (id : String) (q q' : Option Quarantine) (table : String → Option Quarantine)
    → put_quarantine id q (put_quarantine id q' table) ≡ put_quarantine id q table
unfolding put_quarantine
put_twice id q q' table =
    fun_ext
      (λ key. elim (Bool-cases (key == id)) [ inl same ↦ rw same refl | inr other ↦ rw other refl ])

unfoldable ready_row : (env : Environment) (was : Bool) → Quarantine
unfolding quarantine_row
ready_row env was = record (quarantine_row env was) { state = quarantined }

prepared_row :
    (env : Environment) (was : Bool) (q : Quarantine)
    → find_prepared (some (quarantine_row env was)) ≡ some q
    → quarantine_row env was ≡ q
unfolding quarantine_row
prepared_row env was q h = cc

completed :
    (env env' : Environment) (r : RemovalRecord) (t t' t'' : Tables) (b : IsBegun env r t t')
    → complete_profile_quarantine env' r.item.profile_id t' ≡ done t''
    → t'' ≡ record t {
      selected = b.chosen;
      quarantine = put_quarantine r.item.profile_id (some (ready_row env b.was)) t.quarantine;
    }
unfolding complete_profile_quarantine
completed env env' r t t' t'' b h =
    let id = r.item.profile_id in
    let row = quarantine_row env b.was in
    let aside = put_quarantine id (some row) t.quarantine in
    let h0 : complete_profile_quarantine env' id
          (record t { selected = b.chosen; quarantine = aside })
        ≡ done t'' =
      subst (λ u. complete_profile_quarantine env' id u ≡ done t'') b.tables h in
    let (_, h1) = checked (env'.works update_quarantine) _ _ h0 in
    let (q, seen, h2) = found (find_prepared (aside id)) _ _ h1 in
    let here : find_prepared (some row) ≡ some q =
      ap find_prepared (sym (put_here id (some row) t.quarantine)) ∙ seen in
    let same : row ≡ q = prepared_row env b.was q here in
    sym (done-injective h2)
    ∙ ap
        (λ k. record t {
          selected = b.chosen;
          quarantine = put_quarantine id (some (record k { state = quarantined })) aside;
        })
        (sym same)
    ∙ ap (λ table. record t { selected = b.chosen; quarantine = table })
        (put_twice id (some (record row { state = quarantined })) (some row) t.quarantine)
    ∙ (unfold ready_row in refl)

restore-done :
    (env : Environment) (id : String) (q : Quarantine) (t : Tables)
    → ((s : codex_folio.Profiles.Records.Statement) → env.works s ≡ true)
    → t.quarantine id ≡ some q
    → is_prepared (some q) ≡ false
    → restore_profile env id t ≡ (
        if before env.texts.now q.purge_after
        then done (record t { quarantine = put_quarantine id none t.quarantine })
        else fails quarantine_expired)
unfolding restore_profile
restore-done env id q t works there ready = elim (Bool-cases (before env.texts.now q.purge_after)) [
  | inl early ↦ rw (works read_quarantine, there, ready, early, works delete_quarantine) refl
  | inr late ↦ rw (works read_quarantine, there, ready, late) refl
]

finished :
    (r0 : RemovalRecord) (t' : Tables) (o : Outcome Tables) (r : RemovalRecord) (t1 : Tables)
    → finish r0 t' o ≡ (done r, t1)
    → (r0 ≡ r) × (o ≡ done t1)
finished r0 t' (done u) r t1 g = (done-injective (ap (λ y. y.0) g), ap done (ap (λ y. y.1) g))
finished r0 t' (fails e) r t1 g =
    let no : ◌≡◌ {A = Outcome RemovalRecord} (fails e) (done r) = ap (λ y. y.0) g in cc

-- The tables after a removal that succeeded.
removed :
    (env : ℕ → Environment) (homes : Homes) (alias replacement : String) (t : Tables)
    (r : RemovalRecord) (o : Outcome (RemovalRecord × Tables)) (t1 : Tables)
    → get_quarantined_profile (env 0) alias t ≡ fails profile_not_found
    → begin_profile_removal (env 0) alias replacement t ≡ o
    → after_begin env homes t o ≡ (done r, t1)
    → is_deregistered r.action ≡ false
    → (was : Bool) × (chosen : Option String) × (is_none (t.quarantine r.item.profile_id) ≡ true)
      × (t1 ≡ record t {
        selected = chosen;
        quarantine = put_quarantine r.item.profile_id (some (ready_row (env 0) was)) t.quarantine;
      })
unfolding after_begin
removed env homes alias replacement t r (fails e) t1 new h g kind =
    let no : ◌≡◌ {A = Outcome RemovalRecord} (fails e) (done r) = ap (λ y. y.0) g in cc
removed env homes alias replacement t r (done (r0, t')) t1 new h g kind =
    elim (Bool-cases (is_deregistered r0.action)) [
      | inl gone ↦
          let same : ◌≡◌ {A = Outcome RemovalRecord} (done r0) (done r) =
            ap (λ y. y.0) (rw gone at g) in
          let no = ap (λ y. is_deregistered y.action) (done-injective same) in
          ground (arith, gone, kind, no)
      | inr kind0 ↦ elim (Bool-cases (homes.quarantine r0.item.profile_id r0.item.home_path)) [
        | inr stuck ↦
            let no : ◌≡◌ {A = Outcome RemovalRecord} (fails home_failed) (done r) =
              ap (λ y. y.0) (rw (kind0, stuck) at g) in
            cc
        | inl moved ↦
            let b = begin-IsBegun (env 0) alias replacement r0 t t' new h kind0 in
            let (same, ended) =
              finished (record r0 { state = some quarantined }) t'
                (complete_profile_quarantine (env 1) r0.item.profile_id t') r t1
                (rw (kind0, moved) at g) in
            let known : r0.item.profile_id ≡ r.item.profile_id = ap (λ y. y.item.profile_id) same in
            let after = completed (env 0) (env 1) r0 t t' t1 b ended in
            (
              b.was,
              b.chosen,
              subst (λ k. is_none (t.quarantine k) ≡ true) known b.free,
              subst
                  (λ k. t1 ≡ record t {
                    selected = b.chosen;
                    quarantine = put_quarantine k (some (ready_row (env 0) b.was)) t.quarantine;
                  })
                  known after,
            )
      ]
    ]

-- A profile whose removal succeeded comes back when it is restored less than seven days after the
-- removal, where the statements then work: only the selection differs from the tables before the
-- removal. From then on the restoration is refused.
pub restore_undoes_removal :
    (env : ℕ → Environment) (env' : Environment) (homes : Homes) (alias replacement : String)
    (r : RemovalRecord) (t t1 : Tables)
    → ((s : codex_folio.Profiles.Records.Statement) → env'.works s ≡ true)
    → get_quarantined_profile (env 0) alias t ≡ fails profile_not_found
    → remove env homes alias replacement t ≡ (done r, t1)
    → is_deregistered r.action ≡ false
    → restore_profile env' r.item.profile_id t1 ≡ (
        if before env'.texts.now ((env 0).texts.now + quarantine_period)
        then done (record t { selected = t1.selected })
        else fails quarantine_expired)
unfolding remove
restore_undoes_removal env env' homes alias replacement r t t1 works new h kind =
    let (was, chosen, free, e) =
      removed env homes alias replacement t r (begin_profile_removal (env 0) alias replacement t) t1
        new refl h kind in
    let id = r.item.profile_id in
    let q = ready_row (env 0) was in
    let end = record t {
      selected = chosen;
      quarantine = put_quarantine id (some q) t.quarantine;
    } in
    let ready : is_prepared (some q) ≡ false = unfold ready_row in refl in
    let one = restore-done env' id q end works (put_here id (some q) t.quarantine) ready in
    let expiry : q.purge_after ≡ (env 0).texts.now + quarantine_period =
      unfold ready_row quarantine_row in refl in
    let two : restore_profile env' id end ≡ (
        if before env'.texts.now ((env 0).texts.now + quarantine_period)
        then done (record t { selected = chosen })
        else fails quarantine_expired) =
      one
      ∙ ap
          (λ time.
            if before env'.texts.now time
            then done (record end {
              quarantine = put_quarantine id none (put_quarantine id (some q) t.quarantine);
            })
            else fails quarantine_expired)
          expiry
      ∙ ap
          (λ table.
            if before env'.texts.now ((env 0).texts.now + quarantine_period)
            then done (record t { selected = chosen; quarantine = table })
            else fails quarantine_expired)
          (put_back id (some q) t.quarantine free) in
    subst
      (λ u. restore_profile env' id u ≡ (
        if before env'.texts.now ((env 0).texts.now + quarantine_period)
        then done (record t { selected = u.selected })
        else fails quarantine_expired))
      (sym e) two
