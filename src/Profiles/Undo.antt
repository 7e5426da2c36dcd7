-- ===== src/Profiles/Undo.antt =====
-- A removal that is cancelled leaves nothing behind (internal/store/profile_lifecycle.go,
-- internal/profile/lifecycle.go).
use codex_folio.Base.{
  done, fails, ◌≡◌, refl, sym, ap, subst, ◌∙◌, ◌⊎◌, ℕ, inl, inr, true, false, ◌&&◌, String, none,
  some, string_eq, is_some, Bool-cases, if◌then◌else◌,
}
use codex_folio.Profiles.Records.{
  QuarantineState, prepared, quarantined, Quarantine, Identity, Tables, profile_not_found,
  quarantine_invalid, Outcome, begin, commit, read_alias, read_identity, read_quarantine,
  read_launches, read_selected, read_replacement, update_selected, insert_quarantine,
  delete_quarantine, delete_rows, update_quarantine, Environment, Item, RemovalRecord,
  find_identity, has_alias, is_active, get_identity_profile, get_profile, get_quarantined_profile,
  populate_identity_home_path,
}
use codex_folio.Profiles.Removal.{
  put_quarantine, quarantine_row, begin_profile_removal, cancel_profile_removal,
}
use codex_folio.Profiles.Records.{home_failed}
use codex_folio.Profiles.Lifecycle.{Homes, is_deregistered, kept, after_begin, remove}
use codex_folio.Profiles.Begun.{begin-IsBegun, put_back, put_here, cancel-done}

-- A removal that put a profile into quarantine and is cancelled leaves the tables as they were, the
-- selection included, where the statements of the cancellation work.
pub cancel_undoes_removal :
    (env env' : Environment) (alias replacement : String) (r : RemovalRecord) (t t' : Tables)
    → ((s : codex_folio.Profiles.Records.Statement) → env'.works s ≡ true)
    → get_quarantined_profile env alias t ≡ fails profile_not_found
    → begin_profile_removal env alias replacement t ≡ done (r, t')
    → is_deregistered r.action ≡ false
    → cancel_profile_removal env' r.item.profile_id t' ≡ done t
cancel_undoes_removal env env' alias replacement r t t' works new h kind =
    let b = begin-IsBegun env alias replacement r t t' new h kind in
    let id = r.item.profile_id in
    let row = quarantine_row env b.was in
    let there = put_here id (some row) t.quarantine in
    let done_so =
      cancel-done env' id row
        (record t { selected = b.chosen; quarantine = put_quarantine id (some row) t.quarantine })
        works there (unfold quarantine_row in refl) in
    let back : (if row.was_selected && is_some b.chosen then some id else b.chosen) ≡ t.selected =
      unfold quarantine_row in b.back in
    subst (λ u. cancel_profile_removal env' id u ≡ done t) (sym b.tables)
      (done_so
        ∙ ap done (
            ap
              (λ sel. record t {
                selected = sel;
                quarantine = put_quarantine id none (put_quarantine id (some row) t.quarantine);
              })
              back
            ∙ ap (λ table. record t { quarantine = table })
                (put_back id (some row) t.quarantine b.free)))

begun :
    (env : ℕ → Environment) (homes : Homes) (alias replacement : String) (t : Tables)
    (o : Outcome (RemovalRecord × Tables))
    → ((s : codex_folio.Profiles.Records.Statement) → (env 1).works s ≡ true)
    → ((id path : String) → homes.quarantine id path ≡ false)
    → get_quarantined_profile (env 0) alias t ≡ fails profile_not_found
    → begin_profile_removal (env 0) alias replacement t ≡ o
    → ((r : RemovalRecord) × ((after_begin env homes t o).0 ≡ done r)
        × (is_deregistered r.action ≡ true))
      ⊎ ((after_begin env homes t o).1 ≡ t)
unfolding after_begin
begun env homes alias replacement t (fails e) works stuck new h = inr refl
begun env homes alias replacement t (done (r, t')) works stuck new h =
    elim (Bool-cases (is_deregistered r.action)) [
      | inl gone ↦ rw gone (inl (r, refl, gone))
      | inr kind ↦
          rw (kind, stuck r.item.profile_id r.item.home_path)
            (inr (
              ap (kept t')
                (cancel_undoes_removal (env 0) (env 1) alias replacement r t t' works new h kind)))
    ]

-- Where the homes cannot be moved, the removal of a profile that is not yet in quarantine either
-- deregisters it or leaves the tables as they were: what the store had begun is cancelled, where its
-- statements work then.
pub remove_all_or_nothing :
    (env : ℕ → Environment) (homes : Homes) (alias replacement : String) (t : Tables)
    → ((s : codex_folio.Profiles.Records.Statement) → (env 1).works s ≡ true)
    → ((id path : String) → homes.quarantine id path ≡ false)
    → get_quarantined_profile (env 0) alias t ≡ fails profile_not_found
    → ((r : RemovalRecord) × ((remove env homes alias replacement t).0 ≡ done r)
        × (is_deregistered r.action ≡ true))
      ⊎ ((remove env homes alias replacement t).1 ≡ t)
unfolding remove
remove_all_or_nothing env homes alias replacement t works stuck new =
    begun env homes alias replacement t (begin_profile_removal (env 0) alias replacement t) works
      stuck new refl
