-- ===== src/Usage/View/Unavailable.antt =====
-- What a snapshot of a failed collection says (internal/usage/usage.go).
use codex_folio.Base.{
  ◌≡◌, refl, sym, ap, inl, inr, true, false, some, String, ◌==◌, string_eq, Time, Bool-cases,
}
use codex_folio.Usage.Types.{registry, availability_contradictory}
use codex_folio.Usage.Finalize.{
  finalize_snapshot, finalize_observations, fill_reason, project_current_quota_windows,
  keep_current, settle_states, settle_state, snapshot_status, status_loop, tally,
}
use codex_folio.Usage.View.{new_unavailable_snapshot, unavailable_state}

-- The snapshot of a failure stays what it is whenever it is finalized, where it gives a reason: each
-- metric of the registry keeps the state and the reason, and the status is that state.
pub finalize_snapshot-unavailable :
    (source_version : String) (captured_at now : Time) (state reason : String)
    → (reason == "") ≡ false
    → finalize_snapshot (new_unavailable_snapshot source_version captured_at state reason) now
      ≡ some (new_unavailable_snapshot source_version captured_at state reason)
unfolding finalize_snapshot finalize_observations new_unavailable_snapshot unavailable_state
    registry project_current_quota_windows keep_current settle_states settle_state tally fill_reason
    snapshot_status status_loop
finalize_snapshot-unavailable v captured now state reason given =
    let self : (state == state) ≡ true = (string_eq.is_same_iff state state).1 refl in
    elim (Bool-cases (state == availability_contradictory)) [
      | inl worst ↦
          let e : availability_contradictory ≡ state =
            sym ((string_eq.is_same_iff state availability_contradictory).0 worst) in
          rw (given, self, worst)
            (ap
              (λ status.
                some
                  (record (new_unavailable_snapshot v captured state reason) { status = status }))
              e)
      | inr other ↦ rw (given, self, other, self, self, self) refl
    ]
