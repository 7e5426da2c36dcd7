-- ===== src/Continuation/Examples/Runs.antt =====
-- Concrete steps of the checkpoints and the launches (internal/continuation/checkpoint.go).
use codex_folio.Base.{
  subst, done, ◌+◌, ◌≡◌, ◌≤◌, refl, false, String, [], none, some, if◌then◌else◌, ◌==◌, string_eq,
  eqb, Bool-cases, inl, inr,
}
use codex_folio.Launch.Records.{draft, has_status, is_launching}
use codex_folio.Launch.Counts.{count}
use codex_folio.Launch.Invariant.{claims, started}
use codex_folio.Launch.Traces.{IsInitial}
use codex_folio.Continuation.Records.{Environment, Tables}
use codex_folio.Continuation.Review.{finalize_checkpoint, finalize_loop, record_of}
use codex_folio.Continuation.Store.{
  save_checkpoint, check_expected, check_expectations, has_revision, row_of, put_at,
  purge_checkpoint, active_launches, as_claimed,
}
use codex_folio.Continuation.Runs.{accepts, run, run-Reached}
use codex_folio.Continuation.Traces.{
  Reached, starts, continues, approves, purges, continuation_handoff_once,
}
use codex_folio.Continuation.Soundness.{claimed}
use codex_folio.Continuation.Service.{approval}
use codex_folio.Continuation.Approval.{approved_row}
use codex_folio.Continuation.Examples.{shown, env, row, table, final}

-- A draft is approved, and its row is purged.
abbrev start : Tables
start = record (table draft) { launches = [] }

abbrev accepted : Tables
accepted = approved_row env final "text" draft start

abbrev purged : Tables
purged = record { rows = put_at "c1" none accepted.rows; launches = [] }

approval_run : approval env "digest" (record shown { status = draft }) ≡ done (final, "text")
unfolding approval finalize_checkpoint finalize_loop
approval_run = refl

accept_run :
    save_checkpoint env (record_of env final "text" (some draft) "digest") start ≡ done accepted
unfolding save_checkpoint check_expected check_expectations has_revision record_of
accept_run = refl

purge_run : purge_checkpoint env "c1" "digest" accepted ≡ done purged
unfolding purge_checkpoint has_revision row_of record_of active_launches
purge_run = refl

not_launching :
    (c : String)
    → has_status is_launching (as_claimed env (if c == "c1" then some (row draft) else none))
      ≡ false
unfolding as_claimed
not_launching c = elim (Bool-cases (c == "c1")) [ inl h ↦ rw h refl | inr h ↦ rw h refl ]

start-IsInitial : IsInitial (claimed env [] start)
unfolding claimed as_claimed
start-IsInitial = record { no_launches = refl; none_launching = λ c. not_launching c }

purged-Reached : Reached env purged
purged-Reached =
    continues accepted purged
      (continues start accepted (starts start start-IsInitial) (
        approves env "digest" (record shown { status = draft }) (final, "text") start accepted
          approval_run accept_run))
      (purges env "c1" "digest" accepted purged purge_run)

continuation_handoff_once_example :
    (count (claims "c1") [] + count (started "c1") [] ≤ 1)
    × (has_status is_launching (as_claimed env (purged.rows "c1")) ≡ eqb (count (claims "c1") []) 1)
continuation_handoff_once_example = continuation_handoff_once env purged "c1" purged-Reached

abbrev drawn : Environment
drawn = record env { new_id = some "c2" }

not_drawn : (id : String) → drawn.new_id ≡ some id → start.rows id ≡ none
not_drawn id e = let same : "c2" ≡ id = cc in subst (λ x. start.rows x ≡ none) same refl

run-Reached_example : Reached env (run drawn (accepts "c1" "digest") start)
run-Reached_example =
    run-Reached env drawn (accepts "c1" "digest") start not_drawn (starts start start-IsInitial)
