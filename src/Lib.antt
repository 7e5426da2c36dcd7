-- ===== src/Lib.antt =====
-- A verification library for codex-folio, a local manager of Codex identity profiles, in Go.
--
-- The parts that are modelled, and how they interact. The service collects usage evidence for each
-- profile on a schedule. internal/usage/scheduler.go decides when: one tick sorts the targets, walks
-- at most 64 of them from a cursor, refreshes at most four that are due and saves the next attempt of
-- each. The evidence, a snapshot of observations (internal/usage/usage.go), is what the next due time
-- is computed from, and what internal/usage/ranking.go compares when it recommends a profile. Codex
-- is then launched under a profile: internal/store/launches.go records each launch as pending, running,
-- exited or abandoned, and hands an approved checkpoint of a project to one launch. Such checkpoints
-- are captured, edited, approved, shown and purged by internal/continuation/checkpoint.go.
-- internal/store/profile_lifecycle.go takes a profile out of use, into a quarantine of seven days, only
-- while none of its launches is left, and brings it back or purges it.
-- internal/alerts/alerts.go turns the evidence of a profile into conditions to report, which
-- internal/store/alerts.go keeps as alerts, and internal/alerts/service.go notifies of.
--
-- The files:
-- - Base and its children: Boolean tests and lists on the native numbers, equality as an interface,
--   instants and durations. An instant is the number of nanoseconds since Go's zero time, so IsZero is
--   a test for 0, and no instant before that is represented.
-- - Usage.Types: internal/usage/usage.go, the metric registry and the types of evidence. A float64 is
--   a NaN or a whole multiple of the smallest positive float, which is exact for the comparisons.
-- - Usage.Schedule: internal/usage/scheduler.go, scheduledAttemptFromEvidence and
--   nextScheduledAttempt. Schedule.Backoff: exponentialBackoff and boundedJitter, on an int64 with the
--   wrap of its negation. Schedule.Due: their properties.
-- - Usage.Schedule.Tick: Scheduler.Tick. The store, the refresher, the clock, the jitter function and
--   the sort are fields of an environment; what the store and the refresher are asked is a log, and
--   what they answer may depend on it. Tick.Bounds, Tick.Spacing, Tick.Visits
--   and Tick.Advance: its properties. The sums of a time or of durations are taken not to overflow their int64, which the bounds of the
--   settings (24 hours) and of the backoff (6 hours) keep true.
-- - Usage.Finalize: internal/usage/usage.go, finalizeSnapshot with FreshnessAt,
--   projectCurrentQuotaWindows and snapshotStatus; a map of the code is what it holds for one key.
--   Finalize.Backed, Finalize.Current and Finalize.Windows: what a finalized snapshot guarantees.
-- - Usage.Retention: internal/usage/retention.go, ParseRetention and String, with strconv as parameters.
-- - Usage.Capacity: internal/usage/ranking.go, providerCapacity; Capacity.Evidence: what it returns.
-- - Usage.Ranking: internal/usage/ranking.go, Rank; its children prove what a recommendation means:
--   Dominance (the order on the windows), Counts (the pairwise loop), Choosing (the winner loop),
--   Maximum and Winner. sort.Slice, strings.ToLower and the order of texts are parameters.
-- - Usage.Combine: internal/usage/usage.go, combineWithRegistry and DeduplicateCombinedEvidence; a map
--   is a list whose elements carry their key. Combine.Disjoint, Combine.View,
--   Combine.Certain and Combine.Repeats: their properties.
-- - Usage.View: internal/usage/usage.go, Service.View, RankAlternatives and Latest, with the store's
--   answers as parameters. View.Alternatives and View.Unavailable: their properties.
-- - Usage.Flights: internal/usage/usage.go, Service.Refresh as a state machine: its callers, the flights
--   that they share, and the locks. What a flight collects is a parameter, and a caller that gives up
--   waiting is no step. Flights.Invariant, Flights.Phases and
--   Flights.Shared: who shares a flight.
-- - Alerts.Evaluate: internal/alerts/alerts.go, Evaluate. The subtraction of float64, the text of a key
--   and the sort are parameters. Alerts.Supported and Alerts.Complete: what it reports.
-- - Alerts.Rows: internal/store/alerts.go, the table of alerts with SyncAlerts; ORDER BY is a parameter.
--   Rows.Claims: AcknowledgeAlert, ListAlerts, ClaimAlertDelivery and RecordAlertDelivery. Rows.Table,
--   Rows.Invariant, Rows.Shown, Rows.Sync, Rows.History and Rows.Traces: their properties.
-- - Alerts.Deliver: internal/alerts/service.go, deliver. The adapter, the deadline and the store's
--   failures are parameters that may answer otherwise for each record. Deliver.Attempts,
--   Deliver.Bounds and Deliver.Runs: how often an alert is notified of.
-- - Launch.Records: the rows of managed_launches, checkpoints and profiles, and the SQL statements on
--   them, as internal/store/launches.go writes them. Whether a statement succeeds is a field of the
--   environment; a transaction that fails leaves the tables as they are, and an insert refuses a lease
--   that is there, as SQLite documents of a rollback and of UNIQUE.
-- - Launch.Prepare: PrepareLaunch and ValidateAlias. Launch.Marks: MarkManagedLaunchStarted,
--   MarkManagedLaunchExited, MarkManagedLaunchAbandoned and ReconcileManagedLaunches.
-- - Launch.Counts, Invariant, Moves, Soundness, Handoff, Reconcile and Traces: their
--   properties, up to the states that any sequence of these operations reaches. What the continuation
--   service does to a checkpoint (drafts, approval, deletion) is a step of Continuation.Traces.
-- - Continuation.Records: the values of internal/continuation/checkpoint.go. Continuation.Text: its
--   checks and its redaction of texts and paths. Continuation.Retention: internal/continuation/retention.go
--   with the settings of internal/store/retention.go. Continuation.Store: the transactions on the rows
--   of checkpoints, of internal/store/continuation.go and internal/store/secure.go, with the plain texts
--   of the columns. Continuation.Review: show, finalizeCheckpoint and prepareCheckpoint.
--   Continuation.Service: Edit, PreviewAssisted, ApproveAssisted, Approve and Purge.
--   Continuation.Capture: Capture, CaptureProject and PrepareHandoff. Continuation.History: List,
--   Source, Retention, PrepareHistory, and Export of internal/continuation/export.go. JSON, the digest, strconv, the
--   calendar, the paths, the vault, the projects and the inspector are parameters; a metadata text
--   with a status that the schema does not know is no checkpoint.
-- - Continuation.Soundness, Clearing and Traces: the checkpoints and the launches as one state machine,
--   through the view of a row that the launch store reads. Continuation.Runs: the operations as
--   runs of it. Continuation.Finalize, Approval, Expiry,
--   Redaction, Source, Handoff and Settings: what the operations guarantee.
-- - Profiles.Records and Profiles.Removal: internal/store/profile_lifecycle.go, with GetProfile and the
--   transaction of SelectProfile of internal/store/profiles.go; a profile has one alias at most, and a
--   row of selected_profile names a profile. Profiles.Lifecycle: internal/profile/lifecycle.go, Remove,
--   Restore and Purge, with the homes as parameters. BeginProfileRemoval reads the profile before its
--   transaction; the steps of Profiles.Traces take both together, without a renaming in between.
-- - Profiles.Live, Steps, Invariant, Soundness, Beginning, Leaving and Traces: the profiles and the launches as
--   one state machine. Profiles.Begun, Undo and Return: how a removal is taken back.
-- - The Examples modules hold concrete runs.
--
-- Every loop is structural recursion: on the list that it walks, or on the rounds that its bound still
-- allows (`failures - 1` for the backoff, the smaller of 64 and the number of targets for a tick, the
-- number of profiles for the pairwise loop), so no loop has fuel that can run out, but for the loop of
-- finalizeCheckpoint. Its fuel is 32 rounds: where the size is printed with at most 20 digits, it
-- settles within 23.
--
-- Not modelled: the command line, the HTTP API, the dashboard, the adapters of external processes and
-- networks, operating system calls, encryption, and the SQL store apart from the parts named above.
-- They are input and output, or wiring of the parts named here.
pub mod Base
pub mod Alerts
pub mod Continuation
pub mod Launch
pub mod Profiles
pub mod Usage
