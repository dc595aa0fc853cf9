-- ===== src/Dispatch.antt =====
-- crates/kafkaman-sqlx/src/dispatch.rs and the recording half of dispatch_failure.rs: one dispatch
-- cycle over what the database holds. `Tables` is the committed state; the cycle's transaction works
-- on a copy, which replaces it at the commit.
pub mod Router
pub mod Cycle
pub mod Atomicity
pub mod Handled
pub mod Work
use kafkaman.Base.{ℕ, String, Bool, true, false, Option, none, some, List, ◌&&◌, not, if◌then◌else◌}
use kafkaman.Core.Status.{MarkOutcome, is_updated}
use kafkaman.Core.Problem.{FailureStage}
use kafkaman.Failure.{
  SqlxError, Error, Result, ok, err, sqlx, missing_handler, handler_panicked, FailureDisposition,
  failure_disposition,
}
use kafkaman.Received.{ReceivedRow, ReceivedTable}
use kafkaman.Received.Rows.{
  ReceivedFailureRecord, claim_received_row, mark_received_processed, failure_of,
  record_received_failure,
}
use kafkaman.Cache.{
  CacheApplyOutcome, applied, ignored, migrated, Cache, CacheRun, upsert_cache_from_received,
}
use kafkaman.Dispatch.Router.{
  HandlerFlow, continue, skip_handler, HandlerCall, run_handler, MessageRouter, meta_of, routes,
}

pub record Tables (Json App : Type 0) : Type 0 where
  pub received : List (ReceivedRow Json)
  pub cache : Cache Json
  pub app : App

-- How the database answers in one cycle: a fault for each statement, where that of the claim may also
-- be of the decoding of its row, the rows that other sessions
-- hold, whether a `COMMIT`, or the record on the fallback connection, took effect although it
-- failed, what others commit before the fallback connection is there, and the clock. In the claim's own
-- transaction other sessions change nothing that the cycle reads.
pub record DispatchRun (Json App : Type 0) : Type 0 where
  pub due_at : ℕ
  pub locked : ReceivedRow Json → Bool
  pub draw : ℕ → ℕ
  pub render : Error → String
  pub begin_fault : Option SqlxError
  pub claim_fault : Option Error
  pub savepoint_fault : Option SqlxError
  pub upsert_fault : Option SqlxError
  pub classify_fault : Option SqlxError
  pub lock_fault : Option SqlxError
  pub adopt_fault : Option SqlxError
  pub mark_fault : Option SqlxError
  pub rollback_fault : Option SqlxError
  pub acquire_fault : Option SqlxError
  pub record_fault : Option SqlxError
  pub commit_fault : Option SqlxError
  pub commit_landed : Bool
  pub record_landed : Bool
  pub meanwhile : Tables Json App → Tables Json App

pub record DispatchStats : Type 0 where
  pub claimed : ℕ
  pub processed : ℕ
  pub failed : ℕ
  pub panicked : ℕ
  pub panicked_message_id : Option ℕ

pub data DispatchFailure : Type 0 where
  in_handler : Error → DispatchFailure
  in_bookkeeping : Error → DispatchFailure

abbrev pub failure_error : DispatchFailure → Error
failure_error (in_handler e) = e
failure_error (in_bookkeeping e) = e

unfoldable pub disposition : DispatchFailure → FailureDisposition
unfolding failure_disposition
disposition (in_handler e) = failure_disposition e FailureStage.handler
disposition (in_bookkeeping e) = failure_disposition e FailureStage.bookkeeping

unfoldable pub is_handler_panic : DispatchFailure → Bool
is_handler_panic (in_handler (handler_panicked _)) = true
is_handler_panic _ = false

-- Each part of the work inside the savepoint goes on or stops the rest.
pub data Progress (A : Type 0) : Type 0 where
  go : A → Progress A
  stop : DispatchFailure → Progress A

abbrev pub in_frame : {A : Type 0} → (Error → DispatchFailure) → Result A → Progress A
in_frame frame (ok a) = go a
in_frame frame (err e) = stop (frame e)

abbrev pub Work : Type 0 → Type 0 → Type 0 → Type 0
Work Json App A = Tables Json App → Progress A × Tables Json App

abbrev pub continue_with :
    {Json App A B : Type 0}
    → (A → Work Json App B)
    → Progress A × Tables Json App
    → Progress B × Tables Json App
continue_with f (go a, tables) = f a tables
continue_with f (stop e, tables) = (stop e, tables)

infixl 5 ◌>>=◌
abbrev pub ◌>>=◌ :
    {Json App A B : Type 0} → Work Json App A → (A → Work Json App B) → Work Json App B
◌>>=◌ m f tables = continue_with f (m tables)

abbrev pub runs_after : HandlerFlow → CacheApplyOutcome → Bool
runs_after continue applied = true
runs_after continue migrated = true
runs_after continue ignored = false
runs_after skip_handler outcome = false

module _ {Json App : Type 0} where
  -- A handler works on the application's tables.
  abbrev pub call_handler : {A : Type 0} → (App → HandlerCall A × App) → Work Json App A
  call_handler f tables =
      let (call, app') = f tables.app in
      (in_frame in_handler (run_handler call), record tables { app = app' })

  unfoldable pub run_before : MessageRouter Json App → ReceivedRow Json → Work Json App HandlerFlow
  unfolding run_handler
  run_before router row tables = elim (router.before_handlers row.message_type) [
    | none ↦ (go continue, tables)
    | some before ↦ call_handler (before (meta_of row) row.payload) tables
  ]

  abbrev pub cache_run : DispatchRun Json App → CacheRun Json
  cache_run run = record {
    now = run.due_at;
    upsert_fault = run.upsert_fault;
    classify_fault = run.classify_fault;
    lock_fault = run.lock_fault;
    adopt_fault = run.adopt_fault;
    before_classify = λ cache. cache;
    before_lock = λ cache. cache;
  }

  unfoldable pub apply_cache :
      DispatchRun Json App → ReceivedTable → ReceivedRow Json → Work Json App CacheApplyOutcome
  apply_cache run t row tables =
      let (outcome, cache') = upsert_cache_from_received (cache_run run) t row tables.cache in
      (in_frame in_bookkeeping outcome, record tables { cache = cache' })

  unfoldable pub run_after :
      MessageRouter Json App
      → ReceivedRow Json
      → HandlerFlow
      → CacheApplyOutcome
      → Work Json App (Unit {0})
  unfolding run_handler
  run_after router row flow outcome tables =
      if runs_after flow outcome
      then (elim (router.handlers row.message_type) [
        | none ↦ (go tt, tables)
        | some after ↦ call_handler (after (meta_of row) row.payload) tables
      ])
      else (go tt, tables)

  unfoldable pub mark_step : DispatchRun Json App → ReceivedRow Json → Work Json App MarkOutcome
  mark_step run row tables = elim run.mark_fault [
    | some e ↦ (stop (in_bookkeeping (sqlx e)), tables)
    | none ↦
        let (received', outcome) =
          mark_received_processed row.message_id run.due_at tables.received in
        (go outcome, record tables { received = received' })
  ]

  unfoldable pub converge_and_dispatch :
      DispatchRun Json App
      → ReceivedTable
      → MessageRouter Json App
      → ReceivedRow Json
      → Work Json App MarkOutcome
  converge_and_dispatch run t router row = do
    flow ← run_before router row
    outcome ← apply_cache run t row
    _ ← run_after router row flow outcome
    mark_step run row
