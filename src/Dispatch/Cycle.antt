-- ===== src/Dispatch/Cycle.antt =====
-- crates/kafkaman-sqlx/src/dispatch.rs and dispatch_failure.rs: how a dispatch cycle ends, with the
-- commit of its work or with the record of its failure.
use kafkaman.Base.{Bool, false, Option, none, some, [], ◌∷◌, if◌then◌else◌}
use kafkaman.Core.Status.{MarkOutcome, is_updated}
use kafkaman.Core.Problem.{FailureStage}
use kafkaman.Failure.{
  SqlxError, database, Result, ok, err, sqlx, missing_handler, failure_disposition,
}
use kafkaman.Received.{ReceivedRow, ReceivedTable}
use kafkaman.Received.Rows.{
  ReceivedFailureRecord, claim_received_row, failure_of, is_out_of_range, record_received_failure,
}
use kafkaman.Dispatch.Router.{MessageRouter, routes}
use kafkaman.Dispatch.{
  Tables, DispatchRun, DispatchStats, DispatchFailure, failure_error, disposition, is_handler_panic,
  Progress, go, stop, converge_and_dispatch,
}

unfoldable pub no_stats : DispatchStats
no_stats = record {
  claimed = 0;
  processed = 0;
  failed = 0;
  panicked = 0;
  panicked_message_id = none;
}

-- What a cycle reports, and the committed tables after it.
pub record Cycle (Json App : Type 0) : Type 0 where
  pub result : Result DispatchStats
  pub tables : Tables Json App

unfoldable pub dispatch_failure_stats : MarkOutcome → DispatchStats
dispatch_failure_stats outcome = record {
  claimed = 1;
  processed = 0;
  failed = if is_updated outcome then 1 else 0;
  panicked = 0;
  panicked_message_id = none;
}

abbrev pub note_panic :
    {Json : Type 0} → DispatchFailure → ReceivedRow Json → DispatchStats → DispatchStats
note_panic failure row stats =
    if is_handler_panic failure
    then record stats { panicked = 1; panicked_message_id = some row.message_id }
    else record stats { panicked = 0; panicked_message_id = none }

-- SQLSTATE 22003.
abbrev pub numeric_value_out_of_range : SqlxError
numeric_value_out_of_range = database false (some (b'2' ∷ b'2' ∷ b'0' ∷ b'0' ∷ b'3' ∷ []))

module _ {Json App : Type 0} where
  -- `record_received_failure` and the commit, on the tables as a transaction without a write of ours
  -- sees them. `landed` says whether the statement takes effect although it failed: in a transaction
  -- it does not.
  unfoldable pub record_and_commit :
      DispatchRun Json App
      → ReceivedTable
      → ReceivedFailureRecord
      → Bool
      → Option SqlxError
      → Tables Json App
      → Cycle Json App
  unfolding dispatch_failure_stats
  record_and_commit run t failure landed commit_fault tables =
      let (received', outcome) = record_received_failure run.draw t.retry failure tables.received in
      let recorded = record tables { received = received' } in
      if is_out_of_range failure tables.received
      then record { result = err (sqlx numeric_value_out_of_range); tables = tables }
      else (elim run.record_fault [
        | some e ↦ record { result = err (sqlx e); tables = if landed then recorded else tables }
        | none ↦ elim commit_fault [
          | some e ↦ record {
            result = err (sqlx e);
            tables = if run.commit_landed then recorded else tables;
          }
          | none ↦ record { result = ok (dispatch_failure_stats outcome); tables = recorded }
        ]
      ])

  -- `rollback_handler_and_record_received_failure`. The savepoint was opened over the tables as the
  -- claim found them, so that the rollback gives these back; the fallback connection commits its
  -- statement by itself.
  unfoldable pub rollback_and_record :
      DispatchRun Json App
      → ReceivedTable
      → ReceivedFailureRecord
      → Tables Json App
      → Cycle Json App
  rollback_and_record run t failure tables = elim run.rollback_fault [
    | none ↦ record_and_commit run t failure false run.commit_fault tables
    | some broken ↦ elim run.acquire_fault [
      | some e ↦ record { result = err (sqlx e); tables = run.meanwhile tables }
      | none ↦ record_and_commit run t failure run.record_landed none (run.meanwhile tables)
    ]
  ]

  abbrev pub map_result : (DispatchStats → DispatchStats) → Cycle Json App → Cycle Json App
  map_result f c = record c { result = elim c.result [ ok stats ↦ ok (f stats) | err e ↦ err e ] }

  unfoldable pub finish_work :
      DispatchRun Json App
      → ReceivedTable
      → ReceivedRow Json
      → Tables Json App
      → Progress MarkOutcome × Tables Json App
      → Cycle Json App
  unfolding is_handler_panic
  finish_work run t row tables (go outcome, work) = elim run.commit_fault [
    | some e ↦ record { result = err (sqlx e); tables = if run.commit_landed then work else tables }
    | none ↦ record {
      result = ok (record {
        claimed = 1;
        processed = if is_updated outcome then 1 else 0;
        failed = 0;
        panicked = 0;
        panicked_message_id = none;
      });
      tables = work;
    }
  ]
  finish_work run t row tables (stop failure, work) = map_result (note_panic failure row) (
      rollback_and_record run t
        (failure_of row (disposition failure) (run.render (failure_error failure)) run.due_at)
        tables)

  unfoldable pub dispatch_claimed_row :
      DispatchRun Json App
      → ReceivedTable
      → MessageRouter Json App
      → Tables Json App
      → ReceivedRow Json
      → Cycle Json App
  dispatch_claimed_row run t router tables row =
      if routes router row.message_type
      then (elim run.savepoint_fault [
        | some e ↦ record { result = err (sqlx e); tables = tables }
        | none ↦ finish_work run t row tables (converge_and_dispatch run t router row tables)
      ])
      else let error = missing_handler row.message_type in
        record_and_commit run t
          (failure_of row (failure_disposition error FailureStage.routing) (run.render error)
            run.due_at)
          false run.commit_fault tables

  -- `dispatch_once_inner`.
  unfoldable pub dispatch_once :
      DispatchRun Json App
      → ReceivedTable
      → MessageRouter Json App
      → Tables Json App
      → Cycle Json App
  dispatch_once run t router tables = elim run.begin_fault [
    | some e ↦ record { result = err (sqlx e); tables = tables }
    | none ↦ elim run.claim_fault [
      | some e ↦ record { result = err e; tables = tables }
      | none ↦ elim (claim_received_row run.locked run.due_at tables.received) [
        | some row ↦ dispatch_claimed_row run t router tables row
        | none ↦ elim run.commit_fault [
          | some e ↦ record { result = err (sqlx e); tables = tables }
          | none ↦ record { result = ok no_stats; tables = tables }
        ]
      ]
    ]
  ]
