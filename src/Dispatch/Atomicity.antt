-- ===== src/Dispatch/Atomicity.antt =====
-- What a cycle of dispatch.rs commits, whatever fails in it.
use kafkaman.Base.{
  Bool, if◌then◌else◌, true, false, Option, none, some, ◌≡◌, refl, arith, if_elim, option_elim,
}
use kafkaman.Core.Status.{MarkOutcome}
use kafkaman.Failure.{SqlxError, Result, err, sqlx}
use kafkaman.Received.{ReceivedRow, ReceivedTable}
use kafkaman.Received.Rows.{
  ReceivedFailureRecord, claim_received_row, is_out_of_range, record_received_failure,
}
use kafkaman.Dispatch.Router.{MessageRouter, routes}
use kafkaman.Dispatch.{
  Tables, DispatchRun, DispatchStats, Progress, go, stop, converge_and_dispatch,
}
use kafkaman.Dispatch.Cycle.{
  Cycle, record_and_commit, rollback_and_record, note_panic, map_result, finish_work,
  dispatch_claimed_row, dispatch_once,
}

-- The tables that a cycle's last transaction finds: those of its start, or, on the fallback
-- connection, those that other sessions have made of them.
pub data IsBase {Json App : Type 0} (run : DispatchRun Json App) (tables : Tables Json App)
    : Tables Json App → Type 0 where
  at_start : IsBase run tables tables
  on_fallback : IsBase run tables (run.meanwhile tables)

pub data Commits {Json App : Type 0} (run : DispatchRun Json App) (t : ReceivedTable)
    (router : MessageRouter Json App) (tables : Tables Json App) : Cycle Json App → Type 0 where
  nothing :
      {b : Tables Json App} (r : Result DispatchStats)
      → IsBase run tables b
      → Commits run t router tables (record { result = r; tables = b })
  failure_recorded :
      {b : Tables Json App} (r : Result DispatchStats) (f : ReceivedFailureRecord)
      → IsBase run tables b
      → Commits run t router tables (record {
        result = r;
        tables = record b { received = (record_received_failure run.draw t.retry f b.received).0 };
      })
  work_done :
      (row : ReceivedRow Json) (outcome : MarkOutcome) (work : Tables Json App)
      (r : Result DispatchStats)
      → claim_received_row run.locked run.due_at tables.received ≡ some row
      → routes router row.message_type ≡ true
      → converge_and_dispatch run t router row tables ≡ (go outcome, work)
      → Commits run t router tables (record { result = r; tables = work })

module _ {Json App : Type 0} (run : DispatchRun Json App) (t : ReceivedTable)
    (router : MessageRouter Json App) (tables : Tables Json App) where
  abbrev IsCommit : Cycle Json App → Type 0
  IsCommit = Commits run t router tables

  map_result-Commits :
      (f : DispatchStats → DispatchStats) (c : Cycle Json App)
      → IsCommit c
      → IsCommit (map_result f c)
  map_result-Commits f c (nothing r b) = nothing _ b
  map_result-Commits f c (failure_recorded r g b) = failure_recorded _ g b
  map_result-Commits f c (work_done row outcome work r e k q) = work_done row outcome work _ e k q

  record_and_commit-Commits :
      (f : ReceivedFailureRecord) (landed : Bool) (fault : Option SqlxError) (b : Tables Json App)
      → IsBase run tables b
      → IsCommit (record_and_commit run t f landed fault b)
  unfolding record_and_commit
  record_and_commit-Commits f landed fault b base =
      if_elim IsCommit (is_out_of_range f b.received) (λ r. nothing _ base)
        (λ r.
          option_elim IsCommit run.record_fault
            (λ q.
              option_elim IsCommit fault (λ q'. failure_recorded _ f base)
                (λ e q'. either run.commit_landed e))
            (λ e q. either landed e))
    where
      either :
          (l : Bool) (e : SqlxError)
          → IsCommit (record {
            result = err (sqlx e);
            tables =
                if l
                then record b {
                  received = (record_received_failure run.draw t.retry f b.received).0;
                }
                else b;
          })
      either true e = failure_recorded _ f base
      either false e = nothing _ base

  rollback-Commits : (f : ReceivedFailureRecord) → IsCommit (rollback_and_record run t f tables)
  unfolding rollback_and_record
  rollback-Commits f =
      option_elim IsCommit run.rollback_fault
        (λ q. record_and_commit-Commits f false run.commit_fault tables at_start)
        (λ broken q.
          option_elim IsCommit run.acquire_fault
            (λ q'.
              record_and_commit-Commits f run.record_landed none (run.meanwhile tables) on_fallback)
            (λ e q'. nothing _ on_fallback))

  finish-Commits :
      (row : ReceivedRow Json) (p : Progress MarkOutcome × Tables Json App)
      → claim_received_row run.locked run.due_at tables.received ≡ some row
      → routes router row.message_type ≡ true
      → converge_and_dispatch run t router row tables ≡ p
      → IsCommit (finish_work run t row tables p)
  unfolding finish_work
  finish-Commits row (go outcome, work) c k q =
      option_elim IsCommit run.commit_fault (λ e. work_done row outcome work _ c k q)
        (λ e f. either run.commit_landed e)
    where
      either :
          (l : Bool) (e : SqlxError)
          → IsCommit (record { result = err (sqlx e); tables = if l then work else tables })
      either true e = work_done row outcome work _ c k q
      either false e = nothing _ at_start
  finish-Commits row (stop failure, work) c k q =
      map_result-Commits (note_panic failure row) _ (rollback-Commits _)

  claimed-Commits :
      (row : ReceivedRow Json)
      → claim_received_row run.locked run.due_at tables.received ≡ some row
      → IsCommit (dispatch_claimed_row run t router tables row)
  unfolding dispatch_claimed_row
  claimed-Commits row c =
      if_elim IsCommit (routes router row.message_type)
        (λ k.
          option_elim IsCommit run.savepoint_fault (λ q. finish-Commits row _ c k refl)
            (λ e q. nothing _ at_start))
        (λ k. record_and_commit-Commits _ false run.commit_fault tables at_start)

  -- However the statements of a cycle fail, it commits nothing, or only a failure record in the
  -- received table, or all the work on a claimed row that has a route.
  pub dispatch_once-Commits : IsCommit (dispatch_once run t router tables)
  unfolding dispatch_once
  dispatch_once-Commits =
      option_elim IsCommit run.begin_fault
        (λ b.
          option_elim IsCommit run.claim_fault
            (λ q.
              option_elim IsCommit (claim_received_row run.locked run.due_at tables.received)
                (λ n.
                  option_elim IsCommit run.commit_fault (λ f. nothing _ at_start)
                    (λ e f. nothing _ at_start))
                claimed-Commits)
            (λ e q. nothing _ at_start))
        (λ e b. nothing _ at_start)

module _ {Json App : Type 0} (run : DispatchRun Json App) (t : ReceivedTable)
    (router : MessageRouter Json App) (tables : Tables Json App) (row : ReceivedRow Json)
    (claimed : claim_received_row run.locked run.due_at tables.received ≡ some row)
    (unrouted : routes router row.message_type ≡ false) where
  -- The cache and the application's tables after a cycle are those of its base.
  abbrev pub IsParked : Cycle Json App → Type 0
  IsParked c =
      (b : Tables Json App) × IsBase run tables b
      × (c.tables.cache ≡ b.cache)
      × (c.tables.app ≡ b.app)

  parked : (c : Cycle Json App) → Commits run t router tables c → IsParked c
  parked c (nothing {b} r base) = (b, base, refl, refl)
  parked c (failure_recorded {b} r f base) = (b, base, refl, refl)
  parked c (work_done row' outcome work r e k q) =
      let same : row ≡ row' = ground (arith, claimed, e) in absurd (cc (unrouted, k, same))

  -- A cycle that claims a row of a type without a handler advances neither the cache nor the
  -- application's tables.
  pub unrouted-IsParked : IsParked (dispatch_once run t router tables)
  unrouted-IsParked = parked _ (dispatch_once-Commits run t router tables)
