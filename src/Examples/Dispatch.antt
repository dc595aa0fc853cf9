-- ===== src/Examples/Dispatch.antt =====
-- Dispatch cycles over one row, with a handler that counts.
use kafkaman.Base.{ℕ, ◌+◌, false, none, some, [], ◌∷◌, ◌≡◌, refl}
use kafkaman.Base.Int.{pos}
use kafkaman.Base.Table.{find_where, select_where, count_where}
use kafkaman.Base.Sort.{sort_by}
use kafkaman.Core.Status.{updated}
use kafkaman.Failure.{ok}
use kafkaman.Received.{ReceivedRow}
use kafkaman.Received.Rows.{
  claim_received_row, is_due, mark_received_processed, is_open, mark_outcome,
}
use kafkaman.Cache.{upsert_cache_from_received}
use kafkaman.Dispatch.Router.{MessageRouter, completed, empty_router, add_handler, routes}
use kafkaman.Dispatch.{
  Tables, DispatchRun, go, converge_and_dispatch, run_before, apply_cache, run_after, mark_step,
}
use kafkaman.Dispatch.Cycle.{dispatch_once}
use kafkaman.Dispatch.Atomicity.{Commits, IsParked, dispatch_once-Commits, unrouted-IsParked}
use kafkaman.Dispatch.Work.{IsWork, converge_and_dispatch-IsWork}
use kafkaman.Examples.{record_of, orders}

abbrev row : ReceivedRow ℕ
row = record_of "orders" (pos 0) 1

abbrev tables : Tables ℕ ℕ
tables = record { received = row ∷ []; cache = λ k. none; app = 0 }

abbrev run : DispatchRun ℕ ℕ
run = record {
  due_at = 9;
  locked = λ r. false;
  draw = λ n. n;
  render = λ e. "failed";
  begin_fault = none;
  claim_fault = none;
  savepoint_fault = none;
  upsert_fault = none;
  classify_fault = none;
  lock_fault = none;
  adopt_fault = none;
  mark_fault = none;
  rollback_fault = none;
  acquire_fault = none;
  record_fault = none;
  commit_fault = none;
  commit_landed = false;
  record_landed = false;
  meanwhile = λ t. t;
}

abbrev counting : MessageRouter ℕ ℕ
counting = add_handler empty_router "order" (λ meta payload app. (completed (ok tt), app + 1))

abbrev silent : MessageRouter ℕ ℕ
silent = empty_router

dispatch_once-Commits_example :
    Commits run orders counting tables (dispatch_once run orders counting tables)
dispatch_once-Commits_example = dispatch_once-Commits run orders counting tables

row_claimed : claim_received_row run.locked run.due_at tables.received ≡ some row
unfolding claim_received_row find_where sort_by select_where is_due
row_claimed = refl

order_unrouted : routes silent row.message_type ≡ false
unfolding routes empty_router
order_unrouted = refl

unrouted-IsParked_example :
    IsParked run orders silent tables row row_claimed order_unrouted
      (dispatch_once run orders silent tables)
unrouted-IsParked_example =
    unrouted-IsParked run orders silent tables row row_claimed order_unrouted

abbrev work : Tables ℕ ℕ
work = (converge_and_dispatch run orders counting row tables).1

work_done : (converge_and_dispatch run orders counting row tables).0 ≡ go updated
unfolding converge_and_dispatch add_handler empty_router run_before apply_cache
    upsert_cache_from_received run_after mark_step mark_received_processed mark_outcome count_where
    is_open
work_done = refl

converge_and_dispatch-IsWork_example : IsWork run orders counting row tables updated work
converge_and_dispatch-IsWork_example =
    converge_and_dispatch-IsWork run orders counting row tables updated work
      (λ i. (work_done i, work))
