-- ===== src/Examples/Worker.antt =====
-- A relay cycle over one enqueued row, and the panic breaker.
use kafkaman.Base.{some, ℕ, ◌+◌, ◌≡◌, refl, false, true, none, [], ◌∷◌, arith, inl, inr}
use kafkaman.Base.Int.{pos}
use kafkaman.Core.Config.{RelayConfig, validate_relay, DispatcherConfig}
use kafkaman.Failure.{ok}
use kafkaman.Outbox.Claim.{claim_batch}
use kafkaman.Outbox.Enqueue.{enqueue_inner, prepare, store, insert_row}
use kafkaman.Outbox.Mark.{mark_published}
use kafkaman.Base.Table.{exists_where}
use kafkaman.Outbox.Order.System.{System, enqueue, here, next, start}
use kafkaman.Worker.Relay.{RelayRun, RelayStats, relay_rows, relay_once}
use kafkaman.Worker.Publishing.{every_claim_counted}
use kafkaman.Worker.Steps.{
  IsReached, Marks, shared, marked, with_claim, collapsed, claim_of, IsInterleaved,
  relay_once-IsReached,
}
use kafkaman.Worker.Dispatcher.{run_cycles}
use kafkaman.Worker.Breaker.{AreNew, panic_of, panics, poison_row_never_trips, distinct_rows_trip}
use kafkaman.Examples.Outbox.{session, descriptor, envelope, enqueued}

abbrev relay : RelayConfig
relay = record {
  worker_id = "w";
  batch_limit = pos 10;
  lease_for = 30;
  retry_after = 5;
  poll_interval = 1;
}

abbrev cycle : RelayRun ℕ
cycle = record {
  claim_at = 9;
  mark_at = 10;
  claim_id = 4;
  locked = λ r. false;
  claim_fault = none;
  claim_landed = false;
  mark_fault = λ r. none;
  mark_landed = λ r. false;
  publish = λ r. none;
  before_claim = λ rows. rows;
  before_mark = λ r rows. rows;
}

abbrev loaded : System ℕ
loaded = enqueued 0 start

-- Another writer enqueues the order's next state before the mark.
abbrev busy_cycle : RelayRun ℕ
busy_cycle = record cycle {
  before_mark = λ r rows. (enqueue_inner (session 1) "order" (some descriptor) (envelope 1) rows).0;
}

abbrev taken_over : System ℕ
taken_over = with_claim busy_cycle relay (collapsed busy_cycle relay loaded)

one_claimed : Marks busy_cycle relay (claim_of busy_cycle relay loaded).1 taken_over
unfolding claim_batch enqueue_inner prepare store insert_row
one_claimed =
    shared _ [] taken_over (enqueued 1 taken_over)
      (next here (enqueue taken_over (session 1) "order" (some descriptor) (envelope 1) refl)) refl
      (marked _)

loaded-IsInterleaved : IsInterleaved busy_cycle relay loaded
loaded-IsInterleaved = record {
  meanwhile = collapsed busy_cycle relay loaded;
  reached = here;
  committed = refl;
  marks = one_claimed;
}

relay_once-IsReached_example : IsReached loaded (relay_once busy_cycle relay loaded.rows).1
relay_once-IsReached_example = relay_once-IsReached busy_cycle relay loaded loaded-IsInterleaved

abbrev one_published : RelayStats
one_published = record { claimed = 1; published = 1; failed = 0; stale = 0; missing = 0 }

loaded_relayed : (relay_once cycle relay loaded.rows).0 ≡ ok one_published
unfolding relay_once validate_relay relay_rows claim_batch enqueue_inner prepare store insert_row
    mark_published
loaded_relayed = refl

every_claim_counted_example :
    one_published.claimed
    ≡ one_published.published + one_published.failed + one_published.stale + one_published.missing
every_claim_counted_example =
    every_claim_counted cycle relay loaded.rows one_published loaded_relayed

abbrev two_rows : DispatcherConfig
two_rows = record { poll_interval = 1; max_consecutive_panicking_rows = 2 }

poison_row_never_trips_example :
    (run_cycles two_rows (panic_of 7 ∷ panic_of 7 ∷ panic_of 7 ∷ []) []).0 ≡ false
poison_row_never_trips_example =
    poison_row_never_trips two_rows 7 (panic_of 7 ∷ panic_of 7 ∷ panic_of 7 ∷ []) [] (omega arith)
      (inr refl, (inr refl, (inr refl, tt))) (inl refl)

two_new_rows : AreNew [] (7 ∷ 8 ∷ [])
unfolding exists_where
two_new_rows = (refl, (refl, tt))

distinct_rows_trip_example : (run_cycles two_rows (panics (7 ∷ 8 ∷ [])) []).0 ≡ true
distinct_rows_trip_example =
    distinct_rows_trip two_rows (7 ∷ 8 ∷ []) [] two_new_rows (omega arith) (omega arith)
