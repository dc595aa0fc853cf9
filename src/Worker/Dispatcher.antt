-- ===== src/Worker/Dispatcher.antt =====
-- crates/kafkaman-worker/src/dispatcher.rs: what `run_dispatcher` makes of the result of each cycle.
-- The set of rows in the panic streak is a list without repetitions.
use kafkaman.Base.{
  ℕ, Bool, true, false, Option, none, some, List, [], ◌∷◌, ltb, leb, ◌==◌, length, if◌then◌else◌,
}
use kafkaman.Base.Table.{exists_where}
use kafkaman.Core.Config.{DispatcherConfig}
use kafkaman.Failure.{Result, ok, err}
use kafkaman.Dispatch.{DispatchStats}

-- How the loop goes on after a cycle: at once, after the poll interval, or not, with the error
-- `ConsecutivePanickingRowLimitExceeded`, which names the row of the last panic.
pub data Turn : Type 0 where
  again : Turn
  sleep : Turn
  tripped : Option ℕ → Turn

-- `BTreeSet::insert`.
unfoldable pub insert : ℕ → List ℕ → List ℕ
unfolding exists_where
insert m rows = if exists_where (λ k. k == m) rows then rows else m ∷ rows

-- A panic that names no row leaves the streak; the debug assertion of the source is for tests.
unfoldable pub note_panicking_row : List ℕ → DispatchStats → List ℕ
note_panicking_row streak stats = elim stats.panicked_message_id [
  | none ↦ streak
  | some message_id ↦ insert message_id streak
]

abbrev pub check_limit : DispatcherConfig → DispatchStats → Turn → List ℕ → Turn × List ℕ
check_limit cfg stats turn streak = (
  if leb cfg.max_consecutive_panicking_rows (length streak)
      then tripped stats.panicked_message_id
      else turn,
  streak,
)

-- A claimed row that got through ends the streak; a failed or an empty cycle does not.
unfoldable pub after_cycle : DispatcherConfig → Result DispatchStats → List ℕ → Turn × List ℕ
unfolding note_panicking_row
after_cycle cfg (err e) streak = (sleep, streak)
after_cycle cfg (ok stats) streak =
    let turn = if ltb 0 stats.claimed then again else sleep in
    if ltb 0 stats.panicked
    then check_limit cfg stats turn (note_panicking_row streak stats)
    else (turn, if ltb 0 stats.claimed then [] else streak)

-- The cycles of a dispatcher that is not shut down: whether it stopped, and the streak.
abbrev pub go_on : Turn × List ℕ → (List ℕ → Bool × List ℕ) → Bool × List ℕ
go_on (tripped m, streak) rest = (true, streak)
go_on (again, streak) rest = rest streak
go_on (sleep, streak) rest = rest streak

unfoldable pub run_cycles : DispatcherConfig → List (Result DispatchStats) → List ℕ → Bool × List ℕ
unfolding after_cycle
run_cycles cfg [] streak = (false, streak)
run_cycles cfg (r ∷ results) streak =
    go_on (after_cycle cfg r streak) (λ streak'. run_cycles cfg results streak')
