-- ===== src/Worker/Breaker.antt =====
-- The panic breaker of dispatcher.rs: it counts rows, not panics.
use kafkaman.Base.{
  ℕ, suc, ◌+◌, ◌≤◌, ◌<◌, Bool, true, false, none, some, List, [], ◌∷◌, ◌≡◌, refl, ◌⊎◌, inl, inr,
  arith, ltb, leb, ◌==◌, length, All, if◌then◌else◌, if_elim, Bool-cases, ap, ◌∙◌,
}
use kafkaman.Base.Table.{exists_where}
use kafkaman.Core.Config.{DispatcherConfig}
use kafkaman.Failure.{Result, ok, err}
use kafkaman.Dispatch.{DispatchStats}
use kafkaman.Worker.Dispatcher.{
  go_on, check_limit, insert, note_panicking_row, after_cycle, run_cycles, Turn, again, sleep,
  tripped,
}

-- A cycle in which, if a row panicked, it was this one.
abbrev pub PanicsOnly : ℕ → Result DispatchStats → Type 0
PanicsOnly m (err e) = Unit
PanicsOnly m (ok stats) = (stats.panicked_message_id ≡ none) ⊎ (stats.panicked_message_id ≡ some m)

abbrev IsAlone : ℕ → List ℕ → Type 0
IsAlone m streak = (streak ≡ []) ⊎ (streak ≡ m ∷ [])

note-IsAlone :
    (m : ℕ) (streak : List ℕ) (stats : DispatchStats)
    → IsAlone m streak
    → PanicsOnly m (ok stats)
    → IsAlone m (note_panicking_row streak stats)
unfolding note_panicking_row insert exists_where
note-IsAlone m streak stats i (inl e) = rw e i
note-IsAlone m streak stats (inl s) (inr e) = rw (e, s) (inr refl)
note-IsAlone m streak stats (inr s) (inr e) =
    let same : (m == m) ≡ true = ground arith in rw (e, s, same) (inr refl)

length-IsAlone : (m : ℕ) (streak : List ℕ) → IsAlone m streak → length streak ≤ 1
length-IsAlone m streak (inl e) = rw e (omega arith)
length-IsAlone m streak (inr e) = rw e (omega arith)

abbrev is_tripped : Turn → Bool
is_tripped (tripped m) = true
is_tripped again = false
is_tripped sleep = false

go_on-running :
    (p : Turn × List ℕ) (rest : List ℕ → Bool × List ℕ)
    → is_tripped p.0 ≡ false
    → go_on p rest ≡ rest p.1
go_on-running (tripped m, streak) rest h = absurd (cc h)
go_on-running (again, streak) rest h = refl
go_on-running (sleep, streak) rest h = refl

go_on-tripped :
    (p : Turn × List ℕ) (rest : List ℕ → Bool × List ℕ)
    → is_tripped p.0 ≡ true
    → (go_on p rest).0 ≡ true
go_on-tripped (tripped m, streak) rest h = refl
go_on-tripped (again, streak) rest h = absurd (cc h)
go_on-tripped (sleep, streak) rest h = absurd (cc h)

-- A cycle that goes on, with one row in the streak at most.
abbrev GoesOnAlone : ℕ → Turn × List ℕ → Type 0
GoesOnAlone m p = (is_tripped p.0 ≡ false) × IsAlone m p.1

turn-running : (b : Bool) → is_tripped (if b then again else sleep) ≡ false
turn-running true = refl
turn-running false = refl

check_limit-alone :
    (cfg : DispatcherConfig) (m : ℕ) (stats : DispatchStats) (turn : Turn) (streak : List ℕ)
    → 2 ≤ cfg.max_consecutive_panicking_rows
    → is_tripped turn ≡ false
    → IsAlone m streak
    → GoesOnAlone m (check_limit cfg stats turn streak)
check_limit-alone cfg m stats turn streak h t i =
    let under : leb cfg.max_consecutive_panicking_rows (length streak) ≡ false =
      ground (arith, length-IsAlone m streak i) in
    (rw under t, i)

after_cycle-alone :
    (cfg : DispatcherConfig) (m : ℕ) (r : Result DispatchStats) (streak : List ℕ)
    → 2 ≤ cfg.max_consecutive_panicking_rows
    → PanicsOnly m r
    → IsAlone m streak
    → GoesOnAlone m (after_cycle cfg r streak)
unfolding after_cycle
after_cycle-alone cfg m (err e) streak h only i = (refl, i)
after_cycle-alone cfg m (ok stats) streak h only i =
    if_elim (GoesOnAlone m) (ltb 0 stats.panicked)
      (λ p.
        check_limit-alone cfg m stats _ _ h (turn-running (ltb 0 stats.claimed))
          (note-IsAlone m streak stats i only))
      (λ p. (
        turn-running (ltb 0 stats.claimed),
        if_elim (IsAlone m) (ltb 0 stats.claimed) (λ c. inl refl) (λ c. i),
      ))

-- A single poison row never stops the dispatcher, however often it panics, where the limit is two
-- rows or more: with only this row panicking, no sequence of cycles trips the breaker.
pub poison_row_never_trips :
    (cfg : DispatcherConfig) (m : ℕ) (results : List (Result DispatchStats)) (streak : List ℕ)
    → 2 ≤ cfg.max_consecutive_panicking_rows
    → All (PanicsOnly m) results
    → (streak ≡ []) ⊎ (streak ≡ m ∷ [])
    → (run_cycles cfg results streak).0 ≡ false
unfolding run_cycles
poison_row_never_trips cfg m [] streak h only i = refl
poison_row_never_trips cfg m (r ∷ results) streak h only i =
    let (running, alone) = after_cycle-alone cfg m r streak h only.0 i in
    ap (λ p. p.0) (go_on-running (after_cycle cfg r streak) (run_cycles cfg results) running)
    ∙ poison_row_never_trips cfg m results (after_cycle cfg r streak).1 h only.1 alone

-- The cycle of a row that panicked.
abbrev pub panic_of : ℕ → Result DispatchStats
panic_of m =
    ok (record {
      claimed = 1;
      processed = 0;
      failed = 1;
      panicked = 1;
      panicked_message_id = some m;
    })

abbrev pub NotIn : List ℕ → ℕ → Type 0
NotIn rows m = exists_where (λ k. k == m) rows ≡ false

-- Each row of the list is new to the streak and to the rows before it.
abbrev pub AreNew : List ℕ → List ℕ → Type 0
AreNew streak [] = Unit
AreNew streak (m ∷ ms) = NotIn streak m × AreNew (m ∷ streak) ms

abbrev pub panics : List ℕ → List (Result DispatchStats)
panics [] = []
panics (m ∷ ms) = panic_of m ∷ panics ms

-- Cycles in which as many distinct rows panic as the limit says, one after the other, stop the
-- dispatcher.
pub distinct_rows_trip :
    (cfg : DispatcherConfig) (ms streak : List ℕ)
    → AreNew streak ms
    → length streak < cfg.max_consecutive_panicking_rows
    → cfg.max_consecutive_panicking_rows ≤ length streak + length ms
    → (run_cycles cfg (panics ms) streak).0 ≡ true
unfolding run_cycles after_cycle note_panicking_row insert
distinct_rows_trip cfg [] streak new u h = absurd (omega arith)
distinct_rows_trip cfg (m ∷ ms) streak new u h =
    elim (Bool-cases (leb cfg.max_consecutive_panicking_rows (suc (length streak)))) [
      | inl e ↦ rw (new.0, e) refl
      | inr e ↦
          rw (new.0, e) (distinct_rows_trip cfg ms (m ∷ streak) new.1 (ground arith) (ground arith))
    ]
