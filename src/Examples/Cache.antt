-- ===== src/Examples/Cache.antt =====
-- The cache at concrete records.
use mathlib.Core.List.{Memᴰ}
use kafkaman.Base.{ℕ, String, none, some, false, List, [], ◌∷◌, ◌≡◌, refl, ap, sym, ◌∙◌}
use kafkaman.Base.Int.{pos, pos_part, ◌≤ℤ◌}
use kafkaman.Base.Table.{All-mem, select_where}
use kafkaman.Received.{ReceivedRow}
use kafkaman.Cache.{Cache, CacheRow, CacheRun, state_of, put, upsert}
use kafkaman.Cache.Origin.{quiet, put-same}
use kafkaman.Cache.Guard.{IsGuarded, Entered, upsert-IsGuarded, offset_never_falls}
use kafkaman.Cache.Migration.{IsMoved, is_home, stragglers_ignored}
use kafkaman.Cache.Convergence.{
  IsLog, IsOf, IsConsistent, IsAmong, IsConverged, apply_all, view, converged, order_independent,
}
use kafkaman.Examples.{record_of}

abbrev empty : Cache ℕ
empty k = none

abbrev entry : ℕ → ℕ × ReceivedRow ℕ
entry n = (n, record_of "orders" (pos 0) n)

abbrev in_order : List (ℕ × ReceivedRow ℕ)
in_order = entry 3 ∷ entry 2 ∷ []

abbrev shuffled : List (ℕ × ReceivedRow ℕ)
shuffled = entry 2 ∷ entry 3 ∷ entry 2 ∷ []

home : {n : ℕ} → IsOf "orders" (pos 0) (record_of "orders" (pos 0) n)
home = record { topic_is = refl; partition_is = refl }

in_order-IsLog : IsLog "orders" (pos 0) in_order
in_order-IsLog t s m = All-mem (λ x. IsOf "orders" (pos 0) x.1) (home, (home, tt)) m

shuffled-IsLog : IsLog "orders" (pos 0) shuffled
shuffled-IsLog t s m = All-mem (λ x. IsOf "orders" (pos 0) x.1) (home, (home, (home, tt))) m

-- The payload of each record of the list is its offset.
shuffled-numbered :
    (t : ℕ) (s : ReceivedRow ℕ) → Memᴰ (t, s) shuffled → s.source_offset ≡ pos s.payload
shuffled-numbered t s m =
    All-mem (λ x. x.1.source_offset ≡ pos x.1.payload) (refl, (refl, (refl, tt))) m

shuffled-IsConsistent : IsConsistent shuffled
shuffled-IsConsistent t u r s m n e =
    ap pos_part (sym (shuffled-numbered t r m) ∙ e ∙ shuffled-numbered u s n)

in_order-IsAmong : IsAmong in_order shuffled
in_order-IsAmong t s m =
    All-mem (λ x. (u : ℕ) × Memᴰ (u, x.1) shuffled)
      ((3, Memᴰ.tail (Memᴰ.head refl)), ((2, Memᴰ.head refl), tt)) m

shuffled-IsAmong : IsAmong shuffled in_order
shuffled-IsAmong t s m =
    All-mem (λ x. (u : ℕ) × Memᴰ (u, x.1) in_order)
      (
        (2, Memᴰ.tail (Memᴰ.head refl)),
        ((3, Memᴰ.head refl), ((2, Memᴰ.tail (Memᴰ.head refl)), tt)),
      )
      m

order_independent_example :
    view (apply_all "orders" "order-1" in_order empty "order-1")
    ≡ view (apply_all "orders" "order-1" shuffled empty "order-1")
order_independent_example =
    order_independent "orders" "orders" "order-1" (pos 0) in_order shuffled empty in_order-IsLog
      shuffled-IsLog shuffled-IsConsistent in_order-IsAmong shuffled-IsAmong refl

converged_example :
    (c : CacheRow ℕ) × (apply_all "orders" "order-1" in_order empty "order-1" ≡ some c)
    × IsConverged "orders" (pos 0) in_order c
converged_example =
    converged "orders" "orders" "order-1" (pos 0) 3 (record_of "orders" (pos 0) 3) (entry 2 ∷ [])
      empty in_order-IsLog refl

abbrev moved : Cache ℕ
moved = put "order-1" (state_of 5 (record_of "orders" (pos 0) 5) false) empty

moved-IsMoved : IsMoved "orders" "order-1" moved
unfolding state_of
moved-IsMoved = (state_of 5 (record_of "orders" (pos 0) 5) false, put-same "order-1" _ empty, refl)

abbrev mixed : List (ℕ × ReceivedRow ℕ)
mixed = (8, record_of "orders-v1" (pos 2) 90) ∷ entry 6 ∷ []

stragglers_ignored_example :
    (apply_all "orders" "order-1" mixed moved
      ≡ apply_all "orders" "order-1" (select_where (is_home "orders" "order-1") mixed) moved)
    × IsMoved "orders" "order-1" (apply_all "orders" "order-1" mixed moved)
stragglers_ignored_example = stragglers_ignored "orders" "order-1" mixed moved moved-IsMoved

-- Another session publishes a newer state between the upsert and the classification.
abbrev raced : CacheRun ℕ
raced = record (quiet 9) { before_classify = λ cache. moved }

upsert-IsGuarded_example :
    IsGuarded raced "orders"
      (record_of "orders" (pos 0) 4)
      "order-1"
      moved
      (upsert raced "orders" (record_of "orders" (pos 0) 4) "order-1" moved)
upsert-IsGuarded_example =
    upsert-IsGuarded raced "orders" (record_of "orders" (pos 0) 4) "order-1" moved

offset_never_falls_example :
    (b : Cache ℕ) × Entered raced moved b
    × ((k : String) (c c' : CacheRow ℕ)
        → b k ≡ some c
        → (upsert raced "orders" (record_of "orders" (pos 0) 6) "order-1" moved).1 k ≡ some c'
        → c.applied_topic ≡ c'.applied_topic
        → c.applied_partition ≡ c'.applied_partition
        → c.applied_offset ≤ℤ c'.applied_offset)
offset_never_falls_example =
    offset_never_falls raced "orders" (record_of "orders" (pos 0) 6) "order-1" moved
