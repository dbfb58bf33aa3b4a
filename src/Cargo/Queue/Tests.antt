-- ===== src/Cargo/Queue/Tests.antt =====
-- Runs of HW5's queue on small queues.
use mathlib.Core.List.{Perm}
use system_programming_homew.Prelude.{
  ℕ, suc, ◌+◌, ◌<◌, ◌≡◌, refl, true, false, ◌⊎◌, [], ◌∷◌, none, some, Str, codes, length, All,
}
use system_programming_homew.Cargo.Queue.{
  Priority, priority_express, priority_standard, priority_economy, Order, OrderQueue, size_mod,
  queue_init, insert_order, queue_push, queue_pop, queue_size, queue_clear, priority_to_string,
  parse_priority,
}
use system_programming_homew.Cargo.Queue.Ranking.{IsSorted}
use system_programming_homew.Cargo.Queue.Laws.{
  IsValid, Precedes, queue_push-IsValid, queue_pop-IsValid,
}

abbrev order_of : ℕ → Str → Priority → Order
order_of id recipient priority = record {
  id = id;
  recipient = recipient;
  priority = priority;
  duration_units = 2;
}

abbrev slow_order : Order
slow_order = order_of 1 (codes "ron") priority_economy

abbrev fast_order : Order
fast_order = order_of 7 (codes "luna") priority_express

abbrev same_fast_order : Order
same_fast_order = order_of 7 (codes "draco") priority_express

abbrev two_orders : OrderQueue
two_orders = record { head = fast_order ∷ slow_order ∷ []; size = 2 }

two_orders-IsSorted : IsSorted two_orders.head
unfolding system_programming_homew.Cargo.Queue.order_has_higher_priority
two_orders-IsSorted = ((refl, tt), (tt, tt))

two_orders-IsValid : IsValid two_orders
two_orders-IsValid = record { sorted = two_orders-IsSorted; counted = refl }

queue_push-IsValid_example :
    (queue_push false two_orders same_fast_order ≡ none)
    × ((q' : OrderQueue) × (queue_push true two_orders same_fast_order ≡ some q')
        × IsValid q'
        × Perm q'.head (same_fast_order ∷ two_orders.head)
        × (suc (length two_orders.head) < size_mod → queue_size q' ≡ queue_size two_orders + 1))
queue_push-IsValid_example = queue_push-IsValid two_orders same_fast_order two_orders-IsValid

queue_pop-IsValid_example :
    ((two_orders.head ≡ []) × (queue_pop two_orders ≡ none))
    ⊎ ((o : Order) × (q' : OrderQueue) × (queue_pop two_orders ≡ some (o, q'))
        × (two_orders.head ≡ o ∷ q'.head)
        × All (Precedes o) q'.head
        × IsValid q')
queue_pop-IsValid_example = queue_pop-IsValid two_orders two_orders-IsValid
