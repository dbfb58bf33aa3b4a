-- ===== src/Cargo/Shift/Invariant.antt =====
-- What every reachable state of the shift satisfies.
use system_programming_homew.Prelude.{
  ℕ, zero, suc, ◌+◌, ◌*◌, ◌<◌, ◌≡◌, ◌≢◌, true, false, ◌⊎◌, inl, inr, List, arith, some, length, set,
  get_elem?, sum_of,
}
use system_programming_homew.Cargo.Queue.{Order, OrderQueue, size_mod, queue_size}
use system_programming_homew.Cargo.Queue.Laws.{IsValid, queue_pop-IsValid}
use system_programming_homew.Cargo.Shift.{
  start, asleep, delivering, recorded, over, Courier, Shift, move_to, take_order, record_delivery,
  finish_delivery, cancel_loop, cancel_pending_orders_after_sigint, Step, take, spurious, deliver,
  finish, cancel, new_couriers, Reach, opened, later,
}
use system_programming_homew.Cargo.Shift.Counting.{
  carries, is_active, sleeps, count_of, time_of, broadcast-Same, sleeps-broadcast, replaced,
}

abbrev pub waiting : Shift → List Order
waiting s = s.pending_order_queue.head

pub record Inv (total : ℕ) (s : Shift) : Type 0 where
  pub valid : IsValid s.pending_order_queue
  pub small : length (waiting s) < size_mod
  -- every order is completed, cancelled, queued or in one courier's hands
  pub conserved :
      s.total_completed_orders
        + s.total_cancelled_orders
        + length (waiting s)
        + sum_of carries s.couriers
      ≡ total
  pub active : s.active_delivery_count ≡ sum_of is_active s.couriers
  pub counts : sum_of count_of s.couriers ≡ s.total_completed_orders
  pub times : sum_of time_of s.couriers ≡ s.total_completed_delivery_time
  pub drained : s.shift_stopping ≡ true → length (waiting s) ≡ 0
  -- whoever sleeps has a reason to, so nobody missed a wake-up
  pub rested :
      (sum_of sleeps s.couriers ≡ 0)
      ⊎ ((s.shift_stopping ≡ false) × (length (waiting s) ≡ 0) × (s.active_delivery_count ≢ 0))

queue_size-length :
    (q : OrderQueue) → IsValid q → length q.head < size_mod → queue_size q ≡ length q.head
unfolding queue_size
queue_size-length q v h = omega (arith, v.counted)

module _ {total : ℕ} {s : Shift} (inv : Inv total s) (i : ℕ) (c : Courier)
    (here : get_elem? s.couriers i ≡ some c) where
  spurious-Inv :
      c.pc ≡ asleep → Inv total (record s { couriers = set s.couriers i (move_to c start) })
  spurious-Inv at = ground (arith, replaced s.couriers i c (move_to c start) here)

  record_delivery-Inv : (o : Order) → c.pc ≡ delivering o → Inv total (record_delivery s i c o)
  unfolding record_delivery
  record_delivery-Inv o at = ground (
    arith,
    replaced s.couriers i c
        (record {
          pc = recorded o;
          delivered_order_count = c.delivered_order_count + 1;
          delivered_time_ms = c.delivered_time_ms + o.duration_units * 500;
        })
        here,
  )

  finish_delivery-Inv : (o : Order) → c.pc ≡ recorded o → Inv total (finish_delivery s i c)
  unfolding finish_delivery
  finish_delivery-Inv o at = ground (
    arith,
    replaced s.couriers i c (move_to c start) here,
    broadcast-Same (set s.couriers i (move_to c start)),
    sleeps-broadcast (set s.couriers i (move_to c start)),
    queue_size-length s.pending_order_queue inv.valid inv.small,
  )

  take_order-Inv : c.pc ≡ start → Inv total (take_order s i c)
  unfolding take_order
  take_order-Inv at = elim (queue_pop-IsValid s.pending_order_queue inv.valid) [
    | inl (e, p) ↦ ground (
      arith,
      replaced s.couriers i c (move_to c asleep) here,
      replaced s.couriers i c (move_to c over) here,
      broadcast-Same (set s.couriers i (move_to c over)),
      sleeps-broadcast (set s.couriers i (move_to c over)),
      queue_size-length s.pending_order_queue inv.valid inv.small,
    )
    | inr (o, q, p, e, best, v) ↦ ground (
      arith,
      replaced s.couriers i c (move_to c asleep) here,
      replaced s.couriers i c (move_to c over) here,
      replaced s.couriers i c (move_to c (delivering o)) here,
      queue_size-length s.pending_order_queue inv.valid inv.small,
    )
  ]

-- The cancelling loop counts every order that waits, and leaves none.
cancel_loop-all :
    (fuel : ℕ) (q : OrderQueue) (n : ℕ)
    → IsValid q
    → length q.head < fuel
    → IsValid (cancel_loop fuel q n).0
      × (length (cancel_loop fuel q n).0.head ≡ 0)
      × ((cancel_loop fuel q n).1 ≡ n + length q.head)
unfolding cancel_loop
cancel_loop-all zero q n v h = elim h [ ]
cancel_loop-all (suc fuel) q n v h = elim (queue_pop-IsValid q v) [
  | inl (e, p) ↦ rw (p, cancel_loop) (ground arith)
  | inr (o, r, p, e, best, w) ↦
      rw (p, cancel_loop) (ground (arith, cancel_loop-all fuel r (n + 1) w))
]

cancel-Inv :
    {total : ℕ} {s : Shift} → Inv total s → Inv total (cancel_pending_orders_after_sigint s)
unfolding cancel_pending_orders_after_sigint
cancel-Inv {s = s} inv = ground (
  arith,
  cancel_loop-all (suc (length s.pending_order_queue.head)) s.pending_order_queue
      s.total_cancelled_orders inv.valid,
  broadcast-Same s.couriers,
  sleeps-broadcast s.couriers,
)

pub Step-Inv : {total : ℕ} {s t : Shift} → Inv total s → Step s t → Inv total t
Step-Inv inv (take i c here at e) = rw e (take_order-Inv inv i c here at)
Step-Inv inv (spurious i c here at e) = rw e (spurious-Inv inv i c here at)
Step-Inv inv (deliver i c o here at e) = rw e (record_delivery-Inv inv i c here o at)
Step-Inv inv (finish i c o here at e) = rw e (finish_delivery-Inv inv i c here o at)
Step-Inv inv (cancel e) = rw e (cancel-Inv inv)

new_couriers-idle :
    (n : ℕ)
    → (sum_of carries (new_couriers n) ≡ 0)
      × (sum_of is_active (new_couriers n) ≡ 0)
      × (sum_of count_of (new_couriers n) ≡ 0)
      × (sum_of time_of (new_couriers n) ≡ 0)
      × (sum_of sleeps (new_couriers n) ≡ 0)
new_couriers-idle zero = omega arith
new_couriers-idle (suc n) = omega (arith, new_couriers-idle n)

pub Reach-Inv :
    {queue : OrderQueue} {n : ℕ} {s : Shift}
    → IsValid queue
    → length queue.head < size_mod
    → Reach queue n s
    → Inv (length queue.head) s
Reach-Inv {queue} {n} v small opened = ground (arith, new_couriers-idle n)
Reach-Inv v small (later r st) = Step-Inv (Reach-Inv v small r) st
