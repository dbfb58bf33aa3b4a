-- ===== src/Cargo/Shift.antt =====
-- HW5/main.c: the courier threads, the cancellation after SIGINT and the wait for the shift's end.
-- A critical section under `queue_lock` is one step. Counters are numbers that stay below the
-- number of orders or of couriers, so no `int` of the code overflows before its orders do.
pub mod Counting
pub mod Invariant
pub mod Safety
pub mod Summary
mod Tests
use system_programming_homew.Prelude.{
  ℕ, zero, suc, ◌+◌, ◌-◌, ◌*◌, ◌/◌, ◌<◌, ◌≡◌, Bool, true, false, not, ◌&&◌, ◌||◌, ltb, ◌==◌,
  if◌then◌else◌, List, [], ◌∷◌, map, Option, none, some, length, set, get_elem?,
}
use system_programming_homew.Cargo.Queue.{Order, OrderQueue, queue_pop, queue_size}

abbrev pub delivery_unit_ms : ℕ
delivery_unit_ms = 500

-- Where a courier thread stands in `courier_thread`.
pub data Pc : Type 0 where
  start : Pc  -- at the head of the loop, or woken up and about to test again
  asleep : Pc  -- in `pthread_cond_wait`
  delivering : Order → Pc  -- in `simulate_delivery_time`
  recorded : Order → Pc  -- the statistics are written, the lock is not yet taken again
  over : Pc  -- has returned

-- A thread with its entry of `courier_stats_list`.
pub record Courier : Type 0 where
  pub pc : Pc
  pub delivered_order_count : ℕ
  pub delivered_time_ms : ℕ

pub record Shift : Type 0 where
  pub pending_order_queue : OrderQueue
  pub shift_stopping : Bool
  pub active_delivery_count : ℕ
  pub total_completed_orders : ℕ
  pub total_cancelled_orders : ℕ
  pub total_completed_delivery_time : ℕ
  pub couriers : List Courier

abbrev pub move_to : Courier → Pc → Courier
move_to c p = record c { pc = p }

-- `pthread_cond_broadcast(&courier_wakeup_cond)`
abbrev pub wake_up : Courier → Courier
wake_up c = elim c.pc [ asleep ↦ move_to c start | _ ↦ c ]

abbrev pub broadcast : List Courier → List Courier
broadcast [] = []
broadcast (c ∷ cs) = wake_up c ∷ broadcast cs

-- The branch that leaves the loop, with `shift_stopping` set by the first to find nothing to do.
leave : Shift → ℕ → Courier → Shift
leave s i c =
    if not s.shift_stopping && (s.active_delivery_count == 0)
    then record s {
      shift_stopping = true;
      couriers = broadcast (set s.couriers i (move_to c over));
    }
    else record s { couriers = set s.couriers i (move_to c over) }

pick_up : Shift → ℕ → Courier → Option (Order × OrderQueue) → Shift
unfolding leave
pick_up s i c none = leave s i c
pick_up s i c (some (selected_order, rest)) = record s {
  pending_order_queue = rest;
  active_delivery_count = s.active_delivery_count + 1;
  couriers = set s.couriers i (move_to c (delivering selected_order));
}

-- The first critical section of the loop, from `pthread_mutex_lock` to the wait or the unlock.
pub take_order : Shift → ℕ → Courier → Shift
unfolding pick_up leave
take_order s i c =
    if (queue_size s.pending_order_queue == 0)
      && not s.shift_stopping
      && ltb 0 s.active_delivery_count
    then record s { couriers = set s.couriers i (move_to c asleep) }
    else if s.shift_stopping
    then leave s i c
    else pick_up s i c (queue_pop s.pending_order_queue)

-- The courier's statistics and the atomic totals, between the two critical sections. The three updates
-- are one step: each of them only adds, and nobody reads them before the couriers have ended.
pub record_delivery : Shift → ℕ → Courier → Order → Shift
record_delivery s i c order = record s {
  total_completed_orders = s.total_completed_orders + 1;
  total_completed_delivery_time =
      s.total_completed_delivery_time + order.duration_units * delivery_unit_ms;
  couriers = set s.couriers i (record {
    pc = recorded order;
    delivered_order_count = c.delivered_order_count + 1;
    delivered_time_ms = c.delivered_time_ms + order.duration_units * delivery_unit_ms;
  });
}

-- The second critical section.
pub finish_delivery : Shift → ℕ → Courier → Shift
finish_delivery s i c =
    let active = s.active_delivery_count - 1 in
    let here = set s.couriers i (move_to c start) in
    if ((queue_size s.pending_order_queue == 0) && (active == 0)) || s.shift_stopping
    then record s {
      active_delivery_count = active;
      shift_stopping = true;
      couriers = broadcast here;
    }
    else if ltb 0 (queue_size s.pending_order_queue)
    then record s { active_delivery_count = active; couriers = broadcast here }
    else record s { active_delivery_count = active; couriers = here }

-- `while (queue_pop(...)) atomic_fetch_add(&total_cancelled_orders, 1)` on fuel.
cancel_loop : ℕ → OrderQueue → ℕ → OrderQueue × ℕ
cancel_loop zero queue cancelled = (queue, cancelled)
cancel_loop (suc fuel) queue cancelled = elim (queue_pop queue) [
  | none ↦ (queue, cancelled)
  | some (order, rest) ↦ cancel_loop fuel rest (cancelled + 1)
]

-- The main thread, on SIGINT or when a thread cannot be created.
pub cancel_pending_orders_after_sigint : Shift → Shift
unfolding cancel_loop
cancel_pending_orders_after_sigint s =
    let fuel = suc (length s.pending_order_queue.head) in
    let (queue, cancelled) = cancel_loop fuel s.pending_order_queue s.total_cancelled_orders in
    if s.shift_stopping then s else record s {
      pending_order_queue = queue;
      shift_stopping = true;
      total_cancelled_orders = cancelled;
      couriers = broadcast s.couriers;
    }

-- `wait_for_shift_to_finish` returns where this test fails.
pub shift_is_running : Shift → Bool
shift_is_running s = not s.shift_stopping || ltb 0 s.active_delivery_count

-- The steps of the threads, in any order. A thread may wake up without a signal.
pub data Step (s : Shift) (t : Shift) : Type 0 where
  take :
      (i : ℕ) (c : Courier)
      → get_elem? s.couriers i ≡ some c
      → c.pc ≡ start
      → t ≡ take_order s i c
      → Step s t
  spurious :
      (i : ℕ) (c : Courier)
      → get_elem? s.couriers i ≡ some c
      → c.pc ≡ asleep
      → t ≡ record s { couriers = set s.couriers i (move_to c start) }
      → Step s t
  deliver :
      (i : ℕ) (c : Courier) (o : Order)
      → get_elem? s.couriers i ≡ some c
      → c.pc ≡ delivering o
      → t ≡ record_delivery s i c o
      → Step s t
  finish :
      (i : ℕ) (c : Courier) (o : Order)
      → get_elem? s.couriers i ≡ some c
      → c.pc ≡ recorded o
      → t ≡ finish_delivery s i c
      → Step s t
  cancel : t ≡ cancel_pending_orders_after_sigint s → Step s t

abbrev pub new_courier : Courier
new_courier = record { pc = start; delivered_order_count = 0; delivered_time_ms = 0 }

abbrev pub new_couriers : ℕ → List Courier
new_couriers zero = []
new_couriers (suc n) = new_courier ∷ new_couriers n

-- `main`, with the orders loaded and `num_couriers` threads created.
abbrev pub open_shift : OrderQueue → ℕ → Shift
open_shift queue num_couriers = record {
  pending_order_queue = queue;
  shift_stopping = false;
  active_delivery_count = 0;
  total_completed_orders = 0;
  total_cancelled_orders = 0;
  total_completed_delivery_time = 0;
  couriers = new_couriers num_couriers;
}

pub data Reach (queue : OrderQueue) (num_couriers : ℕ) : Shift → Type 0 where
  opened : Reach queue num_couriers (open_shift queue num_couriers)
  later : {s t : Shift} → Reach queue num_couriers s → Step s t → Reach queue num_couriers t

-- What `write_summary_file` prints.
pub record ShiftSummary : Type 0 where
  pub total_orders : ℕ
  pub completed : ℕ
  pub cancelled : ℕ
  pub total_time : ℕ
  pub avg_per_order : ℕ
  pub courier_stats : List (ℕ × ℕ)

courier_stats_of : List Courier → List (ℕ × ℕ)
courier_stats_of [] = []
courier_stats_of (c ∷ cs) = (c.delivered_order_count, c.delivered_time_ms) ∷ courier_stats_of cs

-- The first argument says whether the file could be opened; `none` is the return value -1.
pub write_summary_file : Bool → ℕ → Shift → Option ShiftSummary
unfolding courier_stats_of
write_summary_file false valid_order_count s = none
write_summary_file true valid_order_count s = some (record {
  total_orders = valid_order_count;
  completed = s.total_completed_orders;
  cancelled = s.total_cancelled_orders;
  total_time = s.total_completed_delivery_time;
  avg_per_order =
      if s.total_completed_orders == 0
      then 0
      else s.total_completed_delivery_time / s.total_completed_orders;
  courier_stats = courier_stats_of s.couriers;
})
