-- ===== src/Cargo/Shift/Tests.antt =====
-- A shift of HW5 with one order and two couriers: one delivers, the other sleeps meanwhile.
use system_programming_homew.Prelude.{
  ℕ, ◌+◌, ◌<◌, ◌≡◌, ◌≢◌, refl, true, false, [], ◌∷◌, arith, some, codes, length, get_elem?, sum_of,
}
use system_programming_homew.Cargo.Queue.{
  Order, OrderQueue, priority_express, size_mod, queue_size, queue_pop,
}
use system_programming_homew.Cargo.Queue.Laws.{IsValid}
use system_programming_homew.Cargo.Shift.{
  start, asleep, delivering, recorded, Courier, Shift, take_order, record_delivery, finish_delivery,
  shift_is_running, take, deliver, finish, new_courier, Reach, opened, later, ShiftSummary,
  write_summary_file,
}
use system_programming_homew.Cargo.Shift.Counting.{carries, is_active, count_of, time_of}
use system_programming_homew.Cargo.Shift.Invariant.{waiting}
use system_programming_homew.Cargo.Shift.Safety.{
  orders_conserved, shift_end_complete, no_lost_wakeup,
}

abbrev parcel : Order
parcel = record {
  id = 3;
  recipient = codes "luna";
  priority = priority_express;
  duration_units = 4;
}

abbrev one_order : OrderQueue
one_order = record { head = parcel ∷ []; size = 1 }

one_order-IsValid : IsValid one_order
one_order-IsValid = record { sorted = (tt, tt); counted = refl }

one_order-fits : length one_order.head < size_mod
one_order-fits = omega arith

abbrev busy_courier : Courier
busy_courier = record { pc = delivering parcel; delivered_order_count = 0; delivered_time_ms = 0 }

abbrev sleeping_courier : Courier
sleeping_courier = record { pc = asleep; delivered_order_count = 0; delivered_time_ms = 0 }

abbrev paid_courier : Courier
paid_courier = record { pc = recorded parcel; delivered_order_count = 1; delivered_time_ms = 2000 }

-- The first courier has the order; the second sleeps.
abbrev one_asleep : Shift
one_asleep = record {
  pending_order_queue = record { head = []; size = 0 };
  shift_stopping = false;
  active_delivery_count = 1;
  total_completed_orders = 0;
  total_cancelled_orders = 0;
  total_completed_delivery_time = 0;
  couriers = busy_courier ∷ sleeping_courier ∷ [];
}

one_asleep-Reach : Reach one_order 2 one_asleep
unfolding take_order queue_size queue_pop
one_asleep-Reach =
    later (later opened (take 0 new_courier refl refl refl)) (take 1 new_courier refl refl refl)

-- The order is delivered, and the shift stops.
abbrev all_done : Shift
all_done = record {
  pending_order_queue = record { head = []; size = 0 };
  shift_stopping = true;
  active_delivery_count = 0;
  total_completed_orders = 1;
  total_cancelled_orders = 0;
  total_completed_delivery_time = 2000;
  couriers =
      record { pc = start; delivered_order_count = 1; delivered_time_ms = 2000 } ∷ new_courier ∷ [];
}

all_done-Reach : Reach one_order 2 all_done
unfolding record_delivery finish_delivery queue_size
all_done-Reach =
    later (later one_asleep-Reach (deliver 0 busy_courier parcel refl refl refl))
      (finish 0 paid_courier parcel refl refl refl)

all_done-over : shift_is_running all_done ≡ false
unfolding shift_is_running
all_done-over = refl

abbrev all_done_summary : ShiftSummary
all_done_summary = record {
  total_orders = 1;
  completed = 1;
  cancelled = 0;
  total_time = 2000;
  avg_per_order = 2000;
  courier_stats = (1, 2000) ∷ (0, 0) ∷ [];
}

all_done-written : write_summary_file true (length one_order.head) all_done ≡ some all_done_summary
unfolding write_summary_file
all_done-written = refl

orders_conserved_example :
    (all_done.total_completed_orders
        + all_done.total_cancelled_orders
        + length (waiting all_done)
        + sum_of carries all_done.couriers
      ≡ length one_order.head)
    × (all_done.active_delivery_count ≡ sum_of is_active all_done.couriers)
    × (sum_of count_of all_done.couriers ≡ all_done.total_completed_orders)
    × (sum_of time_of all_done.couriers ≡ all_done.total_completed_delivery_time)
orders_conserved_example = orders_conserved one_order-IsValid one_order-fits all_done-Reach

shift_end_complete_example :
    (all_done.total_completed_orders + all_done.total_cancelled_orders ≡ length one_order.head)
    × (length (waiting all_done) ≡ 0)
    × (sum_of carries all_done.couriers ≡ 0)
shift_end_complete_example =
    shift_end_complete one_order-IsValid one_order-fits all_done-Reach all_done-over

no_lost_wakeup_example :
    (one_asleep.shift_stopping ≡ false)
    × (length (waiting one_asleep) ≡ 0)
    × ((j : ℕ) × (d : Courier) × (get_elem? one_asleep.couriers j ≡ some d) × (is_active d ≢ 0))
no_lost_wakeup_example =
    no_lost_wakeup one_order-IsValid one_order-fits one_asleep-Reach 1 sleeping_courier refl refl
