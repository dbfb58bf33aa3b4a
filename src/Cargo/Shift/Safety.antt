-- ===== src/Cargo/Shift/Safety.antt =====
-- What the company can rely on, in every order of the threads' steps.
use system_programming_homew.Prelude.{
  ℕ, zero, suc, ◌+◌, ◌≤◌, ◌<◌, ◌≡◌, ◌≢◌, false, List, [], ◌∷◌, arith, some, length, get_elem?,
  sum_of,
}
use system_programming_homew.Cargo.Queue.{OrderQueue, size_mod}
use system_programming_homew.Cargo.Queue.Laws.{IsValid}
use system_programming_homew.Cargo.Shift.{asleep, Courier, Shift, shift_is_running, Reach}
use system_programming_homew.Cargo.Shift.Counting.{
  carries, is_active, sleeps, count_of, time_of, sum_of-ne_zero,
}
use system_programming_homew.Cargo.Shift.Invariant.{waiting, Reach-Inv}

-- The sum of one entry is at least that entry.
le-sum_of :
    (w : Courier → ℕ) (cs : List Courier) (i : ℕ) (c : Courier)
    → get_elem? cs i ≡ some c
    → w c ≤ sum_of w cs
le-sum_of w [] i c h = ground arith
le-sum_of w (x ∷ cs) zero c h = ground arith
le-sum_of w (x ∷ cs) (suc i) c h = omega (arith, le-sum_of w cs i c h)

carries-le-active : (cs : List Courier) → sum_of carries cs ≤ sum_of is_active cs
carries-le-active [] = omega arith
carries-le-active (c ∷ cs) = ground (arith, carries-le-active cs)

module _ {queue : OrderQueue} {n : ℕ} {s : Shift} (ordered : IsValid queue)
    (small : length queue.head < size_mod) (reached : Reach queue n s) where
  -- In every state that the threads can reach, each loaded order is completed, cancelled, queued or
  -- in one courier's hands; the counter of active deliveries is the number of couriers between
  -- their two critical sections; and the couriers' statistics add up to the atomic totals.
  pub orders_conserved :
      (s.total_completed_orders
          + s.total_cancelled_orders
          + length (waiting s)
          + sum_of carries s.couriers
        ≡ length queue.head)
      × (s.active_delivery_count ≡ sum_of is_active s.couriers)
      × (sum_of count_of s.couriers ≡ s.total_completed_orders)
      × (sum_of time_of s.couriers ≡ s.total_completed_delivery_time)
  orders_conserved =
      let inv = Reach-Inv ordered small reached in
      (inv.conserved, inv.active, inv.counts, inv.times)

  -- When the main thread stops waiting, no order is left over: each one was completed or cancelled.
  pub shift_end_complete :
      shift_is_running s ≡ false
      → (s.total_completed_orders + s.total_cancelled_orders ≡ length queue.head)
        × (length (waiting s) ≡ 0)
        × (sum_of carries s.couriers ≡ 0)
  unfolding shift_is_running
  shift_end_complete h =
      let inv = Reach-Inv ordered small reached in ground (arith, carries-le-active s.couriers)

  -- No wake-up is lost: while a courier sleeps, no order waits, the shift is not stopping, and some
  -- other courier is between its critical sections and will take the lock again.
  pub no_lost_wakeup :
      (i : ℕ) (c : Courier)
      → get_elem? s.couriers i ≡ some c
      → c.pc ≡ asleep
      → (s.shift_stopping ≡ false)
        × (length (waiting s) ≡ 0)
        × ((j : ℕ) × (d : Courier) × (get_elem? s.couriers j ≡ some d) × (is_active d ≢ 0))
  no_lost_wakeup i c here at =
      let inv = Reach-Inv ordered small reached in
      let one = le-sum_of sleeps s.couriers i c here in
      (ground arith, ground arith, sum_of-ne_zero is_active s.couriers (ground arith))
