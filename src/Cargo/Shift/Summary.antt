-- ===== src/Cargo/Shift/Summary.antt =====
-- The summary file at the end of a shift (`write_summary_file` of HW5/main.c).
use system_programming_homew.Prelude.{
  ℕ, ◌+◌, ◌*◌, ◌≤◌, ◌<◌, ◌≡◌, refl, true, false, List, [], ◌∷◌, arith, some, length, sum_of,
}
use system_programming_homew.Cargo.Queue.{OrderQueue, size_mod}
use system_programming_homew.Cargo.Queue.Laws.{IsValid}
use system_programming_homew.Cargo.Shift.{
  Courier, Shift, ShiftSummary, courier_stats_of, write_summary_file, shift_is_running, Reach,
}
use system_programming_homew.Cargo.Shift.Counting.{count_of, time_of}
use system_programming_homew.Cargo.Shift.Safety.{orders_conserved, shift_end_complete}

stats-sums :
    (cs : List Courier)
    → (sum_of (λ p. p.0) (courier_stats_of cs) ≡ sum_of count_of cs)
      × (sum_of (λ p. p.1) (courier_stats_of cs) ≡ sum_of time_of cs)
unfolding courier_stats_of
stats-sums [] = (refl, refl)
stats-sums (c ∷ cs) = omega (arith, stats-sums cs)

-- The summary written after the wait adds up: completed and cancelled orders make up the total, the
-- couriers' counts and times add up to the totals, and the average is the total time divided by the
-- completed orders, rounded down, or 0 if none was completed.
pub summary_adds_up :
    {queue : OrderQueue} {n : ℕ} {s : Shift} {m : ShiftSummary}
    → IsValid queue
    → length queue.head < size_mod
    → Reach queue n s
    → shift_is_running s ≡ false
    → write_summary_file true (length queue.head) s ≡ some m
    → (m.completed + m.cancelled ≡ m.total_orders)
      × (sum_of (λ p. p.0) m.courier_stats ≡ m.completed)
      × (sum_of (λ p. p.1) m.courier_stats ≡ m.total_time)
      × (m.completed ≡ 0 → m.avg_per_order ≡ 0)
      × (m.avg_per_order * m.completed ≤ m.total_time)
      × (0 < m.completed → m.total_time < m.avg_per_order * m.completed + m.completed)
unfolding write_summary_file
summary_adds_up {s = s} {m = m} v small r over e =
    let ended = shift_end_complete v small r over in
    let kept = orders_conserved v small r in let sums = stats-sums s.couriers in grind arith
