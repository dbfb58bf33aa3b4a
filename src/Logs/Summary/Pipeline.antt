-- ===== src/Logs/Summary/Pipeline.antt =====
-- HW4's dispatcher, the analyser of a level and the aggregator together.
use system_programming_homew.Prelude.{
  ℕ, ◌+◌, ◌<◌, ◌≤◌, ◌≡◌, ap, ◌∙◌, Bool, not, ◌&&◌, lt→ltb, if◌then◌else◌, List, [], ◌∷◌, ◌++◌, Str,
  length, sum_of, All, arith, Bool-cases, inl, inr,
}
use mathlib.Core.Path.{subst}
use system_programming_homew.Logs.Entry.{LogEntry, max_levels}
use system_programming_homew.Logs.Top.{score_entry}
use system_programming_homew.Logs.Dispatch.{
  Options, Arrival, entries_of, run_dispatcher_process, source_is_priority,
}
use system_programming_homew.Logs.Dispatch.Counts.{of_level, of_priority}
use system_programming_homew.Logs.Dispatch.Routing.{run_dispatcher-routes}
use system_programming_homew.Logs.Scores.{Analysis, ended, Reach}
use system_programming_homew.Logs.Scores.Totals.{totals_exact}
use system_programming_homew.Logs.Scores.Invariant.{Fresh}
use system_programming_homew.Logs.Summary.{HighPriority, aggregate_high_priority}

abbrev pub entry_score : List Str → LogEntry → ℕ
entry_score keywords e = score_entry keywords e.level_index e.message

aggregate_high_priority-sums :
    (keywords : List Str) (es : List LogEntry) (r : HighPriority)
    → All (λ e. e.level_index < max_levels) es
    → ((aggregate_high_priority keywords es r).high_priority_score
        ≡ r.high_priority_score + sum_of (entry_score keywords) es)
      × ((aggregate_high_priority keywords es r).high_priority_entries
          ≡ r.high_priority_entries + length es)
unfolding aggregate_high_priority
aggregate_high_priority-sums keywords [] r h = (omega arith, omega arith)
aggregate_high_priority-sums keywords (e ∷ es) r h =
    let next : HighPriority = record {
      high_priority_score = r.high_priority_score + score_entry keywords e.level_index e.message;
      high_priority_entries = r.high_priority_entries + 1;
    } in
    let (p, q) = aggregate_high_priority-sums keywords es next h.1 in
    let known = lt→ltb e.level_index max_levels h.0 in
    let after : Bool → HighPriority =
      λ b. aggregate_high_priority keywords es (if b then next else r) in
    (
      ap (λ b. (after b).high_priority_score) known ∙ p ∙ (omega arith),
      ap (λ b. (after b).high_priority_entries) known ∙ q ∙ (omega arith),
    )

abbrev AreKnown : List LogEntry → Type 0
AreKnown es = All (λ e. e.level_index < 4) es

front-AreKnown : (xs ys : List LogEntry) → AreKnown (xs ++ ys) → AreKnown xs
front-AreKnown [] ys h = tt
front-AreKnown (x ∷ xs) ys h = (h.0, front-AreKnown xs ys h.1)

of_priority-AreKnown :
    (opts : Options) (es : List LogEntry) → AreKnown es → AreKnown (of_priority opts es)
of_priority-AreKnown opts [] h = tt
of_priority-AreKnown opts (e ∷ es) h =
    elim (Bool-cases (not e.is_eof && source_is_priority opts e.source)) [
      | inl kept ↦ rw kept (h.0, of_priority-AreKnown opts es h.1)
      | inr other ↦ rw other (of_priority-AreKnown opts es h.1)
    ]

-- With a file or more and levels 0 to 3, what the dispatcher reads is a front part of the stream; once all
-- threads of the analyser of a level have ended, its result counts exactly the entries of that level
-- that were read; and the aggregator's score and count are the sums over those of the priority sources.
pub pipeline_counts :
    (opts : Options) (keywords : List Str) (from : List Arrival) (l : ℕ) (s t : Analysis)
    → 1 ≤ opts.num_files
    → All (λ e. e.level_index < 4) (entries_of from)
    → Fresh s
    → s.queue ≡ (run_dispatcher_process opts from).0.region_b l
    → Reach s t
    → 1 ≤ length t.workers
    → All (λ w. w.stand ≡ ended) t.workers
    → let r =
        aggregate_high_priority keywords
          (run_dispatcher_process opts from).0.region_d
          (record { high_priority_score = 0; high_priority_entries = 0 }) in
      (done : List LogEntry) × (entries_of from ≡ done ++ (run_dispatcher_process opts from).1)
      × (t.result.total_entries ≡ length (of_level l done))
      × (r.high_priority_entries ≡ length (of_priority opts done))
      × (r.high_priority_score ≡ sum_of (entry_score keywords) (of_priority opts done))
pipeline_counts opts keywords from l s t some_file levels fresh fed reach some_thread gone =
    let (done, split, per_level, priority, posted, needed, stopped) =
      run_dispatcher-routes opts from some_file levels in
    let below =
      of_priority-AreKnown opts done
        (front-AreKnown done (run_dispatcher_process opts from).1 (subst AreKnown split levels)) in
    let d = (run_dispatcher_process opts from).0 in
    let none_yet : HighPriority = record { high_priority_score = 0; high_priority_entries = 0 } in
    let (score, count) =
      aggregate_high_priority-sums keywords (of_priority opts done) none_yet below in
    (
      done,
      split,
      (totals_exact fresh reach some_thread gone).0 ∙ ap length (fed ∙ per_level l),
      ap (λ q. (aggregate_high_priority keywords q none_yet).high_priority_entries) priority
          ∙ count
          ∙ (omega arith),
      ap (λ q. (aggregate_high_priority keywords q none_yet).high_priority_score) priority
          ∙ score
          ∙ (omega arith),
    )
