-- ===== src/Logs/Scores/Tests.antt =====
-- HW4's analyser of one level with one thread and one entry.
use mathlib.Core.List.{Perm}
use system_programming_homew.Prelude.{
  ℕ, ◌+◌, ◌≡◌, ◌<◌, refl, false, List, [], ◌∷◌, ◌++◌, codes, length, sum_of, sum_below, arith,
}
use system_programming_homew.Logs.Entry.{LogEntry}
use system_programming_homew.Logs.Top.{score_entries}
use system_programming_homew.Logs.Scores.{
  Worker, Analysis, works, scored, at_barrier, keyword_score, credit_source, credit, score_next,
  stands_at, exit_thread, score, stop, exit, Reach, started, later,
}
use system_programming_homew.Logs.Dispatch.{
  all_done, entries_of, Arrival, arrives, times_out, Options, run_dispatcher_process,
}
use system_programming_homew.Logs.Dispatch.Counts.{of_level, of_priority}
use system_programming_homew.Logs.Summary.{aggregate_high_priority}
use system_programming_homew.Logs.Summary.Pipeline.{entry_score, pipeline_counts}
use system_programming_homew.Logs.Scores.Totals.{totals_exact}
use system_programming_homew.Logs.Scores.Invariant.{Fresh}

abbrev one_entry : LogEntry
one_entry = record {
  timestamp = [];
  level = codes "WARN";
  source = codes "db";
  message = codes "disk disk";
  level_index = 1;
  is_eof = false;
  reader_id = 0;
}

abbrev idle_worker : Worker
idle_worker = record { entries = 0; scores = λ k. 0; stand = works }

abbrev start : Analysis
start = record {
  keywords = codes "disk" ∷ [];
  level = 1;
  queue = one_entry ∷ [];
  workers = idle_worker ∷ [];
  sources = [];
  result = record {
    total_entries = 0;
    total_weighted_score = 0;
    per_keyword_score = λ k. 0;
    per_thread_score = λ i. 0;
  };
}

abbrev busy_worker : Worker
busy_worker = record {
  entries = 1;
  scores = λ k. 0 + keyword_score (codes "disk" ∷ []) 1 k one_entry;
  stand = scored one_entry;
}

abbrev taken : Analysis
taken = score_next start 0 idle_worker one_entry []

abbrev credited : Analysis
credited = credit_source taken 0 busy_worker one_entry

abbrev stopped : Analysis
stopped = stands_at credited 0 (record busy_worker { stand = works }) at_barrier

abbrev left : Analysis
left = exit_thread stopped 0 (record busy_worker { stand = at_barrier })

start-Fresh : Fresh start
start-Fresh = record {
  idle = ((refl, λ k. refl, refl), tt);
  no_sources = refl;
  no_entries = refl;
  no_total = refl;
  no_keyword = λ k. refl;
  no_thread = λ i. refl;
}

left-Reach : Reach start left
unfolding score_next credit_source
left-Reach =
    later
      (later
        (later (later started (score 0 idle_worker one_entry [] refl refl refl refl))
          (credit 0 busy_worker one_entry refl refl refl))
        (stop 0 (record busy_worker { stand = works }) refl refl refl refl))
      (exit 0 (record busy_worker { stand = at_barrier }) refl refl (refl, tt) refl)

totals_exact_example :
    (left.result.total_entries ≡ length start.queue)
    × ((k : ℕ)
        → k < length start.keywords
        → left.result.per_keyword_score k
          ≡ sum_of (keyword_score start.keywords start.level k) start.queue)
    × (left.result.total_weighted_score
        ≡ sum_below left.result.per_keyword_score (length start.keywords))
    × (sum_below left.result.per_thread_score (length left.workers)
        ≡ left.result.total_weighted_score)
    × ((order : List LogEntry) × Perm order start.queue
        × (left.sources ≡ score_entries start.keywords start.level order []))
unfolding score_next credit_source exit_thread
totals_exact_example = totals_exact start-Fresh left-Reach (omega arith) (refl, tt)

abbrev options : Options
options = record { num_files = 1; priority_sources = codes "db" ∷ [] }

abbrev one_arrival : List Arrival
one_arrival = times_out 0 ∷ arrives one_entry ∷ []

one_arrival-routed : start.queue ≡ (run_dispatcher_process options one_arrival).0.region_b 1
unfolding run_dispatcher_process all_done
one_arrival-routed = refl

pipeline_counts_example :
    let r =
      aggregate_high_priority
        (codes "disk" ∷ [])
        (run_dispatcher_process options one_arrival).0.region_d
        (record { high_priority_score = 0; high_priority_entries = 0 }) in
    (done : List LogEntry) × (entries_of one_arrival
      ≡ done ++ (run_dispatcher_process options one_arrival).1)
    × (left.result.total_entries ≡ length (of_level 1 done))
    × (r.high_priority_entries ≡ length (of_priority options done))
    × (r.high_priority_score ≡ sum_of (entry_score (codes "disk" ∷ [])) (of_priority options done))
unfolding score_next credit_source exit_thread entries_of
pipeline_counts_example =
    pipeline_counts options (codes "disk" ∷ []) one_arrival 1 start left (omega arith)
      (omega arith, tt) start-Fresh one_arrival-routed left-Reach (omega arith) (refl, tt)
