-- ===== src/Logs/Summary.antt =====
-- HW4/aggregator.c: the high-priority score, over the entries of Region D in their order. Waiting for
-- the next entry, with its time limit, is left out: it reads none.
pub mod Pipeline
use system_programming_homew.Prelude.{ℕ, ◌+◌, ltb, if◌then◌else◌, List, [], ◌∷◌, Str}
use system_programming_homew.Logs.Entry.{LogEntry, max_levels}
use system_programming_homew.Logs.Top.{score_entry}

-- The two fields of `region_c_t`.
pub record HighPriority : Type 0 where
  pub high_priority_score : ℕ
  pub high_priority_entries : ℕ

pub aggregate_high_priority : List Str → List LogEntry → HighPriority → HighPriority
aggregate_high_priority keywords [] r = r
aggregate_high_priority keywords (entry ∷ entries) r = aggregate_high_priority keywords entries (
    if ltb entry.level_index max_levels
    then record {
      high_priority_score =
          r.high_priority_score + score_entry keywords entry.level_index entry.message;
      high_priority_entries = r.high_priority_entries + 1;
    }
    else r)
