-- ===== src/Logs/Scores.antt =====
-- HW4/analyzer.c: the worker threads of one level, their scores and what the destructor of their
-- thread-local scores adds to the level's result. Weighted counts are whole numbers.
-- The entries of the level come in the order of its queue; a thread that waits for one does nothing.
-- Taking an entry and adding to the table of sources are separate critical sections, under two mutexes;
-- what a thread adds to its own scores between them no other thread sees.
pub mod Pending
pub mod Invariant
pub mod Steps
pub mod Totals
mod Tests
use system_programming_homew.Prelude.{
  ℕ, zero, suc, ◌+◌, ◌*◌, ◌≡◌, Bool, true, false, ◌==◌, ltb, if◌then◌else◌, List, [], ◌∷◌, ◌++◌,
  Str, some, get_elem?, get_or, set, length, sum_below, All,
}
use system_programming_homew.Logs.Entry.{LogEntry, level_weight, count_overlapping_keyword}
use system_programming_homew.Logs.Top.{Source, score_entry, update_source_hits}

-- Where a thread stands: at the head of its loop, with an entry whose source has no hits for it yet, at
-- the barrier, or ended, with its scores added.
pub data Stand : Type 0 where
  works : Stand
  scored : LogEntry → Stand
  at_barrier : Stand
  ended : Stand

-- `entries_per_worker` and the thread-local `scores`, one for each keyword.
pub record Worker : Type 0 where
  pub entries : ℕ
  pub scores : ℕ → ℕ
  pub stand : Stand

-- `level_result_t`.
pub record LevelResult : Type 0 where
  pub total_entries : ℕ
  pub total_weighted_score : ℕ
  pub per_keyword_score : ℕ → ℕ
  pub per_thread_score : ℕ → ℕ

pub record Analysis : Type 0 where
  pub keywords : List Str
  pub level : ℕ
  pub queue : List LogEntry
  pub workers : List Worker
  pub sources : List Source
  pub result : LevelResult

-- The weighted matches of the `k`-th keyword in an entry.
pub keyword_score : List Str → ℕ → ℕ → LogEntry → ℕ
keyword_score keywords level k e =
    if ltb k (length keywords)
    then count_overlapping_keyword e.message (get_or keywords k []) * level_weight level
    else 0

-- A thread takes the next entry and scores it.
pub score_next : Analysis → ℕ → Worker → LogEntry → List LogEntry → Analysis
unfolding keyword_score
score_next s i w e rest = record s {
  queue = rest;
  workers = set s.workers i (record {
    entries = w.entries + 1;
    scores = λ k. w.scores k + keyword_score s.keywords s.level k e;
    stand = scored e;
  });
}

-- The call of `update_source_hits`, if the entry has matches.
pub credit_source : Analysis → ℕ → Worker → LogEntry → Analysis
credit_source s i w e =
    let total = score_entry s.keywords s.level e.message in
    record s {
      workers = set s.workers i (record w { stand = works });
      sources = if ltb 0 total then update_source_hits s.sources e.source total else s.sources;
    }

abbrev pub stands_at : Analysis → ℕ → Worker → Stand → Analysis
stands_at s i w stand = record s { workers = set s.workers i (record w { stand = stand }) }

-- `tls_destructor`.
pub add_scores : LevelResult → ℕ → ℕ → Worker → LevelResult
add_scores r num_keywords i w = record {
  total_entries = r.total_entries + w.entries;
  total_weighted_score = r.total_weighted_score + sum_below w.scores num_keywords;
  per_keyword_score =
      λ k. if ltb k num_keywords then r.per_keyword_score k + w.scores k else r.per_keyword_score k;
  per_thread_score = λ j. if j == i then sum_below w.scores num_keywords else r.per_thread_score j;
}

pub exit_thread : Analysis → ℕ → Worker → Analysis
unfolding add_scores
exit_thread s i w = record (stands_at s i w ended) {
  result = add_scores s.result (length s.keywords) i w;
}

abbrev pub has_left : Worker → Bool
has_left w = elim w.stand [ works ↦ false | scored e ↦ false | at_barrier ↦ true | ended ↦ true ]

-- The threads in any order. The queue is empty and closed when a thread goes to the barrier, which
-- opens when all are there.
pub data Step (s : Analysis) (t : Analysis) : Type 0 where
  score :
      (i : ℕ) (w : Worker) (e : LogEntry) (rest : List LogEntry)
      → get_elem? s.workers i ≡ some w
      → w.stand ≡ works
      → s.queue ≡ e ∷ rest
      → t ≡ score_next s i w e rest
      → Step s t
  credit :
      (i : ℕ) (w : Worker) (e : LogEntry)
      → get_elem? s.workers i ≡ some w
      → w.stand ≡ scored e
      → t ≡ credit_source s i w e
      → Step s t
  stop :
      (i : ℕ) (w : Worker)
      → get_elem? s.workers i ≡ some w
      → w.stand ≡ works
      → s.queue ≡ []
      → t ≡ stands_at s i w at_barrier
      → Step s t
  exit :
      (i : ℕ) (w : Worker)
      → get_elem? s.workers i ≡ some w
      → w.stand ≡ at_barrier
      → All (λ v. has_left v ≡ true) s.workers
      → t ≡ exit_thread s i w
      → Step s t

pub data Reach (s : Analysis) : Analysis → Type 0 where
  started : Reach s s
  later : {t u : Analysis} → Reach s t → Step t u → Reach s u
