-- ===== src/Logs/Dispatch/Tests.antt =====
-- One reader of HW4 and one priority source.
use system_programming_homew.Prelude.{ℕ, ◌≡◌, Bool, true, false, List, [], ◌∷◌, Str, codes, refl}
use system_programming_homew.Logs.Entry.{LogEntry}
use system_programming_homew.Logs.Dispatch.{
  Options, Arrival, arrives, times_out, entries_of, all_done, run_dispatcher_process,
}

abbrev entry_of : ℕ → Str → Bool → LogEntry
entry_of level source is_eof = record {
  timestamp = [];
  level = [];
  source = source;
  message = [];
  level_index = level;
  is_eof = is_eof;
  reader_id = 0;
}

abbrev options : Options
options = record { num_files = 1; priority_sources = codes "db" ∷ [] }

abbrev arrivals : List Arrival
arrivals =
    arrives (entry_of 1 (codes "db") false)
    ∷ times_out 1
    ∷ arrives (entry_of 3 (codes "ui") false)
    ∷ arrives (entry_of 0 [] true)
    ∷ arrives (entry_of 1 [] true)
    ∷ arrives (entry_of 2 [] true)
    ∷ arrives (entry_of 3 [] true)
    ∷ []

-- The readers push everything between a time-out and its check: an entry stays in Region A, and no
-- level is posted as ended.
abbrev late_arrivals : List Arrival
late_arrivals =
    times_out 5
    ∷ arrives (entry_of 3 (codes "ui") false)
    ∷ arrives (entry_of 0 [] true)
    ∷ arrives (entry_of 1 [] true)
    ∷ arrives (entry_of 2 [] true)
    ∷ arrives (entry_of 3 [] true)
    ∷ []

time_out_leaves :
    let (d, left) = run_dispatcher_process options late_arrivals in
    (left ≡ entries_of late_arrivals) × (d.eof_posted 3 ≡ false)
unfolding run_dispatcher_process entries_of all_done
time_out_leaves = (refl, refl)
