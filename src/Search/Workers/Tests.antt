-- ===== src/Search/Workers/Tests.antt =====
-- HW2's search over a root with one file and two directories.
use mathlib.Core.List.{Perm}
use system_programming_homew.Prelude.{
  ◌<◌, ◌≤◌, ◌≡◌, refl, List, [], ◌∷◌, ◌++◌, Str, codes, some, length, take, arith,
}
use system_programming_homew.Search.Tree.{
  is_dots, Stat, present, Listing, ended, entry, entries_below,
}
use system_programming_homew.Search.Workers.{
  Options, Match, Worker, Subdir, max_matches, max_subdirs, run_worker, collect_matches,
  count_total_files, divide, find_subdirs,
}
use system_programming_homew.Search.Workers.Walks.{
  wanted, wanted_in, tests_in, tests_below, fits, run_worker-exact,
}
use system_programming_homew.Search.Workers.Alone.{any_path, regular_files, alone-exact}
use system_programming_homew.Search.Workers.Division.{flatten}
use system_programming_homew.Search.Workers.Coverage.{
  all_subdirs, direct, run_workers, workers_cover,
}

abbrev file_stat : Stat
file_stat = record { mode = 33188; size = 10; nlink = 1 }

abbrev dir_stat : Stat
dir_stat = record { mode = 16877; size = 4096; nlink = 2 }

abbrev one_file : Str → Listing
one_file name = entry name (present file_stat ended) ended

abbrev root_listing : Listing
root_listing = entry (codes "a.c") (present file_stat ended) (
    entry (codes "x") (present dir_stat (one_file (codes "a.c")))
      (entry (codes "y") (present dir_stat (one_file (codes "b.c"))) ended))

abbrev options : Options
options = record { pattern = codes "a"; min_size = some 1 }

abbrev x_dir : Subdir
x_dir = record { path = codes "r/x"; listing = one_file (codes "a.c") }

abbrev y_dir : Subdir
y_dir = record { path = codes "r/y"; listing = one_file (codes "b.c") }

abbrev fresh_worker : Worker
fresh_worker = record { left = 9; matches = [] }

finds_subdirs : find_subdirs max_subdirs (codes "r") root_listing ≡ x_dir ∷ y_dir ∷ []
unfolding find_subdirs
finds_subdirs = refl

run_worker-exact_example :
    ((rest : List Match) × ((run_worker options (x_dir ∷ y_dir ∷ []) fresh_worker).matches ++ rest
        ≡ fresh_worker.matches ++ wanted_in options (x_dir ∷ y_dir ∷ [])))
    × (tests_in (x_dir ∷ y_dir ∷ []) < fresh_worker.left
        → (run_worker options (x_dir ∷ y_dir ∷ []) fresh_worker).matches
          ≡ fresh_worker.matches ++ wanted_in options (x_dir ∷ y_dir ∷ []))
run_worker-exact_example = run_worker-exact options (x_dir ∷ y_dir ∷ []) fresh_worker

alone-exact_example :
    (collect_matches options (codes "r") root_listing []
      ≡ take max_matches (wanted options (entries_below any_path 1 (codes "r") root_listing)))
    × (count_total_files root_listing
        ≡ length (regular_files (entries_below any_path 1 (codes "r") root_listing)))
alone-exact_example = alone-exact options (codes "r") root_listing

few_dirs : length (all_subdirs (codes "r") root_listing) ≤ max_subdirs
unfolding is_dots
few_dirs = omega arith

few_tests : tests_in (all_subdirs (codes "r") root_listing) < 9
unfolding tests_below is_dots
few_tests = omega arith

workers_cover_example :
    Perm
      (flatten
          (run_workers options 9 (divide 2 (find_subdirs max_subdirs (codes "r") root_listing)))
        ++ wanted options (direct (entries_below fits 1 (codes "r") root_listing)))
      (wanted options (entries_below fits 1 (codes "r") root_listing))
workers_cover_example =
    workers_cover options 2 (codes "r") root_listing 9 (omega arith) few_dirs few_tests
