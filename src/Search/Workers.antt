-- ===== src/Search/Workers.antt =====
-- HW2/worker.c and main.c: the walks over directories, the division of the work among the workers,
-- and what the parent does itself.
-- SIGTERM may reach a worker before any of its tests of `g_sigterm_received`: `left` is the number of
-- tests that come before the signal. No path of the tree needs more than the 4096 bytes of
-- `fullpath`, where the code does not look.
pub mod Walks
pub mod Alone
pub mod Division
pub mod Coverage
mod Tests
use system_programming_homew.Prelude.{
  ℕ, zero, suc, ◌+◌, ◌-◌, ◌%◌, Bool, true, false, not, ◌&&◌, ◌||◌, ◌==◌, ltb, leb, if◌then◌else◌,
  List, [], ◌∷◌, ◌++◌, Str, Option, none, some, length, set, get_or, replicate, take, map, sum_of,
}
use system_programming_homew.Search.Pattern.{match_pattern}
use system_programming_homew.Search.Tree.{
  Stat, Node, unreadable, present, Listing, ended, entry, is_dir, is_reg, is_dots, join,
}

-- `none` for a `min_size` below 0.
pub record Options : Type 0 where
  pub pattern : Str
  pub min_size : Option ℕ

-- What a process notes of a file that it has found. Its own `pid` is the same for all of its matches.
pub record Match : Type 0 where
  pub path : Str
  pub size : ℕ

abbrev pub max_matches : ℕ
max_matches = 4096

abbrev pub max_subdirs : ℕ
max_subdirs = 512

-- `sizeof(fullpath)`
abbrev pub path_room : ℕ
path_room = 4096

abbrev pub too_small : Option ℕ → ℕ → Bool
too_small none size = false
too_small (some min_size) size = ltb size min_size

-- A regular file that is large enough and has a name of the pattern.
pub is_wanted : Options → Str → Stat → Bool
is_wanted o name stat =
    is_reg stat.mode && not (too_small o.min_size stat.size) && match_pattern o.pattern name

pub record Worker : Type 0 where
  pub left : ℕ
  pub matches : List Match

-- A test of the flag that the signal has not set yet, and what follows it.
abbrev pub unless_stopped : (Worker → Worker) → Worker → Worker
unless_stopped go w = elim w.left [ zero ↦ w | suc n ↦ go (record w { left = n }) ]

abbrev pub add_match : Str → Stat → Worker → Worker
add_match path stat w = record w {
  matches = w.matches ++ record { path = path; size = stat.size } ∷ [];
}

-- The loop of `search_dir`, and its body for one entry.
unfoldable mutual
  unfolding is_dots is_wanted

  pub search_entries : Options → Str → Listing → Worker → Worker
  search_entries o path ended w = w
  search_entries o path (entry name node rest) w =
      unless_stopped (λ v. search_entries o path rest (search_entry o (join path name) name node v))
        w

  pub search_entry : Options → Str → Str → Node → Worker → Worker
  search_entry o path name unreadable w = w
  search_entry o path name (present stat sub) w =
      let inside = unless_stopped (search_entries o path sub) w in
      if is_dots name || not (ltb (length path) path_room)
      then w
      else if is_dir stat.mode
      then inside
      else if is_wanted o name stat
      then add_match path stat w
      else w

pub search_dir : Options → Str → Listing → Worker → Worker
unfolding search_entries
search_dir o path listing w = unless_stopped (search_entries o path listing) w

pub record Subdir : Type 0 where
  pub path : Str
  pub listing : Listing

pub run_worker : Options → List Subdir → Worker → Worker
unfolding search_dir
run_worker o [] w = w
run_worker o (d ∷ dirs) w =
    unless_stopped (λ v. run_worker o dirs (search_dir o d.path d.listing v)) w

-- What the parent learns of the number of matches.
pub exit_code : Worker → ℕ
exit_code w = length w.matches % 256

-- The parent's own search.
abbrev pub add_entry : Str → Stat → List Match → List Match
add_entry path stat ms =
    if ltb (length ms) max_matches then ms ++ record { path = path; size = stat.size } ∷ [] else ms

unfoldable mutual
  unfolding is_dots is_wanted

  pub collect_matches : Options → Str → Listing → List Match → List Match
  collect_matches o path ended ms = ms
  collect_matches o path (entry name node rest) ms =
      collect_matches o path rest (collect_entry o (join path name) name node ms)

  pub collect_entry : Options → Str → Str → Node → List Match → List Match
  collect_entry o path name unreadable ms = ms
  collect_entry o path name (present stat sub) ms =
      let inside = collect_matches o path sub ms in
      if is_dots name
      then ms
      else if is_dir stat.mode
      then inside
      else if is_wanted o name stat
      then add_entry path stat ms
      else ms

unfoldable mutual
  unfolding is_dots

  pub count_total_files : Listing → ℕ
  count_total_files ended = 0
  count_total_files (entry name node rest) = count_entry name node + count_total_files rest

  pub count_entry : Str → Node → ℕ
  count_entry name unreadable = 0
  count_entry name (present stat sub) =
      let inside = count_total_files sub in
      if is_dots name
      then 0
      else if is_dir stat.mode
      then inside
      else if is_reg stat.mode
      then 1
      else 0

-- The directories in the root, at most `room` of them.
pub find_subdirs : ℕ → Str → Listing → List Subdir
unfolding is_dots
find_subdirs room root ended = []
find_subdirs zero root (entry name node rest) = []
find_subdirs (suc room) root (entry name unreadable rest) = find_subdirs (suc room) root rest
find_subdirs (suc room) root (entry name (present stat sub) rest) =
    if not (is_dots name) && is_dir stat.mode
    then record { path = join root name; listing = sub } ∷ find_subdirs room root rest
    else find_subdirs (suc room) root rest

-- The subdirectories from the `i`-th on, dealt to the workers in turn.
pub deal : ℕ → ℕ → List Subdir → List (List Subdir) → List (List Subdir)
deal num_workers i [] wdirs = wdirs
deal num_workers i (d ∷ subdirs) wdirs =
    let w = i % num_workers in
    deal num_workers (suc i) subdirs (set wdirs w (get_or wdirs w [] ++ d ∷ []))

-- No more workers than subdirectories.
abbrev pub workers_used : ℕ → ℕ → ℕ
workers_used num_workers num_subdirs =
    if ltb num_subdirs num_workers then num_subdirs else num_workers

pub divide : ℕ → List Subdir → List (List Subdir)
unfolding deal
divide num_workers subdirs =
    let n = workers_used num_workers (length subdirs) in deal n 0 subdirs (replicate n [])
