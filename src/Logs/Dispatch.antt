-- ===== src/Logs/Dispatch.antt =====
-- HW4/dispatcher.c: the routing of the entries that the readers send.
-- What the dispatcher pushes into a region is a list, in order: that the regions pass it on so is
-- the queues' part.
pub mod Counts
pub mod Routing
mod Tests
use system_programming_homew.Prelude.{
  ℕ, zero, suc, ◌+◌, Bool, true, false, not, ◌&&◌, ◌||◌, ◌==◌, ltb, leb, if◌then◌else◌, List, [],
  ◌∷◌, ◌++◌, Str, str_eq, take,
}
use system_programming_homew.Logs.Entry.{LogEntry}

-- What the dispatcher reads of `program_options_t`.
pub record Options : Type 0 where
  pub num_files : ℕ
  pub priority_sources : List Str

pub record Dispatcher : Type 0 where
  pub eof_seen : ℕ → ℕ
  pub eof_posted : ℕ → Bool
  pub finished_levels : ℕ
  pub region_b : ℕ → List LogEntry
  pub region_d : List LogEntry
  pub dispatcher_done : Bool

abbrev pub dispatcher_init : Dispatcher
dispatcher_init = record {
  eof_seen = λ l. 0;
  eof_posted = λ l. false;
  finished_levels = 0;
  region_b = λ l. [];
  region_d = [];
  dispatcher_done = false;
}

abbrev pub put_at : {A : Type 0} → (ℕ → A) → ℕ → A → ℕ → A
put_at f i a j = if i == j then a else f j

listed : List Str → Str → Bool
listed [] source = false
listed (name ∷ names) source = str_eq name source || listed names source

pub source_is_priority : Options → Str → Bool
unfolding listed
source_is_priority opts source = listed opts.priority_sources source

-- An EOF marker.
pub count_eof : Options → Dispatcher → ℕ → Dispatcher
count_eof opts d level =
    let seen = d.eof_seen level + 1 in
    if (seen == opts.num_files) && not (d.eof_posted level)
    then record d {
      eof_seen = put_at d.eof_seen level seen;
      eof_posted = put_at d.eof_posted level true;
      finished_levels = d.finished_levels + 1;
    }
    else record d { eof_seen = put_at d.eof_seen level seen }

pub route : Options → Dispatcher → LogEntry → Dispatcher
unfolding source_is_priority
route opts d e = record d {
  region_b = put_at d.region_b e.level_index (d.region_b e.level_index ++ e ∷ []);
  region_d = if source_is_priority opts e.source then d.region_d ++ e ∷ [] else d.region_d;
}

-- One round of the loop with an entry.
pub dispatch : Options → Dispatcher → LogEntry → Dispatcher
unfolding count_eof route
dispatch opts d e = if e.is_eof then count_eof opts d e.level_index else route opts d e

-- What `pop_region_a` returns in turn: an entry, or a time-out. Between a time-out and the check of
-- the counters behind it the readers may push; the number says how many entries they push.
pub data Arrival : Type 0 where
  arrives : LogEntry → Arrival
  times_out : ℕ → Arrival

unfoldable pub entries_of : List Arrival → List LogEntry
entries_of [] = []
entries_of (arrives e ∷ rest) = e ∷ entries_of rest
entries_of (times_out late ∷ rest) = entries_of rest

-- The EOF markers of one level: `eof_count_per_level`, over what was pushed.
pub eofs : ℕ → List LogEntry → ℕ
eofs l [] = 0
eofs l (e ∷ es) = if e.is_eof && (e.level_index == l) then suc (eofs l es) else eofs l es

-- `all_done` at a time-out, with `late` in Region A. `total_readers` is the number of files.
unfoldable pub all_done : Options → Dispatcher → List LogEntry → Bool
unfolding eofs
all_done opts d late =
    leb opts.num_files (d.eof_seen 0 + eofs 0 late)
    && (leb opts.num_files (d.eof_seen 1 + eofs 1 late)
        && (leb opts.num_files (d.eof_seen 2 + eofs 2 late)
            && leb opts.num_files (d.eof_seen 3 + eofs 3 late)))

-- The loop over what Region A gives, and the entries that it leaves there.
pub dispatch_all : Options → Dispatcher → List Arrival → Dispatcher × List LogEntry
unfolding dispatch entries_of all_done
dispatch_all opts d [] = (d, [])
dispatch_all opts d (arrives e ∷ rest) =
    let further = dispatch_all opts (dispatch opts d e) rest in
    if ltb d.finished_levels 4 then further else (d, e ∷ entries_of rest)
dispatch_all opts d (times_out late ∷ rest) =
    let further = dispatch_all opts d rest in
    if ltb d.finished_levels 4 && not (all_done opts d (take late (entries_of rest)))
    then further
    else (d, entries_of rest)

unfoldable pub run_dispatcher_process : Options → List Arrival → Dispatcher × List LogEntry
unfolding dispatch_all
run_dispatcher_process opts arrivals =
    let (d, rest) = dispatch_all opts dispatcher_init arrivals in
    (record d { dispatcher_done = true }, rest)
