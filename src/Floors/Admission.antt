-- ===== src/Floors/Admission.antt =====
-- HW3/word_carrier.c and `try_complete_word` of shared_memory.c: the words that wait, and the places
-- for words on the floors.
-- The word carriers are a list of processes, each with the point of its loop at which it stands. A
-- step is what a process does under `global_mutex`, under the locks of two floors, or under the
-- mutex of a word. The semaphores that only wake a process are not kept: a process may run whenever
-- it can.
pub mod Invariant
pub mod Steps
pub mod Capacity
pub mod Words
mod Tests
use system_programming_homew.Prelude.{
  ℕ, zero, suc, ◌+◌, ◌-◌, ◌%◌, ◌≡◌, Bool, true, false, not, ◌&&◌, ◌||◌, ◌==◌, ltb, if◌then◌else◌,
  Option, none, some, List, [], ◌∷◌, set, get_elem?, length,
}
use system_programming_homew.Floors.Word.{
  update, SharedWord, deliver_char, claim_char, sort_pass, all_fixed,
}

-- Where a word carrier stands: before the scan; with a word claimed; with its own floor and the
-- word's sorting floor `sf` asked for room.
pub data Pc : Type 0 where
  scanning : Pc
  claiming : ℕ → Pc
  decided : ℕ → ℕ → Bool → Pc

pub record WordCarrier : Type 0 where
  pub floor : ℕ
  pub admissions : ℕ
  pub retries : ℕ
  pub pc : Pc

pub record SharedState : Type 0 where
  pub words : List SharedWord
  pub active_words : ℕ → ℕ  -- of each floor
  pub max_words_per_floor : ℕ
  pub rr_cursor : ℕ
  pub retries : ℕ
  pub completed_words : ℕ
  pub wcarriers : List WordCarrier

-- Is there a word at the index, for nobody yet?
pub is_open : List SharedWord → ℕ → Bool
is_open words i = elim (get_elem? words i) [
  | none ↦ false
  | some w ↦ not w.claimed && not w.admitted && not w.completed
]

-- The round-robin scan, over `n` words from the `seen`-th on.
pub claim_scan : List SharedWord → ℕ → ℕ → ℕ → Option ℕ
unfolding is_open
claim_scan words rr_cursor zero seen = none
claim_scan words rr_cursor (suc n) seen =
    let later = claim_scan words rr_cursor n (suc seen) in
    let idx = (rr_cursor + seen) % length words in if is_open words idx then some idx else later

-- The scan finds the word `w` at `idx`.
pub claim_at : SharedState → ℕ → WordCarrier → ℕ → SharedWord → SharedState
claim_at s slot c idx w = record s {
  words = set s.words idx (record w { claimed = true; claim_owner = some slot });
  rr_cursor = (idx + 1) % length s.words;
  wcarriers = set s.wcarriers slot (record c { pc = claiming idx });
}

-- Under `global_mutex`. Without a word to claim the carrier waits and scans again.
unfoldable pub claim_word : SharedState → ℕ → WordCarrier → SharedState
unfolding claim_scan claim_at
claim_word s slot c = elim (claim_scan s.words s.rr_cursor (length s.words) 0) [
  | none ↦ s
  | some idx ↦ elim (get_elem? s.words idx) [ none ↦ s | some w ↦ claim_at s slot c idx w ]
]

-- One more word on both floors, which may be the same.
pub add_to_floors : (ℕ → ℕ) → ℕ → ℕ → ℕ → ℕ
add_to_floors active af sf =
    let at_arrival = update active af (active af + 1) in
    if af == sf then at_arrival else update at_arrival sf (at_arrival sf + 1)

pub take_from_floors : (ℕ → ℕ) → ℕ → ℕ → ℕ → ℕ
take_from_floors active af sf =
    let at_arrival = update active af (active af - 1) in
    if sf == af then at_arrival else update at_arrival sf (at_arrival sf - 1)

pub has_room : SharedState → ℕ → ℕ → Bool
has_room s af sf =
    ltb (s.active_words af) s.max_words_per_floor
    && ((af == sf) || ltb (s.active_words sf) s.max_words_per_floor)

-- Under the locks of both floors: room on both, or on neither is a place taken.
unfoldable pub reserve_floors : SharedState → ℕ → WordCarrier → ℕ → SharedWord → SharedState
unfolding has_room add_to_floors
reserve_floors s slot c idx w =
    let ok = has_room s c.floor w.sorting_floor in
    record s {
      active_words =
          if ok then add_to_floors s.active_words c.floor w.sorting_floor else s.active_words;
      wcarriers = set s.wcarriers slot (record c { pc = decided idx w.sorting_floor ok });
    }

-- Under the word's mutex: the word is admitted, or free to be claimed again.
unfoldable pub admit_or_release :
    SharedState → ℕ → WordCarrier → ℕ → SharedWord → Bool → SharedState
admit_or_release s slot c idx w true = record s {
  words =
      set s.words idx
        (record w { admitted = true; arrival_floor = c.floor; active_reservation = true });
  wcarriers = set s.wcarriers slot (record c { pc = scanning; admissions = c.admissions + 1 });
}
admit_or_release s slot c idx w false = record s {
  words = set s.words idx (record w { claimed = false; claim_owner = none });
  retries = s.retries + 1;
  wcarriers = set s.wcarriers slot (record c { pc = scanning; retries = c.retries + 1 });
}

pub complete_word : SharedState → ℕ → SharedWord → SharedState
unfolding take_from_floors
complete_word s wi w = record s {
  words = set s.words wi (record w { completed = true; active_reservation = false });
  active_words =
      if w.active_reservation
      then take_from_floors s.active_words w.arrival_floor w.sorting_floor
      else s.active_words;
  completed_words = s.completed_words + 1;
}

-- Under the word's mutex; the second result says that the word has just been completed.
pub try_complete_word : SharedState → ℕ → SharedWord → SharedState × Bool
unfolding complete_word
try_complete_word s wi w =
    if not (all_fixed w)
    then (s, false)
    else if w.completed
    then (s, false)
    else (complete_word s wi w, true)

-- What `sorter_loop` does with a word of its floor under the word's locks.
pub sort_word : SharedState → ℕ → SharedWord → SharedState
unfolding try_complete_word
sort_word s wi w =
    let w' = (sort_pass w).0 in (try_complete_word (record s { words = set s.words wi w' }) wi w').0

unfoldable pub with_word : SharedState → ℕ → SharedWord → SharedState
with_word s wi w = record s { words = set s.words wi w }

-- The steps of the word carriers, the sorters, the letter carriers and the delivery elevator.
pub data Step (s : SharedState) (t : SharedState) : Type 0 where
  claim :
      (slot : ℕ) (c : WordCarrier)
      → get_elem? s.wcarriers slot ≡ some c
      → c.pc ≡ scanning
      → t ≡ claim_word s slot c
      → Step s t
  reserve :
      (slot : ℕ) (c : WordCarrier) (idx : ℕ) (w : SharedWord)
      → get_elem? s.wcarriers slot ≡ some c
      → c.pc ≡ claiming idx
      → get_elem? s.words idx ≡ some w
      → t ≡ reserve_floors s slot c idx w
      → Step s t
  admit :
      (slot : ℕ) (c : WordCarrier) (idx sf : ℕ) (w : SharedWord) (ok : Bool)
      → get_elem? s.wcarriers slot ≡ some c
      → c.pc ≡ decided idx sf ok
      → get_elem? s.words idx ≡ some w
      → t ≡ admit_or_release s slot c idx w ok
      → Step s t
  sort :
      (wi : ℕ) (w : SharedWord)
      → get_elem? s.words wi ≡ some w
      → w.admitted ≡ true
      → w.completed ≡ false
      → t ≡ sort_word s wi w
      → Step s t
  pick :
      (wi : ℕ) (w : SharedWord) (floor : ℕ) (draw : ℕ → ℕ)
      → get_elem? s.words wi ≡ some w
      → t ≡ with_word s wi (claim_char w floor draw).0
      → Step s t
  deliver :
      (wi : ℕ) (w : SharedWord) (ci : ℕ)
      → get_elem? s.words wi ≡ some w
      → t ≡ with_word s wi (deliver_char w ci).0
      → Step s t

-- The state in which `main` starts the processes: the words just loaded, the carriers scanning.
pub record Start (s : SharedState) : Type 0 where
  pub fresh :
      (i : ℕ) (w : SharedWord)
      → get_elem? s.words i ≡ some w
      → (w.claimed ≡ false)
        × (w.admitted ≡ false)
        × (w.completed ≡ false)
        × (w.active_reservation ≡ false)
  pub ready : (i : ℕ) (c : WordCarrier) → get_elem? s.wcarriers i ≡ some c → c.pc ≡ scanning
  pub empty : (f : ℕ) → s.active_words f ≡ 0
  pub none_done : s.completed_words ≡ 0

pub data Reach (s : SharedState) : SharedState → Type 0 where
  started : Reach s s
  later : {t u : SharedState} → Reach s t → Step t u → Reach s u
