-- ===== src/Floors/Word.antt =====
-- HW3/hw3.h, shared_memory.c and sorting.c: a word, its characters' delivery and its sorting area.
-- The arrays of `SharedWord` are functions of the index; only indices below `length` are used.
-- A function that the code calls with `w->mutex` held is one step.
pub mod Invariant
pub mod Delivery
pub mod Custody
pub mod Space
pub mod Kept
pub mod Counting
pub mod Progress
mod Tests
use system_programming_homew.Prelude.{
  ℕ, zero, suc, ◌+◌, ◌%◌, Bool, true, false, not, ◌&&◌, ◌||◌, ◌==◌, ltb, if◌then◌else◌, Option,
  none, some, Str, get_or, length,
}

abbrev pub update {ℓ} : {A : Type ℓ} → (ℕ → A) → ℕ → A → ℕ → A
update f i a j = if i == j then a else f j

-- `none` in `sorting_meta` and `claim_owner` is -1.
pub record SharedWord : Type 0 where
  pub word_id : ℕ
  pub sorting_floor : ℕ
  pub arrival_floor : ℕ
  pub len : ℕ  -- the field `length`
  pub claimed : Bool
  pub admitted : Bool
  pub completed : Bool
  pub active_reservation : Bool
  pub claim_owner : Option ℕ
  pub text : Str
  pub sorting_area : ℕ → ℕ
  pub sorting_meta : ℕ → Option ℕ
  pub occupied : ℕ → Bool
  pub fixed : ℕ → Bool
  pub char_claimed : ℕ → Bool
  pub char_delivered : ℕ → Bool
  pub char_in_transit : ℕ → Bool
  pub char_arrived : ℕ → Bool

-- What `load_input` makes of a line with these fields.
abbrev pub new_word : ℕ → Str → ℕ → SharedWord
new_word id word sf = record {
  word_id = id;
  sorting_floor = sf;
  arrival_floor = 0;
  len = length word;
  claimed = false;
  admitted = false;
  completed = false;
  active_reservation = false;
  claim_owner = some 0;
  text = word;
  sorting_area = λ i. 0;
  sorting_meta = λ i. none;
  occupied = λ i. false;
  fixed = λ i. false;
  char_claimed = λ i. false;
  char_delivered = λ i. false;
  char_in_transit = λ i. false;
  char_arrived = λ i. false;
}

-- The loop of `place_char_in_sorting_area` over `n` slots from `i` on.
pub free_slot_from : SharedWord → ℕ → ℕ → Option ℕ
free_slot_from w zero i = none
free_slot_from w (suc n) i =
    let later = free_slot_from w n (suc i) in
    if not (w.fixed i) && not (w.occupied i) then some i else later

pub put_char : SharedWord → ℕ → ℕ → SharedWord
put_char w ci i = record w {
  sorting_area = update w.sorting_area i (get_or w.text ci 0);
  sorting_meta = update w.sorting_meta i (some ci);
  occupied = update w.occupied i true;
  char_arrived = update w.char_arrived ci true;
}

-- The slot taken; `none` is the return value -1. `st->chars_transported` goes up exactly when a slot
-- is taken.
unfoldable pub place_char_in_sorting_area : SharedWord → ℕ → SharedWord × Option ℕ
unfolding free_slot_from put_char
place_char_in_sorting_area w ci = elim (free_slot_from w w.len 0) [
  | none ↦ (w, none)
  | some i ↦ (put_char w ci i, some i)
]

-- The two ends of `deliver_char`.
settle_delivery : ℕ → SharedWord × Option ℕ → SharedWord × Bool
settle_delivery ci (w, some i) = (
  record w {
    char_delivered = update w.char_delivered ci true;
    char_in_transit = update w.char_in_transit ci false;
  },
  true,
)
settle_delivery ci (w, none) = (
  record w {
    char_claimed = update w.char_claimed ci false;
    char_in_transit = update w.char_in_transit ci false;
  },
  false,
)

unfoldable pub deliver_char : SharedWord → ℕ → SharedWord × Bool
unfolding settle_delivery
deliver_char w ci = settle_delivery ci (place_char_in_sorting_area w ci)

-- A letter carrier takes a character: the scan of `letter_carrier_loop` over `n` candidates from the
-- `j`-th on; `draw j` is what `rand_r` gives for it. The test of `admitted` and of the floor stands
-- in `claim_char`.
claim_from : SharedWord → (ℕ → ℕ) → ℕ → ℕ → Option ℕ
claim_from w draw zero j = none
claim_from w draw (suc n) j =
    let later = claim_from w draw n (suc j) in
    let ci = (j + draw j % w.len) % w.len in
    if not (w.char_claimed ci) && not (w.char_delivered ci) && not (w.char_in_transit ci)
    then some ci
    else later

unfoldable pub claim_char : SharedWord → ℕ → (ℕ → ℕ) → SharedWord × Option ℕ
unfolding claim_from
claim_char w floor draw =
    if w.admitted && not w.completed && (w.arrival_floor == floor)
    then elim (claim_from w draw w.len 0) [
      | none ↦ (w, none)
      | some ci ↦ (
        record w {
          char_claimed = update w.char_claimed ci true;
          char_in_transit = update w.char_in_transit ci true;
        },
        some ci,
      )
    ]
    else (w, none)

-- Case 3: the character is where it belongs.
fix_slot : SharedWord → ℕ → SharedWord
fix_slot w i = record w { fixed = update w.fixed i true }

fix_if_home : SharedWord → ℕ → SharedWord
unfolding fix_slot
fix_if_home w i = elim (w.sorting_meta i) [ none ↦ w | some k ↦ if k == i then fix_slot w i else w ]

-- Case 4a: the target is empty.
move_slot : SharedWord → ℕ → ℕ → SharedWord
unfolding fix_if_home
move_slot w i tgt =
    fix_if_home
      (record w {
        sorting_area = update (update w.sorting_area tgt (w.sorting_area i)) i 0;
        sorting_meta = update (update w.sorting_meta tgt (w.sorting_meta i)) i none;
        occupied = update (update w.occupied tgt true) i false;
      })
      tgt

-- Case 4b: the target is occupied and not fixed.
swap_slots : SharedWord → ℕ → ℕ → SharedWord
unfolding fix_if_home
swap_slots w i tgt =
    fix_if_home
      (fix_if_home
        (record w {
          sorting_area =
              update (update w.sorting_area tgt (w.sorting_area i)) i (w.sorting_area tgt);
          sorting_meta =
              update (update w.sorting_meta tgt (w.sorting_meta i)) i (w.sorting_meta tgt);
        })
        tgt)
      i

-- The body of the loop over the slots, with its target; the second result is `progress`.
sort_to : SharedWord → ℕ → Option ℕ → SharedWord × Bool
unfolding fix_slot move_slot swap_slots
sort_to w i none = (w, false)
sort_to w i (some tgt) =
    if tgt == i
    then (fix_slot w i, true)
    else if ltb tgt w.len && not (w.fixed tgt)
    then ((if not (w.occupied tgt) then move_slot w i tgt else swap_slots w i tgt), true)
    else (w, false)

pub sort_slot : SharedWord → ℕ → SharedWord × Bool
unfolding sort_to
sort_slot w i =
    if not (w.occupied i) || w.fixed i then (w, false) else sort_to w i (w.sorting_meta i)

-- The loop over `n` slots from `i` on.
sort_from : SharedWord → ℕ → ℕ → SharedWord × Bool
unfolding sort_slot
sort_from w zero i = (w, false)
sort_from w (suc n) i =
    let (w', here) = sort_slot w i in
    let (w'', later) = sort_from w' n (suc i) in (w'', here || later)

-- One pass of a sorting process over a word whose locks it holds.
unfoldable pub sort_pass : SharedWord → SharedWord × Bool
unfolding sort_from
sort_pass w = sort_from w w.len 0

-- Are the `n` slots from `i` on fixed?
pub all_fixed_from : SharedWord → ℕ → ℕ → Bool
all_fixed_from w zero i = true
all_fixed_from w (suc n) i = w.fixed i && all_fixed_from w n (suc i)

unfoldable pub all_fixed : SharedWord → Bool
unfolding all_fixed_from
all_fixed w = all_fixed_from w w.len 0

-- The word after `n` passes, with no character delivered in between.
pub sort_passes : ℕ → SharedWord → SharedWord
unfolding sort_pass
sort_passes zero w = w
sort_passes (suc n) w = sort_passes n (sort_pass w).0
