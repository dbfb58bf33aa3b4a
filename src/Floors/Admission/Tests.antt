-- ===== src/Floors/Admission/Tests.antt =====
-- One word of HW3, from the scan of its carrier to its completion.
use system_programming_homew.Prelude.{
  ℕ, ◌≤◌, ◌≡◌, refl, true, [], ◌∷◌, arith, some, codes, get_elem?, length, sum_of,
}
use system_programming_homew.Floors.Word.{
  SharedWord, new_word, place_char_in_sorting_area, deliver_char, sort_pass, all_fixed,
}
use system_programming_homew.Floors.Admission.{
  Pc, scanning, claiming, decided, WordCarrier, SharedState, claim_word, reserve_floors,
  admit_or_release, sort_word, with_word, claim, reserve, admit, sort, deliver, Start, Reach,
  started, later,
}
use system_programming_homew.Floors.Admission.Invariant.{holds}
use system_programming_homew.Floors.Admission.Capacity.{capacity_kept, capacity_returned}

abbrev loaded : SharedWord
loaded = new_word 9 (codes "a") 1

abbrev porter : Pc → ℕ → WordCarrier
porter pc admissions = record { floor = 0; admissions = admissions; retries = 0; pc = pc }

abbrev opening : SharedState
opening = record {
  words = loaded ∷ [];
  active_words = λ f. 0;
  max_words_per_floor = 1;
  rr_cursor = 0;
  retries = 0;
  completed_words = 0;
  wcarriers = porter scanning 0 ∷ [];
}

opening-Start : Start opening
opening-Start = record {
  fresh = λ i w g. ground arith;
  ready = λ i c g. ground arith;
  empty = λ f. refl;
  none_done = refl;
}

abbrev claimed_word : SharedWord
claimed_word = record loaded { claimed = true; claim_owner = some 0 }

abbrev admitted_word : SharedWord
admitted_word = record claimed_word {
  admitted = true;
  arrival_floor = 0;
  active_reservation = true;
}

abbrev after_claim : SharedState
after_claim = claim_word opening 0 (porter scanning 0)

abbrev after_reserve : SharedState
after_reserve = reserve_floors after_claim 0 (porter (claiming 0) 0) 0 claimed_word

abbrev after_admit : SharedState
after_admit = admit_or_release after_reserve 0 (porter (decided 0 1 true) 0) 0 claimed_word true

after_admit-Reach : Reach opening after_admit
unfolding claim_word reserve_floors
after_admit-Reach =
    later
      (later (later started (claim 0 (porter scanning 0) refl refl refl))
        (reserve 0 (porter (claiming 0) 0) 0 claimed_word refl refl refl refl))
      (admit 0 (porter (decided 0 1 true) 0) 0 1 claimed_word true refl refl refl refl)

capacity_kept_example :
    ((f : ℕ) → after_admit.active_words f ≤ opening.max_words_per_floor)
    × ((i : ℕ) (w : SharedWord)
        → get_elem? after_admit.words i ≡ some w
        → sum_of (holds i) after_admit.wcarriers ≤ 1)
capacity_kept_example = capacity_kept opening-Start after_admit-Reach

abbrev delivered_word : SharedWord
delivered_word = (deliver_char admitted_word 0).0

abbrev closing : SharedState
closing = sort_word (with_word after_admit 0 delivered_word) 0 delivered_word

closing-Reach : Reach opening closing
unfolding claim_word reserve_floors admit_or_release with_word deliver_char
    place_char_in_sorting_area
closing-Reach =
    later (later after_admit-Reach (deliver 0 admitted_word 0 refl refl))
      (sort 0 delivered_word refl refl refl refl)

closing-done : closing.completed_words ≡ length closing.words
unfolding claim_word reserve_floors admit_or_release with_word deliver_char
    place_char_in_sorting_area sort_word sort_pass all_fixed
closing-done = refl

closing-idle : (k : ℕ) (c : WordCarrier) → get_elem? closing.wcarriers k ≡ some c → c.pc ≡ scanning
unfolding claim_word reserve_floors admit_or_release with_word deliver_char
    place_char_in_sorting_area sort_word sort_pass all_fixed
closing-idle k c g = ground arith

capacity_returned_example :
    ((i : ℕ) (w : SharedWord) → get_elem? closing.words i ≡ some w → w.completed ≡ true)
    × ((f : ℕ) → closing.active_words f ≡ 0)
capacity_returned_example = capacity_returned opening-Start closing-Reach closing-done closing-idle
