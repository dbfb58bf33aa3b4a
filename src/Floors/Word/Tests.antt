-- ===== src/Floors/Word/Tests.antt =====
-- A word of HW3 of two characters that arrive in the wrong order.
use system_programming_homew.Prelude.{ℕ, ◌<◌, ◌≡◌, refl, true, arith, codes, get_or}
use system_programming_homew.Floors.Word.{
  SharedWord, new_word, place_char_in_sorting_area, deliver_char, sort_pass, sort_passes, all_fixed,
}
use system_programming_homew.Floors.Word.Invariant.{
  IsSound, sort_pass-IsSound, all_fixed-spelled, new_word-IsSound,
}
use system_programming_homew.Floors.Word.Delivery.{deliver_char-IsSound}
use system_programming_homew.Floors.Word.Progress.{IsFull, sort_passes-spell}

abbrev fresh_word : SharedWord
fresh_word = new_word 4 (codes "ab") 1

abbrev one_placed : SharedWord
one_placed = (deliver_char fresh_word 1).0

abbrev both_placed : SharedWord
both_placed = (deliver_char one_placed 0).0

one_placed-IsSound : IsSound one_placed
one_placed-IsSound =
    (deliver_char-IsSound fresh_word 1 (new_word-IsSound 4 (codes "ab") 1) (omega arith) refl).0

both_placed-IsSound : IsSound both_placed
unfolding deliver_char place_char_in_sorting_area
both_placed-IsSound = (deliver_char-IsSound one_placed 0 one_placed-IsSound (omega arith) refl).0

both_placed-IsFull : IsFull both_placed
unfolding deliver_char place_char_in_sorting_area
both_placed-IsFull i lt = ground arith

sort_pass-IsSound_example : IsSound (sort_pass both_placed).0
sort_pass-IsSound_example = sort_pass-IsSound both_placed both_placed-IsSound

sort_passes-spell_example :
    let w' = sort_passes both_placed.len both_placed in
    (all_fixed w' ≡ true)
    × ((i : ℕ) → i < both_placed.len → w'.sorting_area i ≡ get_or both_placed.text i 0)
sort_passes-spell_example = sort_passes-spell both_placed both_placed-IsSound both_placed-IsFull

abbrev sorted_word : SharedWord
sorted_word = (sort_pass both_placed).0

sorted_word-fixed : all_fixed sorted_word ≡ true
unfolding deliver_char place_char_in_sorting_area sort_pass all_fixed
sorted_word-fixed = refl

all_fixed-spelled_example :
    (i : ℕ) → i < sorted_word.len → sorted_word.sorting_area i ≡ get_or sorted_word.text i 0
all_fixed-spelled_example =
    all_fixed-spelled sorted_word (sort_pass-IsSound both_placed both_placed-IsSound)
      sorted_word-fixed
