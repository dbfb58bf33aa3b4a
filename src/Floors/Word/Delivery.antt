-- ===== src/Floors/Word/Delivery.antt =====
-- Delivering a character of HW3 to the sorting area of its word.
use system_programming_homew.Prelude.{
  ℕ, zero, suc, ◌+◌, ◌<◌, ◌≡◌, false, ◌⊎◌, inl, inr, arith, none, some, Option-cases,
}
use system_programming_homew.Floors.Word.{
  SharedWord, free_slot_from, put_char, place_char_in_sorting_area, deliver_char,
}
use system_programming_homew.Floors.Word.Invariant.{IsSound}

free_slot_from-free :
    (w : SharedWord) (n i j : ℕ)
    → free_slot_from w n i ≡ some j
    → (w.occupied j ≡ false) × (w.fixed j ≡ false) × (j < i + n)
unfolding free_slot_from
free_slot_from-free w zero i j h = cc
free_slot_from-free w (suc n) i j h = ground (arith, free_slot_from-free w n (suc i) j)

pub place_cases :
    (w : SharedWord) (ci : ℕ)
    → ((free_slot_from w w.len 0 ≡ none) × (place_char_in_sorting_area w ci ≡ (w, none)))
      ⊎ ((i : ℕ) × (free_slot_from w w.len 0 ≡ some i)
          × (place_char_in_sorting_area w ci ≡ (put_char w ci i, some i)))
unfolding place_char_in_sorting_area
place_cases w ci = elim (Option-cases (free_slot_from w w.len 0)) [
  | inl e ↦ inl (e, rw (e, place_char_in_sorting_area))
  | inr (i, e) ↦ inr (i, e, rw (e, place_char_in_sorting_area))
]

-- Delivering a character that was not delivered before keeps the sorting area sound. The character
-- is no longer in transit; it is marked as delivered exactly when the call reports success, and can
-- be claimed again when it does not.
pub deliver_char-IsSound :
    (w : SharedWord) (ci : ℕ)
    → IsSound w
    → ci < w.len
    → w.char_delivered ci ≡ false
    → let (w', ok) = deliver_char w ci in
      IsSound w'
      × (w'.char_delivered ci ≡ ok)
      × (w'.char_in_transit ci ≡ false)
      × (ok ≡ false → w'.char_claimed ci ≡ false)
unfolding deliver_char put_char
deliver_char-IsSound w ci v lt new = elim (place_cases w ci) [
  | inl (e, p) ↦
      rw (p, deliver_char)
        (
          record {
            known = v.known;
            inside = v.inside;
            distinct = v.distinct;
            settled = v.settled;
            tracked = v.tracked;
          },
          ground arith,
          ground arith,
          λ q. ground arith,
        )
  | inr (i, e, p) ↦
      let free = free_slot_from-free w w.len 0 i e in
      rw (p, deliver_char)
        (
          record {
            known = λ j lj oj. ground (arith, v.known j);
            inside = λ j k lj oj m. ground (arith, v.inside j k);
            distinct = λ a b k la lb oa ob ma mb.
                ground (arith, v.distinct a b k, v.tracked a k, v.tracked b k);
            settled = λ j lj fj. ground (arith, v.settled j);
            tracked = λ j k lj oj m. ground (arith, v.tracked j k);
          },
          ground arith,
          ground arith,
          λ q. ground arith,
        )
]
