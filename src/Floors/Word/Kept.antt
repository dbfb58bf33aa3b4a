-- ===== src/Floors/Word/Kept.antt =====
-- What the work on the characters of a word of HW3 leaves alone: the fields that its admission reads.
use system_programming_homew.Prelude.{
  ℕ, zero, suc, ◌≡◌, true, false, ◌==◌, inl, inr, arith, Option, none, some, Bool-cases,
  Option-cases,
}
use system_programming_homew.Floors.Word.{
  update, SharedWord, free_slot_from, put_char, place_char_in_sorting_area, settle_delivery,
  deliver_char, claim_from, claim_char, fix_slot, fix_if_home, move_slot, swap_slots, sort_to,
  sort_slot, sort_from, sort_pass,
}

-- Two words that differ only in their characters and their sorting areas.
pub record SameAdmission (w w' : SharedWord) : Type 0 where
  pub claimed : w'.claimed ≡ w.claimed
  pub admitted : w'.admitted ≡ w.admitted
  pub completed : w'.completed ≡ w.completed
  pub reserved : w'.active_reservation ≡ w.active_reservation
  pub arrival : w'.arrival_floor ≡ w.arrival_floor
  pub sorting : w'.sorting_floor ≡ w.sorting_floor

SameAdmission-trans :
    {u v w : SharedWord} → SameAdmission u v → SameAdmission v w → SameAdmission u w
SameAdmission-trans p q = ground arith

pub claim_char-SameAdmission :
    (w : SharedWord) (floor : ℕ) (draw : ℕ → ℕ) → SameAdmission w (claim_char w floor draw).0
unfolding claim_char
claim_char-SameAdmission w floor draw = elim (Option-cases (claim_from w draw w.len 0)) [
  | inl e ↦ ground arith
  | inr (i, e) ↦ ground arith
]

settle_delivery-SameAdmission :
    (w : SharedWord) (ci : ℕ) (slot : Option ℕ) → SameAdmission w (settle_delivery ci (w, slot)).0
unfolding settle_delivery
settle_delivery-SameAdmission w ci none = ground arith
settle_delivery-SameAdmission w ci (some i) = ground arith

place_char-SameAdmission :
    (w : SharedWord) (ci : ℕ) → SameAdmission w (place_char_in_sorting_area w ci).0
unfolding place_char_in_sorting_area put_char
place_char-SameAdmission w ci = elim (Option-cases (free_slot_from w w.len 0)) [
  | inl e ↦ rw (e, place_char_in_sorting_area) (ground arith)
  | inr (i, e) ↦ rw (e, place_char_in_sorting_area) (ground arith)
]

pub deliver_char-SameAdmission : (w : SharedWord) (ci : ℕ) → SameAdmission w (deliver_char w ci).0
unfolding deliver_char
deliver_char-SameAdmission w ci =
    let (w', slot) = place_char_in_sorting_area w ci in
    SameAdmission-trans (place_char-SameAdmission w ci) (settle_delivery-SameAdmission w' ci slot)

fix_if_home-SameAdmission : (w : SharedWord) (i : ℕ) → SameAdmission w (fix_if_home w i)
unfolding fix_if_home fix_slot
fix_if_home-SameAdmission w i = elim (Option-cases (w.sorting_meta i)) [
  | inl e ↦ rw (e, fix_if_home) (ground arith)
  | inr (k, e) ↦ elim (Bool-cases (k == i)) [
    | inl h ↦ rw (e, fix_if_home, h) (ground arith)
    | inr h ↦ rw (e, fix_if_home, h) (ground arith)
  ]
]

move_slot-SameAdmission : (w : SharedWord) (i tgt : ℕ) → SameAdmission w (move_slot w i tgt)
unfolding move_slot
move_slot-SameAdmission w i tgt =
    SameAdmission-trans
      {v = record w {
        sorting_area = update (update w.sorting_area tgt (w.sorting_area i)) i 0;
        sorting_meta = update (update w.sorting_meta tgt (w.sorting_meta i)) i none;
        occupied = update (update w.occupied tgt true) i false;
      }}
      (ground arith) (fix_if_home-SameAdmission _ tgt)

swap_slots-SameAdmission : (w : SharedWord) (i tgt : ℕ) → SameAdmission w (swap_slots w i tgt)
unfolding swap_slots
swap_slots-SameAdmission w i tgt =
    SameAdmission-trans
      {v = fix_if_home
        (record w {
          sorting_area =
              update (update w.sorting_area tgt (w.sorting_area i)) i (w.sorting_area tgt);
          sorting_meta =
              update (update w.sorting_meta tgt (w.sorting_meta i)) i (w.sorting_meta tgt);
        })
        tgt}
      (SameAdmission-trans
        {v = record w {
          sorting_area =
              update (update w.sorting_area tgt (w.sorting_area i)) i (w.sorting_area tgt);
          sorting_meta =
              update (update w.sorting_meta tgt (w.sorting_meta i)) i (w.sorting_meta tgt);
        }}
        (ground arith) (fix_if_home-SameAdmission _ tgt))
      (fix_if_home-SameAdmission _ i)

sort_to-SameAdmission :
    (w : SharedWord) (i : ℕ) (tgt : Option ℕ) → SameAdmission w (sort_to w i tgt).0
unfolding sort_to fix_slot
sort_to-SameAdmission w i none = ground arith
sort_to-SameAdmission w i (some tgt) =
    ground (arith, move_slot-SameAdmission w i tgt, swap_slots-SameAdmission w i tgt)

sort_slot-SameAdmission : (w : SharedWord) (i : ℕ) → SameAdmission w (sort_slot w i).0
unfolding sort_slot
sort_slot-SameAdmission w i = ground (arith, sort_to-SameAdmission w i (w.sorting_meta i))

sort_from-SameAdmission : (w : SharedWord) (n i : ℕ) → SameAdmission w (sort_from w n i).0
unfolding sort_from
sort_from-SameAdmission w zero i = ground arith
sort_from-SameAdmission w (suc n) i =
    SameAdmission-trans (sort_slot-SameAdmission w i)
      (sort_from-SameAdmission (sort_slot w i).0 n (suc i))

pub sort_pass-SameAdmission : (w : SharedWord) → SameAdmission w (sort_pass w).0
unfolding sort_pass
sort_pass-SameAdmission w = sort_from-SameAdmission w w.len 0
