-- ===== src/Floors/Word/Invariant.antt =====
-- What the sorting area of a word of HW3 always satisfies.
use system_programming_homew.Prelude.{
  ℕ, zero, suc, ◌+◌, ◌≤◌, ◌<◌, ◌≡◌, ◌≢◌, true, false, not, ◌&&◌, ◌||◌, ◌==◌, ltb, inl, inr, arith,
  none, some, get_or, Str, ℕ_discrete, Bool-cases, Option-cases,
}
use system_programming_homew.Floors.Word.{
  update, SharedWord, new_word, fix_slot, fix_if_home, move_slot, swap_slots, sort_to, sort_slot,
  sort_from, sort_pass, all_fixed_from, all_fixed,
}

-- `sorting_meta` names, for each occupied slot, the character that lies there; no character lies in
-- two slots; and a fixed slot holds its own character.
pub record IsSound (w : SharedWord) : Type 0 where
  pub known : (i : ℕ) → i < w.len → w.occupied i ≡ true → w.sorting_meta i ≢ none
  pub inside :
      (i k : ℕ)
      → i < w.len
      → w.occupied i ≡ true
      → w.sorting_meta i ≡ some k
      → (k < w.len) × (w.sorting_area i ≡ get_or w.text k 0)
  pub distinct :
      (i j k : ℕ)
      → i < w.len
      → j < w.len
      → w.occupied i ≡ true
      → w.occupied j ≡ true
      → w.sorting_meta i ≡ some k
      → w.sorting_meta j ≡ some k
      → i ≡ j
  pub settled :
      (i : ℕ) → i < w.len → w.fixed i ≡ true → (w.occupied i ≡ true) × (w.sorting_meta i ≡ some i)
  pub tracked :
      (i k : ℕ)
      → i < w.len
      → w.occupied i ≡ true
      → w.sorting_meta i ≡ some k
      → w.char_delivered k ≡ true

module _ (w : SharedWord) (v : IsSound w) where
  fix_slot-IsSound :
      (i : ℕ) → w.occupied i ≡ true → w.sorting_meta i ≡ some i → IsSound (fix_slot w i)
  unfolding fix_slot
  fix_slot-IsSound i occ home = record {
    known = v.known;
    inside = v.inside;
    distinct = v.distinct;
    settled = λ j lt f. ground (arith, v.settled j);
    tracked = v.tracked;
  }

  fix_if_home-IsSound : (i : ℕ) → w.occupied i ≡ true → IsSound (fix_if_home w i)
  unfolding fix_if_home
  fix_if_home-IsSound i occ = elim (Option-cases (w.sorting_meta i)) [
    | inl e ↦ rw (e, fix_if_home) v
    | inr (k, e) ↦ elim (Bool-cases (k == i)) [
      | inl h ↦ rw (e, fix_if_home, h) (fix_slot-IsSound i occ (ground arith))
      | inr h ↦ rw (e, fix_if_home, h) v
    ]
  ]

  moved-IsSound :
      (i tgt : ℕ)
      → i < w.len
      → tgt < w.len
      → i ≢ tgt
      → w.fixed i ≡ false
      → w.fixed tgt ≡ false
      → w.occupied i ≡ true
      → w.occupied tgt ≡ false
      → IsSound (record w {
        sorting_area = update (update w.sorting_area tgt (w.sorting_area i)) i 0;
        sorting_meta = update (update w.sorting_meta tgt (w.sorting_meta i)) i none;
        occupied = update (update w.occupied tgt true) i false;
      })
  moved-IsSound i tgt li lt ne fi ft oi ot = record {
    known = λ j lj oj. ground (arith, v.known j, v.known i);
    inside = λ j k lj oj m. ground (arith, v.inside j k, v.inside i k);
    distinct = λ a b k la lb oa ob ma mb.
        ground (arith, v.distinct a b k, v.distinct i b k, v.distinct a i k);
    settled = λ j lj fj. ground (arith, v.settled j);
    tracked = λ j k lj oj m. ground (arith, v.tracked j k, v.tracked i k);
  }

  swapped-IsSound :
      (i tgt : ℕ)
      → i < w.len
      → tgt < w.len
      → i ≢ tgt
      → w.fixed i ≡ false
      → w.fixed tgt ≡ false
      → w.occupied i ≡ true
      → w.occupied tgt ≡ true
      → IsSound (record w {
        sorting_area = update (update w.sorting_area tgt (w.sorting_area i)) i (w.sorting_area tgt);
        sorting_meta = update (update w.sorting_meta tgt (w.sorting_meta i)) i (w.sorting_meta tgt);
      })
  swapped-IsSound i tgt li lt ne fi ft oi ot = record {
    known = λ j lj oj. ground (arith, v.known j, v.known i, v.known tgt);
    inside = λ j k lj oj m. ground (arith, v.inside j k, v.inside i k, v.inside tgt k);
    distinct = λ a b k la lb oa ob ma mb. ground (
      arith,
      v.distinct a b k,
      v.distinct i b k,
      v.distinct a i k,
      v.distinct tgt b k,
      v.distinct a tgt k,
      v.distinct i tgt k,
    );
    settled = λ j lj fj. ground (arith, v.settled j);
    tracked = λ j k lj oj m. ground (arith, v.tracked j k, v.tracked i k, v.tracked tgt k);
  }

-- What a pass leaves alone.
pub record SameWord (w w' : SharedWord) : Type 0 where
  pub len : w'.len ≡ w.len
  pub text : w'.text ≡ w.text
  pub delivered : w'.char_delivered ≡ w.char_delivered
  pub claimed : w'.char_claimed ≡ w.char_claimed
  pub in_transit : w'.char_in_transit ≡ w.char_in_transit

fix_if_home-SameWord : (w : SharedWord) (i : ℕ) → SameWord w (fix_if_home w i)
unfolding fix_if_home
fix_if_home-SameWord w i = ground arith

pub sort_slot-SameWord : (w : SharedWord) (i : ℕ) → SameWord w (sort_slot w i).0
unfolding sort_slot
sort_slot-SameWord w i = ground arith

module _ (w : SharedWord) (v : IsSound w) (i tgt : ℕ) (li : i < w.len) (lt : tgt < w.len)
    (ne : i ≢ tgt) (fi : w.fixed i ≡ false) (ft : w.fixed tgt ≡ false)
    (oi : w.occupied i ≡ true) where
  move_slot-IsSound : w.occupied tgt ≡ false → IsSound (move_slot w i tgt)
  unfolding move_slot
  move_slot-IsSound ot =
      fix_if_home-IsSound _ (moved-IsSound w v i tgt li lt ne fi ft oi ot) tgt (ground arith)

  swap_slots-IsSound : w.occupied tgt ≡ true → IsSound (swap_slots w i tgt)
  unfolding swap_slots
  swap_slots-IsSound ot =
      fix_if_home-IsSound _
        (fix_if_home-IsSound _ (swapped-IsSound w v i tgt li lt ne fi ft oi ot) tgt ot) i
        (ground arith)

pub sort_slot-IsSound : (w : SharedWord) (i : ℕ) → i < w.len → IsSound w → IsSound (sort_slot w i).0
unfolding sort_slot
sort_slot-IsSound w i li v = elim (Bool-cases (not (w.occupied i) || w.fixed i)) [
  | inl skip ↦ rw skip v
  | inr work ↦ rw work (elim (Option-cases (w.sorting_meta i)) [
    | inl none_here ↦ rw (none_here, sort_to) v
    | inr (tgt, m) ↦ elim (Bool-cases (tgt == i)) [
      | inl home ↦ rw (m, sort_to, home) (fix_slot-IsSound w v i (ground arith) (ground arith))
      | inr away ↦ elim (Bool-cases (ltb tgt w.len && not (w.fixed tgt))) [
        | inr blocked ↦ rw (m, sort_to, away, blocked) v
        | inl open_tgt ↦ elim (Bool-cases (w.occupied tgt)) [
          | inl full ↦
              rw (m, sort_to, away, open_tgt, full)
                (swap_slots-IsSound w v i tgt li (ground arith) (ground arith) (ground arith)
                  (ground arith) (ground arith) full)
          | inr empty ↦
              rw (m, sort_to, away, open_tgt, empty)
                (move_slot-IsSound w v i tgt li (ground arith) (ground arith) (ground arith)
                  (ground arith) (ground arith) empty)
        ]
      ]
    ]
  ])
]

sort_from-IsSound :
    (n : ℕ) (w : SharedWord) (i : ℕ) → i + n ≤ w.len → IsSound w → IsSound (sort_from w n i).0
unfolding sort_from
sort_from-IsSound zero w i h v = v
sort_from-IsSound (suc n) w i h v =
    sort_from-IsSound n (sort_slot w i).0 (suc i) (omega (arith, (sort_slot-SameWord w i).len))
      (sort_slot-IsSound w i (omega arith) v)

-- A pass of a sorting process keeps the sorting area sound.
pub sort_pass-IsSound : (w : SharedWord) → IsSound w → IsSound (sort_pass w).0
unfolding sort_pass
sort_pass-IsSound w v = sort_from-IsSound w.len w 0 (omega arith) v

all_fixed_from-fixed :
    (w : SharedWord) (n i j : ℕ)
    → all_fixed_from w n i ≡ true
    → i ≤ j
    → j < i + n
    → w.fixed j ≡ true
unfolding all_fixed_from
all_fixed_from-fixed w zero i j h lo hi = absurd (omega arith)
all_fixed_from-fixed w (suc n) i j h lo hi = elim (ℕ_discrete i j) [
  | yes e ↦ ground arith
  | no ne ↦ all_fixed_from-fixed w n (suc i) j (ground arith) (omega arith) (omega arith)
]

-- When every slot is fixed, the sorting area spells the word.
pub all_fixed-spelled :
    (w : SharedWord)
    → IsSound w
    → all_fixed w ≡ true
    → (i : ℕ) → i < w.len
    → w.sorting_area i ≡ get_or w.text i 0
unfolding all_fixed
all_fixed-spelled w v h i lt =
    let f = all_fixed_from-fixed w w.len 0 i h (omega arith) (omega arith) in
    let s = v.settled i lt f in (v.inside i i lt s.0 s.1).1

-- A word as it is loaded is sound.
pub new_word-IsSound : (id : ℕ) (word : Str) (sf : ℕ) → IsSound (new_word id word sf)
new_word-IsSound id word sf = record {
  known = λ i lt o. cc;
  inside = λ i k lt o m. cc;
  distinct = λ i j k li lj oi oj mi mj. cc;
  settled = λ i lt f. cc;
  tracked = λ i k lt o m. cc;
}
