-- ===== src/Floors/Word/Space.antt =====
-- A sorting area of HW3 has a free slot for every character that is still to come.
use system_programming_homew.Prelude.{
  ℕ, zero, suc, ◌+◌, ◌≤◌, ◌<◌, ◌≡◌, ◌≢◌, refl, ap, Bool, true, false, ◌||◌, ◌==◌, inl, inr, arith,
  none, some, Option-cases, Bool-cases, if◌then◌else◌, List, [], ◌∷◌, get_elem?, length, sum_of,
  sum_of-zero_get, sum_below, pigeonhole, ℕ_discrete,
}
use system_programming_homew.Floors.Word.{SharedWord, free_slot_from, settle_delivery, deliver_char}
use system_programming_homew.Floors.Word.Invariant.{IsSound}
use system_programming_homew.Floors.Word.Delivery.{place_cases}

-- The numbers below `n`, the largest first.
abbrev slots : ℕ → List ℕ
slots zero = []
slots (suc n) = n ∷ slots n

slots-lt : (n i x : ℕ) → get_elem? (slots n) i ≡ some x → x < n
slots-lt zero i x e = cc
slots-lt (suc n) zero x e = ground arith
slots-lt (suc n) (suc i) x e = omega (arith, slots-lt n i x e)

length-slots : (n : ℕ) → length (slots n) ≡ n
length-slots zero = refl
length-slots (suc n) = ap suc (length-slots n)

-- A test that at most one number below `n` passes.
slots-once :
    (p : ℕ → Bool) (n : ℕ)
    → ((i j : ℕ) → i < n → j < n → p i ≡ true → p j ≡ true → i ≡ j)
    → sum_of (λ i. if p i then 1 else 0) (slots n) ≤ 1
slots-once p zero h = omega arith
slots-once p (suc n) h = elim (Bool-cases (p n)) [
  | inl e ↦
      let bare : sum_of (λ i. if p i then 1 else 0) (slots n) ≡ 0 =
        sum_of-zero_get (λ i. if p i then 1 else 0) (slots n)
          (λ i x g. ground (arith, slots-lt n i x g, h x n)) in
      ground arith
  | inr e ↦ ground (arith, slots-once p n (λ i j li lj. h i j (omega arith) (omega arith)))
]

no_free_slot :
    (w : SharedWord) (n i j : ℕ)
    → free_slot_from w n i ≡ none
    → i ≤ j
    → j < i + n
    → (w.fixed j || w.occupied j) ≡ true
unfolding free_slot_from
no_free_slot w zero i j e lo hi = absurd (omega arith)
no_free_slot w (suc n) i j e lo hi = elim (ℕ_discrete i j) [
  | yes same ↦ ground arith
  | no other ↦ no_free_slot w n (suc i) j (ground arith) (omega arith) (omega arith)
]

-- The character in a slot; an empty slot has none below `len`.
abbrev home : SharedWord → ℕ → ℕ
home w i = elim (w.sorting_meta i) [ none ↦ w.len | some k ↦ k ]

abbrev all_but : ℕ → ℕ → ℕ
all_but ci k = if k == ci then 0 else 1

room_but_one : (ci n : ℕ) → (ci < n) → suc (sum_below (all_but ci) n) ≡ n
room_but_one ci zero h = absurd (omega arith)
room_but_one ci (suc n) h = elim (ℕ_discrete n ci) [
  | yes e ↦ ground (arith, room_full ci n (omega arith))
  | no ne ↦ ground (arith, room_but_one ci n (omega arith))
]
  where
    room_full : (c m : ℕ) → m ≤ c → sum_below (all_but c) m ≡ m
    room_full c zero h = refl
    room_full c (suc m) h = ground (arith, room_full c m (omega arith))

module _ (w : SharedWord) (v : IsSound w) (ci : ℕ) (lt : ci < w.len)
    (new : w.char_delivered ci ≡ false) where
  -- What lies in an occupied slot.
  home_of_occupied :
      (i : ℕ)
      → i < w.len
      → w.occupied i ≡ true
      → (w.sorting_meta i ≡ some (home w i)) × (home w i < w.len) × (home w i ≢ ci)
  home_of_occupied i li o = elim (Option-cases (w.sorting_meta i)) [
    | inl e ↦ absurd (v.known i li o e)
    | inr (k, e) ↦ ground (arith, v.inside i k li o e, v.tracked i k li o e)
  ]

  free_slot-some : free_slot_from w w.len 0 ≢ none
  free_slot-some e =
      let full : (i : ℕ) → i < w.len → w.occupied i ≡ true = λ i li.
        ground (arith, no_free_slot w w.len 0 i e (omega arith) (omega arith), v.settled i li) in
      let fits : (k : ℕ)
          → sum_of (λ i. if home w i == k then 1 else 0) (slots w.len) ≤ all_but ci k =
        λ k. elim (Bool-cases (k == ci)) [
          | inl q ↦
              let none_here =
                sum_of-zero_get (λ i. if home w i == k then 1 else 0) (slots w.len)
                  (λ i x g.
                    let lx = slots-lt w.len i x g in
                    ground (arith, home_of_occupied x lx (full x lx))) in
              rw q (omega arith)
          | inr q ↦ rw q (
              slots-once (λ i. home w i == k) w.len
                (λ i j li lj p p'.
                  let (a, b, c) = home_of_occupied i li (full i li) in
                  let (a', b', c') = home_of_occupied j lj (full j lj) in
                  v.distinct i j k li lj (full i li) (full j lj) (ground arith) (ground arith)))
        ] in
      absurd (
        omega (
          arith,
          pigeonhole (home w) (all_but ci) (slots w.len) fits w.len
              (λ i x g. let lx = slots-lt w.len i x g in (home_of_occupied x lx (full x lx)).1),
          length-slots w.len,
          room_but_one ci w.len lt,
        ))

  -- A delivery of a character that is still to come finds a slot.
  pub deliver_char-succeeds : (deliver_char w ci).1 ≡ true
  unfolding deliver_char settle_delivery
  deliver_char-succeeds = elim (place_cases w ci) [
    | inl (e, p) ↦ absurd (free_slot-some e)
    | inr (i, e, p) ↦ rw (p, deliver_char) refl
  ]
