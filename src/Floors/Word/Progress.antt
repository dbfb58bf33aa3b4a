-- ===== src/Floors/Word/Progress.antt =====
-- The sorting processes of HW3 come to an end: each pass over a full sorting area fixes a slot.
use system_programming_homew.Prelude.{
  ℕ, zero, suc, ◌+◌, ◌≤◌, ◌<◌, ◌≡◌, ◌≢◌, refl, ap, ◌∙◌, true, false, ◌⊎◌, inl, inr, arith, some,
  get_or, ℕ_discrete, Bool-cases, Option-cases,
}
use system_programming_homew.Floors.Word.{
  SharedWord, fix_slot, fix_if_home, move_slot, swap_slots, sort_to, sort_slot, sort_from,
  sort_pass, sort_passes, all_fixed_from, all_fixed,
}
use system_programming_homew.Floors.Word.Invariant.{
  IsSound, sort_slot-SameWord, sort_pass-IsSound, all_fixed-spelled,
}
use system_programming_homew.Floors.Word.Counting.{
  Keeps, count_below, count_below_mono, count_below-grows, count_below-full, count_below-missing,
}

-- Every slot of the word is occupied.
abbrev pub IsFull : SharedWord → Type 0
IsFull w = (i : ℕ) → i < w.len → w.occupied i ≡ true

fix_if_home-Keeps : (w : SharedWord) (i : ℕ) → Keeps w.fixed (fix_if_home w i).fixed
unfolding fix_if_home fix_slot
fix_if_home-Keeps w i j h = ground arith

sort_slot-Keeps : (w : SharedWord) (i : ℕ) → Keeps w.fixed (sort_slot w i).0.fixed
unfolding sort_slot sort_to fix_slot move_slot swap_slots fix_if_home
sort_slot-Keeps w i j h = ground arith

sort_slot-IsFull : (w : SharedWord) (i : ℕ) → i < w.len → IsFull w → IsFull (sort_slot w i).0
unfolding sort_slot sort_to fix_slot move_slot swap_slots fix_if_home
sort_slot-IsFull w i li full j lj =
    let lj' : j < w.len = omega (arith, (sort_slot-SameWord w i).len) in
    elim (Option-cases (w.sorting_meta i)) [
      | inl e ↦ ground (arith, full j lj')
      | inr (tgt, e) ↦ ground (arith, full j lj', full tgt)
    ]

-- Where the slot's own character belongs, nothing is fixed yet.
target_unfixed :
    (w : SharedWord) (i tgt : ℕ)
    → IsSound w
    → IsFull w
    → i < w.len
    → w.fixed i ≡ false
    → w.sorting_meta i ≡ some tgt
    → (tgt < w.len) × (w.fixed tgt ≡ false) × (w.occupied tgt ≡ true)
target_unfixed w i tgt v full li unfixed m =
    let lt = (v.inside i tgt li (full i li) m).0 in
    (
      lt,
      elim (Bool-cases (w.fixed tgt)) [
        | inr f ↦ f
        | inl f ↦
            let (o, at) = v.settled tgt lt f in
            let same : i ≡ tgt = v.distinct i tgt tgt li lt (full i li) o m at in ground arith
      ],
      full tgt lt,
    )

swap_slots-fixes :
    (w : SharedWord) (i tgt : ℕ)
    → i ≢ tgt
    → w.sorting_meta i ≡ some tgt
    → (swap_slots w i tgt).fixed tgt ≡ true
unfolding swap_slots fix_if_home fix_slot
swap_slots-fixes w i tgt ne m = ground arith

-- The slot under work need not be fixed by it, but some slot is.
sort_slot-fixes :
    (w : SharedWord) (i : ℕ)
    → IsSound w
    → IsFull w
    → i < w.len
    → w.fixed i ≡ false
    → (k : ℕ) × (k < w.len) × (w.fixed k ≡ false) × ((sort_slot w i).0.fixed k ≡ true)
unfolding sort_slot sort_to fix_slot
sort_slot-fixes w i v full li unfixed = elim (Option-cases (w.sorting_meta i)) [
  | inl e ↦ absurd (v.known i li (full i li) e)
  | inr (tgt, m) ↦
      let (lt, free, occ) = target_unfixed w i tgt v full li unfixed m in
      (
        tgt,
        lt,
        free,
        elim (ℕ_discrete i tgt) [
          | yes e ↦ ground (arith, full i li)
          | no ne ↦ ground (arith, full i li, swap_slots-fixes w i tgt ne m)
        ],
      )
]

sort_slot-skip : (w : SharedWord) (i : ℕ) → w.fixed i ≡ true → sort_slot w i ≡ (w, false)
unfolding sort_slot
sort_slot-skip w i f = ground arith

sort_from-Keeps : (n : ℕ) (w : SharedWord) (i : ℕ) → Keeps w.fixed (sort_from w n i).0.fixed
unfolding sort_from
sort_from-Keeps zero w i j f = f
sort_from-Keeps (suc n) w i j f =
    sort_from-Keeps n (sort_slot w i).0 (suc i) j (sort_slot-Keeps w i j f)

-- A pass over slots of which one is not fixed fixes one more.
sort_from-grows :
    (n : ℕ) (w : SharedWord) (i k : ℕ)
    → i + n ≤ w.len
    → IsSound w
    → IsFull w
    → i ≤ k
    → k < i + n
    → w.fixed k ≡ false
    → count_below w.fixed w.len < count_below (sort_from w n i).0.fixed w.len
unfolding sort_from
sort_from-grows zero w i k h v full lo hi unfixed = absurd (omega arith)
sort_from-grows (suc n) w i k h v full lo hi unfixed =
    let w' = (sort_slot w i).0 in
    elim (Bool-cases (w.fixed i)) [
      | inl f ↦
          let ne : k ≢ i = λ e. ground arith in
          rw (sort_slot-skip w i f)
            (sort_from-grows n w (suc i) k (omega arith) v full (omega arith) (omega arith) unfixed)
      | inr u ↦
          let (j, lj, fj, gj) = sort_slot-fixes w i v full (omega arith) u in
          omega (
            arith,
            count_below-grows w.fixed w'.fixed w.len j (sort_slot-Keeps w i) lj fj gj,
            count_below_mono w'.fixed (sort_from w' n (suc i)).0.fixed w.len
                (sort_from-Keeps n w' (suc i)),
          )
    ]

sort_from-SameWord :
    (n : ℕ) (w : SharedWord) (i : ℕ)
    → ((sort_from w n i).0.len ≡ w.len) × ((sort_from w n i).0.text ≡ w.text)
unfolding sort_from
sort_from-SameWord zero w i = (refl, refl)
sort_from-SameWord (suc n) w i =
    let (l, t) = sort_from-SameWord n (sort_slot w i).0 (suc i) in
    let same = sort_slot-SameWord w i in (l ∙ same.len, t ∙ same.text)

sort_from-IsFull :
    (n : ℕ) (w : SharedWord) (i : ℕ) → i + n ≤ w.len → IsFull w → IsFull (sort_from w n i).0
unfolding sort_from
sort_from-IsFull zero w i h full = full
sort_from-IsFull (suc n) w i h full =
    sort_from-IsFull n (sort_slot w i).0 (suc i) (omega (arith, (sort_slot-SameWord w i).len))
      (sort_slot-IsFull w i (omega arith) full)

-- While a slot is not fixed, a pass fixes at least one more, and it keeps all that was said.
sort_pass-grows :
    (w : SharedWord)
    → IsSound w
    → IsFull w
    → let w' = (sort_pass w).0 in
      IsFull w'
      × (w'.len ≡ w.len)
      × (w'.text ≡ w.text)
      × ((w.len ≤ count_below w'.fixed w.len)
          ⊎ (count_below w.fixed w.len < count_below w'.fixed w.len))
unfolding sort_pass
sort_pass-grows w v full =
    let (l, t) = sort_from-SameWord w.len w 0 in
    (
      sort_from-IsFull w.len w 0 (omega arith) full,
      l,
      t,
      elim (count_below-missing w.fixed w.len) [
        | inl all ↦ inl (
            omega (
              arith,
              count_below_mono w.fixed (sort_from w w.len 0).0.fixed w.len
                  (sort_from-Keeps w.len w 0),
            ))
        | inr (k, lt, f) ↦
            inr (sort_from-grows w.len w 0 k (omega arith) v full (omega arith) (omega arith) f)
      ],
    )

sort_passes-exact :
    (n : ℕ) (w : SharedWord)
    → IsSound w
    → IsFull w
    → w.len ≤ n + count_below w.fixed w.len
    → let w' = sort_passes n w in
      IsSound w' × (w'.len ≡ w.len) × (w'.text ≡ w.text) × (w'.len ≤ count_below w'.fixed w'.len)
unfolding sort_passes
sort_passes-exact zero w v full h = (v, refl, refl, omega arith)
sort_passes-exact (suc n) w v full h =
    let w' = (sort_pass w).0 in
    let (full', l, t, more) = sort_pass-grows w v full in
    let (v', l', t', done) =
      sort_passes-exact n w' (sort_pass-IsSound w v) full' (rw l (ground arith)) in
    (v', l' ∙ l, t' ∙ t, done)

all_fixed_from-of :
    (w : SharedWord) (n i : ℕ)
    → ((j : ℕ) → i ≤ j → j < i + n → w.fixed j ≡ true)
    → all_fixed_from w n i ≡ true
unfolding all_fixed_from
all_fixed_from-of w zero i h = refl
all_fixed_from-of w (suc n) i h = ground (
  arith,
  h i (omega arith) (omega arith),
  all_fixed_from-of w n (suc i) (λ j lo hi. h j (omega arith) (omega arith)),
)

-- Once a character lies in every slot, as many passes as the word has characters fix every slot, in
-- whatever order the characters arrived, and the sorting area then spells the word.
pub sort_passes-spell :
    (w : SharedWord)
    → IsSound w
    → IsFull w
    → let w' = sort_passes w.len w in
      (all_fixed w' ≡ true) × ((i : ℕ) → i < w.len → w'.sorting_area i ≡ get_or w.text i 0)
unfolding all_fixed
sort_passes-spell w v full =
    let w' = sort_passes w.len w in
    let (v', l, t, done) = sort_passes-exact w.len w v full (omega arith) in
    let all : all_fixed w' ≡ true =
      all_fixed_from-of w' w'.len 0
        (λ j lo hi. count_below-full w'.fixed w'.len j done (omega arith)) in
    (all, λ i lt. all_fixed-spelled w' v' all i (omega arith) ∙ ap (λ s. get_or s i 0) t)
