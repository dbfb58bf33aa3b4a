-- ===== src/Cargo/Shift/Counting.antt =====
-- Sums over the couriers: what one courier's move adds, and that a broadcast changes none.
use system_programming_homew.Prelude.{
  ℕ, suc, ◌+◌, ◌≡◌, refl, List, [], ◌∷◌, arith, some, set, get_elem?, sum_of, sum_of-set, ◌≢◌,
  ℕ_discrete,
}
use system_programming_homew.Cargo.Shift.{asleep, delivering, recorded, Courier, wake_up, broadcast}

-- 1 for a courier with an order in hand that is not yet counted as completed.
abbrev pub carries : Courier → ℕ
carries c = elim c.pc [ delivering o ↦ 1 | _ ↦ 0 ]

-- 1 for a courier between its two critical sections.
abbrev pub is_active : Courier → ℕ
is_active c = elim c.pc [ delivering o ↦ 1 | recorded o ↦ 1 | _ ↦ 0 ]

abbrev pub sleeps : Courier → ℕ
sleeps c = elim c.pc [ asleep ↦ 1 | _ ↦ 0 ]

abbrev pub count_of : Courier → ℕ
count_of c = c.delivered_order_count

abbrev pub time_of : Courier → ℕ
time_of c = c.delivered_time_ms

wake_up-keeps :
    (c : Courier)
    → (carries (wake_up c) ≡ carries c)
      × (is_active (wake_up c) ≡ is_active c)
      × (count_of (wake_up c) ≡ count_of c)
      × (time_of (wake_up c) ≡ time_of c)
      × (sleeps (wake_up c) ≡ 0)
wake_up-keeps c = ground arith

-- The sums that the invariant speaks of.
pub record Same (xs ys : List Courier) : Type 0 where
  pub carried : sum_of carries xs ≡ sum_of carries ys
  pub active : sum_of is_active xs ≡ sum_of is_active ys
  pub counts : sum_of count_of xs ≡ sum_of count_of ys
  pub times : sum_of time_of xs ≡ sum_of time_of ys

pub broadcast-Same : (cs : List Courier) → Same (broadcast cs) cs
broadcast-Same [] = omega arith
broadcast-Same (c ∷ cs) = omega (arith, wake_up-keeps c, broadcast-Same cs)

-- After a broadcast no courier sleeps.
pub sleeps-broadcast : (cs : List Courier) → sum_of sleeps (broadcast cs) ≡ 0
sleeps-broadcast [] = refl
sleeps-broadcast (c ∷ cs) = omega (arith, wake_up-keeps c, sleeps-broadcast cs)

-- What replacing courier `c` by `v` does to each sum.
pub record Replaced (cs : List Courier) (i : ℕ) (c v : Courier) : Type 0 where
  pub carried : sum_of carries (set cs i v) + carries c ≡ sum_of carries cs + carries v
  pub active : sum_of is_active (set cs i v) + is_active c ≡ sum_of is_active cs + is_active v
  pub counts : sum_of count_of (set cs i v) + count_of c ≡ sum_of count_of cs + count_of v
  pub times : sum_of time_of (set cs i v) + time_of c ≡ sum_of time_of cs + time_of v
  pub asleep : sum_of sleeps (set cs i v) + sleeps c ≡ sum_of sleeps cs + sleeps v

pub replaced :
    (cs : List Courier) (i : ℕ) (c v : Courier) → get_elem? cs i ≡ some c → Replaced cs i c v
replaced cs i c v h = record {
  carried = sum_of-set carries cs i c v h;
  active = sum_of-set is_active cs i c v h;
  counts = sum_of-set count_of cs i c v h;
  times = sum_of-set time_of cs i c v h;
  asleep = sum_of-set sleeps cs i c v h;
}

-- A sum that is not 0 has a courier that makes it so.
pub sum_of-ne_zero :
    (w : Courier → ℕ) (cs : List Courier)
    → sum_of w cs ≢ 0
    → (i : ℕ) × (c : Courier) × (get_elem? cs i ≡ some c) × (w c ≢ 0)
sum_of-ne_zero w [] h = absurd (h refl)
sum_of-ne_zero w (c ∷ cs) h = elim (ℕ_discrete (w c) 0) [
  | yes e ↦ let (i, c', g, p) = sum_of-ne_zero w cs (omega arith) in (suc i, c', g, p)
  | no n ↦ (0, c, refl, n)
]
