-- ===== src/Floors/Word/Counting.antt =====
-- How many indices pass a test, as the test comes to hold of more of them.
use system_programming_homew.Prelude.{
  ℕ, zero, suc, ◌≤◌, ◌<◌, ◌≡◌, Bool, true, false, ◌⊎◌, inl, inr, if◌then◌else◌, arith, ℕ_discrete,
  Bool-cases,
}

-- How many of the first `n` indices pass the test.
abbrev pub count_below : (ℕ → Bool) → ℕ → ℕ
count_below f zero = 0
count_below f (suc n) = if f n then suc (count_below f n) else count_below f n

count_below-le : (f : ℕ → Bool) (n : ℕ) → count_below f n ≤ n
count_below-le f zero = omega arith
count_below-le f (suc n) = ground (arith, count_below-le f n)

-- A slot that is fixed stays fixed.
abbrev pub Keeps : (ℕ → Bool) → (ℕ → Bool) → Type 0
Keeps f g = (j : ℕ) → f j ≡ true → g j ≡ true

pub count_below_mono : (f g : ℕ → Bool) (n : ℕ) → Keeps f g → count_below f n ≤ count_below g n
count_below_mono f g zero h = omega arith
count_below_mono f g (suc n) h = ground (arith, count_below_mono f g n h, h n)

pub count_below-grows :
    (f g : ℕ → Bool) (n k : ℕ)
    → Keeps f g
    → k < n
    → f k ≡ false
    → g k ≡ true
    → count_below f n < count_below g n
count_below-grows f g zero k h lt fk gk = absurd (omega arith)
count_below-grows f g (suc n) k h lt fk gk = elim (ℕ_discrete k n) [
  | yes e ↦ ground (arith, count_below_mono f g n h)
  | no ne ↦ ground (arith, count_below-grows f g n k h (omega arith) fk gk, h n)
]

pub count_below-full : (f : ℕ → Bool) (n j : ℕ) → n ≤ count_below f n → j < n → f j ≡ true
count_below-full f zero j h lt = absurd (omega arith)
count_below-full f (suc n) j h lt = elim (ℕ_discrete j n) [
  | yes e ↦ ground (arith, count_below-le f n)
  | no ne ↦ count_below-full f n j (ground (arith, count_below-le f n)) (omega arith)
]

pub count_below-missing :
    (f : ℕ → Bool) (n : ℕ) → (n ≤ count_below f n) ⊎ ((k : ℕ) × (k < n) × (f k ≡ false))
count_below-missing f zero = inl (omega arith)
count_below-missing f (suc n) = elim (Bool-cases (f n)) [
  | inr e ↦ inr (n, omega arith, e)
  | inl e ↦ elim (count_below-missing f n) [
    | inl h ↦ inl (ground arith)
    | inr (k, lt, m) ↦ inr (k, omega arith, m)
  ]
]
