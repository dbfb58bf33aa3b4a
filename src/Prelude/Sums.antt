-- ===== src/Prelude/Sums.antt =====
-- Sums over lists.
use Prim.Native.Nat.{ℕ, zero, suc, ◌+◌, ◌≤◌, ◌<◌}
use mathlib.Core.Path.{◌≡◌, refl, ap, ◌∙◌}
use mathlib.Core.List.{List, [], ◌∷◌, ◌++◌, Perm, Permᴰ}
use mathlib.Core.Logic.{∥∥₁_elim}
use native.Mathlib.Nat.{ℕ_set}
use mathlib.Core.Option.{some}
use system_programming_homew.Prelude.Tests.{if◌then◌else◌, ltb, ◌==◌}
use native.Mathlib.Omega.{arith}
use native.Mathlib.Decide.{ℕ_discrete}
use system_programming_homew.Prelude.Lists.{length, get_elem?, set, All}

-- The sum of a measure over a list.
abbrev pub sum_of {ℓ} : {A : Type ℓ} → (A → ℕ) → List A → ℕ
sum_of w [] = 0
sum_of w (x ∷ xs) = w x + sum_of w xs

-- Written with the old and the new share on opposite sides, so that nothing is subtracted.
pub sum_of-set {ℓ} :
    {A : Type ℓ} (w : A → ℕ) (xs : List A) (i : ℕ) (x v : A)
    → get_elem? xs i ≡ some x
    → sum_of w (set xs i v) + w x ≡ sum_of w xs + w v
sum_of-set w [] i x v h = ground arith
sum_of-set w (y ∷ ys) zero x v h = ground arith
sum_of-set w (y ∷ ys) (suc i) x v h = omega (arith, sum_of-set w ys i x v h)

pub sum_of-zero {ℓ} :
    {A : Type ℓ} (w : A → ℕ) (xs : List A) → All (λ x. w x ≡ 0) xs → sum_of w xs ≡ 0
sum_of-zero w [] h = refl
sum_of-zero w (x ∷ xs) h = omega (arith, sum_of-zero w xs h.1)

pub le-sum_of {ℓ} :
    {A : Type ℓ} (w : A → ℕ) (xs : List A) (i : ℕ) (x : A)
    → get_elem? xs i ≡ some x
    → w x ≤ sum_of w xs
le-sum_of w [] i x h = ground arith
le-sum_of w (y ∷ ys) zero x h = ground arith
le-sum_of w (y ∷ ys) (suc i) x h = omega (arith, le-sum_of w ys i x h)

pub sum_of-zero_get {ℓ} :
    {A : Type ℓ} (w : A → ℕ) (xs : List A)
    → ((i : ℕ) (x : A) → get_elem? xs i ≡ some x → w x ≡ 0)
    → sum_of w xs ≡ 0
sum_of-zero_get w [] h = refl
sum_of-zero_get w (x ∷ xs) h =
    omega (arith, h 0 x refl, sum_of-zero_get w xs (λ i y e. h (suc i) y e))

sum_of-le_length {ℓ} :
    {A : Type ℓ} (w : A → ℕ) (xs : List A) → ((x : A) → w x ≤ 1) → sum_of w xs ≤ length xs
sum_of-le_length w [] h = omega arith
sum_of-le_length w (x ∷ xs) h = omega (arith, h x, sum_of-le_length w xs h)

-- A sum of zeros and ones that is as large as the list has ones only.
pub sum_of-full {ℓ} :
    {A : Type ℓ} (w : A → ℕ) (xs : List A) (i : ℕ) (x : A)
    → ((x : A) → w x ≤ 1)
    → sum_of w xs ≡ length xs
    → get_elem? xs i ≡ some x
    → w x ≡ 1
sum_of-full w [] i x h e g = cc
sum_of-full w (y ∷ ys) zero x h e g = ground (arith, h y, sum_of-le_length w ys h)
sum_of-full w (y ∷ ys) (suc i) x h e g =
    sum_of-full w ys i x h (omega (arith, h y, sum_of-le_length w ys h)) g

pub sum_of-append {ℓ} :
    {A : Type ℓ} (w : A → ℕ) (xs ys : List A) → sum_of w (xs ++ ys) ≡ sum_of w xs + sum_of w ys
sum_of-append w [] ys = omega arith
sum_of-append w (x ∷ xs) ys = omega (arith, sum_of-append w xs ys)

sum_of-rearranged {ℓ} :
    {A : Type ℓ} (w : A → ℕ) {xs ys : List A} → Permᴰ xs ys → sum_of w xs ≡ sum_of w ys
sum_of-rearranged w Permᴰ.nil = refl
sum_of-rearranged w (Permᴰ.cons e p) = omega (arith, ap w e, sum_of-rearranged w p)
sum_of-rearranged w (Permᴰ.swap {l = l} e f) = omega (arith, ap w e, ap w f)
sum_of-rearranged w (Permᴰ.trans p q) = sum_of-rearranged w p ∙ sum_of-rearranged w q

pub sum_of-perm {ℓ} :
    {A : Type ℓ} (w : A → ℕ) (xs ys : List A) → Perm xs ys → sum_of w xs ≡ sum_of w ys
sum_of-perm w xs ys p = ∥∥₁_elim p (ℕ_set _ _) (sum_of-rearranged w)

pub sum_of-le_get {ℓ} :
    {A : Type ℓ} (v w : A → ℕ) (xs : List A)
    → ((i : ℕ) (x : A) → get_elem? xs i ≡ some x → v x ≤ w x)
    → sum_of v xs ≤ sum_of w xs
sum_of-le_get v w [] h = omega arith
sum_of-le_get v w (x ∷ xs) h =
    omega (arith, h 0 x refl, sum_of-le_get v w xs (λ i y e. h (suc i) y e))

abbrev pub sum_below : (ℕ → ℕ) → ℕ → ℕ
sum_below room zero = 0
sum_below room (suc n) = room n + sum_below room n

module _ {ℓ} {A : Type ℓ} (slot : A → ℕ) (room : ℕ → ℕ) (xs : List A)
    (fits : (k : ℕ) → sum_of (λ x. if slot x == k then 1 else 0) xs ≤ room k) where
  in_slots_below : (n : ℕ) → sum_of (λ x. if ltb (slot x) n then 1 else 0) xs ≤ sum_below room n
  in_slots_below zero =
      omega
        (arith, sum_of-zero_get (λ x. if ltb (slot x) 0 then 1 else 0) xs (λ i x e. ground arith))
  in_slots_below (suc n) = omega (arith, in_slots_below n, fits n, one_more n xs)
    where
      one_more :
          (n : ℕ) (ys : List A)
          → sum_of (λ x. if ltb (slot x) (suc n) then 1 else 0) ys
            ≡ sum_of (λ x. if slot x == n then 1 else 0) ys
              + sum_of (λ x. if ltb (slot x) n then 1 else 0) ys
      one_more n [] = omega arith
      one_more n (y ∷ ys) = ground (arith, one_more n ys)

  -- Things in slots below `n`, of which no slot has more than its room.
  pub pigeonhole :
      (n : ℕ)
      → ((i : ℕ) (x : A) → get_elem? xs i ≡ some x → slot x < n)
      → length xs ≤ sum_below room n
  pigeonhole n h = omega (arith, in_slots_below n, all_counted xs h)
    where
      all_counted :
          (ys : List A)
          → ((i : ℕ) (x : A) → get_elem? ys i ≡ some x → slot x < n)
          → length ys ≡ sum_of (λ x. if ltb (slot x) n then 1 else 0) ys
      all_counted [] h = omega arith
      all_counted (y ∷ ys) h = ground (arith, h 0 y refl, all_counted ys (λ i x e. h (suc i) x e))

pub sum_below-same :
    (f g : ℕ → ℕ) (n : ℕ) → ((k : ℕ) → k < n → f k ≡ g k) → sum_below f n ≡ sum_below g n
sum_below-same f g zero h = refl
sum_below-same f g (suc n) h =
    omega (arith, h n (omega arith), sum_below-same f g n (λ k lt. h k (omega arith)))

pub sum_below-zero : (f : ℕ → ℕ) (n : ℕ) → ((k : ℕ) → f k ≡ 0) → sum_below f n ≡ 0
sum_below-zero f zero h = refl
sum_below-zero f (suc n) h = omega (arith, h n, sum_below-zero f n h)

pub sum_below-add :
    (f g : ℕ → ℕ) (n : ℕ) → sum_below (λ k. f k + g k) n ≡ sum_below f n + sum_below g n
sum_below-add f g zero = omega arith
sum_below-add f g (suc n) = omega (arith, sum_below-add f g n)

-- A place that held 0 gets `v`.
pub sum_below-put :
    (f : ℕ → ℕ) (i v n : ℕ)
    → i < n
    → f i ≡ 0
    → sum_below (λ j. if j == i then v else f j) n ≡ sum_below f n + v
sum_below-put f i v zero h z = absurd (omega arith)
sum_below-put f i v (suc n) h z = elim (ℕ_discrete n i) [
  | yes same ↦ ground (
    arith,
    z,
    ap f same,
    sum_below-same (λ j. if j == i then v else f j) f n (λ k lt. ground arith),
  )
  | no other ↦ ground (arith, sum_below-put f i v n (omega arith) z)
]
