-- ===== src/Libc/Printed.antt =====
-- What `%d` prints `%d` reads, and a word before white space is read as it stands.

use system_programming_homew.Prelude.{
  ℕ, zero, suc, ◌+◌, ◌*◌, ◌/◌, ◌%◌, ◌<◌, ◌≤◌, ◌≡◌, ◌≢◌, inl, inr, refl, ap, ◌∙◌, true, false, Bool,
  ◌==◌, ltb, [], ◌∷◌, ◌++◌, arith, Option, none, some, Str, is_space, is_digit, Bool-cases, length,
  all_bytes, not,
}
use system_programming_homew.Libc.Decimal.{decimal, digits_loop}
use system_programming_homew.Libc.Scan.{
  skip_space, digits_from, starts_with_digit, scan_int, scan_word, word_at,
}

abbrev pub pow10 : ℕ → ℕ
pow10 zero = 1
pow10 (suc k) = 10 * pow10 k

digits_loop-append :
    (fuel n : ℕ) (acc s : Str) → digits_loop fuel n acc ++ s ≡ digits_loop fuel n (acc ++ s)
unfolding digits_loop
digits_loop-append zero n acc s = refl
digits_loop-append (suc fuel) n acc s = elim (Bool-cases (ltb n 10)) [
  | inl e ↦ rw e refl
  | inr e ↦ rw e (digits_loop-append fuel (n / 10) ((n % 10 + b'0') ∷ acc) s)
]

digits_from-digit :
    (a d : ℕ) (s : Str) → d < 10 → digits_from a ((d + b'0') ∷ s) ≡ digits_from (a * 10 + d) s
unfolding digits_from
digits_from-digit a d s h =
    let e : is_digit (d + b'0') ≡ true = ground arith in
    rw e (ap (λ x. digits_from x s) (omega arith))

digits_from-stop : (n c : ℕ) (s : Str) → is_digit c ≡ false → digits_from n (c ∷ s) ≡ (n, c ∷ s)
unfolding digits_from
digits_from-stop n c s h = rw h refl

enough_fuel : (fuel n : ℕ) → 10 ≤ n → n < pow10 (suc fuel) → 1 ≤ fuel
enough_fuel zero n h lt = absurd (omega arith)
enough_fuel (suc fuel) n h lt = omega arith

-- Reading the digits printed leaves their value and what follows.
digits_loop-value :
    (fuel n : ℕ) (s : Str)
    → 1 ≤ fuel
    → n < pow10 fuel
    → digits_from 0 (digits_loop fuel n s) ≡ digits_from n s
unfolding digits_loop
digits_loop-value zero n s h lt = absurd (omega arith)
digits_loop-value (suc fuel) n s h lt = elim (Bool-cases (ltb n 10)) [
  | inl e ↦
      rw e (digits_from-digit 0 (n % 10) s (omega arith) ∙ ap (λ x. digits_from x s) (ground arith))
  | inr e ↦ rw e (
      digits_loop-value fuel (n / 10) ((n % 10 + b'0') ∷ s) (enough_fuel fuel n (ground arith) lt)
        (omega arith)
      ∙ digits_from-digit (n / 10) (n % 10) s (omega arith)
      ∙ ap (λ x. digits_from x s) (omega arith))
]

digits_loop-starts :
    (fuel n : ℕ) (s : Str)
    → 1 ≤ fuel
    → n < pow10 fuel
    → starts_with_digit (digits_loop fuel n s) ≡ true
unfolding digits_loop starts_with_digit
digits_loop-starts zero n s h lt = absurd (omega arith)
digits_loop-starts (suc fuel) n s h lt = elim (Bool-cases (ltb n 10)) [
  | inl e ↦ rw e (ground arith)
  | inr e ↦ rw e (
      digits_loop-starts fuel (n / 10) ((n % 10 + b'0') ∷ s) (enough_fuel fuel n (ground arith) lt)
        (omega arith))
]

-- A text that starts with a digit is a number without a sign.
scan_int-digits :
    (s : Str)
    → starts_with_digit s ≡ true
    → scan_int s
      ≡ some (record { negative = false; magnitude = (digits_from 0 s).0 }, (digits_from 0 s).1)
unfolding scan_int starts_with_digit
scan_int-digits [] h = absurd (ground arith)
scan_int-digits (c ∷ s) h =
    let a : is_space c ≡ false = ground arith in
    let b : (c == b'-') ≡ false = ground arith in
    let d : (c == b'+') ≡ false = ground arith in rw (a, b, d, h) refl

-- The number that was printed is read, up to the byte behind it.
pub scan_int-decimal :
    (n c : ℕ) (s : Str)
    → n < pow10 20
    → is_digit c ≡ false
    → scan_int (decimal n ++ c ∷ s) ≡ some (record { negative = false; magnitude = n }, c ∷ s)
unfolding decimal
scan_int-decimal n c s lt h =
    let e = digits_loop-append 20 n [] (c ∷ s) in
    let stop = digits_from-stop n c s h in
    ap scan_int e
    ∙ scan_int-digits (digits_loop 20 n (c ∷ s)) (digits_loop-starts 20 n (c ∷ s) (omega arith) lt)
    ∙ ap (λ p. some (record { negative = false; magnitude = p.0 }, p.1))
        (digits_loop-value 20 n (c ∷ s) (omega arith) lt ∙ stop)

word_at-all :
    (width : ℕ) (w s : Str) (c : ℕ)
    → length w ≤ width
    → all_bytes (λ x. not (is_space x)) w ≡ true
    → is_space c ≡ true
    → word_at width (w ++ c ∷ s) ≡ (w, c ∷ s)
unfolding word_at
word_at-all zero [] s c le h sp = refl
word_at-all (suc width) [] s c le h sp = rw sp refl
word_at-all zero (x ∷ w) s c le h sp = absurd (omega arith)
word_at-all (suc width) (x ∷ w) s c le h sp =
    let e : is_space x ≡ false = ground arith in
    let r = word_at-all width w s c (omega arith) (ground arith) sp in rw (e, r) refl

abbrev word_found : Str × Str → Option (Str × Str)
word_found p = elim p.0 [ [] ↦ none | c ∷ w ↦ some (c ∷ w, p.1) ]

pub scan_word-all :
    (width : ℕ) (w s : Str) (c : ℕ)
    → length w ≤ width
    → w ≢ []
    → all_bytes (λ x. not (is_space x)) w ≡ true
    → is_space c ≡ true
    → scan_word width (w ++ c ∷ s) ≡ some (w, c ∷ s)
unfolding scan_word
scan_word-all width [] s c le ne h sp = absurd (ne refl)
scan_word-all width (x ∷ w) s c le ne h sp =
    let e : is_space x ≡ false = ground arith in
    let p : skip_space (x ∷ (w ++ c ∷ s)) ≡ x ∷ (w ++ c ∷ s) = rw e refl in
    let q = word_at-all width (x ∷ w) s c le h sp in
    let r : word_at width (skip_space (x ∷ (w ++ c ∷ s))) ≡ (x ∷ w, c ∷ s) =
      ap (word_at width) p ∙ q in
    ap word_found r

digits_loop-all :
    (p : ℕ → Bool)
    → ((d : ℕ) → d < 10 → p (d + b'0') ≡ true)
    → (fuel n : ℕ) (acc : Str) → all_bytes p acc ≡ true
    → all_bytes p (digits_loop fuel n acc) ≡ true
unfolding digits_loop
digits_loop-all p h zero n acc a = a
digits_loop-all p h (suc fuel) n acc a =
    let next : all_bytes p ((n % 10 + b'0') ∷ acc) ≡ true = rw (h (n % 10) (omega arith)) a in
    elim (Bool-cases (ltb n 10)) [
      | inl e ↦ rw e next
      | inr e ↦ rw e (digits_loop-all p h fuel (n / 10) ((n % 10 + b'0') ∷ acc) next)
    ]

-- What holds of each digit holds of each byte of a printed number.
pub decimal-all :
    (p : ℕ → Bool)
    → ((d : ℕ) → d < 10 → p (d + b'0') ≡ true)
    → (n : ℕ) → all_bytes p (decimal n) ≡ true
unfolding decimal
decimal-all p h n = digits_loop-all p h 20 n [] refl

length-digits_loop : (fuel n : ℕ) (acc : Str) → length (digits_loop fuel n acc) ≤ fuel + length acc
unfolding digits_loop
length-digits_loop zero n acc = omega arith
length-digits_loop (suc fuel) n acc =
    ground (arith, length-digits_loop fuel (n / 10) ((n % 10 + b'0') ∷ acc))

pub length-decimal : (n : ℕ) → length (decimal n) ≤ 20
unfolding decimal
length-decimal n = omega (arith, length-digits_loop 20 n [])

pub all_bytes-append :
    (p : ℕ → Bool) (s t : Str)
    → all_bytes p s ≡ true
    → all_bytes p t ≡ true
    → all_bytes p (s ++ t) ≡ true
all_bytes-append p [] t a b = b
all_bytes-append p (c ∷ s) t a b = ground (arith, all_bytes-append p s t)

pub all_bytes-weaken :
    (p q : ℕ → Bool)
    → ((c : ℕ) → p c ≡ true → q c ≡ true)
    → (s : Str) → all_bytes p s ≡ true
    → all_bytes q s ≡ true
all_bytes-weaken p q h [] a = refl
all_bytes-weaken p q h (c ∷ s) a = ground (arith, h c, all_bytes-weaken p q h s)
