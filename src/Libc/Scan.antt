-- ===== src/Libc/Scan.antt =====
-- `sscanf` with `%d` and `%Ns`, and `strtol` in base 10. A conversion skips white space first; `none`
-- is a conversion that fails.
use system_programming_homew.Prelude.{
  ℕ, zero, suc, ◌+◌, ◌-◌, ◌*◌, ◌%◌, ◌≤◌, ◌≡◌, Bool, true, false, not, ◌&&◌, ◌==◌, leb,
  if◌then◌else◌, [], ◌∷◌, arith, Option, none, some, Str, is_space, is_digit, refl, ap, all_bytes,
}

unfoldable pub skip_space : Str → Str
skip_space [] = []
skip_space (c ∷ s) = if is_space c then skip_space s else c ∷ s

-- The value of the digits in front, and the rest.
unfoldable pub digits_from : ℕ → Str → ℕ × Str
digits_from acc [] = (acc, [])
digits_from acc (c ∷ s) =
    let rest = digits_from (acc * 10 + (c - b'0')) s in if is_digit c then rest else (acc, c ∷ s)

-- A sign (`true` for minus) and a magnitude.
pub record SignedNumber : Type 0 where
  pub negative : Bool
  pub magnitude : ℕ

unfoldable pub starts_with_digit : Str → Bool
starts_with_digit [] = false
starts_with_digit (c ∷ s) = is_digit c

unfoldable pub unsigned_at : Bool → Str → Option (SignedNumber × Str)
unfolding starts_with_digit digits_from
unsigned_at negative s =
    let (n, rest) = digits_from 0 s in
    if starts_with_digit s then some (record { negative = negative; magnitude = n }, rest) else none

unfoldable pub signed_at : Str → Option (SignedNumber × Str)
unfolding unsigned_at
signed_at [] = none
signed_at (c ∷ s) =
    if c == b'-'
    then unsigned_at true s
    else if c == b'+'
    then unsigned_at false s
    else unsigned_at false (c ∷ s)

-- `%d`, and the number that `strtol` finds
unfoldable pub scan_int : Str → Option (SignedNumber × Str)
unfolding signed_at skip_space
scan_int s = signed_at (skip_space s)

-- At most `width` bytes up to white space.
unfoldable pub word_at : ℕ → Str → Str × Str
word_at zero s = ([], s)
word_at (suc width) [] = ([], [])
word_at (suc width) (c ∷ s) =
    let (word, rest) = word_at width s in if is_space c then ([], c ∷ s) else (c ∷ word, rest)

-- `%Ns`
unfoldable pub scan_word : ℕ → Str → Option (Str × Str)
unfolding word_at skip_space
scan_word width s =
    let (word, rest) = word_at width (skip_space s) in
    elim word [ [] ↦ none | c ∷ w ↦ some (c ∷ w, rest) ]

-- What `%ld` stores: a value out of the range of `long` is taken as its nearest end, as glibc does
-- (the language leaves it undefined).
abbrev pub long_max : ℕ
long_max = 9223372036854775807

unfoldable pub stored_long : SignedNumber → SignedNumber
stored_long n =
    if n.negative
    then record n { magnitude = if leb n.magnitude long_max then n.magnitude else long_max + 1 }
    else record n { magnitude = if leb n.magnitude long_max then n.magnitude else long_max }

-- What `%d` stores: the last 32 bits of that, in two's complement.
unfoldable pub stored_int : SignedNumber → SignedNumber
unfolding stored_long
stored_int n =
    let low = (stored_long n).magnitude % 4294967296 in
    let bits = if n.negative then (4294967296 - low) % 4294967296 else low in
    if leb bits 2147483647
    then record { negative = false; magnitude = bits }
    else record { negative = true; magnitude = 4294967296 - bits }

-- The bytes of a buffer up to the first NUL.
unfoldable pub c_string : Str → Str
c_string [] = []
c_string (c ∷ s) = if c == 0 then [] else c ∷ c_string s

-- Is a value at least 1, as an int?
abbrev pub is_positive : SignedNumber → Bool
is_positive n = not n.negative && leb 1 n.magnitude

abbrev pub int_max : ℕ
int_max = 2147483647

-- `parse_positive_int` of HW5/main.c and HW6/magic_common.c, and `parse_positive` of HW3/hw3.c: the
-- whole text is a number from 1 to INT_MAX. A value beyond `long` sets `errno` or is clamped, and is
-- beyond INT_MAX in either case.
unfoldable pub parse_positive_int : Str → Option ℕ
unfolding scan_int
parse_positive_int text = elim (scan_int text) [
  | none ↦ none
  | some (n, end) ↦ elim end [
    | [] ↦ if is_positive n && leb n.magnitude int_max then some n.magnitude else none
    | c ∷ s ↦ none
  ]
]

-- Whatever is accepted is a positive `int`.
pub parse_positive_int_bounds :
    (text : Str) (n : ℕ) → parse_positive_int text ≡ some n → (1 ≤ n) × (n ≤ int_max)
unfolding parse_positive_int
parse_positive_int_bounds text n h = ground arith

pub stored_long-fits :
    (n : ℕ)
    → n ≤ long_max
    → stored_long (record { negative = false; magnitude = n })
      ≡ record { negative = false; magnitude = n }
unfolding stored_long
stored_long-fits n h = let e : leb n long_max ≡ true = ground arith in rw e refl

pub stored_int-fits :
    (n : ℕ)
    → n ≤ int_max
    → stored_int (record { negative = false; magnitude = n })
      ≡ record { negative = false; magnitude = n }
unfolding stored_int stored_long
stored_int-fits n h =
    let e : leb n long_max ≡ true = ground arith in
    let f : n % 4294967296 ≡ n = omega arith in
    let g : leb n 2147483647 ≡ true = ground arith in rw (e, f, g) refl

pub c_string-plain : (s : Str) → all_bytes (λ c. not (c == 0)) s ≡ true → c_string s ≡ s
unfolding c_string
c_string-plain [] h = refl
c_string-plain (c ∷ s) h =
    let e : (c == 0) ≡ false = ground arith in rw e (ap (◌∷◌ c) (c_string-plain s (ground arith)))
