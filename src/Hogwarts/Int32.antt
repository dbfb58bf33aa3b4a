-- ===== src/Hogwarts/Int32.antt =====
-- The `int` quantities of HW6/hogwarts.c, as 32-bit patterns in two's complement. An addition that
-- overflows is undefined in C; here it wraps, as on the machines that the program runs on, and no
-- theorem is about that case.
use system_programming_homew.Prelude.{
  ℕ, ◌+◌, ◌-◌, ◌%◌, ◌^◌, Bool, true, ltb, leb, if◌then◌else◌, ◌∷◌, Str,
}
use system_programming_homew.Libc.Decimal.{decimal}

abbrev pub int_mod : ℕ
int_mod = 2 ^ 32

-- the patterns from here on are negative
abbrev pub sign : ℕ
sign = 2 ^ 31

abbrev pub add_int : ℕ → ℕ → ℕ
add_int a b = (a + b) % int_mod

abbrev pub sub_int : ℕ → ℕ → ℕ
sub_int a b = (a + int_mod - b) % int_mod

abbrev pub lt_int : ℕ → ℕ → Bool
lt_int a b = ltb ((a + sign) % int_mod) ((b + sign) % int_mod)

-- `a <= 0`
abbrev pub le_zero_int : ℕ → Bool
le_zero_int a = if leb sign a then true else leb a 0

-- `%d`
unfoldable pub print_int : ℕ → Str
print_int a = if ltb a sign then decimal a else b'-' ∷ decimal (int_mod - a)
