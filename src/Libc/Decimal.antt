-- ===== src/Libc/Decimal.antt =====
-- `%d` of a number: its decimal digits.
use system_programming_homew.Prelude.{ℕ, zero, suc, ◌+◌, ◌/◌, ◌%◌, if◌then◌else◌, ltb, [], ◌∷◌, Str}

-- Last digit first into the accumulator, on fuel.
unfoldable pub digits_loop : ℕ → ℕ → Str → Str
digits_loop zero n acc = acc
digits_loop (suc fuel) n acc =
    let digit = n % 10 + b'0' in
    let rest = digits_loop fuel (n / 10) (digit ∷ acc) in if ltb n 10 then digit ∷ acc else rest

-- No value printed has more than 20 digits.
unfoldable pub decimal : ℕ → Str
unfolding digits_loop
decimal n = digits_loop 20 n []
