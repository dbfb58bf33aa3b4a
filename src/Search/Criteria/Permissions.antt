-- ===== src/Search/Criteria/Permissions.antt =====
-- The permissions of HW1.
use system_programming_homew.Prelude.{
  ℕ, ◌+◌, ◌*◌, ◌/◌, ◌%◌, ◌<◌, ◌≡◌, ◌↔◌, inl, inr, refl, true, length, ◌==◌, if◌then◌else◌, List, [],
  ◌∷◌, Str, arith, Bool-cases,
}
use system_programming_homew.Search.Criteria.{
  macros, match_bits, match_permission, parse_permission,
}

abbrev pub digit : ℕ → ℕ
digit c = if c == b'-' then 0 else 1

-- The octal digit of three characters: 4 for reading, 2 for writing, 1 for executing.
abbrev pub octal : ℕ → ℕ → ℕ → ℕ
octal r w x = 4 * digit r + 2 * digit w + digit x

-- The bits of the macros are as the characters want them.
abbrev Wanted : ℕ → Str → List ℕ → Type 0
Wanted mode [] [] = Unit
Wanted mode (c ∷ cs) (macro ∷ rest) = (mode / macro % 2 ≡ digit c) × Wanted mode cs rest
Wanted mode [] (macro ∷ rest) = ⊥
Wanted mode (c ∷ cs) [] = ⊥

bits_value :
    (n a8 a7 a6 a5 a4 a3 a2 a1 a0 : ℕ)
    → a8 < 2
    → a7 < 2
    → a6 < 2
    → a5 < 2
    → a4 < 2
    → a3 < 2
    → a2 < 2
    → a1 < 2
    → a0 < 2
    → ((n / 256 % 2 ≡ a8)
        × ((n / 128 % 2 ≡ a7)
            × ((n / 64 % 2 ≡ a6)
                × ((n / 32 % 2 ≡ a5)
                    × ((n / 16 % 2 ≡ a4)
                        × ((n / 8 % 2 ≡ a3)
                            × ((n / 4 % 2 ≡ a2)
                                × ((n / 2 % 2 ≡ a1) × ((n / 1 % 2 ≡ a0) × (Unit {0}))))))))))
      ↔ (n % 512
          ≡ 64 * (4 * a8 + 2 * a7 + a6) + 8 * (4 * a5 + 2 * a4 + a3) + (4 * a2 + 2 * a1 + a0))
bits_value n a8 a7 a6 a5 a4 a3 a2 a1 a0 l8 l7 l6 l5 l4 l3 l2 l1 l0 = (
  λ (h8, (h7, (h6, (h5, (h4, (h3, (h2, (h1, (h0, end))))))))).
      let e1 : n % 2 ≡ a0 = omega (arith, h0) in
      let e2 : n % 4 ≡ 2 * a1 + a0 = omega (arith, h1, e1) in
      let e3 : n % 8 ≡ 4 * a2 + 2 * a1 + a0 = omega (arith, h2, e2) in
      let e4 : n % 16 ≡ 8 * a3 + 4 * a2 + 2 * a1 + a0 = omega (arith, h3, e3) in
      let e5 : n % 32 ≡ 16 * a4 + 8 * a3 + 4 * a2 + 2 * a1 + a0 = omega (arith, h4, e4) in
      let e6 : n % 64 ≡ 32 * a5 + 16 * a4 + 8 * a3 + 4 * a2 + 2 * a1 + a0 = omega (arith, h5, e5) in
      let e7 : n % 128 ≡ 64 * a6 + 32 * a5 + 16 * a4 + 8 * a3 + 4 * a2 + 2 * a1 + a0 =
        omega (arith, h6, e6) in
      let e8 : n % 256 ≡ 128 * a7 + 64 * a6 + 32 * a5 + 16 * a4 + 8 * a3 + 4 * a2 + 2 * a1 + a0 =
        omega (arith, h7, e7) in
      omega (arith, h8, e8),
  λ e. (
    omega arith,
    (
      omega arith,
      (
        omega arith,
        (
          omega arith,
          (omega arith, (omega arith, (omega arith, (omega arith, (omega arith, tt))))),
        ),
      ),
    ),
  ),
)

match_bits-Wanted :
    (mode : ℕ) (cs : Str) (ms : List ℕ)
    → length cs ≡ length ms
    → (match_bits mode (parse_permission cs) ms ≡ true) ↔ Wanted mode cs ms
unfolding match_bits parse_permission
match_bits-Wanted mode [] [] h = (λ e. tt, λ g. refl)
match_bits-Wanted mode (c ∷ cs) [] h = absurd (omega arith)
match_bits-Wanted mode [] (m ∷ ms) h = absurd (omega arith)
match_bits-Wanted mode (c ∷ cs) (m ∷ ms) h =
    let (to, from) = match_bits-Wanted mode cs ms (omega arith) in
    elim (Bool-cases (mode / m % 2 == 1)) [
      | inl p ↦ elim (Bool-cases (c == b'-')) [
        | inl q ↦ rw (p, q) (λ e. absurd (ground arith), λ g. absurd (ground (arith, g.0)))
        | inr q ↦ rw (p, q) (λ e. (ground arith, to e), λ g. from g.1)
      ]
      | inr p ↦ elim (Bool-cases (c == b'-')) [
        | inl q ↦ rw (p, q) (λ e. (ground arith, to e), λ g. from g.1)
        | inr q ↦ rw (p, q) (λ e. absurd (ground arith), λ g. absurd (ground (arith, g.0)))
      ]
    ]

-- A text of nine permission characters is met exactly by the modes whose last nine bits, in octal, are
-- the digits of the owner, the group and the others: each digit is 4, 2 and 1 for the first, second
-- and third character of its group that is not a dash.
pub match_permission_iff :
    (mode r w x r' w' x' r'' w'' x'' : ℕ)
    → (match_permission mode (r ∷ w ∷ x ∷ r' ∷ w' ∷ x' ∷ r'' ∷ w'' ∷ x'' ∷ []) ≡ true)
      ↔ (mode % 512 ≡ 64 * octal r w x + 8 * octal r' w' x' + octal r'' w'' x'')
unfolding match_permission
match_permission_iff mode r w x r' w' x' r'' w'' x'' =
    let cs : Str = r ∷ w ∷ x ∷ r' ∷ w' ∷ x' ∷ r'' ∷ w'' ∷ x'' ∷ [] in
    let (to, from) = match_bits-Wanted mode cs macros refl in
    let (there, back) =
      bits_value mode (digit r) (digit w) (digit x) (digit r') (digit w') (digit x') (digit r'')
        (digit w'') (digit x'') (ground arith) (ground arith) (ground arith) (ground arith)
        (ground arith) (ground arith) (ground arith) (ground arith) (ground arith) in
    (λ h. there (to h), λ e. from (back e))
