-- ===== src/Libc/Lines.antt =====
-- `fgets(line, size, file)` until the end of the file.
use system_programming_homew.Prelude.{
  ℕ, ◌+◌, ◌-◌, ◌≤◌, ◌<◌, ◌≡◌, true, false, not, all_bytes, length, arith, refl, ap, ◌||◌, ◌==◌,
  if◌then◌else◌, List, [], ◌∷◌, ◌++◌, Str, Bool-cases, inl, inr, ◌∙◌,
}

cons_line : ℕ → List Str → List Str
cons_line c [] = (c ∷ []) ∷ []
cons_line c (line ∷ lines) = (c ∷ line) ∷ lines

-- `room` bytes are left in the buffer; a line ends with its newline or where the buffer is full.
lines_from : ℕ → ℕ → Str → List Str
unfolding cons_line
lines_from limit room [] = []
lines_from limit room (c ∷ s) =
    let last = (c == 10) || (room == 1) in
    let rest = lines_from limit (if last then limit else room - 1) s in
    if last then (c ∷ []) ∷ rest else cons_line c rest

-- The texts that `fgets` with a buffer of `size` bytes reads in turn.
unfoldable pub fgets_lines : ℕ → Str → List Str
unfolding lines_from
fgets_lines size file = lines_from (size - 1) (size - 1) file

abbrev joined : List Str → Str
joined [] = []
joined (line ∷ lines) = line ++ joined lines

joined-cons_line : (c : ℕ) (lines : List Str) → joined (cons_line c lines) ≡ c ∷ joined lines
unfolding cons_line
joined-cons_line c [] = refl
joined-cons_line c (line ∷ lines) = refl

joined-lines_from : (limit room : ℕ) (s : Str) → joined (lines_from limit room s) ≡ s
unfolding lines_from
joined-lines_from limit room [] = refl
joined-lines_from limit room (c ∷ s) = elim (Bool-cases ((c == 10) || (room == 1))) [
  | inl e ↦ rw e (ap (◌∷◌ c) (joined-lines_from limit limit s))
  | inr e ↦ rw e (
      joined-cons_line c (lines_from limit (room - 1) s)
      ∙ ap (◌∷◌ c) (joined-lines_from limit (room - 1) s))
]

-- Reading by lines loses no byte and adds none.
pub joined-fgets_lines : (size : ℕ) (file : Str) → joined (fgets_lines size file) ≡ file
unfolding fgets_lines
joined-fgets_lines size file = joined-lines_from (size - 1) (size - 1) file

lines_from-line :
    (limit room : ℕ) (line rest : Str)
    → all_bytes (λ c. not (c == 10)) line ≡ true
    → length line < room
    → lines_from limit room (line ++ 10 ∷ rest) ≡ (line ++ 10 ∷ []) ∷ lines_from limit limit rest
unfolding lines_from cons_line
lines_from-line limit room [] rest plain lt = refl
lines_from-line limit room (c ∷ line) rest plain lt =
    let e : ((c == 10) || (room == 1)) ≡ false = ground arith in
    rw e
      (ap (cons_line c) (lines_from-line limit (room - 1) line rest (ground arith) (omega arith)))

-- A line that fits the buffer with its newline is read whole, and the rest of the file after it.
pub fgets_lines-line :
    (size : ℕ) (line rest : Str)
    → all_bytes (λ c. not (c == 10)) line ≡ true
    → length line + 2 ≤ size
    → fgets_lines size (line ++ 10 ∷ rest) ≡ (line ++ 10 ∷ []) ∷ fgets_lines size rest
unfolding fgets_lines
fgets_lines-line size line rest plain le =
    lines_from-line (size - 1) (size - 1) line rest plain (omega arith)
