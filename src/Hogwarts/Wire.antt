-- ===== src/Hogwarts/Wire.antt =====
-- HW6/magic_common.c: names, and the loop that sends a line.
use mathlib.Core.List.{append_assoc}
use system_programming_homew.Prelude.{
  ℕ, zero, suc, ◌≡◌, refl, Bool, false, ◌||◌, ◌==◌, ltb, leb, if◌then◌else◌, List, [], ◌∷◌, ◌++◌,
  Str, is_alnum, is_upper, is_digit, all_bytes, length, take, drop, take-append-drop,
}

abbrev pub max_line : ℕ
max_line = 512

unfoldable pub valid_username : Str → Bool
valid_username s =
    if (length s == 0) || leb 32 (length s)
    then false
    else all_bytes (λ c. is_alnum c || (c == b'_')) s

unfoldable pub valid_ingredient_name : Str → Bool
valid_ingredient_name s =
    if (length s == 0) || ltb 16 (length s)
    then false
    else all_bytes (λ c. is_upper c || is_digit c || (c == b'_')) s

-- What one call of `send` returns: a count of bytes taken, EINTR, or another error.
pub data SendReply : Type 0 where
  taken : ℕ → SendReply
  interrupted : SendReply
  broken : SendReply

pub data Outcome : Type 0 where
  finished : Outcome  -- returns 0
  failed : Outcome  -- returns -1
  pending : Outcome  -- `send` has not answered yet

-- What is on the wire, and how the call stands, after these replies. `rest` is `buf + sent`.
unfoldable pub send_all : Str → List SendReply → Str × Outcome
send_all [] replies = ([], finished)
send_all (c ∷ rest) [] = ([], pending)
send_all (c ∷ rest) (interrupted ∷ replies) = send_all (c ∷ rest) replies
send_all (c ∷ rest) (broken ∷ replies) = ([], failed)
send_all (c ∷ rest) (taken zero ∷ replies) = ([], failed)
send_all (c ∷ rest) (taken (suc n) ∷ replies) =
    let (wire, end) = send_all (drop n rest) replies in (c ∷ take n rest ++ wire, end)

-- The bytes that `send_line` hands to `send_all`.
unfoldable pub send_line : Str → Str
send_line line = take max_line line ++ 10 ∷ []

-- What reaches the wire is a front part of the buffer, whatever `send` answers, and the whole
-- buffer when the call returns 0. No answer of `send` makes it send a byte twice or skip one.
pub send_all_prefix :
    (replies : List SendReply) (buf : Str)
    → let (wire, end) = send_all buf replies in
      (left : Str) × (wire ++ left ≡ buf) × (end ≡ finished → left ≡ [])
unfolding send_all
send_all_prefix [] [] = ([], refl, λ _. refl)
send_all_prefix [] (c ∷ rest) = (c ∷ rest, refl, λ e. cc)
send_all_prefix (r ∷ rs) [] = ([], refl, λ _. refl)
send_all_prefix (interrupted ∷ rs) (c ∷ rest) = send_all_prefix rs (c ∷ rest)
send_all_prefix (broken ∷ rs) (c ∷ rest) = (c ∷ rest, refl, λ e. cc)
send_all_prefix (taken zero ∷ rs) (c ∷ rest) = (c ∷ rest, refl, λ e. cc)
send_all_prefix (taken (suc n) ∷ rs) (c ∷ rest) =
    let (left, e, whole) = send_all_prefix rs (drop n rest) in
    (left, simp (append_assoc, e, take-append-drop n rest), whole)
