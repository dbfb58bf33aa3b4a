-- ===== src/Cargo/Load.antt =====
-- HW5/main.c: reading the orders file (`load_orders_from_file`).
pub mod Laws
pub mod Printed
mod Tests
use mathlib.Core.List.{Perm}
use mathlib.Core.List.Perm
use system_programming_homew.Prelude.{
  ℕ, zero, suc, ◌+◌, ◌%◌, ◌≤◌, ◌<◌, ◌≡◌, ◌≢◌, refl, Bool, true, false, not, ◌&&◌, ◌||◌, ◌==◌,
  if◌then◌else◌, List, [], ◌∷◌, ◌++◌, arith, Option, none, some, Str, is_alnum, all_bytes, length,
  All, Option-cases, Bool-cases, inl, inr, ◌⊎◌,
}
use system_programming_homew.Libc.Lines.{fgets_lines}
use system_programming_homew.Libc.Scan.{
  SignedNumber, stored_int, c_string, is_positive, scan_int, scan_word, skip_space,
}
use system_programming_homew.Cargo.Queue.{
  Priority, Order, OrderQueue, size_mod, queue_init, queue_push, parse_priority,
}
use system_programming_homew.Cargo.Queue.Laws.{IsValid, queue_push-IsValid}

pub is_valid_recipient_name : Str → Bool
is_valid_recipient_name [] = false
is_valid_recipient_name (c ∷ s) = all_bytes (λ ch. is_alnum ch || (ch == b'_')) (c ∷ s)

infixl 5 ◌>>=◌
abbrev ◌>>=◌ {ℓ κ} : {A : Type ℓ} {B : Type κ} → Option A → (A → Option B) → Option B
none >>= f = none
some a >>= f = f a

-- The `sscanf` with `" %d %32s %8s %d %c"`: all four fields, and no byte after them.
pub record Fields : Type 0 where
  pub id : SignedNumber
  pub recipient : Str
  pub priority_text : Str
  pub duration_units : SignedNumber

unfoldable pub scan_fields : Str → Option Fields
scan_fields line = do
  (id, r1) ← scan_int (c_string line)
  (recipient, r2) ← scan_word 32 r1
  (priority_text, r3) ← scan_word 8 r2
  (duration_units, r4) ← scan_int r3
  elim (skip_space r4) [
    | [] ↦ some (record {
      id = stored_int id;
      recipient = recipient;
      priority_text = priority_text;
      duration_units = stored_int duration_units;
    })
    | extra ∷ s ↦ none
  ]

-- One round of the loop up to the push: `none` is a `continue`.
unfoldable pub parse_order : Str → Option Order
unfolding is_valid_recipient_name
parse_order line = do
  fields ← scan_fields line
  if not (is_positive fields.id && is_positive fields.duration_units)
      then none
      else if not (is_valid_recipient_name fields.recipient)
      then none
      else do
        priority ← parse_priority fields.priority_text
        some (record {
          id = fields.id.magnitude;
          recipient = fields.recipient;
          priority = priority;
          duration_units = fields.duration_units.magnitude;
        })

-- The loop over the lines. `mem k` says whether the k-th allocation succeeds. The number is
-- `valid_order_count`; `none` is the return value -1.
load_lines : (ℕ → Bool) → List Str → OrderQueue → ℕ → Option (OrderQueue × ℕ)
load_lines mem [] queue count = some (queue, count)
load_lines mem (line ∷ lines) queue count = elim (parse_order line) [
  | none ↦ load_lines mem lines queue count
  | some order ↦ elim (queue_push (mem count) queue order) [
    | none ↦ none
    | some queue' ↦ load_lines mem lines queue' (count + 1)
  ]
]

-- `none` for the file is a failed `fopen`.
pub load_orders_from_file : (ℕ → Bool) → Option Str → Option (OrderQueue × ℕ)
unfolding load_lines
load_orders_from_file mem none = none
load_orders_from_file mem (some file) = load_lines mem (fgets_lines 256 file) queue_init 0
