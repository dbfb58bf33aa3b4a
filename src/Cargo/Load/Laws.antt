-- ===== src/Cargo/Load/Laws.antt =====
-- Which orders of the file HW5 loads, and that it loads no other.
use mathlib.Core.List.{Perm, perm_middle, append-nil}
use mathlib.Core.List.Perm
use system_programming_homew.Prelude.{
  ℕ, ◌+◌, ◌≤◌, ◌<◌, ◌≡◌, refl, true, List, [], ◌∷◌, ◌++◌, arith, none, some, Str, length, All,
  Option-cases, Bool-cases, inl, inr,
}
use system_programming_homew.Libc.Lines.{fgets_lines}
use system_programming_homew.Cargo.Queue.{Order, OrderQueue, queue_init, parse_priority}
use system_programming_homew.Cargo.Queue.Laws.{IsValid, queue_push-IsValid}
use system_programming_homew.Cargo.Load.{
  is_valid_recipient_name, scan_fields, parse_order, load_lines, load_orders_from_file,
}

-- What an accepted line holds.
pub record IsAccepted (o : Order) : Type 0 where
  pub id_pos : 1 ≤ o.id
  pub duration_pos : 1 ≤ o.duration_units
  pub named : is_valid_recipient_name o.recipient ≡ true
  pub known : (0 < o.priority) × (o.priority < 4)

parse_order-IsAccepted : (line : Str) (o : Order) → parse_order line ≡ some o → IsAccepted o
unfolding parse_order parse_priority
parse_order-IsAccepted line o h = elim (Option-cases (scan_fields line)) [
  | inl e ↦ ground arith
  | inr (f, e) ↦ elim (Bool-cases (is_valid_recipient_name f.recipient)) [
    | inl n ↦ ground arith
    | inr n ↦ ground arith
  ]
]

-- The accepted lines in the order of the file.
unfoldable pub accepted : List Str → List Order
accepted [] = []
accepted (line ∷ lines) = elim (parse_order line) [
  | none ↦ accepted lines
  | some order ↦ order ∷ accepted lines
]

record Loaded (lines : List Str) (before : OrderQueue) (count : ℕ) (r : OrderQueue × ℕ)
    : Type 0 where
  valid : IsValid r.0
  orders : Perm r.0.head (accepted lines ++ before.head)
  counted : r.1 ≡ count + length (accepted lines)

Perm-shift :
    {A : Type 0} (x : A) (xs ys zs : List A) → Perm ys (x ∷ zs) → Perm (xs ++ ys) (x ∷ xs ++ zs)
Perm-shift x xs ys zs h = Perm.trans (Perm.append (Perm.refl xs) h) (perm_middle xs zs)

load_lines-Loaded :
    (lines : List Str) (q : OrderQueue) (count : ℕ)
    → IsValid q
    → (r : OrderQueue × ℕ) × (load_lines (λ _. true) lines q count ≡ some r)
      × Loaded lines q count r
unfolding load_lines accepted
load_lines-Loaded [] q count v =
    ((q, count), refl, record { valid = v; orders = Perm.refl _; counted = omega arith })
load_lines-Loaded (line ∷ lines) q count v = elim (Option-cases (parse_order line)) [
  | inl e ↦
      let (r, run, d) = load_lines-Loaded lines q count v in
      (
        r,
        rw (e, load_lines) run,
        record {
          valid = d.valid;
          orders = rw (e, accepted) d.orders;
          counted = rw (e, accepted) d.counted;
        },
      )
  | inr (o, e) ↦
      let (q', pushed, v', perm, grows) = (queue_push-IsValid q o v).1 in
      let (r, run, d) = load_lines-Loaded lines q' (count + 1) v' in
      (
        r,
        rw (e, load_lines, pushed) run,
        record {
          valid = d.valid;
          orders =
              rw (e, accepted)
                (Perm.trans d.orders (Perm-shift o (accepted lines) q'.head q.head perm));
          counted = rw (e, accepted) (omega (arith, d.counted));
        },
      )
]

All-accepted : (lines : List Str) → All IsAccepted (accepted lines)
unfolding accepted
All-accepted [] = tt
All-accepted (line ∷ lines) = elim (Option-cases (parse_order line)) [
  | inl e ↦ rw (e, accepted) (All-accepted lines)
  | inr (o, e) ↦ rw (e, accepted) (parse_order-IsAccepted line o e, All-accepted lines)
]

init-IsValid : IsValid queue_init
unfolding queue_init
init-IsValid = omega arith

-- With memory for every node, loading a file succeeds. The queue is then valid and holds the orders
-- of the lines that `parse_order` accepts and no other; the count of valid orders is their number; and each of them
-- has a positive id and duration, a recipient of letters, digits and underscores, and one of the
-- three priorities.
pub load_orders_complete :
    (file : Str)
    → let orders = accepted (fgets_lines 256 file) in
      All IsAccepted orders
      × ((q : OrderQueue) × (count : ℕ) × (load_orders_from_file (λ _. true) (some file)
            ≡ some (q, count))
          × IsValid q
          × Perm q.head orders
          × (count ≡ length orders))
unfolding load_orders_from_file queue_init
load_orders_complete file =
    let lines = fgets_lines 256 file in
    let (r, run, d) = load_lines-Loaded lines queue_init 0 init-IsValid in
    (
      All-accepted lines,
      (r.0, r.1, run, d.valid, rw append-nil at d.orders, omega (arith, d.counted)),
    )
