-- ===== src/Cargo/Load/Printed.antt =====
-- HW5 loads the orders that are written one to a line.
use mathlib.Core.List.{Perm, append_assoc}
use mathlib.Core.Path.{subst}
use system_programming_homew.Prelude.{
  ℕ, ◌≤◌, ◌<◌, ◌≡◌, ◌≢◌, refl, ap, ◌∙◌, Bool, true, false, not, ◌&&◌, ◌||◌, ◌==◌, leb, List, [],
  ◌∷◌, ◌++◌, arith, none, some, Str, is_alnum, is_space, all_bytes, length, length-append, All,
  ℕ_discrete,
}
use system_programming_homew.Libc.Lines.{fgets_lines, fgets_lines-line}
use system_programming_homew.Libc.Decimal.{decimal}
use system_programming_homew.Libc.Printed.{
  scan_int-decimal, scan_word-all, decimal-all, length-decimal, all_bytes-append, all_bytes-weaken,
}
use system_programming_homew.Libc.Scan.{
  SignedNumber, c_string, int_max, stored_int-fits, c_string-plain, scan_int, scan_word, skip_space,
}
use system_programming_homew.Cargo.Queue.{Order, OrderQueue, priority_to_string}
use system_programming_homew.Cargo.Queue.Laws.{IsValid, parse_priority_iff}
use system_programming_homew.Cargo.Load.{
  is_valid_recipient_name, scan_fields, parse_order, load_orders_from_file,
}
use system_programming_homew.Cargo.Load.Laws.{accepted, load_orders_complete}

-- An order as a line of the file.
abbrev pub duration_part : Order → Str
duration_part o = b' ' ∷ decimal o.duration_units

abbrev pub priority_part : Order → Str
priority_part o = b' ' ∷ priority_to_string o.priority ++ duration_part o

abbrev pub order_line : Order → Str
order_line o = decimal o.id ++ (b' ' ∷ (o.recipient ++ priority_part o))

abbrev pub orders_text : List Order → Str
orders_text [] = []
orders_text (o ∷ os) = order_line o ++ 10 ∷ orders_text os

-- What the checks of the loader ask of an order.
pub record IsWritable (o : Order) : Type 0 where
  pub id_range : (1 ≤ o.id) × (o.id ≤ int_max)
  pub duration_range : (1 ≤ o.duration_units) × (o.duration_units ≤ int_max)
  pub named : (o.recipient ≢ []) × (all_bytes (λ c. is_alnum c || (c == b'_')) o.recipient ≡ true)
  pub short : length o.recipient ≤ 32
  pub known : (0 < o.priority) × (o.priority < 4)

abbrev is_text : ℕ → Bool
is_text c = not (c == 0) && not (c == 10)

-- What the three names of priorities have.
record IsWord (s : Str) : Type 0 where
  some_byte : s ≢ []
  narrow : length s ≤ 8
  unspaced : all_bytes (λ c. not (is_space c)) s ≡ true
  text : all_bytes is_text s ≡ true

priority-IsWord : (p : ℕ) → 0 < p → p < 4 → IsWord (priority_to_string p)
unfolding priority_to_string
priority-IsWord p lo hi = elim (ℕ_discrete p 1) [
  | yes e ↦
      rw e (record {
        some_byte = λ q. ground arith;
        narrow = omega arith;
        unspaced = refl;
        text = refl;
      })
  | no n1 ↦ elim (ℕ_discrete p 2) [
    | yes e ↦ rw e (record {
      some_byte = λ q. ground arith;
      narrow = omega arith;
      unspaced = refl;
      text = refl;
    })
    | no n2 ↦
        let e : p ≡ 3 = omega arith in
        rw e (record {
          some_byte = λ q. ground arith;
          narrow = omega arith;
          unspaced = refl;
          text = refl;
        })
  ]
]

order_line-text : (o : Order) → IsWritable o → all_bytes is_text (order_line o) ≡ true
order_line-text o w =
    let digits : (n : ℕ) → all_bytes is_text (decimal n) ≡ true =
      decimal-all is_text (λ d lt. ground arith) in
    let word = priority-IsWord o.priority w.known.0 w.known.1 in
    let name =
      all_bytes-weaken (λ c. is_alnum c || (c == b'_')) is_text (λ c h. ground arith) o.recipient
        w.named.1 in
    let tail =
      all_bytes-append is_text (priority_to_string o.priority) (duration_part o) word.text
        (digits o.duration_units) in
    all_bytes-append is_text (decimal o.id) (b' ' ∷ (o.recipient ++ priority_part o)) (digits o.id)
      (all_bytes-append is_text o.recipient (priority_part o) name tail)

length-order_line : (o : Order) → IsWritable o → length (order_line o) ≤ 83
length-order_line o w =
    let word = priority-IsWord o.priority w.known.0 w.known.1 in
    omega (
      arith,
      length-append (decimal o.id) (b' ' ∷ (o.recipient ++ priority_part o)),
      length-append o.recipient (priority_part o),
      length-append (priority_to_string o.priority) (duration_part o),
      length-decimal o.id,
      length-decimal o.duration_units,
      word.narrow,
      w.short,
    )

abbrev unsigned : ℕ → SignedNumber
unsigned n = record { negative = false; magnitude = n }

scan_word-blank : (width : ℕ) (s : Str) → scan_word width (b' ' ∷ s) ≡ scan_word width s
unfolding scan_word skip_space
scan_word-blank width s = refl

scan_int-blank : (s : Str) → scan_int (b' ' ∷ s) ≡ scan_int s
unfolding scan_int skip_space
scan_int-blank s = refl

order_line-scans :
    (o : Order)
    → IsWritable o
    → scan_fields (order_line o ++ 10 ∷ [])
      ≡ some (record {
        id = unsigned o.id;
        recipient = o.recipient;
        priority_text = priority_to_string o.priority;
        duration_units = unsigned o.duration_units;
      })
unfolding scan_fields skip_space
order_line-scans o w =
    let word = priority-IsWord o.priority w.known.0 w.known.1 in
    let last : Str = decimal o.duration_units ++ 10 ∷ [] in
    let third : Str = priority_to_string o.priority ++ b' ' ∷ last in
    let second : Str = o.recipient ++ b' ' ∷ third in
    let no_nul =
      all_bytes-append (λ c. not (c == 0)) (order_line o) (10 ∷ [])
        (all_bytes-weaken is_text (λ c. not (c == 0)) (λ c h. ground arith) (order_line o)
          (order_line-text o w))
        refl in
    let e0 : c_string (order_line o ++ 10 ∷ []) ≡ decimal o.id ++ b' ' ∷ second =
      c_string-plain (order_line o ++ 10 ∷ []) no_nul
      ∙ append_assoc (decimal o.id) (b' ' ∷ (o.recipient ++ priority_part o)) (10 ∷ [])
      ∙ ap (λ l. decimal o.id ++ b' ' ∷ l)
          (append_assoc o.recipient (priority_part o) (10 ∷ [])
            ∙ ap (λ l. o.recipient ++ b' ' ∷ l)
                (append_assoc (priority_to_string o.priority) (duration_part o) (10 ∷ []))) in
    let e1 : scan_int (decimal o.id ++ b' ' ∷ second) ≡ some (unsigned o.id, b' ' ∷ second) =
      scan_int-decimal o.id b' ' second (omega (arith, w.id_range.1)) refl in
    let e2 : scan_word 32 (b' ' ∷ second) ≡ some (o.recipient, b' ' ∷ third) =
      scan_word-blank 32 second
      ∙ scan_word-all 32 o.recipient third b' ' w.short w.named.0
          (all_bytes-weaken (λ c. is_alnum c || (c == b'_')) (λ c. not (is_space c))
            (λ c h. ground arith) o.recipient w.named.1)
          refl in
    let e3 : scan_word 8 (b' ' ∷ third) ≡ some (priority_to_string o.priority, b' ' ∷ last) =
      scan_word-blank 8 third
      ∙ scan_word-all 8 (priority_to_string o.priority) last b' ' word.narrow word.some_byte
          word.unspaced refl in
    let e4 : scan_int (b' ' ∷ last) ≡ some (unsigned o.duration_units, 10 ∷ []) =
      scan_int-blank last
      ∙ scan_int-decimal o.duration_units 10 [] (omega (arith, w.duration_range.1)) refl in
    rw
      (
        e0,
        e1,
        e2,
        e3,
        e4,
        stored_int-fits o.id w.id_range.1,
        stored_int-fits o.duration_units w.duration_range.1,
      )
      refl

named-valid :
    (s : Str)
    → s ≢ []
    → all_bytes (λ c. is_alnum c || (c == b'_')) s ≡ true
    → is_valid_recipient_name s ≡ true
unfolding is_valid_recipient_name
named-valid [] ne h = absurd (ne refl)
named-valid (c ∷ s) ne h = h

order_line-parses : (o : Order) → IsWritable o → parse_order (order_line o ++ 10 ∷ []) ≡ some o
unfolding parse_order
order_line-parses o w =
    let i : leb 1 o.id ≡ true = ground (arith, w.id_range.0) in
    let d : leb 1 o.duration_units ≡ true = ground (arith, w.duration_range.0) in
    let p =
      (parse_priority_iff (priority_to_string o.priority) o.priority).1
        (refl, w.known.0, w.known.1) in
    rw (order_line-scans o w, i, d, named-valid o.recipient w.named.0 w.named.1, p) refl

-- The loader reads the lines of the orders as the orders.
accepted-orders_text :
    (os : List Order) → All IsWritable os → accepted (fgets_lines 256 (orders_text os)) ≡ os
unfolding fgets_lines accepted
accepted-orders_text [] w = refl
accepted-orders_text (o ∷ os) w =
    let line =
      all_bytes-weaken is_text (λ c. not (c == 10)) (λ c h. ground arith) (order_line o)
        (order_line-text o w.0) in
    ap accepted (
      fgets_lines-line 256 (order_line o) (orders_text os) line
        (omega (arith, length-order_line o w.0)))
    ∙ ap
        (λ r. elim r [
          | none ↦ accepted (fgets_lines 256 (orders_text os))
          | some order ↦ order ∷ accepted (fgets_lines 256 (orders_text os))
        ])
        (order_line-parses o w.0)
    ∙ ap (◌∷◌ o) (accepted-orders_text os w.1)

-- A file with one order to a line is loaded whole, with memory for every node: the queue is valid and
-- holds exactly these orders, and the count is their number. It is assumed that ids and durations are
-- from 1 to INT_MAX, recipients have 1 to 32 letters, digits and underscores, and priorities are of
-- the three known ones.
pub load_orders-orders_text :
    (os : List Order)
    → All IsWritable os
    → (q : OrderQueue) × (load_orders_from_file (λ _. true) (some (orders_text os))
        ≡ some (q, length os))
      × IsValid q
      × Perm q.head os
load_orders-orders_text os w =
    let e = accepted-orders_text os w in
    let (q, count, loaded, valid, perm, counted) = (load_orders_complete (orders_text os)).1 in
    (
      q,
      loaded ∙ ap (λ n. some (q, n)) (counted ∙ ap length e),
      valid,
      subst (λ l. Perm q.head l) e perm,
    )
