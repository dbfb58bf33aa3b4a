-- ===== src/Cargo/Load/Tests.antt =====
-- Loads of small order files of HW5.
use mathlib.Core.List.{Perm}
use system_programming_homew.Prelude.{◌≡◌, refl, true, [], ◌∷◌, arith, none, some, codes, All}
use system_programming_homew.Libc.Scan.{scan_int, scan_word, stored_int, c_string}
use system_programming_homew.Cargo.Queue.{Order, OrderQueue, priority_express, parse_priority}
use system_programming_homew.Cargo.Queue.Laws.{IsValid}
use system_programming_homew.Cargo.Load.{scan_fields, parse_order, load_orders_from_file}
use system_programming_homew.Cargo.Load.Printed.{IsWritable, orders_text, load_orders-orders_text}

accepts_good_line :
    parse_order (codes "3 luna EXPRESS 4")
    ≡ some (record {
      id = 3;
      recipient = codes "luna";
      priority = priority_express;
      duration_units = 4;
    })
unfolding parse_order scan_fields scan_int scan_word parse_priority stored_int c_string
accepts_good_line = refl

abbrev luna : Order
luna = record {
  id = 3;
  recipient = codes "luna_1";
  priority = priority_express;
  duration_units = 4;
}

abbrev ron : Order
ron = record { id = 12; recipient = codes "ron"; priority = 3; duration_units = 2147483647 }

luna_and_ron-IsWritable : All IsWritable (ron ∷ luna ∷ [])
luna_and_ron-IsWritable = (
  record {
    id_range = (omega arith, omega arith);
    duration_range = (omega arith, omega arith);
    named = (λ e. ground arith, refl);
    short = omega arith;
    known = (omega arith, omega arith);
  },
  (
    record {
      id_range = (omega arith, omega arith);
      duration_range = (omega arith, omega arith);
      named = (λ e. ground arith, refl);
      short = omega arith;
      known = (omega arith, omega arith);
    },
    tt,
  ),
)

-- An id beyond INT_MAX is stored as a negative number, and the line is dropped.
drops_large_id : parse_order (codes "2147483648 luna EXPRESS 4") ≡ none
unfolding parse_order scan_fields scan_int scan_word parse_priority stored_int c_string
drops_large_id = refl

load_orders-orders_text_example :
    (q : OrderQueue) × (load_orders_from_file (λ _. true) (some (orders_text (ron ∷ luna ∷ [])))
      ≡ some (q, 2))
    × IsValid q
    × Perm q.head (ron ∷ luna ∷ [])
load_orders-orders_text_example = load_orders-orders_text (ron ∷ luna ∷ []) luna_and_ron-IsWritable
