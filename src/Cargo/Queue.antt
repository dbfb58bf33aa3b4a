-- ===== src/Cargo/Queue.antt =====
-- HW5/order_queue.c and order_queue.h: orders and the linked list kept in order of priority.
-- The queue alone owns its nodes, so the chain `head -> next -> ...` is a list.
pub mod Ranking
pub mod Laws
mod Tests
use system_programming_homew.Prelude.{
  ℕ, zero, suc, ◌+◌, ◌-◌, ◌%◌, ◌^◌, Bool, true, false, not, ◌||◌, ltb, ◌==◌, if◌then◌else◌, List,
  [], ◌∷◌, Option, none, some, Str, codes, str_eq, length,
}

-- `Priority`, a C enum: an int with three named values.
abbrev pub Priority : Type 0
Priority = ℕ

abbrev pub priority_express : Priority
priority_express = 1

abbrev pub priority_standard : Priority
priority_standard = 2

abbrev pub priority_economy : Priority
priority_economy = 3

-- `duration_units` and `id` are positive in every order that is loaded.
pub record Order : Type 0 where
  pub id : ℕ
  pub recipient : Str
  pub priority : Priority
  pub duration_units : ℕ

pub record OrderQueue : Type 0 where
  pub head : List Order
  pub size : ℕ  -- size_t

abbrev pub size_mod : ℕ
size_mod = 2 ^ 64

unfoldable pub queue_init : OrderQueue
queue_init = record { head = []; size = 0 }

pub order_has_higher_priority : Order → Order → Bool
order_has_higher_priority new_order queued_order =
    if not (new_order.priority == queued_order.priority)
    then ltb new_order.priority queued_order.priority
    else ltb new_order.id queued_order.id

-- The scan from a node on, over the chain behind it: stop before the first order that the new one
-- outranks, or at the end, and link the node in there.
insert_after : Order → List Order → List Order
insert_after order [] = order ∷ []
insert_after order (next ∷ rest) =
    if order_has_higher_priority order next
    then order ∷ next ∷ rest
    else next ∷ insert_after order rest

pub insert_order : Order → List Order → List Order
unfolding insert_after
insert_order order [] = order ∷ []
insert_order order (first ∷ rest) =
    if order_has_higher_priority order first
    then order ∷ first ∷ rest
    else first ∷ insert_after order rest

-- The first argument says whether `malloc` gave a node; `none` is the return value -1.
unfoldable pub queue_push : Bool → OrderQueue → Order → Option OrderQueue
queue_push false queue order = none
queue_push true queue order =
    some (record { head = insert_order order queue.head; size = (queue.size + 1) % size_mod })

pop_node : List Order → ℕ → Option (Order × OrderQueue)
pop_node [] size = none
pop_node (first ∷ next) size =
    some (first, record { head = next; size = (size + size_mod - 1) % size_mod })

-- `none` is the return value 0.
unfoldable pub queue_pop : OrderQueue → Option (Order × OrderQueue)
unfolding pop_node
queue_pop queue = pop_node queue.head queue.size

unfoldable pub queue_size : OrderQueue → ℕ
queue_size queue = queue.size

-- `while (queue_pop(queue, &ignored)) {}` on fuel.
pub clear_loop : ℕ → OrderQueue → OrderQueue
clear_loop zero queue = queue
clear_loop (suc fuel) queue = elim (queue_pop queue) [
  | none ↦ queue
  | some (ignored, rest) ↦ clear_loop fuel rest
]

unfoldable pub queue_clear : OrderQueue → OrderQueue
unfolding clear_loop
queue_clear queue = clear_loop (suc (length queue.head)) queue

unfoldable pub priority_to_string : Priority → Str
priority_to_string priority =
    if priority == priority_express
    then codes "EXPRESS"
    else if priority == priority_standard
    then codes "STANDARD"
    else if priority == priority_economy
    then codes "ECONOMY"
    else codes "UNKNOWN"

-- `none` is the return value 0.
unfoldable pub parse_priority : Str → Option Priority
parse_priority text =
    if str_eq text (codes "EXPRESS")
    then some priority_express
    else if str_eq text (codes "STANDARD")
    then some priority_standard
    else if str_eq text (codes "ECONOMY")
    then some priority_economy
    else none
