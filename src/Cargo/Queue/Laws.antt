-- ===== src/Cargo/Queue/Laws.antt =====
-- What the operations of HW5/order_queue.c promise: an ordered queue with a true size.
use mathlib.Core.List.{Perm}
use system_programming_homew.Prelude.{
  ℕ, suc, ◌+◌, ◌%◌, ◌<◌, ◌≤◌, ◌≡◌, refl, Bool, true, false, ◌&&◌, ◌==◌, ◌⊎◌, ◌↔◌, if◌then◌else◌,
  List, [], ◌∷◌, ◌++◌, arith, Bool-cases, inl, inr, length, All, none, some, Str, codes, str_eq→eq,
}
use system_programming_homew.Cargo.Queue.{
  Priority, Order, OrderQueue, size_mod, queue_init, order_has_higher_priority, insert_order,
  queue_push, queue_pop, queue_size, clear_loop, queue_clear, priority_to_string, parse_priority,
}
use system_programming_homew.Cargo.Queue.Ranking.{
  Serves, IsSorted, insert_order-IsSorted, insert_order-perm, length-insert_order,
  insert_order-cons,
}

pub record IsValid (q : OrderQueue) : Type 0 where
  pub sorted : IsSorted q.head
  pub counted : q.size ≡ length q.head % size_mod

-- A push without memory changes nothing and fails. One with memory succeeds, keeps the queue valid,
-- adds exactly the new order and, while fewer than 2^64 are queued, the size goes up by one.
pub queue_push-IsValid :
    (q : OrderQueue) (o : Order)
    → IsValid q
    → (queue_push false q o ≡ none)
      × ((q' : OrderQueue) × (queue_push true q o ≡ some q')
          × IsValid q'
          × Perm q'.head (o ∷ q.head)
          × (suc (length q.head) < size_mod → queue_size q' ≡ queue_size q + 1))
unfolding queue_push queue_size
queue_push-IsValid q o v = (
  refl,
  (
    _,
    refl,
    record {
      sorted = insert_order-IsSorted o q.head v.sorted;
      counted = omega (arith, length-insert_order o q.head);
    },
    insert_order-perm o q.head,
    λ h. omega arith,
  ),
)

-- The order `a` may be served before `b`: its priority number is smaller, or the same with an id that
-- is not greater.
abbrev pub Precedes : Order → Order → Type 0
Precedes a b = (a.priority < b.priority) ⊎ ((a.priority ≡ b.priority) × (a.id ≤ b.id))

Precedes-of_Serves : (a b : Order) → Serves a b → Precedes a b
unfolding order_has_higher_priority
Precedes-of_Serves a b h = ground arith

All-Precedes : (a : Order) (l : List Order) → All (Serves a) l → All (Precedes a) l
All-Precedes a [] h = tt
All-Precedes a (b ∷ l) h = (Precedes-of_Serves a b h.0, All-Precedes a l h.1)

-- A pop of a valid queue fails on the empty queue only. Otherwise it gives the first order and leaves
-- the others in a valid queue; each that stays has a greater priority number, or the same one and an
-- id that is not smaller.
pub queue_pop-IsValid :
    (q : OrderQueue)
    → IsValid q
    → ((q.head ≡ []) × (queue_pop q ≡ none))
      ⊎ ((o : Order) × (q' : OrderQueue) × (queue_pop q ≡ some (o, q'))
          × (q.head ≡ o ∷ q'.head)
          × All (Precedes o) q'.head
          × IsValid q')
unfolding queue_pop
queue_pop-IsValid q v = go q.head q.size v.sorted v.counted
  where
    go :
        (l : List Order) (n : ℕ)
        → IsSorted l
        → n ≡ length l % size_mod
        → ((l ≡ []) × (queue_pop (record { head = l; size = n }) ≡ none))
          ⊎ ((o : Order) × (q' : OrderQueue) × (queue_pop (record { head = l; size = n })
                ≡ some (o, q'))
              × (l ≡ o ∷ q'.head)
              × All (Precedes o) q'.head
              × IsValid q')
    go [] n s c = inl (refl, refl)
    go (o ∷ l) n s c =
        inr (o, _, refl, refl, All-Precedes o l s.0, record { sorted = s.1; counted = omega arith })

abbrev pub same_key : ℕ → ℕ → Order → Bool
same_key p i o = (o.priority == p) && (o.id == i)

-- The orders of one priority and id, in their order in the list.
abbrev pub keyed : ℕ → ℕ → List Order → List Order
keyed p i [] = []
keyed p i (o ∷ l) = if same_key p i o then o ∷ keyed p i l else keyed p i l

same_key-outranked :
    (p i : ℕ) (x a b : Order)
    → same_key p i x ≡ true
    → order_has_higher_priority x a ≡ true
    → Serves a b
    → same_key p i b ≡ false
unfolding order_has_higher_priority
same_key-outranked p i x a b k h s = ground arith

keyed-outranked :
    (p i : ℕ) (x a : Order) (l : List Order)
    → same_key p i x ≡ true
    → order_has_higher_priority x a ≡ true
    → All (Serves a) l
    → keyed p i l ≡ []
keyed-outranked p i x a [] k h s = refl
keyed-outranked p i x a (b ∷ l) k h s =
    rw (same_key-outranked p i x a b k h s.0) (keyed-outranked p i x a l k h s.1)

Serves-refl : (a : Order) → Serves a a
unfolding order_has_higher_priority
Serves-refl a = ground arith

-- Orders with one priority and id are served in the order in which they came: an insertion puts
-- the new order behind those with its key, and moves none of another key.
pub keyed-insert_order :
    (p i : ℕ) (x : Order) (l : List Order)
    → IsSorted l
    → keyed p i (insert_order x l) ≡ (if same_key p i x then keyed p i l ++ x ∷ [] else keyed p i l)
unfolding insert_order
keyed-insert_order p i x [] s = refl
keyed-insert_order p i x (a ∷ l) s =
    rw insert_order-cons (elim (Bool-cases (order_has_higher_priority x a)) [
      | inl e ↦ rw e (front e (Bool-cases (same_key p i x)))
      | inr e ↦ rw e (ground (arith, keyed-insert_order p i x l s.1))
    ])
  where
    front :
        order_has_higher_priority x a ≡ true
        → (same_key p i x ≡ true) ⊎ (same_key p i x ≡ false)
        → (if same_key p i x then x ∷ keyed p i (a ∷ l) else keyed p i (a ∷ l))
          ≡ (if same_key p i x then keyed p i (a ∷ l) ++ x ∷ [] else keyed p i (a ∷ l))
    front e (inl k) = rw (k, keyed-outranked p i x a (a ∷ l) k e (Serves-refl a, s.0))
    front e (inr k) = rw k

clear_loop-empties :
    (l : List Order) (n : ℕ)
    → n ≡ length l % size_mod
    → clear_loop (suc (length l)) (record { head = l; size = n }) ≡ queue_init
unfolding clear_loop queue_pop queue_init
clear_loop-empties [] n c = rw c
clear_loop-empties (o ∷ l) n c = clear_loop-empties l _ (omega arith)

-- The clearing loop ends, with no order left and the size at 0.
pub queue_clear-empty : (q : OrderQueue) → IsValid q → queue_clear q ≡ queue_init
unfolding queue_clear
queue_clear-empty q v = clear_loop-empties q.head q.size v.counted

-- The texts that parse are exactly those that the three priorities print as.
pub parse_priority_iff :
    (s : Str) (p : Priority)
    → (parse_priority s ≡ some p) ↔ ((priority_to_string p ≡ s) × (0 < p) × (p < 4))
unfolding parse_priority priority_to_string
parse_priority_iff s p = (parses, prints)
  where
    parses : parse_priority s ≡ some p → (priority_to_string p ≡ s) × (0 < p) × (p < 4)
    parses h = ground (
      arith,
      str_eq→eq s (codes "EXPRESS"),
      str_eq→eq s (codes "STANDARD"),
      str_eq→eq s (codes "ECONOMY"),
    )

    prints : (priority_to_string p ≡ s) × (0 < p) × (p < 4) → parse_priority s ≡ some p
    prints (e, lo, hi) = rw (← e) (ground arith)
