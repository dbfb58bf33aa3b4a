-- ===== src/Cargo/Queue/Ranking.antt =====
-- The order in which orders are served, and that the list is kept in it.
use mathlib.Core.List.{Perm}
use mathlib.Core.List.Perm
use system_programming_homew.Prelude.{
  suc, ◌≡◌, refl, ap, true, false, if◌then◌else◌, List, [], ◌∷◌, arith, Bool-cases, inl, inr,
  length, All,
}
use system_programming_homew.Cargo.Queue.{
  Order, order_has_higher_priority, insert_after, insert_order,
}

-- The first order is not outranked by the second.
abbrev pub Serves : Order → Order → Type 0
Serves a b = order_has_higher_priority b a ≡ false

abbrev pub IsSorted : List Order → Type 0
IsSorted [] = Unit {0}
IsSorted (a ∷ l) = All (Serves a) l × IsSorted l

pub Serves-trans : (a b c : Order) → Serves a b → Serves b c → Serves a c
unfolding order_has_higher_priority
Serves-trans a b c p q = ground arith

pub Serves-of_higher : (a b : Order) → order_has_higher_priority a b ≡ true → Serves a b
unfolding order_has_higher_priority
Serves-of_higher a b h = ground arith

pub All-Serves : (a b : Order) (l : List Order) → Serves a b → All (Serves b) l → All (Serves a) l
All-Serves a b [] h s = tt
All-Serves a b (c ∷ l) h s = (Serves-trans a b c h s.0, All-Serves a b l h s.1)

insert_after-eq : (x : Order) (l : List Order) → insert_after x l ≡ insert_order x l
unfolding insert_after insert_order
insert_after-eq x [] = refl
insert_after-eq x (a ∷ l) = refl

-- The code's two cases, at the head and behind it, are one insertion.
pub insert_order-cons :
    (x a : Order) (l : List Order)
    → insert_order x (a ∷ l)
      ≡ (if order_has_higher_priority x a then x ∷ a ∷ l else a ∷ insert_order x l)
unfolding insert_order
insert_order-cons x a l =
    ap (λ r. if order_has_higher_priority x a then x ∷ a ∷ l else a ∷ r) (insert_after-eq x l)

All-insert_order :
    (P : Order → Type 0) (x : Order) (l : List Order) → P x → All P l → All P (insert_order x l)
unfolding insert_order
All-insert_order P x [] hx h = (hx, tt)
All-insert_order P x (a ∷ l) hx h =
    rw insert_order-cons (elim (Bool-cases (order_has_higher_priority x a)) [
      | inl e ↦ rw e (hx, h)
      | inr e ↦ rw e (h.0, All-insert_order P x l hx h.1)
    ])

pub insert_order-IsSorted : (x : Order) (l : List Order) → IsSorted l → IsSorted (insert_order x l)
unfolding insert_order
insert_order-IsSorted x [] s = (tt, tt)
insert_order-IsSorted x (a ∷ l) s =
    rw insert_order-cons (elim (Bool-cases (order_has_higher_priority x a)) [
      | inl e ↦ rw e ((Serves-of_higher x a e, All-Serves x a l (Serves-of_higher x a e) s.0), s)
      | inr e ↦ rw e (All-insert_order (Serves a) x l e s.0, insert_order-IsSorted x l s.1)
    ])

pub insert_order-perm : (x : Order) (l : List Order) → Perm (insert_order x l) (x ∷ l)
unfolding insert_order
insert_order-perm x [] = Perm.refl _
insert_order-perm x (a ∷ l) =
    rw insert_order-cons (elim (Bool-cases (order_has_higher_priority x a)) [
      | inl e ↦ rw e (Perm.refl _)
      | inr e ↦ rw e (Perm.trans (Perm.cons a (insert_order-perm x l)) (Perm.swap x a l))
    ])

pub length-insert_order : (x : Order) (l : List Order) → length (insert_order x l) ≡ suc (length l)
unfolding insert_order
length-insert_order x [] = refl
length-insert_order x (a ∷ l) = ground (arith, insert_order-cons x a l, length-insert_order x l)
