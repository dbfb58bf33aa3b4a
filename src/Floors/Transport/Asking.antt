-- ===== src/Floors/Transport/Asking.antt =====
-- HW3's letter carriers ask for the elevators, which take the requests.

use mathlib.Core.List.{Perm}
use system_programming_homew.Prelude.{
  ℕ, ◌≤◌, ◌≡◌, ◌≢◌, some, List, [], ◌∷◌, ◌++◌, set, get_elem?, arith, sum_of-append, sum_of-perm,
}
use system_programming_homew.Floors.Word.{SharedWord}
use system_programming_homew.Floors.Requests.{
  DeliveryRequest, RepositionRequest, delivery_round, reposition_round,
}
use system_programming_homew.Floors.Transport.{
  delivery_request, reposition_request, load_delivery, load_reposition, with_requests,
}
use system_programming_homew.Floors.Carriers.{
  Lift, for_delivery, for_reposition, searching, holding, boarding, moving, Carrier, Stage, waits,
  Building, new_carrier,
}
use system_programming_homew.Floors.Transport.Slots.{
  pc_of-at, pc_of-set, pc_of-append, pc_of-beyond,
}
use system_programming_homew.Floors.Requests.Batches.{waiting}
use system_programming_homew.Floors.Requests.Service.{delivery_round-perm, reposition_round-perm}
use system_programming_homew.Floors.Transport.Tickets.{
  boards, moves, asks, asks_move, expects, Tickets, expects-waiter,
}

module _ {s : Building} (v : Tickets s) where
  -- A carrier that neither elevator has to do with goes on.
  pub walk-Tickets :
      (k : ℕ) (c d : Carrier)
      → get_elem? s.carriers k ≡ some c
      → ((wi ci : ℕ) → boards wi ci (some d.pc) ≡ boards wi ci (some c.pc))
      → moves (some d.pc) ≡ moves (some c.pc)
      → ((l : Lift) (st : Stage) → expects l st ≢ some c.pc)
      → Tickets (record s { carriers = set s.carriers k d })
  walk-Tickets k c d here b m apart = record {
    delivery_asked = λ j wi ci. ground (
      arith,
      v.delivery_asked j wi ci,
      pc_of-set s.carriers k c d j here,
      pc_of-at s.carriers k c here,
      b wi ci,
    );
    reposition_asked = λ j. ground (
      arith,
      v.reposition_asked j,
      pc_of-set s.carriers k c d j here,
      pc_of-at s.carriers k c here,
    );
    delivery_head = λ r rest p h e. ground (
      arith,
      v.delivery_head r rest p h e,
      pc_of-set s.carriers k c d r.carrier_slot here,
      pc_of-at s.carriers k c here,
      apart for_delivery s.delivery.stage,
    );
    reposition_head = λ r rest p h e. ground (
      arith,
      v.reposition_head r rest p h e,
      pc_of-set s.carriers k c d r.carrier_slot here,
      pc_of-at s.carriers k c here,
      apart for_reposition s.reposition.stage,
    );
  }

  pub start-Tickets : (f : ℕ) → Tickets (record s { carriers = s.carriers ++ new_carrier f ∷ [] })
  start-Tickets f = record {
    delivery_asked = λ j wi ci. ground (
      arith,
      v.delivery_asked j wi ci,
      pc_of-append s.carriers (new_carrier f) j,
      pc_of-beyond s.carriers,
    );
    reposition_asked = λ j. ground (
      arith,
      v.reposition_asked j,
      pc_of-append s.carriers (new_carrier f) j,
      pc_of-beyond s.carriers,
    );
    delivery_head = λ r rest p h e. ground (
      arith,
      v.delivery_head r rest p h e,
      pc_of-append s.carriers (new_carrier f) r.carrier_slot,
      pc_of-beyond s.carriers,
    );
    reposition_head = λ r rest p h e. ground (
      arith,
      v.reposition_head r rest p h e,
      pc_of-append s.carriers (new_carrier f) r.carrier_slot,
      pc_of-beyond s.carriers,
    );
  }

  pub board-Tickets :
      (k : ℕ) (c : Carrier) (wi : ℕ) (w : SharedWord) (ci : ℕ) (rs : List DeliveryRequest)
      → get_elem? s.carriers k ≡ some c
      → c.pc ≡ holding wi ci
      → Perm (waiting rs) (delivery_request k c wi w ci ∷ waiting s.delivery.elevator.requests)
      → Tickets (record s {
        delivery = with_requests s.delivery rs;
        carriers = set s.carriers k (record c { pc = boarding wi ci });
      })
  board-Tickets k c wi w ci rs here at p =
      let d = record c { pc = boarding wi ci } in
      record {
        delivery_asked = λ j a b. ground (
          arith,
          v.delivery_asked j a b,
          pc_of-set s.carriers k c d j here,
          pc_of-at s.carriers k c here,
          sum_of-perm (asks j a b) _ _ p,
        );
        reposition_asked = λ j. ground (
          arith,
          v.reposition_asked j,
          pc_of-set s.carriers k c d j here,
          pc_of-at s.carriers k c here,
        );
        delivery_head = λ r rest q h e. ground (
          arith,
          v.delivery_head r rest q h e,
          pc_of-set s.carriers k c d r.carrier_slot here,
          pc_of-at s.carriers k c here,
          expects-waiter for_delivery s.delivery.stage wi ci,
        );
        reposition_head = λ r rest q h e. ground (
          arith,
          v.reposition_head r rest q h e,
          pc_of-set s.carriers k c d r.carrier_slot here,
          pc_of-at s.carriers k c here,
          expects-waiter for_reposition s.reposition.stage wi ci,
        );
      }

  pub wander-Tickets :
      (k : ℕ) (c : Carrier) (draw : ℕ) (rs : List RepositionRequest)
      → get_elem? s.carriers k ≡ some c
      → c.pc ≡ searching
      → Perm
          (waiting rs)
          (reposition_request s.num_floors k c draw ∷ waiting s.reposition.elevator.requests)
      → Tickets (record s {
        reposition = with_requests s.reposition rs;
        carriers = set s.carriers k (record c { pc = moving });
      })
  wander-Tickets k c draw rs here at p =
      let d = record c { pc = moving } in
      record {
        delivery_asked = λ j a b. ground (
          arith,
          v.delivery_asked j a b,
          pc_of-set s.carriers k c d j here,
          pc_of-at s.carriers k c here,
        );
        reposition_asked = λ j. ground (
          arith,
          v.reposition_asked j,
          pc_of-set s.carriers k c d j here,
          pc_of-at s.carriers k c here,
          sum_of-perm (asks_move j) _ _ p,
        );
        delivery_head = λ r rest q h e. ground (
          arith,
          v.delivery_head r rest q h e,
          pc_of-set s.carriers k c d r.carrier_slot here,
          pc_of-at s.carriers k c here,
          expects-waiter for_delivery s.delivery.stage 0 0,
        );
        reposition_head = λ r rest q h e. ground (
          arith,
          v.reposition_head r rest q h e,
          pc_of-set s.carriers k c d r.carrier_slot here,
          pc_of-at s.carriers k c here,
          expects-waiter for_reposition s.reposition.stage 0 0,
        );
      }

  pub load_delivery-Tickets :
      (capacity : ℕ)
      → 1 ≤ capacity
      → s.delivery.hand ≡ []
      → s.delivery.stage ≡ waits
      → Tickets (load_delivery capacity s)
  unfolding load_delivery
  load_delivery-Tickets capacity h bare at =
      let (batch, e) = delivery_round capacity s.delivery.elevator in
      let p = delivery_round-perm capacity s.delivery.elevator h in
      record {
        delivery_asked = λ j a b. ground (
          arith,
          v.delivery_asked j a b,
          sum_of-perm (asks j a b) _ _ p,
          sum_of-append (asks j a b) batch (waiting e.requests),
        );
        reposition_asked = v.reposition_asked;
        delivery_head = λ r rest q g x. cc;
        reposition_head = v.reposition_head;
      }

  pub load_reposition-Tickets :
      (capacity : ℕ)
      → 1 ≤ capacity
      → s.reposition.hand ≡ []
      → s.reposition.stage ≡ waits
      → Tickets (load_reposition capacity s)
  unfolding load_reposition
  load_reposition-Tickets capacity h bare at =
      let (batch, e) = reposition_round capacity s.reposition.elevator in
      let p = reposition_round-perm capacity s.reposition.elevator h in
      record {
        reposition_asked = λ j. ground (
          arith,
          v.reposition_asked j,
          sum_of-perm (asks_move j) _ _ p,
          sum_of-append (asks_move j) batch (waiting e.requests),
        );
        delivery_asked = v.delivery_asked;
        reposition_head = λ r rest q g x. cc;
        delivery_head = v.delivery_head;
      }
