-- ===== src/Floors/Transport/Repositions.antt =====
-- The reposition requests of HW3's letter carriers as the elevator serves them.

use system_programming_homew.Prelude.{◌≡◌, some, List, ◌∷◌, set, get_elem?, arith}
use system_programming_homew.Floors.Requests.{Request, RepositionRequest}
use system_programming_homew.Floors.Carriers.{
  for_delivery, for_reposition, searching, moving, Carrier, Stage, waits, Building,
}
use system_programming_homew.Floors.Transport.Slots.{pc_of-at, pc_of-set}
use system_programming_homew.Floors.Transport.Tickets.{
  expects, Tickets, expects-waiter, expects_begun, expects_apart,
}
use system_programming_homew.Floors.Transport.Served.{moves_pos}

module _ {s : Building} (v : Tickets s) where
  pub reposition_goes-Tickets :
      (r : Request (Unit {0})) (rest : List (Request (Unit {0}))) (c d : Carrier) (st : Stage)
      → s.reposition.hand ≡ r ∷ rest
      → expects for_reposition s.reposition.stage ≡ some c.pc
      → get_elem? s.carriers r.carrier_slot ≡ some c
      → expects for_reposition st ≡ some d.pc
      → Tickets (record s {
        reposition = record s.reposition { stage = st };
        carriers = set s.carriers r.carrier_slot d;
      })
  reposition_goes-Tickets r rest c d st h at here q =
      let k = r.carrier_slot in
      let (b, m, u) = expects_begun for_reposition s.reposition.stage c.pc at in
      let (b', m', u') = expects_begun for_reposition st d.pc q in
      record {
        delivery_asked = λ j x y. ground (
          arith,
          v.delivery_asked j x y,
          pc_of-set s.carriers k c d j here,
          pc_of-at s.carriers k c here,
          b x y,
          b' x y,
          u (Unit {0}) r rest,
          u' (Unit {0}) r rest,
        );
        reposition_asked = λ j. ground (
          arith,
          v.reposition_asked j,
          pc_of-set s.carriers k c d j here,
          pc_of-at s.carriers k c here,
          u (Unit {0}) r rest,
          u' (Unit {0}) r rest,
        );
        reposition_head = λ r' rest' p g x. ground (arith, pc_of-set s.carriers k c d k here);
        delivery_head = λ r' rest' p g x. ground (
          arith,
          v.delivery_head r' rest' p g x,
          pc_of-set s.carriers k c d r'.carrier_slot here,
          pc_of-at s.carriers k c here,
          expects_apart s.delivery.stage s.reposition.stage c.pc,
        );
      }

  pub reposition_done-Tickets :
      (r : Request (Unit {0})) (rest : List (Request (Unit {0}))) (c d : Carrier)
      → s.reposition.hand ≡ r ∷ rest
      → expects for_reposition s.reposition.stage ≡ some c.pc
      → get_elem? s.carriers r.carrier_slot ≡ some c
      → d.pc ≡ searching
      → Tickets (record s {
        reposition = record s.reposition { hand = rest; stage = waits };
        carriers = set s.carriers r.carrier_slot d;
      })
  reposition_done-Tickets r rest c d h at here q =
      let k = r.carrier_slot in
      let (b, m, u) = expects_begun for_reposition s.reposition.stage c.pc at in
      record {
        delivery_asked = λ j x y. ground (
          arith,
          v.delivery_asked j x y,
          pc_of-set s.carriers k c d j here,
          pc_of-at s.carriers k c here,
          b x y,
          u (Unit {0}) r rest,
        );
        reposition_asked = λ j. ground (
          arith,
          v.reposition_asked j,
          pc_of-set s.carriers k c d j here,
          pc_of-at s.carriers k c here,
          u (Unit {0}) r rest,
        );
        reposition_head = λ r' rest' p g x. cc;
        delivery_head = λ r' rest' p g x. ground (
          arith,
          v.delivery_head r' rest' p g x,
          pc_of-set s.carriers k c d r'.carrier_slot here,
          pc_of-at s.carriers k c here,
          expects_apart s.delivery.stage s.reposition.stage c.pc,
        );
      }

  -- The reposition elevator begins with the request at hand.
  pub asker_moves :
      (r : RepositionRequest) (rest : List RepositionRequest) (c : Carrier)
      → s.reposition.hand ≡ r ∷ rest
      → s.reposition.stage ≡ waits
      → get_elem? s.carriers r.carrier_slot ≡ some c
      → c.pc ≡ moving
  asker_moves r rest c h at here =
      moves_pos c.pc (
        ground
          (arith, v.reposition_asked r.carrier_slot, pc_of-at s.carriers r.carrier_slot c here))

  pub reposition_begins-Tickets :
      (r : RepositionRequest) (rest : List RepositionRequest) (c d : Carrier) (st : Stage)
      → s.reposition.hand ≡ r ∷ rest
      → s.reposition.stage ≡ waits
      → get_elem? s.carriers r.carrier_slot ≡ some c
      → expects for_reposition st ≡ some d.pc
      → Tickets (record s {
        reposition = record s.reposition { stage = st };
        carriers = set s.carriers r.carrier_slot d;
      })
  reposition_begins-Tickets r rest c d st h at here q =
      let k = r.carrier_slot in
      let mine = asker_moves r rest c h at here in
      let (b', m', u') = expects_begun for_reposition st d.pc q in
      record {
        delivery_asked = λ j x y. ground (
          arith,
          v.delivery_asked j x y,
          pc_of-set s.carriers k c d j here,
          pc_of-at s.carriers k c here,
          b' x y,
        );
        reposition_asked = λ j. ground (
          arith,
          v.reposition_asked j,
          pc_of-set s.carriers k c d j here,
          pc_of-at s.carriers k c here,
          u' (Unit {0}) r rest,
        );
        delivery_head = λ r' rest' p g x. ground (
          arith,
          v.delivery_head r' rest' p g x,
          pc_of-set s.carriers k c d r'.carrier_slot here,
          pc_of-at s.carriers k c here,
          expects-waiter for_delivery s.delivery.stage 0 0,
        );
        reposition_head = λ r' rest' p g x. ground (arith, pc_of-set s.carriers k c d k here);
      }
