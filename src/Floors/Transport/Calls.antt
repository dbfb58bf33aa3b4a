-- ===== src/Floors/Transport/Calls.antt =====
-- What the calls of HW3's letter carriers and parent give when they succeed.

use system_programming_homew.Prelude.{
  ℕ, ◌<◌, ◌≡◌, ltb, some, List, set, length, arith, Bool-cases, Option-cases, inl, inr,
}
use system_programming_homew.Floors.Word.{SharedWord}
use system_programming_homew.Floors.Requests.{
  DeliveryRequest, RepositionRequest, enqueue_delivery, enqueue_reposition,
}
use system_programming_homew.Floors.Transport.{
  delivery_request, ask_delivery, reposition_request, ask_reposition, with_requests,
}
use system_programming_homew.Floors.Carriers.{
  boarding, moving, Carrier, Building, max_carriers, reserve_carrier_slot, add_carrier,
}

-- A slot is given out while there are fewer carriers than `MAX_CARRIERS`.
pub reserve_carrier_slot-exact :
    (s : Building) (f : ℕ) {t : Building} {slot : ℕ}
    → reserve_carrier_slot s f ≡ some (t, slot)
    → (length s.carriers < max_carriers) × (t ≡ add_carrier s f) × (slot ≡ length s.carriers)
unfolding reserve_carrier_slot
reserve_carrier_slot-exact s f e = elim (Bool-cases (ltb (length s.carriers) max_carriers)) [
  | inl q ↦ (ground arith, ground arith, ground arith)
  | inr q ↦ absurd (ground arith)
]

pub ask_delivery-exact :
    (s : Building) (k : ℕ) (c : Carrier) (wi : ℕ) (w : SharedWord) (ci : ℕ) {t : Building}
    → ask_delivery s k c wi w ci ≡ some t
    → (rs : List DeliveryRequest) × (enqueue_delivery
          (delivery_request k c wi w ci)
          s.delivery.elevator.requests
        ≡ some rs)
      × (t ≡ record s {
        delivery = with_requests s.delivery rs;
        carriers = set s.carriers k (record c { pc = boarding wi ci });
      })
unfolding ask_delivery
ask_delivery-exact s k c wi w ci e =
    elim (Option-cases
      (enqueue_delivery (delivery_request k c wi w ci) s.delivery.elevator.requests)) [
        | inl q ↦ absurd (ground arith)
        | inr (rs, q) ↦ (rs, q, ground arith)
      ]

pub ask_reposition-exact :
    (s : Building) (k : ℕ) (c : Carrier) (draw : ℕ) {t : Building}
    → ask_reposition s k c draw ≡ some t
    → (rs : List RepositionRequest) × (enqueue_reposition
          (reposition_request s.num_floors k c draw)
          s.reposition.elevator.requests
        ≡ some rs)
      × (t ≡ record s {
        reposition = with_requests s.reposition rs;
        carriers = set s.carriers k (record c { pc = moving });
      })
unfolding ask_reposition
ask_reposition-exact s k c draw e =
    elim (Option-cases (
      enqueue_reposition (reposition_request s.num_floors k c draw)
        s.reposition.elevator.requests)) [
          | inl q ↦ absurd (ground arith)
          | inr (rs, q) ↦ (rs, q, ground arith)
        ]
