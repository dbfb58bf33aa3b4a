-- ===== src/Floors/Transport/Journeys.antt =====
-- Every step of HW3's transport keeps the requests and the carriers in agreement.
use mathlib.Core.Path.{subst}
use system_programming_homew.Prelude.{
  ℕ, ◌+◌, ◌≡◌, Bool, if◌then◌else◌, some, List, ◌∷◌, get_elem?, refl, sym, arith, Bool-cases, inl,
  inr,
}
use system_programming_homew.Floors.Word.{deliver_char}
use system_programming_homew.Floors.Requests.{DeliveryRequest, RepositionRequest}
use system_programming_homew.Floors.Transport.{
  place_directly, leaves, stage_after_leaving, leave_floor, enter_floor, mark_empty,
  delivery_leaves, reposition_leaves, delivery_enters, reposition_enters, delivery_ends,
  reposition_ends,
}
use system_programming_homew.Floors.Carriers.{
  for_delivery, for_reposition, searching, unloaded, between, landed, left, Carrier, Stage, waits,
  delivered, departed, arrived, Building,
}
use system_programming_homew.Floors.Transport.Calls.{
  reserve_carrier_slot-exact, ask_delivery-exact, ask_reposition-exact,
}
use system_programming_homew.Floors.Transport.Steps.{
  Step, claim, reserve, admit, sort, pick, place, board, wander, leave, take_deliveries,
  take_repositions, deliver, leave_with_delivery, enter_with_delivery, end_delivery,
  leave_for_reposition, enter_for_reposition, end_reposition, start_carrier,
}
use system_programming_homew.Floors.Transport.Tickets.{
  expects, Tickets, expects-waiter, SameDesk-Tickets,
}
use system_programming_homew.Floors.Transport.Asking.{
  walk-Tickets, board-Tickets, wander-Tickets, load_delivery-Tickets, load_reposition-Tickets,
}
use system_programming_homew.Floors.Transport.Served.{
  unload-Tickets, delivery_goes-Tickets, delivery_done-Tickets, pick_char-Tickets,
  add_carrier-Tickets, delivery_at, reposition_at, enqueued_delivery, enqueued_reposition,
}
use system_programming_homew.Floors.Transport.Repositions.{
  reposition_goes-Tickets, reposition_done-Tickets, reposition_begins-Tickets,
}

module _ {s : Building} (v : Tickets s) where
  delivery_leaves-Tickets :
      (r : DeliveryRequest) (rest : List DeliveryRequest) (c : Carrier)
      → s.delivery.hand ≡ r ∷ rest
      → s.delivery.stage ≡ delivered
      → get_elem? s.carriers r.carrier_slot ≡ some c
      → Tickets (delivery_leaves s r c)
  unfolding delivery_leaves leave_floor stage_after_leaving
  delivery_leaves-Tickets r rest c h at here =
      let p = delivery_at v r rest c unloaded h (ground arith) here in
      let go = λ (d : Carrier) (st : Stage) (q : expects for_delivery st ≡ some d.pc).
        delivery_goes-Tickets v r rest c d st h (ground arith) here q in
      elim (Bool-cases (leaves r.to_floor c)) [
        | inl e ↦
            SameDesk-Tickets
              (go (record c { pc = between for_delivery }) (stage_after_leaving s c r.to_floor)
                (ground arith))
              (ground arith)
        | inr e ↦
            SameDesk-Tickets
              (go (record c { pc = landed for_delivery }) (stage_after_leaving s c r.to_floor)
                (ground arith))
              (ground arith)
      ]

  reposition_leaves-Tickets :
      (r : RepositionRequest) (rest : List RepositionRequest) (c : Carrier)
      → s.reposition.hand ≡ r ∷ rest
      → s.reposition.stage ≡ waits
      → get_elem? s.carriers r.carrier_slot ≡ some c
      → Tickets (reposition_leaves s r c)
  unfolding reposition_leaves leave_floor stage_after_leaving
  reposition_leaves-Tickets r rest c h at here =
      let go = λ (d : Carrier) (st : Stage) (q : expects for_reposition st ≡ some d.pc).
        reposition_begins-Tickets v r rest c d st h at here q in
      elim (Bool-cases (leaves r.to_floor c)) [
        | inl e ↦
            SameDesk-Tickets
              (go (record c { pc = between for_reposition }) (stage_after_leaving s c r.to_floor)
                (ground arith))
              (ground arith)
        | inr e ↦
            SameDesk-Tickets
              (go (record c { pc = landed for_reposition }) (stage_after_leaving s c r.to_floor)
                (ground arith))
              (ground arith)
      ]

  delivery_enters-Tickets :
      (r : DeliveryRequest) (rest : List DeliveryRequest) (c : Carrier) (old : ℕ) (empty : Bool)
      → s.delivery.hand ≡ r ∷ rest
      → s.delivery.stage ≡ departed old empty
      → get_elem? s.carriers r.carrier_slot ≡ some c
      → Tickets (delivery_enters s r c old empty)
  unfolding delivery_enters enter_floor
  delivery_enters-Tickets r rest c old empty h at here =
      let p = delivery_at v r rest c (between for_delivery) h (ground arith) here in
      SameDesk-Tickets
        (delivery_goes-Tickets v r rest c
          (record c { current_floor = r.to_floor; pc = landed for_delivery }) (arrived old empty) h
          (ground arith) here refl)
        (ground arith)

  delivery_ends-Tickets :
      (r : DeliveryRequest) (rest : List DeliveryRequest) (c : Carrier) (old : ℕ) (empty : Bool)
      → s.delivery.hand ≡ r ∷ rest
      → s.delivery.stage ≡ arrived old empty
      → get_elem? s.carriers r.carrier_slot ≡ some c
      → Tickets (delivery_ends s r rest c old empty)
  unfolding delivery_ends mark_empty
  delivery_ends-Tickets r rest c old empty h at here =
      let p = delivery_at v r rest c (landed for_delivery) h (ground arith) here in
      SameDesk-Tickets
        (delivery_done-Tickets v r rest c
          (record c { deliveries = c.deliveries + 1; pc = searching }) h (ground arith) here refl)
        (ground arith)

  reposition_enters-Tickets :
      (r : RepositionRequest) (rest : List RepositionRequest) (c : Carrier) (old : ℕ) (empty : Bool)
      → s.reposition.hand ≡ r ∷ rest
      → s.reposition.stage ≡ departed old empty
      → get_elem? s.carriers r.carrier_slot ≡ some c
      → Tickets (reposition_enters s r c old empty)
  unfolding reposition_enters enter_floor
  reposition_enters-Tickets r rest c old empty h at here =
      let p = reposition_at v r rest c (between for_reposition) h (ground arith) here in
      SameDesk-Tickets
        (reposition_goes-Tickets v r rest c
          (record c { current_floor = r.to_floor; pc = landed for_reposition }) (arrived old empty)
          h (ground arith) here refl)
        (ground arith)

  reposition_ends-Tickets :
      (r : RepositionRequest) (rest : List RepositionRequest) (c : Carrier) (old : ℕ) (empty : Bool)
      → s.reposition.hand ≡ r ∷ rest
      → s.reposition.stage ≡ arrived old empty
      → get_elem? s.carriers r.carrier_slot ≡ some c
      → Tickets (reposition_ends s r rest c old empty)
  unfolding reposition_ends mark_empty
  reposition_ends-Tickets r rest c old empty h at here =
      let p = reposition_at v r rest c (landed for_reposition) h (ground arith) here in
      SameDesk-Tickets
        (reposition_done-Tickets v r rest c
          (record c { repositions = c.repositions + 1; pc = searching }) h (ground arith) here refl)
        (ground arith)

pub Step-Tickets : {s t : Building} → Tickets s → Step s t → Tickets t
unfolding place_directly
Step-Tickets v (claim slot c here at e) = SameDesk-Tickets v (ground arith)
Step-Tickets v (reserve slot c idx w here at g e) = SameDesk-Tickets v (ground arith)
Step-Tickets v (admit slot c idx sf w ok here at g e) = SameDesk-Tickets v (ground arith)
Step-Tickets v (sort wi w g adm undone e) = SameDesk-Tickets v (ground arith)
Step-Tickets {s} v (pick k c wi w draw here at g e) =
    subst Tickets (sym e) (pick_char-Tickets v k c wi w draw here at)
Step-Tickets {s} v (place k c wi w ci here at g home e) =
    SameDesk-Tickets
      (walk-Tickets v k c
        (record c {
          direct_placements =
              if (deliver_char w ci).1 then c.direct_placements + 1 else c.direct_placements;
          pc = searching;
        })
        here (λ a b. ground arith) (ground arith)
        (λ l st. ground (arith, expects-waiter l st wi ci)))
      (ground arith)
Step-Tickets {s} v (board k c wi w ci here at g away e) =
    let (rs, q, p) = ask_delivery-exact s k c wi w ci e in
    subst Tickets (sym p) (board-Tickets v k c wi w ci rs here at (enqueued_delivery _ _ _ q))
Step-Tickets {s} v (wander k c draw here at e) =
    let (rs, q, p) = ask_reposition-exact s k c draw e in
    subst Tickets (sym p) (wander-Tickets v k c draw rs here at (enqueued_reposition _ _ _ q))
Step-Tickets {s} v (leave k c here at e) = subst Tickets (sym e) (
    walk-Tickets v k c (record c { pc = left }) here (λ a b. ground arith) (ground arith)
      (λ l st. ground (arith, expects-waiter l st 0 0)))
Step-Tickets v (take_deliveries capacity h bare at e) =
    subst Tickets (sym e) (load_delivery-Tickets v capacity h bare at)
Step-Tickets v (take_repositions capacity h bare at e) =
    subst Tickets (sym e) (load_reposition-Tickets v capacity h bare at)
Step-Tickets v (deliver r rest w c h at g here e) =
    subst Tickets (sym e) (unload-Tickets v r rest w c h at here)
Step-Tickets v (leave_with_delivery r rest c h at here e) =
    subst Tickets (sym e) (delivery_leaves-Tickets v r rest c h at here)
Step-Tickets v (enter_with_delivery r rest c old empty h at here e) =
    subst Tickets (sym e) (delivery_enters-Tickets v r rest c old empty h at here)
Step-Tickets v (end_delivery r rest c old empty h at here e) =
    subst Tickets (sym e) (delivery_ends-Tickets v r rest c old empty h at here)
Step-Tickets v (leave_for_reposition r rest c h at here e) =
    subst Tickets (sym e) (reposition_leaves-Tickets v r rest c h at here)
Step-Tickets v (enter_for_reposition r rest c old empty h at here e) =
    subst Tickets (sym e) (reposition_enters-Tickets v r rest c old empty h at here)
Step-Tickets v (end_reposition r rest c old empty h at here e) =
    subst Tickets (sym e) (reposition_ends-Tickets v r rest c old empty h at here)
Step-Tickets {s} v (start_carrier f slot lt e) =
    let (room, p, q) = reserve_carrier_slot-exact s f e in
    subst Tickets (sym p) (add_carrier-Tickets v f)
