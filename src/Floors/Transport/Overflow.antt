-- ===== src/Floors/Transport/Overflow.antt =====
-- HW3's request tables are large enough for its letter carriers.
use mathlib.Core.Path.{subst}
use system_programming_homew.Prelude.{
  ℕ, ◌+◌, ◌<◌, ◌≤◌, ◌≡◌, ◌≢◌, true, none, some, List, [], ◌∷◌, set, length, refl, sym, ap, ◌∙◌, ◌∙◌,
  arith, Bool-cases, Option-cases, inl, inr, length-set, length-append, All,
}
use system_programming_homew.Floors.Word.{SharedWord, claim_char}
use system_programming_homew.Floors.Requests.{
  Request, Char, max_requests, DeliveryRequest, RepositionRequest, Elevator, enqueue_delivery,
  enqueue_reposition,
}
use system_programming_homew.Floors.Transport.{
  pick_char, place_directly, delivery_request, ask_delivery, reposition_request, ask_reposition,
  load_delivery, load_reposition, unload, leaves, leave_floor, enter_floor, mark_empty,
  delivery_leaves, reposition_leaves, delivery_enters, reposition_enters, delivery_ends,
  reposition_ends,
}
use system_programming_homew.Floors.Carriers.{
  Lift, for_delivery, for_reposition, searching, holding, boarding, unloaded, moving, between,
  landed, left, Carrier, Building, max_carriers, new_carrier, add_carrier,
}
use system_programming_homew.Floors.Transport.Calls.{
  reserve_carrier_slot-exact, ask_delivery-exact, ask_reposition-exact,
}
use system_programming_homew.Floors.Requests.Batches.{waiting}
use system_programming_homew.Floors.Requests.Service.{
  enqueue_delivery-perm, enqueue_reposition-perm, delivery_round-length, reposition_round-length,
}
use system_programming_homew.Floors.Transport.Steps.{
  Step, claim, reserve, admit, sort, pick, place, board, wander, leave, take_deliveries,
  take_repositions, deliver, leave_with_delivery, enter_with_delivery, end_delivery,
  leave_for_reposition, enter_for_reposition, end_reposition, start_carrier, Reach, started, later,
}
use system_programming_homew.Floors.Transport.Waiting.{delivery_waiting_le, reposition_waiting_le}
use system_programming_homew.Floors.Transport.Safety.{Blank, Reach-Tickets}

record Sizes (s : Building) : Type 0 where
  few : length s.carriers ≤ max_carriers
  delivery_table : length s.delivery.elevator.requests ≡ max_requests
  reposition_table : length s.reposition.elevator.requests ≡ max_requests

waiting-full :
    {X : Type 0} (rs : List (Request X))
    → All (λ r. r.used ≡ true) rs
    → length (waiting rs) ≡ length rs
waiting-full [] a = refl
waiting-full (r ∷ rs) a = ground (arith, waiting-full rs a.1)

enqueue_delivery-length :
    (new : DeliveryRequest) (rs rs' : List DeliveryRequest)
    → enqueue_delivery new rs ≡ some rs'
    → length rs' ≡ length rs
enqueue_delivery-length new rs rs' e = elim (enqueue_delivery-perm new rs) [
  | inl (p, a) ↦ absurd (ground arith)
  | inr (us, p, m, n) ↦ ground arith
]

enqueue_reposition-length :
    (new : RepositionRequest) (rs rs' : List RepositionRequest)
    → enqueue_reposition new rs ≡ some rs'
    → length rs' ≡ length rs
enqueue_reposition-length new rs rs' e = elim (enqueue_reposition-perm new rs) [
  | inl (p, a) ↦ absurd (ground arith)
  | inr (us, p, m, n) ↦ ground arith
]

-- A step that replaces one carrier at most, and leaves the sizes of the tables.
resize :
    {s t : Building}
    → Sizes s
    → length t.carriers ≡ length s.carriers
    → length t.delivery.elevator.requests ≡ length s.delivery.elevator.requests
    → length t.reposition.elevator.requests ≡ length s.reposition.elevator.requests
    → Sizes t
resize v c d r = record {
  few = omega (arith, v.few);
  delivery_table = d ∙ v.delivery_table;
  reposition_table = r ∙ v.reposition_table;
}

module _ {s : Building} (v : Sizes s) where
  one_carrier :
      (t : Building) (k : ℕ) (d : Carrier)
      → t.carriers ≡ set s.carriers k d
      → t.delivery.elevator ≡ s.delivery.elevator
      → t.reposition.elevator ≡ s.reposition.elevator
      → Sizes t
  one_carrier t k d c e r =
      resize v (ap length c ∙ length-set s.carriers k d)
        (ap (λ (x : Elevator Char). length x.requests) e)
        (ap (λ (x : Elevator (Unit {0})). length x.requests) r)

  pick_char-Sizes :
      (k : ℕ) (c : Carrier) (wi : ℕ) (w : SharedWord) (draw : ℕ → ℕ)
      → Sizes (pick_char s k c wi w draw)
  unfolding pick_char
  pick_char-Sizes k c wi w draw = elim (Option-cases (claim_char w c.current_floor draw).1) [
    | inl e ↦ rw (e, pick_char) v
    | inr (ci, e) ↦
        rw (e, pick_char) (one_carrier _ k (record c { pc = holding wi ci }) refl refl refl)
  ]

  leave_floor-Sizes :
      (l : Lift) (k : ℕ) (c : Carrier) (to_floor : ℕ) → Sizes (leave_floor s l k c to_floor)
  unfolding leave_floor
  leave_floor-Sizes l k c to_floor = elim (Bool-cases (leaves to_floor c)) [
    | inl e ↦ rw (leave_floor, e) (one_carrier _ k (record c { pc = between l }) refl refl refl)
    | inr e ↦ rw (leave_floor, e) (one_carrier _ k (record c { pc = landed l }) refl refl refl)
  ]

  add_carrier-Sizes : (f : ℕ) → length s.carriers < max_carriers → Sizes (add_carrier s f)
  unfolding add_carrier
  add_carrier-Sizes f room = record {
    few = omega (arith, length-append s.carriers (new_carrier f ∷ []));
    delivery_table = v.delivery_table;
    reposition_table = v.reposition_table;
  }

Step-Sizes : {s t : Building} → Sizes s → Step s t → Sizes t
unfolding place_directly load_delivery load_reposition unload delivery_leaves reposition_leaves
    delivery_enters reposition_enters enter_floor delivery_ends reposition_ends mark_empty
Step-Sizes v (claim slot c here at e) = resize v (ground arith) (ground arith) (ground arith)
Step-Sizes v (reserve slot c idx w here at g e) =
    resize v (ground arith) (ground arith) (ground arith)
Step-Sizes v (admit slot c idx sf w ok here at g e) =
    resize v (ground arith) (ground arith) (ground arith)
Step-Sizes v (sort wi w g adm undone e) = resize v (ground arith) (ground arith) (ground arith)
Step-Sizes v (pick k c wi w draw here at g e) =
    subst Sizes (sym e) (pick_char-Sizes v k c wi w draw)
Step-Sizes v (place k c wi w ci here at g home e) =
    one_carrier v _ k _ (ap (λ x. x.carriers) e) (ground arith) (ground arith)
Step-Sizes {s} v (board k c wi w ci here at g away e) =
    let (rs, q, p) = ask_delivery-exact s k c wi w ci e in
    let same = enqueue_delivery-length _ _ _ q in
    resize v
      (ap (λ x. length x.carriers) p ∙ length-set s.carriers k (record c { pc = boarding wi ci }))
      (ap (λ x. length x.delivery.elevator.requests) p ∙ same) (ground arith)
Step-Sizes {s} v (wander k c draw here at e) =
    let (rs, q, p) = ask_reposition-exact s k c draw e in
    let same = enqueue_reposition-length _ _ _ q in
    resize v (ap (λ x. length x.carriers) p ∙ length-set s.carriers k (record c { pc = moving }))
      (ground arith) (ap (λ x. length x.reposition.elevator.requests) p ∙ same)
Step-Sizes v (leave k c here at e) =
    one_carrier v _ k (record c { pc = left }) (ground arith) (ground arith) (ground arith)
Step-Sizes {s} v (take_deliveries capacity lim bare at e) =
    resize v (ground arith)
      (ap (λ x. length x.delivery.elevator.requests) e
        ∙ delivery_round-length capacity s.delivery.elevator lim)
      (ground arith)
Step-Sizes {s} v (take_repositions capacity lim bare at e) =
    resize v (ground arith) (ground arith) (
      ap (λ x. length x.reposition.elevator.requests) e
      ∙ reposition_round-length capacity s.reposition.elevator lim)
Step-Sizes v (deliver r rest w c q at g here e) =
    one_carrier v _ r.carrier_slot (record c { pc = unloaded }) (ground arith) (ground arith)
      (ground arith)
Step-Sizes v (leave_with_delivery r rest c q at here e) =
    let t = leave_floor-Sizes v for_delivery r.carrier_slot c r.to_floor in
    subst Sizes (sym e) (resize t refl refl refl)
Step-Sizes v (enter_with_delivery r rest c old empty q at here e) =
    one_carrier v _ r.carrier_slot
      (record c { current_floor = r.to_floor; pc = landed for_delivery }) (ground arith)
      (ground arith) (ground arith)
Step-Sizes v (end_delivery r rest c old empty q at here e) =
    one_carrier v _ r.carrier_slot (record c { deliveries = c.deliveries + 1; pc = searching })
      (ground arith) (ground arith) (ground arith)
Step-Sizes v (leave_for_reposition r rest c q at here e) =
    let t = leave_floor-Sizes v for_reposition r.carrier_slot c r.to_floor in
    subst Sizes (sym e) (resize t refl refl refl)
Step-Sizes v (enter_for_reposition r rest c old empty q at here e) =
    one_carrier v _ r.carrier_slot
      (record c { current_floor = r.to_floor; pc = landed for_reposition }) (ground arith)
      (ground arith) (ground arith)
Step-Sizes v (end_reposition r rest c old empty q at here e) =
    one_carrier v _ r.carrier_slot (record c { repositions = c.repositions + 1; pc = searching })
      (ground arith) (ground arith) (ground arith)
Step-Sizes {s} v (start_carrier f slot lt e) =
    let (room, p, q) = reserve_carrier_slot-exact s f e in
    subst Sizes (sym p) (add_carrier-Sizes v f room)

Reach-Sizes : {s t : Building} → Sizes s → Reach s t → Sizes t
Reach-Sizes v started = v
Reach-Sizes v (later r st) = Step-Sizes (Reach-Sizes v r) st

-- No carrier is ever refused a place in a request table, so that no process exits on an overflow:
-- with tables of MAX_REQUESTS places, in every reachable state both requests succeed.
pub no_overflow :
    {s t : Building}
    → Blank s
    → length s.delivery.elevator.requests ≡ max_requests
    → length s.reposition.elevator.requests ≡ max_requests
    → Reach s t
    → (k : ℕ) (c : Carrier) (wi : ℕ) (w : SharedWord) (ci draw : ℕ)
    → (ask_delivery t k c wi w ci ≢ none) × (ask_reposition t k c draw ≢ none)
unfolding ask_delivery ask_reposition
no_overflow {s} {t} b d p r k c wi w ci draw =
    let v =
      Reach-Sizes {s = s} {t = t}
        (record {
          few = omega (arith, ap length b.no_carriers);
          delivery_table = d;
          reposition_table = p;
        })
        r in
    let q = Reach-Tickets b r in
    let new = delivery_request k c wi w ci in
    let other = reposition_request t.num_floors k c draw in
    (
      elim (enqueue_delivery-perm new t.delivery.elevator.requests) [
        | inl (e, full) ↦ absurd (
            omega (
              arith,
              v.few,
              v.delivery_table,
              waiting-full t.delivery.elevator.requests full,
              delivery_waiting_le q,
            ))
        | inr (rs, e, m, n) ↦ ground arith
      ],
      elim (enqueue_reposition-perm other t.reposition.elevator.requests) [
        | inl (e, full) ↦ absurd (
            omega (
              arith,
              v.few,
              v.reposition_table,
              waiting-full t.reposition.elevator.requests full,
              reposition_waiting_le q,
            ))
        | inr (rs, e, m, n) ↦ ground arith
      ],
    )
