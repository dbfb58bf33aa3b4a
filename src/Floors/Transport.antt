-- ===== src/Floors/Transport.antt =====
-- HW3/letter_carrier.c, elevator.c, shared_memory.c and hw3.c: the letter carriers, the floors that
-- they stand on, and the elevators that move them, together with the words of `Admission`.
-- A step (in `Steps`) is what a process does under one lock. A carrier that waits for its event does nothing; the
-- signal is the step that lets it search again. An elevator's round takes its requests in one step,
-- and each of its requests is then served in up to four: the character is delivered, the carrier
-- leaves its floor, it arrives, and the floor that it left is looked at.
-- The search over the words is one step for each word that it locks; a carrier may stop it anywhere.
pub mod Steps
pub mod Calls
pub mod Respawn
pub mod Slots
pub mod Tickets
pub mod Asking
pub mod Served
pub mod Repositions
pub mod Journeys
pub mod Custody
pub mod Headcount
pub mod Safety
pub mod Staffing
pub mod Waiting
pub mod Overflow
pub mod Refines
mod Tests
use system_programming_homew.Prelude.{
  ℕ, zero, suc, ◌+◌, ◌-◌, ◌%◌, ◌<◌, ◌≤◌, ◌≡◌, ◌≢◌, Bool, true, false, not, ◌&&◌, ◌||◌, ◌==◌, ltb,
  if◌then◌else◌, Option, none, some, List, [], ◌∷◌, ◌++◌, set, get_elem?, length, get_or,
}
use system_programming_homew.Floors.Word.{update, SharedWord, deliver_char, claim_char}
use system_programming_homew.Floors.Requests.{
  Request, Char, DeliveryRequest, RepositionRequest, Elevator, enqueue_delivery, enqueue_reposition,
  delivery_round, reposition_round,
}
use system_programming_homew.Floors.Admission.{
  WordCarrier, SharedState, scanning, claiming, decided, claim_word, reserve_floors,
  admit_or_release, sort_word, with_word,
}
use system_programming_homew.Floors.Carriers.{
  Lift, for_delivery, for_reposition, Pc, searching, holding, boarding, unloaded, moving, between,
  landed, left, Carrier, Stage, waits, delivered, departed, arrived, Shaft, Building, max_carriers,
  with_pc, new_carrier, add_carrier, reserve_carrier_slot, needs_carriers, spawn, start_carriers,
}

-- A word is locked and one of its characters claimed, if one is free.
pub pick_char : Building → ℕ → Carrier → ℕ → SharedWord → (ℕ → ℕ) → Building
pick_char s k c wi w draw = elim (claim_char w c.current_floor draw).1 [
  | none ↦ s
  | some ci ↦ record s {
    shared = with_word s.shared wi (claim_char w c.current_floor draw).0;
    carriers = set s.carriers k (record c { pc = holding wi ci });
  }
]

-- The destination is the carrier's own floor.
pub place_directly : Building → ℕ → Carrier → ℕ → SharedWord → ℕ → Building
place_directly s k c wi w ci =
    let (w', ok) = deliver_char w ci in
    record s {
      shared = with_word s.shared wi w';
      carriers = set s.carriers k (record c {
        direct_placements = if ok then c.direct_placements + 1 else c.direct_placements;
        pc = searching;
      });
    }

abbrev pub delivery_request : ℕ → Carrier → ℕ → SharedWord → ℕ → DeliveryRequest
delivery_request k c wi w ci = record {
  used = true;
  carrier_slot = k;
  from_floor = c.current_floor;
  to_floor = w.sorting_floor;
  load = record { word_index = wi; char_index = ci; ch = get_or w.text ci 0 };
}

abbrev pub with_requests : {X : Type 0} → Shaft X → List (Request X) → Shaft X
with_requests b rs = record b { elevator = record b.elevator { requests = rs } }

-- `none` is the overflow on which the code exits.
pub ask_delivery : Building → ℕ → Carrier → ℕ → SharedWord → ℕ → Option Building
ask_delivery s k c wi w ci =
    elim (enqueue_delivery (delivery_request k c wi w ci) s.delivery.elevator.requests) [
      | none ↦ none
      | some rs ↦ some (record s {
        delivery = with_requests s.delivery rs;
        carriers = set s.carriers k (record c { pc = boarding wi ci });
      })
    ]

-- The floor that a carrier without a task chooses.
pub reposition_target : ℕ → ℕ → ℕ → ℕ
reposition_target num_floors floor draw =
    let tf = draw % num_floors in
    if (tf == floor) && ltb 1 num_floors then (tf + 1) % num_floors else tf

abbrev pub reposition_request : ℕ → ℕ → Carrier → ℕ → RepositionRequest
reposition_request num_floors k c draw = record {
  used = true;
  carrier_slot = k;
  from_floor = c.current_floor;
  to_floor = reposition_target num_floors c.current_floor draw;
  load = tt;
}

pub ask_reposition : Building → ℕ → Carrier → ℕ → Option Building
unfolding reposition_target
ask_reposition s k c draw =
    elim (enqueue_reposition (reposition_request s.num_floors k c draw)
      s.reposition.elevator.requests) [
        | none ↦ none
        | some rs ↦ some (record s {
          reposition = with_requests s.reposition rs;
          carriers = set s.carriers k (record c { pc = moving });
        })
      ]

-- Under the mutex of a table: the next batch.
pub load_delivery : ℕ → Building → Building
load_delivery capacity s =
    let (batch, e) = delivery_round capacity s.delivery.elevator in
    record s { delivery = record { elevator = e; hand = batch; stage = waits } }

pub load_reposition : ℕ → Building → Building
load_reposition capacity s =
    let (batch, e) = reposition_round capacity s.reposition.elevator in
    record s { reposition = record { elevator = e; hand = batch; stage = waits } }

-- The delivery elevator delivers the character of the request `r`, of the word `w`.
pub unload : Building → DeliveryRequest → SharedWord → Carrier → Building
unload s r w c = record s {
  shared = with_word s.shared r.load.word_index (deliver_char w r.load.char_index).0;
  carriers = set s.carriers r.carrier_slot (record c { pc = unloaded });
  delivery = record s.delivery { stage = delivered };
}

-- `move_carrier_between_floors` up to the second lock: the carrier leaves its floor, unless it stays.
abbrev leaves : ℕ → Carrier → Bool
leaves to_floor c = not (c.current_floor == to_floor)

pub stage_after_leaving : Building → Carrier → ℕ → Stage
stage_after_leaving s c to_floor =
    if leaves to_floor c
    then departed c.current_floor (s.carrier_count c.current_floor - 1 == 0)
    else arrived c.current_floor false

pub leave_floor : Building → Lift → ℕ → Carrier → ℕ → Building
leave_floor s lift k c to_floor =
    if leaves to_floor c
    then record s {
      carrier_count = update s.carrier_count c.current_floor (s.carrier_count c.current_floor - 1);
      carriers = set s.carriers k (record c { pc = between lift });
    }
    else with_pc s k c (landed lift)

-- Its second lock: the carrier arrives.
pub enter_floor : Building → Lift → ℕ → Carrier → ℕ → Building
enter_floor s lift k c to_floor = record s {
  carrier_count = update s.carrier_count to_floor (s.carrier_count to_floor + 1);
  respawn_pending = update s.respawn_pending to_floor false;
  carriers = set s.carriers k (record c { current_floor = to_floor; pc = landed lift });
}

-- Its third lock: the floor left empty is marked.
pub mark_empty : Building → ℕ → Bool → Building
mark_empty s old now_empty =
    if now_empty
      && ltb old s.num_floors
      && (s.carrier_count old == 0)
      && not (s.respawn_pending old)
    then record s { respawn_pending = update s.respawn_pending old true }
    else s

-- Each elevator after a step of its own: its stage, and the carrier that it has moved.
pub delivery_leaves : Building → DeliveryRequest → Carrier → Building
unfolding leave_floor stage_after_leaving
delivery_leaves s r c =
    let t = leave_floor s for_delivery r.carrier_slot c r.to_floor in
    record t { delivery = record t.delivery { stage = stage_after_leaving s c r.to_floor } }

pub reposition_leaves : Building → RepositionRequest → Carrier → Building
unfolding leave_floor stage_after_leaving
reposition_leaves s r c =
    let t = leave_floor s for_reposition r.carrier_slot c r.to_floor in
    record t { reposition = record t.reposition { stage = stage_after_leaving s c r.to_floor } }

pub delivery_enters : Building → DeliveryRequest → Carrier → ℕ → Bool → Building
unfolding enter_floor
delivery_enters s r c old now_empty =
    let t = enter_floor s for_delivery r.carrier_slot c r.to_floor in
    record t { delivery = record t.delivery { stage = arrived old now_empty } }

pub reposition_enters : Building → RepositionRequest → Carrier → ℕ → Bool → Building
unfolding enter_floor
reposition_enters s r c old now_empty =
    let t = enter_floor s for_reposition r.carrier_slot c r.to_floor in
    record t { reposition = record t.reposition { stage = arrived old now_empty } }

-- The request is done: its carrier is counted and signalled.
pub delivery_ends :
    Building → DeliveryRequest → List DeliveryRequest → Carrier → ℕ → Bool → Building
unfolding mark_empty
delivery_ends s r rest c old now_empty =
    let t = mark_empty s old now_empty in
    record t {
      carriers =
          set t.carriers r.carrier_slot
            (record c { deliveries = c.deliveries + 1; pc = searching });
      delivery = record t.delivery { hand = rest; stage = waits };
    }

pub reposition_ends :
    Building → RepositionRequest → List RepositionRequest → Carrier → ℕ → Bool → Building
unfolding mark_empty
reposition_ends s r rest c old now_empty =
    let t = mark_empty s old now_empty in
    record t {
      carriers =
          set t.carriers r.carrier_slot
            (record c { repositions = c.repositions + 1; pc = searching });
      reposition = record t.reposition { hand = rest; stage = waits };
    }
