-- ===== src/Floors/Transport/Tickets.antt =====
-- The requests of HW3's letter carriers: each carrier that waits for an elevator has one.

use system_programming_homew.Prelude.{
  ℕ, ◌+◌, ◌≤◌, ◌≡◌, ◌≢◌, ◌&&◌, ◌==◌, if◌then◌else◌, Option, none, some, List, [], ◌∷◌, refl, arith,
  sum_of,
}
use system_programming_homew.Floors.Requests.{Request, DeliveryRequest, RepositionRequest}
use system_programming_homew.Floors.Carriers.{
  Lift, for_delivery, for_reposition, Pc, searching, holding, boarding, unloaded, moving, between,
  landed, left, Stage, waits, delivered, departed, arrived, Building,
}
use system_programming_homew.Floors.Transport.Slots.{pc_of}
use system_programming_homew.Floors.Requests.Batches.{waiting}

-- A carrier that waits for the delivery elevator with this character, or for the reposition one.
abbrev pub boards : ℕ → ℕ → Option Pc → ℕ
boards wi ci (some (boarding a b)) = if a == wi && b == ci then 1 else 0
boards wi ci p = 0

abbrev pub moves : Option Pc → ℕ
moves (some moving) = 1
moves p = 0

-- A request of this carrier.
abbrev pub asks : ℕ → ℕ → ℕ → DeliveryRequest → ℕ
asks k wi ci r =
    if r.carrier_slot == k && (r.load.word_index == wi && r.load.char_index == ci) then 1 else 0

abbrev pub asks_move : ℕ → RepositionRequest → ℕ
asks_move k r = if r.carrier_slot == k then 1 else 0

-- The requests in an elevator's hands for which nothing has been done yet.
abbrev pub untouched : {X : Type 0} → Stage → List (Request X) → List (Request X)
untouched waits hand = hand
untouched stage [] = []
untouched stage (r ∷ rest) = rest

-- Where the carrier of the request at hand stands.
abbrev pub expects : Lift → Stage → Option Pc
expects lift waits = none
expects for_delivery delivered = some unloaded
expects for_reposition delivered = none
expects lift (departed old empty) = some (between lift)
expects lift (arrived old empty) = some (landed lift)

pub record Tickets (s : Building) : Type 0 where
  pub delivery_asked :
      (k wi ci : ℕ)
      → sum_of (asks k wi ci) (waiting s.delivery.elevator.requests)
          + sum_of (asks k wi ci) (untouched s.delivery.stage s.delivery.hand)
        ≡ boards wi ci (pc_of s.carriers k)
  pub reposition_asked :
      (k : ℕ)
      → sum_of (asks_move k) (waiting s.reposition.elevator.requests)
          + sum_of (asks_move k) (untouched s.reposition.stage s.reposition.hand)
        ≡ moves (pc_of s.carriers k)
  pub delivery_head :
      (r : DeliveryRequest) (rest : List DeliveryRequest) (p : Pc)
      → s.delivery.hand ≡ r ∷ rest
      → expects for_delivery s.delivery.stage ≡ some p
      → pc_of s.carriers r.carrier_slot ≡ some p
  pub reposition_head :
      (r : RepositionRequest) (rest : List RepositionRequest) (p : Pc)
      → s.reposition.hand ≡ r ∷ rest
      → expects for_reposition s.reposition.stage ≡ some p
      → pc_of s.carriers r.carrier_slot ≡ some p

pub boards_pos : (p : Pc) (wi ci : ℕ) → 1 ≤ boards wi ci (some p) → p ≡ boarding wi ci
boards_pos searching wi ci h = absurd (omega arith)
boards_pos (holding a b) wi ci h = absurd (omega arith)
boards_pos (boarding a b) wi ci h = ground arith
boards_pos unloaded wi ci h = absurd (omega arith)
boards_pos moving wi ci h = absurd (omega arith)
boards_pos (between l) wi ci h = absurd (omega arith)
boards_pos (landed l) wi ci h = absurd (omega arith)
boards_pos left wi ci h = absurd (omega arith)

pub expects-waiter :
    (l : Lift) (st : Stage) (wi ci : ℕ)
    → (expects l st ≢ some searching)
      × (expects l st ≢ some (holding wi ci))
      × (expects l st ≢ some (boarding wi ci))
      × (expects l st ≢ some moving)
expects-waiter l waits wi ci = ground arith
expects-waiter for_delivery delivered wi ci = ground arith
expects-waiter for_reposition delivered wi ci = ground arith
expects-waiter l (departed old empty) wi ci = ground arith
expects-waiter l (arrived old empty) wi ci = ground arith

-- A carrier that an elevator has begun to move waits for nothing else, and its request is the one
-- that is no longer untouched.
pub expects_begun :
    (l : Lift) (st : Stage) (p : Pc)
    → expects l st ≡ some p
    → ((a b : ℕ) → boards a b (some p) ≡ 0)
      × (moves (some p) ≡ 0)
      × ((X : Type 0) (r : Request X) (rest : List (Request X)) → untouched st (r ∷ rest) ≡ rest)
expects_begun l waits p e = cc
expects_begun for_delivery delivered p e = (λ a b. ground arith, ground arith, λ X r rest. refl)
expects_begun for_reposition delivered p e = cc
expects_begun l (departed old empty) p e = (λ a b. ground arith, ground arith, λ X r rest. refl)
expects_begun l (arrived old empty) p e = (λ a b. ground arith, ground arith, λ X r rest. refl)

-- No carrier is moved by both elevators.
pub expects_apart :
    (st st' : Stage) (p : Pc)
    → expects for_delivery st ≡ some p
    → expects for_reposition st' ≢ some p
expects_apart st waits p e = ground arith
expects_apart st delivered p e = ground arith
expects_apart waits st p e = cc
expects_apart delivered (departed a b) p e = ground arith
expects_apart delivered (arrived a b) p e = ground arith
expects_apart (departed c d) (departed a b) p e = ground arith
expects_apart (departed c d) (arrived a b) p e = ground arith
expects_apart (arrived c d) (departed a b) p e = ground arith
expects_apart (arrived c d) (arrived a b) p e = ground arith

-- What `Tickets` reads of a state.
pub record SameDesk (s t : Building) : Type 0 where
  pub carriers : t.carriers ≡ s.carriers
  pub delivery : t.delivery ≡ s.delivery
  pub reposition : t.reposition ≡ s.reposition

pub SameDesk-Tickets : {s t : Building} → Tickets s → SameDesk s t → Tickets t
SameDesk-Tickets v e = record {
  delivery_asked = λ k a b. rw (e.carriers, e.delivery) (v.delivery_asked k a b);
  reposition_asked = λ k. rw (e.carriers, e.reposition) (v.reposition_asked k);
  delivery_head = rw (e.carriers, e.delivery) v.delivery_head;
  reposition_head = rw (e.carriers, e.reposition) v.reposition_head;
}
