-- ===== src/Floors/Transport/Waiting.antt =====
-- At most as many requests wait in a table of HW3 as there are letter carriers.
use mathlib.Core.Path.{subst}
use system_programming_homew.Prelude.{
  ℕ, zero, suc, ◌≤◌, ◌≡◌, ◌≢◌, ◌==◌, if◌then◌else◌, Option, none, some, get_elem?, length, refl,
  arith, sum_of, sum_of-le_get, le-sum_of, sum_below, pigeonhole, ℕ_discrete,
}
use system_programming_homew.Floors.Requests.{DeliveryRequest, RepositionRequest}
use system_programming_homew.Floors.Carriers.{
  Pc, searching, holding, boarding, unloaded, moving, between, landed, left, Building,
}
use system_programming_homew.Floors.Requests.Batches.{waiting}
use system_programming_homew.Floors.Transport.Slots.{pc_of, pc_of-lt}
use system_programming_homew.Floors.Transport.Tickets.{Tickets, asks, asks_move, moves, boards}

-- What a carrier waits for the delivery elevator with, if it does.
abbrev cargo : Option Pc → ℕ × ℕ
cargo (some (boarding a b)) = (a, b)
cargo p = (0, 0)

boards-cargo :
    (p : Option Pc) (wi ci : ℕ)
    → 1 ≤ boards wi ci p
    → (wi ≡ (cargo p).0) × (ci ≡ (cargo p).1) × (p ≢ none)
boards-cargo none wi ci h = absurd (omega arith)
boards-cargo (some searching) wi ci h = absurd (omega arith)
boards-cargo (some (holding a b)) wi ci h = absurd (omega arith)
boards-cargo (some (boarding a b)) wi ci h = ground arith
boards-cargo (some unloaded) wi ci h = absurd (omega arith)
boards-cargo (some moving) wi ci h = absurd (omega arith)
boards-cargo (some (between l)) wi ci h = absurd (omega arith)
boards-cargo (some (landed l)) wi ci h = absurd (omega arith)
boards-cargo (some left) wi ci h = absurd (omega arith)

boards_le : (p : Option Pc) (wi ci : ℕ) → boards wi ci p ≤ 1
boards_le none wi ci = omega arith
boards_le (some searching) wi ci = omega arith
boards_le (some (holding a b)) wi ci = omega arith
boards_le (some (boarding a b)) wi ci = ground arith
boards_le (some unloaded) wi ci = omega arith
boards_le (some moving) wi ci = omega arith
boards_le (some (between l)) wi ci = omega arith
boards_le (some (landed l)) wi ci = omega arith
boards_le (some left) wi ci = omega arith

moves_le : (p : Option Pc) → (moves p ≤ 1) × (p ≡ none → moves p ≡ 0)
moves_le none = ground arith
moves_le (some searching) = ground arith
moves_le (some (holding a b)) = ground arith
moves_le (some (boarding a b)) = ground arith
moves_le (some unloaded) = ground arith
moves_le (some moving) = ground arith
moves_le (some (between l)) = ground arith
moves_le (some (landed l)) = ground arith
moves_le (some left) = ground arith

one_each : (n : ℕ) → sum_below (λ k. 1) n ≡ n
one_each zero = refl
one_each (suc n) = omega (arith, one_each n)

module _ {s : Building} (v : Tickets s) where
  delivery_carrier :
      (i : ℕ) (r : DeliveryRequest)
      → get_elem? (waiting s.delivery.elevator.requests) i ≡ some r
      → (r.load.word_index ≡ (cargo (pc_of s.carriers r.carrier_slot)).0)
        × (r.load.char_index ≡ (cargo (pc_of s.carriers r.carrier_slot)).1)
        × (pc_of s.carriers r.carrier_slot ≢ none)
  delivery_carrier i r g =
      let a = r.load.word_index in
      let b = r.load.char_index in
      boards-cargo (pc_of s.carriers r.carrier_slot) a b (
        ground (
          arith,
          v.delivery_asked r.carrier_slot a b,
          le-sum_of (asks r.carrier_slot a b) (waiting s.delivery.elevator.requests) i r g,
        ))

  pub delivery_waiting_le : length (waiting s.delivery.elevator.requests) ≤ length s.carriers
  delivery_waiting_le =
      let queue = waiting s.delivery.elevator.requests in
      let once : (k : ℕ) → sum_of (λ r. if r.carrier_slot == k then 1 else 0) queue ≤ 1 = λ k.
        let (a, b) = cargo (pc_of s.carriers k) in
        let each =
          sum_of-le_get (λ r. if r.carrier_slot == k then 1 else 0) (asks k a b) queue
            (λ i r g. elim (ℕ_discrete r.carrier_slot k) [
              | yes e ↦
                  let c =
                    subst
                      (λ x.
                        (r.load.word_index ≡ (cargo (pc_of s.carriers x)).0)
                        × (r.load.char_index ≡ (cargo (pc_of s.carriers x)).1))
                      e ((delivery_carrier i r g).0, (delivery_carrier i r g).1) in
                  ground (arith, c)
              | no ne ↦ ground arith
            ]) in
        omega (arith, v.delivery_asked k a b, boards_le (pc_of s.carriers k) a b) in
      omega (
        arith,
        pigeonhole (λ (r : DeliveryRequest). r.carrier_slot) (λ k. 1) queue once (length s.carriers)
            (λ i r g. pc_of-lt s.carriers r.carrier_slot (delivery_carrier i r g).2),
        one_each (length s.carriers),
      )

  pub reposition_waiting_le : length (waiting s.reposition.elevator.requests) ≤ length s.carriers
  reposition_waiting_le =
      let queue = waiting s.reposition.elevator.requests in
      let once : (k : ℕ) → sum_of (λ r. if r.carrier_slot == k then 1 else 0) queue ≤ 1 =
        λ k. omega (arith, v.reposition_asked k, moves_le (pc_of s.carriers k)) in
      omega (
        arith,
        pigeonhole (λ (r : RepositionRequest). r.carrier_slot) (λ k. 1) queue once
            (length s.carriers)
            (λ i r g. pc_of-lt s.carriers r.carrier_slot (λ e. absurd (
              ground (
                arith,
                v.reposition_asked r.carrier_slot,
                moves_le (pc_of s.carriers r.carrier_slot),
                le-sum_of (asks_move r.carrier_slot) queue i r g,
              )))),
        one_each (length s.carriers),
      )
