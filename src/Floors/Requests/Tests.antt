-- ===== src/Floors/Requests/Tests.antt =====
-- A small table of delivery requests of HW3.
use mathlib.Core.List.{Perm}
use system_programming_homew.Prelude.{
  ℕ, ◌≤◌, ◌≡◌, Bool, true, false, List, [], ◌∷◌, ◌++◌, arith, length, ◌⊎◌, none, some, get_elem?,
  All,
}
use system_programming_homew.Floors.Requests.{
  Char, DeliveryRequest, Elevator, collect_delivery_batch, first_idx,
}
use system_programming_homew.Floors.Requests.Batches.{waiting, IsSorted}
use system_programming_homew.Floors.Requests.Service.{
  Journey, collect_delivery_batch-exact, IsAhead, first_idx-scan,
}

abbrev request : Bool → ℕ → ℕ → DeliveryRequest
request used from_floor to_floor = record {
  used = used;
  carrier_slot = 0;
  from_floor = from_floor;
  to_floor = to_floor;
  load = record { word_index = 0; char_index = 0; ch = 97 };
}

-- Behind the elevator; two on its way, the farther first; and a free place.
abbrev table : List DeliveryRequest
table = request true 1 0 ∷ request true 3 5 ∷ request true 3 4 ∷ request false 0 0 ∷ []

abbrev elevator : Elevator Char
elevator = record { requests = table; upward = true; floor = 2 }

collect_delivery_batch-exact_example :
    let (batch, e') = collect_delivery_batch 2 elevator in
    Perm (waiting elevator.requests) (batch ++ waiting e'.requests)
    × (length batch ≤ 2)
    × (batch ≡ [] → waiting elevator.requests ≡ [])
    × IsSorted e'.upward batch
    × ((floor : ℕ) × Journey floor e'.upward batch)
collect_delivery_batch-exact_example = collect_delivery_batch-exact 2 elevator (omega arith)

first_idx-scan_example :
    ((first_idx elevator ≡ none) × (waiting elevator.requests ≡ []))
    ⊎ ((i : ℕ) × (r : DeliveryRequest) × (first_idx elevator ≡ some i)
        × (get_elem? elevator.requests i ≡ some r)
        × (r.used ≡ true)
        × (IsAhead true 2 r.from_floor
            ⊎ (IsAhead false 2 r.from_floor
                × All (λ a. a.used ≡ true → ¬ IsAhead true 2 a.from_floor) elevator.requests)))
first_idx-scan_example = first_idx-scan elevator
