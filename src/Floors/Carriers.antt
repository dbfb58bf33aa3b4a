-- ===== src/Floors/Carriers.antt =====
-- HW3/hw3.h, shared_memory.c, letter_carrier.c and hw3.c: the letter carriers and their slots, the
-- floors that they stand on, the elevators, and the parent that starts carriers.
use system_programming_homew.Prelude.{
  ℕ, zero, suc, ◌+◌, Bool, true, false, ◌&&◌, ◌==◌, ltb, if◌then◌else◌, Option, none, some, List,
  [], ◌∷◌, ◌++◌, set, length,
}
use system_programming_homew.Floors.Word.{update}
use system_programming_homew.Floors.Requests.{Request, Char, Elevator}
use system_programming_homew.Floors.Admission.{SharedState}

-- The elevators.
pub data Lift : Type 0 where
  for_delivery : Lift
  for_reposition : Lift

-- Where a letter carrier stands: in the search; with the character `ci` of the word `wi`, for which
-- it has not decided; waiting for the delivery elevator with it, and after its delivery; waiting
-- for the reposition elevator; between two floors, and on the new one; or ended.
pub data Pc : Type 0 where
  searching : Pc
  holding : ℕ → ℕ → Pc
  boarding : ℕ → ℕ → Pc
  unloaded : Pc
  moving : Pc
  between : Lift → Pc
  landed : Lift → Pc
  left : Pc

pub record Carrier : Type 0 where
  pub current_floor : ℕ
  pub active : Bool
  pub deliveries : ℕ
  pub repositions : ℕ
  pub direct_placements : ℕ
  pub pc : Pc

-- How far an elevator is with the first request in its hands. `old` and `now_empty` are the
-- variables of `move_carrier_between_floors`.
pub data Stage : Type 0 where
  waits : Stage
  delivered : Stage
  departed : ℕ → Bool → Stage
  arrived : ℕ → Bool → Stage

pub record Shaft (X : Type 0) : Type 0 where
  pub elevator : Elevator X
  pub hand : List (Request X)
  pub stage : Stage

pub record Building : Type 0 where
  pub shared : SharedState
  pub num_floors : ℕ
  pub carriers : List Carrier
  pub carrier_count : ℕ → ℕ
  pub respawn_pending : ℕ → Bool
  pub delivery : Shaft Char
  pub reposition : Shaft (Unit {0})

-- `MAX_CARRIERS`.
abbrev pub max_carriers : ℕ
max_carriers = 512

abbrev pub with_pc : Building → ℕ → Carrier → Pc → Building
with_pc s k c pc = record s { carriers = set s.carriers k (record c { pc = pc }) }

abbrev pub new_carrier : ℕ → Carrier
new_carrier floor = record {
  current_floor = floor;
  active = true;
  deliveries = 0;
  repositions = 0;
  direct_placements = 0;
  pc = searching;
}

unfoldable pub add_carrier : Building → ℕ → Building
add_carrier s floor = record s {
  carriers = s.carriers ++ new_carrier floor ∷ [];
  carrier_count = update s.carrier_count floor (s.carrier_count floor + 1);
  respawn_pending = update s.respawn_pending floor false;
}

-- The slot is the one after the last; `none` is -1, on which the parent exits.
unfoldable pub reserve_carrier_slot : Building → ℕ → Option (Building × ℕ)
unfolding add_carrier
reserve_carrier_slot s floor =
    if ltb (length s.carriers) max_carriers
    then some (add_carrier s floor, length s.carriers)
    else none

-- What `maybe_spawn_more_carriers` reads of a floor under its lock.
unfoldable pub needs_carriers : Building → ℕ → Bool
needs_carriers s f = (s.carrier_count f == 0) && s.respawn_pending f

unfoldable pub spawn : ℕ → Building → ℕ → Option Building
unfolding reserve_carrier_slot
spawn zero s floor = some s
spawn (suc n) s floor = elim (reserve_carrier_slot s floor) [
  | none ↦ none
  | some (t, slot) ↦ spawn n t floor
]

-- The start of `main`: carriers on each floor from `f` on.
unfoldable pub start_carriers : ℕ → ℕ → Building → ℕ → Option Building
unfolding spawn
start_carriers zero per_floor s f = some s
start_carriers (suc n) per_floor s f = elim (spawn per_floor s f) [
  | none ↦ none
  | some t ↦ start_carriers n per_floor t (suc f)
]
