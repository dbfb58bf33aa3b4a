-- ===== src/Floors/Requests.antt =====
-- HW3/letter_carrier.c and elevator.c: the two request tables and the choice of an elevator.
-- The two tables differ in what a request carries, which is the parameter `X` (for a delivery the
-- word, the character's index and the character; for a reposition nothing). A function that the code
-- calls with the table's mutex held is one step. Floors count from 0.
pub mod Batches
pub mod Service
mod Tests
use system_programming_homew.Prelude.{
  ℕ, zero, suc, ◌+◌, Bool, true, false, not, ◌&&◌, ◌||◌, ◌==◌, ltb, leb, if◌then◌else◌, Option,
  none, some, List, [], ◌∷◌, set, get_elem?, length,
}

-- `MAX_REQUESTS`.
abbrev pub max_requests : ℕ
max_requests = 2048

pub record Request (X : Type 0) : Type 0 where
  pub used : Bool
  pub carrier_slot : ℕ
  pub from_floor : ℕ
  pub to_floor : ℕ
  pub load : X

-- `word_index`, `char_index` and `ch` of a delivery.
pub record Char : Type 0 where
  pub word_index : ℕ
  pub char_index : ℕ
  pub ch : ℕ

abbrev pub DeliveryRequest : Type 0
DeliveryRequest = Request Char

abbrev pub RepositionRequest : Type 0
RepositionRequest = Request (Unit {0})

-- An elevator's share of `SharedState`; `upward` is a direction of 1.
pub record Elevator (X : Type 0) : Type 0 where
  pub requests : List (Request X)
  pub upward : Bool
  pub floor : ℕ

module _ {X : Type 0} where
  -- `none` is the overflow on which the code exits.
  pub enqueue : Request X → List (Request X) → Option (List (Request X))
  enqueue new [] = none
  enqueue new (r ∷ rs) =
      let later = enqueue new rs in
      if not r.used then some (new ∷ rs) else elim later [ none ↦ none | some rs' ↦ some (r ∷ rs') ]

  -- Does the request start on the way of an elevator that stands at the floor `here`?
  pub on_the_way : Bool → ℕ → Request X → Bool
  on_the_way upward here r =
      (upward && leb here r.from_floor) || (not upward && leb r.from_floor here)

  -- One pass over the table from the index `i` on.
  pub first_in_pass : Bool → ℕ → List (Request X) → ℕ → Option ℕ
  unfolding on_the_way
  first_in_pass upward here [] i = none
  first_in_pass upward here (r ∷ rs) i =
      let later = first_in_pass upward here rs (suc i) in
      if r.used && on_the_way upward here r then some i else later

  -- The second pass has the opposite direction.
  pub first_idx : Elevator X → Option ℕ
  unfolding first_in_pass
  first_idx e = elim (first_in_pass e.upward e.floor e.requests 0) [
    | some i ↦ some i
    | none ↦ first_in_pass (not e.upward) e.floor e.requests 0
  ]

  -- Clear `used`.
  pub release : Request X → Request X
  release r = record r { used = false }

  pub goes_up : Request X → Bool
  goes_up r = leb r.from_floor r.to_floor

  -- The collecting loop over the rest of the table, with `count` requests in the batch so far: the
  -- requests taken, in the order of the table, and the rest of the table after it. Once the batch is
  -- full the code leaves the loop, and here no further request is taken.
  pub gather : (Request X → Bool) → ℕ → ℕ → List (Request X) → List (Request X) × List (Request X)
  unfolding release
  gather joins limit count [] = ([], [])
  gather joins limit count (r ∷ rs) =
      let take = ltb count limit && (r.used && joins r) in
      let (batch, rest) = gather joins limit (if take then suc count else count) rs in
      if take then (r ∷ batch, release r ∷ rest) else (batch, r ∷ rest)

  -- Does the request `b`, later in the batch, go before `a`?
  pub overtakes : Bool → Request X → Request X → Bool
  overtakes upward b a = if upward then ltb b.to_floor a.to_floor else ltb a.to_floor b.to_floor

  -- The inner loop of the sort, for one `i`: what ends at `i`, and the batch behind it.
  pub settle : Bool → Request X → List (Request X) → Request X × List (Request X)
  unfolding overtakes
  settle upward a [] = (a, [])
  settle upward a (b ∷ rest) =
      let sw = overtakes upward b a in
      let (first, rest') = settle upward (if sw then b else a) rest in
      (first, (if sw then a else b) ∷ rest')

  -- The outer loop, for `n` values of `i`.
  pub exchange_sort : Bool → ℕ → List (Request X) → List (Request X)
  unfolding settle
  exchange_sort upward zero batch = batch
  exchange_sort upward (suc n) [] = []
  exchange_sort upward (suc n) (a ∷ rest) =
      let (first, rest') = settle upward a rest in first ∷ exchange_sort upward n rest'

  -- The common part of the two functions that collect a batch, for the request at `fi`: `joins` is
  -- the test of the loop.
  collect_from :
      (Request X → Request X → Bool)
      → ℕ
      → Elevator X
      → ℕ
      → Request X
      → List (Request X) × Elevator X
  unfolding release goes_up gather
  collect_from joins limit e fi first =
      let (more, rest) = gather (joins first) limit 1 (set e.requests fi (release first)) in
      (first ∷ more, record e { requests = rest; upward = goes_up first })

  collect : (Request X → Request X → Bool) → ℕ → Elevator X → List (Request X) × Elevator X
  unfolding first_idx collect_from
  collect joins limit e = elim (first_idx e) [
    | none ↦ ([], e)
    | some fi ↦ elim (get_elem? e.requests fi) [
      | none ↦ ([], e)
      | some first ↦ collect_from joins limit e fi first
    ]
  ]

  pub same_way : Request X → Request X → Bool
  unfolding goes_up
  same_way first r =
      (r.from_floor == first.from_floor) && (if goes_up first then goes_up r else not (goes_up r))

  pub same_floor : Request X → Request X → Bool
  same_floor first r = r.from_floor == first.from_floor

unfoldable pub enqueue_delivery :
    DeliveryRequest → List DeliveryRequest → Option (List DeliveryRequest)
unfolding enqueue
enqueue_delivery new rs = enqueue (record new { used = true }) rs

pub enqueue_reposition :
    RepositionRequest → List RepositionRequest → Option (List RepositionRequest)
unfolding enqueue
enqueue_reposition new rs = enqueue (record new { used = true }) rs

-- The direction that the sort follows is the one that the first request has set.
pub collect_delivery_batch : ℕ → Elevator Char → List DeliveryRequest × Elevator Char
unfolding collect exchange_sort same_way
collect_delivery_batch limit e =
    let (batch, e') = collect same_way limit e in (exchange_sort e'.upward (length batch) batch, e')

pub collect_reposition_batch :
    ℕ → Elevator (Unit {0}) → List RepositionRequest × Elevator (Unit {0})
unfolding collect same_floor
collect_reposition_batch limit e = collect same_floor limit e

-- What the elevators allow themselves of a configured capacity.
pub batch_cap : ℕ → ℕ
batch_cap capacity = if ltb capacity 64 then capacity else 64

-- The floor after the batch: each of its requests moves the elevator to its own target.
stop_at : {X : Type 0} → ℕ → List (Request X) → ℕ
stop_at here [] = here
stop_at here (r ∷ rs) = stop_at r.to_floor rs

-- How the delivery elevator moves for a batch that is not empty: first to its first request.
ride : Elevator Char → List DeliveryRequest → Elevator Char
unfolding stop_at
ride e [] = e
ride e (first ∷ more) = record e {
  upward =
      if ltb e.floor first.from_floor
      then true
      else if ltb first.from_floor e.floor
      then false
      else e.upward;
  floor = stop_at first.to_floor more;
}

-- One round of `delivery_elevator_loop`: the batch that it has delivered, in this order, and the
-- elevator after it.
pub delivery_round : ℕ → Elevator Char → List DeliveryRequest × Elevator Char
unfolding collect_delivery_batch ride batch_cap
delivery_round capacity e =
    let (batch, e') = collect_delivery_batch (batch_cap capacity) e in (batch, ride e' batch)

-- One round of `reposition_elevator_loop`.
pub reposition_round : ℕ → Elevator (Unit {0}) → List RepositionRequest × Elevator (Unit {0})
unfolding collect_reposition_batch stop_at batch_cap
reposition_round capacity e =
    let (batch, e') = collect_reposition_batch (batch_cap capacity) e in
    (batch, record e' { floor = stop_at e'.floor batch })
