-- ===== src/Floors/Requests/Service.antt =====
-- What the request tables and the elevators of HW3 promise to the carriers that wait.
use mathlib.Core.List.{Perm}
use mathlib.Core.List.Perm
use mathlib.Core.Path.{subst}
use system_programming_homew.Prelude.{
  ℕ, suc, ◌≤◌, ◌≡◌, refl, sym, ap, Bool, true, false, not, ◌&&◌, ◌||◌, if◌then◌else◌, none, some,
  List, [], ◌∷◌, ◌++◌, set, get_elem?, length, length-set, All, arith, Bool-cases, ◌⊎◌, inl, inr,
}
use system_programming_homew.Floors.Requests.{
  Request, Char, DeliveryRequest, Elevator, enqueue, enqueue_delivery, on_the_way, first_idx,
  release, goes_up, gather, collect_from, collect, same_way, collect_delivery_batch, ride,
  delivery_round, batch_cap, reposition_round, RepositionRequest, enqueue_reposition,
  collect_reposition_batch, same_floor,
}
use system_programming_homew.Floors.Requests.Batches.{
  waiting, waiting-used, also_first, first_in_pass-exact, waiting-release, gather-perm,
  gather-joins, gather-fits, IsSorted, exchange_sort-All, exchange_sort-exact,
}

-- The floor `f` is the one where the elevator stands, or lies in its direction.
abbrev pub IsAhead : Bool → ℕ → ℕ → Type 0
IsAhead true here f = here ≤ f
IsAhead false here f = f ≤ here

module _ {X : Type 0} where
  enqueue-perm :
      (new : Request X) (rs : List (Request X))
      → new.used ≡ true
      → ((enqueue new rs ≡ none) × All (λ r. r.used ≡ true) rs)
        ⊎ ((rs' : List (Request X)) × (enqueue new rs ≡ some rs')
            × Perm (waiting rs') (new ∷ waiting rs)
            × (length rs' ≡ length rs))
  unfolding enqueue
  enqueue-perm new [] u = inl (refl, tt)
  enqueue-perm new (r ∷ rs) u = elim (Bool-cases r.used) [
    | inr e ↦
        let free : waiting (r ∷ rs) ≡ waiting rs =
          ap (λ b. if b then r ∷ waiting rs else waiting rs) e in
        inr (new ∷ rs, rw (enqueue, e) refl, rw (waiting-used new rs u, free) (Perm.refl _), refl)
    | inl e ↦ elim (enqueue-perm new rs u) [
      | inl (p, a) ↦ inl (ground arith, (e, a))
      | inr (rs', p, m, n) ↦ inr (r ∷ rs', ground arith, also_first r.used r new m, ap suc n)
    ]
  ]

  unused-waiting :
      (p : Request X → Bool) (q : Request X → Bool) (rs : List (Request X))
      → ((r : Request X) → (p r || q r) ≡ true)
      → All (λ r. r.used && p r ≡ false) rs
      → All (λ r. r.used && q r ≡ false) rs
      → waiting rs ≡ []
  unused-waiting p q [] t a b = refl
  unused-waiting p q (r ∷ rs) t a b = ground (arith, unused-waiting p q rs t a.1 b.1, t r)

  on_the_way_total :
      (upward : Bool) (here : ℕ) (r : Request X)
      → (on_the_way upward here r || on_the_way (not upward) here r) ≡ true
  unfolding on_the_way
  on_the_way_total upward here r = ground arith

  on_the_way-IsAhead :
      (upward : Bool) (here : ℕ) (r : Request X)
      → on_the_way upward here r ≡ true
      → IsAhead upward here r.from_floor
  unfolding on_the_way
  on_the_way-IsAhead true here r h = ground arith
  on_the_way-IsAhead false here r h = ground arith

  not_on_the_way :
      (upward : Bool) (here : ℕ) (r : Request X)
      → r.used && on_the_way upward here r ≡ false
      → r.used ≡ true
      → ¬ IsAhead upward here r.from_floor
  unfolding on_the_way
  not_on_the_way true here r h u a = ground arith
  not_on_the_way false here r h u a = ground arith

  none-IsAhead :
      (upward : Bool) (here : ℕ) (rs : List (Request X))
      → All (λ r. r.used && on_the_way upward here r ≡ false) rs
      → All (λ r. r.used ≡ true → ¬ IsAhead upward here r.from_floor) rs
  none-IsAhead upward here [] h = tt
  none-IsAhead upward here (r ∷ rs) h =
      (not_on_the_way upward here r h.0, none-IsAhead upward here rs h.1)

  -- An elevator goes for no request only when none waits. Otherwise it goes for one that waits, at its
  -- own floor or ahead of it in its direction; and for one behind it only when no waiting request is
  -- at its floor or ahead.
  pub first_idx-scan :
      (e : Elevator X)
      → ((first_idx e ≡ none) × (waiting e.requests ≡ []))
        ⊎ ((i : ℕ) × (r : Request X) × (first_idx e ≡ some i)
            × (get_elem? e.requests i ≡ some r)
            × (r.used ≡ true)
            × (IsAhead e.upward e.floor r.from_floor
                ⊎ (IsAhead (not e.upward) e.floor r.from_floor
                    × All
                        (λ a. a.used ≡ true → ¬ IsAhead e.upward e.floor a.from_floor)
                        e.requests)))
  unfolding first_idx
  first_idx-scan e = elim (first_in_pass-exact e.upward e.floor e.requests 0) [
    | inr (k, r, p, g, u, w) ↦ inr (
      k,
      r,
      rw (p, first_idx) (ap some (omega arith)),
      g,
      u,
      inl (on_the_way-IsAhead e.upward e.floor r w),
    )
    | inl (p, a) ↦ elim (first_in_pass-exact (not e.upward) e.floor e.requests 0) [
      | inr (k, r, q, g, u, w) ↦ inr (
        k,
        r,
        rw (p, first_idx, q) (ap some (omega arith)),
        g,
        u,
        inr (
          on_the_way-IsAhead (not e.upward) e.floor r w,
          none-IsAhead e.upward e.floor e.requests a,
        ),
      )
      | inl (q, b) ↦ inl (
        rw (p, first_idx, q) refl,
        unused-waiting (on_the_way e.upward e.floor) (on_the_way (not e.upward) e.floor) e.requests
            (on_the_way_total e.upward e.floor) a b,
      )
    ]
  ]

  -- What a batch takes from the table, for either elevator.
  collect-exact :
      (joins : Request X → Request X → Bool) (limit : ℕ) (e : Elevator X)
      → 1 ≤ limit
      → let (batch, e') = collect joins limit e in
        Perm (waiting e.requests) (batch ++ waiting e'.requests)
        × (length batch ≤ limit)
        × (length e'.requests ≡ length e.requests)
        × (((waiting e.requests ≡ []) × (batch ≡ []))
            ⊎ ((first : Request X) × (more : List (Request X)) × (batch ≡ first ∷ more)
                × (first.used ≡ true)
                × All (λ r. (r.used ≡ true) × (joins first r ≡ true)) more
                × (e'.upward ≡ goes_up first)))
  unfolding collect collect_from
  collect-exact joins limit e h = elim (first_idx-scan e) [
    | inl (p, n) ↦ rw (collect, p) (Perm.refl _, omega arith, refl, inl (n, refl))
    | inr (i, r, p, g, u, _) ↦
        let rs = set e.requests i (release r) in
        let (batch, rest) = gather (joins r) limit 1 rs in
        let (a, l) = gather-joins (joins r) limit 1 rs in
        rw (collect, p, g)
          (
            Perm.trans (waiting-release e.requests i r g u)
                (Perm.cons r (gather-perm (joins r) limit 1 rs)),
            omega (arith, gather-fits (joins r) limit 1 rs h),
            omega (arith, l, length-set e.requests i (release r)),
            inr (r, batch, refl, u, a, refl),
          )
  ]

-- An elevator's table of waiting requests takes a new one at a free place and loses none; it refuses
-- one only when every place is used.
pub enqueue_delivery-perm :
    (new : DeliveryRequest) (rs : List DeliveryRequest)
    → ((enqueue_delivery new rs ≡ none) × All (λ r. r.used ≡ true) rs)
      ⊎ ((rs' : List DeliveryRequest) × (enqueue_delivery new rs ≡ some rs')
          × Perm (waiting rs') (record new { used = true } ∷ waiting rs)
          × (length rs' ≡ length rs))
unfolding enqueue_delivery
enqueue_delivery-perm new rs = enqueue-perm (record new { used = true }) rs refl

-- A request that joins a batch at the floor of its first request and goes the same way.
same_way-exact :
    (first r : DeliveryRequest)
    → same_way first r ≡ true
    → (r.from_floor ≡ first.from_floor) × (goes_up r ≡ goes_up first)
unfolding same_way goes_up
same_way-exact first r h = ground arith

All-map : {A : Type 0} {P Q : A → Type 0} (f : (a : A) → P a → Q a) (l : List A) → All P l → All Q l
All-map f [] h = tt
All-map f (a ∷ l) (h, hs) = (f a h, All-map f l hs)

-- The requests of one journey: all used, from one floor, in one direction.
abbrev pub Journey : ℕ → Bool → List DeliveryRequest → Type 0
Journey floor upward = All (λ r. (r.used ≡ true) × (r.from_floor ≡ floor) × (goes_up r ≡ upward))

Journey-of_same_way :
    (first : DeliveryRequest) (more : List DeliveryRequest)
    → first.used ≡ true
    → All (λ r. (r.used ≡ true) × (same_way first r ≡ true)) more
    → Journey first.from_floor (goes_up first) (first ∷ more)
Journey-of_same_way first more u a = (
  (u, refl, refl),
  All-map (λ r (v, w). let (f, d) = same_way-exact first r w in (v, f, d)) more a,
)

-- With a capacity of at least one, a batch holds at most `limit` requests, takes them out of the table
-- and leaves the others waiting; it is empty only when none waits; its requests start at one floor
-- and go in the direction that the elevator then has, and they are sorted by target that way.
pub collect_delivery_batch-exact :
    (limit : ℕ) (e : Elevator Char)
    → 1 ≤ limit
    → let (batch, e') = collect_delivery_batch limit e in
      Perm (waiting e.requests) (batch ++ waiting e'.requests)
      × (length batch ≤ limit)
      × (batch ≡ [] → waiting e.requests ≡ [])
      × IsSorted e'.upward batch
      × ((floor : ℕ) × Journey floor e'.upward batch)
unfolding collect_delivery_batch
collect_delivery_batch-exact limit e h =
    let (batch, e') = collect same_way limit e in
    let (p, n, _, c) = collect-exact same_way limit e h in
    let (s, q, m) = exchange_sort-exact e'.upward (length batch) batch (omega arith) in
    let going = elim c as (λ _. (floor : ℕ) × Journey floor e'.upward batch) [
      | inl (z, b) ↦ (0, subst (Journey 0 e'.upward) (sym b) tt)
      | inr (first, more, b, u, a, d) ↦ (
        first.from_floor,
        subst (Journey first.from_floor e'.upward) (sym b) (
            subst (λ up. Journey first.from_floor up (first ∷ more)) (sym d)
              (Journey-of_same_way first more u a)),
      )
    ] in
    (
      Perm.trans p (Perm.append_right (waiting e'.requests) (Perm.symm q)),
      omega arith,
      λ z. elim c [ inl (w, _) ↦ w | inr (first, more, b, u, a, d) ↦ absurd (ground arith) ],
      s,
      (going.0, exchange_sort-All _ e'.upward (length batch) batch going.1),
    )

batch_cap-pos : (capacity : ℕ) → 1 ≤ capacity → 1 ≤ batch_cap capacity
unfolding batch_cap
batch_cap-pos capacity h = ground arith

ride-requests :
    (e : Elevator Char) (batch : List DeliveryRequest) → (ride e batch).requests ≡ e.requests
unfolding ride
ride-requests e [] = refl
ride-requests e (r ∷ rs) = refl

pub delivery_round-length :
    (capacity : ℕ) (e : Elevator Char)
    → 1 ≤ capacity
    → length (delivery_round capacity e).1.requests ≡ length e.requests
unfolding delivery_round collect_delivery_batch
delivery_round-length capacity e h =
    let (batch, e') = collect_delivery_batch (batch_cap capacity) e in
    rw (ride-requests e' batch)
      (collect-exact same_way (batch_cap capacity) e (batch_cap-pos capacity h)).2

pub reposition_round-length :
    (capacity : ℕ) (e : Elevator (Unit {0}))
    → 1 ≤ capacity
    → length (reposition_round capacity e).1.requests ≡ length e.requests
unfolding reposition_round collect_reposition_batch
reposition_round-length capacity e h =
    (collect-exact same_floor (batch_cap capacity) e (batch_cap-pos capacity h)).2

-- What a round of either elevator takes, the capacity being at least one.
pub delivery_round-perm :
    (capacity : ℕ) (e : Elevator Char)
    → 1 ≤ capacity
    → let (batch, e') = delivery_round capacity e in
      Perm (waiting e.requests) (batch ++ waiting e'.requests)
unfolding delivery_round
delivery_round-perm capacity e h =
    let (batch, e') = collect_delivery_batch (batch_cap capacity) e in
    rw (ride-requests e' batch)
      (collect_delivery_batch-exact (batch_cap capacity) e (batch_cap-pos capacity h)).0

pub reposition_round-perm :
    (capacity : ℕ) (e : Elevator (Unit {0}))
    → 1 ≤ capacity
    → let (batch, e') = reposition_round capacity e in
      Perm (waiting e.requests) (batch ++ waiting e'.requests)
unfolding reposition_round collect_reposition_batch
reposition_round-perm capacity e h =
    (collect-exact same_floor (batch_cap capacity) e (batch_cap-pos capacity h)).0

pub enqueue_reposition-perm :
    (new : RepositionRequest) (rs : List RepositionRequest)
    → ((enqueue_reposition new rs ≡ none) × All (λ r. r.used ≡ true) rs)
      ⊎ ((rs' : List RepositionRequest) × (enqueue_reposition new rs ≡ some rs')
          × Perm (waiting rs') (record new { used = true } ∷ waiting rs)
          × (length rs' ≡ length rs))
unfolding enqueue_reposition
enqueue_reposition-perm new rs = enqueue-perm (record new { used = true }) rs refl
