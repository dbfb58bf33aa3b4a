-- ===== src/Floors/Transport/Staffing.antt =====
-- HW3's parent starts the letter carriers, and starts more on every floor that they have left.
use mathlib.Core.Path.{subst}
use system_programming_homew.Prelude.{
  ℕ, zero, suc, ◌+◌, ◌<◌, ◌≤◌, ◌≡◌, true, false, some, refl, sym, ap, ◌∙◌, ◌∙◌, arith, Option-cases,
  inl, inr, ◌↔◌, ℕ_discrete,
}
use system_programming_homew.Floors.Carriers.{
  waits, Building, reserve_carrier_slot, needs_carriers, spawn, start_carriers, add_carrier,
}
use system_programming_homew.Floors.Transport.Calls.{reserve_carrier_slot-exact}
use system_programming_homew.Floors.Transport.Steps.{Reach, started, later}
use system_programming_homew.Floors.Transport.Respawn.{NoneForgotten, Step-NoneForgotten}
use system_programming_homew.Floors.Transport.Safety.{Blank}

-- What starting carriers does to the floors.
record Grows (s t : Building) : Type 0 where
  size : t.num_floors ≡ s.num_floors
  more : (g : ℕ) → s.carrier_count g ≤ t.carrier_count g
  clear : (g : ℕ) → s.respawn_pending g ≡ false → t.respawn_pending g ≡ false

Grows-refl : (s : Building) → Grows s s
Grows-refl s = record { size = refl; more = λ g. omega arith; clear = λ g h. h }

Grows-trans : {s t u : Building} → Grows s t → Grows t u → Grows s u
Grows-trans p q = record {
  size = q.size ∙ p.size;
  more = λ g. omega (arith, p.more g, q.more g);
  clear = λ g h. q.clear g (p.clear g h);
}

add_carrier-Grows :
    (s : Building) (f : ℕ) → Grows s (add_carrier s f) × (1 ≤ (add_carrier s f).carrier_count f)
unfolding add_carrier
add_carrier-Grows s f =
    (record { size = refl; more = λ g. ground arith; clear = λ g h. ground arith }, ground arith)

spawn-Grows :
    (n : ℕ) (s : Building) (f : ℕ) (t : Building)
    → spawn n s f ≡ some t
    → Grows s t × (1 ≤ n → 1 ≤ t.carrier_count f)
unfolding spawn
spawn-Grows zero s f t e =
    (let same : s ≡ t = cc in subst (Grows s) same (Grows-refl s), λ h. absurd (omega arith))
spawn-Grows (suc n) s f t e = elim (Option-cases (reserve_carrier_slot s f)) [
  | inl q ↦ absurd (ground arith)
  | inr ((u, slot), q) ↦
      let (room, p, at) = reserve_carrier_slot-exact s f q in
      let (g, one) = add_carrier-Grows s f in
      let (g', _) = spawn-Grows n u f t (ground arith) in
      let first : Grows s u = subst (Grows s) (sym p) g in
      let here : 1 ≤ u.carrier_count f = subst (λ x. 1 ≤ x.carrier_count f) (sym p) one in
      (Grows-trans first g', λ h. omega (arith, g'.more f))
]

start_carriers-Grows :
    (n per_floor : ℕ) (s : Building) (f : ℕ) (t : Building)
    → 1 ≤ per_floor
    → start_carriers n per_floor s f ≡ some t
    → Grows s t × ((g : ℕ) → f ≤ g → g < f + n → 1 ≤ t.carrier_count g)
unfolding start_carriers
start_carriers-Grows zero per_floor s f t h e =
    (let same : s ≡ t = cc in subst (Grows s) same (Grows-refl s), λ g lo hi. absurd (omega arith))
start_carriers-Grows (suc n) per_floor s f t h e = elim (Option-cases (spawn per_floor s f)) [
  | inl q ↦ absurd (ground arith)
  | inr (u, q) ↦
      let (g, one) = spawn-Grows per_floor s f u q in
      let (g', rest) = start_carriers-Grows n per_floor u (suc f) t h (ground arith) in
      (
        Grows-trans g g',
        λ x lo hi. elim (ℕ_discrete f x) [
          | yes same ↦ omega (arith, g'.more f, one h, ap t.carrier_count same)
          | no other ↦ rest x (omega arith) (omega arith)
        ],
      )
]

start_carriers-NoneForgotten :
    {s t : Building} (per_floor : ℕ)
    → Blank s
    → 1 ≤ per_floor
    → start_carriers s.num_floors per_floor s 0 ≡ some t
    → NoneForgotten t
start_carriers-NoneForgotten {s} {t} per_floor b h e =
    let (g, staffed) = start_carriers-Grows s.num_floors per_floor s 0 t h e in
    record {
      marked = λ f lt z. absurd (omega (arith, g.size, staffed f (omega arith)));
      unmarked = λ f p. absurd (ground (arith, g.clear f (b.no_pending f)));
    }

Reach-NoneForgotten : {s t : Building} → NoneForgotten s → Reach s t → NoneForgotten t
Reach-NoneForgotten v started = v
Reach-NoneForgotten v (later r st) = Step-NoneForgotten (Reach-NoneForgotten v r) st

-- With at least one carrier for each floor at the start, in every state reached from there in which
-- neither elevator is in the middle of a move the floors that need carriers are exactly the empty ones.
pub no_floor_forgotten :
    {s u t : Building} (per_floor : ℕ)
    → Blank s
    → 1 ≤ per_floor
    → start_carriers s.num_floors per_floor s 0 ≡ some u
    → Reach u t
    → t.delivery.stage ≡ waits
    → t.reposition.stage ≡ waits
    → (f : ℕ) → f < t.num_floors
    → (needs_carriers t f ≡ true) ↔ (t.carrier_count f ≡ 0)
unfolding needs_carriers
no_floor_forgotten {t = t} per_floor b h e r d p f lt =
    let v = Reach-NoneForgotten (start_carriers-NoneForgotten per_floor b h e) r in
    (λ q. ground arith, λ z. ground (arith, v.marked f lt z))
