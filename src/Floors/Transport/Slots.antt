-- ===== src/Floors/Transport/Slots.antt =====
-- Where the letter carriers of HW3 stand, slot by slot.

use system_programming_homew.Prelude.{
  ℕ, zero, suc, ◌<◌, ◌≡◌, ◌≢◌, ◌==◌, if◌then◌else◌, Option, none, some, List, [], ◌∷◌, ◌++◌, set,
  get_elem?, length, refl, arith,
}
use system_programming_homew.Floors.Carriers.{Pc, Carrier}

-- Where the carrier in a slot stands.
abbrev pub pc_of : List Carrier → ℕ → Option Pc
pc_of [] k = none
pc_of (c ∷ cs) zero = some c.pc
pc_of (c ∷ cs) (suc k) = pc_of cs k

pub pc_of-at :
    (cs : List Carrier) (k : ℕ) (c : Carrier) → get_elem? cs k ≡ some c → pc_of cs k ≡ some c.pc
pc_of-at [] k c e = cc
pc_of-at (d ∷ cs) zero c e = ground arith
pc_of-at (d ∷ cs) (suc k) c e = pc_of-at cs k c e

pub pc_of-set :
    (cs : List Carrier) (k : ℕ) (c d : Carrier) (j : ℕ)
    → get_elem? cs k ≡ some c
    → pc_of (set cs k d) j ≡ (if k == j then some d.pc else pc_of cs j)
pc_of-set [] k c d j e = cc
pc_of-set (b ∷ cs) zero c d zero e = refl
pc_of-set (b ∷ cs) zero c d (suc j) e = ground arith
pc_of-set (b ∷ cs) (suc k) c d zero e = ground arith
pc_of-set (b ∷ cs) (suc k) c d (suc j) e = ground (arith, pc_of-set cs k c d j e)

pub pc_of-append :
    (cs : List Carrier) (d : Carrier) (j : ℕ)
    → pc_of (cs ++ d ∷ []) j ≡ (if length cs == j then some d.pc else pc_of cs j)
pc_of-append [] d zero = refl
pc_of-append [] d (suc j) = ground arith
pc_of-append (b ∷ cs) d zero = ground arith
pc_of-append (b ∷ cs) d (suc j) = ground (arith, pc_of-append cs d j)

pub pc_of-beyond : (cs : List Carrier) → pc_of cs (length cs) ≡ none
pc_of-beyond [] = refl
pc_of-beyond (c ∷ cs) = pc_of-beyond cs

pub pc_of-lt : (cs : List Carrier) (k : ℕ) → pc_of cs k ≢ none → k < length cs
pc_of-lt [] k h = absurd (h refl)
pc_of-lt (c ∷ cs) zero h = omega arith
pc_of-lt (c ∷ cs) (suc k) h = omega (arith, pc_of-lt cs k h)
