-- ===== src/Floors/Admission/Invariant.antt =====
-- What every reachable state of HW3's admission of words satisfies.
use system_programming_homew.Prelude.{
  ℕ, ◌+◌, ◌-◌, ◌≤◌, ◌≡◌, Bool, true, false, not, ◌&&◌, ◌||◌, ◌==◌, inl, inr, if◌then◌else◌, some,
  get_elem?, sum_of, sum_of-set, get_elem?-set_cases, arith,
}
use system_programming_homew.Floors.Word.{SharedWord}
use system_programming_homew.Floors.Word.Kept.{SameAdmission}
use system_programming_homew.Floors.Admission.{
  scanning, claiming, decided, WordCarrier, SharedState, add_to_floors, take_from_floors,
  complete_word, with_word,
}

-- The share of the floor `f` in a place for a word on two floors, which may be the same.
abbrev pub touches : ℕ → ℕ → ℕ → ℕ
touches f af sf = if (af == f) || (sf == f) then 1 else 0

-- What an admitted word has booked on the floor `f`, and what a carrier has for the word it admits.
abbrev pub booked_by : ℕ → SharedWord → ℕ
booked_by f w = if w.active_reservation then touches f w.arrival_floor w.sorting_floor else 0

abbrev pub asked_by : ℕ → WordCarrier → ℕ
asked_by f c = elim c.pc [
  | scanning ↦ 0
  | claiming i ↦ 0
  | decided i sf ok ↦ if ok then touches f c.floor sf else 0
]

-- Is the carrier busy with the word at the index `i`?
abbrev pub holds : ℕ → WordCarrier → ℕ
holds i c = elim c.pc [
  | scanning ↦ 0
  | claiming j ↦ if i == j then 1 else 0
  | decided j sf ok ↦ if i == j then 1 else 0
]

abbrev pub is_done : SharedWord → ℕ
is_done w = if w.completed then 1 else 0

-- Is the word claimed and not admitted yet?
abbrev pub is_pending : SharedWord → ℕ
is_pending w = if w.claimed && not w.admitted then 1 else 0

-- A word is admitted before it books places or is completed, and has none once it is completed.
abbrev pub Ordered : SharedWord → Type 0
Ordered w =
    (w.completed ≡ true → w.admitted ≡ true)
    × (w.active_reservation ≡ true → w.admitted ≡ true)
    × (w.completed ≡ true → w.active_reservation ≡ false)

pub record Inv (limit : ℕ) (s : SharedState) : Type 0 where
  pub same_limit : s.max_words_per_floor ≡ limit
  pub room : (f : ℕ) → s.active_words f ≤ limit
  -- every place taken on a floor is booked by one word or one carrier
  pub booked :
      (f : ℕ) → s.active_words f ≡ sum_of (booked_by f) s.words + sum_of (asked_by f) s.wcarriers
  -- a claimed word is in one carrier's hands until it is admitted
  pub held :
      (i : ℕ) (w : SharedWord)
      → get_elem? s.words i ≡ some w
      → sum_of (holds i) s.wcarriers ≡ is_pending w
  pub ordered : (i : ℕ) (w : SharedWord) → get_elem? s.words i ≡ some w → Ordered w
  pub agreed :
      (k i sf : ℕ) (ok : Bool) (c : WordCarrier) (w : SharedWord)
      → get_elem? s.wcarriers k ≡ some c
      → c.pc ≡ decided i sf ok
      → get_elem? s.words i ≡ some w
      → w.sorting_floor ≡ sf
  pub tally : s.completed_words ≡ sum_of is_done s.words

pub add_to_floors-exact :
    (active : ℕ → ℕ) (af sf f : ℕ) → add_to_floors active af sf f ≡ active f + touches f af sf
unfolding add_to_floors
add_to_floors-exact active af sf f = ground arith

pub take_from_floors-exact :
    (active : ℕ → ℕ) (af sf f : ℕ) → take_from_floors active af sf f ≡ active f - touches f af sf
unfolding take_from_floors
take_from_floors-exact active af sf f = ground arith

module _ {limit : ℕ} {s : SharedState} (inv : Inv limit s) (i : ℕ) (w : SharedWord)
    (here : get_elem? s.words i ≡ some w) where
  pub with_word-Inv : (w' : SharedWord) → SameAdmission w w' → Inv limit (with_word s i w')
  unfolding with_word
  with_word-Inv w' same = record {
    same_limit = inv.same_limit;
    room = inv.room;
    booked = λ f. ground (arith, inv.booked f, sum_of-set (booked_by f) s.words i w w' here);
    held = λ j u g. elim (get_elem?-set_cases s.words i j w' u g) [
      | inl (e, v) ↦ ground (arith, inv.held i w here)
      | inr (n, g') ↦ inv.held j u g'
    ];
    ordered = λ j u g. elim (get_elem?-set_cases s.words i j w' u g) [
      | inl (e, v) ↦ ground (arith, inv.ordered i w here)
      | inr (n, g') ↦ inv.ordered j u g'
    ];
    agreed = λ k j sf ok c u gc at g. elim (get_elem?-set_cases s.words i j w' u g) [
      | inl (e, v) ↦ ground (arith, inv.agreed k i sf ok c w gc)
      | inr (n, g') ↦ inv.agreed k j sf ok c u gc at g'
    ];
    tally = ground (arith, inv.tally, sum_of-set is_done s.words i w w' here);
  }

  pub complete_word-Inv : w.admitted ≡ true → w.completed ≡ false → Inv limit (complete_word s i w)
  unfolding complete_word
  complete_word-Inv adm undone =
      let w' : SharedWord = record w { completed = true; active_reservation = false } in
      record {
        same_limit = inv.same_limit;
        room = λ f. ground (
          arith,
          inv.same_limit,
          inv.room f,
          take_from_floors-exact s.active_words w.arrival_floor w.sorting_floor f,
        );
        booked = λ f. ground (
          arith,
          inv.booked f,
          sum_of-set (booked_by f) s.words i w w' here,
          take_from_floors-exact s.active_words w.arrival_floor w.sorting_floor f,
        );
        held = λ j u g. elim (get_elem?-set_cases s.words i j w' u g) [
          | inl (e, v) ↦ ground (arith, inv.held i w here)
          | inr (n, g') ↦ inv.held j u g'
        ];
        ordered = λ j u g. elim (get_elem?-set_cases s.words i j w' u g) [
          | inl (e, v) ↦ ground (arith, inv.ordered i w here)
          | inr (n, g') ↦ inv.ordered j u g'
        ];
        agreed = λ k j sf ok c u gc at g. elim (get_elem?-set_cases s.words i j w' u g) [
          | inl (e, v) ↦ ground (arith, inv.agreed k i sf ok c w gc)
          | inr (n, g') ↦ inv.agreed k j sf ok c u gc at g'
        ];
        tally = ground (arith, inv.tally, sum_of-set is_done s.words i w w' here);
      }
