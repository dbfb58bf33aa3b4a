-- ===== src/Floors/Transport/Tests.antt =====
-- HW3's transport with one word of one character on two floors.
use system_programming_homew.Prelude.{
  ℕ, zero, suc, ◌+◌, ◌≡◌, ◌↔◌, refl, true, false, arith, codes, [], ◌∷◌, some, none, get_elem?,
  sum_of, ◌≢◌, replicate, length-replicate, if◌then◌else◌,
}
use system_programming_homew.Floors.Word.{SharedWord, new_word, claim_char, deliver_char}
use system_programming_homew.Floors.Word.Custody.{InOrder, with_claimed}
use system_programming_homew.Floors.Carriers
use system_programming_homew.Floors.Admission.{
  Pc, SharedState, WordCarrier, scanning, claiming, decided, Start, claim_word, reserve_floors,
  admit_or_release, with_word,
}
use system_programming_homew.Floors.Requests.{Request, Char, enqueue_delivery, max_requests}
use system_programming_homew.Floors.Requests.Batches.{waiting}
use system_programming_homew.Floors.Transport.{
  pick_char, ask_delivery, delivery_request, ask_reposition,
}
use system_programming_homew.Floors.Carriers.{
  Building, Carrier, Shaft, waits, searching, moving, holding, boarding, unloaded, add_carrier,
  new_carrier, needs_carriers, start_carriers, reserve_carrier_slot,
}
use system_programming_homew.Floors.Transport.Steps.{
  Reach, started, later, start_carrier, claim, reserve, admit, pick, board, with_shared,
}
use system_programming_homew.Floors.Transport.Tickets.{asks, asks_move, boards, moves, untouched}
use system_programming_homew.Floors.Transport.Custody.{carries}
use system_programming_homew.Floors.Transport.Headcount.{stands}
use system_programming_homew.Floors.Transport.Safety.{
  Blank, custody_kept, headcount_kept, tickets_kept, delivery_succeeds,
}
use system_programming_homew.Floors.Transport.Overflow.{no_overflow}
use system_programming_homew.Floors.Transport.Staffing.{no_floor_forgotten}

abbrev loaded : SharedWord
loaded = new_word 9 (codes "a") 1

abbrev porter : Pc → ℕ → WordCarrier
porter pc admissions = record { floor = 0; admissions = admissions; retries = 0; pc = pc }

abbrev shared_state : SharedState
shared_state = record {
  words = loaded ∷ [];
  active_words = λ f. 0;
  max_words_per_floor = 1;
  rr_cursor = 0;
  retries = 0;
  completed_words = 0;
  wcarriers = porter scanning 0 ∷ [];
}

abbrev lift_at_rest : {X : Type 0} → Request X → Shaft X
lift_at_rest unused = record {
  elevator = record { requests = unused ∷ unused ∷ []; upward = true; floor = 0 };
  hand = [];
  stage = waits;
}

abbrev nothing_asked : {X : Type 0} → X → Request X
nothing_asked load = record {
  used = false;
  carrier_slot = 0;
  from_floor = 0;
  to_floor = 0;
  load = load;
}

abbrev building : Building
building = record {
  shared = shared_state;
  num_floors = 2;
  carriers = [];
  carrier_count = λ f. 0;
  respawn_pending = λ f. false;
  delivery = lift_at_rest (nothing_asked (record { word_index = 0; char_index = 0; ch = 0 }));
  reposition = lift_at_rest (nothing_asked tt);
}

shared_state-Start : Start shared_state
shared_state-Start = record {
  fresh = λ i w g. ground arith;
  ready = λ i c g. ground arith;
  empty = λ f. refl;
  none_done = refl;
}

only_loaded : (i : ℕ) (w : SharedWord) → get_elem? shared_state.words i ≡ some w → w ≡ loaded
only_loaded zero w g = ground arith
only_loaded (suc i) w g = cc

building-Blank : Blank building
building-Blank = record {
  loaded = λ i w g. (9, codes "a", 1, only_loaded i w g);
  admission = shared_state-Start;
  no_carriers = refl;
  no_count = λ f. refl;
  no_pending = λ f. refl;
  no_delivery = (refl, refl, refl);
  no_reposition = (refl, refl, refl);
}

abbrev claimed_word : SharedWord
claimed_word = record loaded { claimed = true; claim_owner = some 0 }

abbrev admitted_word : SharedWord
admitted_word = record claimed_word {
  admitted = true;
  arrival_floor = 0;
  active_reservation = true;
}

abbrev carried_word : SharedWord
carried_word = with_claimed admitted_word 0

abbrev carrier_with : Carriers.Pc → Carrier
carrier_with pc = record (new_carrier 0) { pc = pc }

abbrev staffed : Building
staffed = add_carrier building 0

abbrev after_claim : SharedState
after_claim = claim_word shared_state 0 (porter scanning 0)

abbrev after_reserve : SharedState
after_reserve = reserve_floors after_claim 0 (porter (claiming 0) 0) 0 claimed_word

abbrev admitted : Building
admitted =
    with_shared staffed
      (admit_or_release after_reserve 0 (porter (decided 0 1 true) 0) 0 claimed_word true)

abbrev picked : Building
picked = pick_char admitted 0 (carrier_with searching) 0 admitted_word (λ j. 0)

-- The carrier waits for the delivery elevator, with the character of the word.
abbrev boarded : Building
boarded = record picked {
  delivery = record picked.delivery {
    elevator = record picked.delivery.elevator {
      requests =
          delivery_request 0 (carrier_with (holding 0 0)) 0 carried_word 0
          ∷ nothing_asked (record { word_index = 0; char_index = 0; ch = 0 })
          ∷ [];
    };
  };
  carriers = carrier_with (boarding 0 0) ∷ [];
}

boarded-Reach : Reach building boarded
unfolding claim_word reserve_floors admit_or_release with_word claim_char add_carrier pick_char
    ask_delivery reserve_carrier_slot enqueue_delivery
boarded-Reach =
    later
      (later
        (later
          (later
            (later (later started (start_carrier 0 0 (omega arith) refl))
              (claim 0 (porter scanning 0) refl refl refl))
            (reserve 0 (porter (claiming 0) 0) 0 claimed_word refl refl refl refl))
          (admit 0 (porter (decided 0 1 true) 0) 0 1 claimed_word true refl refl refl refl))
        (pick 0 (carrier_with searching) 0 admitted_word (λ j. 0) refl refl refl refl))
      (board 0 (carrier_with (holding 0 0)) 0 carried_word 0 refl refl refl (ground arith) refl)

custody_kept_example :
    InOrder carried_word
    × ((ci : ℕ)
        → sum_of (carries 0 ci) boarded.carriers
          ≡ (if carried_word.char_in_transit ci then 1 else 0))
unfolding claim_word reserve_floors admit_or_release with_word claim_char add_carrier pick_char
custody_kept_example = custody_kept building-Blank boarded-Reach 0 carried_word refl

headcount_kept_example : boarded.carrier_count 0 ≡ sum_of (stands 0) boarded.carriers
headcount_kept_example = headcount_kept building-Blank boarded-Reach 0

tickets_kept_example :
    ((wi ci : ℕ)
      → sum_of (asks 0 wi ci) (waiting boarded.delivery.elevator.requests)
          + sum_of (asks 0 wi ci) (untouched boarded.delivery.stage boarded.delivery.hand)
        ≡ boards wi ci (some (boarding 0 0)))
    × (sum_of (asks_move 0) (waiting boarded.reposition.elevator.requests)
          + sum_of (asks_move 0) (untouched boarded.reposition.stage boarded.reposition.hand)
        ≡ moves (some (boarding 0 0)))
unfolding add_carrier
tickets_kept_example =
    tickets_kept building-Blank boarded-Reach 0 (carrier_with (boarding 0 0)) refl

delivery_succeeds_example : (deliver_char carried_word 0).1 ≡ true
unfolding claim_word reserve_floors admit_or_release with_word claim_char add_carrier pick_char
delivery_succeeds_example =
    delivery_succeeds building-Blank boarded-Reach 0 (carrier_with (boarding 0 0)) 0 carried_word 0
      refl (ground arith) refl

abbrev both_staffed : Building
both_staffed = add_carrier (add_carrier building 0) 1

both_staffed-starts : start_carriers building.num_floors 1 building 0 ≡ some both_staffed
unfolding start_carriers
both_staffed-starts = refl

no_floor_forgotten_example :
    (needs_carriers both_staffed 1 ≡ true) ↔ (both_staffed.carrier_count 1 ≡ 0)
unfolding add_carrier
no_floor_forgotten_example =
    no_floor_forgotten 1 building-Blank (omega arith) both_staffed-starts started refl refl 1
      (omega arith)

abbrev unused_delivery : Request Char
unused_delivery = nothing_asked (record { word_index = 0; char_index = 0; ch = 0 })

-- The tables as the program has them.
full_size : Building
full_size = record building {
  delivery = record {
    elevator = record {
      requests = replicate max_requests unused_delivery;
      upward = true;
      floor = 0;
    };
    hand = [];
    stage = waits;
  };
  reposition = record {
    elevator = record {
      requests = replicate max_requests (nothing_asked tt);
      upward = true;
      floor = 0;
    };
    hand = [];
    stage = waits;
  };
}

waiting-replicate :
    {X : Type 0} (r : Request X) (n : ℕ) → r.used ≡ false → waiting (replicate n r) ≡ []
waiting-replicate r zero e = refl
waiting-replicate r (suc n) e = ground (arith, waiting-replicate r n e)

full_size-Blank : Blank full_size
unfolding full_size
full_size-Blank = record {
  loaded = λ i w g. (9, codes "a", 1, only_loaded i w g);
  admission = shared_state-Start;
  no_carriers = refl;
  no_count = λ f. refl;
  no_pending = λ f. refl;
  no_delivery = (waiting-replicate unused_delivery max_requests refl, refl, refl);
  no_reposition = (waiting-replicate (nothing_asked tt) max_requests refl, refl, refl);
}

no_overflow_example :
    (ask_delivery full_size 0 (carrier_with (holding 0 0)) 0 loaded 0 ≢ none)
    × (ask_reposition full_size 0 (carrier_with (holding 0 0)) 0 ≢ none)
unfolding full_size
no_overflow_example =
    no_overflow full_size-Blank (length-replicate max_requests unused_delivery)
      (length-replicate max_requests (nothing_asked tt)) started 0 (carrier_with (holding 0 0)) 0
      loaded 0 0
