-- ===== src/Floors/Transport/Steps.antt =====
-- The steps of HW3's processes, in any order.
use system_programming_homew.Prelude.{
  ℕ, ◌<◌, ◌≤◌, ◌≡◌, ◌≢◌, Bool, true, false, some, List, [], ◌∷◌, get_elem?,
}
use system_programming_homew.Floors.Word.{SharedWord}
use system_programming_homew.Floors.Requests.{DeliveryRequest, RepositionRequest}
use system_programming_homew.Floors.Admission.{
  WordCarrier, SharedState, scanning, claiming, decided, claim_word, reserve_floors,
  admit_or_release, sort_word,
}
use system_programming_homew.Floors.Transport.{
  pick_char, place_directly, ask_delivery, ask_reposition, load_delivery, load_reposition, unload,
  delivery_leaves, reposition_leaves, delivery_enters, reposition_enters, delivery_ends,
  reposition_ends,
}
use system_programming_homew.Floors.Carriers.{
  searching, holding, left, Carrier, waits, delivered, departed, arrived, Building, with_pc,
  reserve_carrier_slot,
}

abbrev pub with_shared : Building → SharedState → Building
with_shared s shared = record s { shared = shared }

-- What the processes do, in any order: the word carriers and sorters as in `Admission`, the letter
-- carriers, the two elevators, and the parent, which may start a carrier on a floor at any time.
pub data Step (s : Building) (t : Building) : Type 0 where
  claim :
      (slot : ℕ) (c : WordCarrier)
      → get_elem? s.shared.wcarriers slot ≡ some c
      → c.pc ≡ scanning
      → t ≡ with_shared s (claim_word s.shared slot c)
      → Step s t
  reserve :
      (slot : ℕ) (c : WordCarrier) (idx : ℕ) (w : SharedWord)
      → get_elem? s.shared.wcarriers slot ≡ some c
      → c.pc ≡ claiming idx
      → get_elem? s.shared.words idx ≡ some w
      → t ≡ with_shared s (reserve_floors s.shared slot c idx w)
      → Step s t
  admit :
      (slot : ℕ) (c : WordCarrier) (idx sf : ℕ) (w : SharedWord) (ok : Bool)
      → get_elem? s.shared.wcarriers slot ≡ some c
      → c.pc ≡ decided idx sf ok
      → get_elem? s.shared.words idx ≡ some w
      → t ≡ with_shared s (admit_or_release s.shared slot c idx w ok)
      → Step s t
  sort :
      (wi : ℕ) (w : SharedWord)
      → get_elem? s.shared.words wi ≡ some w
      → w.admitted ≡ true
      → w.completed ≡ false
      → t ≡ with_shared s (sort_word s.shared wi w)
      → Step s t
  pick :
      (k : ℕ) (c : Carrier) (wi : ℕ) (w : SharedWord) (draw : ℕ → ℕ)
      → get_elem? s.carriers k ≡ some c
      → c.pc ≡ searching
      → get_elem? s.shared.words wi ≡ some w
      → t ≡ pick_char s k c wi w draw
      → Step s t
  place :
      (k : ℕ) (c : Carrier) (wi : ℕ) (w : SharedWord) (ci : ℕ)
      → get_elem? s.carriers k ≡ some c
      → c.pc ≡ holding wi ci
      → get_elem? s.shared.words wi ≡ some w
      → w.sorting_floor ≡ c.current_floor
      → t ≡ place_directly s k c wi w ci
      → Step s t
  board :
      (k : ℕ) (c : Carrier) (wi : ℕ) (w : SharedWord) (ci : ℕ)
      → get_elem? s.carriers k ≡ some c
      → c.pc ≡ holding wi ci
      → get_elem? s.shared.words wi ≡ some w
      → w.sorting_floor ≢ c.current_floor
      → ask_delivery s k c wi w ci ≡ some t
      → Step s t
  wander :
      (k : ℕ) (c : Carrier) (draw : ℕ)
      → get_elem? s.carriers k ≡ some c
      → c.pc ≡ searching
      → ask_reposition s k c draw ≡ some t
      → Step s t
  leave :
      (k : ℕ) (c : Carrier)
      → get_elem? s.carriers k ≡ some c
      → c.pc ≡ searching
      → t ≡ with_pc s k c left
      → Step s t
  take_deliveries :
      (capacity : ℕ)
      → 1 ≤ capacity
      → s.delivery.hand ≡ []
      → s.delivery.stage ≡ waits
      → t ≡ load_delivery capacity s
      → Step s t
  take_repositions :
      (capacity : ℕ)
      → 1 ≤ capacity
      → s.reposition.hand ≡ []
      → s.reposition.stage ≡ waits
      → t ≡ load_reposition capacity s
      → Step s t
  deliver :
      (r : DeliveryRequest) (rest : List DeliveryRequest) (w : SharedWord) (c : Carrier)
      → s.delivery.hand ≡ r ∷ rest
      → s.delivery.stage ≡ waits
      → get_elem? s.shared.words r.load.word_index ≡ some w
      → get_elem? s.carriers r.carrier_slot ≡ some c
      → t ≡ unload s r w c
      → Step s t
  leave_with_delivery :
      (r : DeliveryRequest) (rest : List DeliveryRequest) (c : Carrier)
      → s.delivery.hand ≡ r ∷ rest
      → s.delivery.stage ≡ delivered
      → get_elem? s.carriers r.carrier_slot ≡ some c
      → t ≡ delivery_leaves s r c
      → Step s t
  enter_with_delivery :
      (r : DeliveryRequest) (rest : List DeliveryRequest) (c : Carrier) (old : ℕ) (empty : Bool)
      → s.delivery.hand ≡ r ∷ rest
      → s.delivery.stage ≡ departed old empty
      → get_elem? s.carriers r.carrier_slot ≡ some c
      → t ≡ delivery_enters s r c old empty
      → Step s t
  end_delivery :
      (r : DeliveryRequest) (rest : List DeliveryRequest) (c : Carrier) (old : ℕ) (empty : Bool)
      → s.delivery.hand ≡ r ∷ rest
      → s.delivery.stage ≡ arrived old empty
      → get_elem? s.carriers r.carrier_slot ≡ some c
      → t ≡ delivery_ends s r rest c old empty
      → Step s t
  leave_for_reposition :
      (r : RepositionRequest) (rest : List RepositionRequest) (c : Carrier)
      → s.reposition.hand ≡ r ∷ rest
      → s.reposition.stage ≡ waits
      → get_elem? s.carriers r.carrier_slot ≡ some c
      → t ≡ reposition_leaves s r c
      → Step s t
  enter_for_reposition :
      (r : RepositionRequest) (rest : List RepositionRequest) (c : Carrier) (old : ℕ) (empty : Bool)
      → s.reposition.hand ≡ r ∷ rest
      → s.reposition.stage ≡ departed old empty
      → get_elem? s.carriers r.carrier_slot ≡ some c
      → t ≡ reposition_enters s r c old empty
      → Step s t
  end_reposition :
      (r : RepositionRequest) (rest : List RepositionRequest) (c : Carrier) (old : ℕ) (empty : Bool)
      → s.reposition.hand ≡ r ∷ rest
      → s.reposition.stage ≡ arrived old empty
      → get_elem? s.carriers r.carrier_slot ≡ some c
      → t ≡ reposition_ends s r rest c old empty
      → Step s t
  start_carrier :
      (f slot : ℕ) → f < s.num_floors → reserve_carrier_slot s f ≡ some (t, slot) → Step s t

pub data Reach (s : Building) : Building → Type 0 where
  started : Reach s s
  later : {t u : Building} → Reach s t → Step t u → Reach s u
