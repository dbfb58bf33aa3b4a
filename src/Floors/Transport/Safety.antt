-- ===== src/Floors/Transport/Safety.antt =====
-- What HW3's transport keeps in every order of its processes' steps.
use mathlib.Core.Path.{subst}
use system_programming_homew.Prelude.{
  ℕ, ◌+◌, ◌≡◌, true, false, if◌then◌else◌, some, [], get_elem?, Str, refl, sym, ap, ◌∙◌, ◌∙◌, arith,
  sum_of, le-sum_of,
}
use system_programming_homew.Floors.Word.{new_word, SharedWord, deliver_char}
use system_programming_homew.Floors.Carriers.{Carrier, waits, Building}
use system_programming_homew.Floors.Requests.Batches.{waiting}
use system_programming_homew.Floors.Transport.Steps.{Reach, started, later}
use system_programming_homew.Floors.Admission.{Start as AdmissionStart}
use system_programming_homew.Floors.Transport.Tickets.{
  Tickets, asks, asks_move, moves, boards, untouched,
}
use system_programming_homew.Floors.Transport.Slots.{pc_of-at}
use system_programming_homew.Floors.Transport.Journeys.{Step-Tickets}
use system_programming_homew.Floors.Transport.Custody.{Custody, Step-Custody, carries, has, in_hand}
use system_programming_homew.Floors.Word.Space.{deliver_char-succeeds}
use system_programming_homew.Floors.Transport.Headcount.{Headcount, Step-Headcount, stands}
use system_programming_homew.Floors.Word.Custody.{InOrder, new_word-InOrder}

-- What `init_shared_state` and `load_input` leave behind.
pub record Blank (s : Building) : Type 0 where
  pub loaded :
      (i : ℕ) (w : SharedWord)
      → get_elem? s.shared.words i ≡ some w
      → (id : ℕ) × (word : Str) × (floor : ℕ) × (w ≡ new_word id word floor)
  pub admission : AdmissionStart s.shared
  pub no_carriers : s.carriers ≡ []
  pub no_count : (f : ℕ) → s.carrier_count f ≡ 0
  pub no_pending : (f : ℕ) → s.respawn_pending f ≡ false
  pub no_delivery :
      (waiting s.delivery.elevator.requests ≡ [])
      × (s.delivery.hand ≡ [])
      × (s.delivery.stage ≡ waits)
  pub no_reposition :
      (waiting s.reposition.elevator.requests ≡ [])
      × (s.reposition.hand ≡ [])
      × (s.reposition.stage ≡ waits)

record Inv (s : Building) : Type 0 where
  tickets : Tickets s
  custody : Custody s
  headcount : Headcount s

Blank-Inv : {s : Building} → Blank s → Inv s
Blank-Inv {s} b = record {
  tickets = record {
    delivery_asked = λ k x y. let (q, h, w) = b.no_delivery in rw (q, h, w, b.no_carriers) refl;
    reposition_asked = λ k. let (q, h, w) = b.no_reposition in rw (q, h, w, b.no_carriers) refl;
    delivery_head = λ r rest p g e. let (q, h, w) = b.no_delivery in absurd (ground (arith));
    reposition_head = λ r rest p g e. let (q, h, w) = b.no_reposition in absurd (ground (arith));
  };
  custody = record {
    words = λ wi w g.
        let (id, t, f, e) = b.loaded wi w g in subst InOrder (sym e) (new_word-InOrder id t f);
    hands = λ wi w ci g.
        let (id, t, f, e) = b.loaded wi w g in
        ap (sum_of (carries wi ci)) b.no_carriers ∙ sym (ap (λ x. in_hand x ci) e);
  };
  headcount = record { counted = λ f. b.no_count f ∙ sym (ap (sum_of (stands f)) b.no_carriers) };
}

Reach-Inv : {s t : Building} → Inv s → Reach s t → Inv t
Reach-Inv v started = v
Reach-Inv v (later r st) =
    let u = Reach-Inv v r in
    record {
      tickets = Step-Tickets u.tickets st;
      custody = Step-Custody u.tickets u.custody st;
      headcount = Step-Headcount u.tickets u.headcount st;
    }

pub Reach-Tickets : {s t : Building} → Blank s → Reach s t → Tickets t
Reach-Tickets b r = (Reach-Inv (Blank-Inv b) r).tickets

-- In every reachable state every word is in order: its sorting area is sound, and each of its
-- characters is unclaimed, or claimed and in transit, or claimed and delivered. A character in
-- transit is in the hands of exactly one carrier, and no other character is in anyone's.
pub custody_kept :
    {s t : Building}
    → Blank s
    → Reach s t
    → (wi : ℕ) (w : SharedWord) → get_elem? t.shared.words wi ≡ some w
    → InOrder w
      × ((ci : ℕ) → sum_of (carries wi ci) t.carriers ≡ (if w.char_in_transit ci then 1 else 0))
custody_kept b r wi w g =
    let v = Reach-Inv (Blank-Inv b) r in (v.custody.words wi w g, λ ci. v.custody.hands wi w ci g)

-- In every reachable state each floor's count is the number of the carriers that stand on it.
pub headcount_kept :
    {s t : Building}
    → Blank s
    → Reach s t
    → (f : ℕ) → t.carrier_count f ≡ sum_of (stands f) t.carriers
headcount_kept b r = (Reach-Inv (Blank-Inv b) r).headcount.counted

-- In every reachable state a carrier has as many delivery requests that no elevator has served as it
-- waits for: one if it waits for the delivery elevator, and none otherwise; and so for the other.
pub tickets_kept :
    {s t : Building}
    → Blank s
    → Reach s t
    → (k : ℕ) (c : Carrier) → get_elem? t.carriers k ≡ some c
    → ((wi ci : ℕ)
        → sum_of (asks k wi ci) (waiting t.delivery.elevator.requests)
            + sum_of (asks k wi ci) (untouched t.delivery.stage t.delivery.hand)
          ≡ boards wi ci (some c.pc))
      × (sum_of (asks_move k) (waiting t.reposition.elevator.requests)
            + sum_of (asks_move k) (untouched t.reposition.stage t.reposition.hand)
          ≡ moves (some c.pc))
tickets_kept b r k c g =
    let v = (Reach-Inv (Blank-Inv b) r).tickets in
    (
      λ wi ci. v.delivery_asked k wi ci ∙ ap (boards wi ci) (pc_of-at _ k c g),
      v.reposition_asked k ∙ ap moves (pc_of-at _ k c g),
    )

-- In every reachable state the delivery of a character that a carrier has finds a free slot: the
-- branch that gives a character back is never taken.
pub delivery_succeeds :
    {s t : Building}
    → Blank s
    → Reach s t
    → (k : ℕ) (c : Carrier) (wi : ℕ) (w : SharedWord) (ci : ℕ) → get_elem? t.carriers k ≡ some c
    → has wi ci c.pc ≡ 1
    → get_elem? t.shared.words wi ≡ some w
    → (deliver_char w ci).1 ≡ true
delivery_succeeds {t = t} b r k c wi w ci here mine g =
    let v = (Reach-Inv (Blank-Inv b) r).custody in
    let o = v.words wi w g in
    let carried : w.char_in_transit ci ≡ true =
      ground (arith, v.hands wi w ci g, le-sum_of (carries wi ci) t.carriers k c here) in
    deliver_char-succeeds w o.sound ci (o.inside ci carried) (o.taken ci carried).1
