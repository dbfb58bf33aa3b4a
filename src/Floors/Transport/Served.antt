-- ===== src/Floors/Transport/Served.antt =====
-- The requests of HW3's letter carriers as the elevators serve them.
use mathlib.Core.Path.{subst}
use mathlib.Core.List.{Perm}
use system_programming_homew.Prelude.{
  ℕ, ◌≤◌, ◌≡◌, true, some, List, ◌∷◌, set, get_elem?, refl, arith, Option-cases, inl, inr,
}
use system_programming_homew.Floors.Word.{SharedWord, claim_char}
use system_programming_homew.Floors.Requests.{
  Request, Char, DeliveryRequest, RepositionRequest, enqueue_delivery, enqueue_reposition,
}
use system_programming_homew.Floors.Transport.{pick_char, unload}
use system_programming_homew.Floors.Carriers.{
  for_delivery, for_reposition, Pc, searching, holding, boarding, unloaded, moving, between, landed,
  left, Carrier, Stage, waits, Building, add_carrier,
}
use system_programming_homew.Floors.Transport.Slots.{pc_of-at, pc_of-set}
use system_programming_homew.Floors.Requests.Batches.{waiting}
use system_programming_homew.Floors.Requests.Service.{
  enqueue_delivery-perm, enqueue_reposition-perm,
}
use system_programming_homew.Floors.Transport.Tickets.{
  moves, expects, Tickets, boards_pos, expects-waiter, expects_begun, expects_apart,
  SameDesk-Tickets,
}
use system_programming_homew.Floors.Transport.Asking.{walk-Tickets, start-Tickets}

pub enqueued_delivery :
    (new : DeliveryRequest) (rs rs' : List DeliveryRequest)
    → enqueue_delivery new rs ≡ some rs'
    → Perm (waiting rs') (record new { used = true } ∷ waiting rs)
enqueued_delivery new rs rs' e = elim (enqueue_delivery-perm new rs) [
  | inl (p, a) ↦ absurd (ground arith)
  | inr (us, p, m, n) ↦
      let same : us ≡ rs' = ground arith in
      subst (λ l. Perm (waiting l) (record new { used = true } ∷ waiting rs)) same m
]

pub enqueued_reposition :
    (new : RepositionRequest) (rs rs' : List RepositionRequest)
    → enqueue_reposition new rs ≡ some rs'
    → Perm (waiting rs') (record new { used = true } ∷ waiting rs)
enqueued_reposition new rs rs' e = elim (enqueue_reposition-perm new rs) [
  | inl (p, a) ↦ absurd (ground arith)
  | inr (us, p, m, n) ↦
      let same : us ≡ rs' = ground arith in
      subst (λ l. Perm (waiting l) (record new { used = true } ∷ waiting rs)) same m
]

pub moves_pos : (p : Pc) → 1 ≤ moves (some p) → p ≡ moving
moves_pos searching h = absurd (omega arith)
moves_pos (holding a b) h = absurd (omega arith)
moves_pos (boarding a b) h = absurd (omega arith)
moves_pos unloaded h = absurd (omega arith)
moves_pos moving h = refl
moves_pos (between l) h = absurd (omega arith)
moves_pos (landed l) h = absurd (omega arith)
moves_pos left h = absurd (omega arith)

module _ {s : Building} (v : Tickets s) where
  -- The request at hand is the carrier's own.
  pub deliver_boards :
      (r : DeliveryRequest) (rest : List DeliveryRequest) (c : Carrier)
      → s.delivery.hand ≡ r ∷ rest
      → s.delivery.stage ≡ waits
      → get_elem? s.carriers r.carrier_slot ≡ some c
      → c.pc ≡ boarding r.load.word_index r.load.char_index
  deliver_boards r rest c h at here = boards_pos c.pc r.load.word_index r.load.char_index (
      ground (
        arith,
        v.delivery_asked r.carrier_slot r.load.word_index r.load.char_index,
        pc_of-at s.carriers r.carrier_slot c here,
      ))

  pub unload-Tickets :
      (r : DeliveryRequest) (rest : List DeliveryRequest) (w : SharedWord) (c : Carrier)
      → s.delivery.hand ≡ r ∷ rest
      → s.delivery.stage ≡ waits
      → get_elem? s.carriers r.carrier_slot ≡ some c
      → Tickets (unload s r w c)
  unfolding unload
  unload-Tickets r rest w c h at here =
      let k = r.carrier_slot in
      let d = record c { pc = unloaded } in
      let mine = deliver_boards r rest c h at here in
      record {
        delivery_asked = λ j a b. ground (
          arith,
          v.delivery_asked j a b,
          pc_of-set s.carriers k c d j here,
          pc_of-at s.carriers k c here,
        );
        reposition_asked = λ j. ground (
          arith,
          v.reposition_asked j,
          pc_of-set s.carriers k c d j here,
          pc_of-at s.carriers k c here,
        );
        delivery_head = λ r' rest' q g x. ground (arith, pc_of-set s.carriers k c d k here);
        reposition_head = λ r' rest' q g x. ground (
          arith,
          v.reposition_head r' rest' q g x,
          pc_of-set s.carriers k c d r'.carrier_slot here,
          pc_of-at s.carriers k c here,
          expects-waiter for_reposition s.reposition.stage r.load.word_index r.load.char_index,
        );
      }

  pub delivery_goes-Tickets :
      (r : Request Char) (rest : List (Request Char)) (c d : Carrier) (st : Stage)
      → s.delivery.hand ≡ r ∷ rest
      → expects for_delivery s.delivery.stage ≡ some c.pc
      → get_elem? s.carriers r.carrier_slot ≡ some c
      → expects for_delivery st ≡ some d.pc
      → Tickets (record s {
        delivery = record s.delivery { stage = st };
        carriers = set s.carriers r.carrier_slot d;
      })
  delivery_goes-Tickets r rest c d st h at here q =
      let k = r.carrier_slot in
      let (b, m, u) = expects_begun for_delivery s.delivery.stage c.pc at in
      let (b', m', u') = expects_begun for_delivery st d.pc q in
      record {
        delivery_asked = λ j x y. ground (
          arith,
          v.delivery_asked j x y,
          pc_of-set s.carriers k c d j here,
          pc_of-at s.carriers k c here,
          b x y,
          b' x y,
          u Char r rest,
          u' Char r rest,
        );
        reposition_asked = λ j. ground (
          arith,
          v.reposition_asked j,
          pc_of-set s.carriers k c d j here,
          pc_of-at s.carriers k c here,
          u Char r rest,
          u' Char r rest,
        );
        delivery_head = λ r' rest' p g x. ground (arith, pc_of-set s.carriers k c d k here);
        reposition_head = λ r' rest' p g x. ground (
          arith,
          v.reposition_head r' rest' p g x,
          pc_of-set s.carriers k c d r'.carrier_slot here,
          pc_of-at s.carriers k c here,
          expects_apart s.delivery.stage s.reposition.stage c.pc at,
        );
      }

  pub delivery_done-Tickets :
      (r : Request Char) (rest : List (Request Char)) (c d : Carrier)
      → s.delivery.hand ≡ r ∷ rest
      → expects for_delivery s.delivery.stage ≡ some c.pc
      → get_elem? s.carriers r.carrier_slot ≡ some c
      → d.pc ≡ searching
      → Tickets (record s {
        delivery = record s.delivery { hand = rest; stage = waits };
        carriers = set s.carriers r.carrier_slot d;
      })
  delivery_done-Tickets r rest c d h at here q =
      let k = r.carrier_slot in
      let (b, m, u) = expects_begun for_delivery s.delivery.stage c.pc at in
      record {
        delivery_asked = λ j x y. ground (
          arith,
          v.delivery_asked j x y,
          pc_of-set s.carriers k c d j here,
          pc_of-at s.carriers k c here,
          b x y,
          u Char r rest,
        );
        reposition_asked = λ j. ground (
          arith,
          v.reposition_asked j,
          pc_of-set s.carriers k c d j here,
          pc_of-at s.carriers k c here,
          u Char r rest,
        );
        delivery_head = λ r' rest' p g x. cc;
        reposition_head = λ r' rest' p g x. ground (
          arith,
          v.reposition_head r' rest' p g x,
          pc_of-set s.carriers k c d r'.carrier_slot here,
          pc_of-at s.carriers k c here,
          expects_apart s.delivery.stage s.reposition.stage c.pc at,
        );
      }

  -- Where the carrier at hand stands while it is being moved.
  pub delivery_at :
      (r : DeliveryRequest) (rest : List DeliveryRequest) (c : Carrier) (p : Pc)
      → s.delivery.hand ≡ r ∷ rest
      → expects for_delivery s.delivery.stage ≡ some p
      → get_elem? s.carriers r.carrier_slot ≡ some c
      → c.pc ≡ p
  delivery_at r rest c p h e here =
      ground (arith, v.delivery_head r rest p h e, pc_of-at s.carriers r.carrier_slot c here)

  pub reposition_at :
      (r : RepositionRequest) (rest : List RepositionRequest) (c : Carrier) (p : Pc)
      → s.reposition.hand ≡ r ∷ rest
      → expects for_reposition s.reposition.stage ≡ some p
      → get_elem? s.carriers r.carrier_slot ≡ some c
      → c.pc ≡ p
  reposition_at r rest c p h e here =
      ground (arith, v.reposition_head r rest p h e, pc_of-at s.carriers r.carrier_slot c here)

  pub pick_char-Tickets :
      (k : ℕ) (c : Carrier) (wi : ℕ) (w : SharedWord) (draw : ℕ → ℕ)
      → get_elem? s.carriers k ≡ some c
      → c.pc ≡ searching
      → Tickets (pick_char s k c wi w draw)
  unfolding pick_char
  pick_char-Tickets k c wi w draw here at =
      elim (Option-cases (claim_char w c.current_floor draw).1) [
        | inl e ↦ rw (e, pick_char) v
        | inr (ci, e) ↦
            rw (e, pick_char)
              (SameDesk-Tickets
                (walk-Tickets v k c (record c { pc = holding wi ci }) here (λ a b. ground arith)
                  (ground arith) (λ l st. ground (arith, expects-waiter l st 0 0)))
                (ground arith))
      ]

  pub add_carrier-Tickets : (f : ℕ) → Tickets (add_carrier s f)
  unfolding add_carrier
  add_carrier-Tickets f = SameDesk-Tickets (start-Tickets v f) (ground arith)
