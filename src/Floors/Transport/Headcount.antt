-- ===== src/Floors/Transport/Headcount.antt =====
-- HW3's floors count the letter carriers that stand on them.
use mathlib.Core.Path.{subst}
use system_programming_homew.Prelude.{
  ℕ, ◌+◌, ◌≡◌, Bool, true, false, ◌&&◌, ◌==◌, if◌then◌else◌, some, [], ◌∷◌, set, get_elem?, refl,
  sym, arith, Bool-cases, Option-cases, inl, inr, sum_of, sum_of-set, sum_of-append, le-sum_of,
}
use system_programming_homew.Floors.Word.{SharedWord, deliver_char, claim_char}
use system_programming_homew.Floors.Transport.{
  pick_char, place_directly, load_delivery, load_reposition, unload, leaves, leave_floor,
  enter_floor, mark_empty, delivery_leaves, reposition_leaves, delivery_enters, reposition_enters,
  delivery_ends, reposition_ends,
}
use system_programming_homew.Floors.Carriers.{
  Lift, for_delivery, for_reposition, Pc, searching, holding, boarding, unloaded, moving, between,
  landed, left, Carrier, Building, new_carrier, add_carrier,
}
use system_programming_homew.Floors.Transport.Calls.{
  reserve_carrier_slot-exact, ask_delivery-exact, ask_reposition-exact,
}
use system_programming_homew.Floors.Transport.Steps.{
  Step, claim, reserve, admit, sort, pick, place, board, wander, leave, take_deliveries,
  take_repositions, deliver, leave_with_delivery, enter_with_delivery, end_delivery,
  leave_for_reposition, enter_for_reposition, end_reposition, start_carrier,
}
use system_programming_homew.Floors.Transport.Tickets.{Tickets}
use system_programming_homew.Floors.Transport.Served.{deliver_boards, delivery_at, reposition_at}
use system_programming_homew.Floors.Transport.Repositions.{asker_moves}

abbrev pub afoot : Pc → Bool
afoot searching = true
afoot (holding a b) = true
afoot (boarding a b) = true
afoot unloaded = true
afoot moving = true
afoot (between l) = false
afoot (landed l) = true
afoot left = true

-- Is the carrier on this floor, and not between two?
abbrev pub stands : ℕ → Carrier → ℕ
stands f c = if afoot c.pc && (c.current_floor == f) then 1 else 0

pub record Headcount (s : Building) : Type 0 where
  pub counted : (f : ℕ) → s.carrier_count f ≡ sum_of (stands f) s.carriers

module _ {s : Building} (v : Headcount s) where
  same_carriers :
      {t : Building} → t.carrier_count ≡ s.carrier_count → t.carriers ≡ s.carriers → Headcount t
  same_carriers p q = record { counted = λ f. rw (p, q) (v.counted f) }

  same_place :
      (t : Building) (k : ℕ) (c d : Carrier)
      → get_elem? s.carriers k ≡ some c
      → afoot d.pc ≡ afoot c.pc
      → d.current_floor ≡ c.current_floor
      → t.carrier_count ≡ s.carrier_count
      → t.carriers ≡ set s.carriers k d
      → Headcount t
  same_place t k c d here a f p q = record {
    counted =
        λ g. rw (p, q) (ground (arith, v.counted g, sum_of-set (stands g) s.carriers k c d here));
  }

  pick_char-Headcount :
      (k : ℕ) (c : Carrier) (wi : ℕ) (w : SharedWord) (draw : ℕ → ℕ)
      → get_elem? s.carriers k ≡ some c
      → c.pc ≡ searching
      → Headcount (pick_char s k c wi w draw)
  unfolding pick_char
  pick_char-Headcount k c wi w draw here at =
      elim (Option-cases (claim_char w c.current_floor draw).1) [
        | inl e ↦ rw (e, pick_char) v
        | inr (ci, e) ↦
            rw (e, pick_char)
              (same_place _ k c (record c { pc = holding wi ci }) here (ground arith) refl refl
                refl)
      ]

  leave_floor-Headcount :
      (l : Lift) (k : ℕ) (c : Carrier) (to_floor : ℕ)
      → get_elem? s.carriers k ≡ some c
      → afoot c.pc ≡ true
      → Headcount (leave_floor s l k c to_floor)
  unfolding leave_floor
  leave_floor-Headcount l k c to_floor here at = elim (Bool-cases (leaves to_floor c)) [
    | inl e ↦
        rw (leave_floor, e)
          (record {
            counted = λ f. ground (
              arith,
              v.counted f,
              le-sum_of (stands f) s.carriers k c here,
              sum_of-set (stands f) s.carriers k c (record c { pc = between l }) here,
            );
          })
    | inr e ↦
        rw (leave_floor, e)
          (same_place _ k c (record c { pc = landed l }) here (ground arith) refl refl refl)
  ]

  enter_floor-Headcount :
      (l : Lift) (k : ℕ) (c : Carrier) (to_floor : ℕ)
      → get_elem? s.carriers k ≡ some c
      → c.pc ≡ between l
      → Headcount (enter_floor s l k c to_floor)
  unfolding enter_floor
  enter_floor-Headcount l k c to_floor here at = record {
    counted = λ f. ground (
      arith,
      v.counted f,
      sum_of-set (stands f) s.carriers k c (record c { current_floor = to_floor; pc = landed l })
          here,
    );
  }

  add_carrier-Headcount : (f : ℕ) → Headcount (add_carrier s f)
  unfolding add_carrier
  add_carrier-Headcount f = record {
    counted =
        λ g. ground (arith, v.counted g, sum_of-append (stands g) s.carriers (new_carrier f ∷ []));
  }

pub Step-Headcount : {s t : Building} → Tickets s → Headcount s → Step s t → Headcount t
unfolding place_directly load_delivery load_reposition unload delivery_leaves reposition_leaves
    delivery_enters reposition_enters delivery_ends reposition_ends mark_empty
Step-Headcount v h (claim slot c here at e) = same_carriers h (ground arith) (ground arith)
Step-Headcount v h (reserve slot c idx w here at g e) =
    same_carriers h (ground arith) (ground arith)
Step-Headcount v h (admit slot c idx sf w ok here at g e) =
    same_carriers h (ground arith) (ground arith)
Step-Headcount v h (sort wi w g adm undone e) = same_carriers h (ground arith) (ground arith)
Step-Headcount v h (pick k c wi w draw here at g e) =
    subst Headcount (sym e) (pick_char-Headcount h k c wi w draw here at)
Step-Headcount v h (place k c wi w ci here at g home e) =
    same_place h _ k c
      (record c {
        direct_placements =
            if (deliver_char w ci).1 then c.direct_placements + 1 else c.direct_placements;
        pc = searching;
      })
      here (ground arith) refl (ground arith) (ground arith)
Step-Headcount {s} v h (board k c wi w ci here at g away e) =
    let (rs, q, p) = ask_delivery-exact s k c wi w ci e in
    same_place h _ k c (record c { pc = boarding wi ci }) here (ground arith) refl (ground arith)
      (ground arith)
Step-Headcount {s} v h (wander k c draw here at e) =
    let (rs, q, p) = ask_reposition-exact s k c draw e in
    same_place h _ k c (record c { pc = moving }) here (ground arith) refl (ground arith)
      (ground arith)
Step-Headcount v h (leave k c here at e) =
    same_place h _ k c (record c { pc = left }) here (ground arith) refl (ground arith)
      (ground arith)
Step-Headcount v h (take_deliveries capacity lim bare at e) =
    same_carriers h (ground arith) (ground arith)
Step-Headcount v h (take_repositions capacity lim bare at e) =
    same_carriers h (ground arith) (ground arith)
Step-Headcount v h (deliver r rest w c q at g here e) =
    let mine = deliver_boards v r rest c q at here in
    same_place h _ r.carrier_slot c (record c { pc = unloaded }) here (ground arith) refl
      (ground arith) (ground arith)
Step-Headcount {s} v h (leave_with_delivery r rest c q at here e) =
    let p = delivery_at v r rest c unloaded q (ground arith) here in
    subst Headcount (sym e) (
      same_carriers
        (leave_floor-Headcount h for_delivery r.carrier_slot c r.to_floor here (ground arith)) refl
        refl)
Step-Headcount v h (enter_with_delivery r rest c old empty q at here e) =
    let p = delivery_at v r rest c (between for_delivery) q (ground arith) here in
    subst Headcount (sym e) (
      same_carriers (enter_floor-Headcount h for_delivery r.carrier_slot c r.to_floor here p) refl
        refl)
Step-Headcount v h (end_delivery r rest c old empty q at here e) =
    let p = delivery_at v r rest c (landed for_delivery) q (ground arith) here in
    same_place h _ r.carrier_slot c (record c { deliveries = c.deliveries + 1; pc = searching })
      here (ground arith) refl (ground arith) (ground arith)
Step-Headcount v h (leave_for_reposition r rest c q at here e) =
    let p = asker_moves v r rest c q at here in
    subst Headcount (sym e) (
      same_carriers
        (leave_floor-Headcount h for_reposition r.carrier_slot c r.to_floor here (ground arith))
        refl refl)
Step-Headcount v h (enter_for_reposition r rest c old empty q at here e) =
    let p = reposition_at v r rest c (between for_reposition) q (ground arith) here in
    subst Headcount (sym e) (
      same_carriers (enter_floor-Headcount h for_reposition r.carrier_slot c r.to_floor here p) refl
        refl)
Step-Headcount v h (end_reposition r rest c old empty q at here e) =
    let p = reposition_at v r rest c (landed for_reposition) q (ground arith) here in
    same_place h _ r.carrier_slot c (record c { repositions = c.repositions + 1; pc = searching })
      here (ground arith) refl (ground arith) (ground arith)
Step-Headcount {s} v h (start_carrier f slot lt e) =
    let (room, p, q) = reserve_carrier_slot-exact s f e in
    subst Headcount (sym p) (add_carrier-Headcount h f)
