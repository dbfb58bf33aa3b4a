-- ===== src/Floors/Transport/Custody.antt =====
-- The characters of HW3's words: each is nobody's, in one carrier's hands, or delivered.
use mathlib.Core.Path.{subst}
use system_programming_homew.Prelude.{
  ℕ, ◌+◌, ◌≡◌, ◌≢◌, Bool, true, ◌&&◌, ◌==◌, if◌then◌else◌, some, [], ◌∷◌, set, get_elem?, refl, sym,
  ap, ◌∙◌, ◌∙◌, arith, Bool-cases, Option-cases, inl, inr, sum_of, sum_of-set, sum_of-append,
  le-sum_of, get_elem?-set_cases,
}
use system_programming_homew.Floors.Word.{SharedWord, deliver_char, claim_char}
use system_programming_homew.Floors.Transport.{
  pick_char, place_directly, load_delivery, load_reposition, unload, leaves, leave_floor,
  enter_floor, mark_empty, delivery_leaves, reposition_leaves, delivery_enters, reposition_enters,
  delivery_ends, reposition_ends,
}
use system_programming_homew.Floors.Carriers.{
  Lift, for_delivery, for_reposition, Pc, searching, holding, boarding, unloaded, moving, between,
  landed, left, Carrier, Building, new_carrier, add_carrier,
}
use system_programming_homew.Floors.Transport.Calls.{
  reserve_carrier_slot-exact, ask_delivery-exact, ask_reposition-exact,
}
use system_programming_homew.Floors.Transport.Steps.{
  Step, claim, reserve, admit, sort, pick, place, board, wander, leave, take_deliveries,
  take_repositions, deliver, leave_with_delivery, enter_with_delivery, end_delivery,
  leave_for_reposition, enter_for_reposition, end_reposition, start_carrier,
}
use system_programming_homew.Floors.Transport.Tickets.{Tickets}
use system_programming_homew.Floors.Transport.Served.{deliver_boards, delivery_at, reposition_at}
use system_programming_homew.Floors.Transport.Repositions.{asker_moves}
use system_programming_homew.Floors.Admission.Words.{
  Kept, Kept-refl, claim_word-Kept, admit_or_release-Kept, sort_word-Kept, reserve_floors-words,
  with_word-words,
}
use system_programming_homew.Floors.Word.Custody.{
  InOrder, claim_char-exact, with_claimed-InOrder, deliver_char-marks, deliver_char-InOrder,
}

abbrev pub in_hand : SharedWord → ℕ → ℕ
in_hand w ci = if w.char_in_transit ci then 1 else 0

-- Is the character `ci` of the word `wi` in these hands?
abbrev pub has : ℕ → ℕ → Pc → ℕ
has wi ci (holding a b) = if a == wi && b == ci then 1 else 0
has wi ci (boarding a b) = if a == wi && b == ci then 1 else 0
has wi ci p = 0

abbrev pub carries : ℕ → ℕ → Carrier → ℕ
carries wi ci c = has wi ci c.pc

pub record Custody (s : Building) : Type 0 where
  pub words : (wi : ℕ) (w : SharedWord) → get_elem? s.shared.words wi ≡ some w → InOrder w
  pub hands :
      (wi : ℕ) (w : SharedWord) (ci : ℕ)
      → get_elem? s.shared.words wi ≡ some w
      → sum_of (carries wi ci) s.carriers ≡ in_hand w ci

module _ {s : Building} (v : Custody s) where
  -- The words go on, and the carriers hold what they held.
  Kept-Custody :
      {t : Building}
      → Kept s.shared.words t.shared.words
      → ((wi ci : ℕ) → sum_of (carries wi ci) t.carriers ≡ sum_of (carries wi ci) s.carriers)
      → Custody t
  Kept-Custody k same = record {
    words = λ wi w g. let (u, gu, e, f) = k wi w g in f (v.words wi u gu);
    hands = λ wi w ci g.
        let (u, gu, e, f) = k wi w g in
        same wi ci ∙ v.hands wi u ci gu ∙ ap (λ (m : ℕ → Bool). if m ci then 1 else 0) (sym e);
  }

  -- A carrier goes on with what it holds.
  same_hands :
      (k : ℕ) (c d : Carrier)
      → get_elem? s.carriers k ≡ some c
      → ((wi ci : ℕ) → has wi ci d.pc ≡ has wi ci c.pc)
      → (wi ci : ℕ)
      → sum_of (carries wi ci) (set s.carriers k d) ≡ sum_of (carries wi ci) s.carriers
  same_hands k c d here same wi ci =
      omega (arith, sum_of-set (carries wi ci) s.carriers k c d here, same wi ci)

  -- One word and one carrier go on together, in step.
  handover-Custody :
      (t : Building) (k : ℕ) (c d : Carrier) (wi : ℕ) (w w' : SharedWord)
      → get_elem? s.carriers k ≡ some c
      → get_elem? s.shared.words wi ≡ some w
      → t.carriers ≡ set s.carriers k d
      → t.shared.words ≡ set s.shared.words wi w'
      → InOrder w'
      → ((ci : ℕ) → has wi ci d.pc + in_hand w ci ≡ has wi ci c.pc + in_hand w' ci)
      → ((a ci : ℕ) → a ≢ wi → has a ci d.pc ≡ has a ci c.pc)
      → Custody t
  handover-Custody t k c d wi w w' here g cs ws o mine others = record {
    words = λ j u h.
        elim (get_elem?-set_cases s.shared.words wi j w' u (sym (ap (λ l. get_elem? l j) ws) ∙ h)) [
          | inl (e, q) ↦ subst InOrder (sym q) o
          | inr (ne, q) ↦ v.words j u q
        ];
    hands = λ j u ci h.
        let moved = sum_of-set (carries j ci) s.carriers k c d here in
        let total = ap (sum_of (carries j ci)) cs in
        elim (get_elem?-set_cases s.shared.words wi j w' u (sym (ap (λ l. get_elem? l j) ws) ∙ h)) [
          | inl (e, q) ↦
              let same : sum_of (carries j ci) s.carriers ≡ in_hand w ci =
                v.hands j w ci (rw (← e) g) in
              let flag : in_hand u ci ≡ in_hand w' ci = ap (λ (x : SharedWord). in_hand x ci) q in
              let step : has j ci d.pc + in_hand w ci ≡ has j ci c.pc + in_hand w' ci =
                subst (λ x. has x ci d.pc + in_hand w ci ≡ has x ci c.pc + in_hand w' ci) e
                  (mine ci) in
              omega arith
          | inr (ne, q) ↦ omega (arith, v.hands j u ci q, others j ci (λ p. ne (sym p)))
        ];
  }

  pick_char-Custody :
      (k : ℕ) (c : Carrier) (wi : ℕ) (w : SharedWord) (draw : ℕ → ℕ)
      → get_elem? s.carriers k ≡ some c
      → c.pc ≡ searching
      → get_elem? s.shared.words wi ≡ some w
      → Custody (pick_char s k c wi w draw)
  unfolding pick_char
  pick_char-Custody k c wi w draw here at g =
      elim (Option-cases (claim_char w c.current_floor draw).1) [
        | inl e ↦ rw (e, pick_char) v
        | inr (ci, e) ↦
            let (q, lt, unclaimed, new, free) = claim_char-exact w c.current_floor draw ci e in
            let w' = (claim_char w c.current_floor draw).0 in
            rw (e, pick_char)
              (handover-Custody _ k c (record c { pc = holding wi ci }) wi w w' here g refl
                (with_word-words s.shared wi w')
                (subst InOrder (sym q) (with_claimed-InOrder w ci (v.words wi w g) lt new))
                (λ j. ground (arith, ap (λ (x : SharedWord). x.char_in_transit j) q))
                (λ a j ne. ground arith))
      ]

  -- A carrier puts down the character that it has.
  put_down-Custody :
      (t : Building) (k : ℕ) (c d : Carrier) (wi ci : ℕ) (w : SharedWord)
      → get_elem? s.carriers k ≡ some c
      → get_elem? s.shared.words wi ≡ some w
      → ((a b : ℕ) → has a b c.pc ≡ (if wi == a && ci == b then 1 else 0))
      → ((a b : ℕ) → has a b d.pc ≡ 0)
      → t.carriers ≡ set s.carriers k d
      → t.shared.words ≡ set s.shared.words wi (deliver_char w ci).0
      → Custody t
  put_down-Custody t k c d wi ci w here g full empty cs ws =
      let carried : w.char_in_transit ci ≡ true =
        ground
          (arith, le-sum_of (carries wi ci) s.carriers k c here, full wi ci, v.hands wi w ci g) in
      handover-Custody t k c d wi w (deliver_char w ci).0 here g cs ws
        (deliver_char-InOrder w ci (v.words wi w g) carried)
        (λ j. ground (arith, full wi j, empty wi j, deliver_char-marks w ci j))
        (λ a j ne. ground (arith, full a j, empty a j))

  leave_floor-Custody :
      (l : Lift) (k : ℕ) (c : Carrier) (to_floor : ℕ)
      → get_elem? s.carriers k ≡ some c
      → ((a b : ℕ) → has a b c.pc ≡ 0)
      → Custody (leave_floor s l k c to_floor)
  unfolding leave_floor
  leave_floor-Custody l k c to_floor here bare = elim (Bool-cases (leaves to_floor c)) [
    | inl e ↦
        rw (leave_floor, e)
          (Kept-Custody (Kept-refl s.shared.words)
            (same_hands k c (record c { pc = between l }) here (λ a b. ground (arith, bare a b))))
    | inr e ↦
        rw (leave_floor, e)
          (Kept-Custody (Kept-refl s.shared.words)
            (same_hands k c (record c { pc = landed l }) here (λ a b. ground (arith, bare a b))))
  ]

  -- Only the carrier in one slot has changed, and it has nothing in its hands.
  bare_hands :
      (t : Building) (k : ℕ) (c d : Carrier)
      → get_elem? s.carriers k ≡ some c
      → ((a b : ℕ) → has a b d.pc ≡ has a b c.pc)
      → t.carriers ≡ set s.carriers k d
      → t.shared.words ≡ s.shared.words
      → Custody t
  bare_hands t k c d here bare cs ws =
      Kept-Custody (subst (Kept s.shared.words) (sym ws) (Kept-refl s.shared.words))
        (λ a b. ap (sum_of (carries a b)) cs ∙ same_hands k c d here bare a b)

  same_all :
      (t : Building) → t.carriers ≡ s.carriers → Kept s.shared.words t.shared.words → Custody t
  same_all t cs k = Kept-Custody k (λ a b. ap (sum_of (carries a b)) cs)

  add_carrier-Custody : (f : ℕ) → Custody (add_carrier s f)
  unfolding add_carrier
  add_carrier-Custody f =
      Kept-Custody (Kept-refl s.shared.words)
        (λ a b. omega (arith, sum_of-append (carries a b) s.carriers (new_carrier f ∷ [])))

pub Step-Custody : {s t : Building} → Tickets s → Custody s → Step s t → Custody t
unfolding place_directly load_delivery load_reposition unload delivery_leaves reposition_leaves
    delivery_enters reposition_enters enter_floor delivery_ends reposition_ends mark_empty
Step-Custody {s} v h (claim slot c here at e) =
    subst Custody (sym e) (same_all h _ refl (claim_word-Kept s.shared slot c))
Step-Custody {s} v h (reserve slot c idx w here at g e) = subst Custody (sym e) (
    same_all h _ refl (
      subst (Kept s.shared.words) (sym (reserve_floors-words s.shared slot c idx w))
        (Kept-refl s.shared.words)))
Step-Custody {s} v h (admit slot c idx sf w ok here at g e) =
    subst Custody (sym e) (same_all h _ refl (admit_or_release-Kept s.shared slot c idx w ok g))
Step-Custody {s} v h (sort wi w g adm undone e) =
    subst Custody (sym e) (same_all h _ refl (sort_word-Kept s.shared wi w g))
Step-Custody v h (pick k c wi w draw here at g e) =
    subst Custody (sym e) (pick_char-Custody h k c wi w draw here at g)
Step-Custody {s} v h (place k c wi w ci here at g home e) = subst Custody (sym e) (
    put_down-Custody h _ k c
      (record c {
        direct_placements =
            if (deliver_char w ci).1 then c.direct_placements + 1 else c.direct_placements;
        pc = searching;
      })
      wi ci w here g (λ a b. ground arith) (λ a b. ground arith) refl
      (with_word-words s.shared wi (deliver_char w ci).0))
Step-Custody {s} v h (board k c wi w ci here at g away e) =
    let (rs, q, p) = ask_delivery-exact s k c wi w ci e in
    bare_hands h _ k c (record c { pc = boarding wi ci }) here (λ a b. ground arith) (ground arith)
      (ground arith)
Step-Custody {s} v h (wander k c draw here at e) =
    let (rs, q, p) = ask_reposition-exact s k c draw e in
    bare_hands h _ k c (record c { pc = moving }) here (λ a b. ground arith) (ground arith)
      (ground arith)
Step-Custody v h (leave k c here at e) =
    bare_hands h _ k c (record c { pc = left }) here (λ a b. ground arith) (ground arith)
      (ground arith)
Step-Custody {s} v h (take_deliveries capacity lim bare at e) =
    subst Custody (sym e) (same_all h _ refl (Kept-refl s.shared.words))
Step-Custody {s} v h (take_repositions capacity lim bare at e) =
    subst Custody (sym e) (same_all h _ refl (Kept-refl s.shared.words))
Step-Custody {s} v h (deliver r rest w c q at g here e) =
    let mine = deliver_boards v r rest c q at here in
    subst Custody (sym e) (
      put_down-Custody h _ r.carrier_slot c (record c { pc = unloaded }) r.load.word_index
        r.load.char_index w here g (λ a b. ground arith) (λ a b. ground arith) refl
        (with_word-words s.shared r.load.word_index (deliver_char w r.load.char_index).0))
Step-Custody {s} v h (leave_with_delivery r rest c q at here e) =
    let p = delivery_at v r rest c unloaded q (ground arith) here in
    subst Custody (sym e) (
      same_all
        (leave_floor-Custody h for_delivery r.carrier_slot c r.to_floor here (λ a b. ground arith))
        _ refl (Kept-refl _))
Step-Custody v h (enter_with_delivery r rest c old empty q at here e) =
    let p = delivery_at v r rest c (between for_delivery) q (ground arith) here in
    bare_hands h _ r.carrier_slot c
      (record c { current_floor = r.to_floor; pc = landed for_delivery }) here (λ a b. ground arith)
      (ground arith) (ground arith)
Step-Custody v h (end_delivery r rest c old empty q at here e) =
    let p = delivery_at v r rest c (landed for_delivery) q (ground arith) here in
    bare_hands h _ r.carrier_slot c (record c { deliveries = c.deliveries + 1; pc = searching })
      here (λ a b. ground arith) (ground arith) (ground arith)
Step-Custody v h (leave_for_reposition r rest c q at here e) =
    let p = asker_moves v r rest c q at here in
    subst Custody (sym e) (
      same_all
        (leave_floor-Custody h for_reposition r.carrier_slot c r.to_floor here
          (λ a b. ground arith))
        _ refl (Kept-refl _))
Step-Custody v h (enter_for_reposition r rest c old empty q at here e) =
    let p = reposition_at v r rest c (between for_reposition) q (ground arith) here in
    bare_hands h _ r.carrier_slot c
      (record c { current_floor = r.to_floor; pc = landed for_reposition }) here
      (λ a b. ground arith) (ground arith) (ground arith)
Step-Custody v h (end_reposition r rest c old empty q at here e) =
    let p = reposition_at v r rest c (landed for_reposition) q (ground arith) here in
    bare_hands h _ r.carrier_slot c (record c { repositions = c.repositions + 1; pc = searching })
      here (λ a b. ground arith) (ground arith) (ground arith)
Step-Custody {s} v h (start_carrier f slot lt e) =
    let (room, p, q) = reserve_carrier_slot-exact s f e in
    subst Custody (sym p) (add_carrier-Custody h f)
