-- ===== src/Floors/Admission/Steps.antt =====
-- Each step of a word carrier of HW3 keeps what the admission of words always satisfies.
use system_programming_homew.Prelude.{
  ℕ, ◌+◌, ◌%◌, ◌≡◌, ◌≢◌, refl, sym, ap, ◌∙◌, Bool, true, false, inl, inr, none, some, set,
  get_elem?, length, sum_of-set, le-sum_of, get_elem?-set_cases, arith,
}
use system_programming_homew.Floors.Word.{SharedWord}
use system_programming_homew.Floors.Admission.{
  scanning, claiming, decided, WordCarrier, SharedState, claim_at, has_room, reserve_floors,
  admit_or_release,
}
use system_programming_homew.Floors.Admission.Invariant.{
  booked_by, asked_by, holds, is_done, is_pending, Ordered, Inv, add_to_floors-exact,
}

module _ {limit : ℕ} {s : SharedState} (inv : Inv limit s) (k : ℕ) (c : WordCarrier)
    (here : get_elem? s.wcarriers k ≡ some c) where
  -- A step that replaces one word and its carrier: what it must keep.
  handover-Inv :
      (i : ℕ) (w w' : SharedWord) (c' : WordCarrier) (rr_cursor retries : ℕ)
      → get_elem? s.words i ≡ some w
      → ((f : ℕ) → booked_by f w' + asked_by f c' ≡ booked_by f w + asked_by f c)
      → is_pending w' + holds i c ≡ is_pending w + holds i c'
      → ((j : ℕ) → j ≢ i → holds j c' ≡ holds j c)
      → Ordered w'
      → w'.completed ≡ w.completed
      → w'.sorting_floor ≡ w.sorting_floor
      → ((l sf : ℕ) (ok : Bool) → c'.pc ≢ decided l sf ok)
      → Inv limit (record s {
        words = set s.words i w';
        wcarriers = set s.wcarriers k c';
        rr_cursor = rr_cursor;
        retries = retries;
      })
  handover-Inv i w w' c' rr_cursor retries g places hands others ord done same undecided = record {
    same_limit = inv.same_limit;
    room = inv.room;
    booked = λ f. omega (
      arith,
      inv.booked f,
      places f,
      sum_of-set (booked_by f) s.words i w w' g,
      sum_of-set (asked_by f) s.wcarriers k c c' here,
    );
    held = λ j u gu. elim (get_elem?-set_cases s.words i j w' u gu) [
      | inl (e, v) ↦
          ground (arith, inv.held i w g, hands, sum_of-set (holds j) s.wcarriers k c c' here)
      | inr (n, g') ↦
          ground (arith, inv.held j u g', others j, sum_of-set (holds j) s.wcarriers k c c' here)
    ];
    ordered = λ j u gu. elim (get_elem?-set_cases s.words i j w' u gu) [
      | inl (e, v) ↦ rw v ord
      | inr (n, g') ↦ inv.ordered j u g'
    ];
    agreed = λ l j sf ok d u gd at gu. elim (get_elem?-set_cases s.wcarriers k l c' d gd) [
      | inl (e, v) ↦ absurd (undecided j sf ok (ap (λ x. x.pc) (sym v) ∙ at))
      | inr (n, gd') ↦ elim (get_elem?-set_cases s.words i j w' u gu) [
        | inl (e', v') ↦ ground (arith, inv.agreed l i sf ok d w gd')
        | inr (n', gu') ↦ inv.agreed l j sf ok d u gd' at gu'
      ]
    ];
    tally = ground (arith, inv.tally, sum_of-set is_done s.words i w w' g);
  }

  pub claim_at-Inv :
      (i : ℕ) (w : SharedWord)
      → c.pc ≡ scanning
      → get_elem? s.words i ≡ some w
      → w.claimed ≡ false
      → w.admitted ≡ false
      → w.completed ≡ false
      → Inv limit (claim_at s k c i w)
  unfolding claim_at
  claim_at-Inv i w at g unclaimed waits undone =
      handover-Inv i w (record w { claimed = true; claim_owner = some k })
        (record c { pc = claiming i }) ((i + 1) % length s.words) s.retries g (λ f. ground arith)
        (ground arith) (λ j n. ground arith) (inv.ordered i w g) refl refl (λ l sf ok e. cc)

  pub reserve_floors-Inv :
      (i : ℕ) (w : SharedWord)
      → c.pc ≡ claiming i
      → get_elem? s.words i ≡ some w
      → Inv limit (reserve_floors s k c i w)
  unfolding reserve_floors has_room
  reserve_floors-Inv i w at g =
      let ok = has_room s c.floor w.sorting_floor in
      let c' : WordCarrier = record c { pc = decided i w.sorting_floor ok } in
      record {
        same_limit = inv.same_limit;
        room = λ f. ground (
          arith,
          inv.same_limit,
          inv.room f,
          add_to_floors-exact s.active_words c.floor w.sorting_floor f,
        );
        booked = λ f. ground (
          arith,
          inv.booked f,
          add_to_floors-exact s.active_words c.floor w.sorting_floor f,
          sum_of-set (asked_by f) s.wcarriers k c c' here,
        );
        held =
            λ j u gu. ground (arith, inv.held j u gu, sum_of-set (holds j) s.wcarriers k c c' here);
        ordered = inv.ordered;
        agreed = λ l j sf ok d u gd at' gu. elim (get_elem?-set_cases s.wcarriers k l c' d gd) [
          | inl (e, v) ↦ ground arith
          | inr (n, gd') ↦ inv.agreed l j sf ok d u gd' at' gu
        ];
        tally = inv.tally;
      }

  -- The word of a carrier that has decided is its alone.
  decided-pending :
      (i sf : ℕ) (ok : Bool) (w : SharedWord)
      → c.pc ≡ decided i sf ok
      → get_elem? s.words i ≡ some w
      → (w.claimed ≡ true)
        × (w.admitted ≡ false)
        × (w.completed ≡ false)
        × (w.active_reservation ≡ false)
        × (w.sorting_floor ≡ sf)
  decided-pending i sf ok w at g = ground (
    arith,
    inv.held i w g,
    le-sum_of (holds i) s.wcarriers k c here,
    inv.ordered i w g,
    inv.agreed k i sf ok c w here at g,
  )

  pub admit_or_release-Inv :
      (i sf : ℕ) (ok : Bool) (w : SharedWord)
      → c.pc ≡ decided i sf ok
      → get_elem? s.words i ≡ some w
      → Inv limit (admit_or_release s k c i w ok)
  unfolding admit_or_release
  admit_or_release-Inv i sf true w at g =
      let (claimed, waits, undone, unbooked, same) = decided-pending i sf true w at g in
      handover-Inv i w
        (record w { admitted = true; arrival_floor = c.floor; active_reservation = true })
        (record c { pc = scanning; admissions = c.admissions + 1 }) s.rr_cursor s.retries g
        (λ f. ground arith) (ground arith) (λ j n. ground arith) (ground arith) refl refl
        (λ l sf ok e. cc)
  admit_or_release-Inv i sf false w at g =
      let (claimed, waits, undone, unbooked, same) = decided-pending i sf false w at g in
      handover-Inv i w (record w { claimed = false; claim_owner = none })
        (record c { pc = scanning; retries = c.retries + 1 }) s.rr_cursor (s.retries + 1) g
        (λ f. ground arith) (ground arith) (λ j n. ground arith) (ground arith) refl refl
        (λ l sf ok e. cc)
