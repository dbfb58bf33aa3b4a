-- ===== src/Floors/Admission/Capacity.antt =====
-- What the admission of words keeps, whatever the order in which HW3's processes run.
use system_programming_homew.Prelude.{
  ℕ, zero, suc, ◌+◌, ◌%◌, ◌≤◌, ◌≡◌, refl, ◌∙◌, true, false, not, ◌&&◌, ◌⊎◌, inl, inr, none, some,
  List, get_elem?, get_elem?-set_self, lt-of-get_elem?, length, sum_of, sum_of-zero_get,
  sum_of-full, arith, Bool-cases, Option-cases,
}
use system_programming_homew.Floors.Word.{SharedWord, sort_pass, all_fixed}
use system_programming_homew.Floors.Admission.{
  scanning, WordCarrier, SharedState, is_open, claim_scan, claim_word, try_complete_word, sort_word,
  with_word, Step, claim, reserve, admit, sort, pick, deliver, Start, Reach, started, later,
}
use system_programming_homew.Floors.Admission.Invariant.{
  booked_by, asked_by, holds, is_done, is_pending, Inv, with_word-Inv, complete_word-Inv,
}
use system_programming_homew.Floors.Admission.Steps.{
  claim_at-Inv, reserve_floors-Inv, admit_or_release-Inv,
}
use system_programming_homew.Floors.Word.Kept.{
  claim_char-SameAdmission, deliver_char-SameAdmission, sort_pass-SameAdmission,
}

pub claim_scan-open :
    (words : List SharedWord) (rr n seen : ℕ)
    → (claim_scan words rr n seen ≡ none)
      ⊎ ((i : ℕ) × (w : SharedWord) × (claim_scan words rr n seen ≡ some i)
          × (get_elem? words i ≡ some w)
          × (w.claimed ≡ false)
          × (w.admitted ≡ false)
          × (w.completed ≡ false))
unfolding claim_scan is_open
claim_scan-open words rr zero seen = inl refl
claim_scan-open words rr (suc n) seen =
    let idx = (rr + seen) % length words in
    elim (Option-cases (get_elem? words idx)) [
      | inl e ↦ elim (claim_scan-open words rr n (suc seen)) [
        | inl p ↦ inl (ground (arith))
        | inr (i, w, p, g, c, a, d) ↦ inr (i, w, ground arith, g, c, a, d)
      ]
      | inr (u, e) ↦ elim (Bool-cases (not u.claimed && not u.admitted && not u.completed)) [
        | inl t ↦ inr (idx, u, ground arith, e, ground arith, ground arith, ground arith)
        | inr f ↦ elim (claim_scan-open words rr n (suc seen)) [
          | inl p ↦ inl (ground arith)
          | inr (i, w, p, g, c, a, d) ↦ inr (i, w, ground arith, g, c, a, d)
        ]
      ]
    ]

try_complete_word-Inv :
    {limit : ℕ} {s : SharedState}
    → Inv limit s
    → (i : ℕ) (w : SharedWord) → get_elem? s.words i ≡ some w
    → w.admitted ≡ true
    → Inv limit (try_complete_word s i w).0
unfolding try_complete_word
try_complete_word-Inv inv i w g adm = elim (Bool-cases (all_fixed w)) [
  | inr e ↦ rw (try_complete_word, e) inv
  | inl e ↦ elim (Bool-cases w.completed) [
    | inl d ↦ rw (try_complete_word, e, d) inv
    | inr d ↦ rw (try_complete_word, e, d) (complete_word-Inv inv i w g adm d)
  ]
]

module _ {limit : ℕ} {s : SharedState} (inv : Inv limit s) where
  claim_word-Inv :
      (k : ℕ) (c : WordCarrier)
      → get_elem? s.wcarriers k ≡ some c
      → c.pc ≡ scanning
      → Inv limit (claim_word s k c)
  unfolding claim_word
  claim_word-Inv k c here at = elim (claim_scan-open s.words s.rr_cursor (length s.words) 0) [
    | inl e ↦ rw (e, claim_word) inv
    | inr (i, w, e, g, u, a, d) ↦ rw (e, claim_word, g) (claim_at-Inv inv k c here i w at g u a d)
  ]

  sort_word-Inv :
      (i : ℕ) (w : SharedWord)
      → get_elem? s.words i ≡ some w
      → w.admitted ≡ true
      → w.completed ≡ false
      → Inv limit (sort_word s i w)
  unfolding sort_word with_word
  sort_word-Inv i w g adm undone =
      let w' = (sort_pass w).0 in
      let same = sort_pass-SameAdmission w in
      try_complete_word-Inv (with_word-Inv inv i w g w' same) i w'
        (get_elem?-set_self s.words i w' (lt-of-get_elem? s.words i w g)) (same.admitted ∙ adm)

  Step-Inv : {t : SharedState} → Step s t → Inv limit t
  Step-Inv (claim k c here at e) = rw e (claim_word-Inv k c here at)
  Step-Inv (reserve k c i w here at g e) = rw e (reserve_floors-Inv inv k c here i w at g)
  Step-Inv (admit k c i sf w ok here at g e) =
      rw e (admit_or_release-Inv inv k c here i sf ok w at g)
  Step-Inv (sort i w g adm undone e) = rw e (sort_word-Inv i w g adm undone)
  Step-Inv (pick i w floor draw g e) =
      rw e (with_word-Inv inv i w g _ (claim_char-SameAdmission w floor draw))
  Step-Inv (deliver i w ci g e) = rw e (with_word-Inv inv i w g _ (deliver_char-SameAdmission w ci))

Start-Inv : (s : SharedState) → Start s → Inv s.max_words_per_floor s
Start-Inv s st = record {
  same_limit = refl;
  room = λ f. ground (arith, st.empty f);
  booked = λ f. omega (
    arith,
    st.empty f,
    sum_of-zero_get (booked_by f) s.words (λ i w g. ground (arith, st.fresh i w g)),
    sum_of-zero_get (asked_by f) s.wcarriers (λ i c g. ground (arith, st.ready i c g)),
  );
  held = λ i w g. ground (
    arith,
    st.fresh i w g,
    sum_of-zero_get (holds i) s.wcarriers (λ i c g. ground (arith, st.ready i c g)),
  );
  ordered = λ i w g. ground (arith, st.fresh i w g);
  agreed = λ k i sf ok c w gc at g. ground (arith, st.ready k c gc);
  tally = omega (
    arith,
    st.none_done,
    sum_of-zero_get is_done s.words (λ i w g. ground (arith, st.fresh i w g)),
  );
}

pub Reach-Inv : {s t : SharedState} → Start s → Reach s t → Inv s.max_words_per_floor t
Reach-Inv st started = Start-Inv _ st
Reach-Inv st (later r step) = Step-Inv (Reach-Inv st r) step

is_done_le : (w : SharedWord) → is_done w ≤ 1
is_done_le w = ground arith

at_most_one : (w : SharedWord) → is_pending w ≤ 1
at_most_one w = ground arith

-- No floor is ever given more words than it may have, and each word is in at most one carrier's
-- hands: in every state that the processes reach from a start, in any order of their steps.
pub capacity_kept :
    {s t : SharedState}
    → Start s
    → Reach s t
    → ((f : ℕ) → t.active_words f ≤ s.max_words_per_floor)
      × ((i : ℕ) (w : SharedWord) → get_elem? t.words i ≡ some w → sum_of (holds i) t.wcarriers ≤ 1)
capacity_kept st r =
    let inv = Reach-Inv st r in (inv.room, λ i w g. omega (arith, inv.held i w g, at_most_one w))

-- Once as many words are completed as there are and no carrier is in the middle of an admission,
-- every word is completed and every place on every floor is free again.
pub capacity_returned :
    {s t : SharedState}
    → Start s
    → Reach s t
    → t.completed_words ≡ length t.words
    → ((k : ℕ) (c : WordCarrier) → get_elem? t.wcarriers k ≡ some c → c.pc ≡ scanning)
    → ((i : ℕ) (w : SharedWord) → get_elem? t.words i ≡ some w → w.completed ≡ true)
      × ((f : ℕ) → t.active_words f ≡ 0)
capacity_returned {t = t} st r all idle =
    let inv = Reach-Inv st r in
    let done : (i : ℕ) (w : SharedWord) → get_elem? t.words i ≡ some w → w.completed ≡ true =
      λ i w g.
        ground (
          arith,
          sum_of-full is_done t.words i w (λ x. is_done_le x) (omega (arith, inv.tally)) g,
        ) in
    (
      done,
      λ f. omega (
        arith,
        inv.booked f,
        sum_of-zero_get (booked_by f) t.words
            (λ i w g. ground (arith, inv.ordered i w g, done i w g)),
        sum_of-zero_get (asked_by f) t.wcarriers (λ k c g. ground (arith, idle k c g)),
      ),
    )
