-- ===== src/Floors/Word/Custody.antt =====
-- In whose hands a character of a word of HW3 is: nobody's, a carrier's, or the sorting area's.
use system_programming_homew.Prelude.{
  ℕ, zero, suc, ◌+◌, ◌%◌, ◌≤◌, ◌<◌, ◌≡◌, true, false, not, ◌&&◌, ◌||◌, ◌==◌, inl, inr, arith, some,
  Option-cases, Bool-cases, if◌then◌else◌, Str,
}
use system_programming_homew.Floors.Word.{
  update, SharedWord, new_word, put_char, settle_delivery, deliver_char, claim_from, claim_char,
  sort_from, sort_slot, sort_pass,
}
use system_programming_homew.Floors.Word.Invariant.{
  IsSound, SameWord, sort_slot-SameWord, new_word-IsSound,
}
use system_programming_homew.Floors.Word.Delivery.{place_cases, deliver_char-IsSound}

pub record InOrder (w : SharedWord) : Type 0 where
  pub sound : IsSound w
  pub inside : (ci : ℕ) → w.char_in_transit ci ≡ true → ci < w.len
  pub taken :
      (ci : ℕ)
      → w.char_in_transit ci ≡ true
      → (w.char_claimed ci ≡ true) × (w.char_delivered ci ≡ false)
  pub kept : (ci : ℕ) → w.char_delivered ci ≡ true → w.char_claimed ci ≡ true
  pub held :
      (ci : ℕ) → w.char_claimed ci ≡ true → (w.char_in_transit ci || w.char_delivered ci) ≡ true

claim_from-free :
    (w : SharedWord) (draw : ℕ → ℕ) (n j ci : ℕ)
    → n ≤ w.len
    → claim_from w draw n j ≡ some ci
    → (ci < w.len)
      × (w.char_claimed ci ≡ false)
      × (w.char_delivered ci ≡ false)
      × (w.char_in_transit ci ≡ false)
unfolding claim_from
claim_from-free w draw zero j ci h e = cc
claim_from-free w draw (suc n) j ci h e =
    let i = (j + draw j % w.len) % w.len in
    elim (Bool-cases
      (not (w.char_claimed i) && not (w.char_delivered i) && not (w.char_in_transit i))) [
        | inl q ↦ ground arith
        | inr q ↦ claim_from-free w draw n (suc j) ci (omega arith) (ground arith)
      ]

abbrev pub with_claimed : SharedWord → ℕ → SharedWord
with_claimed w ci = record w {
  char_claimed = update w.char_claimed ci true;
  char_in_transit = update w.char_in_transit ci true;
}

-- A claim takes a character that nobody has.
pub claim_char-exact :
    (w : SharedWord) (floor : ℕ) (draw : ℕ → ℕ) (ci : ℕ)
    → (claim_char w floor draw).1 ≡ some ci
    → ((claim_char w floor draw).0 ≡ with_claimed w ci)
      × (ci < w.len)
      × (w.char_claimed ci ≡ false)
      × (w.char_delivered ci ≡ false)
      × (w.char_in_transit ci ≡ false)
unfolding claim_char
claim_char-exact w floor draw ci e =
    elim (Bool-cases (w.admitted && not w.completed && w.arrival_floor == floor)) [
      | inl q ↦ elim (Option-cases (claim_from w draw w.len 0)) [
        | inl p ↦ absurd (ground arith)
        | inr (i, p) ↦ ground (arith, claim_from-free w draw w.len 0 i (omega arith) p)
      ]
      | inr q ↦ absurd (ground arith)
    ]

pub with_claimed-InOrder :
    (w : SharedWord) (ci : ℕ)
    → InOrder w
    → ci < w.len
    → w.char_delivered ci ≡ false
    → InOrder (with_claimed w ci)
with_claimed-InOrder w ci v lt new = record {
  sound = record {
    known = v.sound.known;
    inside = v.sound.inside;
    distinct = v.sound.distinct;
    settled = v.sound.settled;
    tracked = v.sound.tracked;
  };
  inside = λ j t. ground (arith, v.inside j);
  taken = λ j t. ground (arith, v.taken j);
  kept = λ j d. ground (arith, v.kept j);
  held = λ j c. ground (arith, v.held j);
}

-- What a delivery does to the marks of every character.
pub deliver_char-marks :
    (w : SharedWord) (ci j : ℕ)
    → let (w', ok) = deliver_char w ci in
      (w'.len ≡ w.len)
      × (w'.char_in_transit j ≡ (if ci == j then false else w.char_in_transit j))
      × (w'.char_delivered j ≡ (if ci == j && ok then true else w.char_delivered j))
      × (w'.char_claimed j ≡ (if ci == j && not ok then false else w.char_claimed j))
unfolding deliver_char put_char settle_delivery
deliver_char-marks w ci j = elim (place_cases w ci) [
  | inl (e, p) ↦ rw (p, deliver_char) (ground arith)
  | inr (i, e, p) ↦ rw (p, deliver_char) (ground arith)
]

pub deliver_char-InOrder :
    (w : SharedWord) (ci : ℕ)
    → InOrder w
    → w.char_in_transit ci ≡ true
    → InOrder (deliver_char w ci).0
deliver_char-InOrder w ci v t =
    let (_, new) = v.taken ci t in
    let (s, d, n, c) = deliver_char-IsSound w ci v.sound (v.inside ci t) new in
    record {
      sound = s;
      inside = λ j p. ground (arith, deliver_char-marks w ci j, v.inside j);
      taken = λ j p. ground (arith, deliver_char-marks w ci j, v.taken j);
      kept = λ j p. ground (arith, deliver_char-marks w ci j, v.kept j, v.taken ci);
      held = λ j p. ground (arith, deliver_char-marks w ci j, v.held j);
    }

sort_from-SameWord : (n : ℕ) (w : SharedWord) (i : ℕ) → SameWord w (sort_from w n i).0
unfolding sort_from
sort_from-SameWord zero w i = ground arith
sort_from-SameWord (suc n) w i =
    ground (arith, sort_slot-SameWord w i, sort_from-SameWord n (sort_slot w i).0 (suc i))

pub sort_pass-SameWord : (w : SharedWord) → SameWord w (sort_pass w).0
unfolding sort_pass
sort_pass-SameWord w = sort_from-SameWord w.len w 0

pub SameWord-InOrder : {w w' : SharedWord} → InOrder w → SameWord w w' → IsSound w' → InOrder w'
SameWord-InOrder v e s = record {
  sound = s;
  inside = rw (e.in_transit, e.len) v.inside;
  taken = rw (e.in_transit, e.claimed, e.delivered) v.taken;
  kept = rw (e.claimed, e.delivered) v.kept;
  held = rw (e.in_transit, e.claimed, e.delivered) v.held;
}

pub new_word-InOrder : (id : ℕ) (word : Str) (sf : ℕ) → InOrder (new_word id word sf)
new_word-InOrder id word sf = record {
  sound = new_word-IsSound id word sf;
  inside = λ ci t. cc;
  taken = λ ci t. cc;
  kept = λ ci t. cc;
  held = λ ci t. cc;
}

-- Two words that differ only in what their admission changes.
pub record SameArea (w w' : SharedWord) : Type 0 where
  pub len : w'.len ≡ w.len
  pub text : w'.text ≡ w.text
  pub area : w'.sorting_area ≡ w.sorting_area
  pub meta : w'.sorting_meta ≡ w.sorting_meta
  pub occupied : w'.occupied ≡ w.occupied
  pub fixed : w'.fixed ≡ w.fixed
  pub delivered : w'.char_delivered ≡ w.char_delivered
  pub claimed : w'.char_claimed ≡ w.char_claimed
  pub in_transit : w'.char_in_transit ≡ w.char_in_transit

pub SameArea-InOrder : {w w' : SharedWord} → SameArea w w' → InOrder w → InOrder w'
SameArea-InOrder e v =
    SameWord-InOrder v
      (record {
        len = e.len;
        text = e.text;
        delivered = e.delivered;
        claimed = e.claimed;
        in_transit = e.in_transit;
      })
      (record {
        known = rw (e.len, e.occupied, e.meta) v.sound.known;
        inside = rw (e.len, e.occupied, e.meta, e.area, e.text) v.sound.inside;
        distinct = rw (e.len, e.occupied, e.meta) v.sound.distinct;
        settled = rw (e.len, e.fixed, e.occupied, e.meta) v.sound.settled;
        tracked = rw (e.len, e.occupied, e.meta, e.delivered) v.sound.tracked;
      })
