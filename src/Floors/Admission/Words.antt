-- ===== src/Floors/Admission/Words.antt =====
-- What the steps of HW3's word carriers and sorters keep of the words' characters.
use system_programming_homew.Prelude.{
  ℕ, ◌≡◌, refl, ◌∙◌, Bool, true, false, inl, inr, arith, some, List, set, get_elem?,
  get_elem?-set_cases, get_elem?-set_self, lt-of-get_elem?, Bool-cases, length, ap,
}
use system_programming_homew.Floors.Word.{SharedWord, sort_pass, all_fixed}
use system_programming_homew.Floors.Word.Invariant.{sort_pass-IsSound}
use system_programming_homew.Floors.Word.Custody.{
  InOrder, SameArea, SameArea-InOrder, sort_pass-SameWord, SameWord-InOrder,
}
use system_programming_homew.Floors.Admission.{
  WordCarrier, SharedState, claim_word, reserve_floors, admit_or_release, complete_word,
  try_complete_word, sort_word, claim_at, with_word,
}
use system_programming_homew.Floors.Admission.Capacity.{claim_scan-open}

-- Each word is in order if it was, and has the same characters in transit.
abbrev pub Kept : List SharedWord → List SharedWord → Type 0
Kept ws ws' =
    (i : ℕ) (w' : SharedWord)
    → get_elem? ws' i ≡ some w'
    → (w : SharedWord) × (get_elem? ws i ≡ some w)
      × (w'.char_in_transit ≡ w.char_in_transit)
      × (InOrder w → InOrder w')

pub Kept-refl : (ws : List SharedWord) → Kept ws ws
Kept-refl ws i w g = (w, g, refl, λ v. v)

Kept-trans : (ws us vs : List SharedWord) → Kept ws us → Kept us vs → Kept ws vs
Kept-trans ws us vs f g i w h =
    let (u, gu, tu, ou) = g i w h in
    let (v, gv, tv, ov) = f i u gu in (v, gv, tu ∙ tv, λ p. ou (ov p))

set-Kept :
    (ws : List SharedWord) (i : ℕ) (w w' : SharedWord)
    → get_elem? ws i ≡ some w
    → w'.char_in_transit ≡ w.char_in_transit
    → (InOrder w → InOrder w')
    → Kept ws (set ws i w')
set-Kept ws i w w' g t f j u h = elim (get_elem?-set_cases ws i j w' u h) [
  | inl (e, q) ↦ (w, rw (← e) g, ap (λ x. x.char_in_transit) q ∙ t, λ p. rw q (f p))
  | inr (ne, q) ↦ (u, q, refl, λ p. p)
]

area-Kept :
    (ws : List SharedWord) (i : ℕ) (w w' : SharedWord)
    → get_elem? ws i ≡ some w
    → SameArea w w'
    → Kept ws (set ws i w')
area-Kept ws i w w' g e = set-Kept ws i w w' g e.in_transit (SameArea-InOrder e)

pub claim_word-Kept :
    (s : SharedState) (slot : ℕ) (c : WordCarrier) → Kept s.words (claim_word s slot c).words
unfolding claim_word claim_at
claim_word-Kept s slot c = elim (claim_scan-open s.words s.rr_cursor (length s.words) 0) [
  | inl e ↦ rw (e, claim_word) (Kept-refl s.words)
  | inr (i, w, e, g, u, a, d) ↦ rw (e, claim_word, g) (area-Kept s.words i w _ g (ground arith))
]

pub admit_or_release-Kept :
    (s : SharedState) (slot : ℕ) (c : WordCarrier) (i : ℕ) (w : SharedWord) (ok : Bool)
    → get_elem? s.words i ≡ some w
    → Kept s.words (admit_or_release s slot c i w ok).words
unfolding admit_or_release
admit_or_release-Kept s slot c i w true g = area-Kept s.words i w _ g (ground arith)
admit_or_release-Kept s slot c i w false g = area-Kept s.words i w _ g (ground arith)

try_complete_word-Kept :
    (s : SharedState) (i : ℕ) (w : SharedWord)
    → get_elem? s.words i ≡ some w
    → Kept s.words (try_complete_word s i w).0.words
unfolding try_complete_word complete_word
try_complete_word-Kept s i w g = elim (Bool-cases (all_fixed w)) [
  | inr e ↦ rw (try_complete_word, e) (Kept-refl s.words)
  | inl e ↦ elim (Bool-cases w.completed) [
    | inl d ↦ rw (try_complete_word, e, d) (Kept-refl s.words)
    | inr d ↦ rw (try_complete_word, e, d) (area-Kept s.words i w _ g (ground arith))
  ]
]

pub sort_word-Kept :
    (s : SharedState) (i : ℕ) (w : SharedWord)
    → get_elem? s.words i ≡ some w
    → Kept s.words (sort_word s i w).words
unfolding sort_word
sort_word-Kept s i w g =
    let w' = (sort_pass w).0 in
    let same = sort_pass-SameWord w in
    let t = record s { words = set s.words i w' } in
    Kept-trans s.words t.words (sort_word s i w).words
      (set-Kept s.words i w w' g same.in_transit
        (λ v. SameWord-InOrder v same (sort_pass-IsSound w v.sound)))
      (try_complete_word-Kept t i w'
        (get_elem?-set_self s.words i w' (lt-of-get_elem? s.words i w g)))

pub reserve_floors-words :
    (s : SharedState) (slot : ℕ) (c : WordCarrier) (i : ℕ) (w : SharedWord)
    → (reserve_floors s slot c i w).words ≡ s.words
unfolding reserve_floors
reserve_floors-words s slot c i w = refl

pub with_word-words :
    (s : SharedState) (i : ℕ) (w : SharedWord) → (with_word s i w).words ≡ set s.words i w
unfolding with_word
with_word-words s i w = refl
