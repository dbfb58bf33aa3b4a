-- ===== src/Search/Pattern/Matching.antt =====
-- What a pattern of HW1 and HW2 means, and which names the two matchers accept.
use system_programming_homew.Prelude.{
  ℕ, zero, suc, ◌≡◌, ◌≢◌, refl, ap, Bool, true, false, ◌&&◌, ◌==◌, ◌⊎◌, ◌↔◌, inl, inr, some, List,
  [], ◌∷◌, ◌++◌, Str, get_elem?, All, arith, Bool-cases, ℕ_discrete, sym, ◌∙◌,
}
use system_programming_homew.Search.Pattern.{
  same_letter, backtrack, repeated, single, is_end, match_rec, stem_of, segments, match_any,
  match_pattern, skip_run, greedy, match_filename,
}

abbrev pub IsRun : ℕ → Str → Type 0
IsRun p = All (λ c. same_letter p c ≡ true)

-- The names that a pattern describes: `p+` stands for a run of at least one `p`, and any other byte
-- for itself, in either case.
abbrev pub Matches : Str → Str → Type 0
Matches [] s = s ≡ []
Matches (p ∷ []) s = (c : ℕ) × (same_letter p c ≡ true) × (s ≡ c ∷ [])
Matches (p ∷ q ∷ pat) s =
    ((q ≡ b'+')
      × ((c : ℕ) × (r : Str) × (t : Str) × (same_letter p c ≡ true)
          × IsRun p r
          × (s ≡ c ∷ (r ++ t))
          × Matches pat t))
    ⊎ ((q ≢ b'+')
        × ((c : ℕ) × (t : Str) × (same_letter p c ≡ true) × (s ≡ c ∷ t) × Matches (q ∷ pat) t))

backtrack_sound :
    (rest : Str → Bool) (p : ℕ) (s : Str)
    → backtrack rest p s ≡ true
    → (r : Str) × (t : Str) × IsRun p r × (s ≡ r ++ t) × (rest t ≡ true)
unfolding backtrack
backtrack_sound rest p [] h = ([], [], tt, refl, h)
backtrack_sound rest p (c ∷ s) h = elim (Bool-cases (same_letter p c && backtrack rest p s)) [
  | inl e ↦
      let (r, t, run, q, m) = backtrack_sound rest p s (ground arith) in
      (c ∷ r, t, (ground arith, run), ap (◌∷◌ c) q, m)
  | inr e ↦ ([], c ∷ s, tt, refl, ground arith)
]

backtrack-here : (rest : Str → Bool) (p : ℕ) (t : Str) → rest t ≡ true → backtrack rest p t ≡ true
unfolding backtrack
backtrack-here rest p [] h = h
backtrack-here rest p (c ∷ t) h = ground arith

backtrack_complete :
    (rest : Str → Bool) (p : ℕ) (r t : Str)
    → IsRun p r
    → rest t ≡ true
    → backtrack rest p (r ++ t) ≡ true
unfolding backtrack
backtrack_complete rest p [] t run h = backtrack-here rest p t h
backtrack_complete rest p (c ∷ r) t (same, run) h =
    ground (arith, backtrack_complete rest p r t run h)

is_end-eq : (s : Str) → is_end s ≡ true → s ≡ []
is_end-eq [] h = refl
is_end-eq (c ∷ s) h = cc

repeated_sound :
    (rest : Str → Bool) (p : ℕ) (s : Str)
    → repeated rest p s ≡ true
    → (c : ℕ) × (r : Str) × (t : Str) × (same_letter p c ≡ true)
      × IsRun p r
      × (s ≡ c ∷ (r ++ t))
      × (rest t ≡ true)
unfolding repeated
repeated_sound rest p [] h = cc
repeated_sound rest p (c ∷ s) h =
    let (r, t, run, q, m) = backtrack_sound rest p s (ground arith) in
    (c, r, t, ground arith, run, ap (◌∷◌ c) q, m)

single_sound :
    (rest : Str → Bool) (p : ℕ) (s : Str)
    → single rest p s ≡ true
    → (c : ℕ) × (t : Str) × (same_letter p c ≡ true) × (s ≡ c ∷ t) × (rest t ≡ true)
unfolding single
single_sound rest p [] h = cc
single_sound rest p (c ∷ s) h = (c, s, ground arith, refl, ground arith)

match-plus :
    (p q : ℕ) (pat s : Str) → q ≡ b'+' → match_rec (p ∷ q ∷ pat) s ≡ repeated (match_rec pat) p s
unfolding match_rec
match-plus p q pat s e = rw e refl

match-literal :
    (p q : ℕ) (pat s : Str)
    → q ≢ b'+'
    → match_rec (p ∷ q ∷ pat) s ≡ single (match_rec (q ∷ pat)) p s
unfolding match_rec
match-literal p q pat s ne = let e : (q == b'+') ≡ false = ground arith in rw e refl

match_rec_sound : (pat s : Str) → match_rec pat s ≡ true → Matches pat s
unfolding match_rec single
match_rec_sound [] s h = is_end-eq s h
match_rec_sound (p ∷ []) [] h = cc
match_rec_sound (p ∷ []) (c ∷ s) h =
    let e = is_end-eq s (ground arith) in (c, ground arith, ap (◌∷◌ c) e)
match_rec_sound (p ∷ q ∷ pat) s h = elim (ℕ_discrete q b'+') [
  | yes e ↦
      let (c, r, t, same, run, split, m) =
        repeated_sound (match_rec pat) p s (sym (match-plus p q pat s e) ∙ h) in
      inl (e, (c, r, t, same, run, split, match_rec_sound pat t m))
  | no ne ↦
      let (c, t, same, split, m) =
        single_sound (match_rec (q ∷ pat)) p s (sym (match-literal p q pat s ne) ∙ h) in
      inr (ne, (c, t, same, split, match_rec_sound (q ∷ pat) t m))
]

match_rec_complete : (pat s : Str) → Matches pat s → match_rec pat s ≡ true
unfolding match_rec repeated single
match_rec_complete [] s h = rw h refl
match_rec_complete (p ∷ []) s (c, same, e) = rw (e, same) refl
match_rec_complete (p ∷ q ∷ pat) s (inl (plus, (c, r, t, same, run, e, m))) =
    match-plus p q pat s plus
    ∙ ap (repeated (match_rec pat) p) e
    ∙ ground
        (arith, same, backtrack_complete (match_rec pat) p r t run (match_rec_complete pat t m))
match_rec_complete (p ∷ q ∷ pat) s (inr (literal, (c, t, same, e, m))) =
    match-literal p q pat s literal
    ∙ ap (single (match_rec (q ∷ pat)) p) e
    ∙ ground (arith, same, match_rec_complete (q ∷ pat) t m)

-- The matcher of HW2 accepts a name exactly when the pattern describes it: its retries miss nothing.
pub match_rec_iff : (pat s : Str) → (match_rec pat s ≡ true) ↔ Matches pat s
match_rec_iff pat s = (match_rec_sound pat s, match_rec_complete pat s)

match_any_iff :
    (pat : Str) (found : List Str)
    → (match_any pat found ≡ true)
      ↔ ((i : ℕ) × (t : Str) × (get_elem? found i ≡ some t) × Matches pat t)
unfolding match_any
match_any_iff pat found = (finds found, λ (i, t, at, m). found_at found i t at m)
  where
    finds :
        (l : List Str)
        → match_any pat l ≡ true
        → (i : ℕ) × (t : Str) × (get_elem? l i ≡ some t) × Matches pat t
    finds [] h = cc
    finds (t ∷ l) h = elim (Bool-cases (match_rec pat t)) [
      | inl e ↦ (0, t, refl, match_rec_sound pat t e)
      | inr e ↦ let (i, u, at, m) = finds l (ground arith) in (suc i, u, at, m)
    ]

    found_at :
        (l : List Str) (i : ℕ) (t : Str)
        → get_elem? l i ≡ some t
        → Matches pat t
        → match_any pat l ≡ true
    found_at [] i t at m = cc
    found_at (u ∷ l) zero t at m =
        let same : u ≡ t = cc in ground (arith, match_rec_complete pat t m)
    found_at (u ∷ l) (suc i) t at m = ground (arith, found_at l i t at m)

-- match_pattern accepts a file name exactly when the pattern describes its whole name, the part before the first dot,
-- or a run of letters and digits in that part.
pub match_pattern_iff :
    (pat filename : Str)
    → (match_pattern pat filename ≡ true) ↔ (
        Matches pat filename
        ⊎ (Matches pat (stem_of filename)
            ⊎ ((i : ℕ) × (t : Str) × (get_elem? (segments (stem_of filename)) i ≡ some t)
                × Matches pat t)))
unfolding match_pattern
match_pattern_iff pat filename =
    let stem = stem_of filename in
    let runs = match_any_iff pat (segments stem) in
    (
      λ h. elim (Bool-cases (match_rec pat filename)) [
        | inl e ↦ inl (match_rec_sound pat filename e)
        | inr e ↦ elim (Bool-cases (match_rec pat stem)) [
          | inl e' ↦ inr (inl (match_rec_sound pat stem e'))
          | inr e' ↦ inr (inr (runs.0 (ground arith)))
        ]
      ],
      λ h. elim h [
        | inl m ↦ ground (arith, match_rec_complete pat filename m)
        | inr k ↦ elim k [
          | inl m ↦ ground (arith, match_rec_complete pat stem m)
          | inr f ↦ let e = runs.1 f in ground arith
        ]
      ],
    )

skip_run-split : (p : ℕ) (s : Str) → (r : Str) × IsRun p r × (s ≡ r ++ skip_run p s)
unfolding skip_run
skip_run-split p [] = ([], tt, refl)
skip_run-split p (c ∷ s) = elim (Bool-cases (same_letter p c)) [
  | inl e ↦ let (r, run, q) = skip_run-split p s in (c ∷ r, (e, run), rw e (ap (◌∷◌ c) q))
  | inr e ↦ ([], tt, rw e refl)
]

-- HW1 accepts only names that the pattern describes.
pub match_filename_sound : (pat s : Str) → match_filename pat s ≡ true → Matches pat s
unfolding match_filename greedy single
match_filename_sound [] s h = is_end-eq s h
match_filename_sound (p ∷ []) [] h = cc
match_filename_sound (p ∷ []) (c ∷ s) h =
    let e = is_end-eq s (ground arith) in (c, ground arith, ap (◌∷◌ c) e)
match_filename_sound (p ∷ q ∷ pat) [] h = absurd (ground arith)
match_filename_sound (p ∷ q ∷ pat) (c ∷ s) h = elim (ℕ_discrete q b'+') [
  | yes e ↦
      let (r, run, split) = skip_run-split p s in
      inl (
        e,
        (
          c,
          r,
          skip_run p s,
          ground arith,
          run,
          ap (◌∷◌ c) split,
          match_filename_sound pat (skip_run p s) (ground arith),
        ),
      )
  | no ne ↦ inr (ne, (c, s, ground arith, refl, match_filename_sound (q ∷ pat) s (ground arith)))
]
