-- ===== src/Logs/Top/Best.antt =====
-- The sources that HW4 reports are those with the most hits, and the hits are counted right.
use mathlib.Core.List.{Perm}
use mathlib.Core.List.Perm
use mathlib.Core.Path.{subst}
use system_programming_homew.Prelude.{
  ℕ, zero, suc, ◌+◌, ◌≤◌, ◌<◌, ◌≡◌, refl, ap, sym, true, false, ltb, ◌⊎◌, inl, inr, if◌then◌else◌,
  List, [], ◌∷◌, ◌++◌, Str, str_eq, str_eq_refl, str_eq→eq, length, take, All, arith, Bool-cases,
}
use system_programming_homew.Logs.Top.{
  max_sources, Source, is_known, bump, update_source_hits, Top, no_source, no_top, take_place,
  top_from, compute_top3,
}

abbrev pub places_of : Top → List Source → List Source
places_of t rest = t.first ∷ t.second ∷ t.third ∷ rest

abbrev pub IsRanked : Top → Type 0
IsRanked t = (t.second.hits ≤ t.first.hits) × (t.third.hits ≤ t.second.hits)

-- The source that a new one pushes out, or the new one.
abbrev pushed_out : Top → Source → Source
pushed_out t s = if ltb t.third.hits s.hits then t.third else s

take_place-exact :
    (t : Top) (s : Source)
    → IsRanked t
    → IsRanked (take_place t s)
      × (t.third.hits ≤ (take_place t s).third.hits)
      × ((pushed_out t s).hits ≤ (take_place t s).third.hits)
unfolding take_place
take_place-exact t s r = ground arith

move_third : (a b c d : Source) (l : List Source) → Perm (a ∷ b ∷ c ∷ d ∷ l) (d ∷ a ∷ b ∷ c ∷ l)
move_third a b c d l =
    Perm.trans (Perm.cons a (Perm.cons b (Perm.swap d c l)))
      (Perm.trans (Perm.cons a (Perm.swap d b (c ∷ l))) (Perm.swap d a (b ∷ c ∷ l)))

place_case :
    (t : Top) (s : Source) (l : List Source) (x : Source) (t' : Top)
    → pushed_out t s ≡ x
    → take_place t s ≡ t'
    → Perm (places_of t (s ∷ l)) (x ∷ places_of t' l)
    → Perm (places_of t (s ∷ l)) (pushed_out t s ∷ places_of (take_place t s) l)
place_case t s l x t' e d h =
    subst (λ y. Perm (places_of t (s ∷ l)) (y ∷ places_of (take_place t s) l)) (sym e)
      (subst (λ u. Perm (places_of t (s ∷ l)) (x ∷ places_of u l)) (sym d) h)

take_place-perm :
    (t : Top) (s : Source) (l : List Source)
    → IsRanked t
    → Perm (places_of t (s ∷ l)) (pushed_out t s ∷ places_of (take_place t s) l)
unfolding take_place
take_place-perm t s l r =
    let a = t.first in
    let b = t.second in
    let c = t.third in
    elim (Bool-cases (ltb a.hits s.hits)) [
      | inl q ↦
          place_case t s l c (record { first = s; second = a; third = b }) (ground arith)
            (rw q refl) (Perm.trans (move_third a b c s l) (move_third s a b c l))
      | inr q ↦ elim (Bool-cases (ltb b.hits s.hits)) [
        | inl q' ↦
            place_case t s l c (record { first = a; second = s; third = b }) (ground arith)
              (rw (q, q') refl)
              (Perm.trans
                (Perm.cons a (Perm.trans (Perm.cons b (Perm.swap s c l)) (Perm.swap s b (c ∷ l))))
                (move_third a s b c l))
        | inr q' ↦ elim (Bool-cases (ltb c.hits s.hits)) [
          | inl q'' ↦
              place_case t s l c (record { first = a; second = b; third = s }) (ground arith)
                (rw (q, q', q'') refl)
                (Perm.trans (Perm.cons a (Perm.cons b (Perm.swap s c l))) (move_third a b s c l))
          | inr q'' ↦
              place_case t s l s t (ground arith) (rw (q, q', q'') refl) (move_third a b c s l)
        ]
      ]
    ]

record Ranked (t t' : Top) (sources : List Source) : Type 0 where
  rest : List Source
  ranked : IsRanked t'
  grown : t.third.hits ≤ t'.third.hits
  below : All (λ s. s.hits ≤ t'.third.hits) rest
  same : Perm (places_of t sources) (places_of t' rest)

top_from-Ranked :
    (t : Top) (sources : List Source) → IsRanked t → Ranked t (top_from t sources) sources
unfolding top_from
top_from-Ranked t [] r = record {
  rest = [];
  ranked = r;
  grown = omega arith;
  below = tt;
  same = Perm.refl _;
}
top_from-Ranked t (s ∷ sources) r =
    let (r', grown, out) = take_place-exact t s r in
    let k = top_from-Ranked (take_place t s) sources r' in
    let y = pushed_out t s in
    let t' = top_from (take_place t s) sources in
    record {
      rest = y ∷ k.rest;
      ranked = k.ranked;
      grown = omega (arith, k.grown);
      below = (omega (arith, k.grown), k.below);
      same = Perm.trans (take_place-perm t s sources r) (
          Perm.trans (Perm.cons y k.same)
            (Perm.symm (move_third t'.first t'.second t'.third y k.rest)));
    }

-- The three sources reported, with the others, are all the sources (and three empty places). They
-- are in falling order of their hits, and no other source has more hits than the third.
pub compute_top3-best :
    (sources : List Source)
    → let t = compute_top3 sources in
      IsRanked t
      × ((rest : List Source) × Perm
            (no_source ∷ no_source ∷ no_source ∷ sources)
            (t.first ∷ t.second ∷ t.third ∷ rest)
          × All (λ s. s.hits ≤ t.third.hits) rest)
unfolding compute_top3
compute_top3-best sources =
    let k = top_from-Ranked no_top sources (omega arith) in (k.ranked, (k.rest, k.same, k.below))

-- The hits recorded for a name: 0 where it is not in the table.
abbrev pub hits_of : List Source → Str → ℕ
hits_of [] n = 0
hits_of (s ∷ rest) n = if str_eq s.name n then s.hits else hits_of rest n

hits_of-bump :
    (sources : List Source) (source n : Str) (hits : ℕ)
    → is_known sources source ≡ true
    → hits_of (bump sources source hits) n
      ≡ (if str_eq source n then hits_of sources n + hits else hits_of sources n)
unfolding is_known bump
hits_of-bump [] source n hits h = cc
hits_of-bump (s ∷ rest) source n hits h = elim (Bool-cases (str_eq s.name source)) [
  | inl e ↦ ground (arith, str_eq→eq s.name source e)
  | inr e ↦ ground (
    arith,
    hits_of-bump rest source n hits,
    str_eq→eq s.name n,
    str_eq→eq source n,
    str_eq_refl n,
  )
]

hits_of-unknown :
    (sources : List Source) (source : Str)
    → is_known sources source ≡ false
    → hits_of sources source ≡ 0
unfolding is_known
hits_of-unknown [] source h = refl
hits_of-unknown (s ∷ rest) source h = ground (arith, hits_of-unknown rest source)

take-all : (n : ℕ) (s : Str) → length s ≤ n → take n s ≡ s
take-all zero [] h = refl
take-all zero (c ∷ s) h = absurd (omega arith)
take-all (suc n) [] h = refl
take-all (suc n) (c ∷ s) h = ap (◌∷◌ c) (take-all n s (omega arith))

hits_of-append :
    (sources : List Source) (source n : Str) (hits : ℕ)
    → is_known sources source ≡ false
    → hits_of (sources ++ record { hits = hits; name = source } ∷ []) n
      ≡ (if str_eq source n then hits_of sources n + hits else hits_of sources n)
unfolding is_known
hits_of-append [] source n hits h = ground arith
hits_of-append (s ∷ rest) source n hits h = ground (
  arith,
  hits_of-append rest source n hits,
  hits_of-unknown rest source,
  str_eq→eq s.name n,
  str_eq→eq source n,
  str_eq_refl n,
)

-- A name of at most 63 bytes that is in the table, or for which the table has room, gets the hits
-- added; every other name keeps its hits. Without room for a new name the table stays as it is.
pub update_source_hits-adds :
    (sources : List Source) (source n : Str) (hits : ℕ)
    → length source ≤ 63
    → ((hits_of (update_source_hits sources source hits) n
          ≡ (if str_eq source n then hits_of sources n + hits else hits_of sources n))
        × (is_known sources source ≡ true ⊎ length sources < max_sources))
      ⊎ ((update_source_hits sources source hits ≡ sources)
          × (is_known sources source ≡ false)
          × (max_sources ≤ length sources))
unfolding update_source_hits
update_source_hits-adds sources source n hits short = elim (Bool-cases (is_known sources source)) [
  | inl k ↦ inl (rw k (hits_of-bump sources source n hits k), inl k)
  | inr k ↦ elim (Bool-cases (ltb (length sources) max_sources)) [
    | inl r ↦ inl (
      rw (k, r, take-all 63 source short) (hits_of-append sources source n hits k),
      inr (ground arith),
    )
    | inr r ↦ inr (rw (k, r) refl, k, ground arith)
  ]
]
