-- ===== src/Floors/Requests/Batches.antt =====
-- Lemmas on the loops over the request tables: what waits, what a batch takes, and its order.
use mathlib.Core.List.{Perm, perm_middle}
use mathlib.Core.List.Perm
use mathlib.Core.Path.{subst}
use system_programming_homew.Prelude.{
  ℕ, zero, suc, ◌+◌, ◌≤◌, ◌≡◌, refl, sym, ap, Bool, true, false, ◌&&◌, ltb, if◌then◌else◌, none,
  some, List, [], ◌∷◌, ◌++◌, set, get_elem?, length, All, arith, Bool-cases, ◌⊎◌, inl, inr,
}
use system_programming_homew.Floors.Requests.{
  Request, on_the_way, first_in_pass, release, gather, overtakes, settle, exchange_sort,
}

module _ {X : Type 0} where
  -- The requests that wait for an elevator.
  abbrev pub waiting : List (Request X) → List (Request X)
  waiting [] = []
  waiting (r ∷ rs) = if r.used then r ∷ waiting rs else waiting rs

  pub first_in_pass-exact :
      (upward : Bool) (here : ℕ) (rs : List (Request X)) (i : ℕ)
      → ((first_in_pass upward here rs i ≡ none)
          × All (λ r. r.used && on_the_way upward here r ≡ false) rs)
        ⊎ ((k : ℕ) × (r : Request X) × (first_in_pass upward here rs i ≡ some (i + k))
            × (get_elem? rs k ≡ some r)
            × (r.used ≡ true)
            × (on_the_way upward here r ≡ true))
  unfolding first_in_pass
  first_in_pass-exact upward here [] i = inl (refl, tt)
  first_in_pass-exact upward here (r ∷ rs) i =
      elim (Bool-cases (r.used && on_the_way upward here r)) [
        | inl e ↦ inr (0, r, ground arith, refl, ground arith, ground arith)
        | inr e ↦ elim (first_in_pass-exact upward here rs (suc i)) [
          | inl (p, a) ↦ inl (ground arith, (e, a))
          | inr (k, r', p, g, u, w) ↦ inr (suc k, r', ground arith, g, u, w)
        ]
      ]

  pub waiting-used :
      (r : Request X) (rs : List (Request X)) → r.used ≡ true → waiting (r ∷ rs) ≡ r ∷ waiting rs
  waiting-used r rs u = ap (λ b. if b then r ∷ waiting rs else waiting rs) u

  pub also_first :
      (b : Bool) (a r : Request X) {l l' : List (Request X)}
      → Perm l (r ∷ l')
      → Perm (if b then a ∷ l else l) (r ∷ (if b then a ∷ l' else l'))
  also_first true a r p = Perm.trans (Perm.cons a p) (Perm.swap r a _)
  also_first false a r p = p

  also_middle :
      (b : Bool) (a : Request X) (l m : List (Request X)) {n : List (Request X)}
      → Perm n (l ++ m)
      → Perm (if b then a ∷ n else n) (l ++ (if b then a ∷ m else m))
  also_middle true a l m p = Perm.trans (Perm.cons a p) (Perm.symm (perm_middle l m))
  also_middle false a l m p = p

  -- What is taken out of the table at one index.
  pub waiting-release :
      (rs : List (Request X)) (k : ℕ) (r : Request X)
      → get_elem? rs k ≡ some r
      → r.used ≡ true
      → Perm (waiting rs) (r ∷ waiting (set rs k (release r)))
  unfolding release
  waiting-release [] k r g u = cc
  waiting-release (a ∷ rs) zero r g u =
      let same : a ≡ r = cc in rw (same, waiting-used r rs u) (Perm.refl _)
  waiting-release (a ∷ rs) (suc k) r g u = also_first a.used a r (waiting-release rs k r g u)

  pub gather-perm :
      (joins : Request X → Bool) (limit count : ℕ) (rs : List (Request X))
      → let (batch, rest) = gather joins limit count rs in Perm (waiting rs) (batch ++ waiting rest)
  unfolding gather release
  gather-perm joins limit count [] = Perm.refl _
  gather-perm joins limit count (r ∷ rs) =
      elim (Bool-cases (ltb count limit && (r.used && joins r))) [
        | inl t ↦
            rw (gather, t, waiting-used r rs (ground arith))
              (Perm.cons r (gather-perm joins limit (suc count) rs))
        | inr t ↦
            let (batch, rest) = gather joins limit count rs in
            rw (gather, t)
              (also_middle r.used r batch (waiting rest) (gather-perm joins limit count rs))
      ]

  pub gather-joins :
      (joins : Request X → Bool) (limit count : ℕ) (rs : List (Request X))
      → let (batch, rest) = gather joins limit count rs in
        All (λ r. (r.used ≡ true) × (joins r ≡ true)) batch × (length rest ≡ length rs)
  unfolding gather
  gather-joins joins limit count [] = (tt, refl)
  gather-joins joins limit count (r ∷ rs) =
      elim (Bool-cases (ltb count limit && (r.used && joins r))) [
        | inl t ↦
            let (a, l) = gather-joins joins limit (suc count) rs in
            rw (gather, t) (((ground arith, ground arith), a), ap suc l)
        | inr t ↦ let (a, l) = gather-joins joins limit count rs in rw (gather, t) (a, ap suc l)
      ]

  pub gather-fits :
      (joins : Request X → Bool) (limit count : ℕ) (rs : List (Request X))
      → count ≤ limit
      → count + length (gather joins limit count rs).0 ≤ limit
  unfolding gather
  gather-fits joins limit count [] h = omega arith
  gather-fits joins limit count (r ∷ rs) h =
      ground (arith, gather-fits joins limit count rs, gather-fits joins limit (suc count) rs)

  -- The request `b` does not overtake `a`.
  abbrev pub Before : Bool → Request X → Request X → Type 0
  Before upward a b = overtakes upward b a ≡ false

  abbrev pub IsSorted : Bool → List (Request X) → Type 0
  IsSorted upward [] = Unit {0}
  IsSorted upward (a ∷ l) = All (Before upward a) l × IsSorted upward l

  Before-refl : (upward : Bool) (a : Request X) → Before upward a a
  unfolding overtakes
  Before-refl upward a = ground arith

  Before-trans :
      (upward : Bool) (a b c : Request X)
      → Before upward a b
      → Before upward b c
      → Before upward a c
  unfolding overtakes
  Before-trans upward a b c p q = ground arith

  Before-asym : (upward : Bool) (a b : Request X) → overtakes upward b a ≡ true → Before upward b a
  unfolding overtakes
  Before-asym upward a b p = ground arith

  -- One round of the inner loop: an equation for each outcome of its test.
  settle-swap :
      (upward : Bool) (a b : Request X) (l : List (Request X))
      → overtakes upward b a ≡ true
      → settle upward a (b ∷ l) ≡ ((settle upward b l).0, a ∷ (settle upward b l).1)
  unfolding settle
  settle-swap upward a b l e = rw (settle, e) refl

  settle-keep :
      (upward : Bool) (a b : Request X) (l : List (Request X))
      → overtakes upward b a ≡ false
      → settle upward a (b ∷ l) ≡ ((settle upward a l).0, b ∷ (settle upward a l).1)
  unfolding settle
  settle-keep upward a b l e = rw (settle, e) refl

  -- After a run of the inner loop the first place is right, with nothing lost.
  abbrev Settled : Bool → Request X → List (Request X) → Request X × List (Request X) → Type 0
  Settled upward a l (first, rest) =
      Perm (first ∷ rest) (a ∷ l)
      × Before upward first a
      × All (Before upward first) rest
      × (length rest ≡ length l)

  settle-Settled :
      (upward : Bool) (a : Request X) (l : List (Request X))
      → Settled upward a l (settle upward a l)
  unfolding settle
  settle-Settled upward a [] = (Perm.refl _, Before-refl upward a, tt, refl)
  settle-Settled upward a (b ∷ l) = elim (Bool-cases (overtakes upward b a)) [
    | inl e ↦
        let (p, f, s, n) = settle-Settled upward b l in
        let (first, rest) = settle upward b l in
        let f' = Before-trans upward first b a f (Before-asym upward a b e) in
        subst (Settled upward a (b ∷ l)) (sym (settle-swap upward a b l e))
          (Perm.trans (Perm.swap a first rest) (Perm.cons a p), f', (f', s), ap suc n)
    | inr e ↦
        let (p, f, s, n) = settle-Settled upward a l in
        let (first, rest) = settle upward a l in
        let f' = Before-trans upward first a b f e in
        subst (Settled upward a (b ∷ l)) (sym (settle-keep upward a b l e)) (
          Perm.trans (Perm.swap b first rest) (Perm.trans (Perm.cons b p) (Perm.swap a b l)),
          f,
          (f', s),
          ap suc n,
        )
  ]

  -- The sort only moves requests.
  settle-All :
      (P : Request X → Type 0) (upward : Bool) (a : Request X) (l : List (Request X))
      → P a
      → All P l
      → All P ((settle upward a l).0 ∷ (settle upward a l).1)
  unfolding settle
  settle-All P upward a [] h hs = (h, tt)
  settle-All P upward a (b ∷ l) h (hb, hs) = elim (Bool-cases (overtakes upward b a)) [
    | inl e ↦
        let (f, r) = settle-All P upward b l hb hs in
        subst (λ p. All P (p.0 ∷ p.1)) (sym (settle-swap upward a b l e)) (f, (h, r))
    | inr e ↦
        let (f, r) = settle-All P upward a l h hs in
        subst (λ p. All P (p.0 ∷ p.1)) (sym (settle-keep upward a b l e)) (f, (hb, r))
  ]

  pub exchange_sort-All :
      (P : Request X → Type 0) (upward : Bool) (n : ℕ) (l : List (Request X))
      → All P l
      → All P (exchange_sort upward n l)
  unfolding exchange_sort
  exchange_sort-All P upward zero l h = h
  exchange_sort-All P upward (suc n) [] h = tt
  exchange_sort-All P upward (suc n) (a ∷ l) (ha, h) =
      let (f, r) = settle-All P upward a l ha h in
      (f, exchange_sort-All P upward n (settle upward a l).1 r)

  -- With a round for every request the batch is sorted, and it holds the same requests.
  pub exchange_sort-exact :
      (upward : Bool) (n : ℕ) (l : List (Request X))
      → length l ≤ n
      → IsSorted upward (exchange_sort upward n l)
        × Perm (exchange_sort upward n l) l
        × (length (exchange_sort upward n l) ≡ length l)
  unfolding exchange_sort
  exchange_sort-exact upward zero [] h = (tt, Perm.refl _, refl)
  exchange_sort-exact upward zero (a ∷ l) h = absurd (omega arith)
  exchange_sort-exact upward (suc n) [] h = (tt, Perm.refl _, refl)
  exchange_sort-exact upward (suc n) (a ∷ l) h =
      let (p, f, s, m) = settle-Settled upward a l in
      let (first, rest) = settle upward a l in
      let (s', p', m') = exchange_sort-exact upward n rest (omega arith) in
      (
        (exchange_sort-All (Before upward first) upward n rest s, s'),
        Perm.trans (Perm.cons first p') p,
        omega arith,
      )
