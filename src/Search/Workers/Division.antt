-- ===== src/Search/Workers/Division.antt =====
-- How HW2's parent divides the subdirectories among the workers.
use mathlib.Core.Path.{subst}
use mathlib.Core.List.{Perm, perm_middle, append_assoc, append-nil}
use mathlib.Core.List.Perm
use native.Mathlib.Nat.{mod-lt, suc-mod, mod_self, zero-mod, mod-eq_of_lt}
use system_programming_homew.Prelude.{
  ℕ, zero, suc, ◌%◌, ◌<◌, ◌≤◌, ◌≡◌, refl, sym, ap, ◌∙◌, ltb, if◌then◌else◌, List, [], ◌∷◌, ◌++◌,
  length, set, get_or, replicate, arith, length-append, length-set, length-replicate, ℕ_discrete,
}
use system_programming_homew.Search.Workers.{Subdir, deal, divide, workers_used}

abbrev pub flatten {ℓ} : {A : Type ℓ} → List (List A) → List A
flatten [] = []
flatten (xs ∷ xss) = xs ++ flatten xss

flatten-set {ℓ} :
    {A : Type ℓ} (xss : List (List A)) (w : ℕ) (a : A)
    → w < length xss
    → Perm (flatten (set xss w (get_or xss w [] ++ a ∷ []))) (a ∷ flatten xss)
flatten-set [] w a h = absurd (omega arith)
flatten-set (xs ∷ xss) zero a h =
    subst (λ l. Perm l (a ∷ xs ++ flatten xss)) (sym (append_assoc xs (a ∷ []) (flatten xss)))
      (perm_middle xs (flatten xss))
flatten-set (xs ∷ xss) (suc w) a h =
    Perm.trans (Perm.append_left xs (flatten-set xss w a (omega arith)))
      (perm_middle xs (flatten xss))

flatten-replicate {ℓ} : {A : Type ℓ} (n : ℕ) → flatten {A = A} (replicate n []) ≡ []
flatten-replicate zero = refl
flatten-replicate {A = A} (suc n) = flatten-replicate {A = A} n

deal-perm :
    (n i : ℕ) (ds : List Subdir) (wdirs : List (List Subdir))
    → 1 ≤ n
    → length wdirs ≡ n
    → Perm (flatten (deal n i ds wdirs)) (ds ++ flatten wdirs)
unfolding deal
deal-perm n i [] wdirs h e = Perm.refl (flatten wdirs)
deal-perm n i (d ∷ ds) wdirs h e =
    let w = i % n in
    let next = set wdirs w (get_or wdirs w [] ++ d ∷ []) in
    Perm.trans (deal-perm n (suc i) ds next h (length-set wdirs w _ ∙ e)) (
      Perm.trans (Perm.append_left ds (flatten-set wdirs w d (omega (arith, mod-lt i h, e))))
        (perm_middle ds (flatten wdirs)))

-- Of the `n` workers those before `r` have `q + 1` subdirectories, and the others `q`.
record Fair (n q r : ℕ) (wdirs : List (List Subdir)) : Type 0 where
  share : (k : ℕ) → k < n → length (get_or wdirs k []) ≡ (if ltb k r then suc q else q)

get_or-set_self {ℓ} :
    {A : Type ℓ} (xs : List A) (i : ℕ) (v d : A) → i < length xs → get_or (set xs i v) i d ≡ v
get_or-set_self [] i v d h = absurd (omega arith)
get_or-set_self (x ∷ xs) zero v d h = refl
get_or-set_self (x ∷ xs) (suc i) v d h = get_or-set_self xs i v d (omega arith)

get_or-set_ne {ℓ} :
    {A : Type ℓ} (xs : List A) (i j : ℕ) (v d : A)
    → (i ≡ j → ⊥)
    → get_or (set xs i v) j d ≡ get_or xs j d
get_or-set_ne [] i j v d h = refl
get_or-set_ne (x ∷ xs) zero zero v d h = absurd (h refl)
get_or-set_ne (x ∷ xs) zero (suc j) v d h = refl
get_or-set_ne (x ∷ xs) (suc i) zero v d h = refl
get_or-set_ne (x ∷ xs) (suc i) (suc j) v d h = get_or-set_ne xs i j v d (λ e. h (ap suc e))

-- One more subdirectory for the worker whose turn it is.
Fair-set :
    {n q r : ℕ} {wdirs : List (List Subdir)} (d : Subdir)
    → Fair n q r wdirs
    → r < n
    → length wdirs ≡ n
    → Fair n q (suc r) (set wdirs r (get_or wdirs r [] ++ d ∷ []))
Fair-set {n} {q} {r} {wdirs} d f lt e = record {
  share = λ k kn. elim (ℕ_discrete r k) [
    | yes same ↦ ground (
      arith,
      ap (λ j. length (get_or (set wdirs r (get_or wdirs r [] ++ d ∷ [])) j [])) (sym same),
      ap length (get_or-set_self wdirs r (get_or wdirs r [] ++ d ∷ []) [] (omega arith)),
      length-append (get_or wdirs r []) (d ∷ []),
      f.share r lt,
    )
    | no other ↦ ground (
      arith,
      ap length (get_or-set_ne wdirs r k (get_or wdirs r [] ++ d ∷ []) [] other),
      f.share k kn,
    )
  ];
}

Fair-round : {n q : ℕ} {wdirs : List (List Subdir)} → Fair n q n wdirs → Fair n (suc q) 0 wdirs
Fair-round f = record { share = λ k kn. ground (arith, f.share k kn) }

deal-Fair :
    (n i q : ℕ) (ds : List Subdir) (wdirs : List (List Subdir))
    → 1 ≤ n
    → length wdirs ≡ n
    → Fair n q (i % n) wdirs
    → (p : ℕ) × (r : ℕ) × Fair n p r (deal n i ds wdirs)
unfolding deal
deal-Fair n i q [] wdirs h e f = (q, i % n, f)
deal-Fair n i q (d ∷ ds) wdirs h e f =
    let next = set wdirs (i % n) (get_or wdirs (i % n) [] ++ d ∷ []) in
    let size : length next ≡ n = length-set wdirs (i % n) _ ∙ e in
    let g : Fair n q (suc (i % n)) next = Fair-set d f (mod-lt i h) e in
    elim (ℕ_discrete (suc (i % n)) n) [
      | yes round ↦ deal-Fair n (suc i) (suc q) ds next h size (
          subst (λ r. Fair n (suc q) r next)
            (sym (suc-mod i n ∙ ap (λ m. m % n) round ∙ mod_self n))
            (Fair-round (subst (λ r. Fair n q r next) round g)))
      | no within ↦ deal-Fair n (suc i) q ds next h size (
          subst (λ r. Fair n q r next)
            (sym (suc-mod i n ∙ mod-eq_of_lt (omega (arith, mod-lt i h)))) g)
    ]

workers_used-positive :
    (num_workers m : ℕ) → 1 ≤ num_workers → 1 ≤ m → 1 ≤ workers_used num_workers m
workers_used-positive num_workers m h g = ground arith

none_yet : (n k : ℕ) → length (get_or (replicate {A = List Subdir} n []) k []) ≡ 0
none_yet zero k = refl
none_yet (suc n) zero = refl
none_yet (suc n) (suc k) = none_yet n k

-- With a worker or more, every subdirectory is given to exactly one of the workers used, and the shares of
-- two of them differ by one at most.
pub divide-exact :
    (num_workers : ℕ) (subdirs : List Subdir)
    → 1 ≤ num_workers
    → Perm (flatten (divide num_workers subdirs)) subdirs
      × ((k l : ℕ)
          → k < workers_used num_workers (length subdirs)
          → l < workers_used num_workers (length subdirs)
          → length (get_or (divide num_workers subdirs) k [])
            ≤ suc (length (get_or (divide num_workers subdirs) l [])))
unfolding divide
divide-exact num_workers [] h = (
  subst (λ l. Perm l []) (sym (flatten-replicate (workers_used num_workers 0))) (Perm.refl []),
  λ k l kn ln. absurd (ground arith),
)
divide-exact num_workers (d ∷ ds) h =
    let n = workers_used num_workers (length (d ∷ ds)) in
    let some_used : 1 ≤ n = workers_used-positive num_workers (length (d ∷ ds)) h (omega arith) in
    let (p, r, f) =
      deal-Fair n 0 0 (d ∷ ds) (replicate n []) some_used (length-replicate n [])
        (record { share = λ k kn. ground (arith, none_yet n k, zero-mod n) }) in
    (
      subst (Perm (flatten (deal n 0 (d ∷ ds) (replicate n []))))
          (ap (λ l. (d ∷ ds) ++ l) (flatten-replicate n) ∙ append-nil (d ∷ ds))
          (deal-perm n 0 (d ∷ ds) (replicate n []) some_used (length-replicate n [])),
      λ k l kn ln. ground (arith, f.share k kn, f.share l ln),
    )
