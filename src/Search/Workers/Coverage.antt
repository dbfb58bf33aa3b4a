-- ===== src/Search/Workers/Coverage.antt =====
-- What HW2's workers find together.
use mathlib.Core.Path.{subst}
use mathlib.Core.Logic.{∥∥₁_elim}
use native.Mathlib.Nat.{ℕ_set}
use mathlib.Core.List.Permᴰ
use mathlib.Core.List.{Perm, Permᴰ, append_assoc, append-nil}
use mathlib.Core.List.Perm
use system_programming_homew.Prelude.{
  ℕ, zero, suc, ◌+◌, ◌<◌, ◌≤◌, ◌≡◌, inl, inr, refl, sym, ap, ◌∙◌, false, not, ◌&&◌, ◌||◌, ◌==◌,
  if◌then◌else◌, List, [], ◌∷◌, ◌++◌, length, Str, map, take, arith, Bool-cases, length-append,
}
use system_programming_homew.Search.Tree.{
  Node, unreadable, present, Listing, ended, entry, is_dir, is_dots, join, Found, entries_below,
  entries_at, select,
}
use system_programming_homew.Search.Workers.{
  Options, Match, Subdir, run_worker, find_subdirs, divide, max_subdirs,
}
use system_programming_homew.Search.Workers.Walks.{
  wanted, wanted-append, wanted_in, tests_in, tests_below, fits, dir-unwanted, run_worker-exact,
}
use system_programming_homew.Search.Workers.Alone.{take-all}
use system_programming_homew.Search.Workers.Division.{flatten, divide-exact}

-- All directories in the root.
abbrev pub subdirs_at : Str → Str → Node → List Subdir
subdirs_at path name unreadable = []
subdirs_at path name (present stat sub) =
    if not (is_dots name) && is_dir stat.mode
    then record { path = path; listing = sub } ∷ []
    else []

abbrev pub all_subdirs : Str → Listing → List Subdir
all_subdirs root ended = []
all_subdirs root (entry name node rest) =
    subdirs_at (join root name) name node ++ all_subdirs root rest

find_subdirs-take :
    (room : ℕ) (root : Str) (listing : Listing)
    → find_subdirs room root listing ≡ take room (all_subdirs root listing)
unfolding find_subdirs
find_subdirs-take zero root ended = refl
find_subdirs-take (suc room) root ended = refl
find_subdirs-take zero root (entry name node rest) = refl
find_subdirs-take (suc room) root (entry name unreadable rest) =
    find_subdirs-take (suc room) root rest
find_subdirs-take (suc room) root (entry name (present stat sub) rest) =
    elim (Bool-cases (not (is_dots name) && is_dir stat.mode)) [
      | inl dir ↦ rw (dir, find_subdirs-take room root rest) refl
      | inr other ↦ rw (other, find_subdirs-take (suc room) root rest) refl
    ]

-- The entries of the root itself.
abbrev pub direct : List Found → List Found
direct es = select (λ f. f.depth == 1) es

direct-append : (xs ys : List Found) → direct (xs ++ ys) ≡ direct xs ++ direct ys
direct-append [] ys = refl
direct-append (x ∷ xs) ys = ground (arith, direct-append xs ys)

-- Below a directory nothing is in the root.
mutual
  unfolding entries_below

  nothing_direct :
      (depth : ℕ) (path : Str) (listing : Listing)
      → 1 < depth
      → direct (entries_below fits depth path listing) ≡ []
  nothing_direct depth path ended h = refl
  nothing_direct depth path (entry name node rest) h =
      direct-append (entries_at fits depth (join path name) name node)
        (entries_below fits depth path rest)
      ∙ ap (λ l. l ++ direct (entries_below fits depth path rest))
          (nothing_direct_at depth (join path name) name node h)
      ∙ nothing_direct depth path rest h

  nothing_direct_at :
      (depth : ℕ) (path name : Str) (node : Node)
      → 1 < depth
      → direct (entries_at fits depth path name node) ≡ []
  nothing_direct_at depth path name unreadable h = refl
  nothing_direct_at depth path name (present stat sub) h =
      elim (Bool-cases (is_dots name || not (fits path))) [
        | inl skipped ↦ rw skipped refl
        | inr kept ↦ elim (Bool-cases (is_dir stat.mode)) [
          | inl dir ↦
              rw (kept, dir) (ground (arith, nothing_direct (suc depth) path sub (omega arith)))
          | inr file ↦ rw (kept, file) (ground arith)
        ]
      ]

longer-misfit : (path name : Str) → fits path ≡ false → fits (join path name) ≡ false
longer-misfit path name h = ground (arith, length-append path (b'/' ∷ name))

-- Below a path that does not fit nothing is found.
nothing_fits :
    (depth : ℕ) (path : Str) (listing : Listing)
    → fits path ≡ false
    → entries_below fits depth path listing ≡ []
unfolding entries_below
nothing_fits depth path ended h = refl
nothing_fits depth path (entry name unreadable rest) h = nothing_fits depth path rest h
nothing_fits depth path (entry name (present stat sub) rest) h = elim (Bool-cases (is_dots name)) [
  | inl dots ↦ rw dots (nothing_fits depth path rest h)
  | inr plain ↦ rw (plain, longer-misfit path name h) (nothing_fits depth path rest h)
]

-- The matches in one entry of the root: those of a worker, and those of the root itself.
root_entry-split :
    (o : Options) (path name : Str) (node : Node)
    → wanted_in o (subdirs_at path name node)
        ++ wanted o (direct (entries_at fits 1 path name node))
      ≡ wanted o (entries_at fits 1 path name node)
unfolding entries_below
root_entry-split o path name unreadable = refl
root_entry-split o path name (present stat sub) = elim (Bool-cases (is_dots name)) [
  | inl dots ↦ rw dots refl
  | inr plain ↦ elim (Bool-cases (is_dir stat.mode)) [
    | inl dir ↦ elim (Bool-cases (fits path)) [
      | inl short ↦
          rw
            (
              plain,
              dir,
              short,
              dir-unwanted o name stat dir,
              nothing_direct 2 path sub (omega arith),
            )
            (append-nil (wanted o (entries_below fits 2 path sub) ++ [])
              ∙ append-nil (wanted o (entries_below fits 2 path sub)))
      | inr long ↦ rw (plain, dir, long, nothing_fits 2 path sub long) refl
    ]
    | inr file ↦ elim (Bool-cases (fits path)) [
      | inl short ↦ rw (plain, file, short) refl
      | inr long ↦ rw (plain, file, long) refl
    ]
  ]
]

wanted_in-append :
    (o : Options) (xs ys : List Subdir) → wanted_in o (xs ++ ys) ≡ wanted_in o xs ++ wanted_in o ys
wanted_in-append o [] ys = refl
wanted_in-append o (x ∷ xs) ys =
    ap (λ l. wanted o (entries_below fits 2 x.path x.listing) ++ l) (wanted_in-append o xs ys)
    ∙ sym (
        append_assoc (wanted o (entries_below fits 2 x.path x.listing)) (wanted_in o xs)
          (wanted_in o ys))

interchange :
    {A : Type 0} (ws xs ys zs : List A) → Perm ((ws ++ xs) ++ (ys ++ zs)) ((ws ++ ys) ++ (xs ++ zs))
interchange ws xs ys zs =
    rw
      (
        append_assoc ws xs (ys ++ zs),
        append_assoc ws ys (xs ++ zs),
        sym (append_assoc xs ys zs),
        sym (append_assoc ys xs zs),
      )
      (Perm.append_left ws (Perm.append_right zs ∣ Permᴰ.append_comm xs ys ∣₁))

-- Each match below the root is in one of its directories or in the root itself.
root-split :
    (o : Options) (root : Str) (listing : Listing)
    → Perm
        (wanted_in o (all_subdirs root listing)
          ++ wanted o (direct (entries_below fits 1 root listing)))
        (wanted o (entries_below fits 1 root listing))
unfolding entries_below
root-split o root ended = Perm.refl []
root-split o root (entry name node rest) =
    let path = join root name in
    let here = entries_at fits 1 path name node in
    let later = entries_below fits 1 root rest in
    subst (λ l. Perm l (wanted o (here ++ later)))
      (ap (λ l. l ++ (wanted o (direct here) ++ wanted o (direct later)))
          (sym (wanted_in-append o (subdirs_at path name node) (all_subdirs root rest)))
        ∙ ap (λ l. wanted_in o (all_subdirs root (entry name node rest)) ++ l)
            (sym (
              ap (wanted o) (direct-append here later)
              ∙ wanted-append o (direct here) (direct later))))
      (subst
        (Perm (
          (wanted_in o (subdirs_at path name node) ++ wanted_in o (all_subdirs root rest))
          ++ (wanted o (direct here) ++ wanted o (direct later))))
        (sym (wanted-append o here later))
        (Perm.trans
          (interchange (wanted_in o (subdirs_at path name node))
            (wanted_in o (all_subdirs root rest)) (wanted o (direct here))
            (wanted o (direct later)))
          (subst (λ l. Perm l (wanted o here ++ wanted o later))
            (ap (λ l. l ++ (wanted_in o (all_subdirs root rest) ++ wanted o (direct later)))
              (sym (root_entry-split o path name node)))
            (Perm.append_left (wanted o here) (root-split o root rest)))))

tests_in-append : (xs ys : List Subdir) → tests_in (xs ++ ys) ≡ tests_in xs + tests_in ys
tests_in-append [] ys = omega arith
tests_in-append (x ∷ xs) ys = omega (arith, tests_in-append xs ys)

-- The workers, each with its directories, and what they write in their files.
abbrev pub run_workers : Options → ℕ → List (List Subdir) → List (List Match)
run_workers o left wdirs =
    map (λ dirs. (run_worker o dirs (record { left = left; matches = [] })).matches) wdirs

run_workers-all :
    (o : Options) (left : ℕ) (wdirs : List (List Subdir))
    → tests_in (flatten wdirs) < left
    → flatten (run_workers o left wdirs) ≡ wanted_in o (flatten wdirs)
run_workers-all o left [] h = refl
run_workers-all o left (dirs ∷ wdirs) h =
    let p = tests_in-append dirs (flatten wdirs) in
    let (front, all) = run_worker-exact o dirs (record { left = left; matches = [] }) in
    ap (λ l. l ++ flatten (run_workers o left wdirs)) (all (omega arith))
    ∙ ap (λ l. wanted_in o dirs ++ l) (run_workers-all o left wdirs (omega arith))
    ∙ sym (wanted_in-append o dirs (flatten wdirs))

tests_in-rearranged : {xs ys : List Subdir} → Permᴰ xs ys → tests_in xs ≡ tests_in ys
tests_in-rearranged Permᴰ.nil = refl
tests_in-rearranged (Permᴰ.cons e p) =
    omega (arith, ap (λ d. tests_below d.listing) e, tests_in-rearranged p)
tests_in-rearranged (Permᴰ.swap e f) =
    omega (arith, ap (λ d. tests_below d.listing) e, ap (λ d. tests_below d.listing) f)
tests_in-rearranged (Permᴰ.trans p q) = tests_in-rearranged p ∙ tests_in-rearranged q

swapped : {A : Type 0} (xs ys zs : List A) → Perm (xs ++ (ys ++ zs)) (ys ++ (xs ++ zs))
swapped xs ys zs =
    rw (sym (append_assoc xs ys zs), sym (append_assoc ys xs zs))
      (Perm.append_right zs ∣ Permᴰ.append_comm xs ys ∣₁)

wanted_in-rearranged :
    (o : Options) {xs ys : List Subdir} → Permᴰ xs ys → Perm (wanted_in o xs) (wanted_in o ys)
wanted_in-rearranged o Permᴰ.nil = Perm.refl []
wanted_in-rearranged o (Permᴰ.cons {a} {b} {l₁} {l₂} e p) =
    subst (λ d. Perm (wanted_in o (a ∷ l₁)) (wanted_in o (d ∷ l₂))) e
      (Perm.append_left (wanted o (entries_below fits 2 a.path a.listing))
        (wanted_in-rearranged o p))
wanted_in-rearranged o (Permᴰ.swap {a} {b} {a'} {b'} {l} e f) =
    subst (λ d. Perm (wanted_in o (a ∷ b ∷ l)) (wanted_in o (d ∷ b' ∷ l))) f
      (subst (λ d. Perm (wanted_in o (a ∷ b ∷ l)) (wanted_in o (b ∷ d ∷ l))) e
        (swapped (wanted o (entries_below fits 2 a.path a.listing))
          (wanted o (entries_below fits 2 b.path b.listing)) (wanted_in o l)))
wanted_in-rearranged o (Permᴰ.trans p q) =
    Perm.trans (wanted_in-rearranged o p) (wanted_in-rearranged o q)

-- With a worker or more, at most MAX_SUBDIRS directories in the root, and no SIGTERM before the workers
-- are done, they find together, each once, the matches below the root but for those in the root itself.
pub workers_cover :
    (o : Options) (num_workers : ℕ) (root : Str) (listing : Listing) (left : ℕ)
    → 1 ≤ num_workers
    → length (all_subdirs root listing) ≤ max_subdirs
    → tests_in (all_subdirs root listing) < left
    → Perm
        (flatten (run_workers o left (divide num_workers (find_subdirs max_subdirs root listing)))
          ++ wanted o (direct (entries_below fits 1 root listing)))
        (wanted o (entries_below fits 1 root listing))
workers_cover o num_workers root listing left h few late =
    let all = all_subdirs root listing in
    let found : find_subdirs max_subdirs root listing ≡ all =
      find_subdirs-take max_subdirs root listing ∙ take-all max_subdirs all few in
    let p = (divide-exact num_workers all h).0 in
    let same : tests_in (flatten (divide num_workers all)) ≡ tests_in all =
      ∥∥₁_elim p (ℕ_set _ _) tests_in-rearranged in
    subst
      (λ ds.
        Perm
          (flatten (run_workers o left (divide num_workers ds))
            ++ wanted o (direct (entries_below fits 1 root listing)))
          (wanted o (entries_below fits 1 root listing)))
      (sym found)
      (Perm.trans
        (Perm.append_right (wanted o (direct (entries_below fits 1 root listing))) (
          subst (λ l. Perm l (wanted_in o all))
            (sym (run_workers-all o left (divide num_workers all) (omega arith)))
            (∥∥₁_elim p (hlevel) (wanted_in-rearranged o))))
        (root-split o root listing))
