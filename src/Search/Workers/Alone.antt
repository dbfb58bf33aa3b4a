-- ===== src/Search/Workers/Alone.antt =====
-- What HW2's parent finds when it searches and counts by itself.
use mathlib.Core.List.{append_assoc, append-nil}
use system_programming_homew.Prelude.{
  ℕ, zero, suc, ◌+◌, ◌≤◌, ◌≡◌, inl, inr, refl, sym, ap, ◌∙◌, Bool, true, ltb, ltb→lt, if◌then◌else◌,
  List, [], ◌∷◌, ◌++◌, Str, length, take, arith, Bool-cases, length-append, length-take,
}
use system_programming_homew.Search.Tree.{
  Node, unreadable, present, Listing, ended, entry, is_dir, is_reg, is_dots, join, Found,
  entries_below, entries_at, select,
}
use system_programming_homew.Search.Workers.{
  Options, Match, max_matches, is_wanted, collect_matches, collect_entry, count_total_files,
  count_entry,
}
use system_programming_homew.Search.Workers.Walks.{wanted, wanted-append, dir_lem, dir-unwanted}

-- Every path fits.
abbrev pub any_path : Str → Bool
any_path path = true

module _ {ℓ} {A : Type ℓ} where
  take-take_append : (n : ℕ) (xs ys : List A) → take n (take n xs ++ ys) ≡ take n (xs ++ ys)
  take-take_append zero xs ys = refl
  take-take_append (suc n) [] ys = refl
  take-take_append (suc n) (x ∷ xs) ys = ap (λ l. x ∷ l) (take-take_append n xs ys)

  pub take-all : (n : ℕ) (xs : List A) → length xs ≤ n → take n xs ≡ xs
  take-all zero [] h = refl
  take-all zero (x ∷ xs) h = absurd (omega arith)
  take-all (suc n) [] h = refl
  take-all (suc n) (x ∷ xs) h = ap (λ l. x ∷ l) (take-all n xs (omega arith))

  take-full : (n : ℕ) (xs ys : List A) → length xs ≡ n → take n (xs ++ ys) ≡ xs
  take-full zero [] ys h = refl
  take-full zero (x ∷ xs) ys h = absurd (omega arith)
  take-full (suc n) [] ys h = absurd (omega arith)
  take-full (suc n) (x ∷ xs) ys h = ap (λ l. x ∷ l) (take-full n xs ys (omega arith))

  take-nothing_more : (n : ℕ) (xs : List A) → length xs ≤ n → xs ≡ take n (xs ++ [])
  take-nothing_more n xs h = rw (append-nil xs) (sym (take-all n xs h))

  -- An element is added while fewer than `n` are there.
  capped-take :
      (n : ℕ) (xs : List A) (x : A)
      → length xs ≤ n
      → (if ltb (length xs) n then xs ++ x ∷ [] else xs) ≡ take n (xs ++ x ∷ [])
  capped-take n xs x h = elim (Bool-cases (ltb (length xs) n)) [
    | inl room ↦ rw room (
        sym (
          take-all n (xs ++ x ∷ [])
            (omega (arith, length-append xs (x ∷ []), ltb→lt (length xs) n room))))
    | inr full ↦ rw full (sym (take-full n xs (x ∷ []) (ground arith)))
  ]

mutual
  unfolding collect_matches entries_below

  collect_matches-take :
      (o : Options) (depth : ℕ) (path : Str) (listing : Listing) (ms : List Match)
      → length ms ≤ max_matches
      → collect_matches o path listing ms
        ≡ take max_matches (ms ++ wanted o (entries_below any_path depth path listing))
  collect_matches-take o depth path ended ms h = take-nothing_more max_matches ms h
  collect_matches-take o depth path (entry name node rest) ms h =
      let here = entries_at any_path depth (join path name) name node in
      let later = entries_below any_path depth path rest in
      let p = collect_entry-take o depth (join path name) name node ms h in
      collect_matches-take o depth path rest (collect_entry o (join path name) name node ms)
        (omega (arith, ap length p, length-take max_matches (ms ++ wanted o here)))
      ∙ ap (λ l. take max_matches (l ++ wanted o later)) p
      ∙ take-take_append max_matches (ms ++ wanted o here) (wanted o later)
      ∙ ap (take max_matches) (
          append_assoc ms (wanted o here) (wanted o later)
          ∙ ap (λ l. ms ++ l) (sym (wanted-append o here later)))

  collect_entry-take :
      (o : Options) (depth : ℕ) (path name : Str) (node : Node) (ms : List Match)
      → length ms ≤ max_matches
      → collect_entry o path name node ms
        ≡ take max_matches (ms ++ wanted o (entries_at any_path depth path name node))
  collect_entry-take o depth path name unreadable ms h = take-nothing_more max_matches ms h
  collect_entry-take o depth path name (present stat sub) ms h = elim (Bool-cases (is_dots name)) [
    | inl dots ↦ rw dots (take-nothing_more max_matches ms h)
    | inr plain ↦ elim (Bool-cases (is_dir stat.mode)) [
      | inl dir ↦
          rw (plain, dir, dir-unwanted o name stat dir)
            (collect_matches-take o (suc depth) path sub ms h)
      | inr file ↦ elim (Bool-cases (is_wanted o name stat)) [
        | inl yes_wanted ↦
            rw (plain, file, yes_wanted)
              (capped-take max_matches ms (record { path = path; size = stat.size }) h)
        | inr unwanted ↦ rw (plain, file, unwanted) (take-nothing_more max_matches ms h)
      ]
    ]
  ]

-- The regular files among the entries found.
abbrev pub regular_files : List Found → List Found
regular_files es = select (λ f. is_reg f.stat.mode) es

regular_files-append :
    (xs ys : List Found)
    → length (regular_files (xs ++ ys)) ≡ length (regular_files xs) + length (regular_files ys)
regular_files-append [] ys = omega arith
regular_files-append (x ∷ xs) ys = ground (arith, regular_files-append xs ys)

mutual
  unfolding count_total_files entries_below

  pub count_total_files-exact :
      (depth : ℕ) (path : Str) (listing : Listing)
      → count_total_files listing
        ≡ length (regular_files (entries_below any_path depth path listing))
  count_total_files-exact depth path ended = refl
  count_total_files-exact depth path (entry name node rest) = omega (
    arith,
    count_entry-exact depth (join path name) name node,
    count_total_files-exact depth path rest,
    regular_files-append (entries_at any_path depth (join path name) name node)
        (entries_below any_path depth path rest),
  )

  count_entry-exact :
      (depth : ℕ) (path name : Str) (node : Node)
      → count_entry name node ≡ length (regular_files (entries_at any_path depth path name node))
  count_entry-exact depth path name unreadable = refl
  count_entry-exact depth path name (present stat sub) = elim (Bool-cases (is_dots name)) [
    | inl dots ↦ rw dots refl
    | inr plain ↦ elim (Bool-cases (is_dir stat.mode)) [
      | inl dir ↦
          rw (plain, dir, dir_lem stat.mode dir) (count_total_files-exact (suc depth) path sub)
      | inr file ↦ rw (plain, file) (ground arith)
    ]
  ]

-- The parent's own search finds the matches below the root, up to MAX_MATCHES of them, and its count is
-- the number of the regular files below the root.
pub alone-exact :
    (o : Options) (root : Str) (listing : Listing)
    → (collect_matches o root listing []
        ≡ take max_matches (wanted o (entries_below any_path 1 root listing)))
      × (count_total_files listing ≡ length (regular_files (entries_below any_path 1 root listing)))
alone-exact o root listing =
    (collect_matches-take o 1 root listing [] (omega arith), count_total_files-exact 1 root listing)
