-- ===== src/Search/Workers/Walks.antt =====
-- What the walks of HW2 find.
use mathlib.Core.Path.{subst}
use system_programming_homew.Prelude.{
  ℕ, zero, suc, ◌+◌, ◌<◌, ◌≤◌, ◌≡◌, inl, inr, refl, sym, ap, ◌∙◌, Bool, true, false, not, ◌||◌, ltb,
  List, [], ◌∷◌, ◌++◌, Str, length, map, arith, Bool-cases, ℕ_discrete,
}
use mathlib.Core.List.{append_assoc, append-nil}
use system_programming_homew.Search.Tree.{
  Stat, Node, unreadable, present, Listing, ended, entry, is_dir, is_reg, is_dots, join, Found,
  entries_below, entries_at, select,
}
use system_programming_homew.Search.Workers.{
  Options, Match, path_room, is_wanted, Worker, unless_stopped, add_match, search_entries,
  search_entry, search_dir, Subdir, run_worker,
}

-- Of the entries found, the matches.
abbrev pub found_match : Found → Match
found_match f = record { path = f.path; size = f.stat.size }

abbrev pub wanted : Options → List Found → List Match
wanted o es = map found_match (select (λ f. is_wanted o f.name f.stat) es)

-- The paths that fit the buffer.
abbrev pub fits : Str → Bool
fits path = ltb (length path) path_room

-- How many tests of the flag a walk makes.
unfoldable mutual
  pub tests_below : Listing → ℕ
  tests_below ended = 0
  tests_below (entry name node rest) = suc (tests_at node + tests_below rest)

  pub tests_at : Node → ℕ
  tests_at unreadable = 0
  tests_at (present stat sub) = suc (tests_below sub)

-- A directory is no regular file.
pub dir_lem : (mode : ℕ) → is_dir mode ≡ true → is_reg mode ≡ false
dir_lem mode h = ground arith

pub dir-unwanted :
    (o : Options) (name : Str) (stat : Stat)
    → is_dir stat.mode ≡ true
    → is_wanted o name stat ≡ false
unfolding is_wanted
dir-unwanted o name stat h = rw (dir_lem stat.mode h) refl

pub wanted-append :
    (o : Options) (xs ys : List Found) → wanted o (xs ++ ys) ≡ wanted o xs ++ wanted o ys
wanted-append o [] ys = refl
wanted-append o (x ∷ xs) ys = ground (arith, wanted-append o xs ys)

-- From `w`, a walk that makes at most `cost` tests and would find `full` ends in `r`.
pub record Outcome (w : Worker) (full : List Match) (cost : ℕ) (r : Worker) : Type 0 where
  pub spent : w.left ≤ r.left + cost
  pub no_more : r.left ≤ w.left
  pub whole : 1 ≤ r.left → r.matches ≡ w.matches ++ full
  pub front : (rest : List Match) × (r.matches ++ rest ≡ w.matches ++ full)

Outcome-same : (w : Worker) → Outcome w [] 0 w
Outcome-same w = record {
  spent = omega arith;
  no_more = omega arith;
  whole = λ h. sym (append-nil w.matches);
  front = ([], refl);
}

Outcome-trans :
    {w r t : Worker} {a b : List Match} {m n : ℕ}
    → Outcome w a m r
    → Outcome r b n t
    → (r.left ≡ 0 → t.matches ≡ r.matches)
    → Outcome w (a ++ b) (m + n) t
Outcome-trans {w} {r} {t} {a} {b} {m} {n} p q stopped =
    let (pr, pe) = p.front in
    let (qr, qe) = q.front in
    record {
      spent = omega (arith, p.spent, q.spent);
      no_more = omega (arith, p.no_more, q.no_more);
      whole = λ h.
          q.whole h
          ∙ ap (λ l. l ++ b) (p.whole (omega (arith, q.no_more)))
          ∙ append_assoc w.matches a b;
      front = elim (ℕ_discrete r.left 0) [
        | yes none_left ↦ (
          pr ++ b,
          ap (λ l. l ++ (pr ++ b)) (stopped none_left)
              ∙ sym (append_assoc r.matches pr b)
              ∙ ap (λ l. l ++ b) pe
              ∙ append_assoc w.matches a b,
        )
        | no some_left ↦
            (qr, qe ∙ ap (λ l. l ++ b) (p.whole (omega arith)) ∙ append_assoc w.matches a b)
      ];
    }

tested-Outcome :
    (go : Worker → Worker) (full : List Match) (cost n : ℕ) (ms : List Match)
    → ((v : Worker) → Outcome v full cost (go v))
    → Outcome
        (record { left = n; matches = ms })
        full
        (suc cost)
        (unless_stopped go (record { left = n; matches = ms }))
tested-Outcome go full cost zero ms h = record {
  spent = omega arith;
  no_more = omega arith;
  whole = λ g. absurd (omega arith);
  front = (full, refl);
}
tested-Outcome go full cost (suc n) ms h =
    let p = h (record { left = n; matches = ms }) in
    record {
      spent = omega (arith, p.spent);
      no_more = omega (arith, p.no_more);
      whole = p.whole;
      front = p.front;
    }

unless_stopped-Outcome :
    (go : Worker → Worker) (full : List Match) (cost : ℕ)
    → ((v : Worker) → Outcome v full cost (go v))
    → (w : Worker) → Outcome w full (suc cost) (unless_stopped go w)
unless_stopped-Outcome go full cost h w = tested-Outcome go full cost w.left w.matches h

add_match-Outcome :
    (path : Str) (stat : Stat) (w : Worker)
    → Outcome w (record { path = path; size = stat.size } ∷ []) 0 (add_match path stat w)
add_match-Outcome path stat w = record {
  spent = omega arith;
  no_more = omega arith;
  whole = λ h. refl;
  front = ([], append-nil _);
}

unless_stopped-none :
    (go : Worker → Worker) (w : Worker) → w.left ≡ 0 → (unless_stopped go w).matches ≡ w.matches
unless_stopped-none go w h = rw h refl

search_entries-none :
    (o : Options) (path : Str) (listing : Listing) (w : Worker)
    → w.left ≡ 0
    → (search_entries o path listing w).matches ≡ w.matches
unfolding search_entries
search_entries-none o path ended w h = refl
search_entries-none o path (entry name node rest) w h =
    unless_stopped-none
      (λ v. search_entries o path rest (search_entry o (join path name) name node v)) w h

-- A directory's cost is there whether it is entered or not.
Outcome-dearer :
    {w r : Worker} {full : List Match} {m : ℕ} (n : ℕ)
    → m ≤ n
    → Outcome w full m r
    → Outcome w full n r
Outcome-dearer n le p = record {
  spent = omega (arith, p.spent);
  no_more = p.no_more;
  whole = p.whole;
  front = p.front;
}

mutual
  unfolding search_entries entries_below tests_below

  search_entries-Outcome :
      (o : Options) (depth : ℕ) (path : Str) (listing : Listing) (w : Worker)
      → Outcome w
          (wanted o (entries_below fits depth path listing))
          (tests_below listing)
          (search_entries o path listing w)
  search_entries-Outcome o depth path ended w = Outcome-same w
  search_entries-Outcome o depth path (entry name node rest) w =
      subst
        (λ l.
          Outcome w l (tests_below (entry name node rest))
            (search_entries o path (entry name node rest) w))
        (sym (
          wanted-append o (entries_at fits depth (join path name) name node)
            (entries_below fits depth path rest)))
        (unless_stopped-Outcome _ _ _
          (λ v.
            Outcome-trans (search_entry-Outcome o depth (join path name) name node v)
              (search_entries-Outcome o depth path rest
                (search_entry o (join path name) name node v))
              (search_entries-none o path rest (search_entry o (join path name) name node v)))
          w)

  search_entry-Outcome :
      (o : Options) (depth : ℕ) (path name : Str) (node : Node) (w : Worker)
      → Outcome w
          (wanted o (entries_at fits depth path name node))
          (tests_at node)
          (search_entry o path name node w)
  search_entry-Outcome o depth path name unreadable w = Outcome-same w
  search_entry-Outcome o depth path name (present stat sub) w =
      elim (Bool-cases (is_dots name || not (ltb (length path) path_room))) [
        | inl skipped ↦ rw skipped (Outcome-dearer _ (omega arith) (Outcome-same w))
        | inr kept ↦ elim (Bool-cases (is_dir stat.mode)) [
          | inl dir ↦
              rw (kept, dir, dir-unwanted o name stat dir)
                (unless_stopped-Outcome _ _ _ (search_entries-Outcome o (suc depth) path sub) w)
          | inr file ↦ elim (Bool-cases (is_wanted o name stat)) [
            | inl yes_wanted ↦
                rw (kept, file, yes_wanted)
                  (Outcome-dearer _ (omega arith) (add_match-Outcome path stat w))
            | inr unwanted ↦
                rw (kept, file, unwanted) (Outcome-dearer _ (omega arith) (Outcome-same w))
          ]
        ]
      ]

-- The matches in the directories of a worker, and the tests that it makes at most.
abbrev pub wanted_in : Options → List Subdir → List Match
wanted_in o [] = []
wanted_in o (d ∷ dirs) = wanted o (entries_below fits 2 d.path d.listing) ++ wanted_in o dirs

abbrev pub tests_in : List Subdir → ℕ
tests_in [] = 0
tests_in (d ∷ dirs) = suc (suc (tests_below d.listing) + tests_in dirs)

run_worker-none :
    (o : Options) (dirs : List Subdir) (w : Worker)
    → w.left ≡ 0
    → (run_worker o dirs w).matches ≡ w.matches
unfolding run_worker
run_worker-none o [] w h = refl
run_worker-none o (d ∷ dirs) w h =
    unless_stopped-none (λ v. run_worker o dirs (search_dir o d.path d.listing v)) w h

run_worker-Outcome :
    (o : Options) (dirs : List Subdir) (w : Worker)
    → Outcome w (wanted_in o dirs) (tests_in dirs) (run_worker o dirs w)
unfolding run_worker search_dir
run_worker-Outcome o [] w = Outcome-same w
run_worker-Outcome o (d ∷ dirs) w =
    unless_stopped-Outcome (λ v. run_worker o dirs (search_dir o d.path d.listing v))
      (wanted_in o (d ∷ dirs)) _
      (λ v.
        Outcome-trans
          (unless_stopped-Outcome (search_entries o d.path d.listing)
            (wanted o (entries_below fits 2 d.path d.listing)) (tests_below d.listing)
            (search_entries-Outcome o 2 d.path d.listing) v)
          (run_worker-Outcome o dirs (search_dir o d.path d.listing v))
          (run_worker-none o dirs (search_dir o d.path d.listing v)))
      w

-- Whenever SIGTERM comes, what a worker has found is a front part of the matches in its directories;
-- when it comes late enough, or never, the worker has found them all.
pub run_worker-exact :
    (o : Options) (dirs : List Subdir) (w : Worker)
    → ((rest : List Match) × ((run_worker o dirs w).matches ++ rest
          ≡ w.matches ++ wanted_in o dirs))
      × (tests_in dirs < w.left → (run_worker o dirs w).matches ≡ w.matches ++ wanted_in o dirs)
run_worker-exact o dirs w =
    let p = run_worker-Outcome o dirs w in (p.front, λ h. p.whole (omega (arith, p.spent)))
