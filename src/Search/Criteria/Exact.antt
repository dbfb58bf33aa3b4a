-- ===== src/Search/Criteria/Exact.antt =====
-- What the search of HW1 prints.
use mathlib.Core.List.{append_assoc, append-nil}
use system_programming_homew.Prelude.{
  ℕ, suc, ◌+◌, ◌≡◌, refl, sym, ap, ◌∙◌, Bool, not, ◌||◌, ltb, List, [], ◌∷◌, ◌++◌, Str, length, map,
  arith, Bool-cases, length-append, inl, inr,
}
use system_programming_homew.Search.Tree.{
  Stat, Node, unreadable, present, Listing, ended, entry, is_dir, is_dots, join, Found,
  entries_below, entries_at, select,
}
use system_programming_homew.Search.Criteria.{
  Criteria, check_criteria, print_result, Output, report, search, search_entry,
}

-- The paths that fit the buffer, the lines for the entries found, and the output with them.
abbrev pub fits : Str → Bool
fits path = ltb (length path) 1024

abbrev pub lines_of : Criteria → List Found → List Str
lines_of c es =
    map (λ f. print_result f.name f.depth) (select (λ f. check_criteria f.stat c f.name) es)

abbrev with_lines : Output → List Str → Output
with_lines out ls = record { found = out.found + length ls; printed = out.printed ++ ls }

lines_of-append :
    (c : Criteria) (xs ys : List Found) → lines_of c (xs ++ ys) ≡ lines_of c xs ++ lines_of c ys
lines_of-append c [] ys = refl
lines_of-append c (x ∷ xs) ys = ground (arith, lines_of-append c xs ys)

with_lines-nil : (out : Output) → with_lines out [] ≡ out
with_lines-nil out =
    let p : out.found + 0 ≡ out.found = omega arith in
    let q = append-nil out.printed in λ i. record { found = p i; printed = q i }

with_lines-append :
    (out : Output) (xs ys : List Str)
    → with_lines (with_lines out xs) ys ≡ with_lines out (xs ++ ys)
with_lines-append out xs ys =
    let p : (out.found + length xs) + length ys ≡ out.found + length (xs ++ ys) =
      omega (arith, length-append xs ys) in
    let q = append_assoc out.printed xs ys in λ i. record { found = p i; printed = q i }

report-lines :
    (st : Stat) (c : Criteria) (path name : Str) (depth : ℕ) (out : Output)
    → report st c name depth out
      ≡ with_lines out
          (lines_of c (record { path = path; name = name; depth = depth; stat = st } ∷ []))
unfolding report
report-lines st c path name depth out = elim (Bool-cases (check_criteria st c name)) [
  | inl e ↦ rw e refl
  | inr e ↦ rw e (sym (with_lines-nil out))
]

mutual
  unfolding search entries_below

  search-lines :
      (path : Str) (listing : Listing) (c : Criteria) (depth : ℕ) (out : Output)
      → search path listing c depth out
        ≡ with_lines out (lines_of c (entries_below fits depth path listing))
  search-lines path ended c depth out = sym (with_lines-nil out)
  search-lines path (entry name node rest) c depth out =
      let here = entries_at fits depth (join path name) name node in
      let later = entries_below fits depth path rest in
      search-lines path rest c depth (search_entry (join path name) name node c depth out)
      ∙ ap (λ o. with_lines o (lines_of c later))
          (search_entry-lines (join path name) name node c depth out)
      ∙ with_lines-append out (lines_of c here) (lines_of c later)
      ∙ ap (with_lines out) (sym (lines_of-append c here later))

  search_entry-lines :
      (path name : Str) (node : Node) (c : Criteria) (depth : ℕ) (out : Output)
      → search_entry path name node c depth out
        ≡ with_lines out (lines_of c (entries_at fits depth path name node))
  search_entry-lines path name unreadable c depth out = sym (with_lines-nil out)
  search_entry-lines path name (present st sub) c depth out =
      elim (Bool-cases (is_dots name || not (fits path))) [
        | inl skipped ↦ rw skipped (sym (with_lines-nil out))
        | inr kept ↦ elim (Bool-cases (is_dir st.mode)) [
          | inl dir ↦
              let itself : Found = record { path = path; name = name; depth = depth; stat = st } in
              let inside = entries_below fits (suc depth) path sub in
              rw (kept, dir)
                (search-lines path sub c (suc depth) (report st c name depth out)
                  ∙ ap (λ o. with_lines o (lines_of c inside))
                      (report-lines st c path name depth out)
                  ∙ with_lines-append out (lines_of c (itself ∷ [])) (lines_of c inside)
                  ∙ ap (with_lines out) (sym (lines_of-append c (itself ∷ []) inside)))
          | inr file ↦ rw (kept, file) (report-lines st c path name depth out)
        ]
      ]

-- The search prints a line for each entry below the directory that meets the criteria, in the order of
-- the walk, with the depth of the entry, and no other; its count is the number of the lines.
pub search-exact :
    (path : Str) (listing : Listing) (c : Criteria)
    → let out = search path listing c 1 (record { found = 0; printed = [] }) in
      (out.printed ≡ lines_of c (entries_below fits 1 path listing))
      × (out.found ≡ length out.printed)
search-exact path listing c =
    let e = search-lines path listing c 1 (record { found = 0; printed = [] }) in
    (ap (λ o. o.printed) e, omega (arith, ap (λ o. o.found) e, ap (λ o. length o.printed) e))
