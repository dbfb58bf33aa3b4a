-- ===== src/Search/Pattern/Tests.antt =====
-- The patterns of HW1 and HW2 on small names.
use system_programming_homew.Prelude.{
  ℕ, ◌≡◌, ◌⊎◌, ◌↔◌, refl, true, false, some, Str, codes, get_elem?,
}
use system_programming_homew.Search.Pattern.{
  match_rec, stem_of, segments, match_pattern, match_filename,
}
use system_programming_homew.Search.Pattern.Matching.{Matches, match_pattern_iff}

match_pattern-iff_example : (match_pattern (codes "re+port") (codes "my_reeport.txt") ≡ true) ↔ (
    Matches (codes "re+port") (codes "my_reeport.txt")
    ⊎ (Matches (codes "re+port") (stem_of (codes "my_reeport.txt"))
        ⊎ ((i : ℕ) × (t : Str) × (get_elem? (segments (stem_of (codes "my_reeport.txt"))) i
              ≡ some t)
            × Matches (codes "re+port") t)))
match_pattern-iff_example = match_pattern_iff (codes "re+port") (codes "my_reeport.txt")

accepts_run : match_filename (codes "lo+st") (codes "LOOOst") ≡ true
unfolding match_filename
accepts_run = refl

-- The run takes the `a` that the pattern still needs, which the matcher of HW2 gives back.
greedy_misses : match_filename (codes "a+a") (codes "aa") ≡ false
unfolding match_filename
greedy_misses = refl

retries_find : match_rec (codes "a+a") (codes "aa") ≡ true
unfolding match_rec
retries_find = refl
