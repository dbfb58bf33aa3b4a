-- ===== src/Logs/Top/Tests.antt =====
-- Four sources of HW4 with their hits.
use mathlib.Core.List.{Perm}
use system_programming_homew.Prelude.{◌≤◌, List, [], ◌∷◌, codes, All}
use system_programming_homew.Logs.Top.{Source, no_source, compute_top3}
use system_programming_homew.Logs.Top.Best.{IsRanked, compute_top3-best}

abbrev four_sources : List Source
four_sources =
    record { hits = 3; name = codes "a" }
    ∷ record { hits = 9; name = codes "b" }
    ∷ record { hits = 3; name = codes "c" }
    ∷ record { hits = 5; name = codes "d" }
    ∷ []

compute_top3-best_example :
    let t = compute_top3 four_sources in
    IsRanked t
    × ((rest : List Source) × Perm
          (no_source ∷ no_source ∷ no_source ∷ four_sources)
          (t.first ∷ t.second ∷ t.third ∷ rest)
        × All (λ s. s.hits ≤ t.third.hits) rest)
compute_top3-best_example = compute_top3-best four_sources
