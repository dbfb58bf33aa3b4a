-- ===== src/Logs/Reader/Tests.antt =====
-- The byte ranges of HW4's readers on a small file.
use system_programming_homew.Prelude.{◌≡◌, refl, [], ◌∷◌, codes, ◌++◌, Str}
use system_programming_homew.Logs.Reader.{run_reader}
use system_programming_homew.Logs.Reader.Ranges.{file_lines, run_reader-lines}

abbrev short_file : Str
short_file = codes "ab" ++ 10 ∷ codes "c" ++ 10 ∷ 10 ∷ codes "de"

three_threads :
    run_reader short_file 2
    ≡ (codes "ab" ++ 10 ∷ []) ∷ (codes "c" ++ 10 ∷ []) ∷ (10 ∷ []) ∷ codes "de" ∷ []
unfolding run_reader
three_threads = refl

run_reader-lines_example : run_reader short_file 2 ≡ file_lines short_file
run_reader-lines_example = run_reader-lines short_file 2
