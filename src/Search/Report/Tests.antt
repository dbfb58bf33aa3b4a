-- ===== src/Search/Report/Tests.antt =====
-- The line of one match of HW2.
use system_programming_homew.Prelude.{◌≡◌, refl, none, codes, arith, List, [], ◌∷◌, ◌++◌, map, All}
use system_programming_homew.Libc.Scan.{skip_space, scan_int, scan_word}
use system_programming_homew.Libc.Decimal.{decimal}
use system_programming_homew.Search.Workers.{Match}
use system_programming_homew.Search.Report.{match_line, parse_match_line, read_tmpfile, tmpfile_of}
use system_programming_homew.Search.Report.Roundtrip.{
  IsReadable, parsed_of, read_tmpfile-tmpfile_of,
}

abbrev small_match : Match
small_match = record { path = codes "r/x/a.c"; size = 10 }

-- A path with a blank is cut at it, and its line is dropped.
blank_lost :
    parse_match_line (match_line 31 (record { path = codes "r/my file"; size = 10 })) ≡ none
unfolding parse_match_line match_line skip_space scan_int decimal scan_word
blank_lost = refl

abbrev two_matches : List Match
two_matches = small_match ∷ record { path = codes "r/y"; size = 0 } ∷ []

two_matches-IsReadable : All (IsReadable 31) two_matches
unfolding match_line decimal
two_matches-IsReadable = (
  record { named = λ e. ground arith; plain = refl; sized = omega arith; short = omega arith },
  (
    record { named = λ e. ground arith; plain = refl; sized = omega arith; short = omega arith },
    tt,
  ),
)

read_tmpfile-tmpfile_of_example :
    read_tmpfile (tmpfile_of 31 two_matches) [] ≡ [] ++ map (parsed_of 31) two_matches
read_tmpfile-tmpfile_of_example =
    read_tmpfile-tmpfile_of 31 two_matches [] (omega arith) two_matches-IsReadable (omega arith)
