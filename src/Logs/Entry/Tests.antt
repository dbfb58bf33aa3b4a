-- ===== src/Logs/Entry/Tests.antt =====
-- A line of a log file of HW4.
use system_programming_homew.Prelude.{
  ◌≤◌, ◌≡◌, ◌≢◌, ◌↔◌, refl, false, some, [], ◌++◌, Str, codes, arith,
}
use system_programming_homew.Logs.Entry.{
  LogEntry, level_name, trim_newline, parse_log_line, count_overlapping_keyword,
}
use system_programming_homew.Logs.Entry.Parsing.{line_of, parse_log_line-line_of}
use system_programming_homew.Logs.Entry.Accepted.{IsParsed, parse_log_line-IsParsed}
use system_programming_homew.Logs.Entry.Keyword.{places, count_overlapping_keyword-exact}

abbrev stamp : Str
stamp = codes "2024-05-01 12:00:00"

abbrev disk_line : Str
disk_line = line_of stamp (level_name 1) (codes "disk0") (codes "low space")

abbrev disk_entry : LogEntry
disk_entry = record {
  timestamp = stamp;
  level = level_name 1;
  source = codes "disk0";
  message = codes "low space";
  level_index = 1;
  is_eof = false;
  reader_id = 0;
}

trims_nothing : trim_newline (codes "low space") ≡ codes "low space"
unfolding trim_newline
trims_nothing = refl

parse_log_line-line_of_example : parse_log_line disk_line ≡ some disk_entry
parse_log_line-line_of_example =
    parse_log_line-line_of stamp (codes "disk0") (codes "low space") 1 refl refl (omega arith) refl
      (omega arith, omega arith) refl trims_nothing (omega arith)

disk_line-parsed : parse_log_line disk_line ≡ some disk_entry
disk_line-parsed =
    parse_log_line-line_of stamp (codes "disk0") (codes "low space") 1 refl refl (omega arith) refl
      (omega arith, omega arith) refl trims_nothing (omega arith)

parse_log_line-IsParsed_example : IsParsed disk_entry
parse_log_line-IsParsed_example = parse_log_line-IsParsed disk_line disk_entry disk_line-parsed

count_overlapping_keyword-exact_example :
    (codes "aa" ≡ [] → count_overlapping_keyword (codes "aaaa") (codes "aa") ≡ 0)
    × (codes "aa" ≢ []
        → (count_overlapping_keyword (codes "aaaa") (codes "aa")
            ≡ places (codes "aa") (codes "aaaa"))
          × ((1 ≤ count_overlapping_keyword (codes "aaaa") (codes "aa"))
              ↔ ((a : Str) × (t : Str) × (codes "aaaa" ≡ a ++ (codes "aa" ++ t)))))
count_overlapping_keyword-exact_example =
    count_overlapping_keyword-exact (codes "aaaa") (codes "aa")

counts_overlaps : count_overlapping_keyword (codes "aaaa") (codes "aa") ≡ 3
unfolding count_overlapping_keyword
counts_overlaps = refl
