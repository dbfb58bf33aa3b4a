-- ===== src/Search/Criteria/Tests.antt =====
-- HW1's search over a directory with a file and a directory of one file.
use system_programming_homew.Prelude.{◌+◌, ◌*◌, ◌%◌, ◌≡◌, ◌↔◌, true, [], codes, some, length}
use system_programming_homew.Search.Tree.{Stat, present, Listing, ended, entry, entries_below}
use system_programming_homew.Search.Criteria.{Criteria, match_permission, search}
use system_programming_homew.Search.Criteria.Permissions.{octal, match_permission_iff}
use system_programming_homew.Search.Criteria.Exact.{fits, lines_of, search-exact}

abbrev plain_stat : Stat
plain_stat = record { mode = 33188; size = 10; nlink = 1 }

abbrev dir_stat : Stat
dir_stat = record { mode = 16877; size = 4096; nlink = 2 }

abbrev small_listing : Listing
small_listing = entry (codes "ab") (present plain_stat ended) (
    entry (codes "d") (present dir_stat (entry (codes "aab") (present plain_stat ended) ended))
      ended)

abbrev criteria : Criteria
criteria = record {
  filename = some (codes "a+b");
  size = record { negative = true; magnitude = 1 };
  type = b'f';
  permissions = some (codes "rw-r--r--");
  nlinks = record { negative = true; magnitude = 1 };
}

match_permission_iff_example :
    (match_permission 33188 (codes "rw-r--r--") ≡ true)
    ↔ (33188 % 512 ≡ 64 * octal b'r' b'w' b'-' + 8 * octal b'r' b'-' b'-' + octal b'r' b'-' b'-')
match_permission_iff_example =
    match_permission_iff 33188 b'r' b'w' b'-' b'r' b'-' b'-' b'r' b'-' b'-'

search-exact_example :
    let out = search (codes "r") small_listing criteria 1 (record { found = 0; printed = [] }) in
    (out.printed ≡ lines_of criteria (entries_below fits 1 (codes "r") small_listing))
    × (out.found ≡ length out.printed)
search-exact_example = search-exact (codes "r") small_listing criteria
