-- ===== src/Libc/Tests.antt =====
-- Conversions on small texts.
use system_programming_homew.Prelude.{◌≡◌, refl, some, codes}
use system_programming_homew.Libc.Scan.{parse_positive_int}

reads_forty_two : parse_positive_int (codes "42") ≡ some 42
unfolding parse_positive_int
reads_forty_two = refl
