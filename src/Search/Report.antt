-- ===== src/Search/Report.antt =====
-- HW2/worker.c and main.c: the line that a worker writes for a match, and the parent's reading of it.
pub mod Roundtrip
mod Tests
use system_programming_homew.Prelude.{
  ℕ, ◌+◌, Bool, ◌==◌, ltb, if◌then◌else◌, List, [], ◌∷◌, ◌++◌, Str, codes, Option, none, some,
  length, is_space,
}
use system_programming_homew.Libc.Lines.{fgets_lines}
use system_programming_homew.Libc.Decimal.{decimal}
use system_programming_homew.Libc.Scan.{
  SignedNumber, stored_int, stored_long, c_string, skip_space, scan_int, scan_word,
}
use system_programming_homew.Search.Workers.{Match, max_matches}

-- What the worker of the process `pid` writes, without the line end.
unfoldable pub match_line : ℕ → Match → Str
match_line pid m =
    codes "[Worker PID:"
    ++ (decimal pid
        ++ (codes "] MATCH: " ++ (m.path ++ (codes " (" ++ (decimal m.size ++ codes " bytes)")))))

infixl 40 ◌>>=◌
abbrev pub ◌>>=◌ {ℓ κ} : {A : Type ℓ} {B : Type κ} → Option A → (A → Option B) → Option B
none >>= f = none
some a >>= f = f a

-- The bytes of a format that are no conversions: white space stands for any white space.
abbrev pub literal_byte : ℕ → Str → (Str → Option Str) → Option Str
literal_byte c [] go = none
literal_byte c (x ∷ xs) go = if x == c then go xs else none

abbrev pub literal : Str → Str → Option Str
literal [] s = some s
literal (c ∷ format) s =
    let spaced = literal format (skip_space s) in
    if is_space c then spaced else literal_byte c s (literal format)

-- An entry of the parent's table.
pub record MatchEntry : Type 0 where
  pub worker_pid : SignedNumber
  pub path : Str
  pub size : SignedNumber

-- The rest of a line behind the path, and behind the process.
abbrev pub parse_size : SignedNumber → Str → Str → Option MatchEntry
parse_size pid path s4 = do
  s5 ← literal (codes " (") s4
  (size, s6) ← scan_int s5
  some (record { worker_pid = stored_int pid; path = path; size = stored_long size })

abbrev pub parse_path : SignedNumber → Str → Option MatchEntry
parse_path pid s2 = do
  s3 ← literal (codes "] MATCH: ") s2
  (path, s4) ← scan_word 4095 s3
  parse_size pid path s4

unfoldable pub parse_match_line : Str → Option MatchEntry
parse_match_line line = do
  s1 ← literal (codes "[Worker PID:") line
  (pid, s2) ← scan_int s1
  parse_path pid s2

-- The newline at the end of what `fgets` read goes.
pub chomp : Str → Str
chomp [] = []
chomp (c ∷ s) = elim s [ [] ↦ if c == 10 then [] else c ∷ [] | d ∷ rest ↦ c ∷ chomp s ]

-- The lines that `fgets` gives in turn, up to MAX_MATCHES entries.
pub read_matches : List Str → List MatchEntry → List MatchEntry
unfolding parse_match_line chomp
read_matches [] entries = entries
read_matches (line ∷ lines) entries = elim (parse_match_line (chomp (c_string line))) [
  | none ↦ read_matches lines entries
  | some me ↦
      read_matches lines (if ltb (length entries) max_matches then entries ++ me ∷ [] else entries)
]

-- The file of one worker, read with a buffer of 512 bytes.
pub read_tmpfile : Str → List MatchEntry → List MatchEntry
unfolding read_matches
read_tmpfile file entries = read_matches (fgets_lines 512 file) entries

-- What the worker of the process `pid` writes for its matches.
pub tmpfile_of : ℕ → List Match → Str
unfolding match_line
tmpfile_of pid [] = []
tmpfile_of pid (m ∷ ms) = match_line pid m ++ 10 ∷ tmpfile_of pid ms
