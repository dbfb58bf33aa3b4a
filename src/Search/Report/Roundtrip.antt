-- ===== src/Search/Report/Roundtrip.antt =====
-- A worker's file is read back by HW2's parent.
use system_programming_homew.Prelude.{
  ℕ, ◌<◌, ◌≤◌, ◌≡◌, ◌≢◌, refl, ap, ◌∙◌, true, false, not, [], ◌∷◌, ◌++◌, arith, some, Str, codes,
  is_space, all_bytes, length, length-append, map, ◌+◌, Bool, ◌&&◌, ◌==◌, ltb, sym, All, List, none,
  if◌then◌else◌,
}
use mathlib.Core.List.{append-nil, append_assoc}
use system_programming_homew.Libc.Lines.{fgets_lines, fgets_lines-line}
use system_programming_homew.Libc.Decimal.{decimal}
use system_programming_homew.Libc.Scan.{
  SignedNumber, skip_space, scan_word, stored_int, stored_long, c_string, long_max, int_max,
  stored_int-fits, stored_long-fits, c_string-plain,
}
use system_programming_homew.Libc.Printed.{
  pow10, scan_int-decimal, scan_word-all, decimal-all, all_bytes-append, all_bytes-weaken,
}
use system_programming_homew.Search.Workers.{Match, max_matches}
use system_programming_homew.Search.Report.{
  match_line, parse_match_line, parse_path, parse_size, literal, ◌>>=◌, MatchEntry, chomp,
  read_matches, read_tmpfile, tmpfile_of,
}

abbrev pub unsigned : ℕ → SignedNumber
unsigned n = record { negative = false; magnitude = n }

size-parses :
    (pid : SignedNumber) (path : Str) (size : ℕ)
    → size < pow10 20
    → parse_size pid path (codes " (" ++ (decimal size ++ codes " bytes)"))
      ≡ some
          (record { worker_pid = stored_int pid; path = path; size = stored_long (unsigned size) })
unfolding skip_space
size-parses pid path size h =
    ap
      (λ o. o >>= (λ (size, s6).
        some (record { worker_pid = stored_int pid; path = path; size = stored_long size })))
      (scan_int-decimal size b' ' (codes "bytes)") h refl)

-- The blank before the path is skipped, and the path stands first.
path_starts :
    (x : ℕ) (s : Str)
    → is_space x ≡ false
    → literal (codes "] MATCH: ") (codes "] MATCH: " ++ (x ∷ s)) ≡ some (x ∷ s)
unfolding skip_space
path_starts x s e = rw e refl

path-parses :
    (pid : SignedNumber) (x size : ℕ) (w : Str)
    → size < pow10 20
    → length (x ∷ w) ≤ 4095
    → all_bytes (λ c. not (is_space c)) (x ∷ w) ≡ true
    → parse_path pid
        (codes "] MATCH: " ++ ((x ∷ w) ++ (codes " (" ++ (decimal size ++ codes " bytes)"))))
      ≡ some
          (record { worker_pid = stored_int pid; path = x ∷ w; size = stored_long (unsigned size) })
path-parses pid x size w h le plain =
    let tail : Str = codes " (" ++ (decimal size ++ codes " bytes)") in
    ap (λ o. o >>= (λ s3. scan_word 4095 s3 >>= (λ (path, s4). parse_size pid path s4)))
      (path_starts x (w ++ tail) (ground arith))
    ∙ ap (λ o. o >>= (λ (path, s4). parse_size pid path s4))
        (scan_word-all 4095 (x ∷ w) (codes "(" ++ (decimal size ++ codes " bytes)")) b' ' le
          (ground arith) plain refl)
    ∙ size-parses pid (x ∷ w) size h

line-parses :
    (pid size : ℕ) (path : Str)
    → pid < pow10 20
    → size < pow10 20
    → path ≢ []
    → length path ≤ 4095
    → all_bytes (λ c. not (is_space c)) path ≡ true
    → parse_match_line (match_line pid (record { path = path; size = size }))
      ≡ some (record {
        worker_pid = stored_int (unsigned pid);
        path = path;
        size = stored_long (unsigned size);
      })
unfolding parse_match_line match_line skip_space
line-parses pid size [] hp hs ne le plain = absurd (ne refl)
line-parses pid size (x ∷ w) hp hs ne le plain =
    ap (λ o. o >>= (λ (pid, s2). parse_path pid s2))
      (scan_int-decimal pid b']'
        (codes " MATCH: " ++ ((x ∷ w) ++ (codes " (" ++ (decimal size ++ codes " bytes)")))) hp
        refl)
    ∙ path-parses (unsigned pid) x size w hs le plain

-- A match whose path is not empty and has neither white space nor NUL, whose size fits a `long`, and
-- whose line fits the buffer of the parent with its newline and NUL.
pub record IsReadable (pid : ℕ) (m : Match) : Type 0 where
  pub named : m.path ≢ []
  pub plain : all_bytes (λ c. not (is_space c) && not (c == 0)) m.path ≡ true
  pub sized : m.size ≤ long_max
  pub short : length (match_line pid m) ≤ 510

abbrev pub parsed_of : ℕ → Match → MatchEntry
parsed_of pid m = record { worker_pid = unsigned pid; path = m.path; size = unsigned m.size }

abbrev is_text : ℕ → Bool
is_text c = not (c == 0) && not (c == 10)

match_line-text :
    (pid : ℕ) (m : Match)
    → all_bytes (λ c. not (is_space c) && not (c == 0)) m.path ≡ true
    → all_bytes is_text (match_line pid m) ≡ true
unfolding match_line
match_line-text pid m plain =
    let digits : (n : ℕ) → all_bytes is_text (decimal n) ≡ true =
      decimal-all is_text (λ d lt. ground arith) in
    let path =
      all_bytes-weaken (λ c. not (is_space c) && not (c == 0)) is_text (λ c h. ground arith) m.path
        plain in
    let size = all_bytes-append is_text (decimal m.size) (codes " bytes)") (digits m.size) refl in
    let tail =
      all_bytes-append is_text m.path (codes " (" ++ (decimal m.size ++ codes " bytes)")) path
        size in
    all_bytes-append is_text (decimal pid)
      (codes "] MATCH: " ++ (m.path ++ (codes " (" ++ (decimal m.size ++ codes " bytes)"))))
      (digits pid) tail

length-path : (pid : ℕ) (m : Match) → length m.path ≤ length (match_line pid m)
unfolding match_line
length-path pid m =
    let tail = codes " (" ++ (decimal m.size ++ codes " bytes)") in
    let rest = codes "] MATCH: " ++ (m.path ++ tail) in
    omega (
      arith,
      length-append (codes "[Worker PID:") (decimal pid ++ rest),
      length-append (decimal pid) rest,
      length-append (codes "] MATCH: ") (m.path ++ tail),
      length-append m.path tail,
    )

chomp-line : (s : Str) → chomp (s ++ 10 ∷ []) ≡ s
unfolding chomp
chomp-line [] = refl
chomp-line (c ∷ []) = refl
chomp-line (c ∷ d ∷ s) = ap (◌∷◌ c) (chomp-line (d ∷ s))

-- What the parent makes of one line.
line-read :
    (pid : ℕ) (m : Match)
    → pid ≤ int_max
    → IsReadable pid m
    → parse_match_line (chomp (c_string (match_line pid m ++ 10 ∷ []))) ≡ some (parsed_of pid m)
line-read pid m fits r =
    let text = match_line-text pid m r.plain in
    let no_nul =
      all_bytes-append (λ c. not (c == 0)) (match_line pid m) (10 ∷ [])
        (all_bytes-weaken is_text (λ c. not (c == 0)) (λ c h. ground arith) (match_line pid m) text)
        refl in
    let path =
      all_bytes-weaken (λ c. not (is_space c) && not (c == 0)) (λ c. not (is_space c))
        (λ c h. ground arith) m.path r.plain in
    ap (λ l. parse_match_line (chomp l)) (c_string-plain (match_line pid m ++ 10 ∷ []) no_nul)
    ∙ ap parse_match_line (chomp-line (match_line pid m))
    ∙ line-parses pid m.size m.path (omega arith) (omega (arith, r.sized)) r.named
        (omega (arith, length-path pid m, r.short)) path
    ∙ ap
        (λ p. some (record { worker_pid = p; path = m.path; size = stored_long (unsigned m.size) }))
        (stored_int-fits pid fits)
    ∙ ap (λ n. some (record { worker_pid = unsigned pid; path = m.path; size = n }))
        (stored_long-fits m.size r.sized)

-- For a process id that fits an int, matches whose paths are not empty and have neither white space nor
-- NUL, whose sizes fit a `long` and whose lines have at most 510 bytes, and enough room in the table:
-- reading the file that the worker wrote adds exactly its matches, in order, each with the process,
-- the path and the size.
pub read_tmpfile-tmpfile_of :
    (pid : ℕ) (ms : List Match) (entries : List MatchEntry)
    → pid ≤ int_max
    → All (IsReadable pid) ms
    → length entries + length ms ≤ max_matches
    → read_tmpfile (tmpfile_of pid ms) entries ≡ entries ++ map (parsed_of pid) ms
unfolding read_tmpfile read_matches tmpfile_of fgets_lines
read_tmpfile-tmpfile_of pid [] entries fits r room = sym (append-nil entries)
read_tmpfile-tmpfile_of pid (m ∷ ms) entries fits r room =
    let line = match_line pid m in
    let text =
      all_bytes-weaken is_text (λ c. not (c == 10)) (λ c h. ground arith) line
        (match_line-text pid m r.0.plain) in
    let free : ltb (length entries) max_matches ≡ true = ground arith in
    ap (λ ls. read_matches ls entries)
      (fgets_lines-line 512 line (tmpfile_of pid ms) text (omega (arith, r.0.short)))
    ∙ ap
        (λ o. elim o [
          | none ↦ read_matches (fgets_lines 512 (tmpfile_of pid ms)) entries
          | some me ↦
              read_matches (fgets_lines 512 (tmpfile_of pid ms))
                (if ltb (length entries) max_matches then entries ++ me ∷ [] else entries)
        ])
        (line-read pid m fits r.0)
    ∙ ap
        (λ b.
          read_matches (fgets_lines 512 (tmpfile_of pid ms))
            (if b then entries ++ parsed_of pid m ∷ [] else entries))
        free
    ∙ read_tmpfile-tmpfile_of pid ms (entries ++ parsed_of pid m ∷ []) fits r.1
        (omega (arith, length-append entries (parsed_of pid m ∷ [])))
    ∙ append_assoc entries (parsed_of pid m ∷ []) (map (parsed_of pid) ms)
