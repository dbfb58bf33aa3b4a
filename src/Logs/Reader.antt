-- ===== src/Logs/Reader.antt =====
-- HW4/reader.c: the byte ranges of a log file that the threads of a reader process read.
-- The file is its list of bytes, and does not change while it is read. Opening it does not fail.
pub mod Ranges
mod Tests
use system_programming_homew.Prelude.{
  ℕ, zero, suc, ◌+◌, ◌-◌, ◌*◌, ◌/◌, Bool, true, false, not, ◌&&◌, ◌==◌, leb, min, if◌then◌else◌,
  List, [], ◌∷◌, ◌++◌, Str, length, drop,
}

-- `getline`: the bytes up to a newline or the end of the file, and those after them.
pub get_line : Str → Str × Str
get_line [] = ([], [])
get_line (c ∷ s) = let later = get_line s in if c == 10 then (c ∷ [], s) else (c ∷ later.0, later.1)

-- From the byte before a range: unless it is a newline, the rest of its line is skipped.
-- The position comes with the bytes that follow it.
pub after_byte : ℕ → Str → ℕ × Str
unfolding get_line
after_byte start [] = (start - 1, [])
after_byte start (c ∷ s) =
    if c == 10 then (start, s) else (start + length (get_line s).0, (get_line s).1)

pub seek_line : ℕ → Str → ℕ × Str
unfolding after_byte
seek_line zero file = (0, file)
seek_line (suc k) file = after_byte (suc k) (drop k file)

-- The loop of a thread, on fuel: the lines it reads. Those of the last thread go to the file's end.
pub read_lines : ℕ → Bool → ℕ → ℕ → Str → List Str
unfolding get_line
read_lines zero is_last end_offset line_start s = []
read_lines (suc n) is_last end_offset line_start [] = []
read_lines (suc n) is_last end_offset line_start (c ∷ s) =
    let (line, rest) = get_line (c ∷ s) in
    let later = read_lines n is_last end_offset (line_start + length line) rest in
    if not is_last && leb end_offset line_start then [] else line ∷ later

pub reader_thread : Str → ℕ → ℕ → Bool → List Str
unfolding seek_line read_lines
reader_thread file start_offset end_offset is_last =
    let (line_start, s) = seek_line start_offset file in
    read_lines (length file + 1) is_last end_offset line_start s

-- What the threads from `i` on read, in the order of the threads. `n` more follow it.
pub read_from : Str → ℕ → ℕ → ℕ → List Str
unfolding reader_thread
read_from file chunk zero i =
    reader_thread file (i * chunk) (min (suc i * chunk) (length file)) true
read_from file chunk (suc n) i =
    reader_thread file (i * chunk) (min (suc i * chunk) (length file)) false
    ++ read_from file chunk n (suc i)

-- The threads of `run_reader_process`, of which there is at least one: `more` besides the first.
pub run_reader : Str → ℕ → List Str
unfolding read_from
run_reader file more = read_from file ((length file + (more + 1) - 1) / (more + 1)) more 0
