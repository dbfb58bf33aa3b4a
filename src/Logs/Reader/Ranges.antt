-- ===== src/Logs/Reader/Ranges.antt =====
-- The threads of a reader of HW4 share out the lines of a file.
use system_programming_homew.Prelude.{
  ℕ, zero, suc, ◌+◌, ◌-◌, ◌*◌, ◌/◌, ◌≤◌, ◌<◌, ◌≡◌, refl, sym, ap, ◌∙◌, true, false, ◌==◌, leb, min,
  inl, inr, if◌then◌else◌, List, [], ◌∷◌, ◌++◌, Str, length, drop, length-drop, arith, Bool-cases,
  dec_le,
}
use system_programming_homew.Logs.Reader.{
  get_line, after_byte, seek_line, read_lines, reader_thread, read_from, run_reader,
}

onto_first : ℕ → List Str → List Str
onto_first c [] = (c ∷ []) ∷ []
onto_first c (line ∷ lines) = (c ∷ line) ∷ lines

-- The lines of a text, each with its newline.
pub file_lines : Str → List Str
unfolding onto_first
file_lines [] = []
file_lines (c ∷ s) =
    let later = file_lines s in if c == 10 then (c ∷ []) ∷ later else onto_first c later

file_lines-get_line :
    (c : ℕ) (s : Str) → file_lines (c ∷ s) ≡ (get_line (c ∷ s)).0 ∷ file_lines (get_line (c ∷ s)).1
unfolding file_lines get_line onto_first
file_lines-get_line c [] = elim (Bool-cases (c == 10)) [ inl e ↦ rw e refl | inr e ↦ rw e refl ]
file_lines-get_line c (d ∷ s) = elim (Bool-cases (c == 10)) [
  | inl e ↦ rw e refl
  | inr e ↦ rw e (ap (onto_first c) (file_lines-get_line d s))
]

-- The first line that starts at the offset or after it, and all that follows.
abbrev from_line : ℕ → Str → Str
from_line e s = (seek_line e s).1

from_line_at : (m n : ℕ) → m ≡ n → (s : Str) → from_line m s ≡ from_line n s
from_line_at m n same s = ap (λ k. from_line k s) same

drop_nil : (k : ℕ) → drop {A = ℕ} k [] ≡ []
drop_nil zero = refl
drop_nil (suc k) = refl

from_line_end : (e : ℕ) → from_line e [] ≡ []
unfolding seek_line after_byte
from_line_end zero = refl
from_line_end (suc e) = ap (λ t. (after_byte (suc e) t).1) (drop_nil e)

from_line-suc : (k c : ℕ) (s : Str) → from_line (suc (suc k)) (c ∷ s) ≡ from_line (suc k) s
unfolding seek_line after_byte
from_line-suc k c s = tail_only (suc (suc k)) (suc k) (drop k s)
  where
    tail_only : (a b : ℕ) (t : Str) → (after_byte a t).1 ≡ (after_byte b t).1
    tail_only a b [] = refl
    tail_only a b (d ∷ t) = elim (Bool-cases (d == 10)) [ inl q ↦ rw q refl | inr q ↦ rw q refl ]

get_line_grows : (c : ℕ) (s : Str) → 1 ≤ length (get_line (c ∷ s)).0
unfolding get_line
get_line_grows c s = elim (Bool-cases (c == 10)) [
  | inl e ↦ rw e (omega arith)
  | inr e ↦ rw e (omega arith)
]

after_first : (a c : ℕ) (s : Str) → (after_byte a (c ∷ s)).1 ≡ (get_line (c ∷ s)).1
unfolding after_byte get_line
after_first a c s = elim (Bool-cases (c == 10)) [ inl e ↦ rw e refl | inr e ↦ rw e refl ]

-- A later start is the same from the next line on.
past_line :
    (k : ℕ) (s : Str)
    → from_line (suc k) s ≡ from_line (suc k - length (get_line s).0) (get_line s).1
unfolding get_line seek_line after_byte
past_line k [] = from_line_end (suc k) ∙ sym (from_line_end (suc k - 0))
past_line zero (c ∷ s) =
    let grows = get_line_grows c s in
    let spent : 1 - length (get_line (c ∷ s)).0 ≡ 0 = omega arith in
    after_first 1 c s ∙ sym (ap (λ n. from_line n (get_line (c ∷ s)).1) spent)
past_line (suc k) (c ∷ s) = elim (Bool-cases (c == 10)) [
  | inl e ↦ rw e (from_line-suc k c s ∙ from_line_at (suc k) (suc (suc k) - 1) (omega arith) s)
  | inr e ↦
      let line = (get_line s).0 in
      let rest = (get_line s).1 in
      let left =
        from_line_at (suc k - length line) (suc (suc k) - suc (length line)) (omega arith) rest in
      rw e (from_line-suc k c s ∙ past_line k s ∙ left)
]

-- Reading on from the line at which a range starts finds the line at which a later range starts.
from_line_later :
    (base k e : ℕ) (file : Str)
    → suc k ≤ e
    → let (pos, s) = after_byte (base + suc k) (drop k file) in
      from_line ((base + e) - pos) s ≡ from_line e file
unfolding after_byte get_line
from_line_later base k e [] h =
    ap
      (λ t.
        from_line ((base + e) - (after_byte (base + suc k) t).0) (after_byte (base + suc k) t).1)
      (drop_nil k)
    ∙ from_line_end _
    ∙ sym (from_line_end e)
from_line_later base k zero (c ∷ file) h = absurd (omega arith)
from_line_later base zero (suc e) (c ∷ file) h = elim (Bool-cases (c == 10)) [
  | inl q ↦
      let left : (base + suc e) - (base + 1) ≡ suc e - 1 = omega arith in
      rw q (ap (λ n. from_line n file) left ∙ sym (past_line e (c ∷ file) ∙ rw q refl))
  | inr q ↦
      let k = length (get_line file).0 in
      let left : (base + suc e) - (base + 1 + k) ≡ suc e - suc k = omega arith in
      rw q (ap (λ n. from_line n (get_line file).1) left ∙ sym (past_line e (c ∷ file) ∙ rw q refl))
]
from_line_later base (suc k) (suc zero) (c ∷ file) h = absurd (omega arith)
from_line_later base (suc k) (suc (suc e)) (c ∷ file) h =
    let moved : (a b : ℕ)
        → a ≡ b
        → (m n : ℕ) → m ≡ n
        → from_line (m - (after_byte a (drop k file)).0) (after_byte a (drop k file)).1
          ≡ from_line (n - (after_byte b (drop k file)).0) (after_byte b (drop k file)).1 =
      λ a b p m n q. rw (p, q) refl in
    moved (base + suc (suc k)) (suc base + suc k) (omega arith) (base + suc (suc e))
      (suc base + suc e) (omega arith)
    ∙ from_line_later (suc base) k (suc e) file (omega arith)
    ∙ sym (from_line-suc e c file)

-- The rest after a line is shorter than a text that is not empty.
get_line_shorter : (c : ℕ) (s : Str) → length (get_line (c ∷ s)).1 ≤ length s
unfolding get_line
get_line_shorter c [] = elim (Bool-cases (c == 10)) [
  | inl e ↦ rw e (omega arith)
  | inr e ↦ rw e (omega arith)
]
get_line_shorter c (d ∷ s) = elim (Bool-cases (c == 10)) [
  | inl e ↦ rw e (omega arith)
  | inr e ↦ rw e (omega (arith, get_line_shorter d s))
]

read_lines-last : (n e pos : ℕ) (s : Str) → length s < n → read_lines n true e pos s ≡ file_lines s
unfolding read_lines file_lines
read_lines-last zero e pos s h = absurd (omega arith)
read_lines-last (suc n) e pos [] h = refl
read_lines-last (suc n) e pos (c ∷ s) h =
    let shorter = get_line_shorter c s in
    ap (◌∷◌ (get_line (c ∷ s)).0)
      (read_lines-last n e (pos + length (get_line (c ∷ s)).0) (get_line (c ∷ s)).1 (omega arith))
    ∙ sym (file_lines-get_line c s)

read_lines-until :
    (n e pos : ℕ) (s : Str)
    → length s < n
    → read_lines n false e pos s ++ file_lines (from_line (e - pos) s) ≡ file_lines s
unfolding read_lines seek_line
read_lines-until zero e pos s h = absurd (omega arith)
read_lines-until (suc n) e pos [] h = ap file_lines (from_line_end (e - pos))
read_lines-until (suc n) e pos (c ∷ s) h = elim (Bool-cases (leb e pos)) [
  | inl q ↦ let past : e - pos ≡ 0 = ground arith in rw (q, past) refl
  | inr q ↦
      let shorter = get_line_shorter c s in
      let lt : pos < e = ground arith in
      let line = (get_line (c ∷ s)).0 in
      let rest = (get_line (c ∷ s)).1 in
      let next = pos + length line in
      let ahead : e - pos ≡ suc (e - pos - 1) = omega arith in
      let left : suc (e - pos - 1) - length line ≡ e - next = omega arith in
      let same : from_line (e - pos) (c ∷ s) ≡ from_line (e - next) rest =
        ap (λ k. from_line k (c ∷ s)) ahead
        ∙ past_line (e - pos - 1) (c ∷ s)
        ∙ ap (λ k. from_line k rest) left in
      rw q (
        ap (λ t. line ∷ (read_lines n false e next rest ++ file_lines t)) same
        ∙ ap (◌∷◌ line) (read_lines-until n e next rest (omega arith))
        ∙ sym (file_lines-get_line c s))
]

from_line_beyond : (e : ℕ) (s : Str) → length s ≤ e → from_line e s ≡ []
unfolding seek_line after_byte get_line
from_line_beyond e [] h = from_line_end e
from_line_beyond zero (c ∷ s) h = absurd (omega arith)
from_line_beyond (suc zero) (c ∷ []) h = after_first 1 c [] ∙ nothing_left
  where
    nothing_left : (get_line (c ∷ [])).1 ≡ []
    nothing_left = elim (Bool-cases (c == 10)) [ inl q ↦ rw q refl | inr q ↦ rw q refl ]
from_line_beyond (suc zero) (c ∷ d ∷ s) h = absurd (omega arith)
from_line_beyond (suc (suc e)) (c ∷ s) h =
    from_line-suc e c s ∙ from_line_beyond (suc e) s (omega arith)

length-after_byte : (a : ℕ) (s : Str) → length (after_byte a s).1 ≤ length s
unfolding after_byte
length-after_byte a [] = omega arith
length-after_byte a (c ∷ s) =
    let shorter = get_line_shorter c s in
    let same : length (after_byte a (c ∷ s)).1 ≡ length (get_line (c ∷ s)).1 =
      ap length (after_first a c s) in
    omega arith

length-from_line : (e : ℕ) (s : Str) → length (from_line e s) ≤ length s
unfolding seek_line
length-from_line zero s = omega arith
length-from_line (suc k) s =
    let shorter = length-after_byte (suc k) (drop k s) in omega (arith, length-drop k s)

-- A range that ends behind the file ends with it.
from_line_clamp : (e : ℕ) (s : Str) → from_line (min e (length s)) s ≡ from_line e s
from_line_clamp e s = elim (dec_le e (length s)) [
  | yes le ↦ from_line_at (min e (length s)) e (omega arith) s
  | no gt ↦
      from_line_beyond (min e (length s)) s (omega arith) ∙ sym (from_line_beyond e s (omega arith))
]

seek_line_later :
    (a e : ℕ) (file : Str)
    → a ≤ e
    → from_line (e - (seek_line a file).0) (from_line a file) ≡ from_line e file
unfolding seek_line
seek_line_later zero e file h = from_line_at (e - 0) e (omega arith) file
seek_line_later (suc k) e file h =
    let moved : (m n a b : ℕ)
        → m ≡ n
        → a ≡ b
        → from_line (m - (after_byte a (drop k file)).0) (after_byte a (drop k file)).1
          ≡ from_line (n - (after_byte b (drop k file)).0) (after_byte b (drop k file)).1 =
      λ m n a b p q. rw (p, q) refl in
    moved e (0 + e) (suc k) (0 + suc k) (omega arith) (omega arith) ∙ from_line_later 0 k e file h

-- A thread that is not the last reads the lines that start in its range.
reader_thread_until :
    (file : Str) (a b : ℕ)
    → a ≤ b
    → reader_thread file a (min b (length file)) false ++ file_lines (from_line b file)
      ≡ file_lines (from_line a file)
unfolding reader_thread
reader_thread_until file a b h =
    let e = min b (length file) in
    let pos = (seek_line a file).0 in
    let s = from_line a file in
    let room = length-from_line a file in
    let reached : from_line (e - pos) s ≡ from_line b file = elim (dec_le a (length file)) [
      | yes le ↦ seek_line_later a e file (omega arith) ∙ from_line_clamp b file
      | no gt ↦
          ap (from_line (e - pos)) (from_line_beyond a file (omega arith))
          ∙ from_line_end (e - pos)
          ∙ sym (from_line_beyond b file (omega arith))
    ] in
    sym (ap (λ t. read_lines (length file + 1) false e pos s ++ file_lines t) reached)
    ∙ read_lines-until (length file + 1) e pos s (omega arith)

read_from-lines :
    (file : Str) (chunk n i : ℕ)
    → read_from file chunk n i ≡ file_lines (from_line (i * chunk) file)
unfolding read_from reader_thread
read_from-lines file chunk zero i =
    let room = length-from_line (i * chunk) file in
    read_lines-last (length file + 1) (min (suc i * chunk) (length file))
      (seek_line (i * chunk) file).0 (from_line (i * chunk) file) (omega arith)
read_from-lines file chunk (suc n) i =
    ap (reader_thread file (i * chunk) (min (suc i * chunk) (length file)) false ++◌)
      (read_from-lines file chunk n (suc i))
    ∙ reader_thread_until file (i * chunk) (suc i * chunk) (omega arith)

-- Together, and in the order of the threads, the threads of a reader process read exactly the lines
-- of its file, each of them once, whatever the number of threads.
pub run_reader-lines : (file : Str) (more : ℕ) → run_reader file more ≡ file_lines file
unfolding run_reader seek_line
run_reader-lines file more =
    let chunk = (length file + (more + 1) - 1) / (more + 1) in
    read_from-lines file chunk more 0
    ∙ ap file_lines (from_line_at (0 * chunk) 0 (omega arith) file)
