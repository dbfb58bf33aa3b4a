-- ===== src/Logs/Entry.antt =====
-- HW4/common.h and common.c: log entries, their levels, and the parsing of a line.
-- A line holds no NUL byte.
pub mod Parsing
pub mod Accepted
pub mod Keyword
mod Tests
use system_programming_homew.Prelude.{
  ℕ, zero, suc, ◌+◌, ◌-◌, Bool, true, false, not, ◌&&◌, ◌||◌, ◌==◌, ltb, leb, if◌then◌else◌, Option,
  none, some, List, [], ◌∷◌, ◌++◌, Str, codes, str_eq, is_alnum, all_bytes, length, take,
}

-- `LEVEL_ERROR` to `LEVEL_DEBUG` are 0 to 3; `LEVEL_INVALID` is `none` where it can occur.
abbrev pub max_levels : ℕ
max_levels = 4

pub record LogEntry : Type 0 where
  pub timestamp : Str
  pub level : Str
  pub source : Str
  pub message : Str
  pub level_index : ℕ
  pub is_eof : Bool
  pub reader_id : ℕ

pub level_name : ℕ → Str
level_name level =
    if level == 0
    then codes "ERROR"
    else if level == 1
    then codes "WARN"
    else if level == 2
    then codes "INFO"
    else if level == 3
    then codes "DEBUG"
    else codes "INVALID"

pub level_weight : ℕ → ℕ
level_weight level =
    if level == 0
    then 4
    else if level == 1
    then 3
    else if level == 2
    then 2
    else if level == 3
    then 1
    else 0

pub parse_level : Str → Option ℕ
parse_level level_str =
    if str_eq level_str (codes "ERROR")
    then some 0
    else if str_eq level_str (codes "WARN")
    then some 1
    else if str_eq level_str (codes "INFO")
    then some 2
    else if str_eq level_str (codes "DEBUG")
    then some 3
    else none

abbrev pub is_line_end : ℕ → Bool
is_line_end c = (c == 10) || (c == 13)

abbrev pub is_empty : Str → Bool
is_empty [] = true
is_empty (c ∷ s) = false

-- A byte goes when nothing is left behind it.
pub trim_newline : Str → Str
trim_newline [] = []
trim_newline (c ∷ s) =
    let rest = trim_newline s in if is_empty rest && is_line_end c then [] else c ∷ rest

abbrev pub is_blank : ℕ → Bool
is_blank c = (c == b' ') || (c == 9)

pub skip_blanks : Str → Str
skip_blanks [] = []
skip_blanks (c ∷ s) = if is_blank c then skip_blanks s else c ∷ s

-- The bytes up to the first `]`, and those behind it; `none` is a `strchr` that finds none.
pub up_to_bracket : Str → Option (Str × Str)
up_to_bracket [] = none
up_to_bracket (c ∷ s) =
    let later = up_to_bracket s in
    if c == b']'
    then some ([], s)
    else elim later [ none ↦ none | some (field, rest) ↦ some (c ∷ field, rest) ]

open_field : Str → Option (Str × Str)
unfolding up_to_bracket
open_field [] = none
open_field (c ∷ s) = if c == b'[' then up_to_bracket s else none

-- A field in brackets behind blanks.
pub bracketed : Str → Option (Str × Str)
unfolding skip_blanks open_field
bracketed s = open_field (skip_blanks s)

abbrev pub max_message_len : ℕ
max_message_len = 8192

-- The rest of the line behind the three fields, with the fields checked.
finish_entry : Str → Str → Str → Str → Option LogEntry
unfolding parse_level trim_newline skip_blanks
finish_entry timestamp level source rest =
    if (length level == 0) || leb 8 (length level) then none else elim (parse_level level) [
      | none ↦ none
      | some level_index ↦
          if (length source == 0) || leb 64 (length source)
          then none
          else if not (all_bytes is_alnum source)
          then none
          else some (record {
            timestamp = timestamp;
            level = level;
            source = source;
            message = trim_newline (take (max_message_len - 1) (skip_blanks rest));
            level_index = level_index;
            is_eof = false;
            reader_id = 0;
          })
    ]

-- Behind the third field, the second and the first.
after_source : Str → Str → Option (Str × Str) → Option LogEntry
unfolding finish_entry
after_source timestamp level none = none
after_source timestamp level (some (source, p)) = finish_entry timestamp level source p

after_level : Str → Option (Str × Str) → Option LogEntry
unfolding after_source bracketed
after_level timestamp none = none
after_level timestamp (some (level, p)) = after_source timestamp level (bracketed p)

after_timestamp : Option (Str × Str) → Option LogEntry
unfolding after_level bracketed
after_timestamp none = none
after_timestamp (some (timestamp, p)) =
    if not (length timestamp == 19) then none else after_level timestamp (bracketed p)

-- `reader_id` is set by the caller.
pub parse_log_line : Str → Option LogEntry
unfolding after_timestamp bracketed
parse_log_line line = after_timestamp (bracketed line)

-- `strncmp` of the whole keyword.
pub starts_with : Str → Str → Bool
starts_with [] s = true
starts_with (c ∷ needle) [] = false
starts_with (c ∷ needle) (d ∷ s) = (c == d) && starts_with needle s

-- The loop, from one position of the text on.
count_from : Str → Str → ℕ
unfolding starts_with
count_from needle [] = 0
count_from needle (c ∷ s) =
    let rest = count_from needle s in
    if leb (length needle) (length (c ∷ s)) && starts_with needle (c ∷ s) then suc rest else rest

pub count_overlapping_keyword : Str → Str → ℕ
unfolding count_from
count_overlapping_keyword haystack needle =
    if is_empty needle
    then 0
    else if ltb (length haystack) (length needle)
    then 0
    else count_from needle haystack
