-- ===== src/Logs/Entry/Accepted.antt =====
-- What every line has that HW4 accepts.
use system_programming_homew.Prelude.{
  ℕ, zero, suc, ◌-◌, ◌≤◌, ◌<◌, ◌≡◌, refl, true, false, ◌==◌, inl, inr, Option, none, some, [], ◌∷◌,
  Str, codes, str_eq→eq, is_alnum, all_bytes, length, take, arith, Bool-cases, Option-cases,
}
use system_programming_homew.Logs.Entry.{
  LogEntry, level_name, parse_level, trim_newline, skip_blanks, bracketed, max_message_len,
  finish_entry, after_source, after_level, after_timestamp, parse_log_line,
}

-- What every accepted line has.
pub record IsParsed (e : LogEntry) : Type 0 where
  pub stamped : length e.timestamp ≡ 19
  pub levelled : (e.level_index < 4) × (e.level ≡ level_name e.level_index)
  pub sourced :
      (1 ≤ length e.source) × (length e.source < 64) × (all_bytes is_alnum e.source ≡ true)
  pub bounded : length e.message < 8192
  pub trimmed : trim_newline e.message ≡ e.message
  pub is_entry : e.is_eof ≡ false

parse_level-name : (s : Str) (l : ℕ) → parse_level s ≡ some l → (l < 4) × (s ≡ level_name l)
unfolding parse_level level_name
parse_level-name s l h = ground (
  arith,
  str_eq→eq s (codes "ERROR"),
  str_eq→eq s (codes "WARN"),
  str_eq→eq s (codes "INFO"),
  str_eq→eq s (codes "DEBUG"),
)

trim_newline-twice : (s : Str) → trim_newline (trim_newline s) ≡ trim_newline s
unfolding trim_newline
trim_newline-twice [] = refl
trim_newline-twice (c ∷ s) = ground (arith, trim_newline-twice s)

length-trim_newline : (s : Str) → length (trim_newline s) ≤ length s
unfolding trim_newline
length-trim_newline [] = omega arith
length-trim_newline (c ∷ s) = ground (arith, length-trim_newline s)

take-fits : (n : ℕ) (s : Str) → length (take n s) ≤ n
take-fits zero s = omega arith
take-fits (suc n) [] = omega arith
take-fits (suc n) (c ∷ s) = omega (arith, take-fits n s)

message_fits :
    (rest : Str) → length (trim_newline (take (max_message_len - 1) (skip_blanks rest))) < 8192
message_fits rest =
    let text = take (max_message_len - 1) (skip_blanks rest) in
    omega (arith, length-trim_newline text, take-fits (max_message_len - 1) (skip_blanks rest))

finish_entry-IsParsed :
    (timestamp level source rest : Str) (e : LogEntry)
    → length timestamp ≡ 19
    → finish_entry timestamp level source rest ≡ some e
    → IsParsed e
unfolding finish_entry
finish_entry-IsParsed timestamp level source rest e long h =
    elim (Option-cases (parse_level level)) [
      | inl p ↦ ground arith
      | inr (l, p) ↦
          let named = parse_level-name level l p in
          let twice = trim_newline-twice (take (max_message_len - 1) (skip_blanks rest)) in
          let fits = message_fits rest in ground arith
    ]

-- Every accepted line gives an entry with a timestamp of 19 bytes, the index of its level name, a
-- source of 1 to 63 letters and digits, and a message of at most 8191 bytes without a line end at its
-- end.
pub parse_log_line-IsParsed :
    (line : Str) (e : LogEntry) → parse_log_line line ≡ some e → IsParsed e
unfolding parse_log_line after_timestamp after_level after_source
parse_log_line-IsParsed line e h = from_timestamp (bracketed line) h
  where
    from_source :
        (timestamp level : Str) (o : Option (Str × Str))
        → length timestamp ≡ 19
        → after_source timestamp level o ≡ some e
        → IsParsed e
    from_source timestamp level none long q = cc
    from_source timestamp level (some (source, p)) long q =
        finish_entry-IsParsed timestamp level source p e long q

    from_level :
        (timestamp : Str) (o : Option (Str × Str))
        → length timestamp ≡ 19
        → after_level timestamp o ≡ some e
        → IsParsed e
    from_level timestamp none long q = cc
    from_level timestamp (some (level, p)) long q = from_source timestamp level (bracketed p) long q

    from_timestamp : (o : Option (Str × Str)) → after_timestamp o ≡ some e → IsParsed e
    from_timestamp none q = cc
    from_timestamp (some (timestamp, p)) q = elim (Bool-cases (length timestamp == 19)) [
      | inl t ↦ from_level timestamp (bracketed p) (ground arith) (rw t at q)
      | inr t ↦ absurd (ground arith)
    ]
