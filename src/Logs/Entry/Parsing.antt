-- ===== src/Logs/Entry/Parsing.antt =====
-- The lines that HW4 accepts, and what it makes of them.
use system_programming_homew.Prelude.{
  ℕ, zero, suc, ◌-◌, ◌≤◌, ◌<◌, ◌≡◌, refl, ap, ◌∙◌, Bool, true, false, not, ◌||◌, ◌==◌, leb, ◌⊎◌,
  inl, inr, if◌then◌else◌, none, some, [], ◌∷◌, ◌++◌, Str, is_alnum, all_bytes, length, take, arith,
}
use system_programming_homew.Logs.Entry.{
  level_name, parse_level, trim_newline, is_blank, skip_blanks, up_to_bracket, bracketed,
  max_message_len, finish_entry, after_source, after_level, after_timestamp, parse_log_line,
}

-- No byte of the text is `]`.
abbrev pub no_bracket : Str → Bool
no_bracket = all_bytes (λ c. not (c == b']'))

-- A line with these fields, as the log files hold it.
abbrev pub line_of : Str → Str → Str → Str → Str
line_of timestamp level source message =
    let p3 : Str = b' ' ∷ message ++ 10 ∷ [] in
    let p2 : Str = b' ' ∷ b'[' ∷ source ++ b']' ∷ p3 in
    let p1 : Str = b' ' ∷ b'[' ∷ level ++ b']' ∷ p2 in b'[' ∷ timestamp ++ b']' ∷ p1

up_to_bracket-field :
    (field rest : Str)
    → no_bracket field ≡ true
    → up_to_bracket (field ++ b']' ∷ rest) ≡ some (field, rest)
unfolding up_to_bracket
up_to_bracket-field [] rest h = refl
up_to_bracket-field (c ∷ field) rest h = ground (arith, up_to_bracket-field field rest)

bracketed-first :
    (field rest : Str)
    → no_bracket field ≡ true
    → bracketed (b'[' ∷ field ++ b']' ∷ rest) ≡ some (field, rest)
unfolding bracketed
bracketed-first field rest h = up_to_bracket-field field rest h

bracketed-next :
    (field rest : Str)
    → no_bracket field ≡ true
    → bracketed (b' ' ∷ b'[' ∷ field ++ b']' ∷ rest) ≡ some (field, rest)
unfolding bracketed
bracketed-next field rest h = up_to_bracket-field field rest h

alnum-no_bracket : (s : Str) → all_bytes is_alnum s ≡ true → no_bracket s ≡ true
alnum-no_bracket [] h = refl
alnum-no_bracket (c ∷ s) h = ground (arith, alnum-no_bracket s)

-- The names of the four levels: what the parser needs of them.
level_name-parses :
    (l : ℕ)
    → l < 4
    → (parse_level (level_name l) ≡ some l)
      × (no_bracket (level_name l) ≡ true)
      × (((length (level_name l) == 0) || leb 8 (length (level_name l))) ≡ false)
unfolding parse_level level_name
level_name-parses zero h = (refl, refl, refl)
level_name-parses (suc zero) h = (refl, refl, refl)
level_name-parses (suc (suc zero)) h = (refl, refl, refl)
level_name-parses (suc (suc (suc zero))) h = (refl, refl, refl)
level_name-parses (suc (suc (suc (suc l)))) h = absurd (omega arith)

trim-line_end : (s : Str) → trim_newline (s ++ 10 ∷ []) ≡ trim_newline s
unfolding trim_newline
trim-line_end [] = refl
trim-line_end (c ∷ s) = ground (arith, trim-line_end s)

take-line :
    (n : ℕ) (s : Str)
    → length s ≤ n
    → (take n (s ++ 10 ∷ []) ≡ s) ⊎ (take n (s ++ 10 ∷ []) ≡ s ++ 10 ∷ [])
take-line zero [] h = inl refl
take-line (suc n) [] h = inr (take-nil n)
  where
    take-nil : (k : ℕ) → take {A = ℕ} (suc k) (10 ∷ []) ≡ 10 ∷ []
    take-nil zero = refl
    take-nil (suc k) = refl
take-line zero (c ∷ s) h = absurd (omega arith)
take-line (suc n) (c ∷ s) h = elim (take-line n s (omega arith)) [
  | inl e ↦ inl (ap (◌∷◌ c) e)
  | inr e ↦ inr (ap (◌∷◌ c) e)
]

-- Does the text start with a blank?
abbrev pub starts_blank : Str → Bool
starts_blank [] = false
starts_blank (c ∷ s) = is_blank c

skip_blanks-line :
    (s : Str) → starts_blank s ≡ false → skip_blanks (b' ' ∷ s ++ 10 ∷ []) ≡ s ++ 10 ∷ []
unfolding skip_blanks
skip_blanks-line [] h = refl
skip_blanks-line (c ∷ s) h = rw h refl

-- The message of a printed line.
message-kept :
    (n : ℕ) (s : Str)
    → starts_blank s ≡ false
    → trim_newline s ≡ s
    → length s ≤ n
    → trim_newline (take n (skip_blanks (b' ' ∷ s ++ 10 ∷ []))) ≡ s
message-kept n s no_blank trimmed fits =
    rw (skip_blanks-line s no_blank) (elim (take-line n s fits) [
      | inl e ↦ rw e trimmed
      | inr e ↦ rw e (trim-line_end s ∙ trimmed)
    ])

finish_entry-line :
    (timestamp source message : Str) (l : ℕ)
    → l < 4
    → all_bytes is_alnum source ≡ true
    → ((length source == 0) || leb 64 (length source)) ≡ false
    → starts_blank message ≡ false
    → trim_newline message ≡ message
    → length message ≤ max_message_len - 1
    → finish_entry timestamp (level_name l) source (b' ' ∷ message ++ 10 ∷ [])
      ≡ some (record {
        timestamp = timestamp;
        level = level_name l;
        source = source;
        message = message;
        level_index = l;
        is_eof = false;
        reader_id = 0;
      })
unfolding finish_entry
finish_entry-line timestamp source message l known alnum sized no_blank trimmed fits =
    let (parsed, _, len) = level_name-parses l known in
    rw (len, parsed, sized, alnum)
      (ap
        (λ text. some (record {
          timestamp = timestamp;
          level = level_name l;
          source = source;
          message = text;
          level_index = l;
          is_eof = false;
          reader_id = 0;
        }))
        (message-kept (max_message_len - 1) message no_blank trimmed fits))

-- The three fields in turn.
parse_log_line-fields :
    (line timestamp level source p1 p2 p3 : Str)
    → bracketed line ≡ some (timestamp, p1)
    → length timestamp ≡ 19
    → bracketed p1 ≡ some (level, p2)
    → bracketed p2 ≡ some (source, p3)
    → parse_log_line line ≡ finish_entry timestamp level source p3
unfolding parse_log_line after_timestamp after_level after_source
parse_log_line-fields line timestamp level source p1 p2 p3 e1 long e2 e3 =
    let nineteen : (length timestamp == 19) ≡ true = ground arith in
    ap after_timestamp e1
    ∙ ap (λ b. if not b then none else after_level timestamp (bracketed p1)) nineteen
    ∙ ap (after_level timestamp) e2
    ∙ ap (after_source timestamp level) e3

-- A line with a timestamp of 19 bytes, one of the four level names, a source of 1 to 63 letters and
-- digits, and a message of at most 8191 bytes that neither starts with a blank nor ends with a line
-- end, is read back as these fields.
pub parse_log_line-line_of :
    (timestamp source message : Str) (l : ℕ)
    → length timestamp ≡ 19
    → no_bracket timestamp ≡ true
    → l < 4
    → all_bytes is_alnum source ≡ true
    → (1 ≤ length source) × (length source < 64)
    → starts_blank message ≡ false
    → trim_newline message ≡ message
    → length message ≤ max_message_len - 1
    → parse_log_line (line_of timestamp (level_name l) source message)
      ≡ some (record {
        timestamp = timestamp;
        level = level_name l;
        source = source;
        message = message;
        level_index = l;
        is_eof = false;
        reader_id = 0;
      })
parse_log_line-line_of timestamp source message l long plain known alnum sized no_blank trimmed
      fits =
    let (_, named, _) = level_name-parses l known in
    let p3 : Str = b' ' ∷ message ++ 10 ∷ [] in
    let p2 : Str = b' ' ∷ b'[' ∷ source ++ b']' ∷ p3 in
    let p1 : Str = b' ' ∷ b'[' ∷ level_name l ++ b']' ∷ p2 in
    parse_log_line-fields (line_of timestamp (level_name l) source message) timestamp (level_name l)
      source p1 p2 p3 (bracketed-first timestamp p1 plain) long
      (bracketed-next (level_name l) p2 named)
      (bracketed-next source p3 (alnum-no_bracket source alnum))
    ∙ finish_entry-line timestamp source message l known alnum (ground arith) no_blank trimmed fits
