-- ===== src/Search/Criteria.antt =====
-- HW1/HW1.c: the criteria on a file, the permissions, and the recursive search.
-- A number of the command line is a sign and a magnitude; -1 is a criterion that is not given.
pub mod Permissions
pub mod Exact
mod Tests
use system_programming_homew.Prelude.{
  ℕ, zero, suc, ◌+◌, ◌-◌, ◌*◌, ◌/◌, ◌%◌, Bool, true, false, not, ◌&&◌, ◌||◌, ◌==◌, ltb,
  if◌then◌else◌, List, [], ◌∷◌, ◌++◌, Str, Option, none, some, length, replicate,
}
use system_programming_homew.Libc.Scan.{SignedNumber}
use system_programming_homew.Search.Pattern.{match_filename}
use system_programming_homew.Search.Tree.{
  Stat, Node, unreadable, present, Listing, ended, entry, file_type, is_dir, is_dots, join,
}

-- The type is 0 if none is given.
pub record Criteria : Type 0 where
  pub filename : Option Str
  pub size : SignedNumber
  pub type : ℕ
  pub permissions : Option Str
  pub nlinks : SignedNumber

abbrev pub not_given : SignedNumber → Bool
not_given n = n.negative && (n.magnitude == 1)

abbrev pub is_number : SignedNumber → ℕ → Bool
is_number n k = (n.magnitude == k) && (not n.negative || (k == 0))

pub match_type : ℕ → ℕ → Bool
match_type mode t =
    let kind = file_type mode in
    if t == b'd'
    then kind == 4
    else if t == b's'
    then kind == 12
    else if t == b'b'
    then kind == 6
    else if t == b'c'
    then kind == 2
    else if t == b'f'
    then kind == 8
    else if t == b'p'
    then kind == 1
    else if t == b'l'
    then kind == 10
    else false

-- Which permissions must be there, and which must not.
pub parse_permission : Str → List Bool
parse_permission [] = []
parse_permission (c ∷ permission) = not (c == b'-') ∷ parse_permission permission

-- `macros`: S_IRUSR, S_IWUSR, S_IXUSR, S_IRGRP, ..., S_IXOTH.
abbrev pub macros : List ℕ
macros = 256 ∷ 128 ∷ 64 ∷ 32 ∷ 16 ∷ 8 ∷ 4 ∷ 2 ∷ 1 ∷ []

-- `mode & macro` for a macro of one bit.
abbrev pub has_bit : ℕ → ℕ → Bool
has_bit mode macro = mode / macro % 2 == 1

pub match_bits : ℕ → List Bool → List ℕ → Bool
match_bits mode (wanted ∷ bits) (macro ∷ rest) =
    let later = match_bits mode bits rest in
    if wanted
    then (if not (has_bit mode macro) then false else later)
    else if has_bit mode macro
    then false
    else later
match_bits mode [] rest = true
match_bits mode (wanted ∷ bits) [] = true

pub match_permission : ℕ → Str → Bool
unfolding match_bits parse_permission
match_permission mode permissions = match_bits mode (parse_permission permissions) macros

abbrev pub fails_filename : Option Str → Str → Bool
fails_filename none filename = false
fails_filename (some pattern) filename = not (match_filename pattern filename)

abbrev pub fails_permission : Option Str → ℕ → Bool
fails_permission none mode = false
fails_permission (some permissions) mode = not (match_permission mode permissions)

pub check_criteria : Stat → Criteria → Str → Bool
check_criteria st c filename =
    if not (not_given c.size) && not (is_number c.size st.size)
    then false
    else if fails_filename c.filename filename
    then false
    else if not (c.type == 0) && not (match_type st.mode c.type)
    then false
    else if fails_permission c.permissions st.mode
    then false
    else if not (not_given c.nlinks) && not (is_number c.nlinks st.nlink)
    then false
    else true

-- A line of the output.
pub print_result : Str → ℕ → Str
print_result name depth = b'|' ∷ replicate (depth * 4 - 2) b'-' ++ name

pub record Output : Type 0 where
  pub found : ℕ
  pub printed : List Str

pub report : Stat → Criteria → Str → ℕ → Output → Output
report st c name depth out =
    if check_criteria st c name
    then record { found = out.found + 1; printed = out.printed ++ print_result name depth ∷ [] }
    else out

-- The buffer for a path has 1024 bytes.
unfoldable mutual
  pub search : Str → Listing → Criteria → ℕ → Output → Output
  search path ended c depth out = out
  search path (entry name node rest) c depth out =
      search path rest c depth (search_entry (join path name) name node c depth out)

  pub search_entry : Str → Str → Node → Criteria → ℕ → Output → Output
  search_entry path name unreadable c depth out = out
  search_entry path name (present st sub) c depth out =
      let reported = report st c name depth out in
      let inside = search path sub c (suc depth) reported in
      if is_dots name || not (ltb (length path) 1024)
      then out
      else if is_dir st.mode
      then inside
      else reported
