-- ===== src/Search/Pattern.antt =====
-- HW2/pattern.c, and the matcher of HW1/HW1.c: patterns in which `+` repeats the byte before it.
-- A name is its list of bytes, none of them NUL.
pub mod Matching
mod Tests
use system_programming_homew.Prelude.{
  ℕ, zero, suc, ◌+◌, Bool, true, false, not, ◌&&◌, ◌||◌, ◌==◌, if◌then◌else◌, List, [], ◌∷◌, Str,
  take, to_lower, is_alnum,
}
use system_programming_homew.Libc.Tokens.{tokens}

-- Equal but for case.
pub same_letter : ℕ → ℕ → Bool
same_letter p c = to_lower p == to_lower c

-- The loop of `match_rec` over `backtrack_ptr`: the longest run of `p` first, and its own end last.
-- `rest` matches what follows in the pattern.
pub backtrack : (Str → Bool) → ℕ → Str → Bool
unfolding same_letter
backtrack rest p [] = rest []
backtrack rest p (c ∷ s) = (same_letter p c && backtrack rest p s) || rest (c ∷ s)

-- `p+` at a position: at least one byte.
pub repeated : (Str → Bool) → ℕ → Str → Bool
unfolding same_letter backtrack
repeated rest p [] = false
repeated rest p (c ∷ s) = same_letter p c && backtrack rest p s

-- One byte of the pattern against one of the name.
pub single : (Str → Bool) → ℕ → Str → Bool
unfolding same_letter
single rest p [] = false
single rest p (c ∷ s) = same_letter p c && rest s

abbrev pub is_end : Str → Bool
is_end [] = true
is_end (c ∷ s) = false

pub match_rec : Str → Str → Bool
unfolding repeated single
match_rec [] s = is_end s
match_rec (p ∷ []) s = single is_end p s
match_rec (p ∷ q ∷ pat) s =
    if q == b'+' then repeated (match_rec pat) p s else single (match_rec (q ∷ pat)) p s

-- The name up to its first dot, cut to the size of `stem`.
stem_from : Str → Str
stem_from [] = []
stem_from (c ∷ s) = let later = stem_from s in if c == b'.' then [] else c ∷ later

pub stem_of : Str → Str
unfolding stem_from
stem_of filename = take 255 (stem_from filename)

-- The runs of letters and digits of the stem. None is longer than `segment`.
pub segments : Str → List Str
segments stem = tokens (λ c. not (is_alnum c)) stem

pub match_any : Str → List Str → Bool
match_any pattern [] = false
match_any pattern (segment ∷ rest) = match_rec pattern segment || match_any pattern rest

pub match_pattern : Str → Str → Bool
unfolding match_any
match_pattern pattern filename =
    match_rec pattern filename
    || match_rec pattern (stem_of filename)
    || match_any pattern (segments (stem_of filename))

-- HW1: `p+` takes the whole run of `p`, without another try.
pub skip_run : ℕ → Str → Str
unfolding same_letter
skip_run p [] = []
skip_run p (c ∷ s) = if same_letter p c then skip_run p s else c ∷ s

pub greedy : (Str → Bool) → ℕ → Str → Bool
unfolding same_letter skip_run
greedy rest p [] = false
greedy rest p (c ∷ s) = same_letter p c && rest (skip_run p s)

-- `match_filename` of HW1.
pub match_filename : Str → Str → Bool
unfolding greedy single
match_filename [] s = is_end s
match_filename (p ∷ []) s = single is_end p s
match_filename (p ∷ q ∷ pat) s =
    if q == b'+' then greedy (match_filename pat) p s else single (match_filename (q ∷ pat)) p s
