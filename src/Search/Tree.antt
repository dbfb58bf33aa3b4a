-- ===== src/Search/Tree.antt =====
-- HW1 and HW2: what `opendir`, `readdir` and `lstat` answer below a directory, and every entry there.
-- A directory that cannot be opened is one without entries.
use system_programming_homew.Prelude.{
  ℕ, suc, ◌/◌, ◌%◌, Bool, not, ◌||◌, ◌==◌, if◌then◌else◌, List, [], ◌∷◌, ◌++◌, Str, codes, str_eq,
}

pub record Stat : Type 0 where
  pub mode : ℕ
  pub size : ℕ
  pub nlink : ℕ

-- `unreadable` is a name for which `lstat` fails.
mutual
  pub data Node : Type 0 where
    unreadable : Node
    present : Stat → Listing → Node

  pub data Listing : Type 0 where
    ended : Listing
    entry : Str → Node → Listing → Listing

-- `S_ISDIR` and `S_ISREG`, by the number that `S_IFMT` keeps.
abbrev pub file_type : ℕ → ℕ
file_type mode = mode / 4096 % 16

abbrev pub is_dir : ℕ → Bool
is_dir mode = file_type mode == 4

abbrev pub is_reg : ℕ → Bool
is_reg mode = file_type mode == 8

unfoldable pub is_dots : Str → Bool
is_dots name = str_eq name (codes ".") || str_eq name (codes "..")

abbrev pub join : Str → Str → Str
join path name = path ++ b'/' ∷ name

pub record Found : Type 0 where
  pub path : Str
  pub name : Str
  pub depth : ℕ
  pub stat : Stat

-- Every entry below a directory, in the order of the walk, but for those whose path does not fit.
unfoldable mutual
  unfolding is_dots

  pub entries_below : (Str → Bool) → ℕ → Str → Listing → List Found
  entries_below holds depth path ended = []
  entries_below holds depth path (entry name node rest) =
      entries_at holds depth (join path name) name node ++ entries_below holds depth path rest

  pub entries_at : (Str → Bool) → ℕ → Str → Str → Node → List Found
  entries_at holds depth path name unreadable = []
  entries_at holds depth path name (present stat sub) =
      let inside = entries_below holds (suc depth) path sub in
      if is_dots name || not (holds path)
      then []
      else record { path = path; name = name; depth = depth; stat = stat }
        ∷ (if is_dir stat.mode then inside else [])

abbrev pub select {ℓ} : {A : Type ℓ} → (A → Bool) → List A → List A
select p [] = []
select p (x ∷ xs) = if p x then x ∷ select p xs else select p xs
