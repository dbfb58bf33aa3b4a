-- ===== src/Libc/Tokens.antt =====
-- `strtok_r`: the maximal runs of bytes that are not delimiters.
use system_programming_homew.Prelude.{
  ℕ, ◌≡◌, Bool, true, false, if◌then◌else◌, List, [], ◌∷◌, Str, All, ◌≢◌, Bool-cases, inl, inr,
}

-- The delimiters pass the test. A token grows at its front; `true` says that the last byte read
-- belongs to the token that is first in the list.
grow : Bool → ℕ → List Str → List Str
grow true c (token ∷ rest) = (c ∷ token) ∷ rest
grow true c [] = (c ∷ []) ∷ []
grow false c rest = (c ∷ []) ∷ rest

tokens_with : (ℕ → Bool) → Str → Bool × List Str
unfolding grow
tokens_with delim [] = (false, [])
tokens_with delim (c ∷ s) =
    let (inside, found) = tokens_with delim s in
    if delim c then (false, found) else (true, grow inside c found)

unfoldable pub tokens : (ℕ → Bool) → Str → List Str
unfolding tokens_with
tokens delim s = (tokens_with delim s).1

-- A token is not empty and holds no delimiter.
abbrev pub IsToken : (ℕ → Bool) → Str → Type 0
IsToken delim t = (t ≢ []) × All (λ c. delim c ≡ false) t

tokens_with-IsToken : (delim : ℕ → Bool) (s : Str) → All (IsToken delim) (tokens_with delim s).1
unfolding tokens_with
tokens_with-IsToken delim [] = tt
tokens_with-IsToken delim (c ∷ s) = elim (Bool-cases (delim c)) [
  | inl e ↦ rw e (tokens_with-IsToken delim s)
  | inr e ↦
      rw e (grown e (tokens_with delim s).0 (tokens_with delim s).1 (tokens_with-IsToken delim s))
]
  where
    grown :
        delim c ≡ false
        → (inside : Bool) (found : List Str) → All (IsToken delim) found
        → All (IsToken delim) (grow inside c found)
    grown e true [] h = (((λ q. cc), (e, tt)), tt)
    grown e true (t ∷ ts) h = (((λ q. cc), (e, h.0.1)), h.1)
    grown e false found h = (((λ q. cc), (e, tt)), h)

pub tokens-IsToken : (delim : ℕ → Bool) (s : Str) → All (IsToken delim) (tokens delim s)
unfolding tokens
tokens-IsToken delim s = tokens_with-IsToken delim s
