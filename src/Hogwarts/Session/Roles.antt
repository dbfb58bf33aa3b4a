-- ===== src/Hogwarts/Session/Roles.antt =====
-- Who may do what on HW6's server.
use system_programming_homew.Prelude.{
  ℕ, ◌≡◌, refl, false, inl, inr, List, [], ◌∷◌, arith, Str, codes, str_eq, take, Bool-cases,
}
use system_programming_homew.Libc.Scan.{c_string}
use system_programming_homew.Libc.Tokens.{tokens}
use system_programming_homew.Hogwarts.State.{Client, Server, is_empty}
use system_programming_homew.Hogwarts.Handlers.{reply, update_client, is_wizard}
use system_programming_homew.Hogwarts.Handlers.Enroll.{handle_brew-refuses, ingredients-enroll}
use system_programming_homew.Hogwarts.Session.{
  is_delimiter, apparate, dispatch, run_tokens, process_command,
}

ingredients-apparate :
    (s : Server) (i : ℕ) (c : Client) (command : Str) (rest : List Str)
    → (apparate s i c command rest).server.ingredients ≡ s.ingredients
unfolding apparate
ingredients-apparate s i c command [] = refl
ingredients-apparate s i c command (_ ∷ _) = refl

ingredients-dispatch :
    (s : Server) (i : ℕ) (c : Client) (command : Str) (rest : List Str)
    → is_wizard c ≡ false
    → (dispatch s i c command rest).server.ingredients ≡ s.ingredients
unfolding dispatch
ingredients-dispatch s i c command rest h =
    let refused = handle_brew-refuses s i c command (command ∷ rest) h in
    elim (Bool-cases (str_eq command (codes "APPARATE"))) [
      | inl a ↦ rw a (ingredients-apparate s i c command rest)
      | inr a ↦ elim (Bool-cases (str_eq command (codes "BREW"))) [
        | inl b ↦ rw (a, b, refused.0)
        | inr b ↦ elim (Bool-cases (str_eq command (codes "CONSUME"))) [
          | inl d ↦ rw (a, b, d, refused.1)
          | inr d ↦ rw (a, b, d)
        ]
      ]
    ]

-- Whatever line a client sends that is not enrolled as a wizard, the stock stays as it is.
pub stock_is_for_wizards :
    (now : ℕ) (s : Server) (i : ℕ) (c : Client) (text : Str)
    → is_wizard c ≡ false
    → (process_command now s i c text).server.ingredients ≡ s.ingredients
unfolding process_command run_tokens
stock_is_for_wizards now s i c text h = run (take 8 (tokens is_delimiter (c_string text)))
  where
    c' : Client
    c' = record c { last_active = now }

    run :
        (words : List Str)
        → (run_tokens (update_client s i c') i c' words).server.ingredients ≡ s.ingredients
    run [] = refl
    run (command ∷ rest) = elim (Bool-cases (str_eq command (codes "ENROLL"))) [
      | inl e ↦ rw e (ingredients-enroll (update_client s i c') i c' (command ∷ rest))
      | inr e ↦ elim (Bool-cases (is_empty c.username)) [
        | inl u ↦ rw (e, u)
        | inr u ↦ rw (e, u) (ingredients-dispatch (update_client s i c') i c' command rest h)
      ]
    ]

-- Before it is enrolled, a client gets ERR NOT_ENROLLED for every command but ENROLL, and only the
-- time of its last activity changes.
pub not_enrolled-refused :
    (now : ℕ) (s : Server) (i : ℕ) (c : Client) (text command : Str) (rest : List Str)
    → c.username ≡ []
    → take 8 (tokens is_delimiter (c_string text)) ≡ command ∷ rest
    → str_eq command (codes "ENROLL") ≡ false
    → process_command now s i c text ≡ record {
      server = update_client s i (record c { last_active = now });
      events = reply c (codes "ERR NOT_ENROLLED");
      gone = false;
    }
unfolding process_command run_tokens
not_enrolled-refused now s i c text command rest new words other = rw (words, other) (ground arith)
