-- ===== src/Hogwarts/Session/Invariant.antt =====
-- What every history of HW6's server keeps: its number of slots, distinct user names, and line
-- buffers within MAX_LINE.
use system_programming_homew.Prelude.{
  ℕ, zero, suc, ◌≤◌, ◌≡◌, refl, inl, inr, List, [], ◌∷◌, arith, Str, codes, str_eq, length, take,
  get_elem?, length-append, Bool-cases, Option-cases,
}
use system_programming_homew.Libc.Scan.{c_string}
use system_programming_homew.Libc.Tokens.{tokens}
use system_programming_homew.Hogwarts.Wire.{max_line}
use system_programming_homew.Hogwarts.State.{Client, Server, is_empty}
use system_programming_homew.Hogwarts.State.Names.{
  weight, Inv, At, set-At, set-Inv, At-fits, disconnect_client-Inv, accept_new_client-Inv,
  disconnect_expired-Inv,
}
use system_programming_homew.Hogwarts.Handlers.{update_client}
use system_programming_homew.Hogwarts.Handlers.Enroll.{
  handle_enroll-Inv, handle_brew-Inv, handle_consume-Inv,
}
use system_programming_homew.Hogwarts.Session.{
  is_delimiter, apparate, dispatch, run_tokens, process_command, Framed, keep, too_long, line,
  frame, take_frame, feed_byte, feed_client_data, Input, connection, received, hung_up, time_passed,
  is_connected_at, serve, run, free_slots,
}

module _ {n : ℕ} (s : Server) (i : ℕ) (c : Client) (at : At s.clients i c)
    (inv : Inv n s.clients) where
  apparate-Inv :
      (command : Str) (rest : List Str) → Inv n (apparate s i c command rest).server.clients
  unfolding apparate
  apparate-Inv command [] = disconnect_client-Inv s.clients i inv
  apparate-Inv command (_ ∷ _) = inv

  dispatch-Inv :
      (command : Str) (rest : List Str) → Inv n (dispatch s i c command rest).server.clients
  unfolding dispatch
  dispatch-Inv command rest = elim (Bool-cases (str_eq command (codes "APPARATE"))) [
    | inl a ↦ rw a (apparate-Inv command rest)
    | inr a ↦ elim (Bool-cases (str_eq command (codes "BREW"))) [
      | inl b ↦ rw (a, b) (handle_brew-Inv s i c at inv command (command ∷ rest))
      | inr b ↦ elim (Bool-cases (str_eq command (codes "CONSUME"))) [
        | inl d ↦ rw (a, b, d) (handle_consume-Inv s i c at inv command (command ∷ rest))
        | inr d ↦ rw (a, b, d) inv
      ]
    ]
  ]

  run_tokens-Inv : (words : List Str) → Inv n (run_tokens s i c words).server.clients
  unfolding run_tokens
  run_tokens-Inv [] = inv
  run_tokens-Inv (command ∷ rest) = elim (Bool-cases (str_eq command (codes "ENROLL"))) [
    | inl e ↦ rw e (handle_enroll-Inv s i c at inv (command ∷ rest))
    | inr e ↦ elim (Bool-cases (is_empty c.username)) [
      | inl u ↦ rw (e, u) inv
      | inr u ↦ rw (e, u) (dispatch-Inv command rest)
    ]
  ]

  -- The client's entry is replaced by one with the same name and a buffer that fits.
  updated-Inv :
      (c' : Client)
      → length c'.line_buf ≤ max_line
      → ((u : Str) → weight u c' ≤ weight u c)
      → Inv n (update_client s i c').clients
  updated-Inv c' fits less = set-Inv i c c' at fits less inv

process_command-Inv :
    {n : ℕ} (now : ℕ) (s : Server) (i : ℕ) (c : Client) (text : Str)
    → At s.clients i c
    → Inv n s.clients
    → Inv n (process_command now s i c text).server.clients
unfolding process_command
process_command-Inv now s i c text at inv =
    let c' : Client = record c { last_active = now } in
    run_tokens-Inv (update_client s i c') i c' (set-At s.clients i c c' at)
      (updated-Inv s i c at inv c' (At-fits i c at inv) (λ u. omega arith))
      (take 8 (tokens is_delimiter (c_string text)))

-- What a frame's client has to satisfy beside the client before it.
abbrev Fits : Client → Client → Type 0
Fits c c' = (length c'.line_buf ≤ max_line) × (c'.username ≡ c.username) × (c'.fd ≡ c.fd)

FrameFits : Client → Framed → Type 0
FrameFits c (keep c') = Fits c c'
FrameFits c (too_long c') = Fits c c'
FrameFits c (line c' text) = Fits c c'

frame-Fits : (c : Client) (ch : ℕ) → length c.line_buf ≤ max_line → FrameFits c (frame c ch)
unfolding frame FrameFits
frame-Fits c ch h = ground (arith, length-append c.line_buf (ch ∷ []))

take_frame-Inv :
    {n : ℕ} (now : ℕ) (s : Server) (i : ℕ) (c : Client) (f : Framed)
    → At s.clients i c
    → Inv n s.clients
    → FrameFits c f
    → Inv n (take_frame now s i f).server.clients
unfolding take_frame FrameFits
take_frame-Inv now s i c (keep c') at inv h = updated-Inv s i c at inv c' h.0 (λ u. ground arith)
take_frame-Inv now s i c (too_long c') at inv h =
    updated-Inv s i c at inv c' h.0 (λ u. ground arith)
take_frame-Inv now s i c (line c' text) at inv h =
    process_command-Inv now (update_client s i c') i c' text (set-At s.clients i c c' at)
      (updated-Inv s i c at inv c' h.0 (λ u. ground arith))

feed_byte-Inv :
    {n : ℕ} (now : ℕ) (s : Server) (i ch : ℕ)
    → Inv n s.clients
    → Inv n (feed_byte now s i ch).server.clients
unfolding feed_byte
feed_byte-Inv now s i ch inv = elim (Option-cases (get_elem? s.clients i)) [
  | inl e ↦ rw (e, feed_byte) inv
  | inr (c, e) ↦
      rw (e, feed_byte)
        (take_frame-Inv now s i c (frame c ch) e inv (frame-Fits c ch (At-fits i c e inv)))
]

feed-Inv :
    {n : ℕ} (now : ℕ) (s : Server) (i : ℕ) (buf : Str)
    → Inv n s.clients
    → Inv n (feed_client_data now s i buf).server.clients
unfolding feed_client_data
feed-Inv now s i [] inv = inv
feed-Inv now s i (ch ∷ buf) inv = elim (Bool-cases (feed_byte now s i ch).gone) [
  | inl e ↦ rw (e, feed_client_data) (feed_byte-Inv now s i ch inv)
  | inr e ↦
      rw (e, feed_client_data)
        (feed-Inv now (feed_byte now s i ch).server i buf (feed_byte-Inv now s i ch inv))
]

-- Each input keeps the number of slots, the distinct names and the bound on the line buffers.
pub serve-Inv :
    {n : ℕ} (now : ℕ) (s : Server) (input : Input)
    → Inv n s.clients
    → Inv n (serve now s input).0.clients
unfolding serve
serve-Inv now s (connection memory fd) inv = accept_new_client-Inv memory now fd s inv
serve-Inv now s (received i buf) inv = elim (Bool-cases (is_connected_at s.clients i)) [
  | inl e ↦ rw e (feed-Inv now s i buf inv)
  | inr e ↦ rw e inv
]
serve-Inv now s (hung_up i) inv = disconnect_client-Inv s.clients i inv
serve-Inv now s time_passed inv = disconnect_expired-Inv s.timeout_seconds now s.clients inv

free_slots-Inv : (n : ℕ) → Inv n (free_slots n)
free_slots-Inv zero = record { slots = refl; names = λ u. omega arith; buffers = tt }
free_slots-Inv (suc n) =
    let rest = free_slots-Inv n in
    record {
      slots = omega (arith, rest.slots);
      names = λ u. ground (arith, rest.names u);
      buffers = (omega arith, rest.buffers);
    }

run-keeps :
    {n : ℕ} (s : Server) (inputs : List (ℕ × Input))
    → Inv n s.clients
    → Inv n (run s inputs).0.clients
unfolding run
run-keeps s [] inv = inv
run-keeps s ((now, input) ∷ inputs) inv =
    run-keeps (serve now s input).0 inputs (serve-Inv now s input inv)

-- After any history of connections, bytes, hang-ups and waits, from a table of `n` free slots: the
-- table has `n` slots, no two connected clients are enrolled under one name, and no client's line
-- buffer holds more than MAX_LINE bytes.
pub run-Inv :
    (n : ℕ) (s : Server) (inputs : List (ℕ × Input))
    → s.clients ≡ free_slots n
    → Inv n (run s inputs).0.clients
run-Inv n s inputs e = run-keeps s inputs (rw e (free_slots-Inv n))
