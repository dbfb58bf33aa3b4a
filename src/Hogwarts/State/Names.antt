-- ===== src/Hogwarts/State/Names.antt =====
-- What the client table of HW6 keeps: its number of slots, distinct user names, and line buffers
-- within MAX_LINE; and how the operations on the table keep it.
use system_programming_homew.Prelude.{
  ℕ, zero, suc, ◌≤◌, ◌≡◌, refl, Bool, false, inl, inr, if◌then◌else◌, List, [], ◌∷◌, arith, none,
  some, Str, length, set, get_elem?, get_elem?-set_self, length-set, sum_of, sum_of-set, All,
  All-set, All-get, lt-of-get_elem?, Bool-cases, Option-cases,
}
use system_programming_homew.Hogwarts.Wire.{max_line}
use system_programming_homew.Hogwarts.State.{
  Client, Server, has_name, username_exists, reset_client, disconnect_client, find_free_slot,
  accept_new_client, expire, disconnect_expired_clients,
}

-- 1 for a connected client that is enrolled under the name.
abbrev pub weight : Str → Client → ℕ
weight u c = if has_name u c then 1 else 0

pub record Inv (n : ℕ) (cs : List Client) : Type 0 where
  pub slots : length cs ≡ n
  pub names : (u : Str) → sum_of (weight u) cs ≤ 1
  pub buffers : All (λ c. length c.line_buf ≤ max_line) cs

abbrev pub At : List Client → ℕ → Client → Type 0
At cs i c = get_elem? cs i ≡ some c

pub set-At : (cs : List Client) (i : ℕ) (c c' : Client) → At cs i c → At (set cs i c') i c'
set-At cs i c c' at = get_elem?-set_self cs i c' (lt-of-get_elem? cs i c at)

pub set-Inv :
    {n : ℕ} {cs : List Client} (i : ℕ) (c c' : Client)
    → At cs i c
    → length c'.line_buf ≤ max_line
    → ((u : Str) → weight u c' ≤ weight u c)
    → Inv n cs
    → Inv n (set cs i c')
set-Inv {n} {cs} i c c' at fits less inv = record {
  slots = omega (arith, length-set cs i c', inv.slots);
  names = λ u. omega (arith, sum_of-set (weight u) cs i c c' at, less u, inv.names u);
  buffers = All-set _ cs i c' fits inv.buffers;
}

pub At-fits :
    {n : ℕ} {cs : List Client} (i : ℕ) (c : Client)
    → At cs i c
    → Inv n cs
    → length c.line_buf ≤ max_line
At-fits {cs = cs} i c at inv = All-get (λ c. length c.line_buf ≤ max_line) cs i c inv.buffers at

pub username_exists-sum :
    (cs : List Client) (u : Str) → username_exists cs u ≡ false → sum_of (weight u) cs ≡ 0
unfolding username_exists
username_exists-sum [] u h = refl
username_exists-sum (c ∷ cs) u h = ground (arith, username_exists-sum cs u)

reset_client-weight : (u : Str) → weight u reset_client ≡ 0
reset_client-weight u = refl

pub disconnect_client-Inv :
    {n : ℕ} (cs : List Client) (i : ℕ) → Inv n cs → Inv n (disconnect_client cs i).0
unfolding disconnect_client
disconnect_client-Inv cs i inv = elim (Option-cases (get_elem? cs i)) [
  | inl e ↦ rw (e, disconnect_client) inv
  | inr (c, e) ↦ elim (Option-cases c.fd) [
    | inl f ↦ rw (e, disconnect_client, f) inv
    | inr (fd, f) ↦
        rw (e, disconnect_client, f)
          (set-Inv i c reset_client e (omega arith) (λ u. ground arith) inv)
  ]
]

find_free_slot-At :
    (cs : List Client) (i : ℕ)
    → find_free_slot cs ≡ some i
    → (c : Client) × At cs i c × (c.fd ≡ none)
unfolding find_free_slot
find_free_slot-At [] i e = cc
find_free_slot-At (c ∷ cs) zero e = (c, refl, ground arith)
find_free_slot-At (c ∷ cs) (suc i) e = find_free_slot-At cs i (ground arith)

pub accept_new_client-Inv :
    {n : ℕ} (memory : Bool) (now fd : ℕ) (s : Server)
    → Inv n s.clients
    → Inv n (accept_new_client memory now fd s).0.clients
unfolding accept_new_client
accept_new_client-Inv memory now fd s inv = elim (Option-cases (find_free_slot s.clients)) [
  | inl e ↦ rw (e, accept_new_client) inv
  | inr (slot, e) ↦
      let (c, at, free) = find_free_slot-At s.clients slot e in
      rw (e, accept_new_client)
        (elim (Bool-cases memory) [
          | inl m ↦ rw m (set-Inv slot c _ at (omega arith) (λ u. ground arith) inv)
          | inr m ↦ rw m (set-Inv slot c _ at (omega arith) (λ u. ground arith) inv)
        ])
]

-- A client that is only ever reset, or left as it is, breaks nothing.
expire-weight :
    (t now : ℕ) (c : Client) (u : Str)
    → (weight u (expire t now c).0 ≤ weight u c)
      × (length c.line_buf ≤ max_line → length (expire t now c).0.line_buf ≤ max_line)
unfolding expire
expire-weight t now c u = ground arith

expired-sums :
    (t now : ℕ) (cs : List Client)
    → ((u : Str) → sum_of (weight u) (disconnect_expired_clients t now cs).0 ≤ sum_of (weight u) cs)
      × (length (disconnect_expired_clients t now cs).0 ≡ length cs)
      × (All (λ c. length c.line_buf ≤ max_line) cs
          → All (λ c. length c.line_buf ≤ max_line) (disconnect_expired_clients t now cs).0)
unfolding disconnect_expired_clients
expired-sums t now [] = ((λ u. omega arith), refl, λ h. tt)
expired-sums t now (c ∷ cs) =
    let (sums, len, fits) = expired-sums t now cs in
    (
      (λ u. omega (arith, sums u, expire-weight t now c u)),
      omega (arith, len),
      λ h. ((expire-weight t now c []).1 h.0, fits h.1),
    )

pub disconnect_expired-Inv :
    {n : ℕ} (t now : ℕ) (cs : List Client)
    → Inv n cs
    → Inv n (disconnect_expired_clients t now cs).0
disconnect_expired-Inv t now cs inv =
    let (sums, len, fits) = expired-sums t now cs in
    record {
      slots = omega (arith, len, inv.slots);
      names = λ u. omega (arith, sums u, inv.names u);
      buffers = fits inv.buffers;
    }
