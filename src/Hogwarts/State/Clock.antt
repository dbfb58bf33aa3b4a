-- ===== src/Hogwarts/State/Clock.antt =====
-- HW6's time-outs: who is disconnected, and how long `select` waits.
use system_programming_homew.Prelude.{
  ℕ, suc, ◌+◌, ◌-◌, ◌≤◌, ◌≡◌, refl, true, false, ltb, ◌⊎◌, inl, inr, if◌then◌else◌, List, [], ◌∷◌,
  arith, Option, none, some, All, get_elem?, Bool-cases,
}
use system_programming_homew.Hogwarts.State.{
  Client, is_connected, is_expired, reset_client, expire, disconnect_expired_clients,
  least_remaining, compute_select_timeout,
}

-- Each client against what became of it.
abbrev pub Both : (Client → Client → Type 0) → List Client → List Client → Type 0
Both R [] [] = Unit {0}
Both R [] (y ∷ ys) = ⊥
Both R (x ∷ xs) [] = ⊥
Both R (x ∷ xs) (y ∷ ys) = R x y × Both R xs ys

-- An expired client becomes a free slot; any other is left as it is.
abbrev pub AfterCheck : ℕ → ℕ → Client → Client → Type 0
AfterCheck timeout now c c' =
    (is_expired timeout now c ≡ true → c' ≡ reset_client)
    × (is_expired timeout now c ≡ false → c' ≡ c)
    × (is_expired timeout now c' ≡ false)

expire-AfterCheck :
    (timeout now : ℕ) (c : Client) → AfterCheck timeout now c (expire timeout now c).0
unfolding expire
expire-AfterCheck timeout now c = ground arith

-- The check at the head of the loop frees exactly the slots whose client was silent for the whole
-- timeout, leaves the others as they are, and leaves no expired client behind.
pub disconnect_expired-exact :
    (timeout now : ℕ) (cs : List Client)
    → Both (AfterCheck timeout now) cs (disconnect_expired_clients timeout now cs).0
unfolding disconnect_expired_clients
disconnect_expired-exact timeout now [] = tt
disconnect_expired-exact timeout now (c ∷ cs) =
    (expire-AfterCheck timeout now c, disconnect_expired-exact timeout now cs)

-- What the minimum over the clients says.
Least : ℕ → ℕ → List Client → Option ℕ → Type 0
Least timeout now cs none = All (λ c. is_connected c ≡ false) cs
Least timeout now cs (some m) =
    All (λ c. is_connected c ≡ true → m ≤ timeout + c.last_active - now) cs
    × ((i : ℕ) × (c : Client) × (get_elem? cs i ≡ some c)
        × (is_connected c ≡ true)
        × (m ≡ timeout + c.last_active - now))

All-weaken :
    (timeout now m k : ℕ) (cs : List Client)
    → k ≤ m
    → All (λ c. is_connected c ≡ true → m ≤ timeout + c.last_active - now) cs
    → All (λ c. is_connected c ≡ true → k ≤ timeout + c.last_active - now) cs
All-weaken timeout now m k [] h a = tt
All-weaken timeout now m k (c ∷ cs) h a =
    ((λ e. omega (arith, a.0 e)), All-weaken timeout now m k cs h a.1)

All-vacuous :
    (timeout now k : ℕ) (cs : List Client)
    → All (λ c. is_connected c ≡ false) cs
    → All (λ c. is_connected c ≡ true → k ≤ timeout + c.last_active - now) cs
All-vacuous timeout now k [] a = tt
All-vacuous timeout now k (c ∷ cs) a =
    ((λ e. absurd (ground arith)), All-vacuous timeout now k cs a.1)

least_remaining-Least :
    (timeout now : ℕ) (cs : List Client) → Least timeout now cs (least_remaining timeout now cs)
unfolding Least least_remaining
least_remaining-Least timeout now [] = tt
least_remaining-Least timeout now (c ∷ cs) =
    step (least_remaining timeout now cs) (least_remaining-Least timeout now cs)
      (Bool-cases (is_connected c))
  where
    here : ℕ
    here = timeout + c.last_active - now

    step :
        (later : Option ℕ)
        → Least timeout now cs later
        → (is_connected c ≡ true) ⊎ (is_connected c ≡ false)
        → Least timeout now (c ∷ cs) (
            if is_connected c
            then elim later [ none ↦ some here | some m ↦ if ltb m here then some m else some here ]
            else later)
    step none h (inl on) =
        rw on (((λ e. omega arith), All-vacuous timeout now here cs h), (0, c, refl, on, refl))
    step none h (inr off) = rw off (off, h)
    step (some m) h (inr off) =
        let (i, d, at, on, e) = h.1 in
        rw off (((λ q. absurd (ground arith)), h.0), (suc i, d, at, on, e))
    step (some m) h (inl on) = elim (Bool-cases (ltb m here)) [
      | inl less ↦
          let (i, d, at, on', e) = h.1 in
          rw (on, less) (((λ q. ground arith), h.0), (suc i, d, at, on', e))
      | inr more ↦
          rw (on, more)
            (
              ((λ q. omega arith), All-weaken timeout now m here cs (ground arith) h.0),
              (0, c, refl, on, refl),
            )
    ]

-- `select` waits no longer than until the earliest of the clients' deadlines, and exactly that long
-- (0 if it is past) when a client is connected; with no client it waits the whole timeout.
pub compute_select_timeout-exact :
    (timeout now : ℕ) (cs : List Client)
    → let wait = compute_select_timeout timeout now cs in
      (All (λ c. is_connected c ≡ false) cs × (wait ≡ timeout))
      ⊎ (All (λ c. is_connected c ≡ true → wait ≤ timeout + c.last_active - now) cs
          × ((i : ℕ) × (c : Client) × (get_elem? cs i ≡ some c)
              × (is_connected c ≡ true)
              × (wait ≡ timeout + c.last_active - now)))
unfolding compute_select_timeout Least
compute_select_timeout-exact timeout now cs =
    step (least_remaining timeout now cs) (least_remaining-Least timeout now cs)
  where
    step :
        (m : Option ℕ)
        → Least timeout now cs m
        → let wait : ℕ = elim m [ none ↦ timeout | some k ↦ k ] in
          (All (λ c. is_connected c ≡ false) cs × (wait ≡ timeout))
          ⊎ (All (λ c. is_connected c ≡ true → wait ≤ timeout + c.last_active - now) cs
              × ((i : ℕ) × (c : Client) × (get_elem? cs i ≡ some c)
                  × (is_connected c ≡ true)
                  × (wait ≡ timeout + c.last_active - now)))
    step none h = inl (h, refl)
    step (some k) h = inr h
