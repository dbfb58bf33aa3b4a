-- ===== src/Hogwarts/Handlers/Enroll.antt =====
-- The commands of HW6 keep the invariant of the client table.
use system_programming_homew.Prelude.{
  ℕ, zero, suc, ◌≤◌, ◌≡◌, refl, true, false, ◌||◌, inl, inr, List, [], ◌∷◌, arith, Str, codes,
  str_eq, str_eq→eq, length, take, set, length-set, sum_of-set, All-set, Bool-cases, Option-cases,
}
use system_programming_homew.Hogwarts.Wire.{valid_username}
use system_programming_homew.Hogwarts.Int32.{lt_int}
use system_programming_homew.Hogwarts.State.{
  Client, Server, Event, username_exists, find_ingredient,
}
use system_programming_homew.Hogwarts.State.Names.{
  weight, Inv, At, set-Inv, At-fits, username_exists-sum,
}
use system_programming_homew.Hogwarts.Handlers.{
  enroll_as, handle_enroll, amount_of, with_amount, brew, consume, handle_brew, handle_consume,
  reply, is_bad_enroll, is_taken, is_wizard, stock_of, spell_of,
}

take_all : {A : Type 0} (k : ℕ) (xs : List A) → length xs ≤ k → take k xs ≡ xs
take_all zero [] h = refl
take_all zero (x ∷ xs) h = elim h [ ]
take_all (suc k) [] h = refl
take_all (suc k) (x ∷ xs) h = rw (take_all k xs (omega arith))

valid_username-take : (name : Str) → valid_username name ≡ true → take 31 name ≡ name
unfolding valid_username
valid_username-take name h = take_all 31 name (ground arith)

module _ {n : ℕ} (s : Server) (i : ℕ) (c : Client) (at : At s.clients i c)
    (inv : Inv n s.clients) where
  enrolled-Inv :
      (name kind : Str)
      → username_exists s.clients name ≡ false
      → Inv n (set s.clients i (record c { username = name; kind = kind }))
  enrolled-Inv name kind new =
      let c' : Client = record c { username = name; kind = kind } in
      record {
        slots = omega (arith, length-set s.clients i c', inv.slots);
        names = λ u. elim (Bool-cases (str_eq name u)) [
          | inl e ↦ ground (
            arith,
            str_eq→eq name u e,
            sum_of-set (weight u) s.clients i c c' at,
            username_exists-sum s.clients name new,
          )
          | inr e ↦ ground (arith, sum_of-set (weight u) s.clients i c c' at, inv.names u)
        ];
        buffers = All-set _ s.clients i c' (At-fits i c at inv) inv.buffers;
      }

  enroll_as-Inv : (kind name : Str) → Inv n (enroll_as s i c kind name).0.clients
  unfolding enroll_as
  enroll_as-Inv kind name = elim (Bool-cases (is_bad_enroll kind name)) [
    | inl bad ↦ rw bad inv
    | inr good ↦ elim (Bool-cases (is_taken s c name)) [
      | inl taken ↦ rw (good, taken) inv
      | inr free ↦
          rw (good, free, valid_username-take name (ground arith))
            (enrolled-Inv name (take 15 kind) (ground arith))
    ]
  ]

  pub handle_enroll-Inv : (tokens : List Str) → Inv n (handle_enroll s i c tokens).0.clients
  unfolding handle_enroll
  handle_enroll-Inv (a ∷ kind ∷ name ∷ []) = enroll_as-Inv kind name
  handle_enroll-Inv _ = inv

  -- Only the client's spellbook changes in the table.
  spelled-Inv : (book : List ℕ) → Inv n (set s.clients i (record c { spellbook = book }))
  spelled-Inv book = set-Inv i c _ at (At-fits i c at inv) (λ u. omega arith) inv

  brew-Inv : (idx qty : ℕ) → Inv n (brew s i c idx qty).0.clients
  unfolding brew
  brew-Inv idx qty = spelled-Inv _

  consume-Inv : (idx qty : ℕ) → Inv n (consume s i c idx qty).0.clients
  unfolding consume
  consume-Inv idx qty =
      elim (Bool-cases (lt_int (stock_of s idx) qty || lt_int (spell_of c idx) qty)) [
        | inl e ↦ rw e inv
        | inr e ↦ rw e (spelled-Inv _)
      ]

  with_amount-Inv :
      (work : Server → ℕ → Client → ℕ → ℕ → Server × List Event) (command : Str) (tokens : List Str)
      → ((idx qty : ℕ) → Inv n (work s i c idx qty).0.clients)
      → Inv n (with_amount work s i c command tokens).0.clients
  unfolding with_amount
  with_amount-Inv work command tokens keep = elim (Bool-cases (is_wizard c)) [
    | inr e ↦ rw e inv
    | inl e ↦ rw e (elim (Option-cases (amount_of tokens)) [
      | inl f ↦ rw f inv
      | inr ((name, qty), f) ↦ rw f (elim (Option-cases (find_ingredient s.ingredients name)) [
        | inl g ↦ rw g inv
        | inr (idx, g) ↦ rw g (keep idx qty)
      ])
    ])
  ]

  pub handle_brew-Inv :
      (command : Str) (tokens : List Str) → Inv n (handle_brew s i c command tokens).0.clients
  unfolding handle_brew
  handle_brew-Inv command tokens = with_amount-Inv brew command tokens brew-Inv

  pub handle_consume-Inv :
      (command : Str) (tokens : List Str) → Inv n (handle_consume s i c command tokens).0.clients
  unfolding handle_consume
  handle_consume-Inv command tokens = with_amount-Inv consume command tokens consume-Inv

-- Only a wizard's BREW and CONSUME touch the stock, and both refuse anyone else.
pub handle_brew-refuses :
    (s : Server) (i : ℕ) (c : Client) (command : Str) (tokens : List Str)
    → is_wizard c ≡ false
    → (handle_brew s i c command tokens ≡ (s, reply c (codes "ERR UNAUTHORIZED")))
      × (handle_consume s i c command tokens ≡ (s, reply c (codes "ERR UNAUTHORIZED")))
unfolding handle_brew handle_consume with_amount
handle_brew-refuses s i c command tokens h = (rw h, rw h)

pub ingredients-enroll :
    (s : Server) (i : ℕ) (c : Client) (tokens : List Str)
    → (handle_enroll s i c tokens).0.ingredients ≡ s.ingredients
unfolding handle_enroll
ingredients-enroll s i c (a ∷ kind ∷ name ∷ []) = elim (Bool-cases (is_bad_enroll kind name)) [
  | inl bad ↦ rw bad
  | inr good ↦ elim (Bool-cases (is_taken s c name)) [
    | inl taken ↦ rw (good, taken)
    | inr free ↦ rw (good, free)
  ]
]
ingredients-enroll s i c _ = refl
