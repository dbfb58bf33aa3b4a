-- ===== src/Hogwarts/Handlers/Stock.antt =====
-- HW6's stock: BREW adds, CONSUME takes away, and no wizard takes more than it brewed.
use system_programming_homew.Prelude.{
  ℕ, zero, suc, ◌+◌, ◌-◌, ◌≤◌, ◌<◌, ◌≡◌, ◌≢◌, refl, ap, ◌||◌, ◌⊎◌, inl, inr, List, [], ◌∷◌, arith,
  codes, length, set, get_or, Bool-cases,
}
use system_programming_homew.Hogwarts.Int32.{add_int, sub_int, lt_int, sign}
use system_programming_homew.Hogwarts.State.{Ingredient, Client, Server}
use system_programming_homew.Hogwarts.Handlers.{
  reply, no_ingredient, stock_of, spell_of, put_amounts, brew, consume,
}

get_or-set_self :
    {A : Type 0} (xs : List A) (i : ℕ) (v d : A) → i < length xs → get_or (set xs i v) i d ≡ v
get_or-set_self [] i v d h = elim h [ ]
get_or-set_self (x ∷ xs) zero v d h = refl
get_or-set_self (x ∷ xs) (suc i) v d h = get_or-set_self xs i v d (omega arith)

get_or-set_ne :
    {A : Type 0} (xs : List A) (i j : ℕ) (v d : A) → i ≢ j → get_or (set xs i v) j d ≡ get_or xs j d
get_or-set_ne [] i j v d h = refl
get_or-set_ne (x ∷ xs) zero zero v d h = absurd (h refl)
get_or-set_ne (x ∷ xs) zero (suc j) v d h = refl
get_or-set_ne (x ∷ xs) (suc i) zero v d h = refl
get_or-set_ne (x ∷ xs) (suc i) (suc j) v d h = get_or-set_ne xs i j v d (λ e. h (omega arith))

-- The ingredient is in the table and in the client's spellbook, and both amounts are not negative.
pub record IsHeld (s : Server) (c : Client) (idx : ℕ) : Type 0 where
  pub listed : idx < length s.ingredients
  pub booked : idx < length c.spellbook
  pub stock_pos : stock_of s idx < sign
  pub spell_pos : spell_of c idx < sign

-- The amounts after a command: those of `idx` as given, every other stock as before.
pub record Becomes (s s' : Server) (i : ℕ) (c : Client) (idx stock spell : ℕ) : Type 0 where
  pub stocked : stock_of s' idx ≡ stock
  pub others : (j : ℕ) → idx ≢ j → stock_of s' j ≡ stock_of s j
  pub booked :
      (c' : Client) × (s'.clients ≡ set s.clients i c')
      × (spell_of c' idx ≡ spell)
      × ((j : ℕ) → idx ≢ j → spell_of c' j ≡ spell_of c j)

put_amounts-Becomes :
    (s : Server) (i : ℕ) (c : Client) (idx stock spell : ℕ)
    → IsHeld s c idx
    → Becomes s (put_amounts s i c idx stock spell) i c idx stock spell
put_amounts-Becomes s i c idx stock spell h = record {
  stocked = ground (
    arith,
    get_or-set_self s.ingredients idx
        (record (get_or s.ingredients idx no_ingredient) { qty = stock }) no_ingredient,
  );
  others =
      λ j ne. ap (λ (g : Ingredient). g.qty) (get_or-set_ne s.ingredients idx j _ no_ingredient ne);
  booked = (
    record c { spellbook = set c.spellbook idx spell },
    refl,
    get_or-set_self c.spellbook idx spell 0 h.booked,
    λ j ne. get_or-set_ne c.spellbook idx j spell 0 ne,
  );
}

-- BREW of an ingredient that is held, of an amount that takes neither sum past INT_MAX, adds it to the stock and to the wizard's own spellbook, and changes no
-- other ingredient.
pub brew-adds :
    (s : Server) (i : ℕ) (c : Client) (idx qty : ℕ)
    → IsHeld s c idx
    → stock_of s idx + qty < sign
    → spell_of c idx + qty < sign
    → Becomes s (brew s i c idx qty).0 i c idx (stock_of s idx + qty) (spell_of c idx + qty)
unfolding brew
brew-adds s i c idx qty h fits fits' =
    let e : add_int (stock_of s idx) qty ≡ stock_of s idx + qty = omega arith in
    let f : add_int (spell_of c idx) qty ≡ spell_of c idx + qty = omega arith in
    rw (e, f) (put_amounts-Becomes s i c idx _ _ h)

-- CONSUME takes the amount from both the stock and the spellbook, if each of them holds it, and
-- otherwise changes nothing: neither amount becomes negative.
pub consume-exact :
    (s : Server) (i : ℕ) (c : Client) (idx qty : ℕ)
    → IsHeld s c idx
    → qty < sign
    → ((qty ≤ stock_of s idx)
        × (qty ≤ spell_of c idx)
        × Becomes s (consume s i c idx qty).0 i c idx (stock_of s idx - qty) (spell_of c idx - qty))
      ⊎ (((stock_of s idx < qty) ⊎ (spell_of c idx < qty))
          × (consume s i c idx qty ≡ (s, reply c (codes "ERR INSUFFICIENT_INGREDIENTS"))))
unfolding consume
consume-exact s i c idx qty h small =
    elim (Bool-cases (lt_int (stock_of s idx) qty || lt_int (spell_of c idx) qty)) [
      | inl short ↦ inr (ground arith, rw short)
      | inr enough ↦
          let e : sub_int (stock_of s idx) qty ≡ stock_of s idx - qty = ground arith in
          let f : sub_int (spell_of c idx) qty ≡ spell_of c idx - qty = ground arith in
          inl (ground arith, ground arith, rw (enough, e, f) (put_amounts-Becomes s i c idx _ _ h))
    ]
