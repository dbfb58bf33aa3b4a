-- ===== src/Hogwarts/Handlers.antt =====
-- HW6/hogwarts.c: the commands. A handler answers the client `c` in slot `i`; it returns the server
-- and what it sent. `snprintf` into `response` keeps at most MAX_LINE bytes.
pub mod Stock
pub mod Enroll
use system_programming_homew.Prelude.{
  ℕ, zero, suc, ◌+◌, ◌-◌, ◌≡◌, Bool, true, false, not, ◌&&◌, ◌||◌, ◌==◌, leb, if◌then◌else◌, List,
  [], ◌∷◌, ◌++◌, Option, none, some, Str, codes, str_eq, length, take, set, get_elem?, get_or,
}
use system_programming_homew.Libc.Scan.{parse_positive_int}
use system_programming_homew.Libc.Tokens.{tokens}
use system_programming_homew.Hogwarts.Wire.{max_line, valid_username, send_line}
use system_programming_homew.Hogwarts.Int32.{add_int, sub_int, lt_int, le_zero_int, print_int}
use system_programming_homew.Hogwarts.State.{
  Ingredient, Client, Server, Event, sent, closed, is_empty, find_ingredient, username_exists,
  is_connected, disconnect_client,
}

-- `send_line(c->fd, line)`
abbrev pub reply : Client → Str → List Event
reply c line = elim c.fd [ none ↦ [] | some fd ↦ sent fd (send_line line) ∷ [] ]

abbrev pub fit : Str → Str
fit s = take max_line s

abbrev space : Str
space = b' ' ∷ []

-- The first argument is the token; the code also writes no token where it is empty.
abbrev pub send_unknown : Client → Str → List Event
send_unknown c command = reply c (fit (codes "ERR UNKNOWN " ++ command))

abbrev pub update_client : Server → ℕ → Client → Server
update_client s i c = record s { clients = set s.clients i c }

abbrev pub is_wizard : Client → Bool
is_wizard c = str_eq c.kind (codes "WIZARD")

abbrev pub is_professor : Client → Bool
is_professor c = str_eq c.kind (codes "PROFESSOR")

abbrev is_bad_enroll : Str → Str → Bool
is_bad_enroll kind name =
    not (str_eq kind (codes "WIZARD") || str_eq kind (codes "PROFESSOR"))
    || not (valid_username name)

abbrev is_taken : Server → Client → Str → Bool
is_taken s c name = not (is_empty c.username) || username_exists s.clients name

enroll_as : Server → ℕ → Client → Str → Str → Server × List Event
enroll_as s i c kind name =
    if is_bad_enroll kind name
    then (s, reply c (codes "ERR UNKNOWN ENROLL"))
    else if is_taken s c name
    then (s, reply c (codes "ERR ENROLL name_taken"))
    else (
      update_client s i (record c { username = take 31 name; kind = take 15 kind }),
      reply c (fit (codes "OK ENROLL " ++ take 31 name)),
    )

pub handle_enroll : Server → ℕ → Client → List Str → Server × List Event
unfolding enroll_as
handle_enroll s i c (_ ∷ kind ∷ name ∷ []) = enroll_as s i c kind name
handle_enroll s i c _ = (s, reply c (codes "ERR UNKNOWN ENROLL"))

-- The quantity and the name of an ingredient, from the arguments of BREW and CONSUME.
amount_of : List Str → Option (Str × ℕ)
amount_of (_ ∷ name ∷ qty_text ∷ []) = elim (parse_positive_int qty_text) [
  | none ↦ none
  | some qty ↦ some (name, qty)
]
amount_of _ = none

abbrev pub no_ingredient : Ingredient
no_ingredient = record { name = []; qty = 0 }

abbrev pub stock_of : Server → ℕ → ℕ
stock_of s idx = (get_or s.ingredients idx no_ingredient).qty

abbrev pub spell_of : Client → ℕ → ℕ
spell_of c idx = get_or c.spellbook idx 0

-- The stock and the client's spellbook entry, both set.
abbrev pub put_amounts : Server → ℕ → Client → ℕ → ℕ → ℕ → Server
put_amounts s i c idx stock spell = record s {
  ingredients =
      set s.ingredients idx (record (get_or s.ingredients idx no_ingredient) { qty = stock });
  clients = set s.clients i (record c { spellbook = set c.spellbook idx spell });
}

abbrev amount_line : Str → Str → ℕ → ℕ → Str
amount_line head name qty left =
    fit (head ++ name ++ space ++ print_int qty ++ space ++ print_int left)

pub brew : Server → ℕ → Client → ℕ → ℕ → Server × List Event
brew s i c idx qty =
    let stock = add_int (stock_of s idx) qty in
    (
      put_amounts s i c idx stock (add_int (spell_of c idx) qty),
      reply c
          (amount_line (codes "OK BREW ") (get_or s.ingredients idx no_ingredient).name qty stock),
    )

pub consume : Server → ℕ → Client → ℕ → ℕ → Server × List Event
consume s i c idx qty =
    let stock = sub_int (stock_of s idx) qty in
    if lt_int (stock_of s idx) qty || lt_int (spell_of c idx) qty
    then (s, reply c (codes "ERR INSUFFICIENT_INGREDIENTS"))
    else (
      put_amounts s i c idx stock (sub_int (spell_of c idx) qty),
      reply c (
          amount_line (codes "OK CONSUME ") (get_or s.ingredients idx no_ingredient).name qty
            stock),
    )

-- The guards that `handle_brew` and `handle_consume` share, before their own work.
with_amount :
    (Server → ℕ → Client → ℕ → ℕ → Server × List Event)
    → Server
    → ℕ
    → Client
    → Str
    → List Str
    → Server × List Event
unfolding amount_of
with_amount work s i c command tokens =
    if not (is_wizard c) then (s, reply c (codes "ERR UNAUTHORIZED")) else elim (amount_of tokens) [
      | none ↦ (s, send_unknown c command)
      | some (name, qty) ↦ elim (find_ingredient s.ingredients name) [
        | none ↦ (s, reply c (codes "ERR UNKNOWN_INGREDIENT"))
        | some idx ↦ work s i c idx qty
      ]
    ]

-- `command` is `tokens[0]`.
pub handle_brew : Server → ℕ → Client → Str → List Str → Server × List Event
unfolding with_amount
handle_brew = with_amount brew

pub handle_consume : Server → ℕ → Client → Str → List Str → Server × List Event
unfolding with_amount
handle_consume = with_amount consume

-- `append_csv_ingredients`: each entry with its separator; the first that does not fit is cut short
-- by `snprintf` and ends the list. `room` is `out_sz - used`.
csv_from : Bool → ℕ → Bool → List (Str × ℕ) → Str
csv_from only_nonzero room first [] = []
csv_from only_nonzero room first ((name, qty) ∷ rest) =
    let written = (if first then [] else b',' ∷ []) ++ name ++ b':' ∷ print_int qty in
    let skipped = only_nonzero && le_zero_int qty in
    let more =
      csv_from only_nonzero (if skipped then room else room - length written)
        (if skipped then first else false) rest in
    if skipped
    then more
    else if leb room (length written)
    then take (room - 1) written
    else written ++ more

names_with : List Ingredient → List ℕ → List (Str × ℕ)
names_with [] values = []
names_with (ingredient ∷ rest) [] = (ingredient.name, 0) ∷ names_with rest []
names_with (ingredient ∷ rest) (v ∷ values) = (ingredient.name, v) ∷ names_with rest values

names_with_stock : List Ingredient → List (Str × ℕ)
names_with_stock [] = []
names_with_stock (ingredient ∷ rest) = (ingredient.name, ingredient.qty) ∷ names_with_stock rest

-- `none` for the values is NULL: the stock itself.
pub append_csv_ingredients : ℕ → Bool → List Ingredient → Option (List ℕ) → Str
unfolding csv_from names_with names_with_stock
append_csv_ingredients out_sz only_nonzero ingredients none =
    csv_from only_nonzero out_sz true (names_with_stock ingredients)
append_csv_ingredients out_sz only_nonzero ingredients (some values) =
    csv_from only_nonzero out_sz true (names_with ingredients values)

pub handle_spellbook : Server → Client → List Str → List Event
handle_spellbook s c tokens =
    let csv = append_csv_ingredients (max_line + 1) true s.ingredients (some c.spellbook) in
    if not (is_wizard c)
    then reply c (codes "ERR UNAUTHORIZED")
    else if not (length tokens == 1)
    then send_unknown c (codes "SPELLBOOK")
    else if is_empty csv
    then reply c (codes "OK SPELLBOOK EMPTY")
    else reply c (fit (codes "OK SPELLBOOK " ++ csv))

inspect_named : Server → Client → Str → List Event
inspect_named s c name = elim (find_ingredient s.ingredients name) [
  | none ↦ reply c (codes "ERR UNKNOWN_INGREDIENT")
  | some idx ↦ reply c (
      fit (
        codes "OK INSPECT "
        ++ (get_or s.ingredients idx no_ingredient).name
        ++ space
        ++ print_int (stock_of s idx)))
]

inspect_tokens : Server → Client → List Str → List Event
unfolding inspect_named
inspect_tokens s c (command ∷ name ∷ []) = inspect_named s c name
inspect_tokens s c (command ∷ rest) = send_unknown c command
inspect_tokens s c [] = []

pub handle_inspect : Server → Client → List Str → List Event
unfolding inspect_tokens
handle_inspect s c tokens =
    if not (is_professor c) then reply c (codes "ERR UNAUTHORIZED") else inspect_tokens s c tokens

pub handle_scroll : Server → Client → List Str → List Event
handle_scroll s c tokens =
    if not (is_professor c)
    then reply c (codes "ERR UNAUTHORIZED")
    else if not (length tokens == 1)
    then send_unknown c (codes "SCROLL")
    else reply c
        (fit (codes "OK SCROLL " ++ append_csv_ingredients (max_line + 1) false s.ingredients none))

roster_from : ℕ → Bool → List Client → Str
roster_from room first [] = []
roster_from room first (c ∷ cs) =
    let listed = is_connected c && not (is_empty c.username) in
    let written = (if first then [] else b',' ∷ []) ++ c.username in
    let more =
      roster_from (if listed then room - length written else room) (if listed then false else first)
        cs in
    if not listed
    then more
    else if leb room (length written)
    then take (room - 1) written
    else written ++ more

pub handle_roster : Server → Client → List Str → List Event
unfolding roster_from
handle_roster s c tokens =
    if not (is_professor c)
    then reply c (codes "ERR UNAUTHORIZED")
    else if not (length tokens == 1)
    then send_unknown c (codes "ROSTER")
    else reply c (fit (codes "OK ROSTER " ++ roster_from (max_line + 1) true s.clients))
