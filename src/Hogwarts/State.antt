-- ===== src/Hogwarts/State.antt =====
-- HW6/hogwarts.c: the tables of ingredients and clients, and the operations on them.
pub mod Names
pub mod Clock
use system_programming_homew.Prelude.{
  ℕ, zero, suc, ◌+◌, ◌-◌, ◌≡◌, Bool, true, false, not, ◌&&◌, ◌||◌, ◌==◌, ltb, leb, if◌then◌else◌,
  List, [], ◌∷◌, ◌++◌, Option, none, some, Str, codes, str_eq, length, take, set, get_elem?,
  replicate,
}
use system_programming_homew.Libc.Lines.{fgets_lines}
use system_programming_homew.Libc.Scan.{scan_word, parse_positive_int}
use system_programming_homew.Hogwarts.Wire.{valid_ingredient_name, send_line}

pub record Ingredient : Type 0 where
  pub name : Str
  pub qty : ℕ

-- `none` for the descriptor is the code's -1. `line_buf` holds the `line_len` bytes in use.
pub record Client : Type 0 where
  pub fd : Option ℕ
  pub username : Str
  pub kind : Str  -- the field `type`
  pub line_buf : Str
  pub discard_long_line : Bool
  pub last_active : ℕ
  pub spellbook : List ℕ

pub record Server : Type 0 where
  pub ingredients : List Ingredient
  pub clients : List Client
  pub timeout_seconds : ℕ

-- What the server does to its sockets.
pub data Event : Type 0 where
  sent : ℕ → Str → Event
  closed : ℕ → Event

abbrev pub max_ingredients : ℕ
max_ingredients = 128

abbrev pub is_empty : Str → Bool
is_empty [] = true
is_empty (c ∷ s) = false

-- `"%63s %63s %63s"` matched exactly two fields.
scan_two : Str → Option (Str × Str)
scan_two line = elim (scan_word 63 line) [
  | none ↦ none
  | some (name, r1) ↦ elim (scan_word 63 r1) [
    | none ↦ none
    | some (qty_text, r2) ↦ elim (scan_word 63 r2) [
      | none ↦ some (name, qty_text)
      | some extra ↦ none
    ]
  ]
]

parse_ingredient : Str → Option Ingredient
unfolding scan_two
parse_ingredient line = elim (scan_two line) [
  | none ↦ none
  | some (name, qty_text) ↦ elim (parse_positive_int qty_text) [
    | none ↦ none
    | some qty ↦
        if valid_ingredient_name name
        then some (record { name = take 16 name; qty = qty })
        else none
  ]
]

-- The table is full at `room` 0: the line just read is dropped, and the loop ends.
load_lines : ℕ → List Str → List Ingredient
unfolding parse_ingredient
load_lines room [] = []
load_lines zero (line ∷ lines) = []
load_lines (suc room) (line ∷ lines) = elim (parse_ingredient line) [
  | none ↦ load_lines (suc room) lines
  | some ingredient ↦ ingredient ∷ load_lines room lines
]

-- `none` for the file is a failed `fopen`, and for the result the return value -1.
pub load_ingredients : Option Str → Option (List Ingredient)
unfolding load_lines
load_ingredients none = none
load_ingredients (some file) = some (load_lines max_ingredients (fgets_lines 256 file))

-- `none` is the return value -1.
pub find_ingredient : List Ingredient → Str → Option ℕ
find_ingredient [] name = none
find_ingredient (ingredient ∷ rest) name =
    let later = find_ingredient rest name in
    if str_eq ingredient.name name
    then some 0
    else elim later [ none ↦ none | some i ↦ some (suc i) ]

abbrev pub is_connected : Client → Bool
is_connected c = elim c.fd [ none ↦ false | some fd ↦ true ]

pub active_client_count : List Client → ℕ
active_client_count [] = 0
active_client_count (c ∷ cs) =
    if is_connected c then suc (active_client_count cs) else active_client_count cs

pub find_free_slot : List Client → Option ℕ
find_free_slot [] = none
find_free_slot (c ∷ cs) =
    let later = find_free_slot cs in
    if not (is_connected c) then some 0 else elim later [ none ↦ none | some i ↦ some (suc i) ]

abbrev pub has_name : Str → Client → Bool
has_name username c = is_connected c && not (is_empty c.username) && str_eq c.username username

pub username_exists : List Client → Str → Bool
username_exists [] username = false
username_exists (c ∷ cs) username = has_name username c || username_exists cs username

abbrev pub reset_client : Client
reset_client = record {
  fd = none;
  username = [];
  kind = [];
  line_buf = [];
  discard_long_line = false;
  last_active = 0;
  spellbook = [];
}

-- Only the socket and the table: the log line is not modelled.
pub disconnect_client : List Client → ℕ → List Client × List Event
disconnect_client cs index = elim (get_elem? cs index) [
  | none ↦ (cs, [])
  | some c ↦ elim c.fd [ none ↦ (cs, []) | some fd ↦ (set cs index reset_client, closed fd ∷ []) ]
]

-- `accept` gave the descriptor `fd`; `memory` says whether `calloc` succeeds.
pub accept_new_client : Bool → ℕ → ℕ → Server → Server × List Event
accept_new_client memory now fd s = elim (find_free_slot s.clients) [
  | none ↦ (s, sent fd (send_line (codes "ERR HOGWARTS_FULL")) ∷ closed fd ∷ [])
  | some slot ↦
      if memory
      then (
        record s {
          clients = set s.clients slot (record reset_client {
            fd = some fd;
            last_active = now;
            spellbook = replicate (length s.ingredients) 0;
          });
        },
        [],
      )
      else (
        record s { clients = set s.clients slot reset_client },
        sent fd (send_line (codes "ERR SERVER")) ∷ closed fd ∷ [],
      )
]

-- `now - last_active >= timeout_seconds`, with the subtraction moved to the other side.
abbrev pub is_expired : ℕ → ℕ → Client → Bool
is_expired timeout now c = is_connected c && leb (c.last_active + timeout) now

expire : ℕ → ℕ → Client → Client × List Event
expire timeout now c = elim c.fd [
  | none ↦ (c, [])
  | some fd ↦
      if leb (c.last_active + timeout) now
      then (reset_client, sent fd (send_line (codes "TIMEOUT DISCONNECT")) ∷ closed fd ∷ [])
      else (c, [])
]

pub disconnect_expired_clients : ℕ → ℕ → List Client → List Client × List Event
unfolding expire
disconnect_expired_clients timeout now [] = ([], [])
disconnect_expired_clients timeout now (c ∷ cs) =
    let (c', events) = expire timeout now c in
    let (cs', more) = disconnect_expired_clients timeout now cs in (c' ∷ cs', events ++ more)

-- `remaining`, 0 where the code's is negative. `none` is `!have_clients`.
least_remaining : ℕ → ℕ → List Client → Option ℕ
least_remaining timeout now [] = none
least_remaining timeout now (c ∷ cs) =
    let later = least_remaining timeout now cs in
    let remaining = timeout + c.last_active - now in
    if is_connected c
    then elim later [
      | none ↦ some remaining
      | some m ↦ if ltb m remaining then some m else some remaining
    ]
    else later

-- The seconds that `select` may wait.
pub compute_select_timeout : ℕ → ℕ → List Client → ℕ
unfolding least_remaining
compute_select_timeout timeout now cs = elim (least_remaining timeout now cs) [
  | none ↦ timeout
  | some m ↦ m
]

pub shutdown_all_clients : List Client → List Client × List Event
shutdown_all_clients [] = ([], [])
shutdown_all_clients (c ∷ cs) =
    let (cs', more) = shutdown_all_clients cs in
    elim c.fd [
      | none ↦ (c ∷ cs', more)
      | some fd ↦
          (reset_client ∷ cs', sent fd (send_line (codes "SERVER SHUTDOWN")) ∷ closed fd ∷ more)
    ]
