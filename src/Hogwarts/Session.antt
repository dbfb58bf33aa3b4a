-- ===== src/Hogwarts/Session.antt =====
-- HW6/hogwarts.c: from bytes to commands, and the server's loop.
pub mod Framing
pub mod Invariant
pub mod Roles
mod Tests
use system_programming_homew.Prelude.{
  ℕ, zero, suc, ◌+◌, ◌≡◌, ◌<◌, Bool, true, false, not, ◌||◌, ◌==◌, leb, if◌then◌else◌, List, [],
  ◌∷◌, ◌++◌, Option, none, some, Str, codes, str_eq, length, take, set, get_elem?,
}
use system_programming_homew.Libc.Scan.{c_string}
use system_programming_homew.Libc.Tokens.{tokens}
use system_programming_homew.Hogwarts.Wire.{max_line, send_line}
use system_programming_homew.Hogwarts.State.{
  Client, Server, Event, is_empty, is_connected, disconnect_client, accept_new_client,
  disconnect_expired_clients, reset_client,
}
use system_programming_homew.Hogwarts.Handlers.{
  reply, send_unknown, update_client, handle_enroll, handle_brew, handle_consume, handle_spellbook,
  handle_inspect, handle_scroll, handle_roster,
}

-- the server, what it sent, and whether the client is gone
pub record Handled : Type 0 where
  pub server : Server
  pub events : List Event
  pub gone : Bool

abbrev stays : Server × List Event → Handled
stays (s, events) = record { server = s; events = events; gone = false }

abbrev pub is_delimiter : ℕ → Bool
is_delimiter c = (c == b' ') || (c == 9) || (c == 13) || (c == 10)

apparate : Server → ℕ → Client → Str → List Str → Handled
apparate s i c command [] =
    let (cs, events) = disconnect_client s.clients i in
    record {
      server = record s { clients = cs };
      events = reply c (codes "OK APPARATE") ++ events;
      gone = true;
    }
apparate s i c command (_ ∷ _) = stays (s, send_unknown c command)

-- The commands that only read the tables, and unknown ones.
read_command : Server → Client → Str → List Str → List Event
read_command s c command rest =
    if str_eq command (codes "SPELLBOOK")
    then handle_spellbook s c (command ∷ rest)
    else if str_eq command (codes "INSPECT")
    then handle_inspect s c (command ∷ rest)
    else if str_eq command (codes "SCROLL")
    then handle_scroll s c (command ∷ rest)
    else if str_eq command (codes "ROSTER")
    then handle_roster s c (command ∷ rest)
    else send_unknown c command

-- The commands of an enrolled client. `rest` are the tokens behind the command.
dispatch : Server → ℕ → Client → Str → List Str → Handled
unfolding apparate read_command
dispatch s i c command rest =
    if str_eq command (codes "APPARATE")
    then apparate s i c command rest
    else if str_eq command (codes "BREW")
    then stays (handle_brew s i c command (command ∷ rest))
    else if str_eq command (codes "CONSUME")
    then stays (handle_consume s i c command (command ∷ rest))
    else stays (s, read_command s c command rest)

pub run_tokens : Server → ℕ → Client → List Str → Handled
unfolding dispatch
run_tokens s i c [] = stays (s, [])
run_tokens s i c (command ∷ rest) =
    if str_eq command (codes "ENROLL")
    then stays (handle_enroll s i c (command ∷ rest))
    else if is_empty c.username
    then stays (s, reply c (codes "ERR NOT_ENROLLED"))
    else dispatch s i c command rest

-- `now` is the time at which the line is complete.
pub process_command : ℕ → Server → ℕ → Client → Str → Handled
unfolding run_tokens
process_command now s i c line =
    let c' = record c { last_active = now } in
    run_tokens (update_client s i c') i c' (take 8 (tokens is_delimiter (c_string line)))

-- What one byte asks for.
pub data Framed : Type 0 where
  keep : Client → Framed  -- only the client's buffer changes
  too_long : Client → Framed  -- the same, with "ERR TOOLONG"
  line : Client → Str → Framed  -- a command is complete

pub frame : Client → ℕ → Framed
frame c ch =
    if c.discard_long_line
    then keep (if ch == 10 then record c { discard_long_line = false; line_buf = [] } else c)
    else if ch == 10
    then line (record c { line_buf = [] }) c.line_buf
    else if leb max_line (length c.line_buf)
    then too_long (record c { discard_long_line = true; line_buf = [] })
    else keep (record c { line_buf = c.line_buf ++ ch ∷ [] })

pub take_frame : ℕ → Server → ℕ → Framed → Handled
unfolding process_command
take_frame now s i (keep c) = stays (update_client s i c, [])
take_frame now s i (too_long c) = stays (update_client s i c, reply c (codes "ERR TOOLONG"))
take_frame now s i (line c text) = process_command now (update_client s i c) i c text

-- One round of the loop in `feed_client_data`.
pub feed_byte : ℕ → Server → ℕ → ℕ → Handled
unfolding frame take_frame
feed_byte now s i ch = elim (get_elem? s.clients i) [
  | none ↦ stays (s, [])
  | some c ↦ take_frame now s i (frame c ch)
]

abbrev prepend : List Event → Handled → Handled
prepend events h = record h { events = events ++ h.events }

-- `gone` is the return value; the bytes behind the command that ended the session are dropped.
pub feed_client_data : ℕ → Server → ℕ → Str → Handled
unfolding feed_byte
feed_client_data now s i [] = stays (s, [])
feed_client_data now s i (ch ∷ buf) =
    let h = feed_byte now s i ch in
    elim h.gone [ true ↦ h | false ↦ prepend h.events (feed_client_data now h.server i buf) ]

-- What the main loop finds at a socket that `select` reports, or before it waits.
pub data Input : Type 0 where
  connection : Bool → ℕ → Input  -- `accept` gave a descriptor; does `calloc` succeed?
  received : ℕ → Str → Input  -- bytes of the client in a slot
  hung_up : ℕ → Input  -- `recv` returned 0 or an error
  time_passed : Input  -- the check for expired clients at the head of the loop

abbrev is_connected_at : List Client → ℕ → Bool
is_connected_at cs i = elim (get_elem? cs i) [ none ↦ false | some c ↦ is_connected c ]

pub serve : ℕ → Server → Input → Server × List Event
unfolding feed_client_data
serve now s (connection memory fd) = accept_new_client memory now fd s
serve now s (received i buf) =
    let h = feed_client_data now s i buf in
    if is_connected_at s.clients i then (h.server, h.events) else (s, [])
serve now s (hung_up i) =
    let (cs, events) = disconnect_client s.clients i in (record s { clients = cs }, events)
serve now s time_passed =
    let (cs, events) = disconnect_expired_clients s.timeout_seconds now s.clients in
    (record s { clients = cs }, events)

-- The loop over a history of inputs, each with its time.
pub run : Server → List (ℕ × Input) → Server × List Event
unfolding serve
run s [] = (s, [])
run s ((now, input) ∷ inputs) =
    let (s', events) = serve now s input in
    let (last, more) = run s' inputs in (last, events ++ more)

abbrev pub free_slots : ℕ → List Client
free_slots zero = []
free_slots (suc n) = reset_client ∷ free_slots n
