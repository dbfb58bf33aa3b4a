-- ===== src/Hogwarts/Client.antt =====
-- HW6/client_common.c: the loop of both clients, between the keyboard and the server. Whether a call of
-- `send_line` succeeds is an argument of the step that makes it. A round of the loop that finds both
-- the socket and the keyboard ready is two steps.
pub mod Leaving
mod Tests
use system_programming_homew.Prelude.{
  ℕ, zero, suc, ◌+◌, Bool, true, false, not, ◌==◌, ltb, if◌then◌else◌, List, [], ◌∷◌, ◌++◌, Str,
  codes, str_eq, Option, none, some, length,
}
use system_programming_homew.Hogwarts.Wire.{max_line}

-- A carriage return at the end of a line is dropped.
drop_return : Str → Str
drop_return [] = []
drop_return (c ∷ []) = if c == 13 then [] else c ∷ []
drop_return (c ∷ d ∷ s) = c ∷ drop_return (d ∷ s)

-- The lines on which the client ends.
pub is_last_line : Str → Bool
is_last_line line =
    if str_eq line (codes "TIMEOUT DISCONNECT")
    then true
    else if str_eq line (codes "SERVER SHUTDOWN")
    then true
    else str_eq line (codes "OK APPARATE")

-- The bytes that came, with the line so far; the Boolean is the result 1. The bytes behind a last line are not
-- looked at.
pub consume_socket_lines : Str → Str → Str × Bool
unfolding drop_return is_last_line
consume_socket_lines buf [] = (buf, false)
consume_socket_lines buf (ch ∷ bytes) =
    let fresh = consume_socket_lines [] bytes in
    let longer = consume_socket_lines (buf ++ ch ∷ []) bytes in
    if ch == 10
    then (if is_last_line (drop_return buf) then (buf, true) else fresh)
    else if ltb (length buf) max_line
    then longer
    else fresh

-- `sent` are the lines that `send_line` sent, in order; `returned` holds once the client has returned.
pub record Client : Type 0 where
  pub socket_line : Str
  pub stdin_closed : Bool
  pub apparate_sent : Bool
  pub sent : List Str
  pub returned : Bool

abbrev pub apparate_line : Str
apparate_line = codes "APPARATE"

abbrev pub put_line : Client → Str → Client
put_line c line = record c { sent = c.sent ++ line ∷ [] }

abbrev pub return_now : Client → Client
return_now c = record c { returned = true }

-- SIGINT: `send_apparate_and_wait`, unless the line went out before.
pub interrupt : Client → Bool → Client
interrupt c ok =
    if not c.apparate_sent
    then return_now (if ok then put_line c apparate_line else c)
    else return_now c

-- Bytes from the server; `none` is the end of the connection or a failed `recv`.
pub from_server : Client → Option Str → Client
unfolding consume_socket_lines
from_server c none = return_now c
from_server c (some bytes) =
    let (buf, last) = consume_socket_lines c.socket_line bytes in
    if last then return_now c else record c { socket_line = buf }

-- The end of the keyboard's input.
pub input_ended : Client → Bool → Client
input_ended c ok =
    let closed : Client = record c { stdin_closed = true } in
    if not c.apparate_sent
    then (if ok then record (put_line closed apparate_line) { apparate_sent = true } else closed)
    else closed

-- A line from the keyboard, without its line end.
pub from_keyboard : Client → Str → Bool → Client
from_keyboard c [] ok = c
from_keyboard c (ch ∷ input) ok =
    if not ok
    then return_now c
    else if str_eq (ch ∷ input) apparate_line
    then record (put_line c (ch ∷ input)) { apparate_sent = true; stdin_closed = true }
    else put_line c (ch ∷ input)

pub data Event : Type 0 where
  sigint : Bool → Event
  socket : Option Str → Event
  keyboard_end : Bool → Event
  keyboard : Str → Bool → Event

-- The keyboard is only read while it is open.
pub serve_event : Client → Event → Client
unfolding interrupt from_server input_ended from_keyboard
serve_event c (sigint ok) = if c.returned then c else interrupt c ok
serve_event c (socket reply) = if c.returned then c else from_server c reply
serve_event c (keyboard_end ok) =
    if c.returned then c else (if c.stdin_closed then c else input_ended c ok)
serve_event c (keyboard line ok) =
    if c.returned then c else (if c.stdin_closed then c else from_keyboard c line ok)

pub run_magic_client : Client → List Event → Client
unfolding serve_event
run_magic_client c [] = c
run_magic_client c (e ∷ events) = run_magic_client (serve_event c e) events

-- After the connection: `ENROLL` was sent.
pub enrolled : Str → Str → Client
enrolled role username = record {
  socket_line = [];
  stdin_closed = false;
  apparate_sent = false;
  sent = (codes "ENROLL " ++ (role ++ (b' ' ∷ username))) ∷ [];
  returned = false;
}
