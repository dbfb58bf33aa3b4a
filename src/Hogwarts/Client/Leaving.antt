-- ===== src/Hogwarts/Client/Leaving.antt =====
-- How HW6's clients leave.
use system_programming_homew.Prelude.{
  ◌≤◌, ◌≡◌, ◌⊎◌, inl, inr, refl, ap, Bool, true, false, not, ◌==◌, ltb, ltb→lt, if◌then◌else◌, List,
  [], ◌∷◌, ◌++◌, Str, str_eq, str_eq→eq, Option, none, some, length, length-append, All, arith,
  Bool-cases,
}
use system_programming_homew.Hogwarts.Wire.{max_line}
use system_programming_homew.Hogwarts.Client.{
  Client, Event, sigint, socket, keyboard_end, keyboard, serve_event, run_magic_client, interrupt,
  from_server, input_ended, from_keyboard, consume_socket_lines, is_last_line, drop_return,
  apparate_line, put_line, return_now, enrolled,
}

-- No line of a list is APPARATE.
abbrev pub NoApparate : List Str → Type 0
NoApparate ls = All (λ l. str_eq l apparate_line ≡ false) ls

-- The line APPARATE is not among the lines sent, or it is the last of them.
abbrev pub LeavesOnce : List Str → Type 0
LeavesOnce ls =
    NoApparate ls ⊎ ((front : List Str) × (ls ≡ front ++ apparate_line ∷ []) × NoApparate front)

record Inv (c : Client) : Type 0 where
  short : length c.socket_line ≤ max_line
  closed : c.apparate_sent ≡ true → c.stdin_closed ≡ true
  unsent : c.returned ≡ false → c.apparate_sent ≡ false → NoApparate c.sent
  once : LeavesOnce c.sent

NoApparate-append :
    (xs : List Str) (l : Str)
    → NoApparate xs
    → str_eq l apparate_line ≡ false
    → NoApparate (xs ++ l ∷ [])
NoApparate-append [] l h e = (e, tt)
NoApparate-append (x ∷ xs) l h e = (h.0, NoApparate-append xs l h.1 e)

consume-short :
    (buf bytes : Str) → length buf ≤ max_line → length (consume_socket_lines buf bytes).0 ≤ max_line
unfolding consume_socket_lines
consume-short buf [] h = h
consume-short buf (ch ∷ bytes) h = elim (Bool-cases (ch == 10)) [
  | inl line_end ↦ elim (Bool-cases (is_last_line (drop_return buf))) [
    | inl last ↦ rw (line_end, last) h
    | inr other ↦ rw (line_end, other) (consume-short [] bytes (omega arith))
  ]
  | inr plain ↦ elim (Bool-cases (ltb (length buf) max_line)) [
    | inl room ↦
        rw (plain, room)
          (consume-short (buf ++ ch ∷ []) bytes
            (omega (arith, length-append buf (ch ∷ []), ltb→lt (length buf) max_line room)))
    | inr full ↦ rw (plain, full) (consume-short [] bytes (omega arith))
  ]
]

return_now-Inv : (c : Client) → Inv c → Inv (return_now c)
return_now-Inv c v = record {
  short = v.short;
  closed = v.closed;
  unsent = λ r a. absurd (ground (arith));
  once = v.once;
}

if-Inv :
    (b : Bool) (c d : Client) → (b ≡ true → Inv c) → (b ≡ false → Inv d) → Inv (if b then c else d)
if-Inv true c d p q = p refl
if-Inv false c d p q = q refl

is_unsent : (a : Bool) → not a ≡ true → a ≡ false
is_unsent a e = ground arith

interrupt-Inv : (c : Client) (ok : Bool) → Inv c → c.returned ≡ false → Inv (interrupt c ok)
unfolding interrupt
interrupt-Inv c ok v r =
    if-Inv (not c.apparate_sent) (return_now (if ok then put_line c apparate_line else c))
      (return_now c) (λ e. going ok (is_unsent c.apparate_sent e)) (λ e. return_now-Inv c v)
  where
    going :
        (ok : Bool)
        → c.apparate_sent ≡ false
        → Inv (return_now (if ok then put_line c apparate_line else c))
    going true unsent = record {
      short = v.short;
      closed = v.closed;
      unsent = λ r a. absurd (ground (arith));
      once = inr (c.sent, refl, v.unsent r unsent);
    }
    going false unsent = return_now-Inv c v

from_server-Inv : (c : Client) (reply : Option Str) → Inv c → Inv (from_server c reply)
unfolding from_server
from_server-Inv c none v = return_now-Inv c v
from_server-Inv c (some bytes) v = elim (Bool-cases (consume_socket_lines c.socket_line bytes).1) [
  | inl last ↦ rw last (return_now-Inv c v)
  | inr more ↦ rw more (record {
    short = consume-short c.socket_line bytes v.short;
    closed = v.closed;
    unsent = v.unsent;
    once = v.once;
  })
]

input_ended-Inv : (c : Client) (ok : Bool) → Inv c → c.returned ≡ false → Inv (input_ended c ok)
unfolding input_ended
input_ended-Inv c ok v r =
    let closed : Client = record c { stdin_closed = true } in
    if-Inv (not c.apparate_sent)
      (if ok then record (put_line closed apparate_line) { apparate_sent = true } else closed)
      closed
      (λ e.
        if-Inv ok (record (put_line closed apparate_line) { apparate_sent = true }) closed
          (λ sends. record {
            short = v.short;
            closed = λ a. refl;
            unsent = λ r a. absurd (ground (arith));
            once = inr (c.sent, refl, v.unsent r (is_unsent c.apparate_sent e));
          })
          (λ fails. quiet))
      (λ e. quiet)
  where
    quiet : Inv (record c { stdin_closed = true })
    quiet = record { short = v.short; closed = λ a. refl; unsent = v.unsent; once = v.once }

still_unsent : (c : Client) → Inv c → c.stdin_closed ≡ false → c.apparate_sent ≡ false
still_unsent c v reads = elim (Bool-cases c.apparate_sent) [
  | inl sent ↦ absurd (ground (arith, v.closed sent))
  | inr unsent ↦ unsent
]

from_keyboard-Inv :
    (c : Client) (line : Str) (ok : Bool)
    → Inv c
    → c.returned ≡ false
    → c.stdin_closed ≡ false
    → Inv (from_keyboard c line ok)
unfolding from_keyboard
from_keyboard-Inv c [] ok v r reads = v
from_keyboard-Inv c (ch ∷ input) false v r reads = return_now-Inv c v
from_keyboard-Inv c (ch ∷ input) true v r reads =
    let before = v.unsent r (still_unsent c v reads) in
    elim (Bool-cases (str_eq (ch ∷ input) apparate_line)) [
      | inl leaving ↦ rw leaving (record {
        short = v.short;
        closed = λ a. refl;
        unsent = λ r a. absurd (ground (arith));
        once = inr (
          c.sent,
          ap (λ l. c.sent ++ l ∷ []) (str_eq→eq (ch ∷ input) apparate_line leaving),
          before,
        );
      })
      | inr other ↦ rw other (record {
        short = v.short;
        closed = v.closed;
        unsent = λ r a. NoApparate-append c.sent (ch ∷ input) before other;
        once = inl (NoApparate-append c.sent (ch ∷ input) before other);
      })
    ]

serve_event-Inv : (c : Client) (e : Event) → Inv c → Inv (serve_event c e)
unfolding serve_event
serve_event-Inv c (sigint ok) v =
    if-Inv c.returned c (interrupt c ok) (λ gone. v) (λ here. interrupt-Inv c ok v here)
serve_event-Inv c (socket reply) v =
    if-Inv c.returned c (from_server c reply) (λ gone. v) (λ here. from_server-Inv c reply v)
serve_event-Inv c (keyboard_end ok) v =
    if-Inv c.returned c (if c.stdin_closed then c else input_ended c ok) (λ gone. v)
      (λ here.
        if-Inv c.stdin_closed c (input_ended c ok) (λ shut. v)
          (λ reads. input_ended-Inv c ok v here))
serve_event-Inv c (keyboard line ok) v =
    if-Inv c.returned c (if c.stdin_closed then c else from_keyboard c line ok) (λ gone. v)
      (λ here.
        if-Inv c.stdin_closed c (from_keyboard c line ok) (λ shut. v)
          (λ reads. from_keyboard-Inv c line ok v here reads))

run-Inv_client : (c : Client) (events : List Event) → Inv c → Inv (run_magic_client c events)
unfolding run_magic_client
run-Inv_client c [] v = v
run-Inv_client c (e ∷ events) v = run-Inv_client (serve_event c e) events (serve_event-Inv c e v)

enrolled-Inv : (role username : Str) → Inv (enrolled role username)
unfolding enrolled
enrolled-Inv role username = record {
  short = omega arith;
  closed = λ a. absurd (ground (arith));
  unsent = λ r a. (refl, tt);
  once = inl (refl, tt);
}

-- Whatever comes from the keyboard, the server and the user, and whichever sends fail, a client sends
-- APPARATE at most once and no line after it, and its buffer holds at most MAX_LINE bytes.
pub run_magic_client-leaves :
    (role username : Str) (events : List Event)
    → let c = run_magic_client (enrolled role username) events in
      LeavesOnce c.sent × (length c.socket_line ≤ max_line)
run_magic_client-leaves role username events =
    let v = run-Inv_client (enrolled role username) events (enrolled-Inv role username) in
    (v.once, v.short)
