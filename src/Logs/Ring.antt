-- ===== src/Logs/Ring.antt =====
-- HW4/common.h, reader.c, dispatcher.c and analyzer.c: the bounded circular buffers between the
-- stages: the private buffer of a reader, and the shared regions A, B and D.
-- They have one shape. An operation is what a thread does under the buffer's mutex once it need not
-- wait; `none` is a wait.
pub mod Fifo
mod Tests
use system_programming_homew.Prelude.{
  ℕ, zero, suc, ◌+◌, ◌-◌, ◌%◌, Bool, true, false, ◌==◌, if◌then◌else◌, Option, none, some, List, [],
  ◌∷◌, ◌++◌,
}

-- `closed` is `producers_done`, `eof_posted` or `dispatcher_done`.
pub record Ring (A : Type 0) : Type 0 where
  pub entries : ℕ → A
  pub head : ℕ
  pub tail : ℕ
  pub count : ℕ
  pub capacity : ℕ
  pub closed : Bool

abbrev pub update : {A : Type 0} → (ℕ → A) → ℕ → A → ℕ → A
update f i a j = if i == j then a else f j

-- What a consumer gets: an entry, the end of the stream, or neither yet.
pub data Taken (A : Type 0) : Type 0 where
  waits : Taken A
  ended : Taken A
  entry : A → Taken A

module _ {A : Type 0} where
  -- `private_buffer_init` and the set-up of the regions.
  pub ring_init : ℕ → A → Ring A
  ring_init capacity blank = record {
    entries = λ i. blank;
    head = 0;
    tail = 0;
    count = 0;
    capacity = capacity;
    closed = false;
  }

  -- `private_buffer_push`, `push_region_a`, `push_region_b` and `push_region_d`.
  pub push : Ring A → A → Option (Ring A)
  push r a =
      if r.count == r.capacity
      then none
      else some (record r {
        entries = update r.entries r.tail a;
        tail = (r.tail + 1) % r.capacity;
        count = r.count + 1;
      })

  -- `private_buffer_pop`, `pop_region_a` and `pop_level_entry`.
  pub pop : Ring A → Taken A × Ring A
  pop r = if r.count == 0 then ((if r.closed then ended else waits), r) else (
    entry (r.entries r.head),
    record r { head = (r.head + 1) % r.capacity; count = r.count - 1 },
  )

  -- The producers are done.
  pub close : Ring A → Ring A
  close r = record r { closed = true }

-- What the threads on either side of a buffer do to it.
pub data Op (A : Type 0) : Type 0 where
  put : A → Op A
  get : Op A
  finish : Op A

-- The buffer after some operations, with the entries put in and taken out, in order. An operation
-- that has to wait is tried again later, as another operation.
pub record Moved (A : Type 0) : Type 0 where
  pub ring : Ring A
  pub put_in : List A
  pub taken_out : List A

taken_entries : {A : Type 0} → Taken A → List A
taken_entries waits = []
taken_entries ended = []
taken_entries (entry a) = a ∷ []

module _ {A : Type 0} where
  put_result : Ring A → A → Option (Ring A) → Moved A
  put_result r a none = record { ring = r; put_in = []; taken_out = [] }
  put_result r a (some r') = record { ring = r'; put_in = a ∷ []; taken_out = [] }

  pub perform : Op A → Ring A → Moved A
  unfolding push pop close taken_entries put_result
  perform (put a) r = put_result r a (push r a)
  perform get r =
      let (taken, r') = pop r in record { ring = r'; put_in = []; taken_out = taken_entries taken }
  perform finish r = record { ring = close r; put_in = []; taken_out = [] }

  pub perform_all : List (Op A) → Ring A → Moved A
  unfolding perform
  perform_all [] r = record { ring = r; put_in = []; taken_out = [] }
  perform_all (op ∷ ops) r =
      let now = perform op r in
      let behind = perform_all ops now.ring in
      record {
        ring = behind.ring;
        put_in = now.put_in ++ behind.put_in;
        taken_out = now.taken_out ++ behind.taken_out;
      }
