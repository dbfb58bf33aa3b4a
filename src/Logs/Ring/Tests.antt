-- ===== src/Logs/Ring/Tests.antt =====
-- A buffer of HW4 with two places, and threads on both sides of it.
use system_programming_homew.Prelude.{ℕ, ◌≡◌, ◌⊎◌, none, some, List, [], ◌∷◌, ◌++◌, arith}
use system_programming_homew.Logs.Ring.{Ring, ring_init, push, Op, put, get, finish, perform_all}
use system_programming_homew.Logs.Ring.Fifo.{
  contents, IsValid, push-fifo, ring_init-IsValid, stream_kept,
}

abbrev small_ring : Ring ℕ
small_ring = ring_init 2 0

small_ring-IsValid : IsValid small_ring
small_ring-IsValid = (ring_init-IsValid 2 0 (omega arith)).0

ring_init-IsValid_example : IsValid small_ring × (contents small_ring ≡ [])
ring_init-IsValid_example = ring_init-IsValid 2 0 (omega arith)

push-fifo_example :
    ((small_ring.count ≡ small_ring.capacity) × (push small_ring 7 ≡ none))
    ⊎ ((r' : Ring ℕ) × (push small_ring 7 ≡ some r')
        × IsValid r'
        × (r'.capacity ≡ small_ring.capacity)
        × (contents r' ≡ contents small_ring ++ 7 ∷ []))
push-fifo_example = push-fifo small_ring 7 small_ring-IsValid

-- The third push finds the buffer full; the places are used again after that.
abbrev ring_history : List (Op ℕ)
ring_history = put 1 ∷ put 2 ∷ put 3 ∷ get ∷ put 4 ∷ get ∷ finish ∷ get ∷ get ∷ []

stream_kept_example :
    let m = perform_all ring_history small_ring in
    IsValid m.ring × (m.taken_out ++ contents m.ring ≡ contents small_ring ++ m.put_in)
stream_kept_example = stream_kept ring_history small_ring small_ring-IsValid
