-- ===== src/Logs/Ring/Fifo.antt =====
-- The circular buffers of HW4 are bounded first-in first-out queues.
use mathlib.Core.List.{append-nil, append_assoc}
use native.Mathlib.Nat.{mod_self, mod-eq_of_lt}
use system_programming_homew.Prelude.{
  ℕ, zero, suc, ◌+◌, ◌-◌, ◌%◌, ◌≤◌, ◌<◌, ◌≡◌, ◌≢◌, refl, sym, ap, ◌∙◌, ◌==◌, ◌⊎◌, inl, inr,
  if◌then◌else◌, ltb, none, some, List, [], ◌∷◌, ◌++◌, arith, Bool-cases, ℕ_discrete, ==_refl,
}
use system_programming_homew.Logs.Ring.{
  Ring, update, waits, ended, entry, ring_init, push, pop, Op, put, get, finish, close,
  taken_entries, put_result, perform, perform_all,
}

-- The index behind `i` in a buffer of `cap` places, and the `k`-th from `i` on.
abbrev next : ℕ → ℕ → ℕ
next size i = (i + 1) % size

abbrev pub nth : ℕ → ℕ → ℕ → ℕ
nth size i zero = i
nth size i (suc k) = nth size (next size i) k

next-wraps : (size i : ℕ) → i < size → next size i ≡ (if (i + 1) == size then 0 else i + 1)
next-wraps size i h = elim (ℕ_discrete (i + 1) size) [
  | yes e ↦ rw e (ground (arith, mod_self size, ==_refl size))
  | no ne ↦ ground (arith, mod-eq_of_lt {n = i + 1} {m = size} (omega arith))
]

-- The index with the wrap written out.
nth-wraps :
    (size i k : ℕ)
    → i < size
    → k ≤ size
    → nth size i k ≡ (if ltb (i + k) size then i + k else i + k - size)
nth-wraps size i zero h le = ground arith
nth-wraps size i (suc k) h le = ground (arith, next-wraps size i h, nth-wraps size (next size i) k)

next-lt : (size i : ℕ) → i < size → next size i < size
next-lt size i h = ground (arith, next-wraps size i h)

nth-suc : (size i k : ℕ) → nth size i (suc k) ≡ next size (nth size i k)
nth-suc size i zero = refl
nth-suc size i (suc k) = nth-suc size (next size i) k

plus_one : (n : ℕ) → n + 1 ≡ suc n
plus_one n = omega arith

module _ {A : Type 0} where
  -- `n` entries from the index `i` on.
  abbrev pub read : (ℕ → A) → ℕ → ℕ → ℕ → List A
  read f size i zero = []
  read f size i (suc n) = f i ∷ read f size (next size i) n

  -- What waits in the buffer, the oldest entry first.
  abbrev pub contents : Ring A → List A
  contents r = read r.entries r.capacity r.head r.count

  pub record IsValid (r : Ring A) : Type 0 where
    pub room : r.count ≤ r.capacity
    pub inside : r.head < r.capacity
    pub end : r.tail ≡ nth r.capacity r.head r.count

  read-snoc :
      (f : ℕ → A) (size i n : ℕ) → read f size i (suc n) ≡ read f size i n ++ f (nth size i n) ∷ []
  read-snoc f size i zero = refl
  read-snoc f size i (suc n) = ap (◌∷◌ (f i)) (read-snoc f size (next size i) n)

  -- A write at an index that is not read changes nothing.
  read-update :
      (f : ℕ → A) (size i n j : ℕ) (a : A)
      → ((k : ℕ) → k < n → nth size i k ≢ j)
      → read (update f j a) size i n ≡ read f size i n
  read-update f size i zero j a h = refl
  read-update f size i (suc n) j a h = ground (
    arith,
    h 0 (omega arith),
    read-update f size (next size i) n j a (λ k lt. h (suc k) (omega arith)),
  )

  -- A push waits exactly when the buffer is full. Otherwise the new entry is the last of the queue,
  -- and the buffer stays well formed.
  pub push-fifo :
      (r : Ring A) (a : A)
      → IsValid r
      → ((r.count ≡ r.capacity) × (push r a ≡ none))
        ⊎ ((r' : Ring A) × (push r a ≡ some r')
            × IsValid r'
            × (r'.capacity ≡ r.capacity)
            × (contents r' ≡ contents r ++ a ∷ []))
  unfolding push
  push-fifo r a v = elim (Bool-cases (r.count == r.capacity)) [
    | inl full ↦ inl (ground arith, rw full)
    | inr space ↦
        let r' : Ring A = record r {
          entries = update r.entries r.tail a;
          tail = (r.tail + 1) % r.capacity;
          count = r.count + 1;
        } in
        inr (
          r',
          rw space,
          record {
            room = ground arith;
            inside = v.inside;
            end =
                ap (next r.capacity) v.end
                ∙ sym (nth-suc r.capacity r.head r.count)
                ∙ ap (nth r.capacity r.head) (sym (plus_one r.count));
          },
          refl,
          ap (read r'.entries r.capacity r.head) (plus_one r.count)
              ∙ read-snoc r'.entries r.capacity r.head r.count
              ∙ ap (λ l. l ++ r'.entries (nth r.capacity r.head r.count) ∷ [])
                  (read-update r.entries r.capacity r.head r.count r.tail a (λ k lt. ground (
                    arith,
                    nth-wraps r.capacity r.head k v.inside (omega arith),
                    nth-wraps r.capacity r.head r.count v.inside v.room,
                  )))
              ∙ ap (λ x. contents r ++ x ∷ []) (ground arith),
        )
  ]

  -- A pop takes the oldest entry. From the empty buffer it takes none: it ends when the producers
  -- are done, and waits otherwise.
  pub pop-fifo :
      (r : Ring A)
      → IsValid r
      → let (taken, r') = pop r in
        IsValid r'
        × (((contents r ≡ []) × (r' ≡ r) × (taken ≡ (if r.closed then ended else waits)))
            ⊎ ((a : A) × (taken ≡ entry a)
                × (contents r ≡ a ∷ contents r')
                × (r'.closed ≡ r.closed)))
  unfolding pop
  pop-fifo r v = elim (Bool-cases (r.count == 0)) [
    | inl none_left ↦
        let zero_left : r.count ≡ 0 = ground arith in
        let empty : contents r ≡ [] = ap (read r.entries r.capacity r.head) zero_left in
        rw none_left (v, inl (empty, refl, refl))
    | inr some_left ↦
        let n = r.count - 1 in
        let e : r.count ≡ suc n = ground arith in
        rw some_left (
          record {
            room = omega (arith, v.room);
            inside = next-lt r.capacity r.head v.inside;
            end = v.end ∙ ap (nth r.capacity r.head) e;
          },
          inr (r.entries r.head, refl, ap (read r.entries r.capacity r.head) e, refl),
        )
  ]

  -- A buffer as it is set up, with at least one place, is well formed and empty.
  pub ring_init-IsValid :
      (size : ℕ) (blank : A)
      → 0 < size
      → IsValid (ring_init size blank) × (contents (ring_init size blank) ≡ [])
  unfolding ring_init
  ring_init-IsValid size blank h = (record { room = omega arith; inside = h; end = refl }, refl)

  -- What one operation moves, in terms of the queue.
  perform-kept :
      (op : Op A) (r : Ring A)
      → IsValid r
      → let m = perform op r in
        IsValid m.ring × (m.taken_out ++ contents m.ring ≡ contents r ++ m.put_in)
  unfolding perform close taken_entries put_result
  perform-kept (put a) r v = elim (push-fifo r a v) [
    | inl (full, e) ↦ rw (perform, e) (v, sym (append-nil (contents r)))
    | inr (r', e, v', c, l) ↦ rw (perform, e) (v', l)
  ]
  perform-kept get r v =
      let (v', c) = pop-fifo r v in
      (
        v',
        elim c [
          | inl (e, same, t) ↦ elim (Bool-cases r.closed) [
            | inl b ↦ ground (arith, append-nil (contents r))
            | inr b ↦ ground (arith, append-nil (contents r))
          ]
          | inr (a, t, l, _) ↦ ground (arith, append-nil (contents r))
        ],
      )
  perform-kept finish r v =
      (record { room = v.room; inside = v.inside; end = v.end }, sym (append-nil (contents r)))

  -- In every order of the operations of the threads on both sides, what has been taken out and what
  -- still waits is, in order, what waited before and what has been put in: no entry is lost, doubled
  -- or overtaken, and the buffer never holds more than its capacity.
  pub stream_kept :
      (ops : List (Op A)) (r : Ring A)
      → IsValid r
      → let m = perform_all ops r in
        IsValid m.ring × (m.taken_out ++ contents m.ring ≡ contents r ++ m.put_in)
  unfolding perform_all
  stream_kept [] r v = (v, sym (append-nil (contents r)))
  stream_kept (op ∷ ops) r v =
      let now = perform op r in
      let (v', e) = perform-kept op r v in
      let (v'', e') = stream_kept ops now.ring v' in
      let behind = perform_all ops now.ring in
      (
        v'',
        append_assoc now.taken_out behind.taken_out (contents behind.ring)
            ∙ ap (λ l. now.taken_out ++ l) e'
            ∙ sym (append_assoc now.taken_out (contents now.ring) behind.put_in)
            ∙ ap (λ l. l ++ behind.put_in) e
            ∙ append_assoc (contents r) now.put_in behind.put_in,
      )
