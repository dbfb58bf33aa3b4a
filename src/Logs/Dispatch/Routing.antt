-- ===== src/Logs/Dispatch/Routing.antt =====
-- Where HW4's dispatcher sends each entry, and when it stops.

use system_programming_homew.Prelude.{
  ℕ, zero, suc, ◌+◌, ◌≤◌, ◌<◌, ◌≡◌, refl, ap, Bool, true, false, ltb, leb, ◌⊎◌, inl, inr, List, [],
  ◌∷◌, ◌++◌, All, take, length, arith, Bool-cases, ℕ_discrete,
}
use system_programming_homew.Logs.Entry.{LogEntry}
use system_programming_homew.Logs.Dispatch.{
  Arrival, arrives, times_out, entries_of, eofs, all_done, Options, Dispatcher, dispatcher_init,
  dispatch, dispatch_all, run_dispatcher_process,
}
use system_programming_homew.Logs.Dispatch.Counts.{
  of_level, of_priority, posted_below, Counted, dispatch-Counted, Routed, dispatch-Routed,
  eofs-append, Routed-refl, Routed-trans,
}

pub expires : List Arrival → Bool
expires [] = false
expires (arrives e ∷ rest) = expires rest
expires (times_out late ∷ rest) = true

-- Where the loop reads on, some level has not ended.
open_level :
    {opts : Options} {d : Dispatcher}
    → Counted opts d
    → d.finished_levels < 4
    → ¬ ((l : ℕ) → l < 4 → opts.num_files ≤ d.eof_seen l + eofs l [])
unfolding eofs
open_level {opts} {d} c lt all =
    let on : (l : ℕ) → l < 4 → d.eof_posted l ≡ true = λ l h. ground (arith, c.posted l, all l h) in
    absurd (
      ground (
        arith,
        c.finished,
        on 0 (omega arith),
        on 1 (omega arith),
        on 2 (omega arith),
        on 3 (omega arith),
      ))

nothing_read :
    (opts : Options) (d : Dispatcher) (a b : List LogEntry)
    → [] ≡ a ++ b
    → 1 ≤ length b
    → ¬ ((l : ℕ) → l < 4 → opts.num_files ≤ d.eof_seen l + eofs l a)
nothing_read opts d [] b e h all = absurd (omega (arith, ap length e))
nothing_read opts d (x ∷ a) b e h all = absurd (omega (arith, ap length e))

abbrev rest_of : List LogEntry → List LogEntry
rest_of [] = []
rest_of (e ∷ es) = es

-- What a run leaves: it has read everything, or every level was finished, or a time-out found all
-- EOF markers counted.
record Ran (opts : Options) (d : Dispatcher) (from : List Arrival) (r : Dispatcher × List LogEntry)
    : Type 0 where
  done : List LogEntry
  split : entries_of from ≡ done ++ r.1
  routed : Routed opts d r.0 done
  counted : Counted opts r.0
  needed :
      (a b : List LogEntry)
      → done ≡ a ++ b
      → 1 ≤ length b
      → ¬ ((l : ℕ) → l < 4 → opts.num_files ≤ d.eof_seen l + eofs l a)
  stopped :
      (r.1 ≡ [])
      ⊎ ((4 ≤ r.0.finished_levels)
          ⊎ ((expires from ≡ true) × ((late : ℕ) × (all_done opts r.0 (take late r.1) ≡ true))))

reads_on :
    {opts : Options} {d d' : Dispatcher} (e : LogEntry) (done : List LogEntry)
    → Counted opts d
    → d.finished_levels < 4
    → Routed opts d d' (e ∷ [])
    → ((a b : List LogEntry)
        → done ≡ a ++ b
        → 1 ≤ length b
        → ¬ ((l : ℕ) → l < 4 → opts.num_files ≤ d'.eof_seen l + eofs l a))
    → (a b : List LogEntry) → e ∷ done ≡ a ++ b
    → 1 ≤ length b
    → ¬ ((l : ℕ) → l < 4 → opts.num_files ≤ d.eof_seen l + eofs l a)
unfolding eofs
reads_on e done c lt routed later [] b p h all = open_level c lt all
reads_on {opts} {d} e done c lt routed later (x ∷ a) b p h all =
    let same : e ≡ x = ap (λ l. elim l [ [] ↦ e | y ∷ ys ↦ y ]) p in
    later a b (ap rest_of p) h (λ l k.
      omega
        (arith, all l k, routed.seen l, eofs-append (x ∷ []) a l, ap (λ y. eofs l (y ∷ [])) same))

dispatch_all-Ran :
    (opts : Options) (d : Dispatcher) (from : List Arrival)
    → 1 ≤ opts.num_files
    → All (λ e. e.level_index < 4) (entries_of from)
    → Counted opts d
    → Ran opts d from (dispatch_all opts d from)
unfolding dispatch_all entries_of expires
dispatch_all-Ran opts d [] some_file lts c = record {
  done = [];
  split = refl;
  routed = Routed-refl opts d;
  counted = c;
  needed = nothing_read opts d;
  stopped = inl refl;
}
dispatch_all-Ran opts d (arrives e ∷ from) some_file (lt, lts) c =
    elim (Bool-cases (ltb d.finished_levels 4)) [
      | inl on ↦
          let r =
            dispatch_all-Ran opts (dispatch opts d e) from some_file lts
              (dispatch-Counted opts d e lt some_file c) in
          rw on (record {
            done = e ∷ r.done;
            split = ap (◌∷◌ e) r.split;
            routed = Routed-trans e r.done (dispatch-Routed opts d e) r.routed;
            counted = r.counted;
            needed =
                λ a b. reads_on e r.done c (ground arith) (dispatch-Routed opts d e) r.needed a b;
            stopped = r.stopped;
          })
      | inr off ↦ rw off (record {
        done = [];
        split = refl;
        routed = Routed-refl opts d;
        counted = c;
        needed = nothing_read opts d;
        stopped = inr (inl (ground arith));
      })
    ]
dispatch_all-Ran opts d (times_out late ∷ from) some_file lts c =
    let stops = all_done opts d (take late (entries_of from)) in
    elim (Bool-cases (ltb d.finished_levels 4)) [
      | inl on ↦ elim (Bool-cases stops) [
        | inl yes_all ↦
            rw (on, yes_all)
              (record {
                done = [];
                split = refl;
                routed = Routed-refl opts d;
                counted = c;
                needed = nothing_read opts d;
                stopped = inr (inr (refl, (late, yes_all)));
              })
        | inr more ↦
            let r = dispatch_all-Ran opts d from some_file lts c in
            rw (on, more)
              (record {
                done = r.done;
                split = r.split;
                routed = r.routed;
                counted = r.counted;
                needed = r.needed;
                stopped = elim r.stopped [
                  | inl e ↦ inl e
                  | inr (inl e) ↦ inr (inl e)
                  | inr (inr (x, k)) ↦ inr (inr (refl, k))
                ];
              })
      ]
      | inr off ↦ rw off (record {
        done = [];
        split = refl;
        routed = Routed-refl opts d;
        counted = c;
        needed = nothing_read opts d;
        stopped = inr (inl (ground arith));
      })
    ]

all_done-level :
    (opts : Options) (d : Dispatcher) (late : List LogEntry) (l : ℕ)
    → all_done opts d late ≡ true
    → l < 4
    → opts.num_files ≤ d.eof_seen l + eofs l late
unfolding all_done
all_done-level opts d late l h lt = elim (ℕ_discrete l 0) [
  | yes e ↦ rw e (ground arith)
  | no e0 ↦ elim (ℕ_discrete l 1) [
    | yes e ↦ rw e (ground arith)
    | no e1 ↦ elim (ℕ_discrete l 2) [
      | yes e ↦ rw e (ground arith)
      | no e2 ↦ let e : l ≡ 3 = omega arith in rw e (ground arith)
    ]
  ]
]

posted_below-le : (f : ℕ → Bool) (n : ℕ) → posted_below f n ≤ n
posted_below-le f zero = omega arith
posted_below-le f (suc n) = ground (arith, posted_below-le f n)

posted_below-all : (f : ℕ → Bool) (n l : ℕ) → n ≤ posted_below f n → l < n → f l ≡ true
posted_below-all f zero l h lt = absurd (omega arith)
posted_below-all f (suc n) l h lt = elim (ℕ_discrete l n) [
  | yes e ↦ ground (arith, posted_below-le f n)
  | no ne ↦ posted_below-all f n l (ground (arith, posted_below-le f n)) (omega arith)
]

init-Counted : (opts : Options) → 1 ≤ opts.num_files → Counted opts dispatcher_init
init-Counted opts h = record { posted = λ l. ground arith; finished = refl }

pub run_dispatcher-routes :
    (opts : Options) (from : List Arrival)
    → 1 ≤ opts.num_files
    → All (λ e. e.level_index < 4) (entries_of from)
    → let (d, left) = run_dispatcher_process opts from in
      (done : List LogEntry) × (entries_of from ≡ done ++ left)
      × ((l : ℕ) → d.region_b l ≡ of_level l done)
      × (d.region_d ≡ of_priority opts done)
      × ((l : ℕ) → d.eof_posted l ≡ leb opts.num_files (eofs l done))
      × ((a b : List LogEntry)
          → done ≡ a ++ b
          → 1 ≤ length b
          → ¬ ((l : ℕ) → l < 4 → opts.num_files ≤ eofs l a))
      × ((left ≡ [])
          ⊎ (((l : ℕ) → l < 4 → opts.num_files ≤ eofs l done)
              ⊎ ((expires from ≡ true)
                  × ((late : ℕ) × ((l : ℕ)
                        → l < 4
                        → opts.num_files ≤ eofs l (done ++ take late left))))))
unfolding run_dispatcher_process
run_dispatcher-routes opts from some_file lts =
    let r =
      dispatch_all-Ran opts dispatcher_init from some_file lts (init-Counted opts some_file) in
    let (d, left) = dispatch_all opts dispatcher_init from in
    (
      r.done,
      r.split,
      r.routed.levels,
      r.routed.priority,
      λ l. ground (arith, r.counted.posted l, r.routed.seen l),
      λ a b p h all. r.needed a b p h (λ l k. omega (arith, all l k)),
      elim r.stopped [
        | inl e ↦ inl e
        | inr (inl all) ↦ inr (
            inl (λ l lt.
              let on = posted_below-all d.eof_posted 4 l (omega (arith, r.counted.finished)) lt in
              ground (arith, r.counted.posted l, r.routed.seen l)))
        | inr (inr (x, (late, all))) ↦ inr (
            inr (
              x,
              (
                late,
                λ l lt. omega (
                  arith,
                  all_done-level opts d (take late left) l all lt,
                  r.routed.seen l,
                  eofs-append r.done (take late left) l,
                ),
              ),
            ))
      ],
    )
