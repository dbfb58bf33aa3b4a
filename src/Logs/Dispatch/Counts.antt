-- ===== src/Logs/Dispatch/Counts.antt =====
-- The counters of HW4's dispatcher, and what one round of its loop adds to the regions.
use mathlib.Core.List.{append-nil, append_assoc}
use system_programming_homew.Prelude.{
  ℕ, zero, suc, ◌+◌, ◌≤◌, ◌<◌, ◌≡◌, sym, Bool, true, false, not, ◌&&◌, ◌==◌, ltb, leb,
  if◌then◌else◌, List, [], ◌∷◌, ◌++◌, arith,
}
use system_programming_homew.Logs.Entry.{LogEntry}
use system_programming_homew.Logs.Dispatch.{
  eofs, Options, Dispatcher, put_at, source_is_priority, count_eof, route, dispatch,
}

-- The entries of one level, and those of the priority sources.
abbrev pub of_level : ℕ → List LogEntry → List LogEntry
of_level l [] = []
of_level l (e ∷ es) =
    if not e.is_eof && (e.level_index == l) then e ∷ of_level l es else of_level l es

abbrev pub of_priority : Options → List LogEntry → List LogEntry
of_priority opts [] = []
of_priority opts (e ∷ es) =
    if not e.is_eof && source_is_priority opts e.source
    then e ∷ of_priority opts es
    else of_priority opts es

-- How many of the levels below `n` are posted.
abbrev pub posted_below : (ℕ → Bool) → ℕ → ℕ
posted_below f zero = 0
posted_below f (suc n) = if f n then suc (posted_below f n) else posted_below f n

-- What the dispatcher's counters say of each other.
pub record Counted (opts : Options) (d : Dispatcher) : Type 0 where
  pub posted : (l : ℕ) → d.eof_posted l ≡ leb opts.num_files (d.eof_seen l)
  pub finished : d.finished_levels ≡ posted_below d.eof_posted 4

posted_below-put :
    (f : ℕ → Bool) (n l : ℕ)
    → f l ≡ false
    → posted_below (put_at f l true) n
      ≡ (if ltb l n then suc (posted_below f n) else posted_below f n)
posted_below-put f zero l h = ground arith
posted_below-put f (suc n) l h = ground (arith, posted_below-put f n l h)

pub dispatch-Counted :
    (opts : Options) (d : Dispatcher) (e : LogEntry)
    → e.level_index < 4
    → 1 ≤ opts.num_files
    → Counted opts d
    → Counted opts (dispatch opts d e)
unfolding dispatch count_eof route
dispatch-Counted opts d e lt some_file c = record {
  posted = λ l. ground (arith, c.posted l, c.posted e.level_index);
  finished =
      ground
        (arith, c.finished, c.posted e.level_index, posted_below-put d.eof_posted 4 e.level_index);
}

-- What a run adds to the regions is what it has read, sorted by level and by source.
pub record Routed (opts : Options) (d d' : Dispatcher) (done : List LogEntry) : Type 0 where
  pub levels : (l : ℕ) → d'.region_b l ≡ d.region_b l ++ of_level l done
  pub priority : d'.region_d ≡ d.region_d ++ of_priority opts done
  pub seen : (l : ℕ) → d'.eof_seen l ≡ d.eof_seen l + eofs l done

pub dispatch-Routed :
    (opts : Options) (d : Dispatcher) (e : LogEntry) → Routed opts d (dispatch opts d e) (e ∷ [])
unfolding dispatch count_eof route eofs
dispatch-Routed opts d e = record {
  levels = λ l. ground (arith, append-nil (d.region_b l));
  priority = ground (arith, append-nil d.region_d);
  seen = λ l. ground arith;
}

pub eofs-append : (xs ys : List LogEntry) (l : ℕ) → eofs l (xs ++ ys) ≡ eofs l xs + eofs l ys
unfolding eofs
eofs-append [] ys l = omega arith
eofs-append (e ∷ xs) ys l = ground (arith, eofs-append xs ys l)

pub Routed-refl : (opts : Options) (d : Dispatcher) → Routed opts d d []
unfolding eofs
Routed-refl opts d = record {
  levels = λ l. sym (append-nil (d.region_b l));
  priority = sym (append-nil d.region_d);
  seen = λ l. omega arith;
}

pub Routed-trans :
    {opts : Options} {d d' d'' : Dispatcher} (e : LogEntry) (done : List LogEntry)
    → Routed opts d d' (e ∷ [])
    → Routed opts d' d'' done
    → Routed opts d d'' (e ∷ done)
unfolding eofs
Routed-trans {opts} {d} {d'} {d''} e done p q = record {
  levels = λ l. ground (
    arith,
    p.levels l,
    q.levels l,
    append_assoc (d.region_b l) (e ∷ []) (of_level l done),
    append-nil (d.region_b l),
  );
  priority = ground (
    arith,
    p.priority,
    q.priority,
    append_assoc d.region_d (e ∷ []) (of_priority opts done),
    append-nil d.region_d,
  );
  seen = λ l. ground (arith, p.seen l, q.seen l);
}
