-- ===== src/Logs/Scores/Invariant.antt =====
-- What the threads of an analyser keep in every order of their steps, and that it holds at the start.
use mathlib.Core.Path.{subst}
use mathlib.Core.List.{Perm}
use mathlib.Core.List.Perm
use system_programming_homew.Prelude.{
  ℕ, ◌+◌, ◌<◌, ◌≡◌, refl, sym, ap, ◌∙◌, true, false, List, [], ◌∷◌, ◌++◌, Str, some, get_elem?,
  length, sum_below, sum_below-zero, sum_of, sum_of-zero, All, All-get, arith,
}
use system_programming_homew.Logs.Entry.{LogEntry}
use system_programming_homew.Logs.Top.{score_entries}
use system_programming_homew.Logs.Scores.{
  Stand, works, scored, at_barrier, ended, Worker, Analysis, keyword_score, has_left,
}
use system_programming_homew.Logs.Scores.Pending.{
  kept, left_at, open_entries, open_score, pending_of, pending,
}

pub record Fresh (s : Analysis) : Type 0 where
  pub idle : All (λ w. (w.entries ≡ 0) × ((k : ℕ) → w.scores k ≡ 0) × (w.stand ≡ works)) s.workers
  pub no_sources : s.sources ≡ []
  pub no_entries : s.result.total_entries ≡ 0
  pub no_total : s.result.total_weighted_score ≡ 0
  pub no_keyword : (k : ℕ) → s.result.per_keyword_score k ≡ 0
  pub no_thread : (i : ℕ) → s.result.per_thread_score i ≡ 0

-- `all` are the level's entries.
pub record Inv (keywords : List Str) (level : ℕ) (all : List LogEntry) (s : Analysis) : Type 0 where
  pub same_keywords : s.keywords ≡ keywords
  pub same_level : s.level ≡ level
  pub entries_counted :
      s.result.total_entries + sum_of open_entries s.workers + length s.queue ≡ length all
  pub scores_counted :
      (k : ℕ)
      → k < length keywords
      → s.result.per_keyword_score k
          + sum_of (open_score k) s.workers
          + sum_of (keyword_score keywords level k) s.queue
        ≡ sum_of (keyword_score keywords level k) all
  pub total_counted :
      s.result.total_weighted_score ≡ sum_below s.result.per_keyword_score (length keywords)
  pub threads_counted :
      sum_below s.result.per_thread_score (length s.workers) ≡ s.result.total_weighted_score
  pub not_counted :
      (i : ℕ) (w : Worker)
      → get_elem? s.workers i ≡ some w
      → kept false true w.stand ≡ true
      → s.result.per_thread_score i ≡ 0
  pub closed :
      (i : ℕ) (w : Worker) → get_elem? s.workers i ≡ some w → has_left w ≡ true → s.queue ≡ []
  pub sources_kept :
      (order : List LogEntry) × (s.sources ≡ score_entries keywords level order [])
      × Perm (order ++ (pending s.workers ++ s.queue)) all

pub Fresh-Inv : {s : Analysis} → Fresh s → Inv s.keywords s.level s.queue s
unfolding score_entries
Fresh-Inv {s} f = record {
  same_keywords = refl;
  same_level = refl;
  entries_counted = omega (
    arith,
    f.no_entries,
    sum_of-zero open_entries s.workers
        (none_open (λ w. w.entries) s.workers (idle_entries s.workers f.idle)),
  );
  scores_counted = λ k lt. omega (
    arith,
    f.no_keyword k,
    sum_of-zero (open_score k) s.workers
        (none_open (λ w. w.scores k) s.workers (idle_scores k s.workers f.idle)),
  );
  total_counted =
      f.no_total ∙ sym (sum_below-zero s.result.per_keyword_score (length s.keywords) f.no_keyword);
  threads_counted =
      sum_below-zero s.result.per_thread_score (length s.workers) f.no_thread ∙ sym f.no_total;
  not_counted = λ i w g h. f.no_thread i;
  closed = λ i w g h. absurd (
      ground (
        arith,
        ap (λ p. left_at p)
            (All-get (λ w. (w.entries ≡ 0) × ((k : ℕ) → w.scores k ≡ 0) × (w.stand ≡ works))
              s.workers i w f.idle g).2,
      ));
  sources_kept = (
    [],
    f.no_sources,
    subst (λ l. Perm (l ++ s.queue) s.queue)
        (sym (none_pending s.workers (idle_stands s.workers f.idle))) (Perm.refl s.queue),
  );
}
  where
    idle_stands :
        (ws : List Worker)
        → All (λ w. (w.entries ≡ 0) × ((k : ℕ) → w.scores k ≡ 0) × (w.stand ≡ works)) ws
        → All (λ w. w.stand ≡ works) ws
    idle_stands [] h = tt
    idle_stands (w ∷ ws) h = (h.0.2, idle_stands ws h.1)

    none_pending : (ws : List Worker) → All (λ w. w.stand ≡ works) ws → pending ws ≡ []
    none_pending [] h = refl
    none_pending (w ∷ ws) h = ap (λ p. pending_of p ++ pending ws) h.0 ∙ none_pending ws h.1

    idle_entries :
        (ws : List Worker)
        → All (λ w. (w.entries ≡ 0) × ((k : ℕ) → w.scores k ≡ 0) × (w.stand ≡ works)) ws
        → All (λ w. w.entries ≡ 0) ws
    idle_entries [] h = tt
    idle_entries (w ∷ ws) h = (h.0.0, idle_entries ws h.1)

    idle_scores :
        (k : ℕ) (ws : List Worker)
        → All (λ w. (w.entries ≡ 0) × ((k : ℕ) → w.scores k ≡ 0) × (w.stand ≡ works)) ws
        → All (λ w. w.scores k ≡ 0) ws
    idle_scores k [] h = tt
    idle_scores k (w ∷ ws) h = (h.0.1 k, idle_scores k ws h.1)

    nothing_kept : (a : ℕ) (p : Stand) → a ≡ 0 → kept 0 a p ≡ 0
    nothing_kept a works e = e
    nothing_kept a (scored x) e = e
    nothing_kept a at_barrier e = e
    nothing_kept a ended e = refl

    none_open :
        (own : Worker → ℕ) (ws : List Worker)
        → All (λ w. own w ≡ 0) ws
        → All (λ w. kept 0 (own w) w.stand ≡ 0) ws
    none_open own [] h = tt
    none_open own (w ∷ ws) h = (nothing_kept (own w) w.stand h.0, none_open own ws h.1)
