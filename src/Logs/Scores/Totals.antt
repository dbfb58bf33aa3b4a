-- ===== src/Logs/Scores/Totals.antt =====
-- The totals of a level, in every order of the threads' steps.

use mathlib.Core.Path.{subst}
use mathlib.Core.List.{Perm, append-nil}
use mathlib.Core.List.Perm
use system_programming_homew.Logs.Entry.{LogEntry}
use system_programming_homew.Prelude.{
  ℕ, ◌<◌, ◌≤◌, ◌≡◌, refl, sym, ap, ◌∙◌, true, List, [], ◌∷◌, ◌++◌, some, get_elem?, length,
  sum_below, sum_of, All, arith,
}
use system_programming_homew.Logs.Top.{score_entries}
use system_programming_homew.Logs.Scores.{ended, Worker, Analysis, keyword_score, has_left, Reach}
use system_programming_homew.Logs.Scores.Pending.{pending_of, pending, kept, left_at}
use system_programming_homew.Logs.Scores.Invariant.{Fresh, Fresh-Inv}
use system_programming_homew.Logs.Scores.Steps.{Reach-Inv}

none_kept :
    (own : Worker → ℕ) (ws : List Worker)
    → All (λ w. w.stand ≡ ended) ws
    → sum_of (λ w. kept 0 (own w) w.stand) ws ≡ 0
none_kept own [] h = refl
none_kept own (w ∷ ws) h = omega (arith, ap (kept 0 (own w)) h.0, none_kept own ws h.1)

none_pending : (ws : List Worker) → All (λ w. w.stand ≡ ended) ws → pending ws ≡ []
none_pending [] h = refl
none_pending (w ∷ ws) h = ap (λ p. pending_of p ++ pending ws) h.0 ∙ none_pending ws h.1

first_left :
    (ws : List Worker)
    → 1 ≤ length ws
    → All (λ w. w.stand ≡ ended) ws
    → (w : Worker) × (get_elem? ws 0 ≡ some w) × (has_left w ≡ true)
first_left [] h a = absurd (omega arith)
first_left (w ∷ ws) h a = (w, refl, ap left_at a.0)

-- In every order of the threads' steps, once all of at least one thread have ended, the result counts every
-- entry of the level once, each keyword's score is the sum over the entries, the total is the sum over
-- the keywords and over the threads, and the table of sources is what the entries make of it in some
-- order.
pub totals_exact :
    {s t : Analysis}
    → Fresh s
    → Reach s t
    → 1 ≤ length t.workers
    → All (λ w. w.stand ≡ ended) t.workers
    → (t.result.total_entries ≡ length s.queue)
      × ((k : ℕ)
          → k < length s.keywords
          → t.result.per_keyword_score k ≡ sum_of (keyword_score s.keywords s.level k) s.queue)
      × (t.result.total_weighted_score ≡ sum_below t.result.per_keyword_score (length s.keywords))
      × (sum_below t.result.per_thread_score (length t.workers) ≡ t.result.total_weighted_score)
      × ((order : List LogEntry) × Perm order s.queue
          × (t.sources ≡ score_entries s.keywords s.level order []))
totals_exact {s} {t} f r some_thread gone =
    let v = Reach-Inv (Fresh-Inv f) r in
    let (w, here, out) = first_left t.workers some_thread gone in
    let q = v.closed 0 w here out in
    (
      omega (arith, v.entries_counted, none_kept (λ w. w.entries) t.workers gone, ap length q),
      λ k lt. omega (
        arith,
        v.scores_counted k lt,
        none_kept (λ w. w.scores k) t.workers gone,
        ap (sum_of (keyword_score s.keywords s.level k)) q,
      ),
      v.total_counted,
      v.threads_counted,
      let (order, credited, perm) = v.sources_kept in
          (
            order,
            Perm.trans
                (subst (λ l. Perm order (order ++ l))
                  (sym (ap (λ l. l ++ t.queue) (none_pending t.workers gone) ∙ q))
                  (subst (λ l. Perm order l) (sym (append-nil order)) (Perm.refl order)))
                perm,
            credited,
          ),
    )
