-- ===== src/Logs/Scores/Steps.antt =====
-- What each step of the analyser's threads does to the counts.
use mathlib.Core.Path.{subst}
use mathlib.Core.List.{Perm, perm_middle, append_assoc}
use mathlib.Core.List.Perm
use system_programming_homew.Prelude.{
  ℕ, ◌+◌, ◌≡◌, refl, sym, ap, ◌∙◌, true, false, ltb, if◌then◌else◌, List, [], ◌∷◌, ◌++◌, set, Str,
  some, get_elem?, length, sum_below, sum_below-same, sum_below-add, sum_below-put, sum_of,
  sum_of-set, arith, inl, inr, lt-of-get_elem?, length-set, get_elem?-set_cases,
}
use system_programming_homew.Logs.Entry.{LogEntry}
use system_programming_homew.Logs.Top.{Source, score_entry, update_source_hits, score_entries}
use system_programming_homew.Logs.Scores.{
  works, scored, at_barrier, ended, Worker, Analysis, keyword_score, score_next, credit_source,
  stands_at, exit_thread, Step, score, credit, stop, exit, Reach, started, later,
}
use system_programming_homew.Logs.Scores.Pending.{
  kept, left_at, open_entries, open_score, pending_of, pending, pending-set, score_entries-snoc,
}
use system_programming_homew.Logs.Scores.Invariant.{Inv}

module _ {keywords : List Str} {level : ℕ} {all : List LogEntry} {s : Analysis}
    (v : Inv keywords level all s) where
  score_next-Inv :
      (i : ℕ) (w : Worker) (e : LogEntry) (rest : List LogEntry)
      → get_elem? s.workers i ≡ some w
      → w.stand ≡ works
      → s.queue ≡ e ∷ rest
      → Inv keywords level all (score_next s i w e rest)
  unfolding score_next
  score_next-Inv i w e rest here at q =
      let new : Worker = record {
        entries = w.entries + 1;
        scores = λ k. w.scores k + keyword_score s.keywords s.level k e;
        stand = scored e;
      } in
      let (order, credited, perm) = v.sources_kept in
      record {
        same_keywords = v.same_keywords;
        same_level = v.same_level;
        entries_counted = omega (
          arith,
          v.entries_counted,
          sum_of-set open_entries s.workers i w new here,
          ap (kept 0 w.entries) at,
          ap (kept 0 (w.entries + 1)) at,
          ap length q,
        );
        scores_counted = λ k lt. omega (
          arith,
          v.scores_counted k lt,
          sum_of-set (open_score k) s.workers i w new here,
          ap (kept 0 (w.scores k)) at,
          ap (kept 0 (w.scores k + keyword_score s.keywords s.level k e)) at,
          ap (sum_of (keyword_score keywords level k)) q,
          ap (λ ks. keyword_score ks s.level k e) v.same_keywords,
          ap (λ l. keyword_score keywords l k e) v.same_level,
        );
        total_counted = v.total_counted;
        threads_counted =
            ap (sum_below s.result.per_thread_score) (length-set s.workers i _) ∙ v.threads_counted;
        not_counted = λ j u g h. elim (get_elem?-set_cases s.workers i j new u g) [
          | inl (same, known) ↦
              ap s.result.per_thread_score (sym same)
              ∙ v.not_counted i w here (ap (kept false true) at)
          | inr (other, old) ↦ v.not_counted j u old h
        ];
        closed = λ j u g h. elim (get_elem?-set_cases s.workers i j new u g) [
          | inl (same, known) ↦
              absurd (ground (arith, ap (λ x. left_at x.stand) known, ap left_at at))
          | inr (other, old) ↦ absurd (ground (arith, v.closed j u old h))
        ];
        sources_kept = (
          order,
          credited,
          Perm.trans
              (Perm.append_left order (
                Perm.trans
                  (Perm.append_right rest (
                    subst
                      (λ p.
                        Perm (pending_of p ++ pending (set s.workers i new))
                          (e ∷ pending s.workers))
                      at (pending-set s.workers i w new here)))
                  (Perm.symm (perm_middle (pending s.workers) rest))))
              (subst (λ q. Perm (order ++ (pending s.workers ++ q)) all) q perm),
        );
      }

  credit_source-Inv :
      (i : ℕ) (w : Worker) (e : LogEntry)
      → get_elem? s.workers i ≡ some w
      → w.stand ≡ scored e
      → Inv keywords level all (credit_source s i w e)
  unfolding credit_source score_entries
  credit_source-Inv i w e here at =
      let new : Worker = record w { stand = works } in
      let (order, credited, perm) = v.sources_kept in
      let total : List Str → ℕ → ℕ = λ ks l. score_entry ks l e.message in
      let after : List Source → ℕ → List Source =
        λ sources n. if ltb 0 n then update_source_hits sources e.source n else sources in
      record {
        same_keywords = v.same_keywords;
        same_level = v.same_level;
        entries_counted = omega (
          arith,
          v.entries_counted,
          sum_of-set open_entries s.workers i w new here,
          ap (kept 0 w.entries) at,
        );
        scores_counted = λ k lt. omega (
          arith,
          v.scores_counted k lt,
          sum_of-set (open_score k) s.workers i w new here,
          ap (kept 0 (w.scores k)) at,
        );
        total_counted = v.total_counted;
        threads_counted =
            ap (sum_below s.result.per_thread_score) (length-set s.workers i _) ∙ v.threads_counted;
        not_counted = λ j u g h. elim (get_elem?-set_cases s.workers i j new u g) [
          | inl (same, known) ↦
              ap s.result.per_thread_score (sym same)
              ∙ v.not_counted i w here (ap (kept false true) at)
          | inr (other, old) ↦ v.not_counted j u old h
        ];
        closed = λ j u g h. elim (get_elem?-set_cases s.workers i j new u g) [
          | inl (same, known) ↦ absurd (ground (arith, ap (λ x. left_at x.stand) known))
          | inr (other, old) ↦ v.closed j u old h
        ];
        sources_kept = (
          order ++ e ∷ [],
          ap (λ ks. after s.sources (total ks s.level)) v.same_keywords
              ∙ ap (λ l. after s.sources (total keywords l)) v.same_level
              ∙ ap (λ sources. after sources (total keywords level)) credited
              ∙ sym (score_entries-snoc keywords level order e []),
          Perm.trans
              (subst (λ l. Perm l (order ++ (e ∷ pending (set s.workers i new) ++ s.queue)))
                (sym (append_assoc order (e ∷ []) (pending (set s.workers i new) ++ s.queue)))
                (Perm.refl _))
              (Perm.trans
                (Perm.append_left order (
                  Perm.append_right s.queue (
                    subst
                      (λ p.
                        Perm (pending_of p ++ pending (set s.workers i new)) (pending s.workers))
                      at (pending-set s.workers i w new here))))
                perm),
        );
      }

  -- A thread that has no entry before and after leaves the table of sources as it is.
  moved-sources :
      (i : ℕ) (w u : Worker)
      → get_elem? s.workers i ≡ some w
      → pending_of w.stand ≡ []
      → pending_of u.stand ≡ []
      → (order : List LogEntry) × (s.sources ≡ score_entries keywords level order [])
        × Perm (order ++ (pending (set s.workers i u) ++ s.queue)) all
  moved-sources i w u here before after =
      let (order, credited, perm) = v.sources_kept in
      let p = pending-set s.workers i w u here in
      let p1 =
        subst
          (λ l. Perm (l ++ pending (set s.workers i u)) (pending_of u.stand ++ pending s.workers))
          before p in
      let p2 = subst (λ l. Perm (pending (set s.workers i u)) (l ++ pending s.workers)) after p1 in
      (order, credited, Perm.trans (Perm.append_left order (Perm.append_right s.queue p2)) perm)

  stands_at-Inv :
      (i : ℕ) (w : Worker)
      → get_elem? s.workers i ≡ some w
      → w.stand ≡ works
      → s.queue ≡ []
      → Inv keywords level all (stands_at s i w at_barrier)
  stands_at-Inv i w here at q = record {
    same_keywords = v.same_keywords;
    same_level = v.same_level;
    entries_counted = omega (
      arith,
      v.entries_counted,
      sum_of-set open_entries s.workers i w (record w { stand = at_barrier }) here,
      ap (kept 0 w.entries) at,
    );
    scores_counted = λ k lt. omega (
      arith,
      v.scores_counted k lt,
      sum_of-set (open_score k) s.workers i w (record w { stand = at_barrier }) here,
      ap (kept 0 (w.scores k)) at,
    );
    total_counted = v.total_counted;
    threads_counted =
        ap (sum_below s.result.per_thread_score) (length-set s.workers i _) ∙ v.threads_counted;
    not_counted = λ j u g h.
        elim (get_elem?-set_cases s.workers i j (record w { stand = at_barrier }) u g) [
          | inl (same, known) ↦
              ap s.result.per_thread_score (sym same)
              ∙ v.not_counted i w here (ap (kept false true) at)
          | inr (other, old) ↦ v.not_counted j u old h
        ];
    closed = λ j u g h. q;
    sources_kept = moved-sources i w (record w { stand = at_barrier }) here (ap pending_of at) refl;
  }

  exit_thread-Inv :
      (i : ℕ) (w : Worker)
      → get_elem? s.workers i ≡ some w
      → w.stand ≡ at_barrier
      → Inv keywords level all (exit_thread s i w)
  unfolding exit_thread
  exit_thread-Inv i w here at =
      let gone : Worker = record w { stand = ended } in
      let n = length keywords in
      let same_n : length s.keywords ≡ n = ap length v.same_keywords in
      let here_first : s.result.per_thread_score i ≡ 0 =
        v.not_counted i w here (ap (kept false true) at) in
      record {
        same_keywords = v.same_keywords;
        same_level = v.same_level;
        entries_counted = omega (
          arith,
          v.entries_counted,
          sum_of-set open_entries s.workers i w gone here,
          ap (kept 0 w.entries) at,
        );
        scores_counted = λ k lt. ground (
          arith,
          v.scores_counted k lt,
          same_n,
          sum_of-set (open_score k) s.workers i w gone here,
          ap (kept 0 (w.scores k)) at,
        );
        total_counted = omega (
          arith,
          v.total_counted,
          ap (sum_below w.scores) same_n,
          sum_below-add s.result.per_keyword_score w.scores n,
          sum_below-same (exit_thread s i w).result.per_keyword_score
              (λ k. s.result.per_keyword_score k + w.scores k) n (λ k lt. ground (arith, same_n)),
        );
        threads_counted = omega (
          arith,
          v.threads_counted,
          sum_below-put s.result.per_thread_score i (sum_below w.scores (length s.keywords))
              (length s.workers) (lt-of-get_elem? s.workers i w here) here_first,
          ap (sum_below (exit_thread s i w).result.per_thread_score) (length-set s.workers i gone),
        );
        not_counted = λ j u g h. elim (get_elem?-set_cases s.workers i j gone u g) [
          | inl (same, known) ↦ absurd (ground (arith, ap (λ x. kept false true x.stand) known))
          | inr (other, old) ↦ ground (arith, v.not_counted j u old h)
        ];
        closed = λ j u g h. v.closed i w here (ap left_at at);
        sources_kept = moved-sources i w gone here (ap pending_of at) refl;
      }

Step-Inv :
    {keywords : List Str} {level : ℕ} {all : List LogEntry} {s t : Analysis}
    → Inv keywords level all s
    → Step s t
    → Inv keywords level all t
Step-Inv {keywords} {level} {all} v (score i w e rest here at q p) =
    subst (Inv keywords level all) (sym p) (score_next-Inv v i w e rest here at q)
Step-Inv {keywords} {level} {all} v (credit i w e here at p) =
    subst (Inv keywords level all) (sym p) (credit_source-Inv v i w e here at)
Step-Inv {keywords} {level} {all} v (stop i w here at q p) =
    subst (Inv keywords level all) (sym p) (stands_at-Inv v i w here at q)
Step-Inv {keywords} {level} {all} v (exit i w here at there p) =
    subst (Inv keywords level all) (sym p) (exit_thread-Inv v i w here at)

pub Reach-Inv :
    {keywords : List Str} {level : ℕ} {all : List LogEntry} {s t : Analysis}
    → Inv keywords level all s
    → Reach s t
    → Inv keywords level all t
Reach-Inv v started = v
Reach-Inv v (later r step) = Step-Inv (Reach-Inv v r) step
