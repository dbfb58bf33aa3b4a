-- ===== src/Logs/Scores/Pending.antt =====
-- What the threads of HW4's analyser have taken and not handed over.
use mathlib.Core.Path.{subst}
use mathlib.Core.List.{Perm, append_assoc}
use mathlib.Core.List.Permᴰ
use mathlib.Core.List.Perm
use system_programming_homew.Prelude.{
  ℕ, zero, suc, ◌≡◌, refl, ap, Bool, true, false, List, [], ◌∷◌, ◌++◌, set, Str, none, some,
  get_elem?, arith,
}
use system_programming_homew.Logs.Entry.{LogEntry}
use system_programming_homew.Logs.Top.{Source, score_entries}
use system_programming_homew.Logs.Scores.{Stand, works, scored, at_barrier, ended, Worker}

-- What a thread has not handed over yet.
abbrev pub kept {ℓ} : {A : Type ℓ} → A → A → Stand → A
kept none_left own works = own
kept none_left own (scored e) = own
kept none_left own at_barrier = own
kept none_left own ended = none_left

abbrev pub left_at : Stand → Bool
left_at p = elim p [ works ↦ false | scored e ↦ false | at_barrier ↦ true | ended ↦ true ]

abbrev pub open_entries : Worker → ℕ
open_entries w = kept 0 w.entries w.stand

abbrev pub open_score : ℕ → Worker → ℕ
open_score k w = kept 0 (w.scores k) w.stand

-- The entries that threads have taken and not yet credited to their sources.
abbrev pub pending_of : Stand → List LogEntry
pending_of works = []
pending_of (scored e) = e ∷ []
pending_of at_barrier = []
pending_of ended = []

abbrev pub pending : List Worker → List LogEntry
pending [] = []
pending (w ∷ ws) = pending_of w.stand ++ pending ws

swap_front : {A : Type 0} (xs ys zs : List A) → Perm (xs ++ (ys ++ zs)) (ys ++ (xs ++ zs))
swap_front xs ys zs =
    subst (λ l. Perm l (ys ++ (xs ++ zs))) (append_assoc xs ys zs)
      (subst (λ l. Perm ((xs ++ ys) ++ zs) l) (append_assoc ys xs zs)
        (Perm.append_right zs (∣ Permᴰ.append_comm xs ys ∣₁)))

-- A thread that moves on exchanges its pending entry.
pub pending-set :
    (ws : List Worker) (i : ℕ) (w v : Worker)
    → get_elem? ws i ≡ some w
    → Perm (pending_of w.stand ++ pending (set ws i v)) (pending_of v.stand ++ pending ws)
pending-set [] i w v h = absurd (ground arith)
pending-set (u ∷ ws) zero w v h =
    subst
      (λ x.
        Perm (pending_of x.stand ++ (pending_of v.stand ++ pending ws))
          (pending_of v.stand ++ (pending_of u.stand ++ pending ws)))
      (ap (λ o. elim o [ none ↦ u | some x ↦ x ]) h)
      (swap_front (pending_of u.stand) (pending_of v.stand) (pending ws))
pending-set (u ∷ ws) (suc i) w v h =
    let p = pending_of u.stand in
    Perm.trans (swap_front (pending_of w.stand) p (pending (set ws i v))) (
      Perm.trans (Perm.append_left p (pending-set ws i w v h))
        (swap_front p (pending_of v.stand) (pending ws)))

pub score_entries-snoc :
    (keywords : List Str) (level : ℕ) (es : List LogEntry) (e : LogEntry) (sources : List Source)
    → score_entries keywords level (es ++ e ∷ []) sources
      ≡ score_entries keywords level (e ∷ []) (score_entries keywords level es sources)
unfolding score_entries
score_entries-snoc keywords level [] e sources = refl
score_entries-snoc keywords level (x ∷ es) e sources = score_entries-snoc keywords level es e _
