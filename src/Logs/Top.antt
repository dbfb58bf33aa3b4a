-- ===== src/Logs/Top.antt =====
-- HW4/analyzer.c: the hits of each source, and the three sources with the most. Hits are sums of
-- match counts times level weights, so they are whole numbers.
pub mod Best
mod Tests
use system_programming_homew.Prelude.{
  ℕ, zero, suc, ◌+◌, ◌*◌, Bool, true, false, ◌||◌, ltb, if◌then◌else◌, List, [], ◌∷◌, ◌++◌, Str,
  str_eq, length, take,
}
use system_programming_homew.Logs.Entry.{LogEntry, level_weight, count_overlapping_keyword}

abbrev pub max_sources : ℕ
max_sources = 256

-- `source_hits[i]` and `source_names[i]`.
pub record Source : Type 0 where
  pub hits : ℕ
  pub name : Str

pub is_known : List Source → Str → Bool
is_known [] source = false
is_known (s ∷ rest) source = str_eq s.name source || is_known rest source

bump : List Source → Str → ℕ → List Source
bump [] source hits = []
bump (s ∷ rest) source hits =
    let later = bump rest source hits in
    if str_eq s.name source then record s { hits = s.hits + hits } ∷ rest else s ∷ later

pub update_source_hits : List Source → Str → ℕ → List Source
unfolding is_known bump
update_source_hits sources source hits =
    if is_known sources source
    then bump sources source hits
    else if ltb (length sources) max_sources
    then sources ++ record { hits = hits; name = take 63 source } ∷ []
    else sources

-- The score of a message for all keywords: `total_for_entry` of `worker_main`.
pub score_entry : List Str → ℕ → Str → ℕ
score_entry [] level message = 0
score_entry (keyword ∷ keywords) level message =
    count_overlapping_keyword message keyword * level_weight level
    + score_entry keywords level message

-- What a worker does with the entries that it gets.
unfoldable pub score_entries : List Str → ℕ → List LogEntry → List Source → List Source
unfolding score_entry update_source_hits
score_entries keywords level [] sources = sources
score_entries keywords level (e ∷ entries) sources =
    let total = score_entry keywords level e.message in
    score_entries keywords level entries
      (if ltb 0 total then update_source_hits sources e.source total else sources)

-- `best_hits` and `best_names`.
pub record Top : Type 0 where
  pub first : Source
  pub second : Source
  pub third : Source

abbrev pub no_source : Source
no_source = record { hits = 0; name = [] }

abbrev pub no_top : Top
no_top = record { first = no_source; second = no_source; third = no_source }

-- The inner loop: the places behind the one taken move down.
pub take_place : Top → Source → Top
take_place t s =
    if ltb t.first.hits s.hits
    then record { first = s; second = t.first; third = t.second }
    else if ltb t.second.hits s.hits
    then record t { second = s; third = t.second }
    else if ltb t.third.hits s.hits
    then record t { third = s }
    else t

top_from : Top → List Source → Top
unfolding take_place
top_from t [] = t
top_from t (s ∷ sources) = top_from (take_place t s) sources

pub compute_top3 : List Source → Top
unfolding top_from
compute_top3 sources = top_from no_top sources
