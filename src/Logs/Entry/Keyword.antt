-- ===== src/Logs/Entry/Keyword.antt =====
-- What HW4's keyword count counts: the places at which the keyword stands in the text.
use mathlib.Core.Path.{subst}
use system_programming_homew.Prelude.{
  ℕ, suc, ◌≤◌, ◌<◌, ◌≡◌, ◌≢◌, refl, ap, sym, true, ◌↔◌, inl, inr, if◌then◌else◌, [], ◌∷◌, ◌++◌, Str,
  length, arith, Bool-cases,
}
use system_programming_homew.Logs.Entry.{starts_with, count_from, count_overlapping_keyword}

starts_with-split : (needle s : Str) → starts_with needle s ≡ true → (t : Str) × (s ≡ needle ++ t)
unfolding starts_with
starts_with-split [] s h = (s, refl)
starts_with-split (c ∷ needle) [] h = cc
starts_with-split (c ∷ needle) (d ∷ s) h =
    let (t, e) = starts_with-split needle s (ground arith) in (t, ground arith)

starts_with-append : (needle t : Str) → starts_with needle (needle ++ t) ≡ true
unfolding starts_with
starts_with-append [] t = refl
starts_with-append (c ∷ needle) t = ground (arith, starts_with-append needle t)

-- The suffixes of the text that start with the keyword, each once.
abbrev pub places : Str → Str → ℕ
places needle [] = 0
places needle (c ∷ s) =
    if starts_with needle (c ∷ s) then suc (places needle s) else places needle s

starts_with-le : (needle s : Str) → starts_with needle s ≡ true → length needle ≤ length s
unfolding starts_with
starts_with-le [] s h = omega arith
starts_with-le (c ∷ needle) [] h = cc
starts_with-le (c ∷ needle) (d ∷ s) h = ground (arith, starts_with-le needle s)

count_from-places : (needle s : Str) → count_from needle s ≡ places needle s
unfolding count_from
count_from-places needle [] = refl
count_from-places needle (c ∷ s) =
    ground (arith, count_from-places needle s, starts_with-le needle (c ∷ s))

places-short : (needle s : Str) → length s < length needle → places needle s ≡ 0
places-short needle [] h = refl
places-short needle (c ∷ s) h = ground (arith, places-short needle s, starts_with-le needle (c ∷ s))

count-places :
    (haystack needle : Str)
    → needle ≢ []
    → count_overlapping_keyword haystack needle ≡ places needle haystack
unfolding count_overlapping_keyword
count-places haystack [] ne = absurd (ne refl)
count-places haystack (c ∷ needle) ne =
    ground (arith, count_from-places (c ∷ needle) haystack, places-short (c ∷ needle) haystack)

places-append : (needle a t : Str) → needle ≢ [] → 1 ≤ places needle (a ++ (needle ++ t))
places-append [] a t ne = absurd (ne refl)
places-append (c ∷ needle) [] t ne = ground (arith, starts_with-append (c ∷ needle) t)
places-append (c ∷ needle) (b ∷ a) t ne = ground (arith, places-append (c ∷ needle) a t ne)

places-found :
    (needle s : Str) → 1 ≤ places needle s → (a : Str) × (t : Str) × (s ≡ a ++ (needle ++ t))
places-found needle [] h = absurd (omega arith)
places-found needle (c ∷ s) h = elim (Bool-cases (starts_with needle (c ∷ s))) [
  | inl e ↦ let (t, q) = starts_with-split needle (c ∷ s) e in ([], t, q)
  | inr e ↦ let (a, t, q) = places-found needle s (ground arith) in (c ∷ a, t, ap (◌∷◌ c) q)
]

-- For a keyword that is not empty the count is the number of suffixes of the message that start with
-- it, so that overlapping matches count; it is positive exactly when the keyword stands in the
-- message, and an empty keyword counts 0.
pub count_overlapping_keyword-exact :
    (haystack needle : Str)
    → (needle ≡ [] → count_overlapping_keyword haystack needle ≡ 0)
      × (needle ≢ []
          → (count_overlapping_keyword haystack needle ≡ places needle haystack)
            × ((1 ≤ count_overlapping_keyword haystack needle)
                ↔ ((a : Str) × (t : Str) × (haystack ≡ a ++ (needle ++ t)))))
unfolding count_overlapping_keyword
count_overlapping_keyword-exact haystack needle = (
  λ e. rw e refl,
  λ ne.
      let same = count-places haystack needle ne in
      (
        same,
        (
          λ h. places-found needle haystack (omega (arith, same)),
          λ (a, t, q).
              omega (
                arith,
                same,
                subst (λ s. 1 ≤ places needle s) (sym q) (places-append needle a t ne),
              ),
        ),
      ),
)
