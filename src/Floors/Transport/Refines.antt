-- ===== src/Floors/Transport/Refines.antt =====
-- HW3's transport is one way to run the words of its admission.
use system_programming_homew.Prelude.{◌≡◌, ◌∙◌, ◌∙◌, ◌⊎◌}
use system_programming_homew.Floors.Admission.{
  WordCarrier, SharedState, scanning, claiming, decided, claim_word, reserve_floors,
  admit_or_release, sort_word, with_word,
}
use system_programming_homew.Floors.Transport.Steps.{Step}
use system_programming_homew.Floors.Admission as Admission

abbrev Moves : SharedState → SharedState → Type 0
Moves a b = (a ≡ b) ⊎ Admission.Step a b
