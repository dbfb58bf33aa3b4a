-- ===== src/Logs.antt =====
-- HW4: the log analyser. Readers parse lines, a dispatcher routes the entries by level, and analysers
-- score them.
pub mod Ring
pub mod Reader
pub mod Entry
pub mod Dispatch
pub mod Top
pub mod Scores
pub mod Summary
