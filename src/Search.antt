-- ===== src/Search.antt =====
-- HW1 and HW2: the file searches, and here the patterns that both match file names against.
pub mod Pattern
pub mod Tree
pub mod Workers
pub mod Criteria
pub mod Report
