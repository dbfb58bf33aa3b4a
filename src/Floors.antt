-- ===== src/Floors.antt =====
-- HW3, the multi-floor word transport: the words and their sorting areas, the floors with their
-- limits, and the elevators' request tables.
pub mod Word
pub mod Requests
pub mod Admission
pub mod Carriers
pub mod Transport
