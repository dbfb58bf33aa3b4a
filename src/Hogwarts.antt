-- ===== src/Hogwarts.antt =====
-- HW6, the ingredient server: hogwarts.c with magic_common.c.
pub mod Wire
pub mod Int32
pub mod State
pub mod Handlers
pub mod Session
pub mod Client
