-- ===== src/Cargo.antt =====
-- HW5, the courier company: the priority queue of orders (order_queue.c), the orders file, the
-- courier threads and the shift's end (main.c).
pub mod Queue
pub mod Load
pub mod Shift
