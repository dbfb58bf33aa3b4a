-- ===== src/Lib.antt =====
-- Models of the homework programs of this repository: a courier company of threads and a priority
-- queue (HW5), an ingredient server on sockets (HW6), a delivery of words by processes over shared
-- memory (HW3), a log analyser of processes and circular buffers (HW4), and two file searches by
-- name patterns and other criteria, one of them by several processes (HW1, HW2).
--
-- Parts and files
--   Prelude   Boolean tests, lists over the native numbers, C strings as lists of bytes.
--   Libc      what the programs use of the C library on text: fgets, sscanf, strtol, strtok_r, "%d".
--             `parse_positive_int` stands here for the function of that name in HW5/main.c and
--             HW6/magic_common.c, and for `parse_positive` of HW3/hw3.c.
--   Cargo     HW5. Queue: order_queue.c. Load: the orders file (main.c). Shift: the courier threads,
--             the main thread's wait and cancellation, and the summary (main.c).
--   Hogwarts  HW6. Wire: magic_common.c. State, Handlers, Session: hogwarts.c, from the client table
--             over the commands to the server's loop. Int32: the program's `int` amounts.
--             Client: the loop of the two clients (client_common.c).
--   Floors    HW3. Word: a word and its sorting area (shared_memory.c, sorting.c). Requests: the two
--             request tables (letter_carrier.c, elevator.c). Admission: the word carriers and the
--             places on the floors (word_carrier.c, try_complete_word). Carriers: the letter carriers
--             and their slots (shared_memory.c, letter_carrier.c, hw3.c). Transport: what the
--             letter carriers and the elevators do to words, floors and each other
--             (letter_carrier.c, elevator.c, move_carrier_between_floors), joined to Admission.
--   Logs      HW4. Ring: the circular buffers of reader.c, dispatcher.c and analyzer.c. Reader: the
--             byte ranges of its threads (reader.c). Entry: the parsing and the keyword count of
--             common.c. Dispatch: dispatcher.c. Top: the hits of the sources and the three best of
--             analyzer.c. Scores: the threads of an analyser and the result of a level
--             (analyzer.c). Summary: the high-priority score (aggregator.c).
--   Search    HW1 and HW2. Pattern: HW2/pattern.c, and match_filename of HW1/HW1.c. Tree: what the
--             calls on directories answer. Workers: the walks, the division of the work and the
--             workers of HW2 (worker.c, main.c). Report: the workers' lines and their reading
--             (worker.c, main.c). Criteria: the criteria and the search of HW1/HW1.c.
--
-- How the code corresponds
--   A struct is a record with the same fields; a C array of slots is a list, or a function of the
--   index where only the indices in use matter (HW3's words, HW4's buffers). A function that changes
--   state takes it and returns it. -1, NULL and failed calls are `none` or a constructor. Threads
--   and processes (HW5, HW4's analysers, HW3) are lists of records with the point of the loop at
--   which each stands; what one does with a lock held is one step, and a history is any sequence of
--   steps. A condition variable wakes its sleepers (HW5) or is left out where a waiter only tries
--   again (HW3, HW4). The counters of HW3 that processes increment with different locks held are
--   incremented in one step.
--   `malloc`, `fopen`, `accept`, `send` and `rand_r` are arguments: what they answer is any value.
--   The walks of HW1 and HW2 run over a tree that holds what readdir and lstat answer; it does not
--   change during a walk, and SIGTERM reaches a worker of HW2 after any number of its tests.
--   Sockets, log lines and console output are not kept, but for the lines that HW6 sends.
--   Transport allows more than the code does: a letter carrier may lock any word, may stop its search
--   at any word, and the parent may start a carrier on any floor at any time.
--
-- Bounds and fuel
--   Sizes of HW5's queue wrap at 2^64, amounts of HW6 at 2^32 in two's complement; other counters
--   are numbers without a bound. The tables have the sizes of the code: 512 letter carriers and
--   2048 requests (HW3), 512 subdirectories and 4096 matches (HW2), 256 sources (HW4). The loops
--   that pop until a queue is empty run on one unit of fuel more than the queue holds, the
--   exchange sort on one round for each request, and a thread that reads lines on one unit more
--   than the file has bytes, since each line has a byte.
--   Printed numbers have at most 20 digits. "%d" and "%ld" store what glibc stores: the nearest end
--   of `long`, cut to 32 bits for an int.
--   HW4's dispatcher runs over what it finds in Region A: entries, and time-outs with the number of
--   entries that the readers push between a time-out and the check of the counters behind it.
--
-- Not modelled
--   HW2's reaping of its children and the drawing of its tree of results; the reports,
--   shared-memory set-up and watchdog of HW4; the input and output files of HW3; option parsing,
--   signal set-up and process creation everywhere. They are system calls and output, but for the
--   order of the rows of HW4 and HW2 and the check of HW3's input.
pub mod Prelude
pub mod Libc
pub mod Cargo
pub mod Logs
pub mod Search
pub mod Hogwarts
pub mod Floors
