-- ===== src/Libc.antt =====
-- What the programs use of the C library on text: reading lines (`fgets`), scanning fields
-- (`sscanf`), whole-number arguments (`strtol`), splitting (`strtok_r`), and printing `%d`.
-- A file is its list of bytes, none of them NUL. A number that does not fit its type is undefined in
-- C for `%d`; here it keeps its value.
pub mod Lines
pub mod Scan
pub mod Tokens
pub mod Decimal
pub mod Printed
mod Tests
