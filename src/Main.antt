-- ===== src/Main.antt =====
-- `main` of code/main.c, over the calls of the three headers: what it sets up, in which order, and
-- what it gives back at the end.
pub mod Run
pub mod Script
pub mod Finish
pub mod Unmapped
pub mod Schedule
