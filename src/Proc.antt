-- ===== src/Proc.antt =====
-- The process table of proc.c and proc.h, in the build with state lists (CS333_P3P4).
pub mod Table
pub mod StateList
pub mod Lists
pub mod Alloc
pub mod Init
pub mod Sched
pub mod Scan
pub mod Wakeup
pub mod Wait
pub mod Exit
pub mod Fork
pub mod Kill
pub mod Priority
pub mod Whole
pub mod Sample
