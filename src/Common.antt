-- ===== src/Common.antt =====
-- axiom_common_library.
pub mod Sched
pub mod Strlist
