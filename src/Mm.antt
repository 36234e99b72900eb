-- ===== src/Mm.antt =====
-- kernel/mm/pframe.c and the memory objects of kernel/vm: resident pages and what they belong to.
pub mod State
pub mod Pframe
pub mod Anon
mod Tests
pub mod Shadow
