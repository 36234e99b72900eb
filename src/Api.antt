-- ===== src/Api.antt =====
-- kernel/api: the entry of system calls.
pub mod Syscall
mod Tests
