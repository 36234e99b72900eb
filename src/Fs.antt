-- ===== src/Fs.antt =====
-- kernel/fs: open files and descriptors, path names, and the system calls on them.
pub mod State
pub mod File
pub mod Namev
pub mod Path
mod Tests
