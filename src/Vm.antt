-- ===== src/Vm.antt =====
-- kernel/vm: the address space of a process.
pub mod Area
pub mod Paging
pub mod Vmmap
pub mod Map
pub mod Mmap
pub mod Brk
pub mod PageFault
pub mod Access
pub mod UserMem
pub mod Fork
mod Tests
