-- ===== src/Kernel.antt =====
-- arona_kernel/src: the parts of the kernel that compute. Port I/O and assembly are not modelled.
pub mod Fat32
pub mod Guardian
pub mod Adaptive
pub mod Clock
pub mod Boot
pub mod Context
pub mod Frames
pub mod Permissions
pub mod Scheduler
