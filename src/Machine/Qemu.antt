-- ===== src/Machine/Qemu.antt =====
-- pkg/machine/qemu.go. The debug and info lines of the logger are left out.
pub mod Drives
pub mod Arguments
pub mod Create
pub mod Monitor
