-- ===== src/Machine.antt =====
-- pkg/machine: the three machines, and how one is made from options. The interface value
-- `types.Machine` is the data type `Machine`.
pub mod Random
pub mod Download
pub mod Prepare
pub mod Kind
pub mod New
pub mod Qemu
pub mod Watch
pub mod Docker
pub mod Vbox
