-- ===== src/Matcher.antt =====
-- matcher/helpers.go: what a suite does with a machine. The lines that it prints are left out, but
-- where they stand for a failure that is not returned.
pub mod Gomega
pub mod Dispatch
pub mod Safety
pub mod Helpers
pub mod Vm
pub mod Polling
pub mod Sudo
pub mod Logs
