-- ===== src/Suite.antt =====
-- The package peg: specfiles, assertions, options and `Run`.
pub mod Spec
pub mod Show
pub mod Assertion
pub mod Options
pub mod Generate
pub mod Run
pub mod Failer
