-- ===== src/Tests.antt =====
-- Runs and instances of the theorems, in a small world.
mod World
mod Machine
mod Engines
mod Suite
mod Failer
mod Cli
mod Matcher
