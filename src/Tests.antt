-- ===== src/Tests.antt =====
-- The witnesses: each applies a theorem at a concrete input.
mod Data
mod Core
mod Counters
mod Cycle
mod Links
mod Panel
mod Platform
mod Process
mod Refine
mod Screen
mod Site
mod Window
