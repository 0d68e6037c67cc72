-- ===== src/Examples.antt =====
-- Tests at concrete values, among them those of the repository's own tests.
mod Data
mod Configs
mod Stores
mod Checked
mod Routed
mod Served
mod Loaded
mod Wired
mod Ran
mod Raced
mod Cached
mod Sent
