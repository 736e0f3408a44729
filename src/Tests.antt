-- ===== src/Tests.antt =====
-- Tests of the definitions on concrete inputs, and each result of the library at one of them.
mod Coding
mod Archive
mod Chains
mod Collections
mod Pools
mod Processes
mod Panels
mod Events
mod Generated
mod Starts
mod Metrics
mod Readings
mod Reports
