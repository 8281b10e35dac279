-- ===== src/Examples.antt =====
-- The theorems at concrete inputs, and tests.
mod Scenario
mod Ranges
mod Plans
mod Stores
mod Calls
mod Configs
mod Races
mod Reports
mod Service
mod Runs
mod Wires
mod Pointers
