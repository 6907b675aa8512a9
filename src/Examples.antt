-- ===== src/Examples.antt =====
-- Concrete machines and groups, the theorems of the development at work on them, and runs.
mod Scene
mod Runs
mod Slots
mod Recoveries
mod Protocol
mod Cap
mod Queue
mod Reaping
mod Userland
mod Booting
mod Unneeded
mod Provisioning
