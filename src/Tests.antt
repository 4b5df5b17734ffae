-- ===== src/Tests.antt =====
-- Runs on concrete states, and each theorem at a concrete input.
pub mod States
mod Queues
mod Mutexes
mod Boot
mod Devices
mod Tasks
mod Systems
mod Chase
mod ChaseStart
mod Dagger
mod DaggerStart
mod Rot13
mod Cyclone
pub mod SysErr
mod Library
mod Syscalls
