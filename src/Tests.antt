-- ===== src/Tests.antt =====
-- Runs of the models at concrete inputs.
mod Cycle
mod History
mod Protection
mod Signals
mod Tracker
mod Table
mod Text
mod Daemon
mod Json
mod Bridge
mod Psi
mod Bpf
mod Targets
mod Concurrent
mod Examples
mod Full
