-- ===== src/Examples.antt =====
-- daemon/examples: the programs that are run by hand, on top of the compressor and the scanner.
pub mod Bench
pub mod Batching
pub mod Inspect
pub mod Smaps
pub mod Rollup
pub mod Cpu
pub mod Totals
