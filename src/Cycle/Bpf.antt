-- ===== src/Cycle/Bpf.antt =====
-- daemon/src/bpf_cpu_tracker.rs: the maps that the BPF program fills, with the reads and the
-- deletion of the daemon; and `build_snapshot` of daemon/src/main.rs. Loading the program is left
-- out. A map's values are u64.
pub mod Program
pub mod Accounting
pub mod Reuse
pub mod Concurrent
pub mod Entries
pub mod Interleaved
pub mod Linear
use bssl_ram.Prelude.{ℕ, ◌>>=◌, Option, none, some, nat_eq}
use bssl_ram.Prelude.Map
use bssl_ram.Prelude.Map.{Map}
use bssl_ram.Prelude.Text.{Text}
use bssl_ram.Prelude.Words.{add_u64, mul_u64}
use bssl_ram.Compressor.{parse_proc_stats}
use bssl_ram.Tracker.{ProcSnapshot}

pub record BpfCpuTracker : Type 0 where
  pub task_runtime : Map ℕ ℕ
  pub task_start : Map ℕ ℕ
  pub task_birth : Map ℕ ℕ

unfoldable pub runtime_ns : BpfCpuTracker → ℕ → Option ℕ
runtime_ns b pid = Map.lookup pid b.task_runtime

unfoldable pub starttime_ns : BpfCpuTracker → ℕ → Option ℕ
starttime_ns b pid = Map.lookup pid b.task_birth

unfoldable pub forget : BpfCpuTracker → ℕ → BpfCpuTracker
forget b pid = record {
  task_runtime = Map.remove pid b.task_runtime;
  task_start = Map.remove pid b.task_start;
  task_birth = Map.remove pid b.task_birth;
}

abbrev pub tick_ns : ℕ
tick_ns = 10_000_000

-- `build_snapshot`; `stat` is the text of /proc/PID/stat, or an error.
unfoldable pub build_snapshot : ℕ → Option BpfCpuTracker → Option Text → Option ProcSnapshot
build_snapshot pid (some b) stat = do
  cpu_ns ← runtime_ns b pid
  starttime ← starttime_ns b pid
  some (record { pid = pid; starttime = starttime; cpu_ns = cpu_ns })
build_snapshot pid none stat = do
  text ← stat
  (starttime, utime, stime) ← parse_proc_stats text
  some (record { pid = pid; starttime = starttime; cpu_ns = mul_u64 (add_u64 utime stime) tick_ns })
