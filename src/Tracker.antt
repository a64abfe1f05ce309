-- ===== src/Tracker.antt =====
-- daemon/src/state.rs: `CpuTracker`, the per-process CPU history behind idle detection. CPU
-- positions are nanoseconds in a u64; the idle counter is a u32 and wraps as in a release build.
pub mod View
pub mod Runs
pub mod Memory
use bssl_ram.Prelude.{
  ℕ, Bool, true, false, not, ◌&&◌, Option, none, some, List, [], ltb, leb, ◌==◌, length,
  if◌then◌else◌, nat_eq, any,
}
use bssl_ram.Prelude.Map
use bssl_ram.Prelude.Map.{Map, keys}
use bssl_ram.Prelude.Words.{u64_max, add_u32, saturating_sub}

pub record ProcSnapshot : Type 0 where
  pub pid : ℕ
  pub starttime : ℕ
  pub cpu_ns : ℕ

pub record CpuTracker : Type 0 where
  pub snapshots : Map ℕ ProcSnapshot
  pub idle_cycles : Map ℕ ℕ
  pub compressed : Map ℕ Bool

abbrev pub new : CpuTracker
new = record { snapshots = []; idle_cycles = []; compressed = [] }

-- `remove`: the process exited.
unfoldable pub remove : CpuTracker → ℕ → CpuTracker
remove t pid = record {
  snapshots = Map.remove pid t.snapshots;
  idle_cycles = Map.remove pid t.idle_cycles;
  compressed = Map.remove pid t.compressed;
}

-- The PID-reuse guard of `update`: another start time is another task.
unfoldable pub forget_reused : CpuTracker → ProcSnapshot → CpuTracker
forget_reused t snap = elim (Map.lookup snap.pid t.snapshots) [
  | none ↦ t
  | some prev ↦ if prev.starttime == snap.starttime then t else remove t snap.pid
]

-- The CPU delta of `update`: with no earlier snapshot, `u64::MAX`.
unfoldable pub delta : CpuTracker → ProcSnapshot → ℕ
delta t snap = elim (Map.lookup snap.pid t.snapshots) [
  | none ↦ u64_max
  | some prev ↦ saturating_sub snap.cpu_ns prev.cpu_ns
]

abbrev pub or_zero : Option ℕ → ℕ
or_zero none = 0
or_zero (some n) = n

abbrev pub or_false : Option Bool → Bool
or_false none = false
or_false (some b) = b

-- `update`, from the delta on.
unfoldable pub record_delta : CpuTracker → ProcSnapshot → ℕ → ℕ → ℕ → CpuTracker × Bool
record_delta t snap d cpu_delta_ns wakeup_delta_ns =
    let idle = leb d cpu_delta_ns in
    let woke_up = ltb wakeup_delta_ns d && not (d == u64_max) in
    let cycles = or_zero (Map.lookup snap.pid t.idle_cycles) in
    let next : CpuTracker = record {
      snapshots = Map.insert snap.pid snap t.snapshots;
      idle_cycles = Map.insert snap.pid (if idle then add_u32 cycles 1 else 0) t.idle_cycles;
      compressed = if woke_up then Map.remove snap.pid t.compressed else t.compressed;
    } in
    (next, idle)

unfoldable pub update : CpuTracker → ProcSnapshot → ℕ → ℕ → CpuTracker × Bool
update t snap cpu_delta_ns wakeup_delta_ns =
    let t' = forget_reused t snap in
    record_delta t' snap (delta t' snap) cpu_delta_ns wakeup_delta_ns

unfoldable pub idle_cycles : CpuTracker → ℕ → ℕ
idle_cycles t pid = or_zero (Map.lookup pid t.idle_cycles)

unfoldable pub is_compressed : CpuTracker → ℕ → Bool
is_compressed t pid = or_false (Map.lookup pid t.compressed)

unfoldable pub mark_compressed : CpuTracker → ℕ → CpuTracker
mark_compressed t pid = record t { compressed = Map.insert pid true t.compressed }

-- A `HashSet` of PIDs, as a list.
abbrev pub contains : List ℕ → ℕ → Bool
contains pids pid = any (λ p. p == pid) pids

unfoldable pub retain_only : CpuTracker → List ℕ → CpuTracker
retain_only t live_pids = record {
  snapshots = Map.retain (λ pid _. contains live_pids pid) t.snapshots;
  idle_cycles = Map.retain (λ pid _. contains live_pids pid) t.idle_cycles;
  compressed = Map.retain (λ pid _. contains live_pids pid) t.compressed;
}

unfoldable pub tracked_pids : CpuTracker → ℕ
tracked_pids t = length t.snapshots
