-- ===== src/Tracker/View.antt =====
-- What `CpuTracker` (daemon/src/state.rs) promises for one PID: a small state machine over the
-- task that the PID stands for, which every method of the tracker implements.
use bssl_ram.Prelude.{
  ℕ, ◌-◌, ◌<◌, ◌≡◌, Bool, true, false, not, ◌&&◌, Option, none, some, List, arith, ltb, leb, ◌==◌,
  if◌then◌else◌, nat_eq,
}
use bssl_ram.Prelude.Map
use bssl_ram.Prelude.Map.{Map, lookup-insert, lookup-remove, lookup-retain_keys}
use bssl_ram.Prelude.Words.{u64_max, add_u32}
use bssl_ram.Tracker.{
  ProcSnapshot, CpuTracker, remove, forget_reused, delta, record_delta, update, idle_cycles,
  is_compressed, mark_compressed, contains, retain_only, or_zero,
}

pub record PidState : Type 0 where
  -- start time and CPU position of the task last seen under the PID
  pub seen : Option (ℕ × ℕ)
  pub cycles : ℕ
  pub flag : Bool

abbrev pub unseen : PidState
unseen = record { seen = none; cycles = 0; flag = false }

abbrev pub position : Option ProcSnapshot → Option (ℕ × ℕ)
position none = none
position (some s) = some (s.starttime, s.cpu_ns)

unfoldable pub view : CpuTracker → ℕ → PidState
unfolding idle_cycles is_compressed
view t pid = record {
  seen = position (Map.lookup pid t.snapshots);
  cycles = idle_cycles t pid;
  flag = is_compressed t pid;
}

-- The task is the one seen before: its delta counts as idle up to the first threshold, and wakes
-- the process above the second.
abbrev pub continue : PidState → ℕ → ℕ → ℕ → ℕ → ℕ → PidState
continue p last start cpu idle_ns wakeup_ns = record {
  seen = some (start, cpu);
  cycles = if leb (cpu - last) idle_ns then add_u32 p.cycles 1 else 0;
  flag = if ltb wakeup_ns (cpu - last) then false else p.flag;
}

-- A PID never seen before keeps its flag; a recycled one starts from nothing.
unfoldable pub observe : PidState → ℕ → ℕ → ℕ → ℕ → PidState
observe p start cpu idle_ns wakeup_ns = elim p.seen [
  | none ↦ record p { seen = some (start, cpu); cycles = 0 }
  | some (s, last) ↦
      if s == start
      then continue p last start cpu idle_ns wakeup_ns
      else record { seen = some (start, cpu); cycles = 0; flag = false }
]

pub view-remove :
    (t : CpuTracker) (pid j : ℕ) → view (remove t pid) j ≡ (if pid == j then unseen else view t j)
unfolding view remove
view-remove t pid j = simp lookup-remove (ground arith)

pub view-mark_compressed :
    (t : CpuTracker) (pid j : ℕ)
    → view (mark_compressed t pid) j
      ≡ (if pid == j then record (view t j) { flag = true } else view t j)
unfolding view mark_compressed
view-mark_compressed t pid j = simp lookup-insert (ground arith)

pub view-retain_only :
    (t : CpuTracker) (live : List ℕ) (j : ℕ)
    → view (retain_only t live) j ≡ (if contains live j then view t j else unseen)
unfolding view retain_only
view-retain_only t live j = simp lookup-retain_keys (ground arith)

pub view-record_delta :
    (t : CpuTracker) (snap : ProcSnapshot) (d idle_ns wakeup_ns j : ℕ)
    → view (record_delta t snap d idle_ns wakeup_ns).0 j ≡ (
        if snap.pid == j
        then record {
          seen = some (snap.starttime, snap.cpu_ns);
          cycles = if leb d idle_ns then add_u32 (view t j).cycles 1 else 0;
          flag = if ltb wakeup_ns d && not (d == u64_max) then false else (view t j).flag;
        }
        else view t j)
unfolding view record_delta
view-record_delta t snap d idle_ns wakeup_ns j = ground (
  arith,
  lookup-insert snap.pid j snap t.snapshots,
  lookup-remove snap.pid j t.compressed,
  lookup-insert snap.pid j
      (if leb d idle_ns then add_u32 (or_zero (Map.lookup snap.pid t.idle_cycles)) 1 else 0)
      t.idle_cycles,
)

-- What the PID-reuse guard leaves: the state of the same task, or nothing.
abbrev pub guarded : PidState → ℕ → PidState
guarded p start = elim p.seen [ none ↦ p | some (s, last) ↦ if s == start then p else unseen ]

pub view-forget_reused :
    (t : CpuTracker) (snap : ProcSnapshot) (j : ℕ)
    → view (forget_reused t snap) j
      ≡ (if snap.pid == j then guarded (view t j) snap.starttime else view t j)
unfolding forget_reused view
view-forget_reused t snap j = ground (arith, view-remove t snap.pid j)

abbrev pub delta_of : PidState → ℕ → ℕ
delta_of p cpu = elim p.seen [ none ↦ u64_max | some (s, last) ↦ cpu - last ]

delta_lem :
    (t : CpuTracker) (snap : ProcSnapshot) → delta t snap ≡ delta_of (view t snap.pid) snap.cpu_ns
unfolding delta view
delta_lem t snap = ground arith

-- Within the range of the machine words, `update` takes one step of the state machine at the
-- snapshot's PID and touches no other PID.
pub view-update :
    (t : CpuTracker) (snap : ProcSnapshot) (idle_ns wakeup_ns j : ℕ)
    → idle_ns < u64_max
    → snap.cpu_ns < u64_max
    → view (update t snap idle_ns wakeup_ns).0 j ≡ (
        if snap.pid == j
        then observe (view t j) snap.starttime snap.cpu_ns idle_ns wakeup_ns
        else view t j)
unfolding observe update
view-update t snap idle_ns wakeup_ns j hi hc =
    let t' = forget_reused t snap in
    ground (
      arith,
      view-record_delta t' snap (delta t' snap) idle_ns wakeup_ns j,
      view-forget_reused t snap j,
      view-forget_reused t snap snap.pid,
      delta_lem t' snap,
    )

pub update_verdict :
    (t : CpuTracker) (snap : ProcSnapshot) (idle_ns wakeup_ns : ℕ)
    → (update t snap idle_ns wakeup_ns).1
      ≡ leb (delta_of (guarded (view t snap.pid) snap.starttime) snap.cpu_ns) idle_ns
unfolding update record_delta
update_verdict t snap idle_ns wakeup_ns =
    let t' = forget_reused t snap in
    ground (arith, delta_lem t' snap, view-forget_reused t snap snap.pid)
