-- ===== src/Tracker/Memory.antt =====
-- The size of a `CpuTracker` (daemon/src/state.rs): each of its maps holds a PID at most once, and
-- the sweep at the end of a cycle leaves at most as many entries as there are live PIDs.
use bssl_ram.Prelude.{ℕ, ◌≤◌, true, List, arith, length, inl, inr, nat_eq, Bool-cases}
use bssl_ram.Prelude.Map
use bssl_ram.Prelude.Map.{Map, lookup-retain_keys}
use bssl_ram.Prelude.Map.Size.{
  NodupKeys, insert-NodupKeys, remove-NodupKeys, retain-NodupKeys, KeysWithin,
  length-le_of_KeysWithin,
}
use bssl_ram.Tracker.{
  ProcSnapshot, CpuTracker, new, remove, forget_reused, record_delta, update, mark_compressed,
  retain_only, tracked_pids, contains,
}

pub record IsWellFormed (t : CpuTracker) : Type 0 where
  pub snapshots : NodupKeys t.snapshots
  pub idle_cycles : NodupKeys t.idle_cycles
  pub compressed : NodupKeys t.compressed

pub new-IsWellFormed : IsWellFormed new
new-IsWellFormed = record { snapshots = tt; idle_cycles = tt; compressed = tt }

pub remove-IsWellFormed : (t : CpuTracker) (pid : ℕ) → IsWellFormed t → IsWellFormed (remove t pid)
unfolding remove
remove-IsWellFormed t pid h = record {
  snapshots = remove-NodupKeys pid t.snapshots h.snapshots;
  idle_cycles = remove-NodupKeys pid t.idle_cycles h.idle_cycles;
  compressed = remove-NodupKeys pid t.compressed h.compressed;
}

pub mark_compressed-IsWellFormed :
    (t : CpuTracker) (pid : ℕ) → IsWellFormed t → IsWellFormed (mark_compressed t pid)
unfolding mark_compressed
mark_compressed-IsWellFormed t pid h = record {
  snapshots = h.snapshots;
  idle_cycles = h.idle_cycles;
  compressed = insert-NodupKeys pid true t.compressed h.compressed;
}

forget_reused-IsWellFormed :
    (t : CpuTracker) (snap : ProcSnapshot) → IsWellFormed t → IsWellFormed (forget_reused t snap)
unfolding forget_reused
forget_reused-IsWellFormed t snap h = ground (arith, remove-IsWellFormed t snap.pid h)

record_delta-IsWellFormed :
    (t : CpuTracker) (snap : ProcSnapshot) (d idle_ns wakeup_ns : ℕ)
    → IsWellFormed t
    → IsWellFormed (record_delta t snap d idle_ns wakeup_ns).0
unfolding record_delta
record_delta-IsWellFormed t snap d idle_ns wakeup_ns h = record {
  snapshots = insert-NodupKeys snap.pid snap t.snapshots h.snapshots;
  idle_cycles = insert-NodupKeys snap.pid _ t.idle_cycles h.idle_cycles;
  compressed = ground (arith, remove-NodupKeys snap.pid t.compressed h.compressed);
}

pub update-IsWellFormed :
    (t : CpuTracker) (snap : ProcSnapshot) (idle_ns wakeup_ns : ℕ)
    → IsWellFormed t
    → IsWellFormed (update t snap idle_ns wakeup_ns).0
unfolding update
update-IsWellFormed t snap idle_ns wakeup_ns h =
    record_delta-IsWellFormed (forget_reused t snap) snap _ idle_ns wakeup_ns
      (forget_reused-IsWellFormed t snap h)

retain-KeysWithin {ℓ} :
    {V : Type ℓ} (m : Map ℕ V) (live : List ℕ)
    → KeysWithin (Map.retain (λ pid _. contains live pid) m) live
retain-KeysWithin m live pid found = elim (Bool-cases (contains live pid)) [
  | inl alive ↦ alive
  | inr gone ↦ absurd (found (rw (lookup-retain_keys (contains live) pid m) (rw gone)))
]

-- The sweep of a well-formed tracker keeps the invariant, and afterwards no map of the tracker is
-- longer than the list of live PIDs: what exited is forgotten, so the tracker's memory is bounded
-- by the targets.
pub retain_only-bounded :
    (t : CpuTracker) (live : List ℕ)
    → IsWellFormed t
    → IsWellFormed (retain_only t live)
      × (tracked_pids (retain_only t live) ≤ length live)
      × (length (retain_only t live).idle_cycles ≤ length live)
      × (length (retain_only t live).compressed ≤ length live)
unfolding retain_only tracked_pids
retain_only-bounded t live h = (
  record { snapshots = snapshots; idle_cycles = idle_cycles; compressed = compressed },
  length-le_of_KeysWithin live _ snapshots (retain-KeysWithin t.snapshots live),
  length-le_of_KeysWithin live _ idle_cycles (retain-KeysWithin t.idle_cycles live),
  length-le_of_KeysWithin live _ compressed (retain-KeysWithin t.compressed live),
)
  where
    snapshots : NodupKeys (retain_only t live).snapshots
    snapshots = retain-NodupKeys (contains live) t.snapshots h.snapshots

    idle_cycles : NodupKeys (retain_only t live).idle_cycles
    idle_cycles = retain-NodupKeys (contains live) t.idle_cycles h.idle_cycles

    compressed : NodupKeys (retain_only t live).compressed
    compressed = retain-NodupKeys (contains live) t.compressed h.compressed
