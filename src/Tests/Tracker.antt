-- ===== src/Tests/Tracker.antt =====
-- Runs of the tracker of daemon/src/state.rs.
use bssl_ram.Prelude.{◌≡◌, ◌≤◌, ◌↔◌, refl, true, some, [], ◌∷◌, arith, nat_eq}
use bssl_ram.Prelude.Map
use bssl_ram.Tracker.{ProcSnapshot, CpuTracker, new, idle_cycles, is_compressed}
use bssl_ram.Tracker.Runs.{IdleRun, history, idle_cycles_iff, Calm, is_compressed_iff}
use bssl_ram.Tracker.View.{view}

abbrev snap : ProcSnapshot
snap = record { pid = 7; starttime = 100; cpu_ns = 500 }

abbrev tracker : CpuTracker
tracker = record {
  snapshots = (7, record { pid = 7; starttime = 100; cpu_ns = 400 }) ∷ [];
  idle_cycles = (7, 2) ∷ [];
  compressed = (7, true) ∷ [];
}

idle_cycles_iff_example :
    (2 ≤ idle_cycles (history 7 100 200 1000 new (500 ∷ 400 ∷ 300 ∷ [])) 7)
    ↔ IdleRun 200 2 (500 ∷ 400 ∷ 300 ∷ [])
idle_cycles_iff_example =
    idle_cycles_iff 7 100 200 1000 (omega arith) 2 (500 ∷ 400 ∷ 300 ∷ [])
      (omega arith, (omega arith, (omega arith, tt))) (omega arith)

seen_at : (view tracker 7).seen ≡ some (100, 400)
unfolding view Map.lookup
seen_at = refl

marked : is_compressed tracker 7 ≡ true
unfolding is_compressed Map.lookup
marked = refl

is_compressed_iff_example :
    (is_compressed (history 7 100 200 1000 tracker (500 ∷ [])) 7 ≡ true) ↔ Calm 1000 400 (500 ∷ [])
is_compressed_iff_example =
    is_compressed_iff 7 100 200 1000 (omega arith) tracker 400 (500 ∷ []) seen_at marked
      (omega arith, tt)
