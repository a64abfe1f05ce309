-- ===== src/Cycle/Usage.antt =====
-- From the context switches of daemon/src/bpf/cpu_tracker.bpf.c to the system calls of
-- daemon/src/main.rs: the CPU time behind a page-out.
use bssl_ram.Prelude.{ℕ, ◌+◌, ◌≡◌, ◌≢◌, ◌≤◌, ◌<◌, ap, ◌∙◌, true, Option, some, List, arith, nat_eq}
use mathlib.Core.Path.{subst}
use bssl_ram.Prelude.Map
use bssl_ram.Prelude.Map.{Map}
use bssl_ram.Prelude.Text.{Text}
use bssl_ram.Prelude.Words.{u64_mod}
use bssl_ram.Config.{Config}
use bssl_ram.Cycle.{Moment, State, map_some, meet, update_tracker, visit}
use bssl_ram.Cycle.Bpf.{BpfCpuTracker, build_snapshot, runtime_ns, starttime_ns}
use bssl_ram.Cycle.Bpf.Accounting.{on_cpu, IsSequential, Started, runtime-switches}
use bssl_ram.Cycle.Bpf.Program.{Switch, IsUpdate, switches}
use bssl_ram.Cycle.Bpf.Reuse.{switches-IsComplete}
use bssl_ram.Cycle.Gates.{visit-calls}
use bssl_ram.Cycle.History.{idle_ns_of, idle_ns_bounded, reading}
use bssl_ram.Scanner.{TargetProcess}
use bssl_ram.Tracker.Runs.{update-idle_iff}
use bssl_ram.Tracker.View.{view}

-- The maps have these values for the PID, and the tracker has them as its last reading. `since` is
-- the time since when the process is on a processor.
pub record IsLastRead (pid birth runtime : ℕ) (since : Option ℕ) (b : BpfCpuTracker) (st : State)
    : Type 0 where
  pub loaded : st.bpf_tracker ≡ some b
  pub started : Started pid since b
  pub runtime_is : Map.lookup pid b.task_runtime ≡ some runtime
  pub birth_is : Map.lookup pid b.task_birth ≡ some birth
  pub seen_is : (view st.tracker pid).seen ≡ some (birth, runtime)

-- What a turn reads when both entries are there.
build_snapshot_complete :
    (config : Config) (b : BpfCpuTracker) (pid birth cpu : ℕ) (stat : Option Text)
    → Map.lookup pid b.task_runtime ≡ some cpu
    → Map.lookup pid b.task_birth ≡ some birth
    → build_snapshot pid (some b) stat ≡ some (reading config pid birth cpu)
unfolding build_snapshot runtime_ns starttime_ns
build_snapshot_complete config b pid birth cpu stat e e' = ground (arith, e, e')

update_tracker-used :
    (config : Config) (st : State) (pid birth runtime used : ℕ)
    → (view st.tracker pid).seen ≡ some (birth, runtime)
    → (update_tracker config st (reading config pid birth (runtime + used))).1 ≡ true
    → used ≤ idle_ns_of config
unfolding update_tracker
update_tracker-used config st pid birth runtime used seen idle =
    let (last, known, small) =
      (update-idle_iff st.tracker (reading config pid birth (runtime + used)) (idle_ns_of config) _
          (idle_ns_bounded config)).0
        idle in
    ground (arith, seen, known, small)

module _ (map_update : ℕ → ℕ → Map ℕ ℕ → Map ℕ ℕ) (law : IsUpdate map_update) (config : Config)
    (tab : TargetProcess) (birth runtime : ℕ) where
  meet-reading :
      (st : State) (m : Moment) (b : BpfCpuTracker) (since : Option ℕ) (ss : List Switch)
      → tab.pid ≢ 0
      → IsLastRead tab.pid birth runtime since b st
      → m.sched_switch b ≡ switches map_update ss b
      → IsSequential tab.pid since ss
      → runtime + on_cpu tab.pid since ss < u64_mod
      → build_snapshot tab.pid (meet st m tab.pid).bpf_tracker (m.stat tab.pid)
        ≡ some (reading config tab.pid birth (runtime + on_cpu tab.pid since ss))
  unfolding meet
  meet-reading st m b since ss nonzero known ran turns small =
      ap (λ o. build_snapshot tab.pid (map_some m.sched_switch o) (m.stat tab.pid)) known.loaded
      ∙ ap (λ b. build_snapshot tab.pid (some b) (m.stat tab.pid)) ran
      ∙ build_snapshot_complete config (switches map_update ss b) tab.pid birth
          (runtime + on_cpu tab.pid since ss) (m.stat tab.pid)
          (runtime-switches tab.pid map_update law b since ss runtime nonzero turns known.started
            known.runtime_is small)
          (switches-IsComplete tab.pid map_update law birth ss b
            (ground (arith, known.runtime_is), known.birth_is)).1

  -- The last reading of a process was what the maps of the BPF program had of it, and the program
  -- has run on the switches `ss` since. If the process has one thread at a time on a processor, and
  -- its CPU time stays below 2 ^ 64, then its turn makes system calls only if the time that it was
  -- on a processor over these switches, up to the last at which it left one, is at most the idle
  -- threshold.
  pub visit-used :
      (st : State) (m : Moment) (b : BpfCpuTracker) (since : Option ℕ) (ss : List Switch)
      → tab.pid ≢ 0
      → IsLastRead tab.pid birth runtime since b st
      → m.sched_switch b ≡ switches map_update ss b
      → IsSequential tab.pid since ss
      → runtime + on_cpu tab.pid since ss < u64_mod
      → (visit config st (tab, m)).calls ≢ st.calls
      → on_cpu tab.pid since ss ≤ idle_ns_of config
  unfolding meet
  visit-used st m b since ss nonzero known ran turns small called =
      let (live, snap, read, allowed) = visit-calls config st tab m called in
      let read' = meet-reading st m b since ss nonzero known ran turns small in
      let snap_is : snap ≡ reading config tab.pid birth (runtime + on_cpu tab.pid since ss) =
        ground (arith, read, read') in
      update_tracker-used config (meet st m tab.pid) tab.pid birth runtime (on_cpu tab.pid since ss)
        known.seen_is
        (subst (λ s. (update_tracker config (meet st m tab.pid) s).1 ≡ true) snap_is allowed.idle)
