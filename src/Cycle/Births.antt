-- ===== src/Cycle/Births.antt =====
-- The maps of the BPF program over the cycles of daemon/src/main.rs: what is kept of a PID, and so
-- what the daemon can see of its reuse.
use bssl_ram.Prelude.{
  ℕ, ◌≡◌, refl, ap, ◌∙◌, Bool, Option, none, some, List, [], ◌∷◌, ◌==◌, ==_iff, arith, All, length,
  Bool-cases, Option-cases, inl, inr, nat_eq,
}
use bssl_ram.Prelude.Map
use bssl_ram.Prelude.Map.{Map}
use bssl_ram.Prelude.Text.{Text}
use bssl_ram.Compressor.{CompressOutcome, compress_pid}
use bssl_ram.Config.{Config}
use bssl_ram.Cycle.{
  Moment, State, map_some, record_outcome, try_compress, after_veto, check_signals, check_gates,
  meet, drop_exited, update_tracker, after_snapshot, visit, visit_all, begin_cycle, scan_cycle,
}
use bssl_ram.Cycle.Bpf.{BpfCpuTracker, build_snapshot, runtime_ns, starttime_ns, forget}
use bssl_ram.Cycle.Bpf.Program.{Switch, IsUpdate, switches}
use bssl_ram.Cycle.Bpf.Reuse.{IsComplete, switches-IsComplete, forget-IsComplete}
use bssl_ram.Scanner.{TargetProcess}
use bssl_ram.Signals.{SignalStore, ProfileVeto, profile_veto_at}
use bssl_ram.Tracker.{ProcSnapshot}

record_outcome-bpf_tracker :
    (st : State) (pid : ℕ) (o : Option CompressOutcome)
    → (record_outcome st pid o).bpf_tracker ≡ st.bpf_tracker
unfolding record_outcome
record_outcome-bpf_tracker st pid none = refl
record_outcome-bpf_tracker st pid (some o) = ground arith

after_veto-bpf_tracker :
    (config : Config) (st : State) (m : Moment) (tab : TargetProcess) (veto : Option ProfileVeto)
    → (after_veto config st m tab veto).bpf_tracker ≡ st.bpf_tracker
unfolding after_veto try_compress
after_veto-bpf_tracker config st m tab none =
    let (result, calls) = compress_pid m.kernel tab.pid config.dry_run in
    record_outcome-bpf_tracker _ tab.pid result
after_veto-bpf_tracker config st m tab (some veto) = refl

check_signals-bpf_tracker :
    (config : Config) (st : State) (m : Moment) (tab : TargetProcess) (o : Option SignalStore)
    → (check_signals config st m tab o).bpf_tracker ≡ st.bpf_tracker
unfolding check_signals after_veto
check_signals-bpf_tracker config st m tab none = after_veto-bpf_tracker config st m tab none
check_signals-bpf_tracker config st m tab (some store) =
    after_veto-bpf_tracker config _ m tab (profile_veto_at store tab.profile m.now m.now_wall_ms).1

check_gates-bpf_tracker :
    (config : Config) (st : State) (m : Moment) (tab : TargetProcess) (is_idle : Bool)
    → (check_gates config st m tab is_idle).bpf_tracker ≡ st.bpf_tracker
unfolding check_gates
check_gates-bpf_tracker config st m tab is_idle =
    ground (arith, check_signals-bpf_tracker config st m tab st.signal_store)

-- The BPF tracker is loaded and complete for the PID.
abbrev pub HasBirth : ℕ → ℕ → State → Type 0
HasBirth pid birth st = (b : BpfCpuTracker) × (st.bpf_tracker ≡ some b) × IsComplete pid birth b

-- What happens to the maps before a turn is the doing of the program.
abbrev pub RunsProgram : (ℕ → ℕ → Map ℕ ℕ → Map ℕ ℕ) → Moment → Type 0
RunsProgram map_update m =
    (ss : List Switch) × ((b : BpfCpuTracker) → m.sched_switch b ≡ switches map_update ss b)

module _ (map_update : ℕ → ℕ → Map ℕ ℕ → Map ℕ ℕ) (law : IsUpdate map_update) (config : Config)
    (pid birth : ℕ) where
  meet-HasBirth :
      (st : State) (m : Moment) (p : ℕ)
      → RunsProgram map_update m
      → HasBirth pid birth st
      → HasBirth pid birth (meet st m p)
  unfolding meet
  meet-HasBirth st m p (ss, same) (b, e, h) = (
    switches map_update ss b,
    ap (map_some m.sched_switch) e ∙ ap some (same b),
    switches-IsComplete pid map_update law birth ss b h,
  )

  -- A turn drops what is known of its target only if an entry is missing.
  read_complete :
      (b : BpfCpuTracker) (stat : Option Text)
      → IsComplete pid birth b
      → (snap : ProcSnapshot) × (build_snapshot pid (some b) stat ≡ some snap)
  unfolding build_snapshot runtime_ns starttime_ns
  read_complete b stat h = elim (Option-cases (Map.lookup pid b.task_runtime)) [
    | inl e ↦ absurd (ground (arith, h, e))
    | inr (cpu, e) ↦ (record { pid = pid; starttime = birth; cpu_ns = cpu }, ground (arith, h, e))
  ]

  after_snapshot-HasBirth :
      (st : State) (m : Moment) (tab : TargetProcess) (o : Option ProcSnapshot)
      → HasBirth pid birth st
      → build_snapshot tab.pid st.bpf_tracker (m.stat tab.pid) ≡ o
      → HasBirth pid birth (after_snapshot config st m tab o)
  unfolding after_snapshot drop_exited update_tracker
  after_snapshot-HasBirth st m tab none (b, e, h) read = elim (Bool-cases (tab.pid == pid)) [
    | inl same ↦
        let (snap, found) = read_complete b (m.stat tab.pid) h in
        absurd (
          cc (
            found,
            ap (λ p. build_snapshot p (some b) (m.stat tab.pid)) ((==_iff tab.pid pid).0 same),
            ap (λ o. build_snapshot tab.pid o (m.stat tab.pid)) e,
            read,
          ))
    | inr other ↦ (
      forget b tab.pid,
      ap (map_some (λ b. forget b tab.pid)) e,
      forget-IsComplete pid map_update law birth tab.pid b other h,
    )
  ]
  after_snapshot-HasBirth st m tab (some snap) (b, e, h) read =
      let (st', is_idle) = update_tracker config st snap in
      (b, check_gates-bpf_tracker config st' m tab is_idle ∙ e, h)

  visit-HasBirth :
      (st : State) (tab : TargetProcess) (m : Moment)
      → RunsProgram map_update m
      → HasBirth pid birth st
      → HasBirth pid birth (visit config st (tab, m))
  unfolding visit
  visit-HasBirth st tab m program h =
      after_snapshot-HasBirth (meet st m tab.pid) m tab _ (meet-HasBirth st m tab.pid program h)
        refl

  visit_all-HasBirth :
      (st : State) (targets : List (TargetProcess × Moment))
      → All (λ t. RunsProgram map_update t.1) targets
      → HasBirth pid birth st
      → HasBirth pid birth (visit_all config st targets)
  unfolding visit_all
  visit_all-HasBirth st [] programs h = h
  visit_all-HasBirth st ((tab, m) ∷ targets) programs h =
      visit_all-HasBirth (visit config st (tab, m)) targets programs.1
        (visit-HasBirth st tab m programs.0 h)

  -- Once the maps have an amount of CPU time and a start time for a PID, a cycle keeps them:
  -- whatever processes have the PID in the switches that the program sees, whatever targets the
  -- cycle has and whatever it does with them, both entries are there afterwards and the start time
  -- is the same.
  pub scan_cycle-HasBirth :
      (st : State) (targets : List (TargetProcess × Moment))
      → All (λ t. RunsProgram map_update t.1) targets
      → HasBirth pid birth st
      → HasBirth pid birth (scan_cycle config st targets)
  unfolding scan_cycle begin_cycle
  scan_cycle-HasBirth st targets programs h =
      visit_all-HasBirth (begin_cycle st (length targets)) targets programs h
