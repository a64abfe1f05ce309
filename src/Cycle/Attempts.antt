-- ===== src/Cycle/Attempts.antt =====
-- What follows from open gates in `scan_cycle` (daemon/src/main.rs): the process is tried, and
-- after a success it is left alone until it wakes up.
use bssl_ram.Prelude.{
  ℕ, ◌-◌, ◌≡◌, ◌≤◌, refl, sym, ap, ◌∙◌, Bool, true, not, Option, none, some, arith, if-elim, inl,
  inr, ltb, nat_eq,
}
use mathlib.Core.Path.{subst}
use bssl_ram.Compressor.{rss_mib}
use bssl_ram.Config.{Config}
use bssl_ram.Cycle.{
  Moment, State, after_veto, check_signals, check_gates, meet, update_tracker, after_snapshot,
  visit,
}
use bssl_ram.Cycle.Bpf.{BpfCpuTracker, build_snapshot, tick_ns}
use bssl_ram.Scanner.{TargetProcess}
use bssl_ram.Signals.{SignalStore, profile_veto_at}
use bssl_ram.Prelude.Map
use bssl_ram.Prelude.Map.{lookup-insert}
use bssl_ram.Prelude.Text.{Text}
use bssl_ram.Prelude.Words.{mul_u64}
use bssl_ram.Tracker
use bssl_ram.Tracker.{CpuTracker, ProcSnapshot}
use bssl_ram.Cycle.Gates.{
  HasNoVeto, IsAllowed, IsTry, IsSkip, try_compress-IsTry, check_gates-cases,
}

check_signals-IsTry :
    (config : Config) (st : State) (m : Moment) (tab : TargetProcess) (o : Option SignalStore)
    → st.signal_store ≡ o
    → HasNoVeto st m tab
    → IsTry config st m tab.pid (check_signals config st m tab o)
unfolding check_signals after_veto
check_signals-IsTry config st m tab none e quiet = try_compress-IsTry config st m tab.pid
check_signals-IsTry config st m tab (some store) e quiet =
    let store' = (profile_veto_at store tab.profile m.now m.now_wall_ms).0 in
    let st' : State = record st { signal_store = some store' } in
    let try = try_compress-IsTry config st' m tab.pid in
    subst (λ veto. IsTry config st m tab.pid (after_veto config st' m tab veto))
      (sym (quiet store e)) (record { calls = try.calls; tracker = try.tracker })

check_gates-IsTry :
    (config : Config) (st : State) (m : Moment) (tab : TargetProcess) (is_idle : Bool)
    → IsAllowed config st m tab is_idle
    → IsTry config st m tab.pid (check_gates config st m tab is_idle)
unfolding check_gates
check_gates-IsTry config st m tab is_idle ok =
    let pid = tab.pid in
    if-elim Goal (not is_idle) (λ busy. absurd (ground (arith, busy, ok.idle)))
      (λ _.
        if-elim Goal (ltb (Tracker.idle_cycles st.tracker pid) config.idle_cycles_threshold)
          (λ cold. absurd (ground (arith, cold, ok.warm)))
          (λ _.
            if-elim Goal (Tracker.is_compressed st.tracker pid)
              (λ done. absurd (ground (arith, done, ok.uncompressed)))
              (λ _.
                if-elim Goal (ltb (rss_mib (m.smaps_rollup pid)) config.min_rss_mib)
                  (λ small. absurd (ground (arith, small, ok.large)))
                  (λ _. check_signals-IsTry config st m tab st.signal_store refl ok.quiet))))
  where
    Goal : State → Type 0
    Goal x = IsTry config st m tab.pid x

-- If the process has a snapshot and all the gates are open, then its turn tries to compress it: the
-- calls are those of `compress_pid`, and the process is marked exactly if that was a real success.
pub visit-IsTry :
    (config : Config) (st : State) (tab : TargetProcess) (m : Moment) (snap : ProcSnapshot)
    → build_snapshot tab.pid (meet st m tab.pid).bpf_tracker (m.stat tab.pid) ≡ some snap
    → IsAllowed config
        (update_tracker config (meet st m tab.pid) snap).0
        m
        tab
        (update_tracker config (meet st m tab.pid) snap).1
    → IsTry config
        (update_tracker config (meet st m tab.pid) snap).0
        m
        tab.pid
        (visit config st (tab, m))
unfolding visit after_snapshot update_tracker
visit-IsTry config st tab m snap e allowed =
    subst
      (λ o.
        IsTry config (update_tracker config (meet st m tab.pid) snap).0 m tab.pid
          (after_snapshot config (meet st m tab.pid) m tab o))
      (sym e)
      (check_gates-IsTry config (update_tracker config (meet st m tab.pid) snap).0 m tab _ allowed)

pub build_snapshot-pid :
    (pid : ℕ) (bpf : Option BpfCpuTracker) (stat : Option Text) (snap : ProcSnapshot)
    → build_snapshot pid bpf stat ≡ some snap
    → snap.pid ≡ pid
unfolding build_snapshot
build_snapshot-pid pid bpf stat snap e = ground (arith, e)

-- The same task, without a wakeup, keeps its mark, and its snapshot is the new one.
update_calm :
    (t : CpuTracker) (snap prev : ProcSnapshot) (idle_ns wakeup_ns : ℕ)
    → Map.lookup snap.pid t.snapshots ≡ some prev
    → snap.starttime ≡ prev.starttime
    → snap.cpu_ns - prev.cpu_ns ≤ wakeup_ns
    → (Tracker.is_compressed (Tracker.update t snap idle_ns wakeup_ns).0 snap.pid
        ≡ Tracker.is_compressed t snap.pid)
      × (Map.lookup snap.pid (Tracker.update t snap idle_ns wakeup_ns).0.snapshots ≡ some snap)
unfolding Tracker.update Tracker.forget_reused Tracker.delta Tracker.record_delta
    Tracker.is_compressed
update_calm t snap prev idle_ns wakeup_ns found same calm =
    ground (arith, found, same, calm, lookup-insert snap.pid snap.pid snap t.snapshots)

check_gates_marked :
    (config : Config) (st : State) (m : Moment) (tab : TargetProcess) (is_idle : Bool)
    → Tracker.is_compressed st.tracker tab.pid ≡ true
    → IsSkip st (check_gates config st m tab is_idle)
check_gates_marked config st m tab is_idle done = elim (check_gates-cases config st m tab is_idle) [
  | inl skip ↦ skip
  | inr (allowed, try) ↦ absurd (ground (arith, done, allowed.uncompressed))
]

after_snapshot-once :
    (config : Config) (st : State) (m : Moment) (tab : TargetProcess) (snap prev : ProcSnapshot)
    → snap.pid ≡ tab.pid
    → Tracker.is_compressed st.tracker tab.pid ≡ true
    → Map.lookup tab.pid st.tracker.snapshots ≡ some prev
    → snap.starttime ≡ prev.starttime
    → snap.cpu_ns - prev.cpu_ns ≤ mul_u64 config.wakeup_delta_threshold tick_ns
    → ((after_snapshot config st m tab (some snap)).calls ≡ st.calls)
      × (Tracker.is_compressed (after_snapshot config st m tab (some snap)).tracker tab.pid ≡ true)
      × (Map.lookup tab.pid (after_snapshot config st m tab (some snap)).tracker.snapshots
          ≡ some snap)
unfolding after_snapshot update_tracker
after_snapshot-once config st m tab snap prev pid done found same calm =
    let (st', is_idle) = update_tracker config st snap in
    let calm' =
      update_calm st.tracker snap prev (mul_u64 config.cpu_delta_threshold tick_ns)
        (mul_u64 config.wakeup_delta_threshold tick_ns)
        (subst (λ p. Map.lookup p st.tracker.snapshots ≡ some prev) (sym pid) found) same calm in
    let kept : Tracker.is_compressed st'.tracker tab.pid ≡ true =
      subst (λ p. Tracker.is_compressed st'.tracker p ≡ true) pid
        (calm'.0 ∙ ap (Tracker.is_compressed st.tracker) pid ∙ done) in
    let stored : Map.lookup tab.pid st'.tracker.snapshots ≡ some snap =
      subst (λ p. Map.lookup p st'.tracker.snapshots ≡ some snap) pid calm'.1 in
    let skip = check_gates_marked config st' m tab is_idle kept in
    (
      skip.calls,
      ap (λ t. Tracker.is_compressed t tab.pid) skip.tracker ∙ kept,
      ap (λ t. Map.lookup tab.pid t.snapshots) skip.tracker ∙ stored,
    )

-- A process that is marked as compressed and is the same task as at its last snapshot, with a CPU
-- delta of at most the wakeup threshold, has a turn without system calls, is still marked after it,
-- and has the new snapshot, so that the next turn is again such a turn if the process stays calm.
pub visit-once :
    (config : Config) (st : State) (tab : TargetProcess) (m : Moment) (snap prev : ProcSnapshot)
    → Tracker.is_compressed st.tracker tab.pid ≡ true
    → Map.lookup tab.pid st.tracker.snapshots ≡ some prev
    → build_snapshot tab.pid (meet st m tab.pid).bpf_tracker (m.stat tab.pid) ≡ some snap
    → snap.starttime ≡ prev.starttime
    → snap.cpu_ns - prev.cpu_ns ≤ mul_u64 config.wakeup_delta_threshold tick_ns
    → ((visit config st (tab, m)).calls ≡ st.calls)
      × (Tracker.is_compressed (visit config st (tab, m)).tracker tab.pid ≡ true)
      × (Map.lookup tab.pid (visit config st (tab, m)).tracker.snapshots ≡ some snap)
unfolding visit meet
visit-once config st tab m snap prev done found e same calm =
    let st' = meet st m tab.pid in
    subst
      (λ o.
        ((after_snapshot config st' m tab o).calls ≡ st.calls)
        × (Tracker.is_compressed (after_snapshot config st' m tab o).tracker tab.pid ≡ true)
        × (Map.lookup tab.pid (after_snapshot config st' m tab o).tracker.snapshots ≡ some snap))
      (sym e)
      (after_snapshot-once config st' m tab snap prev
        (build_snapshot-pid tab.pid st'.bpf_tracker (m.stat tab.pid) snap e) done found same calm)
