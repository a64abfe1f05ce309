-- ===== src/Cycle.antt =====
-- daemon/src/main.rs: `scan_cycle`, one pass over the targets.
pub mod Bpf
pub mod Steps
pub mod Gates
pub mod Attempts
pub mod Sweep
pub mod DryRun
pub mod Exits
pub mod Locality
pub mod Counters
pub mod History
pub mod Protection
pub mod Births
pub mod Usage
pub mod Targets
pub mod Full
use bssl_ram.Prelude.{
  ℕ, ◌≡◌, Bool, true, false, not, Option, none, some, List, [], ◌∷◌, ◌++◌, map, ltb, length,
  if◌then◌else◌,
}
use bssl_ram.Prelude.Text.{Text}
use bssl_ram.Prelude.Words.{mul_u64}
use bssl_ram.Compressor.{Kernel, Call, CompressOutcome, is_real_success, rss_mib, compress_pid}
use bssl_ram.Config.{Config}
use bssl_ram.Scanner.{TargetProcess}
use bssl_ram.Signals.{SignalStore, ProfileVeto, profile_veto_at, report_handler}
use bssl_ram.Signals.Report.{BrowserSignalsReport}
use bssl_ram.Telemetry.{Stats, inc, add}
use bssl_ram.Tracker
use bssl_ram.Tracker.{CpuTracker, ProcSnapshot}
use bssl_ram.Cycle.Bpf.{BpfCpuTracker, forget, build_snapshot, tick_ns}

-- The `action` and the `reason` that are logged for a target.
pub data Action : Type 0 where
  exited active warmup already_compressed low_rss browser_signals compress would_compress
        compress_incomplete compress_failed :
      Action

-- A request that the server has handled.
pub record Incoming : Type 0 where
  pub requires_source_header : Bool
  pub header : Option Text
  pub now : ℕ
  pub now_wall : ℕ
  pub report : BrowserSignalsReport

-- What the daemon meets while it looks at one target: the requests that were handled since the last
-- one, what the BPF program did to its maps, the files of /proc, the clocks and the kernel.
pub record Moment : Type 0 where
  pub incoming : List Incoming
  pub sched_switch : BpfCpuTracker → BpfCpuTracker
  pub stat : ℕ → Option Text
  pub smaps_rollup : ℕ → Option Text
  pub now : ℕ
  pub now_wall_ms : ℕ
  pub kernel : Kernel

-- What a cycle changes: the tracker, the counters, the parts of `ScanRuntime`, the PIDs seen in
-- this cycle, and the log and the system calls of the cycle.
pub record State : Type 0 where
  pub tracker : CpuTracker
  pub stats : Stats
  pub bpf_tracker : Option BpfCpuTracker
  pub signal_store : Option SignalStore
  pub seen_pids : List ℕ
  pub log : List (ℕ × Action)
  pub calls : List Call

abbrev pub map_some {ℓ κ} : {A : Type ℓ} {B : Type κ} → (A → B) → Option A → Option B
map_some f none = none
map_some f (some a) = some (f a)

unfoldable pub take_reports : SignalStore → List Incoming → SignalStore
take_reports s [] = s
take_reports s (i ∷ rest) =
    take_reports (report_handler s i.requires_source_header i.header i.now i.now_wall i.report).0
      rest

abbrev pub logged : State → ℕ → Action → Stats → State
logged st pid action stats = record st { log = st.log ++ (pid, action) ∷ []; stats = stats }

-- The arms of the `match` on the result of `compress_pid`.
unfoldable pub record_outcome : State → ℕ → Option CompressOutcome → State
record_outcome st pid none =
    logged st pid compress_failed (record (st.stats) { errors = inc (st.stats.errors) })
record_outcome st pid (some outcome) =
    if is_real_success outcome
    then logged (record st { tracker = Tracker.mark_compressed st.tracker pid }) pid compress
        (record (st.stats) {
          compressions = inc (st.stats.compressions);
          bytes_paged_out = add (st.stats.bytes_paged_out) outcome.bytes_advised;
          bytes_skipped_by_kernel =
              add (st.stats.bytes_skipped_by_kernel) outcome.bytes_skipped_by_kernel;
        })
    else if outcome.was_dry_run
    then logged st pid would_compress st.stats
    else logged st pid compress_incomplete (record (st.stats) { errors = inc (st.stats.errors) })

unfoldable pub try_compress : Config → State → Moment → ℕ → State
try_compress config st m pid =
    let (result, calls) = compress_pid m.kernel pid config.dry_run in
    record_outcome (record st { calls = st.calls ++ calls }) pid result

-- After the signal gate.
unfoldable pub after_veto : Config → State → Moment → TargetProcess → Option ProfileVeto → State
after_veto config st m tab none = try_compress config st m tab.pid
after_veto config st m tab (some veto) =
    logged st tab.pid browser_signals
      (record (st.stats) { skips_browser_signals = inc (st.stats.skips_browser_signals) })

-- The signal gate, for the signal store if there is one.
unfoldable pub check_signals : Config → State → Moment → TargetProcess → Option SignalStore → State
check_signals config st m tab none = try_compress config st m tab.pid
check_signals config st m tab (some store) =
    let (store', veto) = profile_veto_at store tab.profile m.now m.now_wall_ms in
    after_veto config (record st { signal_store = some store' }) m tab veto

-- The gates after `update`.
unfoldable pub check_gates : Config → State → Moment → TargetProcess → Bool → State
check_gates config st m tab is_idle =
    let pid = tab.pid in
    let cycles = Tracker.idle_cycles st.tracker pid in
    if not is_idle
    then logged st pid active (record (st.stats) { skips_active = inc (st.stats.skips_active) })
    else if ltb cycles config.idle_cycles_threshold
    then logged st pid warmup (record (st.stats) { skips_warmup = inc (st.stats.skips_warmup) })
    else if Tracker.is_compressed st.tracker pid
    then logged st pid already_compressed
        (record (st.stats) { skips_already_compressed = inc (st.stats.skips_already_compressed) })
    else if ltb (rss_mib (m.smaps_rollup pid)) config.min_rss_mib
    then logged st pid low_rss (record (st.stats) { skips_low_rss = inc (st.stats.skips_low_rss) })
    else check_signals config st m tab st.signal_store

-- The state when the turn of a target comes, the target seen.
unfoldable pub meet : State → Moment → ℕ → State
meet st m pid = record st {
  bpf_tracker = map_some m.sched_switch st.bpf_tracker;
  signal_store = map_some (λ s. take_reports s m.incoming) st.signal_store;
  seen_pids = pid ∷ st.seen_pids;
}

unfoldable pub drop_exited : State → ℕ → State
drop_exited st pid =
    logged
      (record st {
        tracker = Tracker.remove st.tracker pid;
        bpf_tracker = map_some (λ b. forget b pid) st.bpf_tracker;
      })
      pid exited st.stats

unfoldable pub update_tracker : Config → State → ProcSnapshot → State × Bool
update_tracker config st snap =
    let cpu_delta_ns = mul_u64 config.cpu_delta_threshold tick_ns in
    let wakeup_delta_ns = mul_u64 config.wakeup_delta_threshold tick_ns in
    let (tracker, is_idle) = Tracker.update st.tracker snap cpu_delta_ns wakeup_delta_ns in
    (record st { tracker = tracker }, is_idle)

-- The `match` on the snapshot, and the rest of the loop's body.
unfoldable pub after_snapshot :
    Config → State → Moment → TargetProcess → Option ProcSnapshot → State
after_snapshot config st m tab none = drop_exited st tab.pid
after_snapshot config st m tab (some snap) =
    let (st', is_idle) = update_tracker config st snap in check_gates config st' m tab is_idle

-- The body of the loop over the targets.
unfoldable pub visit : Config → State → TargetProcess × Moment → State
visit config st (tab, m) =
    let st' = meet st m tab.pid in
    after_snapshot config st' m tab (build_snapshot tab.pid st'.bpf_tracker (m.stat tab.pid))

unfoldable pub visit_all : Config → State → List (TargetProcess × Moment) → State
visit_all config st [] = st
visit_all config st (t ∷ ts) = visit_all config (visit config st t) ts

-- The counters at the start of a cycle, and its locals.
unfoldable pub begin_cycle : State → ℕ → State
begin_cycle st n = record st {
  stats = record (st.stats) {
    scans = inc (st.stats.scans);
    targets_seen = add (st.stats.targets_seen) n;
  };
  seen_pids = [];
  log = [];
  calls = [];
}

unfoldable pub scan_cycle : Config → State → List (TargetProcess × Moment) → State
scan_cycle config st targets =
    let st' = visit_all config (begin_cycle st (length targets)) targets in
    record st' { tracker = Tracker.retain_only st'.tracker st'.seen_pids }
