-- ===== src/Tests/Cycle.antt =====
-- A cycle of daemon/src/main.rs over one process that is idle, large and not compressed.
use bssl_ram.Prelude.{
  ◌≡◌, ◌≢◌, ◌≤◌, refl, true, false, none, some, List, [], ◌∷◌, ◌++◌, length, map, arith, nat_eq,
}
use mathlib.Core.Path.{subst}
use bssl_ram.Prelude.Map
use bssl_ram.Prelude.Text
use bssl_ram.Prelude.Text.{Text, text, text_eq}
use bssl_ram.Compressor
use bssl_ram.Compressor.{Kernel, Call, opened, advised, closed}
use bssl_ram.Config.{Config, default_config}
use bssl_ram.Cycle
use bssl_ram.Cycle.{Moment, State, meet, update_tracker, visit, scan_cycle}
use bssl_ram.Cycle.Attempts.{visit-IsTry, visit-once}
use bssl_ram.Cycle.Bpf
use bssl_ram.Cycle.Bpf.{BpfCpuTracker, build_snapshot, tick_ns}
use bssl_ram.Cycle.Counters.{scan_cycle-tally}
use bssl_ram.Cycle.DryRun.{scan_cycle-dry_run}
use bssl_ram.Cycle.{exited}
use bssl_ram.Cycle.Locality.{scan_cycle-view}
use bssl_ram.Tracker.View.{view, unseen}
use bssl_ram.Cycle.Gates.{IsAllowed, IsTry, visit-calls}
use bssl_ram.Cycle.Steps.{tally}
use bssl_ram.Cycle.Sweep.{scan_cycle-bounded}
use bssl_ram.Scanner.{TargetProcess}
use bssl_ram.Signals
use bssl_ram.Telemetry.{default_stats}
use bssl_ram.Tracker
use bssl_ram.Tracker.{CpuTracker, ProcSnapshot, tracked_pids}
use bssl_ram.Tracker.Memory.{IsWellFormed}

abbrev smaps : Text
smaps = text "1000-3000 rw-p 00000000 00:00 0" ++ 10 ∷ text "Anonymous:  8 kB" ++ 10 ∷ []

abbrev kernel : Kernel
kernel = record {
  smaps = λ pid. some smaps;
  pidfd_open = λ pid. some 5;
  process_madvise = λ pidfd n batch. some 8192;
}

abbrev pub moment : Moment
moment = record {
  incoming = [];
  sched_switch = λ b. b;
  stat = λ pid. none;
  smaps_rollup = λ pid. some (text "Rss:  204800 kB");
  now = 0;
  now_wall_ms = 0;
  kernel = kernel;
}

abbrev before : ProcSnapshot
before = record { pid = 7; starttime = 100; cpu_ns = 400 }

abbrev after : ProcSnapshot
after = record { pid = 7; starttime = 100; cpu_ns = 500 }

abbrev idle_tracker : CpuTracker
idle_tracker = record { snapshots = (7, before) ∷ []; idle_cycles = (7, 2) ∷ []; compressed = [] }

abbrev pub state : State
state = record {
  tracker = idle_tracker;
  stats = default_stats;
  bpf_tracker =
      some (record { task_runtime = (7, 500) ∷ []; task_start = []; task_birth = (7, 100) ∷ [] });
  signal_store = some (Signals.new 45_000_000_000 90_000_000_000);
  seen_pids = [];
  log = [];
  calls = [];
}

abbrev pub tab : TargetProcess
tab = record { pid = 7; profile = text "firefox" }

calls_made :
    (visit default_config state (tab, moment)).calls
    ≡ opened 7 ∷ advised 5 ((4096, 8192) ∷ []) ∷ closed 5 ∷ []
unfolding visit meet Cycle.after_snapshot Cycle.update_tracker Cycle.check_gates Cycle.check_signals
    Cycle.after_veto Cycle.try_compress Cycle.record_outcome Cycle.take_reports build_snapshot
    Bpf.runtime_ns Bpf.starttime_ns Map.lookup Map.insert Map.retain Tracker.update
    Tracker.forget_reused Tracker.delta Tracker.record_delta Tracker.idle_cycles
    Tracker.is_compressed Tracker.mark_compressed Compressor.rss_mib Compressor.compress_pid
    Compressor.page_out Compressor.parse_anon_regions Compressor.is_real_success Compressor.chunks
    Compressor.advise_chunks Compressor.advise_chunk Signals.profile_veto_at
    Signals.canonical_family Signals.drop_stale Text.lines Text.starts_with Text.split_whitespace
    Text.from_str_radix Compressor.scan_lines Compressor.scan_anonymous Compressor.scan_header
    Compressor.mapping_of Text.split_at Compressor.second_number
calls_made = refl

calls_change : (visit default_config state (tab, moment)).calls ≢ state.calls
calls_change e = cc (calls_made, e)

visit-calls_example :
    (default_config.dry_run ≡ false)
    × (snap : ProcSnapshot) × (build_snapshot 7 (meet state moment 7).bpf_tracker (moment.stat 7)
        ≡ some snap)
    × IsAllowed default_config
        (update_tracker default_config (meet state moment 7) snap).0
        moment
        tab
        (update_tracker default_config (meet state moment 7) snap).1
visit-calls_example = visit-calls default_config state tab moment calls_change

snapshot_read : build_snapshot 7 (meet state moment 7).bpf_tracker (moment.stat 7) ≡ some after
unfolding build_snapshot Bpf.runtime_ns Bpf.starttime_ns Map.lookup meet
snapshot_read = refl

allowed :
    IsAllowed default_config
      (update_tracker default_config (meet state moment 7) after).0
      moment
      tab
      (update_tracker default_config (meet state moment 7) after).1
unfolding visit meet Cycle.after_snapshot Cycle.update_tracker Cycle.check_gates Cycle.check_signals
    Cycle.after_veto Cycle.try_compress Cycle.record_outcome Cycle.take_reports build_snapshot
    Bpf.runtime_ns Bpf.starttime_ns Map.lookup Map.insert Map.retain Tracker.update
    Tracker.forget_reused Tracker.delta Tracker.record_delta Tracker.idle_cycles
    Tracker.is_compressed Tracker.mark_compressed Compressor.rss_mib Compressor.compress_pid
    Compressor.page_out Compressor.parse_anon_regions Compressor.is_real_success Compressor.chunks
    Compressor.advise_chunks Compressor.advise_chunk Signals.profile_veto_at
    Signals.canonical_family Signals.drop_stale Text.lines Text.starts_with Text.split_whitespace
    Text.from_str_radix Compressor.scan_lines Compressor.scan_anonymous Compressor.scan_header
    Compressor.mapping_of Text.split_at Compressor.second_number
allowed = record {
  idle = refl;
  warm = omega arith;
  uncompressed = refl;
  large = omega arith;
  quiet = λ s e.
      subst
        (λ o. elim o as (λ _. Type 0) [
          | none ↦ Unit
          | some x ↦ (Signals.profile_veto_at x (text "firefox") 0 0).1 ≡ none
        ])
        e refl;
}

visit-IsTry_example :
    IsTry default_config
      (update_tracker default_config (meet state moment 7) after).0
      moment
      7
      (visit default_config state (tab, moment))
visit-IsTry_example = visit-IsTry default_config state tab moment after snapshot_read allowed

-- The process after its page-out, at its next snapshot.
abbrev marked_state : State
marked_state = record state { tracker = record idle_tracker { compressed = (7, true) ∷ [] } }

marked : Tracker.is_compressed marked_state.tracker 7 ≡ true
unfolding Tracker.is_compressed Map.lookup
marked = refl

seen_before : Map.lookup 7 marked_state.tracker.snapshots ≡ some before
unfolding Map.lookup
seen_before = refl

marked_read : build_snapshot 7 (meet marked_state moment 7).bpf_tracker (moment.stat 7) ≡ some after
unfolding build_snapshot Bpf.runtime_ns Bpf.starttime_ns Map.lookup meet
marked_read = refl

visit-once_example :
    ((visit default_config marked_state (tab, moment)).calls ≡ [])
    × (Tracker.is_compressed (visit default_config marked_state (tab, moment)).tracker 7 ≡ true)
    × (Map.lookup 7 (visit default_config marked_state (tab, moment)).tracker.snapshots
        ≡ some after)
visit-once_example =
    visit-once default_config marked_state tab moment after before marked seen_before marked_read
      refl (omega arith)

abbrev pub targets : List (TargetProcess × Moment)
targets = (tab, moment) ∷ []

scan_cycle-tally_example :
    (map (λ e. e.0) (scan_cycle default_config state targets).log ≡ 7 ∷ [])
    × (tally (scan_cycle default_config state targets).stats []
        ≡ tally default_stats (map (λ e. e.1) (scan_cycle default_config state targets).log))
    × ((scan_cycle default_config state targets).stats.scans ≡ 1)
    × ((scan_cycle default_config state targets).stats.targets_seen ≡ 1)
    × ((scan_cycle default_config state targets).stats.psi_events ≡ 0)
scan_cycle-tally_example = scan_cycle-tally default_config state targets

abbrev dry_config : Config
dry_config = record default_config { dry_run = true }

scan_cycle-dry_run_example :
    ((scan_cycle dry_config state targets).calls ≡ [])
    × ((scan_cycle dry_config state targets).stats.compressions ≡ 0)
    × ((scan_cycle dry_config state targets).stats.bytes_paged_out ≡ 0)
    × ((scan_cycle dry_config state targets).stats.bytes_skipped_by_kernel ≡ 0)
scan_cycle-dry_run_example = scan_cycle-dry_run dry_config state targets refl

well_formed : IsWellFormed idle_tracker
unfolding Map.lookup
well_formed = record { snapshots = (refl, tt); idle_cycles = (refl, tt); compressed = tt }

scan_cycle-bounded_example :
    IsWellFormed (scan_cycle default_config state targets).tracker
    × (tracked_pids (scan_cycle default_config state targets).tracker ≤ 1)
    × (length (scan_cycle default_config state targets).tracker.idle_cycles ≤ 1)
    × (length (scan_cycle default_config state targets).tracker.compressed ≤ 1)
scan_cycle-bounded_example = scan_cycle-bounded default_config state targets well_formed

-- A process that the maps do not know.
abbrev gone : TargetProcess
gone = record { pid = 9; profile = text "firefox" }

abbrev others : List (TargetProcess × Moment)
others = (gone, moment) ∷ []

scan_cycle-view_example :
    (view (scan_cycle default_config state (others ++ (tab, moment) ∷ [])).tracker 7
      ≡ view
          (visit default_config
            (Cycle.visit_all default_config (Cycle.begin_cycle state 2) others)
            (tab, moment)).tracker
          7)
    × (view (Cycle.visit_all default_config (Cycle.begin_cycle state 2) others).tracker 7
        ≡ view idle_tracker 7)
    × (view (scan_cycle default_config state (others ++ [])).tracker 7 ≡ unseen)
scan_cycle-view_example = scan_cycle-view default_config state others [] tab moment (refl, tt) tt
