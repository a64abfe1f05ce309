-- ===== src/Tests/History.antt =====
-- Two cycles of daemon/src/main.rs over one process, which is idle in the second.
use bssl_ram.Prelude.{◌≡◌, ◌≢◌, refl, false, [], ◌∷◌, arith, nat_eq}
use bssl_ram.Prelude.Map
use bssl_ram.Prelude.Text
use bssl_ram.Prelude.Text.{Text, text, text_eq}
use bssl_ram.Compressor
use bssl_ram.Compressor.{Kernel, Call, opened, advised, closed}
use bssl_ram.Config.{Config, default_config}
use bssl_ram.Cycle
use bssl_ram.Cycle.{Moment, State, meet, update_tracker, visit, scan_cycle}
use bssl_ram.Cycle.Bpf
use bssl_ram.Cycle.Bpf.{BpfCpuTracker, build_snapshot, tick_ns}
use bssl_ram.Cycle.{exited}
use bssl_ram.Cycle.History.{own_turn, IsRead, IsWatched, unknown, cycle, idle_ns_of, visit-IdleRun}
use bssl_ram.Tracker.Runs.{IdleRun}
use bssl_ram.Tracker.View.{view}
use bssl_ram.Signals
use bssl_ram.Tracker
use bssl_ram.Tracker.{CpuTracker, ProcSnapshot, tracked_pids}
use bssl_ram.Tests.Cycle.{moment, state, tab, targets}

-- The process is read for the first time, and found idle in the cycle after.
abbrev eager_config : Config
eager_config = record default_config { idle_cycles_threshold = 1 }

abbrev fresh_state : State
fresh_state = record state { tracker = Tracker.new }

abbrev read_state : State
read_state = scan_cycle eager_config fresh_state targets

first-IsRead : IsRead eager_config 7 100 fresh_state [] [] (text "firefox") moment 500
unfolding build_snapshot Bpf.runtime_ns Bpf.starttime_ns Map.lookup meet Cycle.visit_all
    Cycle.begin_cycle
first-IsRead = record { not_before = tt; not_after = tt; snapshot = refl; in_range = omega arith }

second-IsRead : IsRead eager_config 7 100 read_state [] [] (text "firefox") moment 500
unfolding build_snapshot Bpf.runtime_ns Bpf.starttime_ns Map.lookup meet Cycle.visit_all
    Cycle.begin_cycle scan_cycle visit Cycle.after_snapshot Cycle.check_gates update_tracker
    Tracker.update Tracker.record_delta Tracker.delta Tracker.forget_reused
second-IsRead = record { not_before = tt; not_after = tt; snapshot = refl; in_range = omega arith }

watched : IsWatched eager_config 7 100 (500 ∷ []) read_state
unfolding view Map.lookup Tracker.idle_cycles
watched = cycle [] [] (text "firefox") moment 500 (unknown refl refl) first-IsRead

read_calls :
    (visit eager_config
      (own_turn eager_config 7 100 read_state [] [] (text "firefox") moment)
      (tab, moment)).calls
    ≡ opened 7 ∷ advised 5 ((4096, 8192) ∷ []) ∷ closed 5 ∷ []
unfolding visit meet Cycle.after_snapshot Cycle.update_tracker Cycle.check_gates Cycle.check_signals
    Cycle.after_veto Cycle.try_compress Cycle.record_outcome Cycle.take_reports build_snapshot
    Bpf.runtime_ns Bpf.starttime_ns Map.lookup Map.insert Map.retain Tracker.update
    Tracker.forget_reused Tracker.delta Tracker.record_delta Tracker.idle_cycles
    Tracker.is_compressed Tracker.mark_compressed Compressor.rss_mib Compressor.compress_pid
    Compressor.page_out Compressor.parse_anon_regions Compressor.is_real_success Compressor.chunks
    Compressor.advise_chunks Compressor.advise_chunk Signals.profile_veto_at
    Signals.canonical_family Signals.drop_stale Text.lines Text.starts_with Text.split_whitespace
    Text.from_str_radix Compressor.scan_lines Compressor.scan_anonymous Compressor.scan_header
    Compressor.mapping_of Text.split_at Compressor.second_number Cycle.visit_all Cycle.begin_cycle
    scan_cycle Tracker.retain_only
read_calls = refl

read_calls_change :
    (visit eager_config
      (own_turn eager_config 7 100 read_state [] [] (text "firefox") moment)
      (tab, moment)).calls
    ≢ (own_turn eager_config 7 100 read_state [] [] (text "firefox") moment).calls
unfolding Cycle.visit_all Cycle.begin_cycle
read_calls_change e = cc (read_calls, e)

visit-IdleRun_example :
    (eager_config.dry_run ≡ false) × IdleRun (idle_ns_of eager_config) 1 (500 ∷ 500 ∷ [])
visit-IdleRun_example =
    visit-IdleRun eager_config 7 100 read_state (500 ∷ []) [] [] (text "firefox") moment 500 watched
      second-IsRead (omega arith) read_calls_change
