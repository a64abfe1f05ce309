-- ===== src/Tests/Targets.antt =====
-- Two cycles of daemon/src/main.rs after the exec of a process that is then opened.
use bssl_ram.Prelude.{◌≡◌, refl, inl, false, none, some, List, [], ◌∷◌, ◌++◌, In, nat_eq}
use mathlib.Core.Path.{subst, sym}
use bssl_ram.Prelude.Map
use bssl_ram.Prelude.Text
use bssl_ram.Prelude.Text.{Text, text}
use bssl_ram.Compressor
use bssl_ram.Compressor.{Call, opened, advised, closed}
use bssl_ram.Config.{Config, default_config}
use bssl_ram.Connector.{exec}
use bssl_ram.Cycle
use bssl_ram.Cycle.{Moment, State}
use bssl_ram.Cycle.Bpf
use bssl_ram.Daemon
use bssl_ram.Daemon.{Scene, Wake, timer, run}
use bssl_ram.Daemon.Targets.{readings, run-opened}
use bssl_ram.Scanner
use bssl_ram.Scanner.{ProcDir}
use bssl_ram.Table
use bssl_ram.Table.{Arrival, Cmdline, ProcessTable}
use bssl_ram.Table.Readings.{known}
use bssl_ram.Table.Targets.{empty-IsTable}
use bssl_ram.Telemetry.{default_stats}
use bssl_ram.Tracker

abbrev config : Config
config = record default_config { idle_cycles_threshold = 1 }

abbrev cmdline : Cmdline
cmdline pid = some (text "/opt/chrome" ++ 0 ∷ text "--type=renderer" ++ 0 ∷ [])

abbrev nothing : ProcDir
nothing = record { names = none; cmdline = cmdline }

abbrev moment : Moment
moment = record {
  incoming = [];
  sched_switch = λ b. b;
  stat = λ pid. some (text "7 (chrome) S 1 1 1 1 1 1 1 1 1 1 30 12 1 1 1 1 1 1 900");
  smaps_rollup = λ pid. some (text "Rss:  204800 kB");
  now = 0;
  now_wall_ms = 0;
  kernel = record {
    smaps = λ pid.
        some (text "1000-3000 rw-p 00000000 00:00 0" ++ 10 ∷ text "Anonymous:  8 kB" ++ 10 ∷ []);
    pidfd_open = λ pid. some 5;
    process_madvise = λ pidfd n batch. some 8192;
  };
}

abbrev scene : List Arrival → Scene
scene events = record {
  events = events;
  reseed_proc = nothing;
  walk_proc = nothing;
  moment_of = λ i. moment;
}

abbrev wakes : List Wake
wakes = timer (scene (record { event = exec 7; cmdline = cmdline } ∷ [])) ∷ timer (scene []) ∷ []

abbrev no_processes : ProcessTable
no_processes = []

abbrev daemon : Daemon.Daemon
daemon = record {
  process_table = some no_processes;
  state = record {
    tracker = Tracker.new;
    stats = default_stats;
    bpf_tracker = none;
    signal_store = none;
    seen_pids = [];
    log = [];
    calls = [];
  };
  cycle = 0;
  shutdown = false;
  emitted = [];
}

calls_made :
    (run config daemon wakes).state.calls ≡ opened 7 ∷ advised 5 ((4096, 8192) ∷ []) ∷ closed 5 ∷ []
unfolding run Daemon.on_timer Daemon.follow_events Daemon.maybe_reseed Daemon.scan Daemon.maybe_emit
    Daemon.collect_targets Daemon.with_moments Table.apply_events Table.apply_event
    Table.classify_pid Table.live_targets Table.live_target Scanner.parse_cmdline
    Scanner.match_profile Cycle.scan_cycle Cycle.begin_cycle Cycle.visit_all Cycle.visit Cycle.meet
    Cycle.after_snapshot Cycle.update_tracker Cycle.check_gates Cycle.check_signals Cycle.after_veto
    Cycle.try_compress Cycle.record_outcome Cycle.take_reports Bpf.build_snapshot Bpf.runtime_ns
    Bpf.starttime_ns Map.lookup Map.insert Map.retain Tracker.update Tracker.retain_only
    Tracker.forget_reused Tracker.delta Tracker.record_delta Tracker.idle_cycles
    Tracker.is_compressed Tracker.mark_compressed Compressor.rss_mib Compressor.compress_pid
    Compressor.page_out Compressor.parse_anon_regions Compressor.is_real_success Compressor.chunks
    Compressor.advise_chunks Compressor.advise_chunk Text.lines Text.starts_with
    Text.split_whitespace Text.from_str_radix Compressor.scan_lines Compressor.scan_anonymous
    Compressor.scan_header Compressor.mapping_of Text.split_at Compressor.second_number
    Compressor.parse_proc_stats Text.is_infix Text.after_last
calls_made = refl

run-opened_example :
    (config.dry_run ≡ false)
    × (profile : Text) × (known config.profiles 7
          (Map.lookup 7 no_processes)
          (readings config 0 wakes)
        ≡ some (record { profile_name = some profile }))
run-opened_example =
    run-opened config no_processes daemon wakes 7 refl (empty-IsTable config.profiles) refl
      (subst (In (opened 7)) (sym calls_made) (inl refl))
