-- ===== src/Tests/Daemon.antt =====
-- The main loop of daemon/src/main.rs over two cycles and a SIGTERM.
use bssl_ram.Prelude.{◌%◌, ◌≡◌, true, false, none, some, List, [], ◌∷◌, ◌++◌}
use bssl_ram.Prelude.Text.{text}
use bssl_ram.Prelude.Words.{u64_mod}
use bssl_ram.Config.{default_config}
use bssl_ram.Cycle.{Moment, State}
use bssl_ram.Daemon
use bssl_ram.Daemon.{Scene, Wake, timer, psi_pressure, sigint, sigterm, on_signal, run}
use bssl_ram.Daemon.Loop.{run-counts}
use bssl_ram.Scanner.{ProcDir}
use bssl_ram.Telemetry.{default_stats}
use bssl_ram.Tracker

abbrev moment : Moment
moment = record {
  incoming = [];
  sched_switch = λ b. b;
  stat = λ pid. some (text "7 (chrome) S 1 1 1 1 1 1 1 1 1 1 30 12 1 1 1 1 1 1 900");
  smaps_rollup = λ pid. none;
  now = 0;
  now_wall_ms = 0;
  kernel = record {
    smaps = λ pid. none;
    pidfd_open = λ pid. none;
    process_madvise = λ pidfd n batch. none;
  };
}

abbrev proc : ProcDir
proc = record {
  names = some (text "7" ∷ []);
  cmdline = λ pid. some (text "/opt/chrome" ++ 0 ∷ text "--type=renderer" ++ 0 ∷ []);
}

abbrev scene : Scene
scene = record { events = []; reseed_proc = proc; walk_proc = proc; moment_of = λ i. moment }

abbrev state : State
state = record {
  tracker = Tracker.new;
  stats = default_stats;
  bpf_tracker = none;
  signal_store = none;
  seen_pids = [];
  log = [];
  calls = [];
}

abbrev daemon : Daemon.Daemon
daemon = record { process_table = none; state = state; cycle = 0; shutdown = false; emitted = [] }

abbrev cycles : List Wake
cycles = timer scene ∷ psi_pressure scene ∷ []

abbrev wakes : List Wake
wakes = cycles ++ sigterm ∷ timer scene ∷ []

run-counts_example :
    ((run default_config daemon wakes).state.stats.scans % u64_mod ≡ 2 % u64_mod)
    × ((run default_config daemon wakes).state.stats.psi_events % u64_mod ≡ 1 % u64_mod)
    × ((run default_config daemon wakes).cycle % u64_mod ≡ 2 % u64_mod)
    × ((run default_config daemon wakes).shutdown ≡ true)
run-counts_example = run-counts default_config daemon wakes
