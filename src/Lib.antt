-- ===== src/Lib.antt =====
-- The core of bssl-ram, a daemon that pages idle browser processes out to zram, and of its
-- native-messaging bridge.
--
-- The parts and how they interact
-- A cycle of the daemon (daemon/src/main.rs) takes its targets from the process table, which events of
-- the kernel keep up to date, or else from a walk over /proc. For each target it takes a CPU snapshot,
-- updates the tracker of idleness, passes the gates (idle, warm, not compressed, large, no signal of
-- the browser against it), and then calls the compressor. Counters and a log say what was done. The
-- signals come as reports over a socket: the extension of a browser writes frames to the bridge, and
-- the bridge sends them to the server in the daemon.
--
-- Files
--   Prelude      Boolean tests, lists, words with their wrap-around, maps, and texts as code points
--   Tracker      daemon/src/state.rs: CpuTracker. Tracker.View is the state machine of one PID
--   Scanner      daemon/src/scanner.rs: parse_cmdline, match_profile, scan_targets
--   Connector    daemon/src/proc_connector.rs: parse_events on the bytes of a datagram;
--                Connector.Socket has open and recv_events
--   Table        daemon/src/process_table.rs: classify_pid, seed_from_proc, apply_event,
--                run_event_loop, live_targets and reseed_drift_correction
--   Compressor   daemon/src/compressor.rs: parse_anon_regions, parse_proc_stats, rss_mib, compress_pid;
--                Compressor.Headers is the layout of /proc/PID/smaps
--   Signals      daemon/src/signals.rs: apply_report_at, profile_veto_at, report_handler. Signals.Server
--                has build_router, the test of the peer and spawn_server
--   Http         the messages between bridge and daemon, and what is used of serde_json
--   Config       daemon/src/config.rs: Config, its defaults and load
--   Telemetry    daemon/src/telemetry.rs: Stats, and the choices of init
--   Psi          daemon/src/psi.rs: PsiTrigger and parse_memory, and spawn_psi_thread of
--                daemon/src/main.rs
--   Zram         daemon/src/zram.rs: ensure_zram_swap
--   Cycle        daemon/src/main.rs: scan_cycle as visit for each target, with its gates in
--                check_gates, check_signals and try_compress; Cycle.Bpf has build_snapshot and the
--                maps of daemon/src/bpf_cpu_tracker.rs, and Cycle.Bpf.Program the program of
--                daemon/src/bpf/cpu_tracker.bpf.c that fills them, which
--                Cycle.Bpf.Concurrent has operation by operation on several processors;
--                Cycle.Bpf.Accounting, Cycle.Bpf.Linear, Cycle.Births, Cycle.Full and Cycle.Usage are about
--                the maps, Cycle.History follows a process over cycles, Signals.Hold and
--                Cycle.Protection a report from its admission on
--   Daemon       daemon/src/main.rs: the main loop and collect_targets; Daemon.Start is what comes
--                before the loop, with ProcessTable::spawn; Daemon.Targets follows a process from the
--                events of the kernel, with Table.Readings, to the system calls
--   Bridge       bridge/src: Bridge.Nmh is nmh.rs, Bridge.Client is client.rs, Bridge.Session is
--                run_bridge and handle_frame of main.rs, Bridge.Cli its main, Bridge.Install is
--                install.rs. Bridge.Session.Admission puts the session and the server together
--   Examples     daemon/examples: bench_batching.rs is Bench, compress_test.rs is Inspect,
--                compress_real.rs is Rollup and cpu_test.rs is Cpu
--   Tests        runs at concrete inputs
--
-- How code becomes definitions
-- State is passed explicitly; a HashMap is an association list with one entry for each key, and
-- statements about it do not depend on its order. Machine words are natural numbers with the
-- wrap-around of a release build written out. What is outside the program is a parameter: the files of
-- /proc, the clocks, the answers of the kernel (Compressor.Kernel), what the BPF program writes
-- between two turns (a run of Cycle.Bpf.Program in Cycle.Usage), and the requests and events that
-- arrive between two targets (Cycle.Moment, Daemon.Scene). Log lines are kept where they name a
-- decision (Cycle.Action).
--
-- Fuel
-- Loops are recursion on the list that they walk. chunks takes fuel, one unit for each chunk; the
-- number of regions is given, and a chunk holds at least one region, so that is enough. The decimal
-- text of a number (Prelude.Decimal) has fuel for 20 digits, and 2 ^ 64 is below 10 ^ 20.
--
-- Not modelled
-- Threads and the runtime (a thread is the sequence of its turns), the loading of the BPF program and
-- the kernel that runs it, daemon/build.rs and daemon/examples/scan_test.rs, the installation of the
-- log, and the extension. JSON, TOML, hyper, axum, bpf_map_update_elem and floating-point numbers are
-- parameters, and so is what the system answers to each call. The deletions of the daemon are not
-- interleaved with the operations of the BPF program. A write that the installer is refused leaves the
-- file as it was, and the parents that are created on the way to a directory are left out. The drift
-- correction runs with no event between its two locks, but in Table.Race.
pub mod Prelude
pub mod Http
pub mod Tracker
pub mod Scanner
pub mod Connector
pub mod Table
pub mod Compressor
pub mod Signals
pub mod Config
pub mod Psi
pub mod Zram
pub mod Telemetry
pub mod Cycle
pub mod Daemon
pub mod Bridge
pub mod Examples
mod Tests
