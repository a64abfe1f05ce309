-- ===== src/Daemon/Start.antt =====
-- The start of `main` in daemon/src/main.rs, up to its loop, with `ProcessTable::spawn` of
-- daemon/src/process_table.rs. What the system answers is a parameter.
use bssl_ram.Prelude.{
  ℕ, ◌*◌, Bool, true, false, Option, none, some, List, [], if◌then◌else◌, ◌≡◌, ◌↔◌, arith, In,
  Option-cases, inl, inr,
}
use mathlib.Core.Path.{subst}
use bssl_ram.Prelude.Map.{Map}
use bssl_ram.Prelude.Text.{Text, text, beq_text}
use bssl_ram.Config.{Config}
use bssl_ram.Connector.Socket
use bssl_ram.Connector.Socket.{NetlinkOs}
use bssl_ram.Cycle.{State}
use bssl_ram.Cycle.Bpf.{BpfCpuTracker}
use bssl_ram.Daemon.{Daemon, Wake, run, collect_targets}
use bssl_ram.Daemon.Loop.{run-IsWellFormed}
use bssl_ram.Psi.{PsiFile, Opened, trigger, not_open, open_memory}
use bssl_ram.Scanner.{BrowserProfile, TargetProcess, ProcDir, scan_targets}
use bssl_ram.Signals.{SignalStore}
use bssl_ram.Signals.Server.{ServerOs, Spawned, spawned, not_spawned, spawn_server}
use bssl_ram.Table.{ProcessTable, seed_from_proc}
use bssl_ram.Table.Seed.{live_targets-seed_from_proc}
use bssl_ram.Telemetry.{default_stats}
use bssl_ram.Tracker
use bssl_ram.Tracker.Memory.{IsWellFormed, new-IsWellFormed}
use bssl_ram.Zram.{SwapState, ensure_zram_swap}

-- What the start meets: /proc/swaps, the maps of the BPF program if it loads, the netlink socket,
-- /proc as the seed walk sees it, the file of PSI, the sockets in the file system with the answers
-- about them, and whether a handler of SIGTERM can be set.
pub record Startup : Type 0 where
  pub swaps : Option Text
  pub bpf : Option BpfCpuTracker
  pub netlink : NetlinkOs
  pub proc : ProcDir
  pub psi : PsiFile
  pub sockets : Map Text ℕ
  pub server : ServerOs
  pub umask_mode : ℕ
  pub sigterm : Bool

-- What the start leaves.
pub record Started : Type 0 where
  pub daemon : Daemon
  pub swap : SwapState
  pub psi_active : Bool
  pub sockets : Map Text ℕ

-- `ProcessTable::spawn`: the table as the walk seeds it, if the connector opens. The reader thread
-- then applies the events.
unfoldable pub spawn : NetlinkOs → List BrowserProfile → ProcDir → Option ProcessTable
spawn os profiles proc = elim (Socket.open_socket os) [
  | none ↦ some (seed_from_proc profiles proc [])
  | some e ↦ none
]

abbrev pub is_open : Opened → Bool
is_open (trigger t) = true
is_open (not_open e) = false

abbrev pub psi_active_for : Config → Startup → Bool
psi_active_for config s =
    if config.psi_enabled
    then is_open (open_memory s.psi config.psi_stall_threshold_us config.psi_window_us)
    else false

abbrev pub nanoseconds : ℕ → ℕ
nanoseconds secs = secs * 1_000_000_000

abbrev pub store_of : Spawned → Option SignalStore
store_of (spawned server) = some server.store
store_of (not_spawned e) = none

-- The signal server, and its store if it runs.
unfoldable pub start_server : Config → Startup → Map Text ℕ × Option SignalStore
start_server config s =
    let target =
      if beq_text config.signal_transport (text "uds")
      then config.signal_uds_path
      else config.signal_server_bind in
    let (sockets, result) =
      spawn_server s.server s.umask_mode s.sockets config.signal_transport target
        (nanoseconds config.signal_ttl_secs) (nanoseconds config.signal_interaction_grace_secs) in
    if config.signal_server_enabled then (sockets, store_of result) else (s.sockets, none)

-- `main` up to the loop, with the configuration loaded; no result if SIGTERM cannot be handled.
unfoldable pub start : Config → Startup → Option Started
start config s =
    let (sockets, signal_store) = start_server config s in
    let state : State = record {
      tracker = Tracker.new;
      stats = default_stats;
      bpf_tracker = if config.enable_bpf_cpu_tracker then s.bpf else none;
      signal_store = signal_store;
      seen_pids = [];
      log = [];
      calls = [];
    } in
    let daemon : Daemon = record {
      process_table = spawn s.netlink config.profiles s.proc;
      state = state;
      cycle = 0;
      shutdown = false;
      emitted = [];
    } in
    if s.sigterm
    then some (record {
      daemon = daemon;
      swap = ensure_zram_swap s.swaps;
      psi_active = psi_active_for config s;
      sockets = sockets;
    })
    else none

-- A daemon that starts keeps a well-formed tracker whatever wakes it.
pub start-run-IsWellFormed :
    (config : Config) (s : Startup) (started : Started) (wakes : List Wake)
    → start config s ≡ some started
    → IsWellFormed (run config started.daemon wakes).state.tracker
unfolding start
start-run-IsWellFormed config s started wakes e =
    run-IsWellFormed config started.daemon wakes
      (subst IsWellFormed (ground (arith, e)) new-IsWellFormed)

-- The first cycle has the targets of a walk over /proc, whether the connector opens or not.
pub start-collect_targets :
    (config : Config) (s : Startup) (started : Started) (tp : TargetProcess)
    → start config s ≡ some started
    → In tp (collect_targets started.daemon.process_table config s.proc)
      ↔ In tp (scan_targets config.profiles s.proc)
unfolding start spawn collect_targets
start-collect_targets config s started tp e = elim (Option-cases (Socket.open_socket s.netlink)) [
  | inl opened ↦ ground (arith, e, opened, live_targets-seed_from_proc config.profiles s.proc tp)
  | inr (error, failed) ↦ ground (arith, e, failed)
]
