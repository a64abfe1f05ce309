-- ===== src/Daemon.antt =====
-- daemon/src/main.rs: the main loop, with the targets of a cycle from the process table or from a
-- walk over /proc. A turn of `select!` is a `Wake`; which one is ready first is not up to the
-- daemon.
pub mod Loop
pub mod Start
pub mod Targets
use bssl_ram.Prelude.{
  ℕ, suc, ◌+◌, ◌%◌, Bool, true, false, ◌&&◌, Option, none, some, List, [], ◌∷◌, ◌++◌, ltb, ◌==◌,
  if◌then◌else◌,
}
use bssl_ram.Prelude.Words.{add_u64}
use bssl_ram.Config.{Config}
use bssl_ram.Cycle.{Moment, State, scan_cycle}
use bssl_ram.Scanner.{TargetProcess, ProcDir, scan_targets}
use bssl_ram.Table.{ProcessTable, Arrival, apply_events, live_targets, reseed_drift_correction}
use bssl_ram.Telemetry.{Stats, inc, emit}

-- The locals of `main`: the table is there when cn_proc is, and `emitted` is what the journal
-- shows.
pub record Daemon : Type 0 where
  pub process_table : Option ProcessTable
  pub state : State
  pub cycle : ℕ
  pub shutdown : Bool
  pub emitted : List Stats

-- What a cycle meets: the cn_proc events since the last one, /proc as the reseed and as the walk
-- see it, and the moment of the target at each place.
pub record Scene : Type 0 where
  pub events : List Arrival
  pub reseed_proc : ProcDir
  pub walk_proc : ProcDir
  pub moment_of : ℕ → Moment

pub data Wake : Type 0 where
  timer psi_pressure : Scene → Wake
  sigint sigterm : Wake

unfoldable pub collect_targets : Option ProcessTable → Config → ProcDir → List TargetProcess
collect_targets (some table) config proc = live_targets table
collect_targets none config proc = scan_targets config.profiles proc

-- Each target with its moment.
unfoldable pub with_moments : (ℕ → Moment) → ℕ → List TargetProcess → List (TargetProcess × Moment)
with_moments moment_of i [] = []
with_moments moment_of i (t ∷ ts) = (t, moment_of i) ∷ with_moments moment_of (suc i) ts

abbrev pub map_table : (ProcessTable → ProcessTable) → Option ProcessTable → Option ProcessTable
map_table f none = none
map_table f (some table) = some (f table)

-- `is_multiple_of`, with an interval of 0 as never.
abbrev pub is_due : ℕ → ℕ → Bool
is_due n cycle = ltb 0 n && (cycle % n == 0)

-- The event thread has applied the events.
unfoldable pub follow_events : Config → Daemon → Scene → Daemon
follow_events config d s = record d {
  process_table = map_table (λ t. apply_events config.profiles t s.events) d.process_table;
}

unfoldable pub maybe_reseed : Config → Daemon → Scene → Daemon
maybe_reseed config d s =
    if is_due config.cn_proc_reseed_every_n_cycles d.cycle
    then record d {
      process_table =
          map_table (λ t. (reseed_drift_correction config.profiles s.reseed_proc t).0)
            d.process_table;
    }
    else d

unfoldable pub scan : Config → Daemon → Scene → Daemon
scan config d s =
    let targets = collect_targets d.process_table config s.walk_proc in
    record d { state = scan_cycle config d.state (with_moments s.moment_of 0 targets) }

unfoldable pub maybe_emit : Config → Daemon → Daemon
maybe_emit config d =
    if is_due config.telemetry_interval_cycles d.cycle
    then record d { emitted = d.emitted ++ emit d.state.stats ∷ [] }
    else d

unfoldable pub on_timer : Config → Daemon → Scene → Daemon
on_timer config d s =
    let d1 = record (follow_events config d s) { cycle = add_u64 d.cycle 1 } in
    maybe_emit config (scan config (maybe_reseed config d1 s) s)

unfoldable pub on_psi : Config → Daemon → Scene → Daemon
on_psi config d s =
    let d1 = follow_events config d s in
    let stats = record (d1.state.stats) { psi_events = inc (d1.state.stats.psi_events) } in
    scan config
      (record d1 { cycle = add_u64 d.cycle 1; state = record (d1.state) { stats = stats } }) s

unfoldable pub on_signal : Daemon → Daemon
on_signal d = record d { shutdown = true; emitted = d.emitted ++ emit d.state.stats ∷ [] }

-- The loop over the wakes that come: it ends at a signal.
unfoldable pub run : Config → Daemon → List Wake → Daemon
run config d [] = d
run config d (timer s ∷ wakes) = run config (on_timer config d s) wakes
run config d (psi_pressure s ∷ wakes) = run config (on_psi config d s) wakes
run config d (sigint ∷ wakes) = on_signal d
run config d (sigterm ∷ wakes) = on_signal d
