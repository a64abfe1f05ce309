-- ===== src/Tests/Table.antt =====
-- Processes that start and exit, through the table of daemon/src/process_table.rs.
use bssl_ram.Connector.Layout.{Message, execed, exited}
use bssl_ram.Table.Datagrams
use bssl_ram.Table.Datagrams.{Datagram}
use bssl_ram.Prelude.{ℕ, ◌≡◌, ◌↔◌, none, some, List, [], ◌∷◌, ◌++◌, In, nat_eq, if◌then◌else◌}
use bssl_ram.Prelude.Map
use bssl_ram.Prelude.Text.{Text, text}
use bssl_ram.Connector.{exec, exit}
use bssl_ram.Scanner.{BrowserProfile, TargetProcess, ProcDir, default_profiles, scan_targets}
use bssl_ram.Scanner.Walk.{Any, IsTarget, scan_targets_iff}
use bssl_ram.Scanner
use bssl_ram.Table.{
  ProcessTable, Cmdline, Turn, received, failed, shut_down, run_event_loop, seed_from_proc,
  live_targets, classify_pid, contains, live_pids, reseed_drift_correction,
}
use bssl_ram.Table.Events.{delivered, last_about, outcome}
use bssl_ram.Table
use bssl_ram.Table.Race.{lookup-correct_drift_late}
use bssl_ram.Table.Reseed.{is_some, or_class}
use bssl_ram.Table.Seed.{live_targets-seed_from_proc}
use bssl_ram.Table.Targets.{
  IsTable, empty-IsTable, run_event_loop-IsTable, live_targets-run_event_loop,
}

abbrev renderer : List ℕ
renderer = text "/opt/chrome" ++ 0 ∷ text "--type=renderer" ++ 0 ∷ []

abbrev cmdline : Cmdline
cmdline pid = some renderer

-- Two renderers start, one of them exits, and what comes after the shutdown is not read.
abbrev turns : List Turn
turns =
    received (
      record { event = exec 7; cmdline = cmdline }
      ∷ record { event = exec 8; cmdline = cmdline }
      ∷ [])
    ∷ failed
    ∷ received (record { event = exit 8; cmdline = cmdline } ∷ [])
    ∷ shut_down
    ∷ received (record { event = exit 7; cmdline = cmdline } ∷ [])
    ∷ []

abbrev nothing : ProcessTable
nothing = []

run_event_loop-IsTable_example :
    IsTable default_profiles (run_event_loop default_profiles nothing turns)
run_event_loop-IsTable_example =
    run_event_loop-IsTable default_profiles nothing turns (empty-IsTable default_profiles)

abbrev chromium_7 : TargetProcess
chromium_7 = record { pid = 7; profile = text "chromium" }

live_targets-run_event_loop_example :
    In chromium_7 (live_targets (run_event_loop default_profiles nothing turns)) ↔ (
      elim (last_about default_profiles 7 (delivered turns)) [
        | none ↦ none
        | some a ↦ outcome default_profiles 7 a
      ]
      ≡ some (record { profile_name = some (text "chromium") }))
live_targets-run_event_loop_example = live_targets-run_event_loop default_profiles turns chromium_7

abbrev proc : ProcDir
proc = record { names = some (text "7" ∷ text "self" ∷ []); cmdline = cmdline }

scan_targets_iff_example : In chromium_7 (Scanner.scan_targets default_profiles proc) ↔ (
    (names : List Text) × (some (text "7" ∷ text "self" ∷ []) ≡ some names)
    × Any (IsTarget default_profiles proc chromium_7) names)
scan_targets_iff_example = scan_targets_iff default_profiles proc chromium_7

-- The process exits between the locks of a reseed that has listed it.
abbrev late_exit : List Turn
late_exit = received (record { event = exit 7; cmdline = cmdline } ∷ []) ∷ []

lookup-correct_drift_late_example :
    Map.lookup 7
      (Table.correct_drift
        (Table.find_drift default_profiles cmdline (text "7" ∷ []) nothing)
        (run_event_loop default_profiles nothing late_exit)).0
    ≡ (if contains (live_pids (text "7" ∷ [])) 7
        then (if is_some (Map.lookup 7 nothing)
            then Map.lookup 7 (run_event_loop default_profiles nothing late_exit)
            else or_class default_profiles cmdline 7
                (Map.lookup 7 (run_event_loop default_profiles nothing late_exit)))
        else (if is_some (Map.lookup 7 nothing)
            then none
            else Map.lookup 7 (run_event_loop default_profiles nothing late_exit)))
lookup-correct_drift_late_example =
    lookup-correct_drift_late default_profiles cmdline (text "7" ∷ []) nothing late_exit 7

live_targets-seed_from_proc_example :
    In chromium_7 (live_targets (seed_from_proc default_profiles proc []))
    ↔ In chromium_7 (scan_targets default_profiles proc)
live_targets-seed_from_proc_example = live_targets-seed_from_proc default_profiles proc chromium_7

abbrev zeros : List ℕ
zeros = 0 ∷ 0 ∷ 0 ∷ 0 ∷ 0 ∷ 0 ∷ 0 ∷ 0 ∷ 0 ∷ 0 ∷ 0 ∷ 0 ∷ 0 ∷ 0 ∷ 0 ∷ 0 ∷ []

abbrev datagram : Message → Datagram
datagram m = record {
  header = zeros;
  message = zeros ++ 0 ∷ 0 ∷ 0 ∷ 0 ∷ [];
  cpu = 0;
  low = 1;
  high = 2;
  payload = m;
  rest = [];
  cmdline = cmdline;
}

-- A thread of the process exits after its exec.
abbrev datagrams : List Datagram
datagrams = datagram (execed 7 7) ∷ datagram (exited 9 7 0 0 1 1) ∷ []
