-- ===== src/Table/Race.antt =====
-- `reseed_drift_correction` of daemon/src/process_table.rs when the event thread runs between its
-- two locks: the drift is found in one table and corrected in a later one.
use bssl_ram.Prelude.{ℕ, ◌≡◌, none, List, arith, if◌then◌else◌, nat_eq}
use bssl_ram.Prelude.Map
use bssl_ram.Prelude.Map.{keys}
use bssl_ram.Prelude.Text.{Text}
use bssl_ram.Scanner.{BrowserProfile}
use bssl_ram.Table.{
  ProcessTable, Cmdline, Turn, run_event_loop, contains, live_pids, difference, find_drift,
  drop_phantoms, correct_drift,
}
use bssl_ram.Table.Reseed.{
  is_some, or_class, contains-keys, contains-difference, lookup-drop_phantoms,
  lookup-insert_records,
}

-- Whatever the event thread does between the two locks, a PID that was in the table and is not
-- listed has no record afterwards, even if an exec has just given it one; a listed PID that was not
-- in the table has the record of the command line that the reseed read, if that matched, even if
-- its exit has just removed it; and any other PID has the record that the event thread left.
pub lookup-correct_drift_late :
    (profiles : List BrowserProfile) (cmdline : Cmdline) (names : List Text) (table : ProcessTable)
    (turns : List Turn) (pid : ℕ)
    → Map.lookup pid
        (correct_drift
          (find_drift profiles cmdline names table)
          (run_event_loop profiles table turns)).0
      ≡ (if contains (live_pids names) pid
          then (if is_some (Map.lookup pid table)
              then Map.lookup pid (run_event_loop profiles table turns)
              else or_class profiles cmdline pid
                  (Map.lookup pid (run_event_loop profiles table turns)))
          else (if is_some (Map.lookup pid table)
              then none
              else Map.lookup pid (run_event_loop profiles table turns)))
unfolding correct_drift find_drift
lookup-correct_drift_late profiles cmdline names table turns pid =
    let live = live_pids names in
    let existing = keys table in
    let later = run_event_loop profiles table turns in
    ground (
      arith,
      lookup-insert_records profiles cmdline (difference live existing)
          (drop_phantoms (difference existing live) later).0 pid,
      lookup-drop_phantoms (difference existing live) later pid,
      contains-difference live existing pid,
      contains-difference existing live pid,
      contains-keys table pid,
    )
