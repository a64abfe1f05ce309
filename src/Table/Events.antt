-- ===== src/Table/Events.antt =====
-- The events of daemon/src/process_table.rs: the table holds, for each PID, what the latest exec or
-- exit of that PID says.
use bssl_ram.Prelude.{
  ℕ, ◌≡◌, refl, sym, ◌++◌, Bool, true, false, Option-cases, inl, inr, Option, none, some, List, [],
  ◌∷◌, arith, ◌==◌, if◌then◌else◌, nat_eq,
}
use bssl_ram.Prelude.Map
use bssl_ram.Prelude.Map.{lookup-insert, lookup-remove}
use bssl_ram.Scanner.{BrowserProfile}
use bssl_ram.Connector.{ProcEvent, fork, exec, exit}
use bssl_ram.Table.{
  ProcessRecord, ProcessTable, Arrival, Cmdline, classify_pid, apply_event, apply_events, Turn,
  shut_down, received, failed, run_event_loop,
}

-- What a turn of the loop hands to the table, up to the shutdown.
abbrev pub delivered : List Turn → List Arrival
delivered [] = []
delivered (shut_down ∷ rest) = []
delivered (received events ∷ rest) = events ++ delivered rest
delivered (failed ∷ rest) = delivered rest

module _ (profiles : List BrowserProfile) where
  apply_events-append :
      (table : ProcessTable) (xs ys : List Arrival)
      → apply_events profiles table (xs ++ ys)
        ≡ apply_events profiles (apply_events profiles table xs) ys
  unfolding apply_events
  apply_events-append table [] ys = refl
  apply_events-append table (a ∷ xs) ys =
      apply_events-append (apply_event profiles a.cmdline table a.event) xs ys

  run_event_loop-delivered :
      (table : ProcessTable) (turns : List Turn)
      → run_event_loop profiles table turns ≡ apply_events profiles table (delivered turns)
  unfolding run_event_loop
  run_event_loop-delivered table [] = unfold apply_events in refl
  run_event_loop-delivered table (shut_down ∷ rest) = unfold apply_events in refl
  run_event_loop-delivered table (received events ∷ rest) =
      rw (run_event_loop-delivered (apply_events profiles table events) rest)
        (sym (apply_events-append table events (delivered rest)))
  run_event_loop-delivered table (failed ∷ rest) = run_event_loop-delivered table rest

  module _ (pid : ℕ) where
    -- Whether an event bears on the PID, and the record that it then leaves.
    abbrev pub is_about : ProcEvent → Bool
    is_about (fork parent child) = false
    is_about (exec p) = p == pid
    is_about (exit p) = p == pid

    abbrev pub outcome : Arrival → Option ProcessRecord
    outcome a = elim a.event [
      | fork parent child ↦ none
      | exec p ↦ classify_pid profiles a.cmdline pid
      | exit p ↦ none
    ]

    -- The last arrival about the PID.
    abbrev pub last_about : List Arrival → Option Arrival
    last_about [] = none
    last_about (a ∷ rest) = elim (last_about rest) [
      | none ↦ if is_about a.event then some a else none
      | some b ↦ some b
    ]

    pub lookup-apply_event :
        (cmdline : Cmdline) (table : ProcessTable) (event : ProcEvent)
        → Map.lookup pid (apply_event profiles cmdline table event) ≡ (
            if is_about event
            then outcome (record { event = event; cmdline = cmdline })
            else Map.lookup pid table)
    unfolding apply_event
    lookup-apply_event cmdline table (fork parent child) = refl
    lookup-apply_event cmdline table (exec p) =
        elim (Option-cases (classify_pid profiles cmdline p)) [
          | inl e ↦ ground (arith, lookup-remove p pid table)
          | inr (r, e) ↦ ground (arith, lookup-insert p pid r table)
        ]
    lookup-apply_event cmdline table (exit p) = lookup-remove p pid table

    lookup-apply_events :
        (table : ProcessTable) (arrivals : List Arrival)
        → Map.lookup pid (apply_events profiles table arrivals)
          ≡ elim (last_about arrivals) [ none ↦ Map.lookup pid table | some a ↦ outcome a ]
    unfolding apply_events
    lookup-apply_events table [] = refl
    lookup-apply_events table (a ∷ rest) =
        let table' = apply_event profiles a.cmdline table a.event in
        elim (Option-cases (last_about rest)) [
          | inl quiet ↦ rw (lookup-apply_events table' rest) (
              rw quiet
                (rw (lookup-apply_event a.cmdline table a.event) (branch (is_about a.event))))
          | inr (b, later) ↦ rw (lookup-apply_events table' rest) (rw later)
        ]
      where
        branch :
            (t : Bool)
            → (if t then outcome a else Map.lookup pid table) ≡ elim (if t then some a else none) [
              | none ↦ Map.lookup pid table
              | some b ↦ outcome b
            ]
        branch true = refl
        branch false = refl

    -- After any turns of the reader thread, the table's record of a PID is what the last exec or
    -- exit of that PID, among the events received before the shutdown, left: the class of the
    -- command line read then, or nothing; with no such event, the record is the one before.
    pub lookup-run_event_loop :
        (table : ProcessTable) (turns : List Turn)
        → Map.lookup pid (run_event_loop profiles table turns)
          ≡ elim (last_about (delivered turns)) [ none ↦ Map.lookup pid table | some a ↦ outcome a ]
    lookup-run_event_loop table turns =
        rw (run_event_loop-delivered table turns) (lookup-apply_events table (delivered turns))
