-- ===== src/Table.antt =====
-- daemon/src/process_table.rs: the table of target processes that cn_proc events keep up to date,
-- and its reconciliation with /proc. A reading of /proc/PID/cmdline is a function of the PID, taken
-- at the time of the event that asks for it.
pub mod Events
pub mod Reseed
pub mod Race
pub mod Targets
pub mod Seed
pub mod Readings
pub mod Datagrams
use bssl_ram.Prelude.{
  ℕ, suc, Bool, true, false, not, Option, none, some, List, [], ◌∷◌, map, length, find, any,
  is_empty, ◌==◌, if◌then◌else◌, nat_eq, ◌>>=◌,
}
use bssl_ram.Prelude.Map
use bssl_ram.Prelude.Map.{Map, keys}
use bssl_ram.Prelude.Text.{Text}
use bssl_ram.Scanner.{
  BrowserProfile, TargetProcess, ProcDir, parse_pid, parse_cmdline, match_profile, cons_some,
}
use bssl_ram.Connector.{ProcEvent, fork, exec, exit}

pub record ProcessRecord : Type 0 where
  pub profile_name : Option Text

abbrev pub ProcessTable : Type 0
ProcessTable = Map ℕ ProcessRecord

abbrev pub Cmdline : Type 0
Cmdline = ℕ → Option (List ℕ)

abbrev pub record_of : BrowserProfile → ProcessRecord
record_of p = record { profile_name = some p.name }

-- `classify_pid`. An empty command line is a process before its exec.
unfoldable pub classify_pid : List BrowserProfile → Cmdline → ℕ → Option ProcessRecord
classify_pid profiles cmdline pid = do
  raw ← cmdline pid
  if is_empty raw
      then none
      else (do p ← find (λ p. match_profile (parse_cmdline raw) p) profiles; some (record_of p))

-- One name of the walk that fills the table at startup.
unfoldable pub seed_entry : List BrowserProfile → Cmdline → ProcessTable → Text → ProcessTable
seed_entry profiles cmdline table name = elim (parse_pid name) [
  | none ↦ table
  | some pid ↦ elim (classify_pid profiles cmdline pid) [
    | none ↦ table
    | some r ↦ Map.insert pid r table
  ]
]

unfoldable pub seed_entries :
    List BrowserProfile → Cmdline → ProcessTable → List Text → ProcessTable
seed_entries profiles cmdline table [] = table
seed_entries profiles cmdline table (name ∷ names) =
    seed_entries profiles cmdline (seed_entry profiles cmdline table name) names

-- `seed_from_proc`
unfoldable pub seed_from_proc : List BrowserProfile → ProcDir → ProcessTable → ProcessTable
seed_from_proc profiles proc table = elim proc.names [
  | none ↦ table
  | some names ↦ seed_entries profiles proc.cmdline table names
]

unfoldable pub apply_event : List BrowserProfile → Cmdline → ProcessTable → ProcEvent → ProcessTable
apply_event profiles cmdline table (fork parent child) = table
apply_event profiles cmdline table (exec pid) = elim (classify_pid profiles cmdline pid) [
  | none ↦ Map.remove pid table
  | some r ↦ Map.insert pid r table
]
apply_event profiles cmdline table (exit pid) = Map.remove pid table

-- An event with the command lines as they are when it is applied.
pub record Arrival : Type 0 where
  pub event : ProcEvent
  pub cmdline : Cmdline

unfoldable pub apply_events : List BrowserProfile → ProcessTable → List Arrival → ProcessTable
apply_events profiles table [] = table
apply_events profiles table (a ∷ rest) =
    apply_events profiles (apply_event profiles a.cmdline table a.event) rest

-- What one turn of `run_event_loop` meets: the shutdown flag is up, or `recv_events` returns events
-- or an error (after which the thread sleeps and goes on).
pub data Turn : Type 0 where
  shut_down : Turn
  received : List Arrival → Turn
  failed : Turn

unfoldable pub run_event_loop : List BrowserProfile → ProcessTable → List Turn → ProcessTable
run_event_loop profiles table [] = table
run_event_loop profiles table (shut_down ∷ rest) = table
run_event_loop profiles table (received events ∷ rest) =
    run_event_loop profiles (apply_events profiles table events) rest
run_event_loop profiles table (failed ∷ rest) = run_event_loop profiles table rest

unfoldable pub live_target : ℕ → ProcessRecord → Option TargetProcess
live_target pid r = do p ← r.profile_name; some (record { pid = pid; profile = p })

unfoldable pub live_targets : ProcessTable → List TargetProcess
live_targets [] = []
live_targets ((pid, r) ∷ table) = cons_some (live_target pid r) (live_targets table)

unfoldable pub tracked : ProcessTable → ℕ
tracked table = length table

abbrev pub contains : List ℕ → ℕ → Bool
contains pids pid = any (λ p. p == pid) pids

-- The PIDs among the names of /proc. (`HashSet`: a PID that is listed twice counts once.)
unfoldable pub live_pids : List Text → List ℕ
live_pids [] = []
live_pids (name ∷ names) =
    let rest = live_pids names in
    elim (parse_pid name) [
      | none ↦ rest
      | some pid ↦ if contains rest pid then rest else pid ∷ rest
    ]

-- `a.difference(b)`
unfoldable pub difference : List ℕ → List ℕ → List ℕ
difference [] b = []
difference (x ∷ a) b = let rest = difference a b in if contains b x then rest else x ∷ rest

-- What the reconciliation decides outside the write lock.
pub record Drift : Type 0 where
  pub phantoms : List ℕ
  pub new_records : List (ℕ × ProcessRecord)

unfoldable pub classify_all : List BrowserProfile → Cmdline → List ℕ → List (ℕ × ProcessRecord)
classify_all profiles cmdline [] = []
classify_all profiles cmdline (pid ∷ pids) =
    let rest = classify_all profiles cmdline pids in
    elim (classify_pid profiles cmdline pid) [ none ↦ rest | some r ↦ (pid, r) ∷ rest ]

unfoldable pub find_drift : List BrowserProfile → Cmdline → List Text → ProcessTable → Drift
find_drift profiles cmdline names table =
    let live = live_pids names in
    let existing = keys table in
    record {
      phantoms = difference existing live;
      new_records = classify_all profiles cmdline (difference live existing);
    }

-- The loops under the write lock: what is left, and how many entries were dropped.
unfoldable pub drop_phantoms : List ℕ → ProcessTable → ProcessTable × ℕ
drop_phantoms [] table = (table, 0)
drop_phantoms (pid ∷ pids) table =
    let (rest, dropped) = drop_phantoms pids (Map.remove pid table) in
    (rest, elim (Map.lookup pid table) [ none ↦ dropped | some r ↦ suc dropped ])

unfoldable pub insert_records : List (ℕ × ProcessRecord) → ProcessTable → ProcessTable
insert_records [] table = table
insert_records ((pid, r) ∷ rest) table = insert_records rest (Map.insert pid r table)

unfoldable pub correct_drift : Drift → ProcessTable → ProcessTable × ℕ × ℕ
correct_drift d table =
    let (kept, dropped) = drop_phantoms d.phantoms table in
    (insert_records d.new_records kept, length d.new_records, dropped)

-- `reseed_drift_correction`, with no event applied between its two locks; the table, and how many
-- entries were added and dropped.
unfoldable pub reseed_drift_correction :
    List BrowserProfile → ProcDir → ProcessTable → ProcessTable × ℕ × ℕ
reseed_drift_correction profiles proc table = elim proc.names [
  | none ↦ (table, 0, 0)
  | some names ↦ correct_drift (find_drift profiles proc.cmdline names table) table
]
