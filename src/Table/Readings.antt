-- ===== src/Table/Readings.antt =====
-- The table of daemon/src/process_table.rs over the events and the reconciliations together, and
-- what is known of one PID after them.
use bssl_ram.Prelude.{
  ℕ, ◌≡◌, refl, ap, ◌∙◌, Option, none, some, List, [], ◌∷◌, ◌++◌, map, if◌then◌else◌, nat_eq,
}
use bssl_ram.Prelude.Map
use bssl_ram.Prelude.Text.{Text}
use bssl_ram.Scanner.{BrowserProfile, ProcDir}
use bssl_ram.Table.Events.{is_about, outcome, lookup-apply_event}
use bssl_ram.Table.Reseed.{lookup-reseed}
use bssl_ram.Table.Targets.{
  IsTable, classify_pid-IsMatched, insert-IsTable, remove-IsTable, apply_event-IsTable,
}
use bssl_ram.Table.{
  ProcessRecord, ProcessTable, Cmdline, classify_pid, apply_event, apply_events, Arrival, contains,
  live_pids, classify_all, find_drift, drop_phantoms, insert_records, correct_drift,
  reseed_drift_correction,
}

-- An event, or a listing of /proc that the table is reconciled with.
pub data Reading : Type 0 where
  arrival : Arrival → Reading
  listing : ProcDir → Reading

module _ (profiles : List BrowserProfile) where
  unfoldable pub apply_readings : ProcessTable → List Reading → ProcessTable
  apply_readings t [] = t
  apply_readings t (arrival a ∷ rest) =
      apply_readings (apply_event profiles a.cmdline t a.event) rest
  apply_readings t (listing proc ∷ rest) =
      apply_readings (reseed_drift_correction profiles proc t).0 rest

  -- What is known of a PID: an exec or exit of the PID decides, and so does its absence from a
  -- listing; its presence in one decides only if nothing was known of it.
  abbrev pub known : ℕ → Option ProcessRecord → List Reading → Option ProcessRecord
  known pid before [] = before
  known pid before (arrival a ∷ rest) =
      known pid (if is_about profiles pid a.event then outcome profiles pid a else before) rest
  known pid before (listing proc ∷ rest) =
      known pid
        (elim proc.names [
          | none ↦ before
          | some names ↦
              if contains (live_pids names) pid
              then (elim before [ none ↦ classify_pid profiles proc.cmdline pid | some r ↦ some r ])
              else none
        ])
        rest

  pub lookup-apply_readings :
      (pid : ℕ) (t : ProcessTable) (readings : List Reading)
      → Map.lookup pid (apply_readings t readings) ≡ known pid (Map.lookup pid t) readings
  unfolding apply_readings
  lookup-apply_readings pid t [] = refl
  lookup-apply_readings pid t (arrival a ∷ rest) =
      lookup-apply_readings pid (apply_event profiles a.cmdline t a.event) rest
      ∙ ap (λ r. known pid r rest) (lookup-apply_event profiles pid a.cmdline t a.event)
  lookup-apply_readings pid t (listing proc ∷ rest) =
      lookup-apply_readings pid (reseed_drift_correction profiles proc t).0 rest
      ∙ ap (λ r. known pid r rest) (lookup-reseed profiles proc t pid)

  pub apply_readings-append :
      (t : ProcessTable) (xs ys : List Reading)
      → apply_readings t (xs ++ ys) ≡ apply_readings (apply_readings t xs) ys
  unfolding apply_readings
  apply_readings-append t [] ys = refl
  apply_readings-append t (arrival a ∷ xs) ys =
      apply_readings-append (apply_event profiles a.cmdline t a.event) xs ys
  apply_readings-append t (listing proc ∷ xs) ys =
      apply_readings-append (reseed_drift_correction profiles proc t).0 xs ys

  pub apply_readings-arrivals :
      (t : ProcessTable) (arrivals : List Arrival)
      → apply_readings t (map arrival arrivals) ≡ apply_events profiles t arrivals
  unfolding apply_readings apply_events
  apply_readings-arrivals t [] = refl
  apply_readings-arrivals t (a ∷ rest) =
      apply_readings-arrivals (apply_event profiles a.cmdline t a.event) rest

  drop_phantoms-IsTable :
      (pids : List ℕ) (t : ProcessTable)
      → IsTable profiles t
      → IsTable profiles (drop_phantoms pids t).0
  unfolding drop_phantoms
  drop_phantoms-IsTable [] t h = h
  drop_phantoms-IsTable (pid ∷ pids) t h =
      drop_phantoms-IsTable pids (Map.remove pid t) (remove-IsTable profiles pid t h)

  insert_records-IsTable :
      (cmdline : Cmdline) (pids : List ℕ) (t : ProcessTable)
      → IsTable profiles t
      → IsTable profiles (insert_records (classify_all profiles cmdline pids) t)
  unfolding insert_records classify_all
  insert_records-IsTable cmdline [] t h = h
  insert_records-IsTable cmdline (pid ∷ pids) t h =
      classified (λ t' h'. insert_records-IsTable cmdline pids t' h')
        (classify_pid profiles cmdline pid) refl
    where
      classified :
          ((t' : ProcessTable)
            → IsTable profiles t'
            → IsTable profiles (insert_records (classify_all profiles cmdline pids) t'))
          → (o : Option ProcessRecord) → classify_pid profiles cmdline pid ≡ o
          → IsTable profiles (
              insert_records
                (elim o [
                  | none ↦ classify_all profiles cmdline pids
                  | some r ↦ (pid, r) ∷ classify_all profiles cmdline pids
                ])
                t)
      classified rest none e = rest t h
      classified rest (some r) e =
          rest (Map.insert pid r t)
            (insert-IsTable profiles pid r t (classify_pid-IsMatched profiles cmdline pid r e) h)

  reseed-IsTable :
      (proc : ProcDir) (t : ProcessTable)
      → IsTable profiles t
      → IsTable profiles (reseed_drift_correction profiles proc t).0
  unfolding reseed_drift_correction correct_drift find_drift
  reseed-IsTable proc t h = listed proc.names
    where
      listed :
          (o : Option (List Text))
          → IsTable profiles
              (elim o as (λ _. ProcessTable × ℕ × ℕ) [
                | none ↦ (t, 0, 0)
                | some names ↦ correct_drift (find_drift profiles proc.cmdline names t) t
              ]).0
      listed none = h
      listed (some names) = insert_records-IsTable proc.cmdline _ _ (drop_phantoms-IsTable _ t h)

  pub apply_readings-IsTable :
      (t : ProcessTable) (readings : List Reading)
      → IsTable profiles t
      → IsTable profiles (apply_readings t readings)
  unfolding apply_readings
  apply_readings-IsTable t [] h = h
  apply_readings-IsTable t (arrival a ∷ rest) h =
      apply_readings-IsTable (apply_event profiles a.cmdline t a.event) rest
        (apply_event-IsTable profiles a.cmdline t a.event h)
  apply_readings-IsTable t (listing proc ∷ rest) h =
      apply_readings-IsTable (reseed_drift_correction profiles proc t).0 rest
        (reseed-IsTable proc t h)
