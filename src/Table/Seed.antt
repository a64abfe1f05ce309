-- ===== src/Table/Seed.antt =====
-- `seed_from_proc` of daemon/src/process_table.rs against `scan_targets` of daemon/src/scanner.rs:
-- the two ways in which the daemon finds its targets.
use bssl_ram.Prelude.{
  ℕ, ◌≡◌, refl, ap, ◌∙◌, ◌↔◌, inl, inr, true, Option, none, some, List, [], ◌∷◌, arith, ◌==◌,
  ==_iff, find, In, Bool-cases, Option-cases, nat_eq, if◌then◌else◌, ◌||◌,
}
use mathlib.Core.Path.{subst}
use bssl_ram.Prelude.Map
use bssl_ram.Prelude.Map.{lookup-insert, lookup-nil}
use bssl_ram.Prelude.Text
use bssl_ram.Prelude.Text.{Text}
use bssl_ram.Scanner.{
  BrowserProfile, TargetProcess, ProcDir, parse_pid, parse_cmdline, match_profile, classify,
  scan_entry, scan_entries, scan_targets,
}
use bssl_ram.Table.{
  ProcessRecord, ProcessTable, record_of, Cmdline, classify_pid, seed_entry, seed_entries,
  seed_from_proc, live_targets, contains, live_pids,
}
use bssl_ram.Table.Reseed.{or_class}
use bssl_ram.Table.Targets.{
  IsTable, empty-IsTable, insert-IsTable, classify_pid-IsMatched, live_targets_iff,
}

module _ (profiles : List BrowserProfile) (cmdline : Cmdline) where
  seed_entry-IsTable :
      (table : ProcessTable) (name : Text)
      → IsTable profiles table
      → IsTable profiles (seed_entry profiles cmdline table name)
  unfolding seed_entry
  seed_entry-IsTable table name h = elim (Option-cases (parse_pid name)) [
    | inl e ↦ subst (IsTable profiles) (ground (arith, e)) h
    | inr (pid, e) ↦ elim (Option-cases (classify_pid profiles cmdline pid)) [
      | inl c ↦ subst (IsTable profiles) (ground (arith, e, c)) h
      | inr (r, c) ↦
          subst (IsTable profiles) (ground (arith, e, c)) (
            insert-IsTable profiles pid r table (classify_pid-IsMatched profiles cmdline pid r c) h)
    ]
  ]

  seed_entries-IsTable :
      (table : ProcessTable) (names : List Text)
      → IsTable profiles table
      → IsTable profiles (seed_entries profiles cmdline table names)
  unfolding seed_entries
  seed_entries-IsTable table [] h = h
  seed_entries-IsTable table (name ∷ names) h =
      seed_entries-IsTable (seed_entry profiles cmdline table name) names
        (seed_entry-IsTable table name h)

  lookup-seed_entry :
      (table : ProcessTable) (name : Text) (pid : ℕ)
      → Map.lookup pid (seed_entry profiles cmdline table name) ≡ (
          if contains (live_pids (name ∷ [])) pid
          then or_class profiles cmdline pid (Map.lookup pid table)
          else Map.lookup pid table)
  unfolding seed_entry live_pids
  lookup-seed_entry table name pid = elim (Option-cases (parse_pid name)) [
    | inl e ↦ ground (arith, e)
    | inr (p, e) ↦ elim (Option-cases (classify_pid profiles cmdline p)) [
      | inl c ↦ ground (arith, e, c)
      | inr (r, c) ↦ ground (arith, e, c, lookup-insert p pid r table)
    ]
  ]

  contains-live_pids :
      (name : Text) (names : List Text) (pid : ℕ)
      → contains (live_pids (name ∷ names)) pid
        ≡ (contains (live_pids (name ∷ [])) pid || contains (live_pids names) pid)
  unfolding live_pids
  contains-live_pids name names pid = elim (Option-cases (parse_pid name)) [
    | inl e ↦ ground (arith, e)
    | inr (p, e) ↦ elim (Bool-cases (p == pid)) [
      | inl same ↦ ground (arith, e, ap (contains (live_pids names)) ((==_iff p pid).0 same))
      | inr other ↦ ground (arith, e)
    ]
  ]

  lookup-seed_entries :
      (table : ProcessTable) (names : List Text) (pid : ℕ)
      → Map.lookup pid (seed_entries profiles cmdline table names) ≡ (
          if contains (live_pids names) pid
          then or_class profiles cmdline pid (Map.lookup pid table)
          else Map.lookup pid table)
  unfolding seed_entries live_pids
  lookup-seed_entries table [] pid = refl
  lookup-seed_entries table (name ∷ names) pid = ground (
    arith,
    lookup-seed_entries (seed_entry profiles cmdline table name) names pid,
    lookup-seed_entry table name pid,
    contains-live_pids name names pid,
  )

  -- A listed PID, and the profile of its command line.
  abbrev IsListed : List Text → TargetProcess → Type 0
  IsListed names tp =
      (contains (live_pids names) tp.pid ≡ true)
      × (classify_pid profiles cmdline tp.pid ≡ some (record { profile_name = some tp.profile }))

  -- An empty command line belongs to no profile.
  find-empty : (ps : List BrowserProfile) → find (λ p. match_profile (parse_cmdline []) p) ps ≡ none
  unfolding match_profile parse_cmdline Text.split_whitespace
  find-empty [] = refl
  find-empty (p ∷ ps) = find-empty ps

  classify_pid_lem :
      (pid : ℕ) (raw : List ℕ)
      → cmdline pid ≡ some raw
      → classify_pid profiles cmdline pid
        ≡ elim (classify profiles raw) [ none ↦ none | some p ↦ some (record_of p) ]
  unfolding classify_pid classify
  classify_pid_lem pid [] e = ground (arith, e, find-empty profiles)
  classify_pid_lem pid (b ∷ raw) e = ground (arith, e)

  module _ (listing : Option (List Text)) (tp : TargetProcess) where
    abbrev proc : ProcDir
    proc = record { names = listing; cmdline = cmdline }

    scan_entry_iff :
        (name : Text) → (scan_entry profiles proc name ≡ some tp) ↔ IsListed (name ∷ []) tp
    unfolding scan_entry live_pids classify_pid
    scan_entry_iff name = elim (Option-cases (parse_pid name)) [
      | inl e ↦ ground (arith, e)
      | inr (pid, e) ↦ elim (Bool-cases (pid == tp.pid)) [
        | inl same ↦
            let named : parse_pid name ≡ some tp.pid = e ∙ ap some ((==_iff pid tp.pid).0 same) in
            elim (Option-cases (cmdline tp.pid)) [
              | inl unread ↦ ground (arith, named, unread)
              | inr (raw, read) ↦ ground (arith, named, read, classify_pid_lem tp.pid raw read)
            ]
        | inr other ↦ elim (Option-cases (cmdline pid)) [
          | inl unread ↦ ground (arith, e, unread)
          | inr (raw, read) ↦ ground (arith, e, read, other)
        ]
      ]
    ]

    scan_entries_iff :
        (names : List Text) → In tp (scan_entries profiles proc names) ↔ IsListed names tp
    unfolding scan_entries live_pids
    scan_entries_iff [] = ground arith
    scan_entries_iff (name ∷ names) =
        ground
          (arith, scan_entry_iff name, scan_entries_iff names, contains-live_pids name names tp.pid)

    seed_entries_iff :
        (names : List Text)
        → In tp (live_targets (seed_entries profiles cmdline [] names)) ↔ IsListed names tp
    seed_entries_iff names = ground (
      arith,
      live_targets_iff (seed_entries profiles cmdline [] names) tp
          (seed_entries-IsTable [] names (empty-IsTable profiles)).distinct,
      lookup-seed_entries [] names tp.pid,
      lookup-nil {V = ProcessRecord} tp.pid,
    )

-- The table that is seeded from /proc when it is empty reports exactly the targets that a walk over
-- the same /proc finds, if the two read the same names and the same command lines.
pub live_targets-seed_from_proc :
    (profiles : List BrowserProfile) (proc : ProcDir) (tp : TargetProcess)
    → In tp (live_targets (seed_from_proc profiles proc [])) ↔ In tp (scan_targets profiles proc)
unfolding seed_from_proc scan_targets live_targets
live_targets-seed_from_proc profiles proc tp = elim (Option-cases proc.names) [
  | inl e ↦ ground (arith, e)
  | inr (names, e) ↦ ground (
    arith,
    e,
    seed_entries_iff profiles proc.cmdline proc.names tp names,
    scan_entries_iff profiles proc.cmdline proc.names tp names,
  )
]
