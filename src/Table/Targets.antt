-- ===== src/Table/Targets.antt =====
-- The invariant of the table of daemon/src/process_table.rs, and `live_targets`: each entry is a
-- process that matched one of the profiles, and is reported under its name.
use bssl_ram.Prelude.{
  ℕ, ◌≡◌, refl, ap, ◌∙◌, ◌↔◌, Bool, Bool-cases, Option-cases, inl, inr, Option, none, some, List,
  [], ◌∷◌, arith, ◌==◌, In, find, nat_eq,
}
use bssl_ram.Prelude.Map
use bssl_ram.Prelude.Map.{lookup-insert, lookup-nil, lookup-remove}
use bssl_ram.Prelude.Map.Size.{NodupKeys, insert-NodupKeys, remove-NodupKeys}
use bssl_ram.Scanner.{BrowserProfile, TargetProcess, match_profile, parse_cmdline}
use bssl_ram.Connector.{ProcEvent, fork, exec, exit}
use bssl_ram.Table.Events.{delivered, last_about, outcome, lookup-run_event_loop}
use bssl_ram.Table.{
  ProcessRecord, ProcessTable, record_of, Cmdline, classify_pid, apply_event, apply_events, Arrival,
  Turn, shut_down, received, failed, run_event_loop, live_target, live_targets,
}

-- The record names one of the profiles.
abbrev pub IsMatched : List BrowserProfile → ProcessRecord → Type 0
IsMatched profiles r = (p : BrowserProfile) × In p profiles × (r ≡ record_of p)

-- No PID stands twice, and every record names a profile.
pub record IsTable (profiles : List BrowserProfile) (t : ProcessTable) : Type 0 where
  pub distinct : NodupKeys t
  pub matched : (pid : ℕ) (r : ProcessRecord) → Map.lookup pid t ≡ some r → IsMatched profiles r

find-In : {A : Type 0} (test : A → Bool) (xs : List A) (x : A) → find test xs ≡ some x → In x xs
find-In test [] x h = cc
find-In test (y ∷ ys) x h = elim (Bool-cases (test y)) [
  | inl hit ↦ inl (ground arith)
  | inr miss ↦ inr (find-In test ys x (ground arith))
]

module _ (profiles : List BrowserProfile) where
  pub classify_pid-IsMatched :
      (cmdline : Cmdline) (pid : ℕ) (r : ProcessRecord)
      → classify_pid profiles cmdline pid ≡ some r
      → IsMatched profiles r
  unfolding classify_pid
  classify_pid-IsMatched cmdline pid r h = elim (Option-cases (cmdline pid)) [
    | inl e ↦ absurd (ground arith)
    | inr (raw, read) ↦
        elim (Option-cases (find (λ p. match_profile (parse_cmdline raw) p) profiles)) [
          | inl e ↦ absurd (ground arith)
          | inr (p, found) ↦
              (p, find-In (λ p. match_profile (parse_cmdline raw) p) profiles p found, ground arith)
        ]
  ]

  pub remove-IsTable :
      (pid : ℕ) (t : ProcessTable) → IsTable profiles t → IsTable profiles (Map.remove pid t)
  remove-IsTable pid t h = record {
    distinct = remove-NodupKeys pid t h.distinct;
    matched = λ j r e. h.matched j r (ground (arith, lookup-remove pid j t));
  }

  pub insert-IsTable :
      (pid : ℕ) (r : ProcessRecord) (t : ProcessTable)
      → IsMatched profiles r
      → IsTable profiles t
      → IsTable profiles (Map.insert pid r t)
  insert-IsTable pid r t m h = record {
    distinct = insert-NodupKeys pid r t h.distinct;
    matched = λ j s e. elim (Bool-cases (pid == j)) [
      | inl same ↦ (m.0, m.1, ground (arith, lookup-insert pid j r t, m.2))
      | inr other ↦ h.matched j s (ground (arith, lookup-insert pid j r t))
    ];
  }

  pub apply_event-IsTable :
      (cmdline : Cmdline) (t : ProcessTable) (event : ProcEvent)
      → IsTable profiles t
      → IsTable profiles (apply_event profiles cmdline t event)
  unfolding apply_event
  apply_event-IsTable cmdline t (fork parent child) h = h
  apply_event-IsTable cmdline t (exec pid) h = classified (classify_pid profiles cmdline pid) refl
    where
      classified :
          (o : Option ProcessRecord)
          → classify_pid profiles cmdline pid ≡ o
          → IsTable profiles (elim o [ none ↦ Map.remove pid t | some r ↦ Map.insert pid r t ])
      classified none e = remove-IsTable pid t h
      classified (some r) e = insert-IsTable pid r t (classify_pid-IsMatched cmdline pid r e) h
  apply_event-IsTable cmdline t (exit pid) h = remove-IsTable pid t h

  apply_events-IsTable :
      (t : ProcessTable) (arrivals : List Arrival)
      → IsTable profiles t
      → IsTable profiles (apply_events profiles t arrivals)
  unfolding apply_events
  apply_events-IsTable t [] h = h
  apply_events-IsTable t (a ∷ rest) h =
      apply_events-IsTable (apply_event profiles a.cmdline t a.event) rest
        (apply_event-IsTable a.cmdline t a.event h)

  -- The reader thread keeps the table's invariant: no PID stands twice, and every record names one
  -- of the profiles, so no unmatched process is tracked.
  pub run_event_loop-IsTable :
      (t : ProcessTable) (turns : List Turn)
      → IsTable profiles t
      → IsTable profiles (run_event_loop profiles t turns)
  unfolding run_event_loop
  run_event_loop-IsTable t [] h = h
  run_event_loop-IsTable t (shut_down ∷ rest) h = h
  run_event_loop-IsTable t (received events ∷ rest) h =
      run_event_loop-IsTable (apply_events profiles t events) rest (apply_events-IsTable t events h)
  run_event_loop-IsTable t (failed ∷ rest) h = run_event_loop-IsTable t rest h

pub empty-IsTable : (profiles : List BrowserProfile) → IsTable profiles []
empty-IsTable profiles = record {
  distinct = tt;
  matched = λ pid r e. absurd (cc (e, lookup-nil {V = ProcessRecord} pid));
}

-- The targets reported are exactly the entries that name a profile.
pub live_targets_iff :
    (t : ProcessTable) (tp : TargetProcess)
    → NodupKeys t
    → In tp (live_targets t)
      ↔ (Map.lookup tp.pid t ≡ some (record { profile_name = some tp.profile }))
unfolding live_targets Map.lookup live_target
live_targets_iff [] tp h = ground arith
live_targets_iff ((pid, r) ∷ t) tp h = ground (arith, live_targets_iff t tp h.1)

-- From an empty table, after any turns of the reader thread, a target is reported exactly when the
-- last exec or exit of its PID was an exec, and the command line read then belongs to the profile.
pub live_targets-run_event_loop :
    (profiles : List BrowserProfile) (turns : List Turn) (tp : TargetProcess)
    → In tp (live_targets (run_event_loop profiles [] turns)) ↔ (
        elim (last_about profiles tp.pid (delivered turns)) [
          | none ↦ none
          | some a ↦ outcome profiles tp.pid a
        ]
        ≡ some (record { profile_name = some tp.profile }))
live_targets-run_event_loop profiles turns tp =
    let distinct = (run_event_loop-IsTable profiles [] turns (empty-IsTable profiles)).distinct in
    rw (← at_empty) (live_targets_iff (run_event_loop profiles [] turns) tp distinct)
  where
    at_empty :
        Map.lookup tp.pid (run_event_loop profiles [] turns)
        ≡ elim (last_about profiles tp.pid (delivered turns)) [
          | none ↦ none
          | some a ↦ outcome profiles tp.pid a
        ]
    at_empty =
        lookup-run_event_loop profiles tp.pid [] turns
        ∙ ap
            (λ before. elim (last_about profiles tp.pid (delivered turns)) [
              | none ↦ before
              | some a ↦ outcome profiles tp.pid a
            ])
            (lookup-nil {V = ProcessRecord} tp.pid)
