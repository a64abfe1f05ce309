-- ===== src/Daemon/Targets.antt =====
-- From the events of the kernel to the system calls: the processes that the main loop of
-- daemon/src/main.rs opens, by what the table of daemon/src/process_table.rs was told of them.
use bssl_ram.Prelude.{
  ℕ, ◌≡◌, sym, ap, ◌∙◌, false, inl, inr, some, List, [], ◌∷◌, ◌++◌, map, In, if◌then◌else◌, arith,
  if-elim, nat_eq, suc,
}
use mathlib.Core.Path.{subst}
use bssl_ram.Prelude.Map
use bssl_ram.Prelude.Text.{Text}
use bssl_ram.Prelude.Words.{add_u64}
use bssl_ram.Compressor.{opened}
use bssl_ram.Config.{Config}
use bssl_ram.Cycle.{Moment}
use bssl_ram.Cycle.Targets.{scan_cycle-opened}
use bssl_ram.Daemon.{
  Daemon, Scene, Wake, timer, psi_pressure, sigint, sigterm, collect_targets, with_moments, is_due,
  map_table, follow_events, maybe_reseed, scan, maybe_emit, on_timer, on_psi, on_signal, run,
}
use bssl_ram.Daemon.Loop.{on_timer-counts, on_psi-counts}
use bssl_ram.Scanner.{TargetProcess}
use bssl_ram.Table.{ProcessTable, apply_events, reseed_drift_correction}
use bssl_ram.Table.Readings.{
  Reading, arrival, listing, known, apply_readings, lookup-apply_readings, apply_readings-append,
  apply_readings-arrivals, apply_readings-IsTable,
}
use bssl_ram.Table.Targets.{IsTable, live_targets_iff}

-- What a wake tells the table, in the order in which the daemon takes it in.
abbrev pub timer_readings : Config → ℕ → Scene → List Reading
timer_readings config cycle s =
    map arrival s.events
    ++ (if is_due config.cn_proc_reseed_every_n_cycles (add_u64 cycle 1)
        then listing s.reseed_proc ∷ []
        else [])

abbrev pub readings : Config → ℕ → List Wake → List Reading
readings config cycle [] = []
readings config cycle (timer s ∷ wakes) =
    timer_readings config cycle s ++ readings config (add_u64 cycle 1) wakes
readings config cycle (psi_pressure s ∷ wakes) =
    map arrival s.events ++ readings config (add_u64 cycle 1) wakes
readings config cycle (sigint ∷ wakes) = []
readings config cycle (sigterm ∷ wakes) = []

with_moments-In :
    (moment_of : ℕ → Moment) (i : ℕ) (targets : List TargetProcess) (t : TargetProcess × Moment)
    → In t (with_moments moment_of i targets)
    → In t.0 targets
unfolding with_moments
with_moments-In moment_of i [] t there = elim there [ ]
with_moments-In moment_of i (tab ∷ targets) t (inl e) = inl (ap (λ x. x.0) e)
with_moments-In moment_of i (tab ∷ targets) t (inr there) =
    inr (with_moments-In moment_of (suc i) targets t there)

module _ (config : Config) where
  -- The table names a profile for the PID, and the run is a real one.
  abbrev MayOpen : ProcessTable → ℕ → Type 0
  MayOpen t pid =
      (config.dry_run ≡ false)
      × (profile : Text) × (Map.lookup pid t ≡ some (record { profile_name = some profile }))

  -- The daemon has this table, and opened only what stands in it in its last cycle.
  record IsServed (t : ProcessTable) (d : Daemon) : Type 0 where
    in_use : d.process_table ≡ some t
    table : IsTable config.profiles t
    calls : (pid : ℕ) → In (opened pid) d.state.calls → MayOpen t pid

  scan-IsServed :
      (t : ProcessTable) (d : Daemon) (s : Scene)
      → d.process_table ≡ some t
      → IsTable config.profiles t
      → IsServed t (scan config d s)
  unfolding scan collect_targets
  scan-IsServed t d s e h = record {
    in_use = e;
    table = h;
    calls = λ pid i.
        let (live, target, there, same) =
          scan_cycle-opened config pid d.state
            (with_moments s.moment_of 0 (collect_targets d.process_table config s.walk_proc)) i in
        let tab = target.0 in
        let listed =
          subst (λ o. In tab (collect_targets o config s.walk_proc)) e
            (with_moments-In s.moment_of 0 _ target there) in
        (
          live,
          tab.profile,
          ap (λ p. Map.lookup p t) same ∙ (live_targets_iff t tab h.distinct).0 listed,
        );
  }

  maybe_reseed-table :
      (t : ProcessTable) (d : Daemon) (s : Scene)
      → d.process_table ≡ some t
      → (maybe_reseed config d s).process_table
        ≡ some (
            apply_readings config.profiles t (
              if is_due config.cn_proc_reseed_every_n_cycles d.cycle
              then listing s.reseed_proc ∷ []
              else []))
  unfolding maybe_reseed apply_readings
  maybe_reseed-table t d s e = ground (
    arith,
    e,
    ap (map_table (λ t. (reseed_drift_correction config.profiles s.reseed_proc t).0)) e,
  )

  maybe_emit-IsServed :
      (t : ProcessTable) (d : Daemon) → IsServed t d → IsServed t (maybe_emit config d)
  unfolding maybe_emit
  maybe_emit-IsServed t d h =
      if-elim (λ x. IsServed t x) (is_due config.telemetry_interval_cycles d.cycle)
        (λ _. record { in_use = h.in_use; table = h.table; calls = h.calls }) (λ _. h)

  follow_events-table :
      (t : ProcessTable) (d : Daemon) (s : Scene)
      → d.process_table ≡ some t
      → (follow_events config d s).process_table
        ≡ some (apply_readings config.profiles t (map arrival s.events))
  unfolding follow_events
  follow_events-table t d s e =
      ap (map_table (λ t. apply_events config.profiles t s.events)) e
      ∙ ap some (sym (apply_readings-arrivals config.profiles t s.events))

  on_timer-IsServed :
      (t : ProcessTable) (d : Daemon) (s : Scene)
      → IsServed t d
      → IsServed
          (apply_readings config.profiles t (timer_readings config d.cycle s))
          (on_timer config d s)
  unfolding on_timer
  on_timer-IsServed t d s h =
      let d0 : Daemon = record (follow_events config d s) { cycle = add_u64 d.cycle 1 } in
      let told = map arrival s.events in
      let reseed =
        if is_due config.cn_proc_reseed_every_n_cycles (add_u64 d.cycle 1)
        then listing s.reseed_proc ∷ []
        else [] in
      let followed = follow_events-table t d s h.in_use in
      let in_use = maybe_reseed-table (apply_readings config.profiles t told) d0 s followed in
      let joined = apply_readings-append config.profiles t told reseed in
      maybe_emit-IsServed _ _ (
        scan-IsServed (apply_readings config.profiles t (timer_readings config d.cycle s))
          (maybe_reseed config d0 s) s (in_use ∙ ap some (sym joined))
          (apply_readings-IsTable config.profiles t _ h.table))

  on_psi-IsServed :
      (t : ProcessTable) (d : Daemon) (s : Scene)
      → IsServed t d
      → IsServed (apply_readings config.profiles t (map arrival s.events)) (on_psi config d s)
  unfolding on_psi
  on_psi-IsServed t d s h =
      scan-IsServed (apply_readings config.profiles t (map arrival s.events)) _ s
        (follow_events-table t d s h.in_use)
        (apply_readings-IsTable config.profiles t (map arrival s.events) h.table)

  -- The readings of a cycle and those of the cycles after it.
  step :
      (t : ProcessTable) (d : Daemon) (told : List Reading) (d' : Daemon) (wakes : List Wake)
      → d'.cycle ≡ add_u64 d.cycle 1
      → IsServed
          (apply_readings config.profiles
            (apply_readings config.profiles t told)
            (readings config d'.cycle wakes))
          (run config d' wakes)
      → IsServed
          (apply_readings config.profiles t (told ++ readings config (add_u64 d.cycle 1) wakes))
          (run config d' wakes)
  step t d told d' wakes counted h =
      subst (λ x. IsServed x (run config d' wakes))
        (sym (apply_readings-append config.profiles t told (readings config d'.cycle wakes))
          ∙ ap (λ n. apply_readings config.profiles t (told ++ readings config n wakes)) counted)
        h

  run-IsServed :
      (t : ProcessTable) (d : Daemon) (wakes : List Wake)
      → IsServed t d
      → IsServed
          (apply_readings config.profiles t (readings config d.cycle wakes))
          (run config d wakes)
  unfolding run on_signal
  run-IsServed t d [] h = unfold apply_readings in h
  run-IsServed t d (timer s ∷ wakes) h =
      step t d (timer_readings config d.cycle s) (on_timer config d s) wakes
        (ap (λ c. c.2) (on_timer-counts config d s))
        (run-IsServed (apply_readings config.profiles t (timer_readings config d.cycle s))
          (on_timer config d s) wakes (on_timer-IsServed t d s h))
  run-IsServed t d (psi_pressure s ∷ wakes) h =
      step t d (map arrival s.events) (on_psi config d s) wakes
        (ap (λ c. c.2) (on_psi-counts config d s))
        (run-IsServed (apply_readings config.profiles t (map arrival s.events)) (on_psi config d s)
          wakes (on_psi-IsServed t d s h))
  run-IsServed t d (sigint ∷ wakes) h =
      unfold apply_readings in record { in_use = h.in_use; table = h.table; calls = h.calls }
  run-IsServed t d (sigterm ∷ wakes) h =
      unfold apply_readings in record { in_use = h.in_use; table = h.table; calls = h.calls }

  -- From a daemon that has a well-formed table and has made no system call yet, whatever wakes the
  -- loop: a process is opened in the last cycle only in a real run, and only if the record that is
  -- known of its PID by then names a profile. What is known starts with the table's record: an exec
  -- of the PID leaves the profile that its command line matches, or nothing; an exit leaves
  -- nothing; a reconciliation that can list /proc leaves nothing if it does not list the PID, and
  -- otherwise, where nothing was known, the profile that its command line matches.
  pub run-opened :
      (t : ProcessTable) (d : Daemon) (wakes : List Wake) (pid : ℕ)
      → d.process_table ≡ some t
      → IsTable config.profiles t
      → d.state.calls ≡ []
      → In (opened pid) (run config d wakes).state.calls
      → (config.dry_run ≡ false)
        × (profile : Text) × (known config.profiles pid
              (Map.lookup pid t)
              (readings config d.cycle wakes)
            ≡ some (record { profile_name = some profile }))
  run-opened t d wakes pid e h quiet i =
      let served =
        run-IsServed t d wakes (record {
          in_use = e;
          table = h;
          calls = λ p j. absurd (subst (In (opened p)) quiet j);
        }) in
      let (live, profile, found) = served.calls pid i in
      (
        live,
        profile,
        sym (lookup-apply_readings config.profiles pid t (readings config d.cycle wakes)) ∙ found,
      )
