-- ===== src/Cycle/Targets.antt =====
-- Which processes `scan_cycle` (daemon/src/main.rs) makes system calls for.
use bssl_ram.Prelude.{
  ℕ, ◌≡◌, refl, ◌⊎◌, inl, inr, false, Option, none, some, List, [], ◌∷◌, length, In, In-append,
}
use mathlib.Core.Path.{subst}
use bssl_ram.Compressor.{opened, compress_pid}
use bssl_ram.Compressor.Outcome.{compress_pid-opened}
use bssl_ram.Config.{Config}
use bssl_ram.Cycle.{
  Moment, State, meet, drop_exited, update_tracker, after_snapshot, visit, visit_all, begin_cycle,
  scan_cycle,
}
use bssl_ram.Cycle.Gates.{check_gates-cases}
use bssl_ram.Scanner.{TargetProcess}
use bssl_ram.Tracker.{ProcSnapshot}

module _ (config : Config) (p : ℕ) where
  -- A process is opened in a real run only, for a target that has its PID.
  abbrev IsOpened : ℕ → Type 0
  IsOpened pid = (config.dry_run ≡ false) × (p ≡ pid)

  after_snapshot-opened :
      (st : State) (m : Moment) (tab : TargetProcess) (o : Option ProcSnapshot)
      → In (opened p) (after_snapshot config st m tab o).calls
      → In (opened p) st.calls ⊎ IsOpened tab.pid
  unfolding after_snapshot drop_exited update_tracker
  after_snapshot-opened st m tab none i = inl i
  after_snapshot-opened st m tab (some snap) i =
      let (st', is_idle) = update_tracker config st snap in
      elim (check_gates-cases config st' m tab is_idle) [
        | inl skip ↦ inl (subst (In (opened p)) skip.calls i)
        | inr (allowed, try) ↦
            let made = (compress_pid m.kernel tab.pid config.dry_run).1 in
            elim ((In-append (opened p) st.calls made).0 (subst (In (opened p)) try.calls i)) [
              | inl before ↦ inl before
              | inr now ↦ inr (compress_pid-opened m.kernel tab.pid config.dry_run p now)
            ]
      ]

  visit_all-opened :
      (st : State) (targets : List (TargetProcess × Moment))
      → In (opened p) (visit_all config st targets).calls
      → In (opened p) st.calls
        ⊎ ((config.dry_run ≡ false) × (t : TargetProcess × Moment) × In t targets × (p ≡ t.0.pid))
  unfolding visit_all
  visit_all-opened st [] i = inl i
  visit_all-opened st ((tab, m) ∷ targets) i =
      elim (visit_all-opened (visit config st (tab, m)) targets i) [
        | inl before ↦ elim (visit-opened before) [
          | inl earlier ↦ inl earlier
          | inr (live, same) ↦ inr (live, (tab, m), inl refl, same)
        ]
        | inr (live, t, there, same) ↦ inr (live, t, inr there, same)
      ]
    where
      visit-opened :
          In (opened p) (visit config st (tab, m)).calls → In (opened p) st.calls ⊎ IsOpened tab.pid
      visit-opened i = unfold visit meet in after_snapshot-opened (meet st m tab.pid) m tab _ i

  -- A cycle opens a process only in a real run, and only one that is among its targets.
  pub scan_cycle-opened :
      (st : State) (targets : List (TargetProcess × Moment))
      → In (opened p) (scan_cycle config st targets).calls
      → (config.dry_run ≡ false) × (t : TargetProcess × Moment) × In t targets × (p ≡ t.0.pid)
  unfolding scan_cycle begin_cycle
  scan_cycle-opened st targets i =
      elim (visit_all-opened (begin_cycle st (length targets)) targets i) [
        | inl before ↦ absurd before
        | inr found ↦ found
      ]
