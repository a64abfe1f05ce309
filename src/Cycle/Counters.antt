-- ===== src/Cycle/Counters.antt =====
-- The log and the counters of `scan_cycle` (daemon/src/main.rs) agree.
use bssl_ram.Prelude.{ℕ, ◌+◌, ◌%◌, ◌≡◌, refl, sym, ap, ◌∙◌, List, [], ◌∷◌, ◌++◌, map, length}
use mathlib.Core.List.{append_assoc, append-nil}
use bssl_ram.Prelude.Words.{u64_mod}
use bssl_ram.Config.{Config}
use bssl_ram.Cycle.{Action, Moment, State, meet, visit, visit_all, begin_cycle, scan_cycle}
use bssl_ram.Scanner.{TargetProcess}
use bssl_ram.Cycle.Steps.{tally, others, IsStep, after_snapshot-IsStep}

-- The lines and the counters of a run of targets.
record Run (before : State) (pids : List ℕ) (after : State) : Type 0 where
  entries : List (ℕ × Action)
  entry_pids : map (λ e. e.0) entries ≡ pids
  log : after.log ≡ before.log ++ entries
  tallied :
      (rest : List Action)
      → tally after.stats rest ≡ tally before.stats (map (λ e. e.1) entries ++ rest)
  others : others after.stats ≡ others before.stats

abbrev target_pids : List (TargetProcess × Moment) → List ℕ
target_pids = map (λ t. t.0.pid)

Run-cons :
    (before met mid after : State) (pid : ℕ) (pids : List ℕ)
    → met.log ≡ before.log
    → met.stats ≡ before.stats
    → IsStep met pid mid
    → Run mid pids after
    → Run before (pid ∷ pids) after
unfolding IsStep
Run-cons before met mid after pid pids e_log e_stats step run = record {
  entries = (pid, step.action) ∷ run.entries;
  entry_pids = ap (◌∷◌ pid) run.entry_pids;
  log =
      run.log
      ∙ ap (λ l. l ++ run.entries) (step.log ∙ ap (λ l. l ++ (pid, step.action) ∷ []) e_log)
      ∙ append_assoc before.log ((pid, step.action) ∷ []) run.entries;
  tallied = λ rest.
      let later = map (λ e. e.1) run.entries ++ rest in
      run.tallied rest ∙ step.tallied later ∙ ap (λ s. tally s (step.action ∷ later)) e_stats;
  others = run.others ∙ step.others ∙ ap others e_stats;
}

visit_all-Run :
    (config : Config) (st : State) (targets : List (TargetProcess × Moment))
    → Run st (target_pids targets) (visit_all config st targets)
unfolding visit_all visit meet
visit_all-Run config st [] = record {
  entries = [];
  entry_pids = refl;
  log = sym (append-nil st.log);
  tallied = λ rest. refl;
  others = refl;
}
visit_all-Run config st ((tab, m) ∷ targets) =
    let st' = meet st m tab.pid in
    Run-cons st st' _ _ tab.pid (target_pids targets) refl refl
      (after_snapshot-IsStep config st' m tab _)
      (visit_all-Run config (visit config st (tab, m)) targets)

-- A cycle writes one line for each target, in their order, and the counters move by exactly these
-- lines, as u64: each kind of skip by its lines, `compressions` by the compressions, `errors` by
-- the incomplete and the failed ones, `scans` by one, `targets_seen` by the number of targets, and
-- `psi_events` not at all.
pub scan_cycle-tally :
    (config : Config) (st : State) (targets : List (TargetProcess × Moment))
    → (map (λ e. e.0) (scan_cycle config st targets).log ≡ map (λ t. t.0.pid) targets)
      × (tally (scan_cycle config st targets).stats []
          ≡ tally st.stats (map (λ e. e.1) (scan_cycle config st targets).log))
      × ((scan_cycle config st targets).stats.scans ≡ (st.stats.scans + 1) % u64_mod)
      × ((scan_cycle config st targets).stats.targets_seen
          ≡ (st.stats.targets_seen + length targets) % u64_mod)
      × ((scan_cycle config st targets).stats.psi_events ≡ st.stats.psi_events)
unfolding scan_cycle begin_cycle
scan_cycle-tally config st targets =
    let run = visit_all-Run config (begin_cycle st (length targets)) targets in
    (
      ap (map (λ e. e.0)) run.log ∙ run.entry_pids,
      run.tallied [] ∙ ap (tally st.stats) (append-nil _ ∙ sym (ap (map (λ e. e.1)) run.log)),
      ap (λ o. o.0) run.others,
      ap (λ o. o.1) run.others,
      ap (λ o. o.2) run.others,
    )
