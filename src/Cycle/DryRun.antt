-- ===== src/Cycle/DryRun.antt =====
-- `scan_cycle` (daemon/src/main.rs) under `dry_run`.
use bssl_ram.Prelude.{
  ℕ, ◌≡◌, refl, sym, ap, ◌∙◌, Bool, true, false, not, Option, none, some, List, [], ◌∷◌, ◌++◌,
  length, arith, if-elim, ltb,
}
use mathlib.Core.List.{append-nil}
use bssl_ram.Compressor.{CompressOutcome, Call, is_real_success, compress_pid, rss_mib}
use bssl_ram.Compressor.Outcome.{compress_pid_dry}
use bssl_ram.Config.{Config}
use bssl_ram.Cycle.{
  Moment, State, record_outcome, try_compress, after_veto, check_signals, check_gates, meet,
  drop_exited, update_tracker, after_snapshot, visit, visit_all, begin_cycle, scan_cycle,
}
use bssl_ram.Scanner.{TargetProcess}
use bssl_ram.Signals.{SignalStore, ProfileVeto, profile_veto_at}
use bssl_ram.Tracker
use bssl_ram.Tracker.{ProcSnapshot}

-- What a page-out leaves behind.
abbrev pub effects : State → List Call × ℕ × ℕ × ℕ
effects st =
    (st.calls, st.stats.compressions, st.stats.bytes_paged_out, st.stats.bytes_skipped_by_kernel)

record_outcome-effects :
    (st : State) (pid : ℕ) (o : Option CompressOutcome)
    → ((x : CompressOutcome) → o ≡ some x → is_real_success x ≡ false)
    → effects (record_outcome st pid o) ≡ effects st
unfolding record_outcome
record_outcome-effects st pid none h = refl
record_outcome-effects st pid (some x) h =
    if-elim (λ s. effects s ≡ effects st) (is_real_success x)
      (λ real. absurd (ground (arith, real, h x refl)))
      (λ _. if-elim (λ s. effects s ≡ effects st) x.was_dry_run (λ _. refl) (λ _. refl))

module _ (config : Config) (dry : config.dry_run ≡ true) where
  try_compress-effects :
      (st : State) (m : Moment) (pid : ℕ) → effects (try_compress config st m pid) ≡ effects st
  unfolding try_compress
  try_compress-effects st m pid =
      let (result, calls) = compress_pid m.kernel pid config.dry_run in
      let same = ap (compress_pid m.kernel pid) dry in
      let (no_calls, no_success) = compress_pid_dry m.kernel pid in
      record_outcome-effects (record st { calls = st.calls ++ calls }) pid result
        (λ x e. (no_success x (sym (ap (λ r. r.0) same) ∙ e)).0)
      ∙ ap (λ c. (c, (effects st).1, (effects st).2, (effects st).3))
          (ap (◌++◌ st.calls) (ap (λ r. r.1) same ∙ no_calls) ∙ append-nil st.calls)

  after_veto-effects :
      (st : State) (m : Moment) (tab : TargetProcess) (veto : Option ProfileVeto)
      → effects (after_veto config st m tab veto) ≡ effects st
  unfolding after_veto
  after_veto-effects st m tab none = try_compress-effects st m tab.pid
  after_veto-effects st m tab (some v) = refl

  check_signals-effects :
      (st : State) (m : Moment) (tab : TargetProcess) (o : Option SignalStore)
      → effects (check_signals config st m tab o) ≡ effects st
  unfolding check_signals
  check_signals-effects st m tab none = try_compress-effects st m tab.pid
  check_signals-effects st m tab (some store) =
      let (store', veto) = profile_veto_at store tab.profile m.now m.now_wall_ms in
      after_veto-effects (record st { signal_store = some store' }) m tab veto

  check_gates-effects :
      (st : State) (m : Moment) (tab : TargetProcess) (is_idle : Bool)
      → effects (check_gates config st m tab is_idle) ≡ effects st
  unfolding check_gates
  check_gates-effects st m tab is_idle =
      let pid = tab.pid in
      if-elim Same (not is_idle) (λ _. refl)
        (λ _.
          if-elim Same (ltb (Tracker.idle_cycles st.tracker pid) config.idle_cycles_threshold)
            (λ _. refl)
            (λ _.
              if-elim Same (Tracker.is_compressed st.tracker pid) (λ _. refl)
                (λ _.
                  if-elim Same (ltb (rss_mib (m.smaps_rollup pid)) config.min_rss_mib) (λ _. refl)
                    (λ _. check_signals-effects st m tab st.signal_store))))
    where
      Same : State → Type 0
      Same s = effects s ≡ effects st

  after_snapshot-effects :
      (st : State) (m : Moment) (tab : TargetProcess) (o : Option ProcSnapshot)
      → effects (after_snapshot config st m tab o) ≡ effects st
  unfolding after_snapshot drop_exited update_tracker
  after_snapshot-effects st m tab none = refl
  after_snapshot-effects st m tab (some snap) =
      let (st', is_idle) = update_tracker config st snap in check_gates-effects st' m tab is_idle

  visit_all-effects :
      (targets : List (TargetProcess × Moment)) (st : State)
      → effects (visit_all config st targets) ≡ effects st
  unfolding visit_all visit meet
  visit_all-effects [] st = refl
  visit_all-effects ((tab, m) ∷ targets) st =
      visit_all-effects targets (visit config st (tab, m))
      ∙ after_snapshot-effects (meet st m tab.pid) m tab _

-- Under `dry_run` a cycle makes no system call on any process, whatever the targets are, and
-- neither the count of compressions nor the two counts of bytes move.
pub scan_cycle-dry_run :
    (config : Config) (st : State) (targets : List (TargetProcess × Moment))
    → config.dry_run ≡ true
    → ((scan_cycle config st targets).calls ≡ [])
      × ((scan_cycle config st targets).stats.compressions ≡ st.stats.compressions)
      × ((scan_cycle config st targets).stats.bytes_paged_out ≡ st.stats.bytes_paged_out)
      × ((scan_cycle config st targets).stats.bytes_skipped_by_kernel
          ≡ st.stats.bytes_skipped_by_kernel)
unfolding scan_cycle begin_cycle
scan_cycle-dry_run config st targets dry =
    let same = visit_all-effects config dry targets (begin_cycle st (length targets)) in
    (ap (λ e. e.0) same, ap (λ e. e.1) same, ap (λ e. e.2) same, ap (λ e. e.3) same)
