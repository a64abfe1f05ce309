-- ===== src/Cycle/Gates.antt =====
-- The gates of `scan_cycle` (daemon/src/main.rs) in front of the system calls, and what a target's
-- turn does to the tracker.
use bssl_ram.Prelude.{
  ℕ, ◌≡◌, ◌≢◌, ◌≤◌, ◌⊎◌, refl, ap, ◌∙◌, Bool, true, false, not, Option, none, some, ◌++◌, arith,
  if◌then◌else◌, if-elim, Bool-cases, inl, inr, ltb,
}
use mathlib.Core.List.{append-nil}
use bssl_ram.Compressor.{CompressOutcome, is_real_success, compress_pid, rss_mib}
use bssl_ram.Compressor.Outcome.{compress_pid_dry}
use bssl_ram.Config.{Config}
use bssl_ram.Cycle.{
  Moment, State, record_outcome, try_compress, after_veto, check_signals, check_gates, meet,
  drop_exited, update_tracker, after_snapshot, visit,
}
use bssl_ram.Cycle.Bpf.{build_snapshot}
use bssl_ram.Scanner.{TargetProcess}
use bssl_ram.Signals.{SignalStore, ProfileVeto, profile_veto_at}
use bssl_ram.Tracker
use bssl_ram.Tracker.{CpuTracker, ProcSnapshot}

-- The tracker after a try, by its result.
abbrev pub marked : CpuTracker → ℕ → Option CompressOutcome → CpuTracker
marked t pid none = t
marked t pid (some o) = if is_real_success o then Tracker.mark_compressed t pid else t

-- No signal store speaks against a page-out of the profile.
abbrev pub HasNoVeto : State → Moment → TargetProcess → Type 0
HasNoVeto st m tab =
    (s : SignalStore)
    → st.signal_store ≡ some s
    → (profile_veto_at s tab.profile m.now m.now_wall_ms).1 ≡ none

-- The conditions of a page-out after `update`.
pub record IsAllowed (config : Config) (st : State) (m : Moment) (tab : TargetProcess)
    (is_idle : Bool) : Type 0 where
  pub idle : is_idle ≡ true
  pub warm : config.idle_cycles_threshold ≤ Tracker.idle_cycles st.tracker tab.pid
  pub uncompressed : Tracker.is_compressed st.tracker tab.pid ≡ false
  pub large : config.min_rss_mib ≤ rss_mib (m.smaps_rollup tab.pid)
  pub quiet : HasNoVeto st m tab

-- A try to compress.
pub record IsTry (config : Config) (st : State) (m : Moment) (pid : ℕ) (after : State)
    : Type 0 where
  pub calls : after.calls ≡ st.calls ++ (compress_pid m.kernel pid config.dry_run).1
  pub tracker : after.tracker ≡ marked st.tracker pid (compress_pid m.kernel pid config.dry_run).0

-- The target is left alone.
pub record IsSkip (st after : State) : Type 0 where
  pub calls : after.calls ≡ st.calls
  pub tracker : after.tracker ≡ st.tracker

record_outcome-tracker :
    (st : State) (pid : ℕ) (o : Option CompressOutcome)
    → ((record_outcome st pid o).tracker ≡ marked st.tracker pid o)
      × ((record_outcome st pid o).calls ≡ st.calls)
unfolding record_outcome
record_outcome-tracker st pid none = (refl, refl)
record_outcome-tracker st pid (some o) = ground arith

pub try_compress-IsTry :
    (config : Config) (st : State) (m : Moment) (pid : ℕ)
    → IsTry config st m pid (try_compress config st m pid)
unfolding try_compress
try_compress-IsTry config st m pid =
    let (result, calls) = compress_pid m.kernel pid config.dry_run in
    let e = record_outcome-tracker (record st { calls = st.calls ++ calls }) pid result in
    record { calls = e.1; tracker = e.0 }

after_veto-cases :
    (config : Config) (st : State) (m : Moment) (tab : TargetProcess) (veto : Option ProfileVeto)
    → IsSkip st (after_veto config st m tab veto)
      ⊎ ((veto ≡ none) × IsTry config st m tab.pid (after_veto config st m tab veto))
unfolding after_veto
after_veto-cases config st m tab none = inr (refl, try_compress-IsTry config st m tab.pid)
after_veto-cases config st m tab (some v) = inl (record { calls = refl; tracker = refl })

check_signals-cases :
    (config : Config) (st : State) (m : Moment) (tab : TargetProcess) (o : Option SignalStore)
    → st.signal_store ≡ o
    → IsSkip st (check_signals config st m tab o)
      ⊎ (HasNoVeto st m tab × IsTry config st m tab.pid (check_signals config st m tab o))
unfolding check_signals
check_signals-cases config st m tab none e =
    inr ((λ s e'. absurd (ground (arith, e, e'))), try_compress-IsTry config st m tab.pid)
check_signals-cases config st m tab (some store) e =
    let (store', veto) = profile_veto_at store tab.profile m.now m.now_wall_ms in
    elim (after_veto-cases config (record st { signal_store = some store' }) m tab veto) [
      | inl skip ↦ inl (record { calls = skip.calls; tracker = skip.tracker })
      | inr (quiet, try) ↦ inr (
        (λ s e'.
            ap (λ x. (profile_veto_at x tab.profile m.now m.now_wall_ms).1) (same s e') ∙ quiet),
        record { calls = try.calls; tracker = try.tracker },
      )
    ]
  where
    same : (s : SignalStore) → st.signal_store ≡ some s → s ≡ store
    same s e' = ground (arith, e, e')

pub check_gates-cases :
    (config : Config) (st : State) (m : Moment) (tab : TargetProcess) (is_idle : Bool)
    → IsSkip st (check_gates config st m tab is_idle)
      ⊎ (IsAllowed config st m tab is_idle
          × IsTry config st m tab.pid (check_gates config st m tab is_idle))
unfolding check_gates
check_gates-cases config st m tab is_idle =
    let pid = tab.pid in
    if-elim Cases (not is_idle) (λ _. inl (record { calls = refl; tracker = refl }))
      (λ idle.
        if-elim Cases (ltb (Tracker.idle_cycles st.tracker pid) config.idle_cycles_threshold)
          (λ _. inl (record { calls = refl; tracker = refl }))
          (λ warm.
            if-elim Cases (Tracker.is_compressed st.tracker pid)
              (λ _. inl (record { calls = refl; tracker = refl }))
              (λ fresh.
                if-elim Cases (ltb (rss_mib (m.smaps_rollup pid)) config.min_rss_mib)
                  (λ _. inl (record { calls = refl; tracker = refl }))
                  (λ large. elim (check_signals-cases config st m tab st.signal_store refl) [
                    | inl skip ↦ inl skip
                    | inr (quiet, try) ↦ inr (
                      record {
                        idle = ground (arith, idle);
                        warm = ground (arith, warm);
                        uncompressed = fresh;
                        large = ground (arith, large);
                        quiet = quiet;
                      },
                      try,
                    )
                  ]))))
  where
    Cases : State → Type 0
    Cases x = IsSkip st x ⊎ (IsAllowed config st m tab is_idle × IsTry config st m tab.pid x)

dry_run_calls :
    (config : Config) (st : State) (m : Moment) (pid : ℕ) (after : State)
    → IsTry config st m pid after
    → after.calls ≢ st.calls
    → config.dry_run ≡ false
dry_run_calls config st m pid after try called = elim (Bool-cases config.dry_run) [
  | inl dry ↦
      let none_made =
        ap (λ b. (compress_pid m.kernel pid b).1) dry ∙ (compress_pid_dry m.kernel pid).0 in
      absurd (called (try.calls ∙ ap (◌++◌ st.calls) none_made ∙ append-nil st.calls))
  | inr real ↦ real
]

after_snapshot-calls :
    (config : Config) (st : State) (m : Moment) (tab : TargetProcess) (o : Option ProcSnapshot)
    → (after_snapshot config st m tab o).calls ≢ st.calls
    → (config.dry_run ≡ false)
      × (snap : ProcSnapshot) × (o ≡ some snap)
      × IsAllowed config (update_tracker config st snap).0 m tab (update_tracker config st snap).1
unfolding after_snapshot drop_exited update_tracker
after_snapshot-calls config st m tab none called = absurd (called refl)
after_snapshot-calls config st m tab (some snap) called =
    let (st', is_idle) = update_tracker config st snap in
    elim (check_gates-cases config st' m tab is_idle) [
      | inl skip ↦ absurd (called skip.calls)
      | inr (allowed, try) ↦ (dry_run_calls config st' m tab.pid _ try called, snap, refl, allowed)
    ]

-- A target's turn makes system calls only if the process has a snapshot, was idle for long enough,
-- is not compressed yet, is large enough and no signal speaks against it, and the configuration is
-- not a dry run.
pub visit-calls :
    (config : Config) (st : State) (tab : TargetProcess) (m : Moment)
    → (visit config st (tab, m)).calls ≢ st.calls
    → (config.dry_run ≡ false)
      × (snap : ProcSnapshot) × (build_snapshot tab.pid
            (meet st m tab.pid).bpf_tracker
            (m.stat tab.pid)
          ≡ some snap)
      × IsAllowed config
          (update_tracker config (meet st m tab.pid) snap).0
          m
          tab
          (update_tracker config (meet st m tab.pid) snap).1
unfolding visit meet
visit-calls config st tab m called = after_snapshot-calls config (meet st m tab.pid) m tab _ called
