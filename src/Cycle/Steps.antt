-- ===== src/Cycle/Steps.antt =====
-- One target of `scan_cycle` (daemon/src/main.rs): each path through the loop's body writes one
-- line of the log and moves the counter of that line.
use bssl_ram.Prelude.{
  ℕ, ◌+◌, ◌%◌, ◌≡◌, refl, Bool, true, false, not, Option, none, some, List, [], ◌∷◌, ◌++◌, count_if,
  arith, if-elim, ltb,
}
use mathlib.Core.Path.{subst}
use bssl_ram.Prelude.Words.{u64_mod}
use bssl_ram.Compressor.{CompressOutcome, is_real_success, compress_pid, rss_mib}
use bssl_ram.Config.{Config}
use bssl_ram.Cycle.{
  Action, exited, active, warmup, already_compressed, low_rss, browser_signals, compress,
  would_compress, compress_incomplete, compress_failed, Moment, State, logged, record_outcome,
  try_compress, after_veto, check_signals, check_gates, drop_exited, update_tracker, after_snapshot,
  map_some,
}
use bssl_ram.Cycle.Bpf.{forget}
use bssl_ram.Scanner.{TargetProcess}
use bssl_ram.Signals.{SignalStore, ProfileVeto, profile_veto_at}
use bssl_ram.Telemetry.{Stats}
use bssl_ram.Tracker
use bssl_ram.Tracker.{ProcSnapshot}

-- The counter that an action is counted in, by its place in `Stats`; what exited and what a dry run
-- would do is counted in none.
abbrev pub is_active : Action → Bool
is_active active = true
is_active _ = false

abbrev pub is_warmup : Action → Bool
is_warmup warmup = true
is_warmup _ = false

abbrev pub is_already_compressed : Action → Bool
is_already_compressed already_compressed = true
is_already_compressed _ = false

abbrev pub is_low_rss : Action → Bool
is_low_rss low_rss = true
is_low_rss _ = false

abbrev pub is_browser_signals : Action → Bool
is_browser_signals browser_signals = true
is_browser_signals _ = false

abbrev pub is_compress : Action → Bool
is_compress compress = true
is_compress _ = false

abbrev pub is_error : Action → Bool
is_error compress_incomplete = true
is_error compress_failed = true
is_error _ = false

-- The counters of the decisions.
pub record Tally : Type 0 where
  pub skips_active : ℕ
  pub skips_warmup : ℕ
  pub skips_already_compressed : ℕ
  pub skips_low_rss : ℕ
  pub skips_browser_signals : ℕ
  pub compressions : ℕ
  pub errors : ℕ

-- Each counter after the actions, as a u64.
abbrev count_on : (Action → Bool) → ℕ → List Action → ℕ
count_on p before actions = (before + count_if p actions) % u64_mod

abbrev pub tally : Stats → List Action → Tally
tally s actions = record {
  skips_active = count_on is_active s.skips_active actions;
  skips_warmup = count_on is_warmup s.skips_warmup actions;
  skips_already_compressed = count_on is_already_compressed s.skips_already_compressed actions;
  skips_low_rss = count_on is_low_rss s.skips_low_rss actions;
  skips_browser_signals = count_on is_browser_signals s.skips_browser_signals actions;
  compressions = count_on is_compress s.compressions actions;
  errors = count_on is_error s.errors actions;
}

-- The part of a state that the log and the counters are in.
pub record Trace : Type 0 where
  pub log : List (ℕ × Action)
  pub stats : Stats
  pub seen_pids : List ℕ

abbrev pub trace : State → Trace
trace st = record { log = st.log; stats = st.stats; seen_pids = st.seen_pids }

-- The counters that a target does not touch.
abbrev pub others : Stats → ℕ × ℕ × ℕ
others s = (s.scans, s.targets_seen, s.psi_events)

-- One target has been dealt with: one line of the log, and its counter.
pub record Step (before : Trace) (pid : ℕ) (after : Trace) : Type 0 where
  pub action : Action
  pub log : after.log ≡ before.log ++ (pid, action) ∷ []
  pub tallied : (rest : List Action) → tally after.stats rest ≡ tally before.stats (action ∷ rest)
  pub others : others after.stats ≡ others before.stats
  pub seen_pids : after.seen_pids ≡ before.seen_pids

-- The state after a target, reached from `before`.
unfoldable pub IsStep : State → ℕ → State → Type 0
IsStep before pid after = Step (trace before) pid (trace after)

-- Only the trace of the state before counts.
from_trace :
    (before st : State) (pid : ℕ) (after : State)
    → trace st ≡ trace before
    → IsStep st pid after
    → IsStep before pid after
unfolding IsStep
from_trace before st pid after e step = subst (λ t. Step t pid (trace after)) e step

-- A line of the log, whose counter is in the new `Stats` and no other counter.
logged-IsStep :
    (st : State) (pid : ℕ) (a : Action) (stats : Stats)
    → ((rest : List Action) → tally stats rest ≡ tally st.stats (a ∷ rest))
    → others stats ≡ others st.stats
    → IsStep st pid (logged st pid a stats)
unfolding IsStep
logged-IsStep st pid a stats t same = record {
  action = a;
  log = refl;
  tallied = t;
  others = same;
  seen_pids = refl;
}

record_outcome-IsStep :
    (st : State) (pid : ℕ) (o : Option CompressOutcome) → IsStep st pid (record_outcome st pid o)
unfolding record_outcome
record_outcome-IsStep st pid none =
    logged-IsStep st pid compress_failed _ (λ rest. ground arith) refl
record_outcome-IsStep st pid (some outcome) =
    if-elim (IsStep st pid) (is_real_success outcome)
      (λ _.
        from_trace st (record st { tracker = Tracker.mark_compressed st.tracker pid }) pid _ refl
          (logged-IsStep _ pid compress _ (λ rest. ground arith) refl))
      (λ _.
        if-elim (IsStep st pid) outcome.was_dry_run
          (λ _. logged-IsStep st pid would_compress _ (λ rest. ground arith) refl)
          (λ _. logged-IsStep st pid compress_incomplete _ (λ rest. ground arith) refl))

try_compress-IsStep :
    (config : Config) (st : State) (m : Moment) (pid : ℕ)
    → IsStep st pid (try_compress config st m pid)
unfolding try_compress
try_compress-IsStep config st m pid =
    let (result, calls) = compress_pid m.kernel pid config.dry_run in
    from_trace st (record st { calls = st.calls ++ calls }) pid _ refl
      (record_outcome-IsStep _ pid result)

after_veto-IsStep :
    (config : Config) (st : State) (m : Moment) (tab : TargetProcess) (veto : Option ProfileVeto)
    → IsStep st tab.pid (after_veto config st m tab veto)
unfolding after_veto
after_veto-IsStep config st m tab none = try_compress-IsStep config st m tab.pid
after_veto-IsStep config st m tab (some veto) =
    logged-IsStep st tab.pid browser_signals _ (λ rest. ground arith) refl

check_signals-IsStep :
    (config : Config) (st : State) (m : Moment) (tab : TargetProcess) (o : Option SignalStore)
    → IsStep st tab.pid (check_signals config st m tab o)
unfolding check_signals
check_signals-IsStep config st m tab none = try_compress-IsStep config st m tab.pid
check_signals-IsStep config st m tab (some store) =
    let (store', veto) = profile_veto_at store tab.profile m.now m.now_wall_ms in
    from_trace st (record st { signal_store = some store' }) tab.pid _ refl
      (after_veto-IsStep config _ m tab veto)

check_gates-IsStep :
    (config : Config) (st : State) (m : Moment) (tab : TargetProcess) (is_idle : Bool)
    → IsStep st tab.pid (check_gates config st m tab is_idle)
unfolding check_gates
check_gates-IsStep config st m tab is_idle =
    if-elim (IsStep st tab.pid) (not is_idle)
      (λ _. logged-IsStep st tab.pid active _ (λ rest. ground arith) refl)
      (λ _.
        if-elim (IsStep st tab.pid)
          (ltb (Tracker.idle_cycles st.tracker tab.pid) config.idle_cycles_threshold)
          (λ _. logged-IsStep st tab.pid warmup _ (λ rest. ground arith) refl)
          (λ _.
            if-elim (IsStep st tab.pid) (Tracker.is_compressed st.tracker tab.pid)
              (λ _. logged-IsStep st tab.pid already_compressed _ (λ rest. ground arith) refl)
              (λ _.
                if-elim (IsStep st tab.pid)
                  (ltb (rss_mib (m.smaps_rollup tab.pid)) config.min_rss_mib)
                  (λ _. logged-IsStep st tab.pid low_rss _ (λ rest. ground arith) refl)
                  (λ _. check_signals-IsStep config st m tab st.signal_store))))

pub after_snapshot-IsStep :
    (config : Config) (st : State) (m : Moment) (tab : TargetProcess) (o : Option ProcSnapshot)
    → IsStep st tab.pid (after_snapshot config st m tab o)
unfolding after_snapshot drop_exited update_tracker
after_snapshot-IsStep config st m tab none =
    let st' : State = record st {
      tracker = Tracker.remove st.tracker tab.pid;
      bpf_tracker = map_some (λ b. forget b tab.pid) st.bpf_tracker;
    } in
    from_trace st st' tab.pid _ refl
      (logged-IsStep st' tab.pid exited st.stats (λ rest. ground arith) refl)
after_snapshot-IsStep config st m tab (some snap) =
    let (st', is_idle) = update_tracker config st snap in
    from_trace st st' tab.pid _ refl (check_gates-IsStep config st' m tab is_idle)
