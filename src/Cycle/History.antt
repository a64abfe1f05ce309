-- ===== src/Cycle/History.antt =====
-- `scan_cycle` (daemon/src/main.rs) over many cycles: what the tracker knows of a process that is
-- read once in each, and what must have been read before a page-out.
use bssl_ram.Prelude.{
  ℕ, ◌≡◌, ◌≢◌, ◌≤◌, ◌<◌, refl, sym, ap, ◌∙◌, Bool, false, Option, none, some, List, [], ◌∷◌, ◌++◌,
  length, arith, All, if-elim, inl, inr, ◌==◌,
}
use mathlib.Core.Path.{subst}
use bssl_ram.Prelude.Text.{Text}
use bssl_ram.Prelude.Words.{u32_mod, u64_max, mul_u64}
use bssl_ram.Compressor.{CompressOutcome, is_real_success, compress_pid}
use bssl_ram.Config.{Config}
use bssl_ram.Cycle.{
  Moment, State, check_gates, meet, update_tracker, after_snapshot, visit, visit_all, begin_cycle,
  scan_cycle,
}
use bssl_ram.Cycle.Bpf.{build_snapshot, tick_ns}
use bssl_ram.Cycle.Gates.{marked, check_gates-cases, visit-calls}
use bssl_ram.Cycle.Locality.{scan_cycle-view}
use bssl_ram.Scanner.{TargetProcess}
use bssl_ram.Tracker
use bssl_ram.Tracker.{CpuTracker, ProcSnapshot, update}
use bssl_ram.Tracker.Runs.{IdleRun, streak, streak_iff, streak-le}
use bssl_ram.Tracker.View.{PidState, view, observe, view-update, view-mark_compressed}

-- The part of the state of a PID that a page-out does not touch.
abbrev readings_of : PidState → Option (ℕ × ℕ) × ℕ
readings_of p = (p.seen, p.cycles)

marked-readings :
    (t : CpuTracker) (pid : ℕ) (o : Option CompressOutcome)
    → readings_of (view (marked t pid o) pid) ≡ readings_of (view t pid)
marked-readings t pid none = refl
marked-readings t pid (some o) =
    if-elim (λ x. readings_of (view x pid) ≡ readings_of (view t pid)) (is_real_success o)
      (λ _. ground (arith, view-mark_compressed t pid pid)) (λ _. refl)

check_gates-readings :
    (config : Config) (st : State) (m : Moment) (tab : TargetProcess) (is_idle : Bool)
    → readings_of (view (check_gates config st m tab is_idle).tracker tab.pid)
      ≡ readings_of (view st.tracker tab.pid)
check_gates-readings config st m tab is_idle = elim (check_gates-cases config st m tab is_idle) [
  | inl skip ↦ ap (λ t. readings_of (view t tab.pid)) skip.tracker
  | inr (allowed, try) ↦
      ap (λ t. readings_of (view t tab.pid)) try.tracker
      ∙ marked-readings st.tracker tab.pid (compress_pid m.kernel tab.pid config.dry_run).0
]

-- The idle threshold in nanoseconds, as a word.
abbrev pub idle_ns_of : Config → ℕ
idle_ns_of config = mul_u64 config.cpu_delta_threshold tick_ns

-- A multiple of a tick is even, so it is not `u64::MAX`.
pub idle_ns_bounded : (config : Config) → idle_ns_of config < u64_max
idle_ns_bounded config = omega arith

module _ (config : Config) (pid start : ℕ) where
  abbrev pub reading : ℕ → ProcSnapshot
  reading cpu = record { pid = pid; starttime = start; cpu_ns = cpu }

  -- The others of a cycle.
  abbrev pub AreOthers : List (TargetProcess × Moment) → Type 0
  AreOthers = All (λ t. (t.0.pid == pid) ≡ false)

  abbrev pub target : Text → TargetProcess
  target profile = record { pid = pid; profile = profile }

  -- The state in which the turn of the process comes, after the turns of `before`.
  abbrev pub own_turn :
      State → List (TargetProcess × Moment) → List (TargetProcess × Moment) → Text → Moment → State
  own_turn st before after profile m =
      visit_all config (begin_cycle st (length (before ++ (target profile, m) ∷ after))) before

  -- The turn of the process in a cycle reads its task at the CPU position `cpu`.
  pub record IsRead (st : State) (before after : List (TargetProcess × Moment)) (profile : Text)
      (m : Moment) (cpu : ℕ) : Type 0 where
    pub not_before : AreOthers before
    pub not_after : AreOthers after
    pub snapshot :
        build_snapshot pid
          (meet (own_turn st before after profile m) m pid).bpf_tracker
          (m.stat pid)
        ≡ some (reading cpu)
    pub in_range : cpu < u64_max

  -- A state that is reached by cycles that each read the process once, at these CPU positions, the
  -- newest first, from one in which the PID was unknown. Between the cycles all but the tracker
  -- may change.
  pub data IsWatched : List ℕ → State → Type 0 where
    unknown :
        {st : State}
        → (view st.tracker pid).seen ≡ none
        → (view st.tracker pid).cycles ≡ 0
        → IsWatched [] st
    cycle :
        {rs : List ℕ} {st : State} (before after : List (TargetProcess × Moment)) (profile : Text)
        (m : Moment) (cpu : ℕ)
        → IsWatched rs st
        → IsRead st before after profile m cpu
        → IsWatched (cpu ∷ rs) (scan_cycle config st (before ++ (target profile, m) ∷ after))
    between :
        {rs : List ℕ} {st : State} (st' : State)
        → IsWatched rs st
        → st'.tracker ≡ st.tracker
        → IsWatched rs st'

  abbrev latest : List ℕ → Option (ℕ × ℕ)
  latest [] = none
  latest (c ∷ rs) = some (start, c)

  -- What the tracker should know after the readings.
  abbrev Knows : State → List ℕ → Type 0
  Knows st rs = readings_of (view st.tracker pid) ≡ (latest rs, streak (idle_ns_of config) rs)

  updated-Knows :
      (st : State) (rs : List ℕ) (cpu : ℕ)
      → Knows st rs
      → length (cpu ∷ rs) < u32_mod
      → cpu < u64_max
      → Knows (update_tracker config st (reading cpu)).0 (cpu ∷ rs)
  unfolding update_tracker streak observe
  updated-Knows st [] cpu k l h = ground (
    arith,
    k,
    view-update st.tracker (reading cpu) (idle_ns_of config)
        (mul_u64 config.wakeup_delta_threshold tick_ns) pid (idle_ns_bounded config) h,
  )
  updated-Knows st (c ∷ rs) cpu k l h = ground (
    arith,
    k,
    view-update st.tracker (reading cpu) (idle_ns_of config)
        (mul_u64 config.wakeup_delta_threshold tick_ns) pid (idle_ns_bounded config) h,
    streak-le (idle_ns_of config) (c ∷ rs),
  )

  own_turn-Knows :
      (st : State) (rs : List ℕ) (before after : List (TargetProcess × Moment)) (profile : Text)
      (m : Moment) (cpu : ℕ)
      → Knows st rs
      → IsRead st before after profile m cpu
      → Knows (own_turn st before after profile m) rs
  own_turn-Knows st rs before after profile m cpu k r =
      ap readings_of
        (scan_cycle-view config st before after (target profile) m r.not_before r.not_after).1
      ∙ k

  visit-Knows :
      (st : State) (rs : List ℕ) (profile : Text) (m : Moment) (cpu : ℕ)
      → Knows st rs
      → length (cpu ∷ rs) < u32_mod
      → build_snapshot pid (meet st m pid).bpf_tracker (m.stat pid) ≡ some (reading cpu)
      → cpu < u64_max
      → Knows (visit config st (target profile, m)) (cpu ∷ rs)
  unfolding visit after_snapshot meet
  visit-Knows st rs profile m cpu k l e h =
      subst (λ o. Knows (after_snapshot config (meet st m pid) m (target profile) o) (cpu ∷ rs))
        (sym e)
        (check_gates-readings config (update_tracker config (meet st m pid) (reading cpu)).0 m
            (target profile) _
          ∙ updated-Knows (meet st m pid) rs cpu k l h)

  watched-Knows : {rs : List ℕ} {st : State} → IsWatched rs st → length rs < u32_mod → Knows st rs
  unfolding streak
  watched-Knows (unknown seen cycles) l = ground (arith, seen, cycles)
  watched-Knows (cycle {rs = rs} {st = st} before after profile m cpu w r) l =
      let k = own_turn-Knows st rs before after profile m cpu (watched-Knows w (omega arith)) r in
      ap readings_of
        (scan_cycle-view config st before after (target profile) m r.not_before r.not_after).0
      ∙ visit-Knows (own_turn st before after profile m) rs profile m cpu k l r.snapshot r.in_range
  watched-Knows (between st' w same) l = ap (λ t. readings_of (view t pid)) same ∙ watched-Knows w l

  -- What the gates see of the counter at the turn of the process.
  turn_cycles :
      (st : State) (rs : List ℕ) (before after : List (TargetProcess × Moment)) (profile : Text)
      (m : Moment) (cpu : ℕ)
      → IsWatched rs st
      → IsRead st before after profile m cpu
      → length (cpu ∷ rs) < u32_mod
      → Tracker.idle_cycles
          (update_tracker config
            (meet (own_turn st before after profile m) m pid)
            (reading cpu)).0.tracker
          pid
        ≡ streak (idle_ns_of config) (cpu ∷ rs)
  unfolding view meet
  turn_cycles st rs before after profile m cpu w r l =
      ap (λ k. k.1)
        (updated-Knows (meet (own_turn st before after profile m) m pid) rs cpu
          (own_turn-Knows st rs before after profile m cpu (watched-Knows w (omega arith)) r) l
          r.in_range)

  -- In a state reached by cycles that each read the process once at the positions `rs`, the newest
  -- first, the turn of the process in a cycle that reads it at `cpu` makes system calls only if the
  -- configuration is not a dry run and each of the newest `idle_cycles_threshold` of these readings
  -- was at most the idle threshold above the one before it. There are fewer than 2 ^ 32 readings.
  pub visit-IdleRun :
      (st : State) (rs : List ℕ) (before after : List (TargetProcess × Moment)) (profile : Text)
      (m : Moment) (cpu : ℕ)
      → IsWatched rs st
      → IsRead st before after profile m cpu
      → length (cpu ∷ rs) < u32_mod
      → (visit config (own_turn st before after profile m) (target profile, m)).calls
        ≢ (own_turn st before after profile m).calls
      → (config.dry_run ≡ false)
        × IdleRun (idle_ns_of config) config.idle_cycles_threshold (cpu ∷ rs)
  visit-IdleRun st rs before after profile m cpu w r l called =
      let (live, snap, e, ok) =
        visit-calls config (own_turn st before after profile m) (target profile) m called in
      let same : snap ≡ reading cpu = ground (arith, e, r.snapshot) in
      let warm =
        subst
          (λ s.
            config.idle_cycles_threshold
            ≤ Tracker.idle_cycles
                (update_tracker config (meet (own_turn st before after profile m) m pid)
                  s).0.tracker
                pid)
          same ok.warm in
      (
        live,
        (streak_iff (idle_ns_of config) config.idle_cycles_threshold (cpu ∷ rs)).0 (
            subst (λ n. config.idle_cycles_threshold ≤ n)
              (turn_cycles st rs before after profile m cpu w r l) warm),
      )
