-- ===== src/Cycle/Sweep.antt =====
-- The tracker over a whole `scan_cycle` (daemon/src/main.rs): its invariant, and the sweep at the
-- end.
use bssl_ram.Prelude.{
  ℕ, ◌+◌, ◌≡◌, ◌≤◌, refl, sym, ap, ◌∙◌, Bool, Option, none, some, List, [], ◌∷◌, length, arith,
  if-elim, inl, inr,
}
use mathlib.Core.Path.{subst}
use bssl_ram.Compressor.{CompressOutcome, is_real_success, compress_pid}
use bssl_ram.Config.{Config}
use bssl_ram.Cycle.{
  Moment, State, check_gates, meet, drop_exited, update_tracker, after_snapshot, visit, visit_all,
  begin_cycle, scan_cycle,
}
use bssl_ram.Cycle.Gates.{marked, check_gates-cases}
use bssl_ram.Cycle.Steps.{IsStep, after_snapshot-IsStep}
use bssl_ram.Scanner.{TargetProcess}
use bssl_ram.Tracker.{CpuTracker, ProcSnapshot, tracked_pids}
use bssl_ram.Tracker.Memory.{
  IsWellFormed, remove-IsWellFormed, mark_compressed-IsWellFormed, update-IsWellFormed,
  retain_only-bounded,
}

marked-IsWellFormed :
    (t : CpuTracker) (pid : ℕ) (o : Option CompressOutcome)
    → IsWellFormed t
    → IsWellFormed (marked t pid o)
marked-IsWellFormed t pid none h = h
marked-IsWellFormed t pid (some o) h =
    if-elim IsWellFormed (is_real_success o) (λ _. mark_compressed-IsWellFormed t pid h) (λ _. h)

check_gates-IsWellFormed :
    (config : Config) (st : State) (m : Moment) (tab : TargetProcess) (is_idle : Bool)
    → IsWellFormed st.tracker
    → IsWellFormed (check_gates config st m tab is_idle).tracker
check_gates-IsWellFormed config st m tab is_idle h =
    elim (check_gates-cases config st m tab is_idle) [
      | inl skip ↦ subst IsWellFormed (sym skip.tracker) h
      | inr (allowed, try) ↦ subst IsWellFormed (sym try.tracker) (
          marked-IsWellFormed st.tracker tab.pid (compress_pid m.kernel tab.pid config.dry_run).0 h)
    ]

after_snapshot-IsWellFormed :
    (config : Config) (st : State) (m : Moment) (tab : TargetProcess) (o : Option ProcSnapshot)
    → IsWellFormed st.tracker
    → IsWellFormed (after_snapshot config st m tab o).tracker
unfolding after_snapshot drop_exited update_tracker
after_snapshot-IsWellFormed config st m tab none h = remove-IsWellFormed st.tracker tab.pid h
after_snapshot-IsWellFormed config st m tab (some snap) h =
    let (st', is_idle) = update_tracker config st snap in
    check_gates-IsWellFormed config st' m tab is_idle (update-IsWellFormed st.tracker snap _ _ h)

visit-IsWellFormed :
    (config : Config) (st : State) (t : TargetProcess × Moment)
    → IsWellFormed st.tracker
    → IsWellFormed (visit config st t).tracker
unfolding visit meet
visit-IsWellFormed config st (tab, m) h =
    after_snapshot-IsWellFormed config (meet st m tab.pid) m tab _ h

visit_all-IsWellFormed :
    (config : Config) (targets : List (TargetProcess × Moment)) (st : State)
    → IsWellFormed st.tracker
    → IsWellFormed (visit_all config st targets).tracker
unfolding visit_all
visit_all-IsWellFormed config [] st h = h
visit_all-IsWellFormed config (t ∷ targets) st h =
    visit_all-IsWellFormed config targets (visit config st t) (visit-IsWellFormed config st t h)

visit-seen :
    (config : Config) (st : State) (t : TargetProcess × Moment)
    → (visit config st t).seen_pids ≡ t.0.pid ∷ st.seen_pids
unfolding visit meet IsStep
visit-seen config st (tab, m) = (after_snapshot-IsStep config (meet st m tab.pid) m tab _).seen_pids

-- The PIDs of the targets, last first, on top of what is there.
abbrev pub pids_onto : List (TargetProcess × Moment) → List ℕ → List ℕ
pids_onto [] pids = pids
pids_onto (t ∷ targets) pids = pids_onto targets (t.0.pid ∷ pids)

pub visit_all-seen :
    (config : Config) (targets : List (TargetProcess × Moment)) (st : State)
    → (visit_all config st targets).seen_pids ≡ pids_onto targets st.seen_pids
unfolding visit_all
visit_all-seen config [] st = refl
visit_all-seen config (t ∷ targets) st =
    visit_all-seen config targets (visit config st t)
    ∙ ap (pids_onto targets) (visit-seen config st t)

length-pids_onto :
    (targets : List (TargetProcess × Moment)) (pids : List ℕ)
    → length (pids_onto targets pids) ≡ length targets + length pids
length-pids_onto [] pids = omega arith
length-pids_onto (t ∷ targets) pids = omega (arith, length-pids_onto targets (t.0.pid ∷ pids))

-- A cycle keeps a well-formed tracker well-formed and bounded by its targets: afterwards none of
-- the three maps holds more entries than the cycle had targets.
pub scan_cycle-bounded :
    (config : Config) (st : State) (targets : List (TargetProcess × Moment))
    → IsWellFormed st.tracker
    → IsWellFormed (scan_cycle config st targets).tracker
      × (tracked_pids (scan_cycle config st targets).tracker ≤ length targets)
      × (length (scan_cycle config st targets).tracker.idle_cycles ≤ length targets)
      × (length (scan_cycle config st targets).tracker.compressed ≤ length targets)
unfolding scan_cycle begin_cycle
scan_cycle-bounded config st targets h =
    let st0 = begin_cycle st (length targets) in
    let st' = visit_all config st0 targets in
    let bounded =
      retain_only-bounded st'.tracker st'.seen_pids (visit_all-IsWellFormed config targets st0 h) in
    let seen = ap length (visit_all-seen config targets st0) ∙ length-pids_onto targets [] in
    (
      bounded.0,
      omega (arith, bounded.1, seen),
      omega (arith, bounded.2, seen),
      omega (arith, bounded.3, seen),
    )
