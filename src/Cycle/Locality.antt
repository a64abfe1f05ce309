-- ===== src/Cycle/Locality.antt =====
-- What `scan_cycle` (daemon/src/main.rs) does to one PID: only the turn of that PID counts, and a
-- PID without a turn is forgotten.
use bssl_ram.Prelude.{
  ℕ, ◌≡◌, refl, ap, ◌∙◌, Bool, false, ◌||◌, Option, none, some, List, [], ◌∷◌, ◌++◌, length, arith,
  any, All, if-elim, inl, inr, if◌then◌else◌, ◌==◌, nat_eq,
}
use bssl_ram.Compressor.{CompressOutcome, is_real_success, compress_pid}
use bssl_ram.Config.{Config}
use bssl_ram.Cycle.{
  Moment, State, check_gates, meet, drop_exited, update_tracker, after_snapshot, visit, visit_all,
  begin_cycle, scan_cycle,
}
use bssl_ram.Cycle.Attempts.{build_snapshot-pid}
use bssl_ram.Cycle.Gates.{marked, check_gates-cases}
use bssl_ram.Cycle.Sweep.{pids_onto, visit_all-seen}
use bssl_ram.Scanner.{TargetProcess}
use bssl_ram.Tracker
use bssl_ram.Tracker.{CpuTracker, ProcSnapshot, contains, update}
use bssl_ram.Tracker.View.{
  view, unseen, view-remove, view-mark_compressed, view-retain_only, view-record_delta,
  view-forget_reused,
}

update-others :
    (t : CpuTracker) (snap : ProcSnapshot) (idle_ns wakeup_ns j : ℕ)
    → (snap.pid == j) ≡ false
    → view (update t snap idle_ns wakeup_ns).0 j ≡ view t j
unfolding update
update-others t snap idle_ns wakeup_ns j other =
    let t' = Tracker.forget_reused t snap in
    view-record_delta t' snap (Tracker.delta t' snap) idle_ns wakeup_ns j
    ∙ (rw other (view-forget_reused t snap j ∙ rw other refl))

marked-others :
    (t : CpuTracker) (pid j : ℕ) (o : Option CompressOutcome)
    → (pid == j) ≡ false
    → view (marked t pid o) j ≡ view t j
marked-others t pid j none other = refl
marked-others t pid j (some o) other =
    if-elim (λ x. view x j ≡ view t j) (is_real_success o)
      (λ _. view-mark_compressed t pid j ∙ rw other refl) (λ _. refl)

check_gates-others :
    (config : Config) (st : State) (m : Moment) (tab : TargetProcess) (is_idle : Bool) (j : ℕ)
    → (tab.pid == j) ≡ false
    → view (check_gates config st m tab is_idle).tracker j ≡ view st.tracker j
check_gates-others config st m tab is_idle j other =
    elim (check_gates-cases config st m tab is_idle) [
      | inl skip ↦ ap (λ t. view t j) skip.tracker
      | inr (allowed, try) ↦
          ap (λ t. view t j) try.tracker
          ∙ marked-others st.tracker tab.pid j (compress_pid m.kernel tab.pid config.dry_run).0
              other
    ]

after_snapshot-others :
    (config : Config) (st : State) (m : Moment) (tab : TargetProcess) (j : ℕ)
    (o : Option ProcSnapshot)
    → ((snap : ProcSnapshot) → o ≡ some snap → snap.pid ≡ tab.pid)
    → (tab.pid == j) ≡ false
    → view (after_snapshot config st m tab o).tracker j ≡ view st.tracker j
unfolding after_snapshot drop_exited update_tracker
after_snapshot-others config st m tab j none same other =
    view-remove st.tracker tab.pid j ∙ rw other refl
after_snapshot-others config st m tab j (some snap) same other =
    let (st', is_idle) = update_tracker config st snap in
    check_gates-others config st' m tab is_idle j other
    ∙ update-others st.tracker snap _ _ j (ap (λ p. p == j) (same snap refl) ∙ other)

visit-others :
    (config : Config) (st : State) (t : TargetProcess × Moment) (j : ℕ)
    → (t.0.pid == j) ≡ false
    → view (visit config st t).tracker j ≡ view st.tracker j
unfolding visit meet
visit-others config st (tab, m) j other =
    let st' = meet st m tab.pid in
    after_snapshot-others config st' m tab j _
      (λ snap e. build_snapshot-pid tab.pid st'.bpf_tracker (m.stat tab.pid) snap e) other

visit_all-others :
    (config : Config) (targets : List (TargetProcess × Moment)) (st : State) (j : ℕ)
    → All (λ t. (t.0.pid == j) ≡ false) targets
    → view (visit_all config st targets).tracker j ≡ view st.tracker j
unfolding visit_all
visit_all-others config [] st j h = refl
visit_all-others config (t ∷ targets) st j h =
    visit_all-others config targets (visit config st t) j h.1 ∙ visit-others config st t j h.0

visit_all-append :
    (config : Config) (xs ys : List (TargetProcess × Moment)) (st : State)
    → visit_all config st (xs ++ ys) ≡ visit_all config (visit_all config st xs) ys
unfolding visit_all
visit_all-append config [] ys st = refl
visit_all-append config (x ∷ xs) ys st = visit_all-append config xs ys (visit config st x)

contains-pids_onto :
    (targets : List (TargetProcess × Moment)) (pids : List ℕ) (j : ℕ)
    → contains (pids_onto targets pids) j ≡ (any (λ t. t.0.pid == j) targets || contains pids j)
contains-pids_onto [] pids j = refl
contains-pids_onto (t ∷ targets) pids j =
    ground (arith, contains-pids_onto targets (t.0.pid ∷ pids) j)

-- The view of a PID after a cycle.
swept :
    (config : Config) (st : State) (targets : List (TargetProcess × Moment)) (j : ℕ)
    → view (scan_cycle config st targets).tracker j ≡ (
        if any (λ t. t.0.pid == j) targets
        then view (visit_all config (begin_cycle st (length targets)) targets).tracker j
        else unseen)
unfolding scan_cycle begin_cycle
swept config st targets j =
    let st0 = begin_cycle st (length targets) in
    let st' = visit_all config st0 targets in
    let seen = ap (λ l. contains l j) (visit_all-seen config targets st0) in
    ground
      (arith, view-retain_only st'.tracker st'.seen_pids j, seen, contains-pids_onto targets [] j)

any-append :
    (xs ys : List (TargetProcess × Moment)) (j : ℕ)
    → any (λ t. t.0.pid == j) (xs ++ ys)
      ≡ (any (λ t. t.0.pid == j) xs || any (λ t. t.0.pid == j) ys)
any-append [] ys j = refl
any-append (x ∷ xs) ys j = ground (arith, any-append xs ys j)

any-false :
    (xs : List (TargetProcess × Moment)) (j : ℕ)
    → All (λ t. (t.0.pid == j) ≡ false) xs
    → any (λ t. t.0.pid == j) xs ≡ false
any-false [] j h = refl
any-false (x ∷ xs) j h = ground (arith, any-false xs j h.1, h.0)

-- If one target has the PID, the cycle does to what the tracker knows of the PID what that target's
-- turn does to it, and that turn starts from what was known before the cycle: the turns of other
-- PIDs and the sweep change nothing of it. A cycle with the other targets alone forgets the PID.
pub scan_cycle-view :
    (config : Config) (st : State) (before after : List (TargetProcess × Moment))
    (tab : TargetProcess) (m : Moment)
    → All (λ t. (t.0.pid == tab.pid) ≡ false) before
    → All (λ t. (t.0.pid == tab.pid) ≡ false) after
    → (view (scan_cycle config st (before ++ (tab, m) ∷ after)).tracker tab.pid
        ≡ view
            (visit config
              (visit_all config (begin_cycle st (length (before ++ (tab, m) ∷ after))) before)
              (tab, m)).tracker
            tab.pid)
      × (view
            (visit_all config (begin_cycle st (length (before ++ (tab, m) ∷ after))) before).tracker
            tab.pid
          ≡ view st.tracker tab.pid)
      × (view (scan_cycle config st (before ++ after)).tracker tab.pid ≡ unseen)
unfolding begin_cycle
scan_cycle-view config st before after tab m hb ha =
    let targets = before ++ (tab, m) ∷ after in
    let st0 = begin_cycle st (length targets) in
    let start = visit_all config st0 before in
    let turn = visit config start (tab, m) in
    (
      (swept config st targets tab.pid
            ∙ rw (any-append before ((tab, m) ∷ after) tab.pid) (ground arith))
          ∙ ap (λ s. view s.tracker tab.pid) (visit_all-append config before ((tab, m) ∷ after) st0)
          ∙ unfold visit_all in visit_all-others config after turn tab.pid ha,
      visit_all-others config before st0 tab.pid hb,
      ground (
        arith,
        swept config st (before ++ after) tab.pid,
        any-append before after tab.pid,
        any-false before tab.pid hb,
        any-false after tab.pid ha,
      ),
    )
