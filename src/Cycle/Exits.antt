-- ===== src/Cycle/Exits.antt =====
-- A target of `scan_cycle` (daemon/src/main.rs) that has exited.
use bssl_ram.Prelude.{
  ℕ, ◌≡◌, refl, sym, Option, none, some, [], ◌∷◌, ◌++◌, arith, ◌==◌, if◌then◌else◌, nat_eq,
}
use mathlib.Core.Path.{subst}
use bssl_ram.Prelude.Map.{lookup-remove}
use bssl_ram.Prelude.Text.{Text}
use bssl_ram.Config.{Config}
use bssl_ram.Cycle.{Moment, State, map_some, meet, drop_exited, after_snapshot, visit, exited}
use bssl_ram.Cycle.Bpf.{BpfCpuTracker, runtime_ns, forget, build_snapshot}
use bssl_ram.Scanner.{TargetProcess}
use bssl_ram.Tracker.View.{view, unseen, view-remove}

-- No BPF tracker, or one without a snapshot of the PID.
abbrev pub IsForgotten : ℕ → Option BpfCpuTracker → Type 0
IsForgotten pid none = Unit
IsForgotten pid (some b) = (stat : Option Text) → build_snapshot pid (some b) stat ≡ none

forget-IsForgotten : (b : BpfCpuTracker) (pid : ℕ) → IsForgotten pid (some (forget b pid))
unfolding forget build_snapshot runtime_ns
forget-IsForgotten b pid stat = ground (arith, lookup-remove pid pid b.task_runtime)

drop_exited-IsForgotten :
    (st : State) (pid : ℕ) (o : Option BpfCpuTracker)
    → st.bpf_tracker ≡ o
    → IsForgotten pid (drop_exited st pid).bpf_tracker
unfolding drop_exited
drop_exited-IsForgotten st pid none e =
    subst (λ o. IsForgotten pid (map_some (λ b. forget b pid) o)) (sym e) tt
drop_exited-IsForgotten st pid (some b) e =
    subst (λ o. IsForgotten pid (map_some (λ b. forget b pid) o)) (sym e) (forget-IsForgotten b pid)

-- A target without a snapshot is logged as exited, and nothing of it is left: the tracker has never
-- seen the PID, the BPF tracker, if loaded, has no snapshot of it, and no system call was made.
-- What the tracker knows of the other PIDs stays.
pub visit-exited :
    (config : Config) (st : State) (tab : TargetProcess) (m : Moment) (j : ℕ)
    → build_snapshot tab.pid (meet st m tab.pid).bpf_tracker (m.stat tab.pid) ≡ none
    → ((visit config st (tab, m)).log ≡ st.log ++ (tab.pid, exited) ∷ [])
      × ((visit config st (tab, m)).calls ≡ st.calls)
      × IsForgotten tab.pid (visit config st (tab, m)).bpf_tracker
      × (view (visit config st (tab, m)).tracker j
          ≡ (if tab.pid == j then unseen else view st.tracker j))
unfolding visit after_snapshot meet
visit-exited config st tab m j e =
    let st' = meet st m tab.pid in
    subst
      (λ o.
        ((after_snapshot config st' m tab o).log ≡ st.log ++ (tab.pid, exited) ∷ [])
        × ((after_snapshot config st' m tab o).calls ≡ st.calls)
        × IsForgotten tab.pid (after_snapshot config st' m tab o).bpf_tracker
        × (view (after_snapshot config st' m tab o).tracker j
            ≡ (if tab.pid == j then unseen else view st.tracker j)))
      (sym e)
      (unfold drop_exited in
        (
          refl,
          refl,
          drop_exited-IsForgotten st' tab.pid st'.bpf_tracker refl,
          view-remove st.tracker tab.pid j,
        ))
