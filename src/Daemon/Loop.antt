-- ===== src/Daemon/Loop.antt =====
-- The main loop of daemon/src/main.rs: how many cycles it runs, how it stops, and its invariant.
use bssl_ram.Prelude.{
  ℕ, ◌+◌, ◌%◌, ◌≡◌, refl, sym, ap, ◌∙◌, Bool, true, false, ◌||◌, List, [], ◌∷◌, ◌++◌, length,
  count_if, any, arith, if◌then◌else◌,
}
use mathlib.Core.Path.{subst}
use bssl_ram.Prelude.Words.{u64_mod, add_u64}
use bssl_ram.Config.{Config}
use bssl_ram.Cycle.Counters.{scan_cycle-tally}
use bssl_ram.Cycle.Sweep.{scan_cycle-bounded}
use bssl_ram.Daemon.{
  Daemon, Scene, Wake, timer, psi_pressure, sigint, sigterm, collect_targets, with_moments,
  follow_events, maybe_reseed, scan, maybe_emit, on_timer, on_psi, on_signal, run,
}
use bssl_ram.Tracker.Memory.{IsWellFormed}

abbrev pub is_signal : Wake → Bool
is_signal sigint = true
is_signal sigterm = true
is_signal _ = false

abbrev pub is_psi : Wake → Bool
is_psi (psi_pressure s) = true
is_psi _ = false

-- The wakes before the first signal: those that start a cycle.
abbrev pub served : List Wake → List Wake
served [] = []
served (w ∷ wakes) = if is_signal w then [] else w ∷ served wakes

-- The counts that the loop moves.
abbrev pub counts : Daemon → ℕ × ℕ × ℕ × Bool
counts d = (d.state.stats.scans, d.state.stats.psi_events, d.cycle, d.shutdown)

scan-counts :
    (config : Config) (d : Daemon) (s : Scene)
    → counts (scan config d s)
      ≡ ((d.state.stats.scans + 1) % u64_mod, d.state.stats.psi_events, d.cycle, d.shutdown)
unfolding scan
scan-counts config d s =
    let targets = with_moments s.moment_of 0 (collect_targets d.process_table config s.walk_proc) in
    let moved = scan_cycle-tally config d.state targets in ground (arith, moved.2, moved.4)

maybe_reseed-counts :
    (config : Config) (d : Daemon) (s : Scene)
    → (counts (maybe_reseed config d s) ≡ counts d) × ((maybe_reseed config d s).state ≡ d.state)
unfolding maybe_reseed
maybe_reseed-counts config d s = ground arith

maybe_emit-counts :
    (config : Config) (d : Daemon)
    → (counts (maybe_emit config d) ≡ counts d) × ((maybe_emit config d).state ≡ d.state)
unfolding maybe_emit
maybe_emit-counts config d = ground arith

pub on_timer-counts :
    (config : Config) (d : Daemon) (s : Scene)
    → counts (on_timer config d s) ≡ (
      (d.state.stats.scans + 1) % u64_mod,
      d.state.stats.psi_events,
      add_u64 d.cycle 1,
      d.shutdown,
    )
unfolding on_timer follow_events
on_timer-counts config d s =
    let d0 : Daemon = record (follow_events config d s) { cycle = add_u64 d.cycle 1 } in
    let d1 = maybe_reseed config d0 s in
    (maybe_emit-counts config (scan config d1 s)).0
    ∙ scan-counts config d1 s
    ∙ ap (λ c. ((c.0 + 1) % u64_mod, c.1, c.2, c.3)) (maybe_reseed-counts config d0 s).0

pub on_psi-counts :
    (config : Config) (d : Daemon) (s : Scene)
    → counts (on_psi config d s) ≡ (
      (d.state.stats.scans + 1) % u64_mod,
      add_u64 d.state.stats.psi_events 1,
      add_u64 d.cycle 1,
      d.shutdown,
    )
unfolding on_psi follow_events
on_psi-counts config d s = scan-counts config _ s

-- The daemon runs one cycle for each wake before the first signal, and none after it: `scans` and
-- the number of the cycle move by that many, `psi_events` by those of them that report pressure, as
-- u64, and the shutdown flag goes up exactly if a signal comes.
pub run-counts :
    (config : Config) (d : Daemon) (wakes : List Wake)
    → ((run config d wakes).state.stats.scans % u64_mod
        ≡ (d.state.stats.scans + length (served wakes)) % u64_mod)
      × ((run config d wakes).state.stats.psi_events % u64_mod
          ≡ (d.state.stats.psi_events + count_if is_psi (served wakes)) % u64_mod)
      × ((run config d wakes).cycle % u64_mod ≡ (d.cycle + length (served wakes)) % u64_mod)
      × ((run config d wakes).shutdown ≡ (d.shutdown || any is_signal wakes))
unfolding run on_signal
run-counts config d [] = ground arith
run-counts config d (timer s ∷ wakes) =
    let (scans, psi, cycle, down) = run-counts config (on_timer config d s) wakes in
    let step = on_timer-counts config d s in
    ground (
      arith,
      scans,
      psi,
      cycle,
      down,
      ap (λ c. c.0) step,
      ap (λ c. c.1) step,
      ap (λ c. c.2) step,
      ap (λ c. c.3) step,
    )
run-counts config d (psi_pressure s ∷ wakes) =
    let (scans, psi, cycle, down) = run-counts config (on_psi config d s) wakes in
    let step = on_psi-counts config d s in
    ground (
      arith,
      scans,
      psi,
      cycle,
      down,
      ap (λ c. c.0) step,
      ap (λ c. c.1) step,
      ap (λ c. c.2) step,
      ap (λ c. c.3) step,
    )
run-counts config d (sigint ∷ wakes) = ground arith
run-counts config d (sigterm ∷ wakes) = ground arith

-- A signal ends the loop, whatever came before and whatever wakes would come after it: the flag
-- goes up, and the counters at that point are the last that are emitted.
pub run-stops :
    (config : Config) (d : Daemon) (before after : List Wake) (signal : Wake)
    → any is_signal before ≡ false
    → is_signal signal ≡ true
    → run config d (before ++ signal ∷ after) ≡ on_signal (run config d before)
unfolding run
run-stops config d [] after (timer s) h e = absurd (ground (arith, e))
run-stops config d [] after (psi_pressure s) h e = absurd (ground (arith, e))
run-stops config d [] after sigint h e = refl
run-stops config d [] after sigterm h e = refl
run-stops config d (timer s ∷ before) after signal h e =
    run-stops config (on_timer config d s) before after signal h e
run-stops config d (psi_pressure s ∷ before) after signal h e =
    run-stops config (on_psi config d s) before after signal h e
run-stops config d (sigint ∷ before) after signal h e = absurd (ground (arith, h))
run-stops config d (sigterm ∷ before) after signal h e = absurd (ground (arith, h))

scan-IsWellFormed :
    (config : Config) (d : Daemon) (s : Scene)
    → IsWellFormed d.state.tracker
    → IsWellFormed (scan config d s).state.tracker
unfolding scan
scan-IsWellFormed config d s h = (scan_cycle-bounded config d.state _ h).0

on_timer-IsWellFormed :
    (config : Config) (d : Daemon) (s : Scene)
    → IsWellFormed d.state.tracker
    → IsWellFormed (on_timer config d s).state.tracker
unfolding on_timer follow_events
on_timer-IsWellFormed config d s h =
    let d0 : Daemon = record (follow_events config d s) { cycle = add_u64 d.cycle 1 } in
    let d1 = maybe_reseed config d0 s in
    let kept = subst (λ st. IsWellFormed st.tracker) (sym (maybe_reseed-counts config d0 s).1) h in
    subst (λ st. IsWellFormed st.tracker) (sym (maybe_emit-counts config (scan config d1 s)).1)
      (scan-IsWellFormed config d1 s kept)

on_psi-IsWellFormed :
    (config : Config) (d : Daemon) (s : Scene)
    → IsWellFormed d.state.tracker
    → IsWellFormed (on_psi config d s).state.tracker
unfolding on_psi follow_events
on_psi-IsWellFormed config d s h = scan-IsWellFormed config _ s h

-- From a well-formed tracker, whatever wakes the loop and whatever the cycles meet, the maps of the
-- tracker never hold a PID twice.
pub run-IsWellFormed :
    (config : Config) (d : Daemon) (wakes : List Wake)
    → IsWellFormed d.state.tracker
    → IsWellFormed (run config d wakes).state.tracker
unfolding run on_signal
run-IsWellFormed config d [] h = h
run-IsWellFormed config d (timer s ∷ wakes) h =
    run-IsWellFormed config (on_timer config d s) wakes (on_timer-IsWellFormed config d s h)
run-IsWellFormed config d (psi_pressure s ∷ wakes) h =
    run-IsWellFormed config (on_psi config d s) wakes (on_psi-IsWellFormed config d s h)
run-IsWellFormed config d (sigint ∷ wakes) h = h
run-IsWellFormed config d (sigterm ∷ wakes) h = h
