-- ===== src/Cycle/Protection.antt =====
-- The signal gate of `scan_cycle` (daemon/src/main.rs) while a report counts in the store of
-- daemon/src/signals.rs: the browser's processes are left alone.
use bssl_ram.Prelude.{ℕ, ◌-◌, ◌≡◌, ◌≢◌, ◌≤◌, refl, sym, ◌∙◌, Bool, Option, none, some, inl, inr}
use bssl_ram.Prelude.Text.{Text}
use bssl_ram.Config.{Config}
use bssl_ram.Cycle.{
  Moment, State, meet, update_tracker, after_snapshot, drop_exited, visit, check_gates,
}
use bssl_ram.Cycle.Gates.{check_gates-cases}
use bssl_ram.Scanner.{TargetProcess}
use bssl_ram.Signals.{SignalStore, canonical_family, profile_veto_at}
use bssl_ram.Signals.Hold.{IsHeld, profile_veto_at-IsHeld}
use bssl_ram.Signals.Report.{BrowserSignalsReport}
use bssl_ram.Signals.Veto.{IsQuiet, report_veto-none_iff}
use bssl_ram.Tracker.{ProcSnapshot}

-- A store that objects to the page-out of a profile.
abbrev Objects : SignalStore → Moment → TargetProcess → Type 0
Objects s m tab = (profile_veto_at s tab.profile m.now m.now_wall_ms).1 ≢ none

check_gates-Objects :
    (config : Config) (st : State) (m : Moment) (tab : TargetProcess) (is_idle : Bool)
    (s : SignalStore)
    → st.signal_store ≡ some s
    → Objects s m tab
    → (check_gates config st m tab is_idle).calls ≡ st.calls
check_gates-Objects config st m tab is_idle s there objects =
    elim (check_gates-cases config st m tab is_idle) [
      | inl skip ↦ skip.calls
      | inr (allowed, try) ↦ absurd (objects (allowed.quiet s there))
    ]

after_snapshot-Objects :
    (config : Config) (st : State) (m : Moment) (tab : TargetProcess) (o : Option ProcSnapshot)
    (s : SignalStore)
    → st.signal_store ≡ some s
    → Objects s m tab
    → (after_snapshot config st m tab o).calls ≡ st.calls
unfolding after_snapshot drop_exited update_tracker
after_snapshot-Objects config st m tab none s there objects = refl
after_snapshot-Objects config st m tab (some snap) s there objects =
    let (st', is_idle) = update_tracker config st snap in
    check_gates-Objects config st' m tab is_idle s there objects

-- A report of the family of the target's profile was admitted by a server that has run from its
-- start; since then it handled only reports of other families and refused ones, and was asked for
-- vetoes only while the report was at most as old as the time to live. If that holds at the
-- target's turn too, and the report is not quiet, then the turn makes no system call, whatever the
-- configuration and the state of the process.
pub visit-IsHeld :
    (config : Config) (st : State) (tab : TargetProcess) (m : Moment) (ttl grace : ℕ)
    (family : Text) (report : BrowserSignalsReport) (received_at : ℕ) (s : SignalStore)
    → (meet st m tab.pid).signal_store ≡ some s
    → IsHeld ttl grace family report received_at s
    → canonical_family tab.profile ≡ some family
    → m.now - received_at ≤ ttl
    → ¬ IsQuiet s m.now_wall_ms report
    → (visit config st (tab, m)).calls ≡ st.calls
unfolding visit meet
visit-IsHeld config st tab m ttl grace family report received_at s there h known fresh loud =
    after_snapshot-Objects config (meet st m tab.pid) m tab _ s there (λ quiet. loud (
      (report_veto-none_iff s m.now_wall_ms report).0 (
        sym (
          profile_veto_at-IsHeld ttl grace family report received_at s tab.profile m.now
            m.now_wall_ms h known fresh)
        ∙ quiet)))
