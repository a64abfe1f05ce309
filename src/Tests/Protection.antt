-- ===== src/Tests/Protection.antt =====
-- A report of a Firefox with a sounding tab, and then the turn of one of its processes in a cycle
-- of daemon/src/main.rs.
use bssl_ram.Prelude.{◌≡◌, refl, false, none, some, arith}
use bssl_ram.Prelude.Text.{text}
use bssl_ram.Config.{default_config}
use bssl_ram.Cycle
use bssl_ram.Cycle.{Moment, State, meet, visit}
use bssl_ram.Cycle.Protection.{visit-IsHeld}
use bssl_ram.Signals
use bssl_ram.Signals.{SignalStore, StatusCode, no_content, report_handler}
use bssl_ram.Signals.Family.{started}
use bssl_ram.Signals.Hold.{IsHeld, admitted}
use bssl_ram.Signals.Veto.{IsQuiet}
use bssl_ram.Tests.Cycle.{moment, state, tab}
use bssl_ram.Tests.Signals.{report, empty_store, family_of_report}

-- The store after the report, which was handled at 10.
abbrev told : SignalStore × StatusCode
told = report_handler empty_store false none 10 5000 report

told_taken : told.1 ≡ no_content
unfolding report_handler Signals.apply_report_at Signals.canonical_family
told_taken = refl

told-IsHeld : IsHeld 45_000 90_000 (text "firefox") report 10 told.0
told-IsHeld = admitted false none 5000 started family_of_report told_taken

abbrev told_state : State
told_state = record state { signal_store = some told.0 }

abbrev later : Moment
later = record moment { now = 20 }

told_there : (meet told_state later 7).signal_store ≡ some told.0
unfolding meet Cycle.take_reports
told_there = refl

loud : ¬ IsQuiet told.0 0 report
loud q = cc (q.0.0.0)

firefox_known : Signals.canonical_family (text "firefox") ≡ some (text "firefox")
unfolding Signals.canonical_family
firefox_known = refl

visit-IsHeld_example : (visit default_config told_state (tab, later)).calls ≡ told_state.calls
visit-IsHeld_example =
    visit-IsHeld default_config told_state tab later 45_000 90_000 (text "firefox") report 10 told.0
      told_there told-IsHeld firefox_known (omega arith) loud
