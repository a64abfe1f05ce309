-- ===== src/Tests/Signals.antt =====
-- A report of a Firefox with a sounding tab, through the server and the veto of
-- daemon/src/signals.rs.
use bssl_ram.Prelude.{
  ◌+◌, ◌-◌, ◌≡◌, ◌≢◌, ◌≤◌, ◌↔◌, ◌⊎◌, refl, true, false, none, some, [], ◌∷◌, length, if◌then◌else◌,
  leb,
}
use bssl_ram.Prelude.Map
use bssl_ram.Prelude.Map.Size.{NodupKeys}
use bssl_ram.Prelude.Text.{text, text_eq, beq_text}
use bssl_ram.Signals
use bssl_ram.Signals.{
  SignalStore, CachedReport, ProfileVeto, new, no_content, protocol_version, sent_at_max_skew_ms,
  canonical_family, lacks_source, wire_version, report_handler, report_veto, profile_veto_at,
}
use bssl_ram.Signals.Admission.{
  IsTrusted, IsSupported, report_handler-no_content_iff, report_handler-profile_veto_at,
}
use bssl_ram.Signals.Family.{Reachable, started, received, Reachable-bounded}
use bssl_ram.Signals.Report.{BrowserSignalsReport, TabSignal}
use bssl_ram.Signals.Veto.{IsQuiet, profile_veto_at-none_iff}

abbrev sounding_tab : TabSignal
sounding_tab = record {
  tab_id = 1;
  window_id = 1;
  active = true;
  audible = true;
  hidden = false;
  discarded = false;
  last_accessed_ms = none;
  window_focused = false;
  url_origin = none;
  content = none;
}

abbrev pub report : BrowserSignalsReport
report = record {
  version = 0;
  protocol_version = 1;
  veto_ttl_ms = 0;
  sent_at_ms = 5000;
  browser = record { family = text "LibreWolf"; instance_id = []; system_idle_state = [] };
  summary = record {
    tabs_total = 1;
    audible_tabs = 1;
    hidden_tabs = 0;
    discarded_tabs = 0;
    active_tabs = 1;
    focused_windows = 0;
    content_samples = 0;
  };
  tabs = sounding_tab ∷ [];
}

abbrev pub empty_store : SignalStore
empty_store = new 45_000 90_000

abbrev sounding_store : SignalStore
sounding_store = record empty_store {
  reports = (text "firefox", record { received_at = 10; report = report }) ∷ [];
}

family_of_profile : canonical_family (text "firefox") ≡ some (text "firefox")
unfolding canonical_family
family_of_profile = refl

pub family_of_report : canonical_family (text "LibreWolf") ≡ some (text "firefox")
unfolding canonical_family
family_of_report = refl

distinct : NodupKeys sounding_store.reports
unfolding Map.lookup
distinct = (refl, tt)

is_vetoed :
    (profile_veto_at sounding_store (text "firefox") 20 0).1
    ≡ some (record { reason = Signals.audible_tab; detail = 1 })
unfolding profile_veto_at canonical_family Signals.drop_stale Map.retain Map.lookup report_veto
is_vetoed = refl

profile_veto_at-none_iff_example :
    ((profile_veto_at sounding_store (text "firefox") 20 0).1 ≡ none) ↔ (
      (cached : CachedReport)
      → Map.lookup (text "firefox") sounding_store.reports ≡ some cached
      → 20 - cached.received_at ≤ 45_000
      → IsQuiet sounding_store 0 cached.report)
profile_veto_at-none_iff_example =
    profile_veto_at-none_iff sounding_store (text "firefox") (text "firefox") 20 0 distinct
      family_of_profile

report_handler-no_content_iff_example :
    (((report_handler empty_store false none 10 5000 report).1 ≡ no_content) ↔ (
      IsTrusted false none
      × IsSupported report
      × (5000 ≤ 5000 + 120_000)
      × (5000 ≤ 5000 + 120_000)
      × (canonical_family (text "LibreWolf") ≢ none)))
    × (((report_handler empty_store false none 10 5000 report).1 ≡ no_content)
        ⊎ ((report_handler empty_store false none 10 5000 report).0 ≡ empty_store))
report_handler-no_content_iff_example =
    report_handler-no_content_iff empty_store false none 10 5000 report

is_admitted : (report_handler empty_store false none 10 5000 report).1 ≡ no_content
unfolding report_handler Signals.apply_report_at canonical_family Map.insert
is_admitted = refl

report_handler-profile_veto_at_example :
    (profile_veto_at
      (report_handler empty_store false none 10 5000 report).0
      (text "firefox")
      20
      6000).1
    ≡ (if beq_text (text "firefox") (text "firefox")
        then (if leb (20 - 10) 45_000 then report_veto empty_store 6000 report else none)
        else (profile_veto_at empty_store (text "firefox") 20 6000).1)
report_handler-profile_veto_at_example =
    report_handler-profile_veto_at empty_store false none 10 5000 report (text "firefox")
      (text "firefox") (text "firefox") 20 6000 tt is_admitted family_of_report family_of_profile

abbrev reached : SignalStore
reached = (report_handler empty_store false none 10 5000 report).0

reached-Reachable : Reachable 45_000 90_000 reached
reached-Reachable = received false none 10 5000 report started

Reachable-bounded_example :
    (reached.ttl ≡ 45_000)
    × (reached.interaction_grace ≡ 90_000)
    × NodupKeys reached.reports
    × (length reached.reports ≤ 2)
Reachable-bounded_example = Reachable-bounded 45_000 90_000 reached reached-Reachable
