-- ===== src/Signals/Admission.antt =====
-- `report_handler` of daemon/src/signals.rs: which reports are admitted, and what a report changes
-- for the queries that follow.
use bssl_ram.Prelude.{
  ℕ, ◌+◌, ◌-◌, ◌≡◌, ◌≢◌, ◌≤◌, ◌↔◌, ◌⊎◌, ap, Bool, true, false, not, ◌&&◌, Option, none, some, arith,
  leb, ◌==◌, if◌then◌else◌, Option-cases, Bool-cases, inl, inr,
}
use bssl_ram.Prelude.Map
use bssl_ram.Prelude.Map.{lookup-insert}
use bssl_ram.Prelude.Map.Size.{NodupKeys, insert-NodupKeys}
use bssl_ram.Prelude.Text.{Text, text, beq_text, beq_text_iff, text_eq}
use bssl_ram.Prelude.Words.{abs_diff}
use bssl_ram.Signals.{
  SignalStore, CachedReport, StatusCode, no_content, protocol_version, sent_at_max_skew_ms,
  canonical_family, apply_report_at, lacks_source, wire_version, report_handler, report_veto,
  profile_veto_at, with_family,
}
use bssl_ram.Signals.Report.{BrowserSignalsReport}
use bssl_ram.Signals.Veto.{profile_veto_at_lem}

-- The store with the report under `family`.
abbrev pub stored : SignalStore → ℕ → BrowserSignalsReport → Text → SignalStore
stored s now report family =
    let cached : CachedReport = record { received_at = now; report = with_family report family } in
    record s { reports = Map.insert family cached s.reports }

-- The header is there if it is asked for.
abbrev pub IsTrusted : Bool → Option Text → Type 0
IsTrusted requires_source_header header =
    (requires_source_header ≡ false) ⊎ (header ≡ some (text "extension"))

-- Version 1, in the field `protocol_version`, or in `version` where that is 0.
abbrev pub IsSupported : BrowserSignalsReport → Type 0
IsSupported report =
    (report.protocol_version ≡ 1) ⊎ ((report.protocol_version ≡ 0) × (report.version ≡ 1))

lacks_source-IsTrusted :
    (requires_source_header : Bool) (header : Option Text)
    → (lacks_source requires_source_header header ≡ false) ↔ IsTrusted requires_source_header header
lacks_source-IsTrusted requires none = ground arith
lacks_source-IsTrusted requires (some v) = ground (arith, beq_text_iff v (text "extension"))

module _ (s : SignalStore) (requires_source_header : Bool) (header : Option Text) (now now_wall : ℕ)
    (report : BrowserSignalsReport) where
  -- Everything but the family.
  abbrev is_admissible : Bool
  is_admissible =
      not (lacks_source requires_source_header header)
      && wire_version report == protocol_version
      && leb (abs_diff now_wall report.sent_at_ms) sent_at_max_skew_ms

  abbrev handled : SignalStore × StatusCode
  handled = report_handler s requires_source_header header now now_wall report

  handled-stored :
      (family : Text)
      → is_admissible ≡ true
      → canonical_family report.browser.family ≡ some family
      → handled ≡ (stored s now report family, no_content)
  unfolding report_handler apply_report_at
  handled-stored family ok known = ground (arith, ok, known)

  handled-refused : is_admissible ≡ false → (handled.0 ≡ s) × (handled.1 ≢ no_content)
  unfolding report_handler apply_report_at
  handled-refused refused = ground (arith, refused)

  handled-unknown :
      canonical_family report.browser.family ≡ none → (handled.0 ≡ s) × (handled.1 ≢ no_content)
  unfolding report_handler apply_report_at
  handled-unknown unknown = ground (arith, unknown)

  pub handled-no_content_iff :
      ((handled.1 ≡ no_content) ↔ (
        (lacks_source requires_source_header header ≡ false)
        × (wire_version report ≡ protocol_version)
        × (abs_diff now_wall report.sent_at_ms ≤ sent_at_max_skew_ms)
        × (canonical_family report.browser.family ≢ none)))
      × ((handled.1 ≡ no_content) ⊎ (handled.0 ≡ s))
  handled-no_content_iff = elim (Option-cases (canonical_family report.browser.family)) [
    | inl unknown ↦ ground (arith, handled-unknown unknown, unknown)
    | inr (family, known) ↦ elim (Bool-cases is_admissible) [
      | inl ok ↦ ground (arith, handled-stored family ok known, known, ok)
      | inr refused ↦ ground (arith, handled-refused refused, refused)
    ]
  ]

  -- A report is admitted exactly if the header is there when it is asked for, the version is 1, in
  -- `protocol_version` or, where that is 0, in `version`, its time is at most two minutes before or
  -- after the daemon's, and its family is known; and a report that is not admitted leaves the store
  -- as it is.
  pub report_handler-no_content_iff :
      ((handled.1 ≡ no_content) ↔ (
        IsTrusted requires_source_header header
        × IsSupported report
        × (now_wall ≤ report.sent_at_ms + 120_000)
        × (report.sent_at_ms ≤ now_wall + 120_000)
        × (canonical_family report.browser.family ≢ none)))
      × ((handled.1 ≡ no_content) ⊎ (handled.0 ≡ s))
  report_handler-no_content_iff =
      ground (arith, handled-no_content_iff, lacks_source-IsTrusted requires_source_header header)

  pub handled-accepted :
      (family : Text)
      → canonical_family report.browser.family ≡ some family
      → handled.1 ≡ no_content
      → handled ≡ (stored s now report family, no_content)
  handled-accepted family known done = elim (Bool-cases is_admissible) [
    | inl ok ↦ handled-stored family ok known
    | inr refused ↦ absurd ((handled-refused refused).1 done)
  ]

  -- The handler's store is the old one, or the one with the report under its family.
  pub report_handler-store :
      (handled.0 ≡ s)
      ⊎ ((family : Text) × (canonical_family report.browser.family ≡ some family)
          × (handled.0 ≡ stored s now report family))
  report_handler-store = elim (Option-cases (canonical_family report.browser.family)) [
    | inl unknown ↦ inl (handled-unknown unknown).0
    | inr (family, known) ↦ elim (Bool-cases is_admissible) [
      | inl ok ↦ inr (family, known, ap (λ r. r.0) (handled-stored family ok known))
      | inr refused ↦ inl (handled-refused refused).0
    ]
  ]

-- The veto of a store that has just taken a report.
stored-veto :
    (s : SignalStore) (now : ℕ) (report : BrowserSignalsReport)
    (family profile profile_family : Text) (later later_wall : ℕ)
    → NodupKeys s.reports
    → canonical_family profile ≡ some profile_family
    → (profile_veto_at (stored s now report family) profile later later_wall).1 ≡ (
        if beq_text family profile_family
        then (if leb (later - now) s.ttl then report_veto s later_wall report else none)
        else (profile_veto_at s profile later later_wall).1)
unfolding report_veto
stored-veto s now report family profile profile_family later later_wall h known = ground (
  arith,
  profile_veto_at_lem (stored s now report family) profile profile_family later later_wall
      (insert-NodupKeys family _ s.reports h) known,
  profile_veto_at_lem s profile profile_family later later_wall h known,
  lookup-insert family profile_family
      (record { received_at = now; report = with_family report family }) s.reports,
)

-- After a report is admitted to a store with one report for each family, a later query about a
-- profile of the same family is answered by that report alone, whatever the store had before, until
-- the report is older than the time to live, and then there is no veto; a query about a profile of
-- another family is answered as before.
pub report_handler-profile_veto_at :
    (s : SignalStore) (requires_source_header : Bool) (header : Option Text) (now now_wall : ℕ)
    (report : BrowserSignalsReport) (family profile profile_family : Text) (later later_wall : ℕ)
    → NodupKeys s.reports
    → (report_handler s requires_source_header header now now_wall report).1 ≡ no_content
    → canonical_family report.browser.family ≡ some family
    → canonical_family profile ≡ some profile_family
    → (profile_veto_at
        (report_handler s requires_source_header header now now_wall report).0
        profile
        later
        later_wall).1
      ≡ (if beq_text family profile_family
          then (if leb (later - now) s.ttl then report_veto s later_wall report else none)
          else (profile_veto_at s profile later later_wall).1)
report_handler-profile_veto_at s req header now now_wall report family profile profile_family later
      later_wall h done known known' =
    rw (handled-accepted s req header now now_wall report family known done)
      (stored-veto s now report family profile profile_family later later_wall h known')
