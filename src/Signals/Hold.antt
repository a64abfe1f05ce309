-- ===== src/Signals/Hold.antt =====
-- How long a report counts in the store of daemon/src/signals.rs: until a newer one of its family
-- is admitted, or it is older than the time to live.
use bssl_ram.Prelude.{
  ℕ, ◌-◌, ◌≡◌, ◌≢◌, ◌≤◌, sym, ap, ◌∙◌, Bool, Option, some, inl, inr, arith, Option-cases,
  Bool-cases,
}
use mathlib.Core.Path.{subst}
use bssl_ram.Prelude.Map
use bssl_ram.Prelude.Map.{lookup-insert}
use bssl_ram.Prelude.Map.Size.{NodupKeys, lookup-retain}
use bssl_ram.Prelude.Text.{Text, text_eq, beq_text, beq_text_iff}
use bssl_ram.Signals.{
  SignalStore, CachedReport, no_content, canonical_family, report_handler, profile_veto_at,
  report_veto, with_family, is_fresh, drop_stale,
}
use bssl_ram.Signals.Admission.{handled-accepted, report_handler-store, handled-no_content_iff}
use bssl_ram.Signals.Family.{Reachable, received, asked, Reachable-bounded}
use bssl_ram.Signals.Report.{BrowserSignalsReport}
use bssl_ram.Signals.Veto.{profile_veto_at_lem}

module _ (ttl grace : ℕ) (family : Text) (report : BrowserSignalsReport) (received_at : ℕ) where
  -- The stores from the admission of the report on: other reports of other families, refused
  -- reports, and queries while the report is fresh.
  pub data IsHeld : SignalStore → Type 0 where
    admitted :
        {s : SignalStore} (requires_source_header : Bool) (header : Option Text) (now_wall : ℕ)
        → Reachable ttl grace s
        → canonical_family report.browser.family ≡ some family
        → (report_handler s requires_source_header header received_at now_wall report).1
          ≡ no_content
        → IsHeld (report_handler s requires_source_header header received_at now_wall report).0
    other :
        {s : SignalStore} (requires_source_header : Bool) (header : Option Text) (now now_wall : ℕ)
        (r : BrowserSignalsReport)
        → IsHeld s
        → canonical_family r.browser.family ≢ some family
        → IsHeld (report_handler s requires_source_header header now now_wall r).0
    refused :
        {s : SignalStore} (requires_source_header : Bool) (header : Option Text) (now now_wall : ℕ)
        (r : BrowserSignalsReport)
        → IsHeld s
        → (report_handler s requires_source_header header now now_wall r).1 ≢ no_content
        → IsHeld (report_handler s requires_source_header header now now_wall r).0
    queried :
        {s : SignalStore} (profile : Text) (now now_wall_ms : ℕ)
        → IsHeld s
        → now - received_at ≤ ttl
        → IsHeld (profile_veto_at s profile now now_wall_ms).0

  abbrev held : CachedReport
  held = record { received_at = received_at; report = with_family report family }

  IsHeld-Reachable : {s : SignalStore} → IsHeld s → Reachable ttl grace s
  IsHeld-Reachable (admitted req header now_wall r known done) =
      received req header received_at now_wall report r
  IsHeld-Reachable (other req header now now_wall r h differs) =
      received req header now now_wall r (IsHeld-Reachable h)
  IsHeld-Reachable (refused req header now now_wall r h not_taken) =
      received req header now now_wall r (IsHeld-Reachable h)
  IsHeld-Reachable (queried profile now now_wall_ms h fresh) =
      asked profile now now_wall_ms (IsHeld-Reachable h)

  abbrev IsKept : SignalStore → Type 0
  IsKept s = Map.lookup family s.reports ≡ some held

  other-IsKept :
      (s : SignalStore) (req : Bool) (header : Option Text) (now now_wall : ℕ)
      (r : BrowserSignalsReport)
      → IsKept s
      → canonical_family r.browser.family ≢ some family
      → IsKept (report_handler s req header now now_wall r).0
  other-IsKept s req header now now_wall r kept differs =
      elim (report_handler-store s req header now now_wall r) [
        | inl same ↦ subst IsKept (sym same) kept
        | inr (family', known, e) ↦ elim (Bool-cases (beq_text family' family)) [
          | inl equal ↦ absurd (differs (known ∙ ap some ((beq_text_iff family' family).0 equal)))
          | inr unequal ↦ subst IsKept (sym e) (
              ground (
                arith,
                kept,
                unequal,
                lookup-insert family' family
                    (record { received_at = now; report = with_family r family' }) s.reports,
              ))
        ]
      ]

  queried-IsKept :
      (s : SignalStore) (profile : Text) (now now_wall_ms : ℕ)
      → NodupKeys s.reports
      → s.ttl ≡ ttl
      → IsKept s
      → now - received_at ≤ ttl
      → IsKept (profile_veto_at s profile now now_wall_ms).0
  unfolding profile_veto_at drop_stale
  queried-IsKept s profile now now_wall_ms nodup same kept fresh =
      elim (Option-cases (canonical_family profile)) [
        | inl unknown ↦ ground (arith, unknown, kept)
        | inr (f, known) ↦ ground (
          arith,
          known,
          kept,
          same,
          fresh,
          lookup-retain (λ _ cached. is_fresh s now cached) family s.reports nodup,
        )
      ]

  IsHeld-IsKept : {s : SignalStore} → IsHeld s → IsKept s
  IsHeld-IsKept (admitted {s = s} req header now_wall r known done) =
      subst (λ x. IsKept x.0)
        (sym (handled-accepted s req header received_at now_wall report family known done))
        (ground (arith, lookup-insert family family held s.reports, beq_text_iff family family))
  IsHeld-IsKept (other {s = s} req header now now_wall r h differs) =
      other-IsKept s req header now now_wall r (IsHeld-IsKept h) differs
  IsHeld-IsKept (refused {s = s} req header now now_wall r h not_taken) =
      elim (handled-no_content_iff s req header now now_wall r).1 [
        | inl taken ↦ absurd (not_taken taken)
        | inr same ↦ subst IsKept (sym same) (IsHeld-IsKept h)
      ]
  IsHeld-IsKept (queried {s = s} profile now now_wall_ms h fresh) =
      let b = Reachable-bounded ttl grace s (IsHeld-Reachable h) in
      queried-IsKept s profile now now_wall_ms b.2 b.0 (IsHeld-IsKept h) fresh

  -- While the report counts, it alone decides on the profiles of its family.
  pub profile_veto_at-IsHeld :
      (s : SignalStore) (profile : Text) (now now_wall_ms : ℕ)
      → IsHeld s
      → canonical_family profile ≡ some family
      → now - received_at ≤ ttl
      → (profile_veto_at s profile now now_wall_ms).1 ≡ report_veto s now_wall_ms report
  unfolding report_veto
  profile_veto_at-IsHeld s profile now now_wall_ms h known fresh =
      let b = Reachable-bounded ttl grace s (IsHeld-Reachable h) in
      ground (
        arith,
        IsHeld-IsKept h,
        b.0,
        fresh,
        profile_veto_at_lem s profile family now now_wall_ms b.2 known,
      )
