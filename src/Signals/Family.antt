-- ===== src/Signals/Family.antt =====
-- The browser families of daemon/src/signals.rs as the keys of the store: reports and queries keep
-- at most one report for each of the two families.
use bssl_ram.Prelude.{
  ℕ, ◌≡◌, ◌≤◌, refl, Bool, true, Option, some, List, [], ◌∷◌, arith, any, length, Bool-cases, inl,
  inr, ◌∙◌, ap, sym,
}
use mathlib.Core.Path.{subst}
use bssl_ram.Prelude.Map
use bssl_ram.Prelude.Map.{lookup-insert}
use bssl_ram.Prelude.Map.Size.{
  NodupKeys, KeysWithin, insert-NodupKeys, lookup-retain, retain-NodupKeys_all,
  length-le_of_KeysWithin,
}
use bssl_ram.Prelude.Text.{Text, beq_text, beq_text_iff, text_eq}
use bssl_ram.Signals.{
  SignalStore, new, firefox, chromium, canonical_family, CachedReport, is_fresh, drop_stale,
  apply_report_at, report_handler, profile_veto_at,
}
use bssl_ram.Signals.Admission.{report_handler-store}
use bssl_ram.Signals.Report.{BrowserSignalsReport}

abbrev pub families : List Text
families = firefox ∷ chromium ∷ []

-- What the store keeps: no family twice, and no other key.
pub record IsBounded (s : SignalStore) : Type 0 where
  pub nodup : NodupKeys s.reports
  pub within : KeysWithin s.reports families

-- The stores that the server passes through, from its start on.
pub data Reachable (ttl grace : ℕ) : SignalStore → Type 0 where
  started : Reachable ttl grace (new ttl grace)
  received :
      {s : SignalStore} (requires_source_header : Bool) (header : Option Text) (now now_wall : ℕ)
      (report : BrowserSignalsReport)
      → Reachable ttl grace s
      → Reachable ttl grace (report_handler s requires_source_header header now now_wall report).0
  asked :
      {s : SignalStore} (profile : Text) (now now_wall_ms : ℕ)
      → Reachable ttl grace s
      → Reachable ttl grace (profile_veto_at s profile now now_wall_ms).0

pub canonical_family-among :
    (raw family : Text)
    → canonical_family raw ≡ some family
    → any (λ j. beq_text j family) families ≡ true
unfolding canonical_family
canonical_family-among raw family h =
    ground (arith, h, beq_text_iff firefox family, beq_text_iff chromium family)

insert-IsBounded :
    (s : SignalStore) (raw family : Text) (cached : CachedReport)
    → canonical_family raw ≡ some family
    → IsBounded s
    → IsBounded (record s { reports = Map.insert family cached s.reports })
insert-IsBounded s raw family cached known h = record {
  nodup = insert-NodupKeys family cached s.reports h.nodup;
  within = λ k found. elim (Bool-cases (beq_text family k)) [
    | inl same ↦ canonical_family-among raw k (known ∙ ap some ((beq_text_iff family k).0 same))
    | inr other ↦ h.within k (λ e. found (lookup-insert family k cached s.reports ∙ rw other e))
  ];
}

drop_stale-IsBounded : (s : SignalStore) (now : ℕ) → IsBounded s → IsBounded (drop_stale s now)
unfolding drop_stale
drop_stale-IsBounded s now h = record {
  nodup = retain-NodupKeys_all (λ _ cached. is_fresh s now cached) s.reports h.nodup;
  within = λ k found.
      h.within k
        (λ e. found (lookup-retain (λ _ cached. is_fresh s now cached) k s.reports h.nodup ∙ rw e));
}

report_handler-IsBounded :
    (s : SignalStore) (requires_source_header : Bool) (header : Option Text) (now now_wall : ℕ)
    (report : BrowserSignalsReport)
    → IsBounded s
    → IsBounded (report_handler s requires_source_header header now now_wall report).0
report_handler-IsBounded s requires_source_header header now now_wall report h =
    elim (report_handler-store s requires_source_header header now now_wall report) [
      | inl same ↦ subst IsBounded (sym same) h
      | inr (family, known, e) ↦
          subst IsBounded (sym e) (insert-IsBounded s report.browser.family family _ known h)
    ]

profile_veto_at-IsBounded :
    (s : SignalStore) (profile : Text) (now now_wall_ms : ℕ)
    → IsBounded s
    → IsBounded (profile_veto_at s profile now now_wall_ms).0
unfolding profile_veto_at
profile_veto_at-IsBounded s profile now now_wall_ms h = ground (arith, drop_stale-IsBounded s now h)

Reachable-IsBounded : {ttl grace : ℕ} {s : SignalStore} → Reachable ttl grace s → IsBounded s
unfolding Map.lookup
Reachable-IsBounded started = record { nodup = tt; within = λ k found. absurd (found refl) }
Reachable-IsBounded (received {s = s} req header now now_wall report r) =
    report_handler-IsBounded s req header now now_wall report (Reachable-IsBounded r)
Reachable-IsBounded (asked {s = s} profile now now_wall_ms r) =
    profile_veto_at-IsBounded s profile now now_wall_ms (Reachable-IsBounded r)

report_handler-times :
    (s : SignalStore) (requires_source_header : Bool) (header : Option Text) (now now_wall : ℕ)
    (report : BrowserSignalsReport)
    → ((report_handler s requires_source_header header now now_wall report).0.ttl ≡ s.ttl)
      × ((report_handler s requires_source_header header now now_wall report).0.interaction_grace
          ≡ s.interaction_grace)
unfolding report_handler apply_report_at
report_handler-times s requires_source_header header now now_wall report = ground arith

profile_veto_at-times :
    (s : SignalStore) (profile : Text) (now now_wall_ms : ℕ)
    → ((profile_veto_at s profile now now_wall_ms).0.ttl ≡ s.ttl)
      × ((profile_veto_at s profile now now_wall_ms).0.interaction_grace ≡ s.interaction_grace)
unfolding profile_veto_at drop_stale
profile_veto_at-times s profile now now_wall_ms = ground arith

times :
    {ttl grace : ℕ} {s : SignalStore}
    → Reachable ttl grace s
    → (s.ttl ≡ ttl) × (s.interaction_grace ≡ grace)
times started = (refl, refl)
times (received {s = s} req header now now_wall report r) =
    let same = report_handler-times s req header now now_wall report in
    (same.0 ∙ (times r).0, same.1 ∙ (times r).1)
times (asked {s = s} profile now now_wall_ms r) =
    let same = profile_veto_at-times s profile now now_wall_ms in
    (same.0 ∙ (times r).0, same.1 ∙ (times r).1)

-- Whatever reports the server receives and whatever vetoes the cycles ask for, in any order, the
-- store keeps its two durations and at most one report for each of the two families, so at most
-- two reports.
pub Reachable-bounded :
    (ttl grace : ℕ) (s : SignalStore)
    → Reachable ttl grace s
    → (s.ttl ≡ ttl) × (s.interaction_grace ≡ grace) × NodupKeys s.reports × (length s.reports ≤ 2)
Reachable-bounded ttl grace s r = (
  (times r).0,
  (times r).1,
  (Reachable-IsBounded r).nodup,
  length-le_of_KeysWithin families s.reports (Reachable-IsBounded r).nodup
      (Reachable-IsBounded r).within,
)
