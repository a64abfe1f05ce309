-- ===== src/Signals/Veto.antt =====
-- `profile_veto_at` of daemon/src/signals.rs: when there is no veto.
use bssl_ram.Prelude.{
  ℕ, ◌+◌, ◌-◌, ◌%◌, ◌≡◌, ◌≤◌, ◌<◌, ◌↔◌, refl, Bool, false, none, some, List, [], ◌∷◌, arith, All,
  count_if, if◌then◌else◌, ◌>>=◌, Option-cases, inl, inr, ◌∙◌,
}
use bssl_ram.Prelude.Map
use bssl_ram.Prelude.Map.Size.{NodupKeys, lookup-retain}
use bssl_ram.Prelude.Text.{Text, text_eq}
use bssl_ram.Prelude.Words.{u32_mod}
use bssl_ram.Signals.{
  SignalStore, CachedReport, canonical_family, playing_of, playing_media_elements, interaction_of,
  is_recent, recent_cutoff, report_veto, is_fresh, drop_stale, profile_veto_at,
}
use bssl_ram.Signals.Report.{TabSignal, BrowserSignalsReport}

-- The sum of the media elements that play, without a bound.
abbrev pub total_playing : List TabSignal → ℕ
total_playing [] = 0
total_playing (tab ∷ tabs) = playing_of tab + total_playing tabs

-- A tab that gives no reason to wait: no sound, no focus, no interaction since the cutoff.
abbrev pub IsQuietTab : ℕ → TabSignal → Type 0
IsQuietTab cutoff tab =
    (tab.audible ≡ false)
    × (tab.window_focused ≡ false)
    × ((ts : ℕ) → interaction_of tab ≡ some ts → ts < cutoff)

abbrev pub IsQuiet : SignalStore → ℕ → BrowserSignalsReport → Type 0
IsQuiet s now_wall_ms report =
    All (IsQuietTab (recent_cutoff s now_wall_ms)) report.tabs
    × (total_playing report.tabs % u32_mod ≡ 0)

playing_media_elements_lem :
    (tabs : List TabSignal) → playing_media_elements tabs ≡ total_playing tabs % u32_mod
unfolding playing_media_elements
playing_media_elements_lem [] = refl
playing_media_elements_lem (tab ∷ tabs) = omega (arith, playing_media_elements_lem tabs)

count_zero_iff :
    (p : TabSignal → Bool) (tabs : List TabSignal)
    → (count_if p tabs ≡ 0) ↔ All (λ tab. p tab ≡ false) tabs
count_zero_iff p [] = ground arith
count_zero_iff p (tab ∷ tabs) = ground (arith, count_zero_iff p tabs)

not_recent_iff :
    (cutoff : ℕ) (tab : TabSignal)
    → (is_recent cutoff tab ≡ false) ↔ ((ts : ℕ) → interaction_of tab ≡ some ts → ts < cutoff)
not_recent_iff cutoff tab = elim (Option-cases (interaction_of tab)) [
  | inl e ↦ ((λ h ts found. absurd (ground (arith, e, found))), λ h. ground (arith, e))
  | inr (ts, e) ↦ ((λ h ts' found. ground (arith, e, found)), λ h. ground (arith, h ts e))
]

quiet_tabs_iff :
    (cutoff : ℕ) (tabs : List TabSignal)
    → ((count_if (λ tab. tab.audible) tabs ≡ 0)
        × (count_if (λ tab. tab.window_focused) tabs ≡ 0)
        × (count_if (is_recent cutoff) tabs ≡ 0))
      ↔ All (IsQuietTab cutoff) tabs
quiet_tabs_iff cutoff [] = ground arith
quiet_tabs_iff cutoff (tab ∷ tabs) =
    ground (arith, quiet_tabs_iff cutoff tabs, not_recent_iff cutoff tab)

pub report_veto-none_iff :
    (s : SignalStore) (now_wall_ms : ℕ) (report : BrowserSignalsReport)
    → (report_veto s now_wall_ms report ≡ none) ↔ IsQuiet s now_wall_ms report
unfolding report_veto
report_veto-none_iff s now_wall_ms report = ground (
  arith,
  quiet_tabs_iff (recent_cutoff s now_wall_ms) report.tabs,
  playing_media_elements_lem report.tabs,
)

-- The veto of a known family, by what the store has for it.
pub profile_veto_at_lem :
    (s : SignalStore) (profile family : Text) (now now_wall_ms : ℕ)
    → NodupKeys s.reports
    → canonical_family profile ≡ some family
    → (profile_veto_at s profile now now_wall_ms).1 ≡ (do
      cached ← Map.lookup family s.reports
      if is_fresh s now cached then report_veto s now_wall_ms cached.report else none)
unfolding profile_veto_at drop_stale report_veto
profile_veto_at_lem s profile family now now_wall_ms h e =
    ground (arith, e, lookup-retain (λ _ cached. is_fresh s now cached) family s.reports h)

-- For a profile whose family is known and a store with one report for each family, there is no veto
-- exactly if the family's report, when there is one and it is within the time to live, is
-- quiet: no tab is audible, in a focused window or used since the cutoff, and the elements that
-- play sum to 0 modulo 2 ^ 32.
pub profile_veto_at-none_iff :
    (s : SignalStore) (profile family : Text) (now now_wall_ms : ℕ)
    → NodupKeys s.reports
    → canonical_family profile ≡ some family
    → ((profile_veto_at s profile now now_wall_ms).1 ≡ none) ↔ (
        (cached : CachedReport)
        → Map.lookup family s.reports ≡ some cached
        → now - cached.received_at ≤ s.ttl
        → IsQuiet s now_wall_ms cached.report)
profile_veto_at-none_iff s profile family now now_wall_ms h e = (
  (λ no_veto cached found fresh.
      let value : (if is_fresh s now cached then report_veto s now_wall_ms cached.report else none)
          ≡ none =
        ground (arith, entry, found, no_veto) in
      (report_veto-none_iff s now_wall_ms cached.report).0 (ground (arith, value, fresh))),
  λ quiet. elim (Option-cases (Map.lookup family s.reports)) [
    | inl absent ↦ entry ∙ rw absent
    | inr (cached, found) ↦ ground (
      arith,
      entry,
      (report_veto-none_iff s now_wall_ms cached.report).1,
      quiet cached found,
      found,
    )
  ],
)
  where
    entry : (profile_veto_at s profile now now_wall_ms).1 ≡ (do
      cached ← Map.lookup family s.reports
      if is_fresh s now cached then report_veto s now_wall_ms cached.report else none)
    entry = profile_veto_at_lem s profile family now now_wall_ms h e
