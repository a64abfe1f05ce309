-- ===== src/Signals.antt =====
-- daemon/src/signals.rs: the reports that browsers send, and the vetoes against compression that
-- follow from them. An `Instant` and a `Duration` are nanoseconds; wall-clock times are
-- milliseconds.
pub mod Report
pub mod Family
pub mod Admission
pub mod Veto
pub mod Server
pub mod Hold
use bssl_ram.Prelude.{
  ℕ, ◌+◌, ◌-◌, ◌*◌, ◌/◌, ◌%◌, Bool, true, false, not, ◌&&◌, Option, none, some, List, [], ◌∷◌, ltb,
  leb, ◌==◌, count_if, if◌then◌else◌, ◌>>=◌,
}
use bssl_ram.Prelude.Map
use bssl_ram.Prelude.Map.{Map}
use bssl_ram.Prelude.Text.{Text, text, text_eq, beq_text, to_ascii_lowercase}
use bssl_ram.Prelude.Words.{u64_mod, add_u32, saturating_sub, abs_diff}
use bssl_ram.Signals.Report.{ContentSignal, TabSignal, BrowserDescriptor, BrowserSignalsReport}

abbrev pub source_value : Text
source_value = text "extension"

abbrev pub protocol_version : ℕ
protocol_version = 1

abbrev pub sent_at_max_skew_ms : ℕ
sent_at_max_skew_ms = 120_000

-- The `reason` of a veto.
pub data VetoReason : Type 0 where
  audible_tab playing_media focused_window recent_interaction : VetoReason

-- `detail` is the count that the text of the source shows.
pub record ProfileVeto : Type 0 where
  pub reason : VetoReason
  pub detail : ℕ

pub record CachedReport : Type 0 where
  pub received_at : ℕ
  pub report : BrowserSignalsReport

pub record SignalStore : Type 0 where
  pub ttl : ℕ
  pub interaction_grace : ℕ
  pub reports : Map Text CachedReport

-- `SignalStore::new`
abbrev pub new : ℕ → ℕ → SignalStore
new ttl interaction_grace = record {
  ttl = ttl;
  interaction_grace = interaction_grace;
  reports = [];
}

abbrev pub firefox : Text
firefox = text "firefox"

abbrev pub chromium : Text
chromium = text "chromium"

abbrev pub firefox_names : List Text
firefox_names =
    text "firefox" ∷ text "librewolf" ∷ text "waterfox" ∷ text "icecat" ∷ text "zen" ∷ []

abbrev pub chromium_names : List Text
chromium_names =
    text "chromium"
    ∷ text "chrome"
    ∷ text "brave"
    ∷ text "edge"
    ∷ text "opera"
    ∷ text "vivaldi"
    ∷ text "thorium"
    ∷ []

abbrev pub is_among : Text → List Text → Bool
is_among name [] = false
is_among name (n ∷ ns) = if beq_text name n then true else is_among name ns

unfoldable pub canonical_family : Text → Option Text
canonical_family raw =
    let name = to_ascii_lowercase raw in
    if is_among name firefox_names
    then some firefox
    else if is_among name chromium_names
    then some chromium
    else none

pub data ReportError : Type 0 where
  excessive_skew : ℕ → ReportError
  unsupported_family : ReportError

pub data Applied : Type 0 where
  accepted : SignalStore → Applied
  rejected : ReportError → Applied

abbrev pub with_family : BrowserSignalsReport → Text → BrowserSignalsReport
with_family r family = record r { browser = record (r.browser) { family = family } }

-- `apply_report_at`; `now` is the instant of the insertion.
unfoldable pub apply_report_at : SignalStore → ℕ → ℕ → BrowserSignalsReport → Applied
apply_report_at s now now_wall report =
    let skew_ms = abs_diff now_wall report.sent_at_ms in
    if ltb sent_at_max_skew_ms skew_ms
    then rejected (excessive_skew skew_ms)
    else elim (canonical_family report.browser.family) [
      | none ↦ rejected unsupported_family
      | some family ↦
          let cached : CachedReport = record {
            received_at = now;
            report = with_family report family;
          } in
          accepted (record s { reports = Map.insert family cached s.reports })
    ]

-- The three sums over the tabs.
abbrev pub playing_of : TabSignal → ℕ
playing_of tab = elim tab.content [ none ↦ 0 | some c ↦ c.playing_media_elements ]

unfoldable pub playing_media_elements : List TabSignal → ℕ
playing_media_elements [] = 0
playing_media_elements (tab ∷ tabs) = add_u32 (playing_of tab) (playing_media_elements tabs)

abbrev pub interaction_of : TabSignal → Option ℕ
interaction_of tab = do c ← tab.content; c.last_user_interaction_ms

abbrev pub is_recent : ℕ → TabSignal → Bool
is_recent cutoff tab = elim (interaction_of tab) [ none ↦ false | some ts ↦ leb cutoff ts ]

-- `as_millis() as u64` and the cutoff.
abbrev pub recent_cutoff : SignalStore → ℕ → ℕ
recent_cutoff s now_wall_ms = saturating_sub now_wall_ms (s.interaction_grace / 1_000_000 % u64_mod)

-- `profile_veto_at`, from the report on.
unfoldable pub report_veto : SignalStore → ℕ → BrowserSignalsReport → Option ProfileVeto
report_veto s now_wall_ms report =
    let audible_tabs = count_if (λ tab. tab.audible) report.tabs in
    let playing_media' = playing_media_elements report.tabs in
    let focused_windows = count_if (λ tab. tab.window_focused) report.tabs in
    let recent = count_if (is_recent (recent_cutoff s now_wall_ms)) report.tabs in
    if ltb 0 audible_tabs
    then some (record { reason = audible_tab; detail = audible_tabs })
    else if ltb 0 playing_media'
    then some (record { reason = playing_media; detail = playing_media' })
    else if ltb 0 focused_windows
    then some (record { reason = focused_window; detail = focused_windows })
    else if ltb 0 recent
    then some (record { reason = recent_interaction; detail = recent })
    else none

-- `duration_since` is 0 for an instant of the future.
abbrev pub is_fresh : SignalStore → ℕ → CachedReport → Bool
is_fresh s now cached = leb (now - cached.received_at) s.ttl

unfoldable pub drop_stale : SignalStore → ℕ → SignalStore
drop_stale s now = record s { reports = Map.retain (λ _ cached. is_fresh s now cached) s.reports }

-- `profile_veto_at`: the store without its stale reports, and the veto.
unfoldable pub profile_veto_at : SignalStore → Text → ℕ → ℕ → SignalStore × Option ProfileVeto
profile_veto_at s profile now now_wall_ms = elim (canonical_family profile) [
  | none ↦ (s, none)
  | some family ↦
      let s' = drop_stale s now in
      (s', do cached ← Map.lookup family s'.reports; report_veto s' now_wall_ms cached.report)
]

-- The status of a response.
pub data StatusCode : Type 0 where
  no_content bad_request unauthorized : StatusCode

abbrev pub wire_version : BrowserSignalsReport → ℕ
wire_version r = if not (r.protocol_version == 0) then r.protocol_version else r.version

-- The header is asked for on TCP only.
abbrev pub lacks_source : Bool → Option Text → Bool
lacks_source requires_source_header header =
    requires_source_header && not (elim header [ none ↦ false | some v ↦ beq_text v source_value ])

unfoldable pub report_handler :
    SignalStore → Bool → Option Text → ℕ → ℕ → BrowserSignalsReport → SignalStore × StatusCode
report_handler s requires_source_header header now now_wall report =
    if lacks_source requires_source_header header
    then (s, unauthorized)
    else if not (wire_version report == protocol_version)
    then (s, bad_request)
    else elim (apply_report_at s now now_wall report) [
      | accepted s' ↦ (s', no_content)
      | rejected e ↦ (s, bad_request)
    ]
