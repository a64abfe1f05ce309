-- ===== src/Signals/Report.antt =====
-- The payload of a report (daemon/src/signals.rs), after deserialisation. An `i64` is kept as its
-- bit pattern.
use bssl_ram.Prelude.{ℕ, Bool, Option, List}
use bssl_ram.Prelude.Text.{Text}

pub record ContentSignal : Type 0 where
  pub visibility_state : Text
  pub document_has_focus : Bool
  pub fullscreen : Bool
  pub picture_in_picture : Bool
  pub media_elements : ℕ
  pub playing_media_elements : ℕ
  pub last_user_interaction_ms : Option ℕ
  pub sampled_at_ms : ℕ

pub record TabSignal : Type 0 where
  pub tab_id : ℕ
  pub window_id : ℕ
  pub active : Bool
  pub audible : Bool
  pub hidden : Bool
  pub discarded : Bool
  pub last_accessed_ms : Option ℕ
  pub window_focused : Bool
  pub url_origin : Option Text
  pub content : Option ContentSignal

pub record SignalSummary : Type 0 where
  pub tabs_total : ℕ
  pub audible_tabs : ℕ
  pub hidden_tabs : ℕ
  pub discarded_tabs : ℕ
  pub active_tabs : ℕ
  pub focused_windows : ℕ
  pub content_samples : ℕ

pub record BrowserDescriptor : Type 0 where
  pub family : Text
  pub instance_id : Text
  pub system_idle_state : Text

pub record BrowserSignalsReport : Type 0 where
  pub version : ℕ
  pub protocol_version : ℕ
  pub veto_ttl_ms : ℕ
  pub sent_at_ms : ℕ
  pub browser : BrowserDescriptor
  pub summary : SignalSummary
  pub tabs : List TabSignal
