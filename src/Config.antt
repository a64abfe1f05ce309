-- ===== src/Config.antt =====
-- daemon/src/config.rs: the configuration and its defaults. The parser of TOML is a parameter.
use bssl_ram.Prelude.{ℕ, Bool, true, false, Option, none, some, List}
use bssl_ram.Prelude.Text.{Text, text}
use bssl_ram.Scanner.{BrowserProfile, default_profiles}

pub record Config : Type 0 where
  pub idle_cycles_threshold : ℕ
  pub scan_interval_secs : ℕ
  pub cpu_delta_threshold : ℕ
  pub wakeup_delta_threshold : ℕ
  pub min_rss_mib : ℕ
  pub dry_run : Bool
  pub telemetry_interval_cycles : ℕ
  pub psi_enabled : Bool
  pub psi_stall_threshold_us : ℕ
  pub psi_window_us : ℕ
  pub enable_bpf_cpu_tracker : Bool
  pub cn_proc_reseed_every_n_cycles : ℕ
  pub signal_server_enabled : Bool
  pub signal_server_bind : Text
  pub signal_ttl_secs : ℕ
  pub signal_interaction_grace_secs : ℕ
  pub signal_transport : Text
  pub signal_uds_path : Text
  pub profiles : List BrowserProfile

-- `Config::default`
abbrev pub default_config : Config
default_config = record {
  idle_cycles_threshold = 3;
  scan_interval_secs = 10;
  cpu_delta_threshold = 2;
  wakeup_delta_threshold = 50;
  min_rss_mib = 50;
  dry_run = false;
  telemetry_interval_cycles = 60;
  psi_enabled = true;
  psi_stall_threshold_us = 150_000;
  psi_window_us = 1_000_000;
  enable_bpf_cpu_tracker = false;
  cn_proc_reseed_every_n_cycles = 10;
  signal_server_enabled = false;
  signal_server_bind = text "127.0.0.1:7879";
  signal_ttl_secs = 45;
  signal_interaction_grace_secs = 90;
  signal_transport = text "uds";
  signal_uds_path = text "/run/bssl-ram/signals.sock";
  profiles = default_profiles;
}

-- `Config::load`: what is at the path (nothing, or a text that may be unreadable) and the parser,
-- and then the configuration, or an error.
unfoldable pub load : (Text → Option Config) → Option (Option Text) → Option Config
load from_str none = some default_config
load from_str (some none) = none
load from_str (some (some raw)) = from_str raw
