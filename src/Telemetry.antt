-- ===== src/Telemetry.antt =====
-- daemon/src/telemetry.rs: the counters of the daemon. An atomic addition wraps at 2 ^ 64.
use bssl_ram.Prelude.{ℕ, ◌/◌, Option, none, some, if◌then◌else◌}
use bssl_ram.Prelude.Text.{Text, text, beq_text}
use bssl_ram.Prelude.Words.{add_u64}

pub record Stats : Type 0 where
  pub scans : ℕ
  pub targets_seen : ℕ
  pub compressions : ℕ
  pub bytes_paged_out : ℕ
  pub bytes_skipped_by_kernel : ℕ
  pub skips_warmup : ℕ
  pub skips_active : ℕ
  pub skips_already_compressed : ℕ
  pub skips_low_rss : ℕ
  pub skips_browser_signals : ℕ
  pub errors : ℕ
  pub psi_events : ℕ

-- `Stats::default`
abbrev pub default_stats : Stats
default_stats = record {
  scans = 0;
  targets_seen = 0;
  compressions = 0;
  bytes_paged_out = 0;
  bytes_skipped_by_kernel = 0;
  skips_warmup = 0;
  skips_active = 0;
  skips_already_compressed = 0;
  skips_low_rss = 0;
  skips_browser_signals = 0;
  errors = 0;
  psi_events = 0;
}

-- `inc`, of a counter's value
abbrev pub inc : ℕ → ℕ
inc counter = add_u64 counter 1

-- `add`, of a counter's value
abbrev pub add : ℕ → ℕ → ℕ
add counter n = add_u64 counter n

-- What `emit` shows: the counters, those of bytes in MiB.
unfoldable pub emit : Stats → Stats
emit s = record s {
  bytes_paged_out = s.bytes_paged_out / 1024 / 1024;
  bytes_skipped_by_kernel = s.bytes_skipped_by_kernel / 1024 / 1024;
}

-- The layout of the log. `init` installs it, which is the logging library's.
pub data LogFormat : Type 0 where
  json compact pretty : LogFormat

-- The filter and the layout that `init` chooses, from the filter of the environment, if it has a
-- valid one, and from BSSL_LOG_FORMAT.
unfoldable pub init : Option Text → Option Text → Text × LogFormat
init rust_log log_format =
    let filter : Text = elim rust_log [ none ↦ text "info,bssl_ram=info" | some f ↦ f ] in
    let format : Text = elim log_format [ none ↦ text "pretty" | some f ↦ f ] in
    (
      filter,
      if beq_text format (text "json")
          then json
          else if beq_text format (text "compact")
          then compact
          else pretty,
    )
