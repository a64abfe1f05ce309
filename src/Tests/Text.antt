-- ===== src/Tests/Text.antt =====
-- Command lines, /proc files, cn_proc datagrams and frames at concrete inputs.
use bssl_ram.Prelude.{
  ℕ, ◌≡◌, ◌≢◌, ◌<◌, ◌≤◌, ◌↔◌, refl, Bool, true, false, Option, none, some, List, [], ◌∷◌, ◌++◌, map,
  In, All, length, count_if, arith, if◌then◌else◌,
}
use bssl_ram.Prelude.Text.{Text, text, lines, split_whitespace, beq_text}
use bssl_ram.Prelude.Text.Split.{IsToken, Lacks, terminate, join_words}
use bssl_ram.Prelude.Text.Utf8.{as_bytes}
use bssl_ram.Compressor.{
  Kernel, CompressOutcome, compress_pid, is_real_success, iov_max, opened, advised, closed,
  parse_anon_regions, parse_proc_stats,
}
use bssl_ram.Compressor.Chunks.{concat}
use bssl_ram.Compressor.Outcome.{
  is_error, answers, batches_of, compress_pid-calls, compress_pid_success_iff,
}
use bssl_ram.Compressor.Regions.{IsRegion, parse_anon_regions_iff}
use bssl_ram.Compressor.Stat.{stats_of, parse_proc_stats-join_words}
use bssl_ram.Connector.{ProcEvent, exec, parse_events}
use bssl_ram.Connector.Layout.{execed, event, parse_events-event}
use bssl_ram.Connector.Bounds.{IsReport, parse_events-in_bounds}
use bssl_ram.Scanner.{parse_cmdline}
use bssl_ram.Scanner.Tokens.{IsArg, parse_cmdline-terminate}

abbrev args : List Text
args = text "firefox" ∷ text "tab" ∷ []

args-IsArg : All IsArg args
args-IsArg = ground arith

parse_cmdline-terminate_example :
    (parse_cmdline (terminate 0 (map as_bytes args)) ≡ args)
    × (parse_cmdline (join_words 32 (map as_bytes args) ++ 0 ∷ 0 ∷ []) ≡ args)
parse_cmdline-terminate_example =
    parse_cmdline-terminate args (0 ∷ 0 ∷ []) args-IsArg (refl, (refl, tt))

-- Outside ASCII each byte of the UTF-8 becomes a character of its own.
bytes_mangled : parse_cmdline (as_bytes (0xE9 ∷ [])) ≡ (0xC3 ∷ 0xA9 ∷ []) ∷ []
unfolding parse_cmdline split_whitespace
bytes_mangled = refl

abbrev smaps : Text
smaps = text "1000-3000 rw-p 00000000 00:00 0" ++ 10 ∷ text "Anonymous:  8 kB" ++ 10 ∷ []

abbrev kernel : Kernel
kernel = record {
  smaps = λ pid. some smaps;
  pidfd_open = λ pid. some 5;
  process_madvise = λ pidfd n batch. some 8192;
}

parse_anon_regions_iff_example :
    In (4096, 8192) (parse_anon_regions smaps) ↔ IsRegion (lines smaps) (4096, 8192)
parse_anon_regions_iff_example = parse_anon_regions_iff smaps (4096, 8192)

compress_pid-calls_example :
    ((compress_pid kernel 7 false).1
      ≡ opened 7 ∷ map (λ c. advised 5 c) (batches_of smaps) ++ closed 5 ∷ [])
    × (concat (batches_of smaps) ≡ parse_anon_regions smaps)
    × All (λ c. (0 < length c) × (length c ≤ iov_max)) (batches_of smaps)
compress_pid-calls_example = compress_pid-calls kernel 7 5 smaps refl refl

compress_pid_success_iff_example :
    ((o : CompressOutcome) × ((compress_pid kernel 7 false).0 ≡ some o)
      × (is_real_success o ≡ true))
    ↔ ((false ≡ false)
        × (smaps' : Text) × (pidfd : ℕ) × (some smaps ≡ some smaps')
        × (some 5 ≡ some pidfd)
        × (parse_anon_regions smaps' ≢ [])
        × (count_if is_error (answers kernel pidfd 0 (batches_of smaps')) ≡ 0))
compress_pid_success_iff_example = compress_pid_success_iff kernel 7 false

abbrev one : Text
one = text "1"

-- The fields of a stat behind the name.
abbrev fields : List Text
fields =
    text "S"
    ∷ one
    ∷ one
    ∷ one
    ∷ one
    ∷ one
    ∷ one
    ∷ one
    ∷ one
    ∷ one
    ∷ one
    ∷ text "30"
    ∷ text "12"
    ∷ one
    ∷ one
    ∷ one
    ∷ one
    ∷ one
    ∷ one
    ∷ text "900"
    ∷ []

fields_tokens : All IsToken fields
fields_tokens = ground arith

fields_lack : All (Lacks 41) fields
fields_lack = ground arith

parse_proc_stats-join_words_example :
    parse_proc_stats (text "7 (a) b" ++ 41 ∷ 32 ∷ (join_words 32 fields ++ 10 ∷ []))
    ≡ stats_of fields
parse_proc_stats-join_words_example =
    parse_proc_stats-join_words (text "7 (a) b") fields (10 ∷ []) fields_tokens fields_lack
      (refl, tt)

abbrev header : List ℕ
header = 0 ∷ 0 ∷ 0 ∷ 0 ∷ 0 ∷ 0 ∷ 0 ∷ 0 ∷ 0 ∷ 0 ∷ 0 ∷ 0 ∷ 0 ∷ 0 ∷ 0 ∷ 0 ∷ []

abbrev message : List ℕ
message = header ++ 0 ∷ 0 ∷ 0 ∷ 0 ∷ []

parse_events-in_bounds_example :
    (events : List ProcEvent) × (parse_events (header ++ message ++ header) ≡ some events)
    × IsReport events
parse_events-in_bounds_example = parse_events-in_bounds (header ++ message ++ header)

-- A second record behind the first in one datagram is not read.
second_record_ignored :
    parse_events
      (header ++ (message ++ event 0 1 2 (execed 7 7) (message ++ event 0 3 4 (execed 8 8) [])))
    ≡ some (exec 7 ∷ [])
second_record_ignored =
    parse_events-event header message 0 1 2 (execed 7 7) (message ++ event 0 3 4 (execed 8 8) [])
      refl refl (omega arith, (omega arith, tt))

-- A codec of the one value `true`.
abbrev to_vec : Bool → Option (List ℕ)
to_vec true = some (text "true")
to_vec false = none

abbrev from_slice : List ℕ → Option Bool
from_slice body = if beq_text body (text "true") then some true else none

abbrev frame_bytes : List ℕ
frame_bytes = 4 ∷ 0 ∷ 0 ∷ 0 ∷ text "true"
