-- ===== src/Compressor.antt =====
-- daemon/src/compressor.rs: the regions worth paging out, the statistics of a process, and
-- `compress_pid`. The kernel is a parameter: what its files hold and how its calls answer.
pub mod Stat
pub mod Headers
pub mod Regions
pub mod Chunks
pub mod Outcome
use bssl_ram.Prelude.{
  ℕ, zero, suc, ◌+◌, ◌/◌, Bool, true, false, not, ◌&&◌, Option, none, some, List, [], ◌∷◌, ◌++◌,
  map, ltb, ◌==◌, length, get_elem?, take, drop, any, find, if◌then◌else◌, ◌>>=◌,
}
use bssl_ram.Prelude.Text.{
  Text, text, beq_text, starts_with, split_whitespace, lines, split_at, after_last, from_str_radix,
}
use bssl_ram.Prelude.Words.{u64_max, add_u64, sub_u64, saturating_sub}

-- `v.parse::<u64>()` and `v.parse::<usize>()`
abbrev pub parse_u64 : Text → Option ℕ
parse_u64 = from_str_radix 10 u64_max

abbrev pub iov_max : ℕ
iov_max = 1024

-- The locals of the loop in `parse_anon_regions`.
pub record RegionScan : Type 0 where
  pub regions : List (ℕ × ℕ)
  pub current_start : ℕ
  pub current_size : ℕ
  pub is_private_anon : Bool

abbrev pub start_scan : RegionScan
start_scan = record { regions = []; current_start = 0; current_size = 0; is_private_anon = false }

-- What the header line of a mapping says.
pub record Mapping : Type 0 where
  pub start : ℕ
  pub size : ℕ
  pub private_anon : Bool

-- The fields behind the address range: perms offset dev inode.
abbrev pub parse_mapping : Text → Text → List Text → Option Mapping
parse_mapping start_str end_str (perms ∷ offset ∷ dev ∷ inode ∷ more) = do
  start ← from_str_radix 16 u64_max start_str
  end ← from_str_radix 16 u64_max end_str
  some (record {
    start = start;
    size = sub_u64 end start;
    private_anon = any (λ c. c == b'p') perms && beq_text inode (text "0");
  })
parse_mapping start_str end_str _ = none

-- A line with a `-`, a space behind it, four fields and two hexadecimal addresses.
unfoldable pub mapping_of : Text → Option Mapping
mapping_of line = do
  (start_str, rest) ← split_at b'-' line
  (end_str, after) ← split_at b' ' rest
  parse_mapping start_str end_str (split_whitespace after)

unfoldable pub scan_header : RegionScan → Text → RegionScan
scan_header s line = elim (mapping_of line) [
  | none ↦ s
  | some m ↦ record s {
    is_private_anon = m.private_anon;
    current_start = m.start;
    current_size = m.size;
  }
]

abbrev pub or_zero : Option ℕ → ℕ
or_zero none = 0
or_zero (some n) = n

-- The second word of a line as a number, 0 if there is none.
unfoldable pub second_number : Text → ℕ
second_number line = or_zero (do v ← get_elem? (split_whitespace line) 1; parse_u64 v)

unfoldable pub scan_anonymous : RegionScan → Text → RegionScan
scan_anonymous s line =
    if s.is_private_anon && starts_with (text "Anonymous:") line
    then (if ltb 0 (second_number line)
        then record s { regions = s.regions ++ (s.current_start, s.current_size) ∷ [] }
        else s)
    else s

unfoldable pub scan_lines : RegionScan → List Text → RegionScan
scan_lines s [] = s
scan_lines s (line ∷ rest) = scan_lines (scan_anonymous (scan_header s line) line) rest

unfoldable pub parse_anon_regions : Text → List (ℕ × ℕ)
parse_anon_regions smaps = (scan_lines start_scan (lines smaps)).regions

-- `rss_mib`, of what reading /proc/PID/smaps_rollup gave.
unfoldable pub rss_mib : Option Text → ℕ
rss_mib none = 0
rss_mib (some s) =
    or_zero (do
      l ← find (λ l. starts_with (text "Rss:") l) (lines s)
      v ← get_elem? (split_whitespace l) 1
      parse_u64 v)
    / 1024

-- The slice two bytes past the last `)`: there must be one more character, of one byte.
abbrev pub skip_byte : Text → Option Text
skip_byte [] = none
skip_byte (c ∷ cs) = if ltb c 128 then some cs else none

-- `parse_proc_stats`: (starttime, utime, stime)
unfoldable pub parse_proc_stats : Text → Option (ℕ × ℕ × ℕ)
parse_proc_stats stat = do
  tail ← after_last b')' stat
  rest ← skip_byte tail
  let fields = split_whitespace rest
  utime_str ← get_elem? fields 11
  utime ← parse_u64 utime_str
  stime_str ← get_elem? fields 12
  stime ← parse_u64 stime_str
  starttime_str ← get_elem? fields 19
  starttime ← parse_u64 starttime_str
  some (starttime, utime, stime)

unfoldable pub parse_cpu_ticks : Text → Option (ℕ × ℕ)
parse_cpu_ticks stat = do (starttime, utime, stime) ← parse_proc_stats stat; some (utime, stime)

pub record CompressOutcome : Type 0 where
  pub regions : ℕ
  pub bytes_advised : ℕ
  pub bytes_skipped_by_kernel : ℕ
  pub batches : ℕ
  pub batches_failed : ℕ
  pub was_dry_run : Bool

unfoldable pub is_real_success : CompressOutcome → Bool
is_real_success o = not o.was_dry_run && ltb 0 o.batches && (o.batches_failed == 0)

-- `chunks(n)` of a slice, with one unit of fuel for each chunk.
unfoldable pub chunks {ℓ} : {A : Type ℓ} → ℕ → ℕ → List A → List (List A)
chunks zero n xs = []
chunks (suc fuel) n [] = []
chunks (suc fuel) n (x ∷ xs) = take n (x ∷ xs) ∷ chunks fuel n (drop n (x ∷ xs))

-- What the kernel answers: the text of /proc/PID/smaps, the pidfd, and for a batch of a pidfd the
-- bytes advised, or an error. A batch is told apart by its number.
pub record Kernel : Type 0 where
  pub smaps : ℕ → Option Text
  pub pidfd_open : ℕ → Option ℕ
  pub process_madvise : ℕ → ℕ → List (ℕ × ℕ) → Option ℕ

-- The system calls that are made.
pub data Call : Type 0 where
  opened : ℕ → Call
  advised : ℕ → List (ℕ × ℕ) → Call
  closed : ℕ → Call

-- The locals of the batch loop.
pub record Batches : Type 0 where
  pub bytes_advised : ℕ
  pub batches_done : ℕ
  pub batches_failed : ℕ
  pub calls : List Call

abbrev pub no_batches : Batches
no_batches = record { bytes_advised = 0; batches_done = 0; batches_failed = 0; calls = [] }

unfoldable pub advise_chunk : Kernel → ℕ → Batches → List (ℕ × ℕ) → Batches
advise_chunk k pidfd b chunk =
    let made = b.calls ++ advised pidfd chunk ∷ [] in
    elim (k.process_madvise pidfd b.batches_done chunk) [
      | none ↦ record b {
        batches_done = b.batches_done + 1;
        batches_failed = b.batches_failed + 1;
        calls = made;
      }
      | some ret ↦ record b {
        batches_done = b.batches_done + 1;
        bytes_advised = add_u64 b.bytes_advised ret;
        calls = made;
      }
    ]

unfoldable pub advise_chunks : Kernel → ℕ → Batches → List (List (ℕ × ℕ)) → Batches
advise_chunks k pidfd b [] = b
advise_chunks k pidfd b (c ∷ cs) = advise_chunks k pidfd (advise_chunk k pidfd b c) cs

-- `regions.iter().map(|(_, s)| *s).sum()`
unfoldable pub total_size : List (ℕ × ℕ) → ℕ
total_size [] = 0
total_size ((start, size) ∷ rs) = add_u64 size (total_size rs)

-- From the open pidfd on.
unfoldable pub page_out : Kernel → ℕ → List (ℕ × ℕ) → CompressOutcome × List Call
page_out k pidfd regions =
    let b = advise_chunks k pidfd no_batches (chunks (length regions) iov_max regions) in
    (
      record {
        regions = length regions;
        bytes_advised = b.bytes_advised;
        bytes_skipped_by_kernel = saturating_sub (total_size regions) b.bytes_advised;
        batches = b.batches_done;
        batches_failed = b.batches_failed;
        was_dry_run = false;
      },
      b.calls ++ closed pidfd ∷ [],
    )

-- The result, `none` for an error, and the system calls made on the way.
unfoldable pub compress_pid : Kernel → ℕ → Bool → Option CompressOutcome × List Call
compress_pid k pid dry_run = elim (k.smaps pid) [
  | none ↦ (none, [])
  | some smaps ↦
      let regions = parse_anon_regions smaps in
      if dry_run
      then (
        some (record {
          regions = length regions;
          bytes_advised = 0;
          bytes_skipped_by_kernel = 0;
          batches = 0;
          batches_failed = 0;
          was_dry_run = true;
        }),
        [],
      )
      else elim (k.pidfd_open pid) [
        | none ↦ (none, opened pid ∷ [])
        | some pidfd ↦
            let (outcome, calls) = page_out k pidfd regions in (some outcome, opened pid ∷ calls)
      ]
]
