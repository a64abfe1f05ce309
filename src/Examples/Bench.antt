-- ===== src/Examples/Bench.antt =====
-- daemon/examples/bench_batching.rs: the same regions advised one for each call, and in batches.
-- The times that it takes are left out.
use bssl_ram.Prelude.{
  ℕ, ◌+◌, ◌-◌, ◌/◌, Option, none, some, List, [], ◌∷◌, ◌++◌, length, ◌>>=◌, ◌&&◌, any, ltb, ◌==◌,
  get_elem?, if◌then◌else◌,
}
use bssl_ram.Prelude.Text.{
  Text, text, beq_text, starts_with, split_whitespace, lines, split_at, from_str_radix,
}
use bssl_ram.Prelude.Words.{u32_mod, u64_max, add_u64, sub_u64}
use bssl_ram.Compressor.{
  Kernel, Call, advised, RegionScan, start_scan, or_zero, parse_u64, chunks, iov_max,
}

-- What the loop of `anon_regions` reads in a header line with these parts.
unfoldable pub take_parts : RegionScan → Text → Text → List Text → RegionScan
take_parts s start_str end_str (perms ∷ offset ∷ dev ∷ inode ∷ more) =
    elim (from_str_radix 16 u64_max start_str) [
      | none ↦ s
      | some start ↦ elim (from_str_radix 16 u64_max end_str) [
        | none ↦ s
        | some end ↦ record s {
          is_private_anon = any (λ c. c == b'p') perms && beq_text inode (text "0");
          current_start = start;
          current_size = sub_u64 end start;
        }
      ]
    ]
take_parts s start_str end_str _ = s

unfoldable pub take_header : RegionScan → Text → RegionScan
take_header s line = elim (split_at b'-' line) [
  | none ↦ s
  | some (start_str, rest) ↦ elim (split_at b' ' rest) [
    | none ↦ s
    | some (end_str, after) ↦ take_parts s start_str end_str (split_whitespace after)
  ]
]

unfoldable pub take_anonymous : RegionScan → Text → RegionScan
take_anonymous s line =
    let kb = or_zero (do v ← get_elem? (split_whitespace line) 1; parse_u64 v) in
    if s.is_private_anon && starts_with (text "Anonymous:") line && ltb 0 kb
    then record s { regions = s.regions ++ (s.current_start, s.current_size) ∷ [] }
    else s

unfoldable pub take_lines : RegionScan → List Text → RegionScan
take_lines s [] = s
take_lines s (line ∷ rest) = take_lines (take_anonymous (take_header s line) line) rest

-- `anon_regions`, of what reading /proc/PID/smaps gave.
unfoldable pub anon_regions : Text → List (ℕ × ℕ)
anon_regions smaps = (take_lines start_scan (lines smaps)).regions

-- Only a positive result counts.
abbrev pub advised_bytes : Option ℕ → ℕ
advised_bytes none = 0
advised_bytes (some ret) = ret

-- The bytes, and the system calls that are made; the kernel tells its calls apart by their number.
unfoldable pub one_per_call : Kernel → ℕ → ℕ → ℕ → List (ℕ × ℕ) → ℕ × List Call
one_per_call k pidfd call bytes [] = (bytes, [])
one_per_call k pidfd call bytes (iov ∷ iovs) =
    let (bytes', calls) =
      one_per_call k pidfd (call + 1)
        (add_u64 bytes (advised_bytes (k.process_madvise pidfd call (iov ∷ [])))) iovs in
    (bytes', advised pidfd (iov ∷ []) ∷ calls)

-- The bytes, the number of chunks, and the system calls.
unfoldable pub batched_chunks : Kernel → ℕ → ℕ → ℕ → ℕ → List (List (ℕ × ℕ)) → ℕ × ℕ × List Call
batched_chunks k pidfd call bytes chunks_done [] = (bytes, chunks_done, [])
batched_chunks k pidfd call bytes chunks_done (chunk ∷ rest) =
    let (bytes', chunks_done', calls) =
      batched_chunks k pidfd (call + 1)
        (add_u64 bytes (advised_bytes (k.process_madvise pidfd call chunk))) (chunks_done + 1)
        rest in
    (bytes', chunks_done', advised pidfd chunk ∷ calls)

unfoldable pub batched : Kernel → ℕ → ℕ → List (ℕ × ℕ) → ℕ × ℕ × List Call
batched k pidfd call iovs = batched_chunks k pidfd call 0 0 (chunks (length iovs) iov_max iovs)

abbrev pub div_ceil : ℕ → ℕ → ℕ
div_ceil n d = (n + (d - 1)) / d

-- The numbers that are printed.
pub record Comparison : Type 0 where
  pub regions : ℕ
  pub expected_chunks : ℕ
  pub one_per_call_bytes : ℕ
  pub batched_bytes : ℕ
  pub chunks_done : ℕ

-- `main`; `none` is a panic.
unfoldable pub main : Kernel → Option Text → Option Comparison
main k arg = do
  pid_str ← arg
  pid ← from_str_radix 10 (u32_mod - 1) pid_str
  smaps ← k.smaps pid
  let iovs = anon_regions smaps
  pidfd ← k.pidfd_open pid
  let (warm_up_bytes, warm_up_chunks, warm_up_calls) = batched k pidfd 0 iovs
  let (b1, calls1) = one_per_call k pidfd warm_up_chunks 0 iovs
  let (b2, chunks_done, calls2) = batched k pidfd (warm_up_chunks + length iovs) iovs
  some (record {
    regions = length iovs;
    expected_chunks = div_ceil (length iovs) iov_max;
    one_per_call_bytes = b1;
    batched_bytes = b2;
    chunks_done = chunks_done;
  })
