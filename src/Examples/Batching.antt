-- ===== src/Examples/Batching.antt =====
-- The two ways of daemon/examples/bench_batching.rs advise the same regions, which are those that
-- daemon/src/compressor.rs pages out.
use bssl_ram.Prelude.{
  ℕ, ◌+◌, ◌≡◌, refl, ap, ◌∙◌, none, some, inl, inr, List, [], ◌∷◌, ◌++◌, map, length, arith,
  length-map, Option-cases,
}
use bssl_ram.Prelude.Text.{Text, lines, split_at, split_whitespace, from_str_radix}
use bssl_ram.Prelude.Words.{u64_max, add_u64}
use bssl_ram.Compressor.{
  Kernel, Call, advised, RegionScan, start_scan, chunks, iov_max, parse_mapping, mapping_of,
  scan_header, scan_anonymous, scan_lines, second_number, parse_anon_regions,
}
use bssl_ram.Compressor.Chunks.{concat, concat-chunks, length-chunks}
use bssl_ram.Examples.Bench.{
  take_parts, take_header, take_anonymous, take_lines, anon_regions, one_per_call, batched_chunks,
  batched, advised_bytes, div_ceil,
}

take_parts-parse_mapping :
    (s : RegionScan) (a b : Text) (parts : List Text)
    → take_parts s a b parts ≡ elim (parse_mapping a b parts) [
      | none ↦ s
      | some m ↦ record s {
        is_private_anon = m.private_anon;
        current_start = m.start;
        current_size = m.size;
      }
    ]
unfolding take_parts
take_parts-parse_mapping s a b [] = refl
take_parts-parse_mapping s a b (p ∷ []) = refl
take_parts-parse_mapping s a b (p ∷ q ∷ []) = refl
take_parts-parse_mapping s a b (p ∷ q ∷ r ∷ []) = refl
take_parts-parse_mapping s a b (p ∷ q ∷ r ∷ t ∷ more) =
    elim (Option-cases (from_str_radix 16 u64_max a)) [
      | inl e ↦ ground (arith, e)
      | inr (start, e) ↦ elim (Option-cases (from_str_radix 16 u64_max b)) [
        | inl f ↦ ground (arith, e, f)
        | inr (end, f) ↦ ground (arith, e, f)
      ]
    ]

take_header-scan_header : (s : RegionScan) (line : Text) → take_header s line ≡ scan_header s line
unfolding take_header scan_header mapping_of
take_header-scan_header s line = elim (Option-cases (split_at b'-' line)) [
  | inl e ↦ ground (arith, e)
  | inr ((a, rest), e) ↦ elim (Option-cases (split_at b' ' rest)) [
    | inl f ↦ ground (arith, e, f)
    | inr ((b, after), f) ↦
        ground (arith, e, f, take_parts-parse_mapping s a b (split_whitespace after))
  ]
]

take_anonymous-scan_anonymous :
    (s : RegionScan) (line : Text) → take_anonymous s line ≡ scan_anonymous s line
unfolding take_anonymous scan_anonymous second_number
take_anonymous-scan_anonymous s line = ground arith

take_lines-scan_lines : (s : RegionScan) (ls : List Text) → take_lines s ls ≡ scan_lines s ls
unfolding take_lines scan_lines
take_lines-scan_lines s [] = refl
take_lines-scan_lines s (line ∷ rest) =
    ap (λ t. take_lines (take_anonymous t line) rest) (take_header-scan_header s line)
    ∙ ap (λ t. take_lines t rest) (take_anonymous-scan_anonymous (scan_header s line) line)
    ∙ take_lines-scan_lines (scan_anonymous (scan_header s line) line) rest

anon_regions-parse_anon_regions : (smaps : Text) → anon_regions smaps ≡ parse_anon_regions smaps
unfolding anon_regions parse_anon_regions
anon_regions-parse_anon_regions smaps =
    ap (λ s. s.regions) (take_lines-scan_lines start_scan (lines smaps))

one_per_call-calls :
    (k : Kernel) (pidfd call bytes : ℕ) (iovs : List (ℕ × ℕ))
    → (one_per_call k pidfd call bytes iovs).1 ≡ map (λ iov. advised pidfd (iov ∷ [])) iovs
unfolding one_per_call
one_per_call-calls k pidfd call bytes [] = refl
one_per_call-calls k pidfd call bytes (iov ∷ iovs) = ap (◌∷◌ (advised pidfd (iov ∷ []))) (
    one_per_call-calls k pidfd (call + 1)
      (add_u64 bytes (advised_bytes (k.process_madvise pidfd call (iov ∷ [])))) iovs)

batched_chunks-calls :
    (k : Kernel) (pidfd call bytes done : ℕ) (cs : List (List (ℕ × ℕ)))
    → ((batched_chunks k pidfd call bytes done cs).1 ≡ done + length cs)
      × ((batched_chunks k pidfd call bytes done cs).2 ≡ map (λ c. advised pidfd c) cs)
unfolding batched_chunks
batched_chunks-calls k pidfd call bytes done [] = (omega arith, refl)
batched_chunks-calls k pidfd call bytes done (c ∷ cs) =
    let (count, calls) =
      batched_chunks-calls k pidfd (call + 1)
        (add_u64 bytes (advised_bytes (k.process_madvise pidfd call c))) (done + 1) cs in
    (omega (arith, count), ap (◌∷◌ (advised pidfd c)) calls)

-- The regions that are advised through a pidfd.
abbrev pub regions_advised : List Call → List (ℕ × ℕ)
regions_advised [] = []
regions_advised (advised pidfd iovs ∷ calls) = iovs ++ regions_advised calls
regions_advised (_ ∷ calls) = regions_advised calls

regions_advised-map :
    (pidfd : ℕ) (cs : List (List (ℕ × ℕ)))
    → regions_advised (map (λ c. advised pidfd c) cs) ≡ concat cs
regions_advised-map pidfd [] = refl
regions_advised-map pidfd (c ∷ cs) = ap (λ r. c ++ r) (regions_advised-map pidfd cs)

regions_advised-map_one :
    (pidfd : ℕ) (iovs : List (ℕ × ℕ))
    → regions_advised (map (λ iov. advised pidfd (iov ∷ [])) iovs) ≡ iovs
regions_advised-map_one pidfd [] = refl
regions_advised-map_one pidfd (iov ∷ iovs) = ap (◌∷◌ iov) (regions_advised-map_one pidfd iovs)

-- Whatever the kernel answers: the calls of both ways advise the regions that the daemon would page
-- out, each once and in the same order; one way makes as many calls as there are regions, and the
-- other as many as are printed before they are made and as are counted: the number of regions over
-- `IOV_MAX`, rounded up.
pub batched-one_per_call :
    (k : Kernel) (pidfd call call' : ℕ) (smaps : Text)
    → (regions_advised (batched k pidfd call (anon_regions smaps)).2 ≡ parse_anon_regions smaps)
      × (regions_advised (one_per_call k pidfd call' 0 (anon_regions smaps)).1
          ≡ parse_anon_regions smaps)
      × (length (one_per_call k pidfd call' 0 (anon_regions smaps)).1 ≡ length (anon_regions smaps))
      × (length (batched k pidfd call (anon_regions smaps)).2
          ≡ div_ceil (length (anon_regions smaps)) iov_max)
      × ((batched k pidfd call (anon_regions smaps)).1
          ≡ length (batched k pidfd call (anon_regions smaps)).2)
unfolding batched
batched-one_per_call k pidfd call call' smaps =
    let iovs = anon_regions smaps in
    let same = anon_regions-parse_anon_regions smaps in
    let cs = chunks (length iovs) iov_max iovs in
    let (count, calls) = batched_chunks-calls k pidfd call 0 0 cs in
    let singles = one_per_call-calls k pidfd call' 0 iovs in
    let whole = concat-chunks (length iovs) iov_max iovs (omega arith) (omega arith) in
    let number = length-chunks (length iovs) iovs (omega arith) in
    let made = ap length calls ∙ length-map (λ c. advised pidfd c) cs in
    (
      ap regions_advised calls ∙ regions_advised-map pidfd cs ∙ whole ∙ same,
      ap regions_advised singles ∙ regions_advised-map_one pidfd iovs ∙ same,
      ap length singles ∙ length-map (λ iov. advised pidfd (iov ∷ [])) iovs,
      made ∙ omega (arith, number),
      omega (arith, count, made),
    )
