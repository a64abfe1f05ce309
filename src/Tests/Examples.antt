-- ===== src/Tests/Examples.antt =====
-- The programs of daemon/examples at concrete inputs.
use bssl_ram.Prelude.{
  ◌≡◌, refl, true, false, none, some, List, [], ◌∷◌, ◌++◌, length, All, ◌%◌, ◌/◌, ◌==◌,
  if◌then◌else◌,
}
use bssl_ram.Prelude.Text
use bssl_ram.Prelude.Text.{Text, text}
use bssl_ram.Compressor
use bssl_ram.Compressor.{Kernel, iov_max, total_size}
use bssl_ram.Examples.Batching.{regions_advised, batched-one_per_call}
use bssl_ram.Examples.Bench.{anon_regions, batched, one_per_call, div_ceil}
use bssl_ram.Examples.Inspect
use bssl_ram.Examples.Rollup
use bssl_ram.Examples.Smaps.{Area, IsArea, lines_of, private_anon, parse_anon_regions-private_anon}

-- A kernel that advises half of what it is asked for, and refuses every third call.
abbrev kernel : Kernel
kernel = record {
  smaps = λ pid. none;
  pidfd_open = λ pid. none;
  process_madvise = λ pidfd call iovs. if call % 3 == 2 then none else some (total_size iovs / 2);
}

abbrev private_area : Area
private_area = record {
  header = text "1000-3000 rw-p 00000000 00:00 0";
  before = text "Rss:  8 kB" ∷ [];
  anonymous = text "Anonymous:  8 kB";
  after = [];
}

abbrev shared_area : Area
shared_area = record {
  header = text "4000-5000 rw-s 00000000 00:01 77 /dev/zero";
  before = [];
  anonymous = text "Anonymous:  4 kB";
  after = text "VmFlags: rd wr" ∷ [];
}

abbrev areas : List Area
areas = private_area ∷ shared_area ∷ []

abbrev smaps : Text
smaps =
    text "1000-3000 rw-p 00000000 00:00 0"
    ++ (10 ∷ text "Rss:  8 kB")
    ++ (10 ∷ text "Anonymous:  8 kB")
    ++ (10 ∷ text "4000-5000 rw-s 00000000 00:01 77 /dev/zero")
    ++ (10 ∷ text "Anonymous:  4 kB")
    ++ (10 ∷ text "VmFlags: rd wr")
    ++ 10 ∷ []

batched-one_per_call_example :
    (regions_advised (batched kernel 5 0 (anon_regions smaps)).2
      ≡ Compressor.parse_anon_regions smaps)
    × (regions_advised (one_per_call kernel 5 1 0 (anon_regions smaps)).1
        ≡ Compressor.parse_anon_regions smaps)
    × (length (one_per_call kernel 5 1 0 (anon_regions smaps)).1 ≡ length (anon_regions smaps))
    × (length (batched kernel 5 0 (anon_regions smaps)).2
        ≡ div_ceil (length (anon_regions smaps)) iov_max)
    × ((batched kernel 5 0 (anon_regions smaps)).1
        ≡ length (batched kernel 5 0 (anon_regions smaps)).2)
batched-one_per_call_example = batched-one_per_call kernel 5 0 1 smaps

smaps_lines : Text.lines smaps ≡ lines_of areas
unfolding Text.lines
smaps_lines = refl

areas-IsArea : All IsArea areas
unfolding Compressor.mapping_of Text.split_at Text.starts_with Text.split_whitespace
    Text.from_str_radix
areas-IsArea = (
  record {
    header = (record { start = 4096; size = 8192; private_anon = true }, refl);
    header_is = refl;
    before = ((refl, refl), tt);
    no_dash = refl;
    anonymous_is = refl;
    after = tt;
  },
  (
    record {
      header = (record { start = 16384; size = 4096; private_anon = false }, refl);
      header_is = refl;
      before = tt;
      no_dash = refl;
      anonymous_is = refl;
      after = ((refl, refl), tt);
    },
    tt,
  ),
)

parse_anon_regions-private_anon_example :
    private_anon (Inspect.parse_anon_regions (some smaps)) ≡ Compressor.parse_anon_regions smaps
parse_anon_regions-private_anon_example =
    parse_anon_regions-private_anon smaps areas smaps_lines areas-IsArea

-- The shared mapping is reported by the example only.
regions_reported : length (Inspect.parse_anon_regions (some smaps)) ≡ 2
unfolding Inspect.parse_anon_regions Inspect.on_lines Inspect.on_header Inspect.on_anonymous
    Text.lines Text.split_at Text.starts_with Text.split_whitespace Text.from_str_radix
    Compressor.second_number
regions_reported = refl

halved :
    Rollup.compare_stats
      (record { rss_kb = 2048; pss_kb = 2000; swap_kb = 0; anonymous_kb = 0 })
      (record { rss_kb = 1024; pss_kb = 1000; swap_kb = 300; anonymous_kb = 0 })
    ≡ record { rss_drop = 1024; swap_gain = 300; pss_drop = 1000; paged_out = some 50 }
unfolding Rollup.compare_stats
halved = refl
