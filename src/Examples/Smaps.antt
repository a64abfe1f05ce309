-- ===== src/Examples/Smaps.antt =====
-- `parse_anon_regions` of daemon/examples/compress_test.rs and that of daemon/src/compressor.rs, on
-- a text that is laid out like /proc/PID/smaps.
use bssl_ram.Prelude.{
  ℕ, ◌≡◌, refl, sym, ap, ◌∙◌, Bool, true, false, ◌&&◌, none, some, List, [], ◌∷◌, ◌++◌, any, ltb,
  ◌==◌, if◌then◌else◌, All, arith, Option-cases, inl, inr,
}
use mathlib.Core.List.{append-nil}
use bssl_ram.Prelude.Text.{
  Text, text, beq_text, starts_with, lines, split_at, split_whitespace, from_str_radix,
}
use bssl_ram.Prelude.Words.{u64_max, sub_u64}
use bssl_ram.Compressor
use bssl_ram.Compressor.{
  RegionScan, start_scan, Mapping, parse_mapping, mapping_of, scan_header, scan_anonymous,
  scan_lines, second_number,
}
use bssl_ram.Examples.Inspect
use bssl_ram.Examples.Inspect.{
  Header, Region, Inspection, region_of, pushed, take_header, name_of, new_header, put_header,
  on_parts, split_header, on_header, on_anonymous, on_lines, no_inspection,
}

-- The part of the text about one mapping: its header, and lines about it with one for its anonymous
-- pages.
pub record Area : Type 0 where
  pub header : Text
  pub before : List Text
  pub anonymous : Text
  pub after : List Text

abbrev pub lines_of : List Area → List Text
lines_of [] = []
lines_of (a ∷ areas) = a.header ∷ (a.before ++ (a.anonymous ∷ (a.after ++ lines_of areas)))

-- A line that is neither a header, since it has no `-`, nor that of the anonymous pages.
abbrev pub IsOther : Text → Type 0
IsOther line = (split_at b'-' line ≡ none) × (starts_with (text "Anonymous:") line ≡ false)

pub record IsArea (a : Area) : Type 0 where
  pub header : (m : Mapping) × (mapping_of a.header ≡ some m)
  pub header_is : starts_with (text "Anonymous:") a.header ≡ false
  pub before : All IsOther a.before
  pub no_dash : split_at b'-' a.anonymous ≡ none
  pub anonymous_is : starts_with (text "Anonymous:") a.anonymous ≡ true
  pub after : All IsOther a.after

-- The private mappings of no file, as the daemon reports them.
abbrev pub is_private_anon : Region → Bool
is_private_anon r = any (λ c. c == b'p') r.perms && beq_text r.inode (text "0")

abbrev pub private_anon : List Region → List (ℕ × ℕ)
private_anon [] = []
private_anon (r ∷ rs) =
    if is_private_anon r then (r.start, r.size) ∷ private_anon rs else private_anon rs

private_anon-append :
    (rs : List Region) (r : Region)
    → private_anon (rs ++ r ∷ [])
      ≡ private_anon rs ++ (if is_private_anon r then (r.start, r.size) ∷ [] else [])
private_anon-append [] r = ground arith
private_anon-append (q ∷ rs) r = ground (arith, private_anon-append rs r)

-- The two programs read the same in a header.
abbrev Agrees : Mapping → Header → Type 0
Agrees m h =
    (m.start ≡ h.start)
    × (m.size ≡ sub_u64 h.end h.start)
    × (m.private_anon ≡ (any (λ c. c == b'p') h.perms && beq_text h.inode (text "0")))

abbrev opened : Inspection → Header → Inspection
opened s h = record { out = pushed s.out s.header s.anon_kb; header = some h; anon_kb = 0 }

on_parts-opened :
    (s : Inspection) (start_str end_str : Text) (parts : List Text) (m : Mapping)
    → parse_mapping start_str end_str parts ≡ some m
    → (h : Header) × (on_parts s start_str end_str parts ≡ opened s h) × Agrees m h
on_parts-opened s start_str end_str [] m e = absurd (cc e)
on_parts-opened s start_str end_str (a ∷ []) m e = absurd (cc e)
on_parts-opened s start_str end_str (a ∷ b ∷ []) m e = absurd (cc e)
on_parts-opened s start_str end_str (a ∷ b ∷ c ∷ []) m e = absurd (cc e)
on_parts-opened s start_str end_str (perms ∷ offset ∷ dev ∷ inode ∷ more) m e =
    elim (Option-cases (from_str_radix 16 u64_max start_str)) [
      | inl f ↦ absurd (ground (arith, e, f))
      | inr (start, f) ↦ elim (Option-cases (from_str_radix 16 u64_max end_str)) [
        | inl g ↦ absurd (ground (arith, e, f, g))
        | inr (end, g) ↦ (
          record { start = start; end = end; perms = perms; inode = inode; name = name_of more },
          ground (arith, f, g),
          ground (arith, e, f, g),
        )
      ]
    ]

on_header-opened :
    (s : Inspection) (line : Text) (m : Mapping)
    → mapping_of line ≡ some m
    → (h : Header) × (on_header s line ≡ opened s h) × Agrees m h
unfolding mapping_of on_header
on_header-opened s line m e = elim (Option-cases (split_at b'-' line)) [
  | inl f ↦ absurd (ground (arith, e, f))
  | inr ((start_str, rest), f) ↦ elim (Option-cases (split_at b' ' rest)) [
    | inl g ↦ absurd (ground (arith, e, f, g))
    | inr ((end_str, after), g) ↦
        let (h, same, agrees) =
          on_parts-opened s start_str end_str (split_whitespace after) m
            (ground (arith, e, f, g)) in
        (h, ground (arith, f, g, same), agrees)
  ]
]

-- Lines of no interest to either program.
on_lines-others :
    (s : Inspection) (others rest : List Text)
    → All IsOther others
    → on_lines s (others ++ rest) ≡ on_lines s rest
unfolding on_lines on_header on_anonymous
on_lines-others s [] rest h = refl
on_lines-others s (line ∷ others) rest h =
    let same : on_anonymous (on_header s line) line ≡ s = ground (arith, h.0) in
    ap (λ x. on_lines x (others ++ rest)) same ∙ on_lines-others s others rest h.1

scan_lines-others :
    (c : RegionScan) (others rest : List Text)
    → All IsOther others
    → scan_lines c (others ++ rest) ≡ scan_lines c rest
unfolding scan_lines scan_header scan_anonymous mapping_of
scan_lines-others c [] rest h = refl
scan_lines-others c (line ∷ others) rest h =
    let same : scan_anonymous (scan_header c line) line ≡ c = ground (arith, h.0) in
    ap (λ x. scan_lines x (others ++ rest)) same ∙ scan_lines-others c others rest h.1

-- One area.
on_lines-area :
    (s : Inspection) (a : Area) (rest : List Text) (h : Header)
    → IsArea a
    → on_header s a.header ≡ opened s h
    → on_lines s (a.header ∷ (a.before ++ (a.anonymous ∷ (a.after ++ rest))))
      ≡ on_lines (record (opened s h) { anon_kb = second_number a.anonymous }) rest
unfolding on_lines
on_lines-area s a rest h area same =
    let header : on_anonymous (on_header s a.header) a.header ≡ opened s h =
      unfold on_anonymous in ground (arith, area.header_is, same) in
    let anonymous : on_anonymous (on_header (opened s h) a.anonymous) a.anonymous
        ≡ record (opened s h) { anon_kb = second_number a.anonymous } =
      unfold on_anonymous on_header in ground (arith, area.no_dash, area.anonymous_is) in
    ap (λ x. on_lines x (a.before ++ (a.anonymous ∷ (a.after ++ rest)))) header
    ∙ on_lines-others (opened s h) a.before (a.anonymous ∷ (a.after ++ rest)) area.before
    ∙ ap (λ x. on_lines x (a.after ++ rest)) anonymous
    ∙ on_lines-others (record (opened s h) { anon_kb = second_number a.anonymous }) a.after rest
        area.after

abbrev in_mapping : RegionScan → Mapping → RegionScan
in_mapping c m = record c {
  is_private_anon = m.private_anon;
  current_start = m.start;
  current_size = m.size;
}

abbrev with_pages : RegionScan → Mapping → ℕ → RegionScan
with_pages c m kb = record (in_mapping c m) {
  regions = c.regions ++ (if m.private_anon && ltb 0 kb then (m.start, m.size) ∷ [] else []);
}

scan_lines-area :
    (c : RegionScan) (a : Area) (rest : List Text) (m : Mapping)
    → IsArea a
    → mapping_of a.header ≡ some m
    → scan_lines c (a.header ∷ (a.before ++ (a.anonymous ∷ (a.after ++ rest))))
      ≡ scan_lines (with_pages c m (second_number a.anonymous)) rest
unfolding scan_lines
scan_lines-area c a rest m area found =
    let header : scan_anonymous (scan_header c a.header) a.header ≡ in_mapping c m =
      unfold scan_anonymous scan_header in ground (arith, area.header_is, found) in
    let anonymous : scan_anonymous (scan_header (in_mapping c m) a.anonymous) a.anonymous
        ≡ with_pages c m (second_number a.anonymous) =
      unfold scan_anonymous scan_header mapping_of in
      ground (arith, area.no_dash, area.anonymous_is, append-nil c.regions) in
    ap (λ x. scan_lines x (a.before ++ (a.anonymous ∷ (a.after ++ rest)))) header
    ∙ scan_lines-others (in_mapping c m) a.before (a.anonymous ∷ (a.after ++ rest)) area.before
    ∙ ap (λ x. scan_lines x (a.after ++ rest)) anonymous
    ∙ scan_lines-others (with_pages c m (second_number a.anonymous)) a.after rest area.after

-- What is pushed for a header is what the daemon has pushed at the line of the pages.
private_anon-pushed :
    (out : List Region) (h : Header) (m : Mapping) (kb : ℕ)
    → Agrees m h
    → private_anon (pushed out (some h) kb)
      ≡ private_anon out ++ (if m.private_anon && ltb 0 kb then (m.start, m.size) ∷ [] else [])
private_anon-pushed out h m kb agrees =
    ground (arith, agrees, private_anon-append out (region_of h kb), append-nil (private_anon out))

areas-agree :
    (s : Inspection) (c : RegionScan) (areas : List Area)
    → All IsArea areas
    → private_anon (pushed s.out s.header s.anon_kb) ≡ c.regions
    → private_anon (take_header (on_lines s (lines_of areas))).out
      ≡ (scan_lines c (lines_of areas)).regions
areas-agree s c [] h same = unfold on_lines scan_lines in same
areas-agree s c (a ∷ areas) h same =
    let (m, found) = h.0.header in
    let (hd, opens, agrees) = on_header-opened s a.header m found in
    let kb = second_number a.anonymous in
    let s' : Inspection = record (opened s hd) { anon_kb = kb } in
    ap (λ x. private_anon (take_header x).out) (on_lines-area s a (lines_of areas) hd h.0 opens)
    ∙ areas-agree s' (with_pages c m kb) areas h.1 (
        private_anon-pushed (pushed s.out s.header s.anon_kb) hd m kb agrees
        ∙ ap (λ r. r ++ (if m.private_anon && ltb 0 kb then (m.start, m.size) ∷ [] else [])) same)
    ∙ sym (ap (λ x. x.regions) (scan_lines-area c a (lines_of areas) m h.0 found))

-- On a text that is laid out in areas, each with a header that can be read and one line for its
-- anonymous pages, the daemon pages out exactly the private mappings of no file among those that
-- the example reports.
pub parse_anon_regions-private_anon :
    (smaps : Text) (areas : List Area)
    → lines smaps ≡ lines_of areas
    → All IsArea areas
    → private_anon (Inspect.parse_anon_regions (some smaps)) ≡ Compressor.parse_anon_regions smaps
unfolding Inspect.parse_anon_regions Compressor.parse_anon_regions
parse_anon_regions-private_anon smaps areas e h =
    ap (λ ls. private_anon (take_header (on_lines no_inspection ls)).out) e
    ∙ areas-agree no_inspection start_scan areas h refl
    ∙ sym (ap (λ ls. (scan_lines start_scan ls).regions) e)
