-- ===== src/Compressor/Regions.antt =====
-- `parse_anon_regions` of daemon/src/compressor.rs: which regions it returns, read off the lines of
-- the smaps text without its running state.
use bssl_ram.Prelude.{
  ℕ, ◌<◌, ◌≡◌, refl, sym, ap, ◌∙◌, ◌↔◌, ◌⊎◌, inl, inr, true, false, ◌&&◌, Option, none, some, List,
  [], ◌∷◌, ◌++◌, arith, In, In-append, ltb, Option-cases, get_elem?, if◌then◌else◌,
}
use mathlib.Core.Path.{subst}
use mathlib.Core.List.{append_assoc, append-nil}
use bssl_ram.Prelude.Text.{Text, text, starts_with, lines, split_whitespace}
use bssl_ram.Prelude.Words.{sub_u64}
use bssl_ram.Compressor.{
  Mapping, RegionScan, start_scan, mapping_of, scan_header, scan_anonymous, scan_lines,
  second_number, parse_u64, parse_anon_regions,
}
use bssl_ram.Compressor.Headers.{
  Header, LastHeader, IsPrivateAnon, private_anon_iff, mapping_after, mapping_after-some,
  mapping_after-LastHeader,
}

-- The line counts at least one kilobyte of anonymous pages of a private anonymous mapping, whose
-- address and size the region has.
abbrev IsHit : Option Mapping → Text → ℕ × ℕ → Type 0
IsHit none line region = ⊥
IsHit (some m) line region =
    (m.private_anon ≡ true)
    × (starts_with (text "Anonymous:") line ≡ true)
    × (0 < second_number line)
    × (region ≡ (m.start, m.size))

abbrev IsScanned : Option Mapping → List Text → ℕ × ℕ → Type 0
IsScanned current ls region =
    (before : List Text) × (line : Text) × (after : List Text) × (ls ≡ before ++ line ∷ after)
    × IsHit (mapping_after current (before ++ line ∷ [])) line region

-- The regions in the order of the text, without the running state.
abbrev line_regions : Option Mapping → Text → List (ℕ × ℕ)
line_regions none line = []
line_regions (some m) line =
    if m.private_anon && starts_with (text "Anonymous:") line && ltb 0 (second_number line)
    then (m.start, m.size) ∷ []
    else []

abbrev regions_of : Option Mapping → List Text → List (ℕ × ℕ)
regions_of current [] = []
regions_of current (line ∷ rest) =
    line_regions (mapping_after current (line ∷ [])) line
    ++ regions_of (mapping_after current (line ∷ [])) rest

-- The running state stands for the current mapping; before the first header nothing is private.
abbrev Tracks : Option Mapping → RegionScan → Type 0
Tracks none s = s.is_private_anon ≡ false
Tracks (some m) s =
    (s.is_private_anon ≡ m.private_anon) × (s.current_start ≡ m.start) × (s.current_size ≡ m.size)

scan_step :
    (current : Option Mapping) (s : RegionScan) (line : Text)
    → Tracks current s
    → Tracks (mapping_after current (line ∷ [])) (scan_anonymous (scan_header s line) line)
      × ((scan_anonymous (scan_header s line) line).regions
          ≡ s.regions ++ line_regions (mapping_after current (line ∷ [])) line)
unfolding scan_anonymous scan_header
scan_step none s line h = elim (Option-cases (mapping_of line)) [
  | inl e ↦ ground (arith, append-nil s.regions)
  | inr (m, e) ↦ ground (arith, append-nil s.regions)
]
scan_step (some c) s line h = elim (Option-cases (mapping_of line)) [
  | inl e ↦ ground (arith, append-nil s.regions)
  | inr (m, e) ↦ ground (arith, append-nil s.regions)
]

scan_lines-regions_of :
    (current : Option Mapping) (s : RegionScan) (ls : List Text)
    → Tracks current s
    → (scan_lines s ls).regions ≡ s.regions ++ regions_of current ls
unfolding scan_lines
scan_lines-regions_of current s [] h = sym (append-nil s.regions)
scan_lines-regions_of current s (line ∷ rest) h =
    let here = mapping_after current (line ∷ []) in
    let (tracks, found) = scan_step current s line h in
    scan_lines-regions_of here (scan_anonymous (scan_header s line) line) rest tracks
    ∙ (ap (λ r. r ++ regions_of here rest) found
        ∙ append_assoc s.regions (line_regions here line) (regions_of here rest))

line_regions-IsHit :
    (m : Option Mapping) (line : Text) (region : ℕ × ℕ)
    → In region (line_regions m line) ↔ IsHit m line region
line_regions-IsHit none line region = ground arith
line_regions-IsHit (some m) line region = ground arith

nil-ne-append : (before after : List Text) (line : Text) → ¬ ([] ≡ before ++ line ∷ after)
nil-ne-append [] after line e = cc
nil-ne-append (b ∷ bs) after line e = cc

-- A hit is on the head line or on a later one.
IsScanned-cons :
    (current : Option Mapping) (line : Text) (rest : List Text) (region : ℕ × ℕ)
    → IsScanned current (line ∷ rest) region
    → IsHit (mapping_after current (line ∷ [])) line region
      ⊎ IsScanned (mapping_after current (line ∷ [])) rest region
IsScanned-cons current line rest region ([], l, after, e, hit) =
    inl (subst (λ x. IsHit (mapping_after current (x ∷ [])) x region) (sym (cons-head e)) hit)
  where
    cons-head : line ∷ rest ≡ l ∷ after → line ≡ l
    cons-head p = cc
IsScanned-cons current line rest region (b ∷ bs, l, after, e, hit) = inr (
  bs,
  l,
  after,
  cons-tail e,
  subst (λ x. IsHit (mapping_after current (x ∷ bs ++ l ∷ [])) l region) (sym (cons-head e)) hit,
)
  where
    cons-head : line ∷ rest ≡ b ∷ (bs ++ l ∷ after) → line ≡ b
    cons-head p = cc

    cons-tail : line ∷ rest ≡ b ∷ (bs ++ l ∷ after) → rest ≡ bs ++ l ∷ after
    cons-tail p = cc

regions_of_iff :
    (current : Option Mapping) (ls : List Text) (region : ℕ × ℕ)
    → In region (regions_of current ls) ↔ IsScanned current ls region
regions_of_iff current [] region = (λ i. absurd i, λ x. absurd (nil-ne-append x.0 x.2 x.1 x.3))
regions_of_iff current (line ∷ rest) region =
    let here = mapping_after current (line ∷ []) in
    let ih = regions_of_iff here rest region in
    let split = In-append region (line_regions here line) (regions_of here rest) in
    (
      λ i. join (both (line_regions-IsHit here line region).0 ih.0 (split.0 i)),
      λ x. split.1 (
          both (line_regions-IsHit here line region).1 ih.1
            (IsScanned-cons current line rest region x)),
    )
  where
    both : {A B C D : Type 0} → (A → C) → (B → D) → A ⊎ B → C ⊎ D
    both f g (inl a) = inl (f a)
    both f g (inr b) = inr (g b)

    join :
        IsHit (mapping_after current (line ∷ [])) line region
          ⊎ IsScanned (mapping_after current (line ∷ [])) rest region
        → IsScanned current (line ∷ rest) region
    join (inl hit) = ([], line, rest, refl, hit)
    join (inr (bs, l, after, e, hit)) = (line ∷ bs, l, after, ap (◌∷◌ line) e, hit)

-- A line that reports a positive count of anonymous pages, in kilobytes.
abbrev pub IsAnonymousCount : Text → Type 0
IsAnonymousCount line =
    (starts_with (text "Anonymous:") line ≡ true)
    × (count_str : Text) × (count : ℕ) × (get_elem? (split_whitespace line) 1 ≡ some count_str)
    × (parse_u64 count_str ≡ some count)
    × (0 < count)

-- Some line reports such a count, and the last header at or above it is that of a private mapping
-- of no file, which is the region.
abbrev pub IsRegion : List Text → ℕ × ℕ → Type 0
IsRegion ls region =
    (before : List Text) × (line : Text) × (after : List Text) × (h : Header) × (ls
      ≡ before ++ line ∷ after)
    × LastHeader (before ++ line ∷ []) h
    × IsPrivateAnon h
    × IsAnonymousCount line
    × (region ≡ (h.start, sub_u64 h.end h.start))

second_number_count :
    (line : Text)
    → 0 < second_number line
    → (count_str : Text) × (count : ℕ) × (get_elem? (split_whitespace line) 1 ≡ some count_str)
      × (parse_u64 count_str ≡ some count)
      × (0 < count)
unfolding second_number
second_number_count line h = elim (Option-cases (get_elem? (split_whitespace line) 1)) [
  | inl n ↦ ground (arith, n, h)
  | inr (s, e) ↦ elim (Option-cases (parse_u64 s)) [
    | inl n ↦ ground (arith, e, n, h)
    | inr (count, c) ↦ (s, count, e, c, ground (arith, e, c, h))
  ]
]

second_number-parse_u64 :
    (line s : Text) (count : ℕ)
    → get_elem? (split_whitespace line) 1 ≡ some s
    → parse_u64 s ≡ some count
    → second_number line ≡ count
unfolding second_number
second_number-parse_u64 line s count e c = rw e (rw c refl)

IsScanned→IsRegion :
    (ls : List Text) (region : ℕ × ℕ) → IsScanned none ls region → IsRegion ls region
IsScanned→IsRegion ls region (before, line, after, whole, hit) =
    elim (Option-cases (mapping_after none (before ++ line ∷ []))) [
      | inl n ↦ absurd (subst (λ m. IsHit m line region) n hit)
      | inr (m, e) ↦
          let (h, last, m_is) = mapping_after-some (before ++ line ∷ []) m e in
          let (private, anonymous, positive, is) =
            subst (λ o. IsHit o line region) (e ∙ ap some m_is) hit in
          (
            before,
            line,
            after,
            h,
            whole,
            last,
            (private_anon_iff h).0 private,
            let (c, n, word, number, more) = second_number_count line positive in
                (anonymous, c, n, word, number, more),
            is,
          )
    ]

IsRegion→IsScanned :
    (ls : List Text) (region : ℕ × ℕ) → IsRegion ls region → IsScanned none ls region
IsRegion→IsScanned ls region (before, line, after, h, whole, last, private, count, is) =
    let (anonymous, s, n, e, c, positive) = count in
    let number = second_number-parse_u64 line s n e c in
    (
      before,
      line,
      after,
      whole,
      subst (λ o. IsHit o line region) (sym (mapping_after-LastHeader (before ++ line ∷ []) h last))
          ((private_anon_iff h).1 private, anonymous, ground (arith, number, positive), is),
    )

-- A region is returned exactly when some line of the text reports a positive count of anonymous
-- pages and the last header at or above it is of a private mapping with inode 0, which has the
-- region's address and the region's size up to its end. A header is a line with two hexadecimal
-- addresses, a `-` between them and a space behind, and then four fields, of which the first has a
-- `p` if the mapping is private and the last is the inode.
pub parse_anon_regions_iff :
    (smaps : Text) (region : ℕ × ℕ)
    → In region (parse_anon_regions smaps) ↔ IsRegion (lines smaps) region
unfolding parse_anon_regions
parse_anon_regions_iff smaps region =
    let scanned : In region (scan_lines start_scan (lines smaps)).regions
        ↔ IsScanned none (lines smaps) region =
      rw (scan_lines-regions_of none start_scan (lines smaps) refl)
        (regions_of_iff none (lines smaps) region) in
    (
      λ i. IsScanned→IsRegion (lines smaps) region (scanned.0 i),
      λ r. scanned.1 (IsRegion→IsScanned (lines smaps) region r),
    )
