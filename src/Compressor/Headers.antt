-- ===== src/Compressor/Headers.antt =====
-- The header lines of /proc/PID/smaps as proc(5) describes them: which lines `parse_anon_regions`
-- of daemon/src/compressor.rs takes for a header, and what it reads there.
use bssl_ram.Prelude.{
  ℕ, ◌≡◌, refl, sym, ap, ◌∙◌, ◌↔◌, ◌⊎◌, inl, inr, true, ◌&&◌, Option, none, some, List, [], ◌∷◌,
  ◌++◌, arith, All, In, any, ◌==◌, Option-cases,
}
use bssl_ram.Prelude.Text.{
  Text, text, beq_text, beq_text_iff, split_at, split_whitespace, from_str_radix,
}
use bssl_ram.Prelude.Text.Split.{Lacks, split_at-append, split_at-some}
use bssl_ram.Prelude.Words.{u64_max, sub_u64}
use bssl_ram.Compressor.{Mapping, parse_mapping, mapping_of}

pub record Header : Type 0 where
  pub start : ℕ
  pub end : ℕ
  pub perms : Text
  pub inode : Text

-- The line is `start-end perms offset dev inode`, with anything behind, and hexadecimal addresses.
abbrev pub IsHeader : Text → Header → Type 0
IsHeader line h =
    (start_str : Text) × (end_str : Text) × (fields : Text) × (offset : Text) × (dev : Text)
    × (more : List Text) × (line ≡ start_str ++ b'-' ∷ (end_str ++ b' ' ∷ fields))
    × Lacks b'-' start_str
    × Lacks b' ' end_str
    × (split_whitespace fields ≡ h.perms ∷ offset ∷ dev ∷ h.inode ∷ more)
    × (from_str_radix 16 u64_max start_str ≡ some h.start)
    × (from_str_radix 16 u64_max end_str ≡ some h.end)

abbrev pub IsNoHeader : Text → Type 0
IsNoHeader line = (h : Header) → ¬ IsHeader line h

-- The last header among the lines.
abbrev pub LastHeader : List Text → Header → Type 0
LastHeader ls h =
    (above : List Text) × (line : Text) × (below : List Text) × (ls ≡ above ++ line ∷ below)
    × IsHeader line h
    × All IsNoHeader below

-- A private mapping of no file.
abbrev pub IsPrivateAnon : Header → Type 0
IsPrivateAnon h = In b'p' h.perms × (h.inode ≡ text "0")

-- What the code keeps of a header.
abbrev pub mapping_for : Header → Mapping
mapping_for h = record {
  start = h.start;
  size = sub_u64 h.end h.start;
  private_anon = any (λ c. c == b'p') h.perms && beq_text h.inode (text "0");
}

any_is : (c : ℕ) (s : Text) → (any (λ d. d == c) s ≡ true) ↔ In c s
any_is c [] = ground arith
any_is c (d ∷ s) = ground (arith, any_is c s)

pub private_anon_iff : (h : Header) → ((mapping_for h).private_anon ≡ true) ↔ IsPrivateAnon h
private_anon_iff h = ground (arith, any_is b'p' h.perms, beq_text_iff h.inode (text "0"))

pub mapping_of-IsHeader :
    (line : Text) (h : Header) → IsHeader line h → mapping_of line ≡ some (mapping_for h)
unfolding mapping_of
mapping_of-IsHeader line h
      (s, e, fields, offset, dev, more, whole, no_dash, no_space, split, es, ee) =
    rw whole (
      rw (split_at-append b'-' s (e ++ b' ' ∷ fields) no_dash)
        (rw (split_at-append b' ' e fields no_space) (rw split (rw (es, ee) refl))))

-- The four fields and the addresses of a header that was read.
parse_mapping-some :
    (start_str end_str : Text) (fields : List Text) (m : Mapping)
    → parse_mapping start_str end_str fields ≡ some m
    → (h : Header) × (offset : Text) × (dev : Text) × (more : List Text) × (fields
        ≡ h.perms ∷ offset ∷ dev ∷ h.inode ∷ more)
      × (from_str_radix 16 u64_max start_str ≡ some h.start)
      × (from_str_radix 16 u64_max end_str ≡ some h.end)
      × (m ≡ mapping_for h)
parse_mapping-some s e [] m eq = cc
parse_mapping-some s e (a ∷ []) m eq = cc
parse_mapping-some s e (a ∷ b ∷ []) m eq = cc
parse_mapping-some s e (a ∷ b ∷ c ∷ []) m eq = cc
parse_mapping-some s e (perms ∷ offset ∷ dev ∷ inode ∷ more) m eq =
    elim (Option-cases (from_str_radix 16 u64_max s)) [
      | inl n ↦ ground (arith, n, eq)
      | inr (start, es) ↦ elim (Option-cases (from_str_radix 16 u64_max e)) [
        | inl n ↦ ground (arith, es, n, eq)
        | inr (end, ee) ↦ (
          record { start = start; end = end; perms = perms; inode = inode },
          offset,
          dev,
          more,
          refl,
          es,
          ee,
          ground (arith, es, ee, eq),
        )
      ]
    ]

mapping_of-some :
    (line : Text) (m : Mapping)
    → mapping_of line ≡ some m
    → (h : Header) × IsHeader line h × (m ≡ mapping_for h)
unfolding mapping_of
mapping_of-some line m eq = elim (Option-cases (split_at b'-' line)) [
  | inl n ↦ ground (arith, n, eq)
  | inr ((s, rest), dash) ↦ elim (Option-cases (split_at b' ' rest)) [
    | inl n ↦ ground (arith, dash, n, eq)
    | inr ((e, fields), space) ↦
        let (whole, no_dash) = split_at-some b'-' line s rest dash in
        let (rest_is, no_space) = split_at-some b' ' rest e fields space in
        let read : parse_mapping s e (split_whitespace fields) ≡ some m =
          ground (arith, dash, space, eq) in
        let (h, offset, dev, more, split, es, ee, m_is) =
          parse_mapping-some s e (split_whitespace fields) m read in
        (
          h,
          (
            s,
            e,
            fields,
            offset,
            dev,
            more,
            whole ∙ ap (λ r. s ++ b'-' ∷ r) rest_is,
            no_dash,
            no_space,
            split,
            es,
            ee,
          ),
          m_is,
        )
  ]
]

mapping_of-IsNoHeader : (line : Text) → (mapping_of line ≡ none) ↔ IsNoHeader line
mapping_of-IsNoHeader line = (
  λ n h is. absurd (none-ne-some (sym n ∙ mapping_of-IsHeader line h is)),
  λ not_one. elim (Option-cases (mapping_of line)) [
    | inl n ↦ n
    | inr (m, e) ↦ let (h, is, m_is) = mapping_of-some line m e in absurd (not_one h is)
  ],
)
  where
    none-ne-some : {m : Mapping} → ¬ (none ≡ some m)
    none-ne-some e = cc

-- The mapping that a line belongs to: that of the last header line up to it.
abbrev pub mapping_after : Option Mapping → List Text → Option Mapping
mapping_after before [] = before
mapping_after before (line ∷ rest) =
    mapping_after (elim (mapping_of line) [ none ↦ before | some m ↦ some m ]) rest

mapping_after-IsNoHeader :
    (current : Option Mapping) (ls : List Text)
    → All IsNoHeader ls
    → mapping_after current ls ≡ current
mapping_after-IsNoHeader current [] h = refl
mapping_after-IsNoHeader current (line ∷ rest) h =
    rw ((mapping_of-IsNoHeader line).1 h.0) (mapping_after-IsNoHeader current rest h.1)

mapping_after_header :
    (current : Option Mapping) (above below : List Text) (line : Text) (h : Header)
    → IsHeader line h
    → All IsNoHeader below
    → mapping_after current (above ++ line ∷ below) ≡ some (mapping_for h)
mapping_after_header current [] below line h is no_more =
    ap (λ o. mapping_after (elim o [ none ↦ current | some m ↦ some m ]) below)
      (mapping_of-IsHeader line h is)
    ∙ mapping_after-IsNoHeader (some (mapping_for h)) below no_more
mapping_after_header current (a ∷ above) below line h is no_more =
    mapping_after_header (mapping_after current (a ∷ [])) above below line h is no_more

pub mapping_after-LastHeader :
    (ls : List Text) (h : Header) → LastHeader ls h → mapping_after none ls ≡ some (mapping_for h)
mapping_after-LastHeader ls h (above, line, below, whole, is, no_more) =
    ap (mapping_after none) whole ∙ mapping_after_header none above below line h is no_more

mapping_after-cases :
    (current : Option Mapping) (ls : List Text) (m : Mapping)
    → mapping_after current ls ≡ some m
    → ((h : Header) × LastHeader ls h × (m ≡ mapping_for h))
      ⊎ ((current ≡ some m) × All IsNoHeader ls)
mapping_after-cases current [] m e = inr (e, tt)
mapping_after-cases current (line ∷ rest) m e =
    elim (mapping_after-cases (mapping_after current (line ∷ [])) rest m e) [
      | inl (h, (above, l, below, whole, is, no_more), m_is) ↦
          inl (h, (line ∷ above, l, below, ap (◌∷◌ line) whole, is, no_more), m_is)
      | inr (here, no_more) ↦ elim (Option-cases (mapping_of line)) [
        | inl n ↦ inr (ground (arith, n, here), ((mapping_of-IsNoHeader line).0 n, no_more))
        | inr (m', read) ↦
            let (h, is, m_is) = mapping_of-some line m' read in
            inl (h, ([], line, rest, refl, is, no_more), ground (arith, read, here) ∙ m_is)
      ]
    ]

pub mapping_after-some :
    (ls : List Text) (m : Mapping)
    → mapping_after none ls ≡ some m
    → (h : Header) × LastHeader ls h × (m ≡ mapping_for h)
mapping_after-some ls m e = elim (mapping_after-cases none ls m e) [
  | inl found ↦ found
  | inr (n, no_more) ↦ cc
]
