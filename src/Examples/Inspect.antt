-- ===== src/Examples/Inspect.antt =====
-- daemon/examples/compress_test.rs: the anonymous mappings of a process, with what they are, and
-- their totals.
use bssl_ram.Prelude.{
  ℕ, Option, none, some, List, [], ◌∷◌, ◌++◌, any, ltb, ◌==◌, if◌then◌else◌, ◌>>=◌, nat_eq,
}
use bssl_ram.Prelude.Map
use bssl_ram.Prelude.Map.{Map}
use bssl_ram.Prelude.Text.{
  Text, text, text_eq, beq_text, starts_with, split_whitespace, lines, split_at, from_str_radix,
}
use bssl_ram.Prelude.Words.{u64_max, add_u64, sub_u64}
use bssl_ram.Compressor.{second_number}

-- What the header of a mapping says, and the mapping with its amount of anonymous pages.
pub record Header : Type 0 where
  pub start : ℕ
  pub end : ℕ
  pub perms : Text
  pub inode : Text
  pub name : Text

pub record Region : Type 0 where
  pub start : ℕ
  pub size : ℕ
  pub perms : Text
  pub inode : Text
  pub name : Text
  pub anon_kb : ℕ

-- The locals of the loop in `parse_anon_regions`.
pub record Inspection : Type 0 where
  pub out : List Region
  pub header : Option Header
  pub anon_kb : ℕ

abbrev pub region_of : Header → ℕ → Region
region_of h anon_kb = record {
  start = h.start;
  size = sub_u64 h.end h.start;
  perms = h.perms;
  inode = h.inode;
  name = h.name;
  anon_kb = anon_kb;
}

-- The regions, with that of the header that is taken if it has anonymous pages.
abbrev pub pushed : List Region → Option Header → ℕ → List Region
pushed out none anon_kb = out
pushed out (some h) anon_kb = if ltb 0 anon_kb then out ++ region_of h anon_kb ∷ [] else out

-- `header.take()`
abbrev pub take_header : Inspection → Inspection
take_header s = record s { out = pushed s.out s.header s.anon_kb; header = none }

abbrev pub name_of : List Text → Text
name_of [] = []
name_of (name ∷ more) = name

-- The new header, if the two addresses can be read.
abbrev pub new_header : Text → Text → Text → Text → List Text → Option Header
new_header start_str end_str perms inode more = do
  start ← from_str_radix 16 u64_max start_str
  end ← from_str_radix 16 u64_max end_str
  some (record { start = start; end = end; perms = perms; inode = inode; name = name_of more })

abbrev pub put_header : Inspection → Option Header → Inspection
put_header s none = s
put_header s (some h) = record s { header = some h; anon_kb = 0 }

-- With four fields at least.
abbrev pub on_parts : Inspection → Text → Text → List Text → Inspection
on_parts s start_str end_str (perms ∷ offset ∷ dev ∷ inode ∷ more) =
    put_header (take_header s) (new_header start_str end_str perms inode more)
on_parts s start_str end_str _ = s

-- The address range and the fields behind it.
abbrev pub split_header : Text → Option (Text × Text × List Text)
split_header line = do
  (start_str, rest) ← split_at b'-' line
  (end_str, after) ← split_at b' ' rest
  some (start_str, end_str, split_whitespace after)

unfoldable pub on_header : Inspection → Text → Inspection
on_header s line = elim (split_header line) [
  | none ↦ s
  | some (start_str, end_str, parts) ↦ on_parts s start_str end_str parts
]

unfoldable pub on_anonymous : Inspection → Text → Inspection
on_anonymous s line =
    if starts_with (text "Anonymous:") line then record s { anon_kb = second_number line } else s

unfoldable pub on_lines : Inspection → List Text → Inspection
on_lines s [] = s
on_lines s (line ∷ rest) = on_lines (on_anonymous (on_header s line) line) rest

abbrev pub no_inspection : Inspection
no_inspection = record { out = []; header = none; anon_kb = 0 }

-- `parse_anon_regions`, of the text of /proc/PID/smaps, which is empty if it cannot be read.
unfoldable pub parse_anon_regions : Option Text → List Region
parse_anon_regions none = []
parse_anon_regions (some smaps) = (take_header (on_lines no_inspection (lines smaps))).out

-- The totals of `main`.
pub record Totals : Type 0 where
  pub by_perms : Map Text (ℕ × ℕ)
  pub total_kb : ℕ
  pub shared : ℕ
  pub not_anon_inode : ℕ

abbrev pub no_totals : Totals
no_totals = record { by_perms = []; total_kb = 0; shared = 0; not_anon_inode = 0 }

abbrev pub or_default : Option (ℕ × ℕ) → ℕ × ℕ
or_default none = (0, 0)
or_default (some entry) = entry

unfoldable pub add_region : Totals → Region → Totals
add_region t r =
    let entry = or_default (Map.lookup r.perms t.by_perms) in
    record {
      by_perms = Map.insert r.perms (add_u64 entry.0 1, add_u64 entry.1 r.anon_kb) t.by_perms;
      total_kb = add_u64 t.total_kb r.anon_kb;
      shared = if any (λ c. c == b'p') r.perms then t.shared else add_u64 t.shared r.anon_kb;
      not_anon_inode =
          if beq_text r.inode (text "0")
          then t.not_anon_inode
          else add_u64 t.not_anon_inode r.anon_kb;
    }

unfoldable pub add_regions : Totals → List Region → Totals
add_regions t [] = t
add_regions t (r ∷ rs) = add_regions (add_region t r) rs
