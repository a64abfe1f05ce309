-- ===== src/Prelude/Text.antt =====
-- Rust's `str` as the list of its code points, with the methods of `str` that the program calls.
pub mod Split
pub mod Utf8
use Prim.Native.Char.{code}
use Prim.Native.String.{String}
use bssl_ram.Prelude.Checks.{ltb, leb, ◌==◌, ==_iff, if◌then◌else◌, Eq, Bool-cases}
use bssl_ram.Prelude.Lists.{any}
use Prim.Native.Nat.{ℕ, zero, suc, ◌+◌, ◌*◌, ◌-◌, ◌≤◌, ◌<◌}
use mathlib.Core.Path.{◌≡◌, refl, ap}
use mathlib.Core.Bool.{Bool, true, false, ◌&&◌, ◌||◌}
use mathlib.Core.Logic.{◌↔◌, inl, inr}
use mathlib.Core.Option.{Option, none, some}
use mathlib.Core.List.{List, [], ◌∷◌, ◌++◌, map}
use native.Mathlib.Omega.{arith}

abbrev pub Text : Type 0
Text = List ℕ

-- A literal.
abbrev pub text : String → Text
text String.[] = []
text (String.◌∷◌ c s) = code c ∷ text s

abbrev pub beq_text : Text → Text → Bool
beq_text [] [] = true
beq_text (a ∷ s) (b ∷ t) = a == b && beq_text s t
beq_text _ _ = false

pub beq_text_iff : (s t : Text) → (beq_text s t ≡ true) ↔ (s ≡ t)
beq_text_iff [] [] = ground arith
beq_text_iff [] (b ∷ t) = ground arith
beq_text_iff (a ∷ s) [] = ground arith
beq_text_iff (a ∷ s) (b ∷ t) = ground (arith, beq_text_iff s t)

instance abbrev pub text_eq : Eq Text
text_eq = record { beq = beq_text; beq_iff = beq_text_iff }

-- `starts_with`
unfoldable pub starts_with : Text → Text → Bool
starts_with [] _ = true
starts_with (p ∷ ps) [] = false
starts_with (p ∷ ps) (c ∷ cs) = p == c && starts_with ps cs

-- `contains`, of a text
unfoldable pub is_infix : Text → Text → Bool
unfolding starts_with
is_infix p [] = starts_with p []
is_infix p (c ∷ cs) = starts_with p (c ∷ cs) || is_infix p cs

-- `to_ascii_lowercase`
abbrev pub lower : ℕ → ℕ
lower c = if leb 65 c && leb c 90 then c + 32 else c

abbrev pub to_ascii_lowercase : Text → Text
to_ascii_lowercase = map lower

-- Unicode `White_Space`
abbrev pub is_whitespace : ℕ → Bool
is_whitespace c =
    (leb 9 c && leb c 13)
    || c == 32
    || c == 0x85
    || c == 0xA0
    || c == 0x1680
    || (leb 0x2000 c && leb c 0x200A)
    || c == 0x2028
    || c == 0x2029
    || c == 0x202F
    || c == 0x205F
    || c == 0x3000

-- A word in front of a list of words, if it is not empty.
abbrev pub cons_word : Text → List Text → List Text
cons_word [] ws = ws
cons_word (c ∷ cs) ws = (c ∷ cs) ∷ ws

-- The word up to the first whitespace, and the words after it.
unfoldable pub words_from : Text → Text × List Text
words_from [] = ([], [])
words_from (c ∷ cs) =
    let (w, ws) = words_from cs in if is_whitespace c then ([], cons_word w ws) else (c ∷ w, ws)

-- `split_whitespace`
unfoldable pub split_whitespace : Text → List Text
unfolding words_from
split_whitespace s = let (w, ws) = words_from s in cons_word w ws

-- The line up to the first `\n`, and the texts after it (the last one is what follows the last
-- `\n`).
unfoldable pub lines_from : Text → Text × List Text
lines_from [] = ([], [])
lines_from (c ∷ cs) = let (l, ls) = lines_from cs in if c == 10 then ([], l ∷ ls) else (c ∷ l, ls)

-- A `\r` at the end of a line belongs to the line ending, but not at the end of the last line when
-- no `\n` follows it.
unfoldable pub trim_cr : Text → Text
trim_cr [] = []
trim_cr (c ∷ []) = if c == 13 then [] else c ∷ []
trim_cr (c ∷ d ∷ cs) = c ∷ trim_cr (d ∷ cs)

unfoldable pub finish_lines : Text → List Text → List Text
unfolding trim_cr
finish_lines [] [] = []
finish_lines (c ∷ l) [] = (c ∷ l) ∷ []
finish_lines l (l' ∷ ls) = trim_cr l ∷ finish_lines l' ls

-- `lines`
unfoldable pub lines : Text → List Text
unfolding lines_from finish_lines
lines s = let (l, ls) = lines_from s in finish_lines l ls

-- `find(c)` and the two slices around it: the text before the first `c` and the text after it.
unfoldable pub split_at : ℕ → Text → Option (Text × Text)
split_at c [] = none
split_at c (d ∷ cs) =
    let rest = split_at c cs in
    if d == c
    then some ([], cs)
    else elim rest [ none ↦ none | some (before, after) ↦ some (d ∷ before, after) ]

-- `rfind(c)` and the slice after it: the text after the last `c`.
unfoldable pub after_last : ℕ → Text → Option Text
after_last c [] = none
after_last c (d ∷ cs) = elim (after_last c cs) [
  | none ↦ if d == c then some cs else none
  | some rest ↦ some rest
]

-- The value of a digit.
abbrev pub digit : ℕ → Option ℕ
digit c =
    if leb 48 c && leb c 57
    then some (c - 48)
    else if leb 97 c && leb c 122
    then some (c - 87)
    else if leb 65 c && leb c 90
    then some (c - 55)
    else none

-- The digits of `from_str_radix`; a value above `max` is an overflow.
unfoldable pub digits : ℕ → ℕ → ℕ → Text → Option ℕ
digits radix max acc [] = some acc
digits radix max acc (c ∷ cs) = elim (digit c) [
  | none ↦ none
  | some d ↦
      let rest = digits radix max (acc * radix + d) cs in
      if ltb d radix && leb (acc * radix + d) max then rest else none
]

-- `from_str_radix` of an unsigned type: one `+` may stand in front, a digit must follow.
unfoldable pub from_str_radix : ℕ → ℕ → Text → Option ℕ
unfolding digits
from_str_radix radix max [] = none
from_str_radix radix max (c ∷ cs) =
    if c == b'+'
    then (elim cs [ [] ↦ none | d ∷ ds ↦ digits radix max 0 (d ∷ ds) ])
    else digits radix max 0 (c ∷ cs)
