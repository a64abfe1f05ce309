-- ===== src/Scanner/Tokens.antt =====
-- `parse_cmdline` of daemon/src/scanner.rs: its tokens are never empty and hold no whitespace, and
-- it reads back both layouts of /proc/PID/cmdline, NUL behind each argument or a space between two.
use bssl_ram.Prelude.{ℕ, ◌≡◌, refl, sym, ap, ◌∙◌, List, [], ◌∷◌, ◌++◌, map, arith, All}
use mathlib.Core.List.{append_assoc}
use bssl_ram.Prelude.Text.{Text, split_whitespace}
use bssl_ram.Prelude.Text.Split.{
  IsToken, Lacks, IsBlank, terminate, join_words, split_whitespace-IsToken,
  split_whitespace-terminate, split_whitespace-join_words,
}
use bssl_ram.Prelude.Text.Utf8.{as_bytes, IsAscii, map-as_bytes_ascii}
use bssl_ram.Scanner.{parse_cmdline, blank}

-- Every token of a command line is non-empty and holds no whitespace.
pub parse_cmdline-IsToken : (raw : List ℕ) → All IsToken (parse_cmdline raw)
unfolding parse_cmdline
parse_cmdline-IsToken raw = split_whitespace-IsToken (map blank raw)

-- An argument that can be read back: not empty, with neither whitespace nor NUL, and in ASCII.
abbrev pub IsArg : Text → Type 0
IsArg a = IsToken a × Lacks 0 a × IsAscii a

blank-append : (a rest : Text) → Lacks 0 a → map blank (a ++ rest) ≡ a ++ map blank rest
blank-append [] rest h = refl
blank-append (b ∷ a) rest h = ground (arith, blank-append a rest h.1)

blank-terminate :
    (sep : ℕ) (args : List Text)
    → All IsArg args
    → map blank (terminate sep args) ≡ terminate (blank sep) args
blank-terminate sep [] h = refl
blank-terminate sep (a ∷ args) h =
    blank-append a (sep ∷ terminate sep args) h.0.1
    ∙ ap (λ r. a ++ blank sep ∷ r) (blank-terminate sep args h.1)

blank-join_words :
    (args : List Text) (rest : List ℕ)
    → All IsArg args
    → map blank (join_words 32 args ++ rest) ≡ join_words 32 args ++ map blank rest
blank-join_words [] rest h = refl
blank-join_words (a ∷ []) rest h = blank-append a rest h.0.1
blank-join_words (a ∷ b ∷ args) rest h =
    ap (map blank) (append_assoc a (32 ∷ join_words 32 (b ∷ args)) rest)
    ∙ blank-append a (32 ∷ join_words 32 (b ∷ args) ++ rest) h.0.1
    ∙ ap (λ r. a ++ 32 ∷ r) (blank-join_words (b ∷ args) rest h.1)
    ∙ sym (append_assoc a (32 ∷ join_words 32 (b ∷ args)) (map blank rest))

blank-IsBlank : (nuls : List ℕ) → All (λ b. b ≡ 0) nuls → IsBlank (map blank nuls)
blank-IsBlank [] h = tt
blank-IsBlank (b ∷ nuls) h = (ground (arith, h.0), blank-IsBlank nuls h.1)

All-IsToken : (args : List Text) → All IsArg args → All IsToken args
All-IsToken [] h = tt
All-IsToken (a ∷ args) h = (h.0.0, All-IsToken args h.1)

All-IsAscii : (args : List Text) → All IsArg args → All IsAscii args
All-IsAscii [] h = tt
All-IsAscii (a ∷ args) h = (h.0.2, All-IsAscii args h.1)

-- Arguments in ASCII that are not empty and hold neither NUL nor whitespace are read back from
-- their bytes, whether the kernel's NUL is behind each or the process wrote a space between any
-- two, with any number of NULs behind the last.
pub parse_cmdline-terminate :
    (args : List Text) (nuls : List ℕ)
    → All IsArg args
    → All (λ b. b ≡ 0) nuls
    → (parse_cmdline (terminate 0 (map as_bytes args)) ≡ args)
      × (parse_cmdline (join_words 32 (map as_bytes args) ++ nuls) ≡ args)
unfolding parse_cmdline
parse_cmdline-terminate args nuls h z =
    let tokens = All-IsToken args h in
    let written = map-as_bytes_ascii args (All-IsAscii args h) in
    (
      ap (λ a. split_whitespace (map blank (terminate 0 a))) written
          ∙ ap split_whitespace (blank-terminate 0 args h)
          ∙ split_whitespace-terminate 32 args refl tokens,
      ap (λ a. split_whitespace (map blank (join_words 32 a ++ nuls))) written
          ∙ ap split_whitespace (blank-join_words args nuls h)
          ∙ split_whitespace-join_words 32 args (map blank nuls) refl tokens (blank-IsBlank nuls z),
    )
