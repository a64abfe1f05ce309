-- ===== src/Scanner.antt =====
-- daemon/src/scanner.rs: profiles of browsers, the tokens of a command line, and the walk over
-- /proc that finds the target processes. Command lines are bytes, everything else is code points.
pub mod Match
pub mod Tokens
pub mod Walk
use bssl_ram.Prelude.{
  ℕ, Bool, true, false, not, ◌&&◌, Option, none, some, List, [], ◌∷◌, map, ◌==◌, any, find,
  get_last, is_empty, if◌then◌else◌,
}
use bssl_ram.Prelude.Text.{
  Text, text, beq_text, is_infix, to_ascii_lowercase, split_whitespace, from_str_radix,
}
use bssl_ram.Prelude.Words.{u32_max}

pub record TargetProcess : Type 0 where
  pub pid : ℕ
  pub profile : Text

pub record BrowserProfile : Type 0 where
  pub name : Text
  pub binary_substring_any : List Text
  pub arg_required_all : List Text
  pub arg_excluded_any : List Text
  pub arg_last : Option Text

abbrev pub firefox_profile : BrowserProfile
firefox_profile = record {
  name = text "firefox";
  binary_substring_any =
      text "firefox" ∷ text "librewolf" ∷ text "waterfox" ∷ text "icecat" ∷ text "zen" ∷ [];
  arg_required_all = text "-isForBrowser" ∷ [];
  arg_excluded_any = [];
  arg_last = some (text "tab");
}

abbrev pub chromium_profile : BrowserProfile
chromium_profile = record {
  name = text "chromium";
  binary_substring_any = [];
  arg_required_all = text "--type=renderer" ∷ [];
  arg_excluded_any = text "--extension-process" ∷ [];
  arg_last = none;
}

abbrev pub default_profiles : List BrowserProfile
default_profiles = firefox_profile ∷ chromium_profile ∷ []

-- A byte becomes the code point of the same number (`b as char`), and NUL a space.
abbrev pub blank : ℕ → ℕ
blank b = if b == 0 then 32 else b

unfoldable pub parse_cmdline : List ℕ → List Text
parse_cmdline raw = split_whitespace (map blank raw)

-- `args.iter().any(|a| a == token)`
abbrev pub has_arg : List Text → Text → Bool
has_arg args token = any (λ a. beq_text a token) args

-- The test of `argv[0]`; only asked when there is one.
unfoldable pub binary_matches : List Text → List Text → Bool
binary_matches [] substrings = false
binary_matches (bin ∷ rest) substrings =
    any (λ s. is_infix (to_ascii_lowercase s) (to_ascii_lowercase bin)) substrings

-- `args.last() == Some(last)`
unfoldable pub last_matches : List Text → Option Text → Bool
last_matches args none = true
last_matches args (some last) = elim (get_last args) [ none ↦ false | some a ↦ beq_text a last ]

unfoldable pub match_profile : List Text → BrowserProfile → Bool
unfolding binary_matches last_matches
match_profile args profile =
    if is_empty args
    then false
    else if not (is_empty profile.binary_substring_any)
        && not (binary_matches args profile.binary_substring_any)
    then false
    else if any (λ required. not (has_arg args required)) profile.arg_required_all
    then false
    else if any (λ excluded. has_arg args excluded) profile.arg_excluded_any
    then false
    else last_matches args profile.arg_last

-- The part of /proc that a walk reads: the names in the directory, or an error, and the bytes of
-- /proc/PID/cmdline, or an error.
pub record ProcDir : Type 0 where
  pub names : Option (List Text)
  pub cmdline : ℕ → Option (List ℕ)

abbrev pub parse_pid : Text → Option ℕ
parse_pid = from_str_radix 10 u32_max

-- The first profile that matches.
unfoldable pub classify : List BrowserProfile → List ℕ → Option BrowserProfile
classify profiles raw = find (λ p. match_profile (parse_cmdline raw) p) profiles

-- One entry of the walk: not a PID, an unreadable command line and no matching profile are skipped.
unfoldable pub scan_entry : List BrowserProfile → ProcDir → Text → Option TargetProcess
scan_entry profiles proc name = elim (parse_pid name) [
  | none ↦ none
  | some pid ↦ elim (proc.cmdline pid) [
    | none ↦ none
    | some raw ↦ elim (classify profiles raw) [
      | none ↦ none
      | some p ↦ some (record { pid = pid; profile = p.name })
    ]
  ]
]

abbrev pub cons_some {ℓ} : {A : Type ℓ} → Option A → List A → List A
cons_some none xs = xs
cons_some (some x) xs = x ∷ xs

unfoldable pub scan_entries : List BrowserProfile → ProcDir → List Text → List TargetProcess
scan_entries profiles proc [] = []
scan_entries profiles proc (name ∷ names) =
    cons_some (scan_entry profiles proc name) (scan_entries profiles proc names)

unfoldable pub scan_targets : List BrowserProfile → ProcDir → List TargetProcess
scan_targets profiles proc = elim proc.names [
  | none ↦ []
  | some names ↦ scan_entries profiles proc names
]
