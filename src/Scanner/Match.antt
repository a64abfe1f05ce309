-- ===== src/Scanner/Match.antt =====
-- `match_profile` of daemon/src/scanner.rs decides what a profile declares.
use bssl_ram.Prelude.{
  ◌≡◌, refl, ap, ◌≢◌, ◌↔◌, ◌⊎◌, inl, inr, true, false, not, Option, none, some, List, [], ◌∷◌, ◌++◌,
  arith, any, is_empty, get_last, In, All, Bool-cases,
}
use bssl_ram.Prelude.Text.{Text, beq_text, beq_text_iff, is_infix, starts_with, to_ascii_lowercase}
use bssl_ram.Scanner.{BrowserProfile, match_profile, binary_matches, last_matches, has_arg}

-- `p` stands somewhere in `s`.
abbrev pub IsInfix : Text → Text → Type 0
IsInfix p s = (before : Text) × (after : Text) × (s ≡ before ++ (p ++ after))

starts_with→append : (p s : Text) → starts_with p s ≡ true → (after : Text) × (s ≡ p ++ after)
unfolding starts_with
starts_with→append [] s h = (s, refl)
starts_with→append (p ∷ ps) [] h = cc
starts_with→append (p ∷ ps) (c ∷ cs) h =
    let (after, e) = starts_with→append ps cs (ground arith) in (after, ground arith)

starts_with-append : (p after : Text) → starts_with p (p ++ after) ≡ true
unfolding starts_with
starts_with-append [] after = refl
starts_with-append (p ∷ ps) after = ground (arith, starts_with-append ps after)

starts_with→is_infix : (p s : Text) → starts_with p s ≡ true → is_infix p s ≡ true
unfolding is_infix
starts_with→is_infix p [] h = h
starts_with→is_infix p (c ∷ cs) h = rw h

is_infix→IsInfix : (p s : Text) → is_infix p s ≡ true → IsInfix p s
unfolding is_infix
is_infix→IsInfix p [] h = let (after, e) = starts_with→append p [] h in ([], after, e)
is_infix→IsInfix p (c ∷ cs) h = elim (Bool-cases (starts_with p (c ∷ cs))) [
  | inl here ↦ let (after, e) = starts_with→append p (c ∷ cs) here in ([], after, e)
  | inr there ↦
      let (before, after, e) = is_infix→IsInfix p cs (ground arith) in
      (c ∷ before, after, ap (◌∷◌ c) e)
]

is_infix-append : (before p after : Text) → is_infix p (before ++ (p ++ after)) ≡ true
unfolding is_infix
is_infix-append [] p after = starts_with→is_infix p _ (starts_with-append p after)
is_infix-append (c ∷ before) p after = ground (arith, is_infix-append before p after)

pub is_infix_iff : (p s : Text) → (is_infix p s ≡ true) ↔ IsInfix p s
is_infix_iff p s = (is_infix→IsInfix p s, λ x. rw (x.2) (is_infix-append x.0 p x.1))

pub has_arg_iff : (args : List Text) (a : Text) → (has_arg args a ≡ true) ↔ In a args
has_arg_iff [] a = ground arith
has_arg_iff (x ∷ xs) a = ground (arith, beq_text_iff x a, has_arg_iff xs a)

-- Some element satisfies `P`.
abbrev pub Some : (Text → Type 0) → List Text → Type 0
Some P [] = ⊥
Some P (x ∷ xs) = P x ⊎ Some P xs

-- `argv[0]` contains one of the substrings, in lower case.
abbrev pub BinaryMatches : List Text → List Text → Type 0
BinaryMatches [] ss = ⊥
BinaryMatches (bin ∷ rest) ss =
    Some (λ s. IsInfix (to_ascii_lowercase s) (to_ascii_lowercase bin)) ss

abbrev pub LastMatches : List Text → Option Text → Type 0
LastMatches args none = Unit
LastMatches args (some l) = get_last args ≡ some l

-- What a profile declares of an argument vector, apart from any order of tests.
pub record Matches (args : List Text) (p : BrowserProfile) : Type 0 where
  pub nonempty : args ≢ []
  pub binary : (p.binary_substring_any ≡ []) ⊎ BinaryMatches args p.binary_substring_any
  pub required : All (λ a. In a args) p.arg_required_all
  pub excluded : All (λ a. ¬ In a args) p.arg_excluded_any
  pub last : LastMatches args p.arg_last

is_empty_iff : (xs : List Text) → (is_empty xs ≡ true) ↔ (xs ≡ [])
is_empty_iff [] = ground arith
is_empty_iff (x ∷ xs) = ground arith

required_iff :
    (args : List Text) (rs : List Text)
    → (any (λ a. not (has_arg args a)) rs ≡ false) ↔ All (λ a. In a args) rs
required_iff args [] = ground arith
required_iff args (r ∷ rs) = ground (arith, has_arg_iff args r, required_iff args rs)

excluded_iff :
    (args : List Text) (xs : List Text)
    → (any (λ a. has_arg args a) xs ≡ false) ↔ All (λ a. ¬ In a args) xs
excluded_iff args [] = ground arith
excluded_iff args (x ∷ xs) = ground (arith, has_arg_iff args x, excluded_iff args xs)

Some-iff :
    (bin : Text) (ss : List Text)
    → (any (λ s. is_infix (to_ascii_lowercase s) (to_ascii_lowercase bin)) ss ≡ true)
      ↔ Some (λ s. IsInfix (to_ascii_lowercase s) (to_ascii_lowercase bin)) ss
Some-iff bin [] = ground arith
Some-iff bin (s ∷ ss) =
    ground (arith, is_infix_iff (to_ascii_lowercase s) (to_ascii_lowercase bin), Some-iff bin ss)

binary_matches_iff : (args ss : List Text) → (binary_matches args ss ≡ true) ↔ BinaryMatches args ss
unfolding binary_matches
binary_matches_iff [] ss = ground arith
binary_matches_iff (bin ∷ rest) ss = Some-iff bin ss

last_matches_iff :
    (args : List Text) (l : Option Text) → (last_matches args l ≡ true) ↔ LastMatches args l
unfolding last_matches
last_matches_iff args none = ground arith
last_matches_iff args (some l) = go (get_last args)
  where
    go :
        (o : Option Text)
        → ((elim o [ none ↦ false | some a ↦ beq_text a l ]) ≡ true) ↔ (o ≡ some l)
    go none = ground arith
    go (some a) = ground (arith, beq_text_iff a l)

-- `match_profile` is true exactly of the argument vectors that the profile declares.
pub match_profile_iff :
    (args : List Text) (p : BrowserProfile) → (match_profile args p ≡ true) ↔ Matches args p
unfolding match_profile
match_profile_iff args p = (forth, back)
  where
    forth : match_profile args p ≡ true → Matches args p
    forth h = record {
      nonempty = λ e. ground (arith, is_empty_iff args);
      binary = ground (
        arith,
        is_empty_iff p.binary_substring_any,
        binary_matches_iff args p.binary_substring_any,
      );
      required = (required_iff args p.arg_required_all).0 (ground arith);
      excluded = (excluded_iff args p.arg_excluded_any).0 (ground arith);
      last = (last_matches_iff args p.arg_last).0 (ground arith);
    }

    back : Matches args p → match_profile args p ≡ true
    back m = ground (
      arith,
      is_empty_iff args,
      is_empty_iff p.binary_substring_any,
      binary_matches_iff args p.binary_substring_any,
      (required_iff args p.arg_required_all).1 m.required,
      (excluded_iff args p.arg_excluded_any).1 m.excluded,
      (last_matches_iff args p.arg_last).1 m.last,
    )
