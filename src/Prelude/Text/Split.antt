-- ===== src/Prelude/Text/Split.antt =====
-- `split_whitespace`: its words are tokens, and words that were written with a separator behind
-- each are read back. `rfind`: the text after the last occurrence.
use bssl_ram.Prelude.Checks.{Bool-cases, Option-cases, ◌==◌}
use bssl_ram.Prelude.Lists.{All}
use bssl_ram.Prelude.Text.{
  Text, split_whitespace, words_from, is_whitespace, cons_word, after_last, split_at,
}
use Prim.Native.Nat.{ℕ}
use mathlib.Core.Path.{◌≡◌, refl, ap, ◌∙◌}
use mathlib.Core.Bool.{true, false}
use mathlib.Core.Logic.{◌≢◌, inl, inr}
use mathlib.Core.Option.{none, some}
use mathlib.Core.List.{List, [], ◌∷◌, ◌++◌, append_assoc}
use native.Mathlib.Omega.{arith}

abbrev pub HasNoSpace : Text → Type 0
HasNoSpace = All (λ c. is_whitespace c ≡ false)

-- A token: not empty, and without whitespace.
abbrev pub IsToken : Text → Type 0
IsToken w = (w ≢ []) × HasNoSpace w

cons_word-IsToken :
    (w : Text) (ws : List Text) → HasNoSpace w → All IsToken ws → All IsToken (cons_word w ws)
cons_word-IsToken [] ws h hs = hs
cons_word-IsToken (c ∷ cs) ws h hs = ((λ e. cc, h), hs)

words_from-IsToken : (s : Text) → HasNoSpace (words_from s).0 × All IsToken (words_from s).1
unfolding words_from
words_from-IsToken [] = (tt, tt)
words_from-IsToken (c ∷ cs) =
    let (w, ws) = words_from-IsToken cs in
    elim (Bool-cases (is_whitespace c)) [
      | inl space ↦ rw space (tt, cons_word-IsToken (words_from cs).0 (words_from cs).1 w ws)
      | inr other ↦ rw other ((other, w), ws)
    ]

pub split_whitespace-IsToken : (s : Text) → All IsToken (split_whitespace s)
unfolding split_whitespace
split_whitespace-IsToken s =
    let (w, ws) = words_from-IsToken s in cons_word-IsToken (words_from s).0 (words_from s).1 w ws

-- Each word is followed by the separator.
abbrev pub terminate : ℕ → List Text → Text
terminate sep [] = []
terminate sep (w ∷ ws) = w ++ sep ∷ terminate sep ws

words_from-append :
    (sep : ℕ) (rest w : Text)
    → is_whitespace sep ≡ true
    → HasNoSpace w
    → words_from (w ++ sep ∷ rest) ≡ (w, split_whitespace rest)
unfolding words_from split_whitespace
words_from-append sep rest [] e h = rw e
words_from-append sep rest (c ∷ cs) e h = rw (words_from-append sep rest cs e h.1, h.0)

pub split_whitespace-terminate :
    (sep : ℕ) (ws : List Text)
    → is_whitespace sep ≡ true
    → All IsToken ws
    → split_whitespace (terminate sep ws) ≡ ws
unfolding split_whitespace words_from
split_whitespace-terminate sep [] e h = refl
split_whitespace-terminate sep ([] ∷ ws) e h = absurd (h.0.0 refl)
split_whitespace-terminate sep ((c ∷ cs) ∷ ws) e h =
    rw (words_from-append sep (terminate sep ws) (c ∷ cs) e h.0.1)
      (ap (◌∷◌ (c ∷ cs)) (split_whitespace-terminate sep ws e h.1))

abbrev pub IsBlank : Text → Type 0
IsBlank = All (λ c. is_whitespace c ≡ true)

-- The separator stands between two words, and none behind the last.
abbrev pub join_words : ℕ → List Text → Text
join_words sep [] = []
join_words sep (w ∷ []) = w
join_words sep (w ∷ v ∷ ws) = w ++ sep ∷ join_words sep (v ∷ ws)

words_from-IsBlank : (pad : Text) → IsBlank pad → words_from pad ≡ ([], [])
unfolding words_from
words_from-IsBlank [] h = refl
words_from-IsBlank (c ∷ pad) h = rw (words_from-IsBlank pad h.1, h.0) refl

split_whitespace-IsBlank : (pad : Text) → IsBlank pad → split_whitespace pad ≡ []
unfolding split_whitespace
split_whitespace-IsBlank pad h = rw (words_from-IsBlank pad h) refl

-- One word with blanks behind it.
words_from_padded : (w pad : Text) → HasNoSpace w → IsBlank pad → words_from (w ++ pad) ≡ (w, [])
unfolding words_from
words_from_padded [] pad h b = words_from-IsBlank pad b
words_from_padded (c ∷ w) pad h b = rw (words_from_padded w pad h.1 b, h.0) refl

cons_word_filled : (w : Text) (ws : List Text) → w ≢ [] → cons_word w ws ≡ w ∷ ws
cons_word_filled [] ws h = absurd (h refl)
cons_word_filled (c ∷ w) ws h = refl

pub split_whitespace-join_words :
    (sep : ℕ) (ws : List Text) (pad : Text)
    → is_whitespace sep ≡ true
    → All IsToken ws
    → IsBlank pad
    → split_whitespace (join_words sep ws ++ pad) ≡ ws
unfolding split_whitespace
split_whitespace-join_words sep [] pad e h b = split_whitespace-IsBlank pad b
split_whitespace-join_words sep (w ∷ []) pad e h b =
    rw (words_from_padded w pad h.0.1 b) (cons_word_filled w [] h.0.0)
split_whitespace-join_words sep (w ∷ v ∷ ws) pad e h b =
    rw (append_assoc w (sep ∷ join_words sep (v ∷ ws)) pad) (
      rw (words_from-append sep (join_words sep (v ∷ ws) ++ pad) w e h.0.1) (
        cons_word_filled w (split_whitespace (join_words sep (v ∷ ws) ++ pad)) h.0.0
        ∙ ap (◌∷◌ w) (split_whitespace-join_words sep (v ∷ ws) pad e h.1 b)))

-- The character does not occur.
abbrev pub Lacks : ℕ → Text → Type 0
Lacks c = All (λ d. d ≢ c)

after_last_absent : (c : ℕ) (s : Text) → Lacks c s → after_last c s ≡ none
unfolding after_last
after_last_absent c [] h = refl
after_last_absent c (d ∷ s) h = ground (arith, after_last_absent c s h.1)

pub after_last-append :
    (c : ℕ) (before after : Text) → Lacks c after → after_last c (before ++ c ∷ after) ≡ some after
unfolding after_last
after_last-append c [] after h = ground (arith, after_last_absent c after h)
after_last-append c (d ∷ before) after h = ground (arith, after_last-append c before after h)

pub split_at-append :
    (c : ℕ) (before after : Text)
    → Lacks c before
    → split_at c (before ++ c ∷ after) ≡ some (before, after)
unfolding split_at
split_at-append c [] after h = ground arith
split_at-append c (d ∷ before) after h = ground (arith, split_at-append c before after h.1)

pub split_at-some :
    (c : ℕ) (s before after : Text)
    → split_at c s ≡ some (before, after)
    → (s ≡ before ++ c ∷ after) × Lacks c before
unfolding split_at
split_at-some c [] before after h = cc
split_at-some c (d ∷ s) before after h = elim (Bool-cases (d == c)) [
  | inl found ↦ ground (arith, found, h)
  | inr later ↦ elim (Option-cases (split_at c s)) [
    | inl absent ↦ ground (arith, later, absent, h)
    | inr ((b, a), e) ↦
        let here : (before ≡ d ∷ b) × (after ≡ a) = ground (arith, later, e, h) in
        let (whole, lacks) = split_at-some c s b a e in
        (rw (here.0, here.1) (ap (◌∷◌ d) whole), rw here.0 (ground (arith, later), lacks))
  ]
]
