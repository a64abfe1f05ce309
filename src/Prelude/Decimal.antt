-- ===== src/Prelude/Decimal.antt =====
-- The decimal text of a number (`Display`), up to 20 digits: enough for every u64.
use bssl_ram.Prelude.{
  ℕ, zero, suc, ◌+◌, ◌-◌, ◌*◌, ◌/◌, ◌%◌, ◌^◌, ◌<◌, ◌≡◌, refl, [], ◌∷◌, ◌++◌, arith, ltb,
  if◌then◌else◌, Bool-cases, inl, inr,
}
use bssl_ram.Prelude.Text.{Text}

unfoldable pub show_digits : ℕ → ℕ → Text
show_digits zero n = []
show_digits (suc fuel) n =
    let rest = show_digits fuel (n / 10) in
    if ltb n 10 then (48 + n) ∷ [] else rest ++ (48 + n % 10) ∷ []

abbrev pub show_number : ℕ → Text
show_number n = show_digits 20 n

-- The number that a text of digits stands for.
abbrev pub value_from : ℕ → Text → ℕ
value_from acc [] = acc
value_from acc (c ∷ cs) = value_from (acc * 10 + (c - 48)) cs

value_from-append :
    (acc : ℕ) (s : Text) (c : ℕ) → value_from acc (s ++ c ∷ []) ≡ value_from acc s * 10 + (c - 48)
value_from-append acc [] c = refl
value_from-append acc (d ∷ s) c = value_from-append (acc * 10 + (d - 48)) s c

-- With at most as many digits as fuel, the text stands for the number.
pub show_digits-value : (fuel n : ℕ) → n < 10 ^ fuel → value_from 0 (show_digits fuel n) ≡ n
unfolding show_digits
show_digits-value zero n h = omega arith
show_digits-value (suc fuel) n h = elim (Bool-cases (ltb n 10)) [
  | inl small ↦ ground (arith, small)
  | inr large ↦ ground (
    arith,
    large,
    value_from-append 0 (show_digits fuel (n / 10)) (48 + n % 10),
    show_digits-value fuel (n / 10) (omega arith),
  )
]
