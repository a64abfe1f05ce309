-- ===== src/Prelude/Text/Utf8.antt =====
-- The bytes of a Rust `str`: its UTF-8.
use bssl_ram.Prelude.Checks.{ltb, if◌then◌else◌}
use bssl_ram.Prelude.Lists.{All}
use bssl_ram.Prelude.Text.{Text}
use Prim.Native.Nat.{ℕ, ◌+◌, ◌/◌, ◌%◌, ◌<◌}
use mathlib.Core.Path.{◌≡◌, refl}
use mathlib.Core.List.{List, [], ◌∷◌, ◌++◌, map}
use native.Mathlib.Omega.{arith}

-- A byte that continues a character, with six of its bits.
abbrev continuation : ℕ → ℕ
continuation bits = 128 + bits % 64

abbrev pub encode_utf8 : ℕ → List ℕ
encode_utf8 c =
    if ltb c 0x80
    then c ∷ []
    else if ltb c 0x800
    then (192 + c / 64) ∷ continuation c ∷ []
    else if ltb c 0x10000
    then (224 + c / 4096) ∷ continuation (c / 64) ∷ continuation c ∷ []
    else (240 + c / 262144) ∷ continuation (c / 4096) ∷ continuation (c / 64) ∷ continuation c ∷ []

-- `as_bytes`
abbrev pub as_bytes : Text → List ℕ
as_bytes [] = []
as_bytes (c ∷ s) = encode_utf8 c ++ as_bytes s

abbrev pub IsAscii : Text → Type 0
IsAscii = All (λ c. c < 128)

as_bytes-IsAscii : (s : Text) → IsAscii s → as_bytes s ≡ s
as_bytes-IsAscii [] h = refl
as_bytes-IsAscii (c ∷ s) h = ground (arith, as_bytes-IsAscii s h.1)

pub map-as_bytes_ascii : (ts : List Text) → All IsAscii ts → map as_bytes ts ≡ ts
map-as_bytes_ascii [] h = refl
map-as_bytes_ascii (t ∷ ts) h = ground (arith, as_bytes-IsAscii t h.0, map-as_bytes_ascii ts h.1)
