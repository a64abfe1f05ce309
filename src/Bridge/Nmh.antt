-- ===== src/Bridge/Nmh.antt =====
-- bridge/src/nmh.rs: the frames on the bridge's standard input and output. Numbers are little-
-- endian, as on the supported platforms; the codec of JSON is a parameter, and `value` stands for
-- its type.
pub mod Frames
use bssl_ram.Prelude.{
  ℕ, ◌+◌, ◌*◌, ◌/◌, ◌%◌, ◌≡◌, ◌≢◌, ◌≤◌, ◌<◌, refl, sym, ap, ◌∙◌, Bool, true, false, Option, none,
  some, List, [], ◌∷◌, ◌++◌, length, take, drop, arith, if◌then◌else◌, ltb, ◌==◌, drop-append,
  take-append-drop, Option-cases, inl, inr,
}
use bssl_ram.Prelude.Words.{u32_mod}

abbrev pub max_frame_bytes : ℕ
max_frame_bytes = 1024 * 1024

abbrev pub to_ne_bytes : ℕ → List ℕ
to_ne_bytes n = n % 256 ∷ n / 256 % 256 ∷ n / 65536 % 256 ∷ n / 16777216 % 256 ∷ []

-- `read_exact`: the bytes and what is left of the stream; `none` if it ends before.
abbrev pub read_exact : ℕ → List ℕ → Option (List ℕ × List ℕ)
read_exact n stream = if ltb (length stream) n then none else some (take n stream, drop n stream)

-- The four bytes of a length.
abbrev pub read_length : List ℕ → Option (ℕ × List ℕ)
read_length (b0 ∷ b1 ∷ b2 ∷ b3 ∷ rest) = some (b0 + b1 * 256 + b2 * 65536 + b3 * 16777216, rest)
read_length _ = none

pub data FrameError : Type 0 where
  no_length zero_length too_long no_body bad_json : FrameError

-- A frame that is read, with the rest of the stream.
pub data Frame (A : Type 0) : Type 0 where
  frame : A → List ℕ → Frame A
  failed : FrameError → Frame A

module _ {A : Type 0} (from_slice : List ℕ → Option A) where
  -- The body of a frame.
  unfoldable pub read_body : ℕ → List ℕ → Frame A
  read_body len stream = elim (read_exact len stream) [
    | none ↦ failed no_body
    | some (body, rest) ↦ elim (from_slice body) [
      | none ↦ failed bad_json
      | some value ↦ frame value rest
    ]
  ]

  unfoldable pub read_frame : List ℕ → Frame A
  read_frame stream = elim (read_length stream) [
    | none ↦ failed no_length
    | some (len, rest) ↦
        if len == 0
        then failed zero_length
        else if ltb max_frame_bytes len
        then failed too_long
        else read_body len rest
  ]

-- What is written, or an error.
module _ {A : Type 0} (to_vec : A → Option (List ℕ)) where
  unfoldable pub write_frame : A → Option (List ℕ)
  write_frame value = elim (to_vec value) [
    | none ↦ none
    | some body ↦
        if ltb max_frame_bytes (length body) then none else some (to_ne_bytes (length body) ++ body)
  ]
