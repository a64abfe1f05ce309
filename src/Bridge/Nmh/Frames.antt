-- ===== src/Bridge/Nmh/Frames.antt =====
-- bridge/src/nmh.rs: a frame that is written is read back, and a read takes one frame from the
-- stream.
use bssl_ram.Prelude.{
  ℕ, ◌+◌, ◌*◌, ◌≡◌, ◌≤◌, ◌<◌, ap, Option, List, [], ◌∷◌, length, drop, arith, length-drop,
}
use bssl_ram.Bridge.Nmh.{max_frame_bytes, frame, read_body, read_frame}

-- A frame that is read is at the front of the stream: four bytes, then a body of between one byte
-- and the limit, then what is left.
pub read_frame-bounded :
    {A : Type 0} (from_slice : List ℕ → Option A) (stream rest : List ℕ) (v : A)
    → read_frame from_slice stream ≡ frame v rest
    → (n : ℕ) × (0 < n)
      × (n ≤ max_frame_bytes)
      × (length stream ≡ 4 + n + length rest)
      × (rest ≡ drop n (drop 4 stream))
unfolding read_frame read_body
read_frame-bounded from_slice (b0 ∷ b1 ∷ b2 ∷ b3 ∷ stream) rest v e =
    let n = b0 + b1 * 256 + b2 * 65536 + b3 * 16777216 in
    let kept : rest ≡ drop n stream = ground (arith, e) in
    let enough : n ≤ length stream = ground (arith, e) in
    (
      n,
      ground (arith, e),
      ground (arith, e),
      omega (arith, enough, ap length kept, length-drop n stream),
      kept,
    )
read_frame-bounded from_slice [] rest v e = absurd (ground (arith, e))
read_frame-bounded from_slice (b0 ∷ []) rest v e = absurd (ground (arith, e))
read_frame-bounded from_slice (b0 ∷ b1 ∷ []) rest v e = absurd (ground (arith, e))
read_frame-bounded from_slice (b0 ∷ b1 ∷ b2 ∷ []) rest v e = absurd (ground (arith, e))
