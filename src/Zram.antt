-- ===== src/Zram.antt =====
-- daemon/src/zram.rs: what the daemon says of the system's swap at its start.
use bssl_ram.Prelude.{Option, none, some, [], length, ltb, if◌then◌else◌}
use bssl_ram.Prelude.Text.{Text, text, is_infix, lines}

-- What is logged: zram is ready, there is other swap, or none.
pub data SwapState : Type 0 where
  zram_ready not_zram no_swap : SwapState

-- `ensure_zram_swap`, for the text of /proc/swaps if it can be read. It always returns `Ok`.
unfoldable pub ensure_zram_swap : Option Text → SwapState
ensure_zram_swap read =
    let swaps : Text = elim read [ none ↦ [] | some s ↦ s ] in
    if is_infix (text "zram") swaps
    then zram_ready
    else if ltb 1 (length (lines swaps))
    then not_zram
    else no_swap
