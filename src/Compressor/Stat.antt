-- ===== src/Compressor/Stat.antt =====
-- `parse_proc_stats` of daemon/src/compressor.rs on the layout of /proc/PID/stat.
use bssl_ram.Prelude.{
  ℕ, ◌≡◌, ◌≢◌, refl, Option, some, List, [], ◌∷◌, ◌++◌, arith, All, get_elem?, ◌>>=◌,
}
use bssl_ram.Prelude.Text.{Text}
use bssl_ram.Prelude.Text.Split.{
  IsToken, IsBlank, Lacks, join_words, split_whitespace-join_words, after_last-append,
}
use bssl_ram.Compressor.{parse_proc_stats, parse_u64}

-- Fields 22, 14 and 15 of proc(5), counted from field 3, the first behind the name.
abbrev pub stats_of : List Text → Option (ℕ × ℕ × ℕ)
stats_of fields = do
  utime ← (do v ← get_elem? fields 11; parse_u64 v)
  stime ← (do v ← get_elem? fields 12; parse_u64 v)
  starttime ← (do v ← get_elem? fields 19; parse_u64 v)
  some (starttime, utime, stime)

Lacks-append : (c : ℕ) (s t : Text) → Lacks c s → Lacks c t → Lacks c (s ++ t)
Lacks-append c [] t h k = k
Lacks-append c (d ∷ s) t h k = (h.0, Lacks-append c s t h.1 k)

Lacks-join_words :
    (c sep : ℕ) (ws : List Text) → sep ≢ c → All (Lacks c) ws → Lacks c (join_words sep ws)
Lacks-join_words c sep [] ne h = tt
Lacks-join_words c sep (w ∷ []) ne h = h.0
Lacks-join_words c sep (w ∷ v ∷ ws) ne h =
    Lacks-append c w (sep ∷ join_words sep (v ∷ ws)) h.0
      (ne, Lacks-join_words c sep (v ∷ ws) ne h.1)

Lacks-IsBlank : (blanks : Text) → IsBlank blanks → Lacks b')' blanks
Lacks-IsBlank [] h = tt
Lacks-IsBlank (c ∷ blanks) h = (λ e. ground (arith, e, h.0), Lacks-IsBlank blanks h.1)

-- Whatever the process calls itself, spaces and parentheses included, the fields behind the name
-- decide. They stand with one space between any two, and with a newline, or any other whitespace or
-- nothing, behind the last. With no `)` among them, utime, stime and starttime are their numbers
-- 12, 13 and 20, and a stat with too few fields, or with one of these that is no u64, has no
-- statistics.
pub parse_proc_stats-join_words :
    (name : Text) (fields : List Text) (ending : Text)
    → All IsToken fields
    → All (Lacks b')') fields
    → IsBlank ending
    → parse_proc_stats (name ++ b')' ∷ 32 ∷ (join_words 32 fields ++ ending)) ≡ stats_of fields
unfolding parse_proc_stats
parse_proc_stats-join_words name fields ending h l e =
    let lacks =
      Lacks-append b')' (join_words 32 fields) ending
        (Lacks-join_words b')' 32 fields (omega arith) l) (Lacks-IsBlank ending e) in
    rw (after_last-append b')' name (32 ∷ (join_words 32 fields ++ ending)) (omega arith, lacks))
      (rw (split_whitespace-join_words 32 fields ending refl h e) (ground arith))
