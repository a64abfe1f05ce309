-- ===== src/Examples/Rollup.antt =====
-- daemon/examples/compress_real.rs: a process is compressed once, and what the kernel says of its
-- memory before and after is compared. daemon/examples/compress_test.rs picks its process in the
-- same way.
use bssl_ram.Prelude.{
  ℕ, ◌-◌, ◌*◌, ◌/◌, ◌≤◌, ◌<◌, ◌≡◌, ◌↔◌, false, ◌&&◌, Option, none, some, List, [], ◌∷◌, arith, ltb,
  leb, ◌==◌, if◌then◌else◌, ◌>>=◌, In, All, Bool-cases, inl, inr, refl, sym, ap, Option-cases,
}
use mathlib.Core.Path.{subst}
use native.Mathlib.Nat.{div-le_of_le-mul}
use bssl_ram.Prelude.Text.{Text, text, beq_text, split_whitespace, lines, from_str_radix}
use bssl_ram.Prelude.Words.{u32_mod, u64_mod, mul_u64, saturating_sub}
use bssl_ram.Compressor.{Kernel, compress_pid, parse_u64, or_zero, rss_mib}
use bssl_ram.Scanner.{TargetProcess}

pub record RollupStats : Type 0 where
  pub rss_kb : ℕ
  pub pss_kb : ℕ
  pub swap_kb : ℕ
  pub anonymous_kb : ℕ

abbrev pub no_stats : RollupStats
no_stats = record { rss_kb = 0; pss_kb = 0; swap_kb = 0; anonymous_kb = 0 }

abbrev pub put_value : RollupStats → Text → ℕ → RollupStats
put_value s key val =
    if beq_text key (text "Rss:")
    then record s { rss_kb = val }
    else if beq_text key (text "Pss:")
    then record s { pss_kb = val }
    else if beq_text key (text "Swap:")
    then record s { swap_kb = val }
    else if beq_text key (text "Anonymous:")
    then record s { anonymous_kb = val }
    else s

-- A line with two words at least.
abbrev pub put_parts : RollupStats → List Text → RollupStats
put_parts s (key ∷ value ∷ more) = put_value s key (or_zero (parse_u64 value))
put_parts s _ = s

unfoldable pub put_lines : RollupStats → List Text → RollupStats
put_lines s [] = s
put_lines s (line ∷ rest) = put_lines (put_parts s (split_whitespace line)) rest

-- `smaps_rollup`, of what reading the file gave.
unfoldable pub smaps_rollup : Option Text → RollupStats
smaps_rollup none = no_stats
smaps_rollup (some raw) = put_lines no_stats (lines raw)

-- `max_by_key`: the last of the largest.
unfoldable pub max_by_key : (TargetProcess → ℕ) → List TargetProcess → Option TargetProcess
max_by_key key [] = none
max_by_key key (t ∷ ts) = elim (max_by_key key ts) [
  | none ↦ some t
  | some best ↦ if leb (key t) (key best) then some best else some t
]

-- The process that is asked for, or else the largest target.
unfoldable pub pick_target : Option Text → List TargetProcess → (ℕ → Option Text) → Option ℕ
pick_target arg tabs rollup = elim (do s ← arg; from_str_radix 10 (u32_mod - 1) s) [
  | some pid ↦ some pid
  | none ↦ do t ← max_by_key (λ t. rss_mib (rollup t.pid)) tabs; some t.pid
]

pub record Delta : Type 0 where
  pub rss_drop : ℕ
  pub swap_gain : ℕ
  pub pss_drop : ℕ
  -- The percentage that is printed, or the warning.
  pub paged_out : Option ℕ

abbrev pub ratio_of : ℕ → ℕ → ℕ
ratio_of rss_drop rss_kb = if ltb 0 rss_kb then mul_u64 rss_drop 100 / rss_kb else 0

unfoldable pub compare_stats : RollupStats → RollupStats → Delta
compare_stats before after =
    let rss_drop = saturating_sub before.rss_kb after.rss_kb in
    let swap_gain = saturating_sub after.swap_kb before.swap_kb in
    record {
      rss_drop = rss_drop;
      swap_gain = swap_gain;
      pss_drop = saturating_sub before.pss_kb after.pss_kb;
      paged_out =
          if (rss_drop == 0) && (swap_gain == 0)
          then none
          else some (ratio_of rss_drop before.rss_kb);
    }

-- `main`: no target, an error of `compress_pid`, or the comparison.
pub data Ending : Type 0 where
  no_target : Ending
  compress_error : Ending
  compared : ℕ → Delta → Ending

unfoldable pub main :
    Option Text → List TargetProcess → Kernel → (sizes before after : ℕ → Option Text) → Ending
main arg tabs k sizes before after = elim (pick_target arg tabs sizes) [
  | none ↦ no_target
  | some pid ↦ elim (compress_pid k pid false).0 [
    | none ↦ compress_error
    | some outcome ↦
        compared pid (compare_stats (smaps_rollup (before pid)) (smaps_rollup (after pid)))
  ]
]

ratio_of-le :
    (rss_drop rss_kb : ℕ)
    → rss_drop ≤ rss_kb
    → 100 * rss_kb < u64_mod
    → ratio_of rss_drop rss_kb ≤ 100
ratio_of-le rss_drop rss_kb h small =
    let product : mul_u64 rss_drop 100 ≤ rss_kb * 100 = omega (arith, h, small) in
    let bound = div-le_of_le-mul rss_kb product in ground (arith, bound)

-- The percentage is one: if a hundred times the memory before is below 2 ^ 64, then what is printed
-- is at most 100; and the warning is printed exactly if no memory was given back and none swapped.
pub compare_stats-bounded :
    (before after : RollupStats)
    → 100 * before.rss_kb < u64_mod
    → ((p : ℕ) → (compare_stats before after).paged_out ≡ some p → p ≤ 100)
      × (((compare_stats before after).paged_out ≡ none)
          ↔ ((before.rss_kb ≤ after.rss_kb) × (after.swap_kb ≤ before.swap_kb)))
unfolding compare_stats
compare_stats-bounded before after small =
    let bound = ratio_of-le (before.rss_kb - after.rss_kb) before.rss_kb (omega arith) small in
    (λ p e. ground (arith, e, bound), ground arith)

max_by_key-none :
    (key : TargetProcess → ℕ) (ts : List TargetProcess) → max_by_key key ts ≡ none → ts ≡ []
unfolding max_by_key
max_by_key-none key [] e = refl
max_by_key-none key (x ∷ ts) e = elim (Option-cases (max_by_key key ts)) [
  | inl none_left ↦ absurd (ground (arith, e, none_left))
  | inr (best, found) ↦ absurd (ground (arith, e, found))
]

All-le :
    (key : TargetProcess → ℕ) (ts : List TargetProcess) (m n : ℕ)
    → m ≤ n
    → All (λ u. key u ≤ m) ts
    → All (λ u. key u ≤ n) ts
All-le key [] m n h a = tt
All-le key (x ∷ ts) m n h a = (omega (arith, h, a.0), All-le key ts m n h a.1)

-- The target that is picked for its size is one of the targets, and none is larger.
pub max_by_key-largest :
    (key : TargetProcess → ℕ) (ts : List TargetProcess) (t : TargetProcess)
    → max_by_key key ts ≡ some t
    → In t ts × All (λ u. key u ≤ key t) ts
unfolding max_by_key
max_by_key-largest key [] t e = absurd (cc e)
max_by_key-largest key (x ∷ ts) t e = elim (Option-cases (max_by_key key ts)) [
  | inl none_left ↦
      let is_x : t ≡ x = ground (arith, e, none_left) in
      (
        inl is_x,
        (
          ground (arith, ap key is_x),
          subst (All (λ u. key u ≤ key t)) (sym (max_by_key-none key ts none_left)) tt,
        ),
      )
  | inr (best, found) ↦
      let (there, largest) = max_by_key-largest key ts best found in
      elim (Bool-cases (leb (key x) (key best))) [
        | inl smaller ↦
            let is_best : best ≡ t = ground (arith, e, found, smaller) in
            subst (λ y. In y (x ∷ ts) × All (λ u. key u ≤ key y) (x ∷ ts)) is_best
              (inr there, (ground (arith, smaller), largest))
        | inr larger ↦
            let is_x : x ≡ t = ground (arith, e, found, larger) in
            subst (λ y. In y (x ∷ ts) × All (λ u. key u ≤ key y) (x ∷ ts)) is_x
              (
                inl refl,
                (omega arith, All-le key ts (key best) (key x) (ground (arith, larger)) largest),
              )
      ]
]
