-- ===== src/Examples/Totals.antt =====
-- The totals of daemon/examples/compress_test.rs.
use bssl_ram.Prelude.{ℕ, ◌+◌, ◌%◌, ◌≡◌, refl, List, [], ◌∷◌, length, arith}
use bssl_ram.Prelude.Map
use bssl_ram.Prelude.Map.{Map}
use bssl_ram.Prelude.Text.{Text, text_eq}
use bssl_ram.Prelude.Words.{u64_mod, add_u64}
use bssl_ram.Examples.Inspect.{Region, Totals, no_totals, or_default, add_region, add_regions}

-- The sums over the permission sets.
abbrev pub count_of : Map Text (ℕ × ℕ) → ℕ
count_of [] = 0
count_of ((k, e) ∷ m) = e.0 + count_of m

abbrev pub kb_of : Map Text (ℕ × ℕ) → ℕ
kb_of [] = 0
kb_of ((k, e) ∷ m) = e.1 + kb_of m

-- An insertion moves the sums by what it changes of the entry.
insert-sums :
    (key : Text) (v : ℕ × ℕ) (m : Map Text (ℕ × ℕ))
    → (count_of (Map.insert key v m) + (or_default (Map.lookup key m)).0 ≡ count_of m + v.0)
      × (kb_of (Map.insert key v m) + (or_default (Map.lookup key m)).1 ≡ kb_of m + v.1)
unfolding Map.insert Map.lookup
insert-sums key v [] = (omega arith, omega arith)
insert-sums key v ((j, e) ∷ m) = ground (arith, insert-sums key v m)

abbrev sum_kb : List Region → ℕ
sum_kb [] = 0
sum_kb (r ∷ rs) = r.anon_kb + sum_kb rs

add_region-sums :
    (t : Totals) (r : Region)
    → (count_of (add_region t r).by_perms % u64_mod ≡ (count_of t.by_perms + 1) % u64_mod)
      × (kb_of (add_region t r).by_perms % u64_mod ≡ (kb_of t.by_perms + r.anon_kb) % u64_mod)
      × ((add_region t r).total_kb ≡ (t.total_kb + r.anon_kb) % u64_mod)
unfolding add_region
add_region-sums t r =
    let entry = or_default (Map.lookup r.perms t.by_perms) in
    let (counts, kbs) =
      insert-sums r.perms (add_u64 entry.0 1, add_u64 entry.1 r.anon_kb) t.by_perms in
    (omega (arith, counts), omega (arith, kbs), refl)

add_regions-sums :
    (t : Totals) (rs : List Region)
    → (count_of (add_regions t rs).by_perms % u64_mod ≡ (count_of t.by_perms + length rs) % u64_mod)
      × (kb_of (add_regions t rs).by_perms % u64_mod ≡ (kb_of t.by_perms + sum_kb rs) % u64_mod)
      × ((add_regions t rs).total_kb % u64_mod ≡ (t.total_kb + sum_kb rs) % u64_mod)
unfolding add_regions
add_regions-sums t [] = (omega arith, omega arith, omega arith)
add_regions-sums t (r ∷ rs) =
    let (count, kb, total) = add_region-sums t r in
    let (counts, kbs, totals) = add_regions-sums (add_region t r) rs in
    (omega (arith, count, counts), omega (arith, kb, kbs), omega (arith, total, totals))

-- The table by permission set adds up, as u64: its counts to the number of the regions, and its
-- kilobytes to the total that is printed above it.
pub add_regions-adds_up :
    (rs : List Region)
    → (count_of (add_regions no_totals rs).by_perms % u64_mod ≡ length rs % u64_mod)
      × (kb_of (add_regions no_totals rs).by_perms % u64_mod
          ≡ (add_regions no_totals rs).total_kb % u64_mod)
add_regions-adds_up rs =
    let (counts, kbs, totals) = add_regions-sums no_totals rs in
    (omega (arith, counts), omega (arith, kbs, totals))
