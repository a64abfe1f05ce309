-- ===== src/Examples/Cpu.antt =====
-- daemon/examples/cpu_test.rs: the CPU ticks of the targets over a number of cycles.
use bssl_ram.Prelude.{
  ℕ, zero, suc, ◌+◌, ◌-◌, ◌≤◌, ◌≡◌, Option, none, some, List, [], ◌∷◌, length, arith, nat_eq, ◌>>=◌,
}
use bssl_ram.Prelude.Map
use bssl_ram.Prelude.Map.{Map, lookup-insert}
use bssl_ram.Prelude.Text.{Text, from_str_radix}
use bssl_ram.Prelude.Words.{u32_max, add_u64, mul_u64, saturating_sub}
use bssl_ram.Compressor.{parse_cpu_ticks, rss_mib}
use bssl_ram.Scanner.{TargetProcess}

-- /proc as a cycle sees it.
pub record Proc : Type 0 where
  pub stat : ℕ → Option Text
  pub smaps_rollup : ℕ → Option Text

abbrev pub Ticks : Type 0
Ticks = Map ℕ (ℕ × ℕ)

-- `read_cpu_ticks`
abbrev pub read_cpu_ticks : Proc → ℕ → Option (ℕ × ℕ)
read_cpu_ticks proc pid = do text ← proc.stat pid; parse_cpu_ticks text

-- The readings before the first cycle.
unfoldable pub first_ticks : Proc → Ticks → List TargetProcess → Ticks
first_ticks proc prev [] = prev
first_ticks proc prev (t ∷ ts) =
    first_ticks proc
      (elim (read_cpu_ticks proc t.pid) [ none ↦ prev | some c ↦ Map.insert t.pid c prev ]) ts

-- A line that is printed: the process has exited, or its user and system ticks, the ticks since the
-- last reading, the same in milliseconds, and its memory.
pub data Row : Type 0 where
  exited : ℕ → Row
  sampled : (pid utime stime delta ms rss : ℕ) → Row

abbrev pub total : ℕ × ℕ → ℕ
total c = add_u64 c.0 c.1

abbrev pub delta_since : Option (ℕ × ℕ) → ℕ × ℕ → ℕ
delta_since none cur = saturating_sub (total cur) (total cur)
delta_since (some p) cur = saturating_sub (total cur) (total p)

unfoldable pub sample : Proc → Ticks → ℕ → Ticks × Row
sample proc prev pid = elim (read_cpu_ticks proc pid) [
  | none ↦ (prev, exited pid)
  | some cur ↦
      let delta = delta_since (Map.lookup pid prev) cur in
      (
        Map.insert pid cur prev,
        sampled pid cur.0 cur.1 delta (mul_u64 delta 10) (rss_mib (proc.smaps_rollup pid)),
      )
]

unfoldable pub cycle : Proc → Ticks → List TargetProcess → Ticks × List Row
cycle proc prev [] = (prev, [])
cycle proc prev (t ∷ ts) =
    let (next, row) = sample proc prev t.pid in
    let (last, rows) = cycle proc next ts in (last, row ∷ rows)

-- The number of cycles from the environment.
abbrev pub cycles_of : Option Text → ℕ
cycles_of env = elim (do s ← env; from_str_radix 10 u32_max s) [ none ↦ 5 | some n ↦ n ]

unfoldable pub cycles : ℕ → ℕ → (ℕ → Proc) → Ticks → List TargetProcess → List (List Row)
cycles zero n procs prev tabs = []
cycles (suc left) n procs prev tabs =
    let (next, rows) = cycle (procs n) prev tabs in rows ∷ cycles left (suc n) procs next tabs

unfoldable pub main : Option Text → (ℕ → Proc) → List TargetProcess → List (List Row)
main env procs tabs = cycles (cycles_of env) 1 procs (first_ticks (procs 0) [] tabs) tabs

-- The ticks that are printed for one process.
abbrev pub delta_of : Row → ℕ
delta_of (exited pid) = 0
delta_of (sampled pid utime stime delta ms rss) = delta

abbrev pub printed : List (List Row) → ℕ
printed [] = 0
printed ([] ∷ rest) = printed rest
printed ((row ∷ rows) ∷ rest) = delta_of row + printed rest

-- In the cycles from `n` on, the process is read at these positions, which never go back.
abbrev pub IsRead : ℕ → (ℕ → Proc) → ℕ → ℕ × ℕ → List (ℕ × ℕ) → Type 0
IsRead pid procs n last [] = Unit
IsRead pid procs n last (c ∷ cs) =
    (read_cpu_ticks (procs n) pid ≡ some c) × (total last ≤ total c) × IsRead pid procs (suc n) c cs

abbrev pub last_of : ℕ × ℕ → List (ℕ × ℕ) → ℕ × ℕ
last_of c [] = c
last_of c (d ∷ ds) = last_of d ds

last_of-le :
    (pid : ℕ) (procs : ℕ → Proc) (n : ℕ) (c : ℕ × ℕ) (cs : List (ℕ × ℕ))
    → IsRead pid procs n c cs
    → total c ≤ total (last_of c cs)
last_of-le pid procs n c [] h = omega arith
last_of-le pid procs n c (d ∷ ds) h = omega (arith, h.1, last_of-le pid procs (suc n) d ds h.2)

sample-read :
    (proc : Proc) (prev : Ticks) (pid : ℕ) (p c : ℕ × ℕ)
    → Map.lookup pid prev ≡ some p
    → read_cpu_ticks proc pid ≡ some c
    → (Map.lookup pid (sample proc prev pid).0 ≡ some c)
      × (delta_of (sample proc prev pid).1 ≡ saturating_sub (total c) (total p))
unfolding sample
sample-read proc prev pid p c e r = ground (arith, e, r, lookup-insert pid pid c prev)

-- For one process that is read in each cycle and whose ticks never go back, the ticks that are
-- printed add up to those between the first reading and the last.
pub printed-cycles :
    (pid : ℕ) (profile : Text) (procs : ℕ → Proc) (n : ℕ) (prev : Ticks) (p : ℕ × ℕ)
    (cs : List (ℕ × ℕ))
    → Map.lookup pid prev ≡ some p
    → IsRead pid procs n p cs
    → printed (cycles (length cs) n procs prev (record { pid = pid; profile = profile } ∷ []))
      ≡ total (last_of p cs) - total p
unfolding cycles cycle
printed-cycles pid profile procs n prev p [] e h = omega arith
printed-cycles pid profile procs n prev p (c ∷ cs) e h =
    let (kept, delta) = sample-read (procs n) prev pid p c e h.0 in
    omega (
      arith,
      delta,
      h.1,
      last_of-le pid procs (suc n) c cs h.2,
      printed-cycles pid profile procs (suc n) (sample (procs n) prev pid).0 c cs kept h.2,
    )
