-- ===== src/Tracker/Runs.antt =====
-- Several cycles of `CpuTracker::update` (daemon/src/state.rs) over one task: the idle counter
-- counts consecutive idle cycles, and the anti-recompression flag outlives everything below the
-- wakeup bar.
use bssl_ram.Prelude.{
  ℕ, zero, suc, ◌-◌, ◌≤◌, ◌<◌, ◌≡◌, refl, ◌↔◌, true, false, Option, none, some, List, [], ◌∷◌,
  arith, ltb, leb, length, All, if◌then◌else◌, nat_eq,
}
use bssl_ram.Prelude.Map
use bssl_ram.Prelude.Words.{u32_mod, u64_max}
use bssl_ram.Tracker.{ProcSnapshot, CpuTracker, new, update, idle_cycles, is_compressed}
use bssl_ram.Tracker.View.{view, observe, guarded, delta_of, view-update, update_verdict}

-- `update` reports idle exactly when the same task was seen before and used at most the idle
-- threshold of CPU since, provided the threshold is below `u64::MAX`.
pub update-idle_iff :
    (t : CpuTracker) (snap : ProcSnapshot) (idle_ns wakeup_ns : ℕ)
    → idle_ns < u64_max
    → ((update t snap idle_ns wakeup_ns).1 ≡ true) ↔ (
        (last : ℕ) × ((view t snap.pid).seen ≡ some (snap.starttime, last))
        × (snap.cpu_ns - last ≤ idle_ns))
update-idle_iff t snap idle_ns wakeup_ns h = (
  λ e. from (view t snap.pid).seen (rw update_verdict at e),
  λ x. rw update_verdict (ground arith),
)
  where
    from :
        (o : Option (ℕ × ℕ))
        → leb
            (delta_of (guarded (record (view t snap.pid) { seen = o }) snap.starttime) snap.cpu_ns)
            idle_ns
          ≡ true
        → (last : ℕ) × (o ≡ some (snap.starttime, last)) × (snap.cpu_ns - last ≤ idle_ns)
    from none e = absurd (ground arith)
    from (some (s, last)) e = (last, ground arith, ground arith)

-- the newest `n` cycles each used at most the idle threshold
abbrev pub IdleRun : ℕ → ℕ → List ℕ → Type 0
IdleRun idle_ns zero _ = Unit
IdleRun idle_ns (suc n) (c ∷ c' ∷ r) = (c - c' ≤ idle_ns) × IdleRun idle_ns n (c' ∷ r)
IdleRun idle_ns (suc n) _ = ⊥

unfoldable pub streak : ℕ → List ℕ → ℕ
streak idle_ns (c ∷ c' ∷ r) = if leb (c - c') idle_ns then suc (streak idle_ns (c' ∷ r)) else 0
streak idle_ns _ = 0

pub streak_iff : (idle_ns n : ℕ) (r : List ℕ) → (n ≤ streak idle_ns r) ↔ IdleRun idle_ns n r
unfolding streak
streak_iff i zero r = (λ _. tt, λ _. omega arith)
streak_iff i (suc n) [] = ground arith
streak_iff i (suc n) (c ∷ []) = ground arith
streak_iff i (suc n) (c ∷ c' ∷ r) = ground (arith, streak_iff i n (c' ∷ r))

pub streak-le : (idle_ns : ℕ) (r : List ℕ) → streak idle_ns r ≤ length r
unfolding streak
streak-le i [] = omega arith
streak-le i (c ∷ []) = omega arith
streak-le i (c ∷ c' ∷ r) = ground (arith, streak-le i (c' ∷ r))

abbrev pub InRange : List ℕ → Type 0
InRange = All (λ c. c < u64_max)

module _ (pid start idle_ns wakeup_ns : ℕ) where
  abbrev reading : ℕ → ProcSnapshot
  reading cpu = record { pid = pid; starttime = start; cpu_ns = cpu }

  -- CPU readings of one task, one for each cycle, the newest first.
  unfoldable pub history : CpuTracker → List ℕ → CpuTracker
  history t [] = t
  history t (cpu ∷ older) = (update (history t older) (reading cpu) idle_ns wakeup_ns).0

  abbrev latest : List ℕ → Option (ℕ × ℕ)
  latest [] = none
  latest (c ∷ r) = some (start, c)

  module _ (range : idle_ns < u64_max) where
    history-view :
        (rs : List ℕ)
        → InRange rs
        → length rs < u32_mod
        → ((view (history new rs) pid).cycles ≡ streak idle_ns rs)
          × ((view (history new rs) pid).seen ≡ latest rs)
    unfolding history streak observe
    history-view [] h l = unfold view idle_cycles is_compressed Map.lookup in (refl, refl)
    history-view (c ∷ []) h l =
        ground (arith, view-update new (reading c) idle_ns wakeup_ns pid, history-view [])
    history-view (c ∷ c' ∷ r) h l = ground (
      arith,
      view-update (history new (c' ∷ r)) (reading c) idle_ns wakeup_ns pid,
      history-view (c' ∷ r),
      streak-le idle_ns (c' ∷ r),
    )

    -- From a new tracker, after fewer than 2 ^ 32 readings of one task, each below `u64::MAX`, and
    -- with the idle threshold below it too, `idle_cycles` is at least `n` exactly when the newest
    -- `n` cycles were idle.
    pub idle_cycles_iff :
        (n : ℕ) (rs : List ℕ)
        → InRange rs
        → length rs < u32_mod
        → (n ≤ idle_cycles (history new rs) pid) ↔ IdleRun idle_ns n rs
    unfolding view
    idle_cycles_iff n rs h l = rw ((history-view rs h l).0) (streak_iff idle_ns n rs)

-- Each reading, the newest first, is at most the wakeup bar above the one before it; `last` is
-- the position before the oldest.
abbrev pub Calm : ℕ → ℕ → List ℕ → Type 0
Calm wakeup_ns last [] = Unit
Calm wakeup_ns last (c ∷ []) = c - last ≤ wakeup_ns
Calm wakeup_ns last (c ∷ c' ∷ r) = (c - c' ≤ wakeup_ns) × Calm wakeup_ns last (c' ∷ r)

abbrev newest : ℕ → List ℕ → ℕ
newest last [] = last
newest last (c ∷ r) = c

module _ (pid start idle_ns wakeup_ns : ℕ) (range : idle_ns < u64_max) where
  abbrev after : CpuTracker → List ℕ → CpuTracker
  after = history pid start idle_ns wakeup_ns

  flag_step :
      (t : CpuTracker) (last c : ℕ)
      → (view t pid).seen ≡ some (start, last)
      → c < u64_max
      → ((view (after t (c ∷ [])) pid).seen ≡ some (start, c))
        × ((view (after t (c ∷ [])) pid).flag
            ≡ (if ltb wakeup_ns (c - last) then false else (view t pid).flag))
  unfolding history observe
  flag_step t last c seen h = ground (
    arith,
    view-update t (record { pid = pid; starttime = start; cpu_ns = c }) idle_ns wakeup_ns pid,
  )

  module _ (t : CpuTracker) (last : ℕ) where
    history_flag :
        (rs : List ℕ)
        → (view t pid).seen ≡ some (start, last)
        → (view t pid).flag ≡ true
        → InRange rs
        → ((view (after t rs) pid).seen ≡ some (start, newest last rs))
          × (((view (after t rs) pid).flag ≡ true) ↔ Calm wakeup_ns last rs)
    unfolding history
    history_flag [] seen marked h = (seen, (λ _. tt, λ _. marked))
    history_flag (c ∷ []) seen marked h = ground (arith, flag_step t last c seen h.0)
    history_flag (c ∷ c' ∷ r) seen marked h =
        let ih = history_flag (c' ∷ r) seen marked h.1 in
        ground (arith, flag_step (after t (c' ∷ r)) c' c ih.0 h.0)

    -- While one task is observed that was seen before, with readings and an idle threshold below
    -- `u64::MAX`, a PID that was marked compressed stays marked exactly as long as no cycle uses
    -- more CPU than the wakeup bar; activity between the two bars keeps the mark.
    pub is_compressed_iff :
        (rs : List ℕ)
        → (view t pid).seen ≡ some (start, last)
        → is_compressed t pid ≡ true
        → InRange rs
        → (is_compressed (after t rs) pid ≡ true) ↔ Calm wakeup_ns last rs
    unfolding view
    is_compressed_iff rs seen marked h = (history_flag rs seen marked h).1
