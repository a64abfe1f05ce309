-- ===== src/Cycle/Bpf/Reuse.antt =====
-- The start times in the maps of daemon/src/bpf/cpu_tracker.bpf.c over the cycles of
-- daemon/src/main.rs.
use bssl_ram.Prelude.{
  ℕ, ◌≡◌, ap, ◌∙◌, true, false, some, List, [], ◌∷◌, ◌==◌, ==_iff, arith, Bool-cases, Option-cases,
  inl, inr, nat_eq,
}
use bssl_ram.Prelude.Map
use bssl_ram.Prelude.Map.{Map, lookup-insert, lookup-remove}
use bssl_ram.Prelude.Words.{add_u64, sub_u64}
use bssl_ram.Cycle.Bpf.{BpfCpuTracker, forget}
use bssl_ram.Cycle.Bpf.Accounting.{account_prev-maps}
use bssl_ram.Cycle.Bpf.Program.{
  Task, Switch, has_key, IsUpdate, account_prev, mark_next, handle_sched_switch, switches,
}

-- The PID has an amount of CPU time and this start time.
abbrev pub IsComplete : ℕ → ℕ → BpfCpuTracker → Type 0
IsComplete pid birth b =
    (has_key pid b.task_runtime ≡ true) × (Map.lookup pid b.task_birth ≡ some birth)

module _ (pid : ℕ) (map_update : ℕ → ℕ → Map ℕ ℕ → Map ℕ ℕ) (law : IsUpdate map_update) where
  map_update-keeps_key :
      (key v : ℕ) (m : Map ℕ ℕ) → has_key pid m ≡ true → has_key pid (map_update key v m) ≡ true
  map_update-keeps_key key v m h = ground (arith, h, law key v pid m h)

  account_prev-keeps_key :
      (b : BpfCpuTracker) (now prev_tgid : ℕ)
      → has_key pid b.task_runtime ≡ true
      → has_key pid (account_prev map_update b now prev_tgid).task_runtime ≡ true
  unfolding account_prev
  account_prev-keeps_key b now prev_tgid h =
      elim (Option-cases (Map.lookup prev_tgid b.task_start)) [
        | inl e ↦ ground (arith, e, h)
        | inr (start, e) ↦ elim (Option-cases (Map.lookup prev_tgid b.task_runtime)) [
          | inl n ↦
              ground (
                arith,
                e,
                n,
                h,
                map_update-keeps_key prev_tgid (sub_u64 now start) b.task_runtime h,
              )
          | inr (runtime, n) ↦ ground (
            arith,
            e,
            n,
            h,
            lookup-insert prev_tgid pid (add_u64 runtime (sub_u64 now start)) b.task_runtime,
          )
        ]
      ]

  pub mark_next-birth :
      (b : BpfCpuTracker) (now birth : ℕ) (next : Task)
      → Map.lookup pid b.task_birth ≡ some birth
      → (Map.lookup pid (mark_next map_update b now next).task_birth ≡ some birth)
        × ((mark_next map_update b now next).task_runtime ≡ b.task_runtime)
  unfolding mark_next
  mark_next-birth b now birth next h = elim (Bool-cases (next.tgid == pid)) [
    | inl same ↦
        ground (arith, h, same, ap (λ k. has_key k b.task_birth) ((==_iff next.tgid pid).0 same))
    | inr other ↦ ground (arith, h, other, law next.tgid next.start_time pid b.task_birth)
  ]

  pub switches-IsComplete :
      (birth : ℕ) (ss : List Switch) (b : BpfCpuTracker)
      → IsComplete pid birth b
      → IsComplete pid birth (switches map_update ss b)
  unfolding switches handle_sched_switch
  switches-IsComplete birth [] b h = h
  switches-IsComplete birth (s ∷ rest) b h =
      let prev = account_prev map_update b s.now s.prev.tgid in
      let kept = mark_next-birth prev s.now birth s.next (
        ap (λ m. Map.lookup pid m) (account_prev-maps pid map_update law b s.now s.prev.tgid).1
        ∙ h.1) in
      switches-IsComplete birth rest (handle_sched_switch map_update b s)
        (ap (has_key pid) kept.1 ∙ account_prev-keeps_key b s.now s.prev.tgid h.0, kept.0)

  pub forget-IsComplete :
      (birth other : ℕ) (b : BpfCpuTracker)
      → (other == pid) ≡ false
      → IsComplete pid birth b
      → IsComplete pid birth (forget b other)
  unfolding forget
  forget-IsComplete birth other b differs h = ground (
    arith,
    differs,
    h,
    lookup-remove other pid b.task_runtime,
    lookup-remove other pid b.task_birth,
  )
