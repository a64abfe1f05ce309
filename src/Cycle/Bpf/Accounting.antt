-- ===== src/Cycle/Bpf/Accounting.antt =====
-- What the maps of daemon/src/bpf/cpu_tracker.bpf.c say of a process.
use bssl_ram.Prelude.{
  ℕ, ◌+◌, ◌-◌, ◌≡◌, ◌≢◌, ◌≤◌, ◌<◌, ◌∙◌, true, false, not, ◌&&◌, Option, none, some, List, [], ◌∷◌,
  ◌==◌, arith, Bool-cases, Option-cases, inl, inr, if◌then◌else◌, nat_eq, ap, ==_iff,
}
use bssl_ram.Prelude.Map
use bssl_ram.Prelude.Map.{Map, lookup-insert}
use bssl_ram.Prelude.Words.{u64_mod, add_u64, sub_u64}
use bssl_ram.Cycle.Bpf.{BpfCpuTracker}
use bssl_ram.Cycle.Bpf.Program.{
  Task, Switch, has_key, IsUpdate, account_prev, mark_next, handle_sched_switch, switches,
}

added :
    (runtime now start : ℕ)
    → start ≤ now
    → now < u64_mod
    → runtime + (now - start) < u64_mod
    → add_u64 runtime (sub_u64 now start) ≡ runtime + (now - start)
added runtime now start h k l = omega arith

module _ (pid : ℕ) where
  -- The time that the process is on a processor over the switches, given since when it is.
  abbrev pub since_after : Option ℕ → Switch → Option ℕ
  since_after since s =
      if s.next.tgid == pid then some s.now else if s.prev.tgid == pid then none else since

  abbrev pub used_at : Option ℕ → Switch → ℕ
  used_at none s = 0
  used_at (some t) s = if s.prev.tgid == pid then s.now - t else 0

  abbrev pub on_cpu : Option ℕ → List Switch → ℕ
  on_cpu since [] = 0
  on_cpu since (s ∷ rest) = used_at since s + on_cpu (since_after since s) rest

  -- The process has one thread at a time on a processor: it leaves when it is on one, and takes one
  -- when it is on none, or has just left; and the clock does not go back.
  abbrev pub TakesTurns : Option ℕ → Switch → Type 0
  TakesTurns none s = (s.prev.tgid == pid) ≡ false
  TakesTurns (some t) s = (t ≤ s.now) × (((s.next.tgid == pid) && not (s.prev.tgid == pid)) ≡ false)

  abbrev pub IsSequential : Option ℕ → List Switch → Type 0
  IsSequential since [] = Unit
  IsSequential since (s ∷ rest) =
      TakesTurns since s × (s.now < u64_mod) × IsSequential (since_after since s) rest

  -- The map of the starts knows since when the process is on a processor.
  abbrev pub Started : Option ℕ → BpfCpuTracker → Type 0
  Started none b = has_key pid b.task_start ≡ true
  Started (some t) b = Map.lookup pid b.task_start ≡ some t

  module _ (map_update : ℕ → ℕ → Map ℕ ℕ → Map ℕ ℕ) (law : IsUpdate map_update) where
    pub account_prev-maps :
        (b : BpfCpuTracker) (now prev_tgid : ℕ)
        → ((account_prev map_update b now prev_tgid).task_start ≡ b.task_start)
          × ((account_prev map_update b now prev_tgid).task_birth ≡ b.task_birth)
    unfolding account_prev
    account_prev-maps b now prev_tgid = elim (Option-cases (Map.lookup prev_tgid b.task_start)) [
      | inl e ↦ ground (arith, e)
      | inr (start, e) ↦ elim (Option-cases (Map.lookup prev_tgid b.task_runtime)) [
        | inl n ↦ ground (arith, e, n)
        | inr (runtime, n) ↦ ground (arith, e, n)
      ]
    ]

    pub account_prev-other :
        (b : BpfCpuTracker) (now prev_tgid : ℕ)
        → (prev_tgid == pid) ≡ false
        → has_key pid b.task_runtime ≡ true
        → Map.lookup pid (account_prev map_update b now prev_tgid).task_runtime
          ≡ Map.lookup pid b.task_runtime
    unfolding account_prev
    account_prev-other b now prev_tgid other h =
        elim (Option-cases (Map.lookup prev_tgid b.task_start)) [
          | inl e ↦ ground (arith, e)
          | inr (start, e) ↦ elim (Option-cases (Map.lookup prev_tgid b.task_runtime)) [
            | inl n ↦
                ground (arith, e, n, other, law prev_tgid (sub_u64 now start) pid b.task_runtime h)
            | inr (runtime, n) ↦ ground (
              arith,
              e,
              n,
              other,
              lookup-insert prev_tgid pid (add_u64 runtime (sub_u64 now start)) b.task_runtime,
            )
          ]
        ]

    pub account_prev-same :
        (b : BpfCpuTracker) (now start runtime : ℕ)
        → pid ≢ 0
        → Map.lookup pid b.task_start ≡ some start
        → Map.lookup pid b.task_runtime ≡ some runtime
        → Map.lookup pid (account_prev map_update b now pid).task_runtime
          ≡ some (add_u64 runtime (sub_u64 now start))
    unfolding account_prev
    account_prev-same b now start runtime nonzero e n = ground (
      arith,
      nonzero,
      e,
      n,
      lookup-insert pid pid (add_u64 runtime (sub_u64 now start)) b.task_runtime,
    )

    pub mark_next-maps :
        (b : BpfCpuTracker) (now : ℕ) (next : Task)
        → pid ≢ 0
        → has_key pid b.task_start ≡ true
        → ((mark_next map_update b now next).task_runtime ≡ b.task_runtime)
          × (Map.lookup pid (mark_next map_update b now next).task_start
              ≡ (if next.tgid == pid then some now else Map.lookup pid b.task_start))
    unfolding mark_next
    mark_next-maps b now next nonzero h =
        ground (arith, nonzero, h, law next.tgid now pid b.task_start h)

    switch-accounts :
        (b : BpfCpuTracker) (s : Switch) (since : Option ℕ) (runtime : ℕ)
        → pid ≢ 0
        → TakesTurns since s
        → s.now < u64_mod
        → Started since b
        → Map.lookup pid b.task_runtime ≡ some runtime
        → runtime + used_at since s < u64_mod
        → Started (since_after since s) (handle_sched_switch map_update b s)
          × (Map.lookup pid (handle_sched_switch map_update b s).task_runtime
              ≡ some (runtime + used_at since s))
    unfolding handle_sched_switch
    switch-accounts b s none runtime nonzero turn small started n small' = ground (
      arith,
      nonzero,
      turn,
      started,
      n,
      account_prev-maps b s.now s.prev.tgid,
      account_prev-other b s.now s.prev.tgid,
      mark_next-maps (account_prev map_update b s.now s.prev.tgid) s.now s.next,
    )
    switch-accounts b s (some t) runtime nonzero turn small started n small' =
        elim (Bool-cases (s.prev.tgid == pid)) [
          | inl same ↦ ground (
            arith,
            nonzero,
            turn,
            started,
            same,
            small',
            account_prev-maps b s.now s.prev.tgid,
            ap (λ p. Map.lookup pid (account_prev map_update b s.now p).task_runtime)
                ((==_iff s.prev.tgid pid).0 same),
            account_prev-same b s.now t runtime nonzero started n,
            added runtime s.now t,
            mark_next-maps (account_prev map_update b s.now s.prev.tgid) s.now s.next,
          )
          | inr other ↦ ground (
            arith,
            nonzero,
            turn,
            started,
            n,
            other,
            account_prev-maps b s.now s.prev.tgid,
            account_prev-other b s.now s.prev.tgid,
            mark_next-maps (account_prev map_update b s.now s.prev.tgid) s.now s.next,
          )
        ]

    -- For a process with entries in the maps and one thread at a time on a processor, the program
    -- adds the time that it is on a processor, up to its last switch, if the sum is below 2 ^ 64.
    pub runtime-switches :
        (b : BpfCpuTracker) (since : Option ℕ) (ss : List Switch) (runtime : ℕ)
        → pid ≢ 0
        → IsSequential since ss
        → Started since b
        → Map.lookup pid b.task_runtime ≡ some runtime
        → runtime + on_cpu since ss < u64_mod
        → Map.lookup pid (switches map_update ss b).task_runtime ≡ some (runtime + on_cpu since ss)
    unfolding switches
    runtime-switches b since [] runtime nonzero h started n small = ground (arith, n)
    runtime-switches b since (s ∷ rest) runtime nonzero h started n small =
        let step =
          switch-accounts b s since runtime nonzero h.0 h.1 started n (omega (arith, small)) in
        runtime-switches (handle_sched_switch map_update b s) (since_after since s) rest
          (runtime + used_at since s) nonzero h.2 step.0 step.1 (omega (arith, small))
        ∙ ground arith
