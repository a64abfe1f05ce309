-- ===== src/Cycle/Bpf/Program.antt =====
-- daemon/src/bpf/cpu_tracker.bpf.c: the program that runs at each context switch and fills the
-- maps. A run of it is one step; its concurrent runs on several processors are taken one after the
-- other.
use bssl_ram.Prelude.{
  ℕ, ◌≡◌, Bool, true, false, none, some, List, [], ◌∷◌, ◌==◌, if◌then◌else◌, nat_eq,
}
use bssl_ram.Prelude.Map
use bssl_ram.Prelude.Map.{Map}
use bssl_ram.Prelude.Words.{add_u64, sub_u64}
use bssl_ram.Cycle.Bpf.{BpfCpuTracker}

-- What is read of a `task_struct`.
pub record Task : Type 0 where
  pub tgid : ℕ
  pub start_time : ℕ

pub record Switch : Type 0 where
  pub now : ℕ
  pub prev : Task
  pub next : Task

abbrev pub has_key : ℕ → Map ℕ ℕ → Bool
has_key key m = elim (Map.lookup key m) [ none ↦ false | some v ↦ true ]

-- What is relied on of `bpf_map_update_elem`: it changes a key that is there to the value, and
-- takes no other key away. A new key may find the map full.
abbrev pub IsUpdate : (ℕ → ℕ → Map ℕ ℕ → Map ℕ ℕ) → Type 0
IsUpdate map_update =
    (key v pid : ℕ) (m : Map ℕ ℕ)
    → has_key pid m ≡ true
    → Map.lookup pid (map_update key v m) ≡ (if key == pid then some v else Map.lookup pid m)

module _ (map_update : ℕ → ℕ → Map ℕ ℕ → Map ℕ ℕ) where
  -- The task that leaves the processor.
  unfoldable pub account_prev : BpfCpuTracker → ℕ → ℕ → BpfCpuTracker
  account_prev b now prev_tgid =
      if prev_tgid == 0 then b else elim (Map.lookup prev_tgid b.task_start) [
        | none ↦ b
        | some start ↦
            let delta = sub_u64 now start in
            elim (Map.lookup prev_tgid b.task_runtime) [
              | none ↦ record b { task_runtime = map_update prev_tgid delta b.task_runtime }
              | some runtime ↦ record b {
                task_runtime = Map.insert prev_tgid (add_u64 runtime delta) b.task_runtime;
              }
            ]
      ]

  -- The task that takes it.
  unfoldable pub mark_next : BpfCpuTracker → ℕ → Task → BpfCpuTracker
  mark_next b now next = if next.tgid == 0 then b else record b {
    task_start = map_update next.tgid now b.task_start;
    task_birth =
        if has_key next.tgid b.task_birth
        then b.task_birth
        else map_update next.tgid next.start_time b.task_birth;
  }

  unfoldable pub handle_sched_switch : BpfCpuTracker → Switch → BpfCpuTracker
  handle_sched_switch b s = mark_next (account_prev b s.now s.prev.tgid) s.now s.next

  unfoldable pub switches : List Switch → BpfCpuTracker → BpfCpuTracker
  switches [] b = b
  switches (s ∷ rest) b = switches rest (handle_sched_switch b s)
