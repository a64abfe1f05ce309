-- ===== src/Cycle/Bpf/Concurrent.antt =====
-- daemon/src/bpf/cpu_tracker.bpf.c on several processors at once: `handle_sched_switch` as its
-- operations on the maps, each of which is atomic. The operations of different processors come in
-- any order.
use bssl_ram.Prelude.{ℕ, none, some, List, [], ◌∷◌, ◌==◌, if◌then◌else◌, nat_eq}
use bssl_ram.Prelude.Map
use bssl_ram.Prelude.Map.{Map}
use bssl_ram.Prelude.Words.{add_u64, sub_u64}
use bssl_ram.Cycle.Bpf.{BpfCpuTracker}
use bssl_ram.Cycle.Bpf.Program.{Switch, has_key}

-- Where a processor stands in the program: in none, or before the operation that the name says. An
-- entry that was deleted after it was looked up still has its last value.
pub data Local : Type 0 where
  idle : Local
  lookup_start : Switch → Local
  load_start : Switch → ℕ → Local
  lookup_runtime : Switch → ℕ → Local
  fetch_and_add : Switch → ℕ → Local
  update_runtime : Switch → ℕ → Local
  update_start : Switch → Local
  lookup_birth : Switch → Local
  update_birth : Switch → Local

-- The pointer that the lookup returned. An entry that was deleted since is no longer in the map.
abbrev pub add_at : ℕ → ℕ → Map ℕ ℕ → Map ℕ ℕ
add_at key delta m = elim (Map.lookup key m) [
  | none ↦ m
  | some v ↦ Map.insert key (add_u64 v delta) m
]

abbrev pub to_next : Switch → Local
to_next s = if s.next.tgid == 0 then idle else update_start s

-- The test on `prev_tgid`.
unfoldable pub enter : Switch → Local
enter s = if s.prev.tgid == 0 then to_next s else lookup_start s

-- The processors, by their numbers, and the maps that they share.
pub record Processors : Type 0 where
  pub local : ℕ → Local
  pub maps : BpfCpuTracker

-- A processor enters the program, or makes its next operation.
pub data Event : Type 0 where
  begin : ℕ → Switch → Event
  step : ℕ → Event

abbrev pub set_local : ℕ → Local → (ℕ → Local) → ℕ → Local
set_local cpu l local d = if cpu == d then l else local d

module _ (map_update : ℕ → ℕ → Map ℕ ℕ → Map ℕ ℕ) where
  -- `BPF_NOEXIST`
  abbrev pub update_absent : ℕ → ℕ → Map ℕ ℕ → Map ℕ ℕ
  update_absent key v m = if has_key key m then m else map_update key v m

  -- One operation.
  unfoldable pub advance : Local → BpfCpuTracker → Local × BpfCpuTracker
  advance idle b = (idle, b)
  advance (lookup_start s) b = elim (Map.lookup s.prev.tgid b.task_start) [
    | none ↦ (to_next s, b)
    | some start ↦ (load_start s start, b)
  ]
  advance (load_start s last) b = (
    lookup_runtime s (
        sub_u64 s.now
          (elim (Map.lookup s.prev.tgid b.task_start) [ none ↦ last | some start ↦ start ])),
    b,
  )
  advance (lookup_runtime s delta) b = elim (Map.lookup s.prev.tgid b.task_runtime) [
    | none ↦ (update_runtime s delta, b)
    | some runtime ↦ (fetch_and_add s delta, b)
  ]
  advance (fetch_and_add s delta) b =
      (to_next s, record b { task_runtime = add_at s.prev.tgid delta b.task_runtime })
  advance (update_runtime s delta) b =
      (to_next s, record b { task_runtime = map_update s.prev.tgid delta b.task_runtime })
  advance (update_start s) b =
      (lookup_birth s, record b { task_start = map_update s.next.tgid s.now b.task_start })
  advance (lookup_birth s) b =
      (if has_key s.next.tgid b.task_birth then idle else update_birth s, b)
  advance (update_birth s) b =
      (idle, record b { task_birth = update_absent s.next.tgid s.next.start_time b.task_birth })

  unfoldable pub on_event : Processors → Event → Processors
  on_event p (begin cpu s) = record p { local = set_local cpu (enter s) p.local }
  on_event p (step cpu) =
      let (l, b) = advance (p.local cpu) p.maps in
      record { local = set_local cpu l p.local; maps = b }

  unfoldable pub on_events : Processors → List Event → Processors
  on_events p [] = p
  on_events p (e ∷ rest) = on_events (on_event p e) rest
