-- ===== src/Tests/Full.antt =====
-- A full map of daemon/src/bpf/cpu_tracker.bpf.c: a map of one entry, which another process has.
use bssl_ram.Prelude.{
  ℕ, ◌≡◌, refl, some, List, [], ◌∷◌, length, ltb, ◌||◌, if◌then◌else◌, nat_eq, arith,
}
use bssl_ram.Prelude.Map
use bssl_ram.Prelude.Map.{Map}
use bssl_ram.Config.{default_config}
use bssl_ram.Cycle.{Moment, State, exited, visit}
use bssl_ram.Cycle.Bpf.{BpfCpuTracker}
use bssl_ram.Cycle.Bpf.Program.{Switch, has_key, switches}
use bssl_ram.Cycle.Full.{IsBounded, IsShutOut, visit-shut_out}
use bssl_ram.Tests.Cycle.{moment, state, tab}
use bssl_ram.Tracker.View.{view, unseen}

abbrev update_one : ℕ → ℕ → Map ℕ ℕ → Map ℕ ℕ
update_one key v m = if has_key key m || ltb (length m) 1 then Map.insert key v m else m

update_one-IsBounded : IsBounded 1 update_one
update_one-IsBounded = record {
  replaces = λ key v m h. ground (arith, h);
  refuses = λ key v m h full. ground (arith, h, full);
}

abbrev full_maps : BpfCpuTracker
full_maps = record {
  task_runtime = (9, 5) ∷ [];
  task_start = (9, 1) ∷ [];
  task_birth = (9, 1) ∷ [];
}

full_maps-IsShutOut : IsShutOut 1 7 full_maps
unfolding Map.lookup
full_maps-IsShutOut = (refl, omega arith)

-- The process runs for 100 ns.
abbrev turn : List Switch
turn =
    record {
      now = 1000;
      prev = record { tgid = 9; start_time = 1 };
      next = record { tgid = 7; start_time = 500 };
    }
    ∷ record {
      now = 1100;
      prev = record { tgid = 7; start_time = 500 };
      next = record { tgid = 9; start_time = 1 };
    }
    ∷ []

abbrev full_state : State
full_state = record state { bpf_tracker = some full_maps }

abbrev full_moment : Moment
full_moment = record moment { sched_switch = switches update_one turn }

visit-shut_out_example :
    ((visit default_config full_state (tab, full_moment)).log ≡ (7, exited) ∷ [])
    × ((visit default_config full_state (tab, full_moment)).calls ≡ [])
    × (view (visit default_config full_state (tab, full_moment)).tracker 7 ≡ unseen)
visit-shut_out_example =
    visit-shut_out 1 update_one default_config full_state tab full_moment full_maps turn
      update_one-IsBounded refl full_maps-IsShutOut refl
