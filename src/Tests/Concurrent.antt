-- ===== src/Tests/Concurrent.antt =====
-- Runs of daemon/src/bpf/cpu_tracker.bpf.c on two processors.
use bssl_ram.Prelude.{ℕ, ◌≡◌, refl, some, List, [], ◌∷◌, arith, nat_eq}
use bssl_ram.Prelude.Map
use bssl_ram.Cycle.Bpf.{BpfCpuTracker}
use bssl_ram.Cycle.Bpf.Concurrent
use bssl_ram.Cycle.Bpf.Concurrent.{Local, idle, Processors, Event, begin, step, enter, on_events}
use bssl_ram.Cycle.Bpf.Entries.{HasEntries}
use bssl_ram.Cycle.Bpf.Interleaved.{Run, events_of, IsAlone}
use bssl_ram.Cycle.Bpf.Linear.{on_events-linear}
use bssl_ram.Cycle.Bpf.Program.{Task, Switch, switches}
use bssl_ram.Tests.Bpf.{bounded_update, bounded_update-IsUpdate}

abbrev task : ℕ → Task
task pid = record { tgid = pid; start_time = 100 }

abbrev maps : BpfCpuTracker
maps = record {
  task_runtime = (7, 400) ∷ [];
  task_start = (7, 1000) ∷ [];
  task_birth = (7, 100) ∷ [];
}

abbrev resting : Processors
resting = record { local = λ cpu. idle; maps = maps }

-- The process leaves processor 0 while processor 1 goes from one process to another.
abbrev leaving : Switch
leaving = record { now = 1500; prev = task 7; next = task 8 }

abbrev elsewhere : Switch
elsewhere = record { now = 1400; prev = task 9; next = task 10 }

abbrev run : Run
run = record {
  cpu = 0;
  switch = leaving;
  during =
      step 0
      ∷ begin 1 elsewhere
      ∷ step 0
      ∷ step 1
      ∷ step 0
      ∷ step 0
      ∷ step 1
      ∷ step 0
      ∷ step 0
      ∷ step 0
      ∷ [];
  after = step 1 ∷ step 1 ∷ [];
}

run-IsAlone : IsAlone 7 run
run-IsAlone = record {
  apart = (tt, ((refl, refl), omega arith));
  finished = omega arith;
  quiet = omega arith;
}

maps-HasEntries : HasEntries 7 (record { runtime = 400; start = 1000; birth = 100 }) maps
unfolding Map.lookup
maps-HasEntries = record { runtime_is = refl; start_is = refl; birth_is = refl }

on_events-linear_example :
    (Map.lookup 7 (on_events bounded_update resting (events_of (run ∷ []))).maps.task_runtime
      ≡ Map.lookup 7 (switches bounded_update (leaving ∷ []) maps).task_runtime)
    × (Map.lookup 7 (on_events bounded_update resting (events_of (run ∷ []))).maps.task_start
        ≡ Map.lookup 7 (switches bounded_update (leaving ∷ []) maps).task_start)
    × (Map.lookup 7 (on_events bounded_update resting (events_of (run ∷ []))).maps.task_birth
        ≡ Map.lookup 7 (switches bounded_update (leaving ∷ []) maps).task_birth)
on_events-linear_example =
    on_events-linear 7 bounded_update bounded_update-IsUpdate (λ e. cc e) resting
      (record { runtime = 400; start = 1000; birth = 100 }) (run ∷ []) maps-HasEntries (λ d. tt)
      (run-IsAlone, tt)

runtime_after :
    Map.lookup 7 (on_events bounded_update resting (events_of (run ∷ []))).maps.task_runtime
    ≡ some 900
unfolding on_events Concurrent.on_event Concurrent.advance enter bounded_update Map.lookup
    Map.insert
runtime_after = refl

-- Two threads of one process leave two processors at once, and the process has no entry of its CPU
-- time yet: of 300 ns and 500 ns only the amount that is written last is left.
abbrev unseen : Processors
unseen = record {
  local = λ cpu. idle;
  maps = record { task_runtime = []; task_start = (7, 1000) ∷ []; task_birth = (7, 100) ∷ [] };
}

abbrev leaving_at : ℕ → Switch
leaving_at now = record { now = now; prev = task 7; next = task 0 }

abbrev both_leave : List Event
both_leave =
    begin 0 (leaving_at 1300)
    ∷ begin 1 (leaving_at 1500)
    ∷ step 0
    ∷ step 1
    ∷ step 0
    ∷ step 1
    ∷ step 0
    ∷ step 1
    ∷ step 1
    ∷ step 0
    ∷ []

one_is_lost : Map.lookup 7 (on_events bounded_update unseen both_leave).maps.task_runtime ≡ some 300
unfolding on_events Concurrent.on_event Concurrent.advance enter bounded_update Map.lookup
    Map.insert
one_is_lost = refl
