-- ===== src/Tests/Bpf.antt =====
-- Context switches of daemon/src/bpf/cpu_tracker.bpf.c.
use bssl_ram.Prelude.{◌≤◌}
use bssl_ram.Prelude.Text
use bssl_ram.Compressor
use bssl_ram.Compressor.{opened, advised, closed}
use bssl_ram.Cycle
use bssl_ram.Cycle.{State, meet, visit}
use bssl_ram.Cycle.Bpf
use bssl_ram.Cycle.History.{idle_ns_of}
use bssl_ram.Cycle.Usage.{IsLastRead, visit-used}
use bssl_ram.Signals
use bssl_ram.Tracker
use bssl_ram.Tracker.View.{view}
use bssl_ram.Prelude.{
  ℕ, ◌+◌, ◌≡◌, refl, ap, true, ◌||◌, ltb, length, ◌==◌, ==_iff, if◌then◌else◌, Bool-cases, inl, inr,
  some, none, List, [], ◌∷◌, arith, nat_eq,
}
use bssl_ram.Prelude.Map
use bssl_ram.Prelude.Map.{Map, lookup-insert}
use bssl_ram.Config.{default_config}
use bssl_ram.Cycle.{Moment, scan_cycle}
use bssl_ram.Cycle.Births.{HasBirth, RunsProgram, scan_cycle-HasBirth}
use bssl_ram.Cycle.Bpf.{BpfCpuTracker}
use bssl_ram.Cycle.Bpf.Accounting.{on_cpu, IsSequential, runtime-switches}
use bssl_ram.Cycle.Bpf.Program
use bssl_ram.Cycle.Bpf.Program.{Task, Switch, IsUpdate, has_key, switches}
use bssl_ram.Tests.Cycle.{moment, state, tab}

-- A map of 16384 entries at most.
unfoldable pub bounded_update : ℕ → ℕ → Map ℕ ℕ → Map ℕ ℕ
bounded_update key v m = if has_key key m || ltb (length m) 16384 then Map.insert key v m else m

pub bounded_update-IsUpdate : IsUpdate bounded_update
unfolding bounded_update
bounded_update-IsUpdate key v pid m h = elim (Bool-cases (key == pid)) [
  | inl same ↦
      ground
        (arith, h, same, ap (λ k. has_key k m) ((==_iff key pid).0 same), lookup-insert key pid v m)
  | inr other ↦ ground (arith, h, other, lookup-insert key pid v m)
]

abbrev idle : Task
idle = record { tgid = 0; start_time = 0 }

abbrev seven : Task
seven = record { tgid = 7; start_time = 100 }

abbrev maps : BpfCpuTracker
maps = record { task_runtime = (7, 100) ∷ []; task_start = (7, 5) ∷ []; task_birth = (7, 100) ∷ [] }

abbrev one_turn : List Switch
one_turn =
    record { now = 1000; prev = idle; next = seven }
    ∷ record { now = 1500; prev = seven; next = idle }
    ∷ []

one_turn-IsSequential : IsSequential 7 none one_turn
one_turn-IsSequential = (refl, omega arith, ((omega arith, refl), omega arith, tt))

has_start : Program.has_key 7 maps.task_start ≡ true
unfolding Map.lookup
has_start = refl

has_runtime : Map.lookup 7 maps.task_runtime ≡ some 100
unfolding Map.lookup
has_runtime = refl

runtime-switches_example :
    Map.lookup 7 (switches bounded_update one_turn maps).task_runtime
    ≡ some (100 + on_cpu 7 none one_turn)
runtime-switches_example =
    runtime-switches 7 bounded_update bounded_update-IsUpdate maps none one_turn 100 (λ e. cc e)
      one_turn-IsSequential has_start has_runtime (omega arith)

-- Two threads of the process on two processors, one from 1000 to 2000 and one from 1900 to 2000: of
-- 1100 ns the maps have 200.
abbrev two_threads : List Switch
two_threads =
    record { now = 1000; prev = idle; next = seven }
    ∷ record { now = 1900; prev = idle; next = seven }
    ∷ record { now = 2000; prev = seven; next = idle }
    ∷ record { now = 2000; prev = seven; next = idle }
    ∷ []

two_threads_counted :
    Map.lookup 7 (switches bounded_update two_threads maps).task_runtime ≡ some (100 + 200)
unfolding switches Program.handle_sched_switch Program.account_prev Program.mark_next bounded_update
    Map.lookup Map.insert
two_threads_counted = refl

-- Another process takes the PID before the turn.
abbrev reusing : List Switch
reusing = record { now = 3000; prev = idle; next = record { tgid = 7; start_time = 2900 } } ∷ []

abbrev reused_moment : Moment
reused_moment = record moment { sched_switch = switches bounded_update reusing }

reused-RunsProgram : RunsProgram bounded_update reused_moment
reused-RunsProgram = (reusing, λ b. refl)

state-HasBirth : HasBirth 7 100 state
unfolding Map.lookup
state-HasBirth = (
  record { task_runtime = (7, 500) ∷ []; task_start = []; task_birth = (7, 100) ∷ [] },
  refl,
  (refl, refl),
)

scan_cycle-HasBirth_example :
    HasBirth 7 100 (scan_cycle default_config state ((tab, reused_moment) ∷ []))
scan_cycle-HasBirth_example =
    scan_cycle-HasBirth bounded_update bounded_update-IsUpdate default_config 7 100 state
      ((tab, reused_moment) ∷ []) (reused-RunsProgram, tt) state-HasBirth

-- The process uses 500 ns before its turn, and is paged out.
abbrev used_maps : BpfCpuTracker
used_maps = record {
  task_runtime = (7, 400) ∷ [];
  task_start = (7, 5) ∷ [];
  task_birth = (7, 100) ∷ [];
}

abbrev used_state : State
used_state = record state { bpf_tracker = some used_maps }

abbrev used_moment : Moment
used_moment = record moment { sched_switch = switches bounded_update one_turn }

used_maps-IsLastRead : IsLastRead 7 100 400 none used_maps used_state
unfolding Map.lookup view
used_maps-IsLastRead = record {
  loaded = refl;
  started = refl;
  runtime_is = refl;
  birth_is = refl;
  seen_is = refl;
}

used_calls :
    (visit default_config used_state (tab, used_moment)).calls
    ≡ opened 7 ∷ advised 5 ((4096, 8192) ∷ []) ∷ closed 5 ∷ []
unfolding visit meet Cycle.after_snapshot Cycle.update_tracker Cycle.check_gates Cycle.check_signals
    Cycle.after_veto Cycle.try_compress Cycle.record_outcome Cycle.take_reports Bpf.build_snapshot
    Bpf.runtime_ns Bpf.starttime_ns Map.lookup Map.insert Map.retain Tracker.update
    Tracker.forget_reused Tracker.delta Tracker.record_delta Tracker.idle_cycles
    Tracker.is_compressed Tracker.mark_compressed Compressor.rss_mib Compressor.compress_pid
    Compressor.page_out Compressor.parse_anon_regions Compressor.is_real_success Compressor.chunks
    Compressor.advise_chunks Compressor.advise_chunk Signals.profile_veto_at
    Signals.canonical_family Signals.drop_stale Text.lines Text.starts_with Text.split_whitespace
    Text.from_str_radix Compressor.scan_lines Compressor.scan_anonymous Compressor.scan_header
    Compressor.mapping_of Text.split_at Compressor.second_number switches
    Program.handle_sched_switch Program.account_prev Program.mark_next bounded_update
used_calls = refl

visit-used_example : on_cpu 7 none one_turn ≤ idle_ns_of default_config
visit-used_example =
    visit-used bounded_update bounded_update-IsUpdate default_config tab 100 400 used_state
      used_moment used_maps none one_turn (λ e. cc e) used_maps-IsLastRead refl
      one_turn-IsSequential (omega arith) (λ e. cc (used_calls, e))
