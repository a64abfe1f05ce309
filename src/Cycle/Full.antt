-- ===== src/Cycle/Full.antt =====
-- What happens when the map of daemon/src/bpf/cpu_tracker.bpf.c for the CPU time is full, up to the
-- decision of daemon/src/main.rs.
use bssl_ram.Prelude.{
  ℕ, ◌≤◌, ◌≡◌, refl, ap, ◌∙◌, true, false, Option, none, some, List, [], ◌∷◌, ◌++◌, length, arith,
  ◌==◌, ==_iff, Bool-cases, Option-cases, inl, inr, nat_eq,
}
use bssl_ram.Prelude.Map
use bssl_ram.Prelude.Map.{Map, lookup-insert}
use bssl_ram.Prelude.Text.{Text}
use bssl_ram.Prelude.Words.{add_u64, sub_u64}
use bssl_ram.Config.{Config}
use bssl_ram.Cycle.{Moment, State, exited, map_some, meet, visit}
use bssl_ram.Cycle.Bpf.{BpfCpuTracker, build_snapshot, runtime_ns}
use bssl_ram.Cycle.Bpf.Program.{
  Task, Switch, has_key, account_prev, mark_next, handle_sched_switch, switches,
}
use bssl_ram.Cycle.Exits.{visit-exited}
use bssl_ram.Scanner.{TargetProcess}
use bssl_ram.Tracker.View.{view, unseen}

-- What is relied on of `bpf_map_update_elem` on a map of so many entries: a key that is there gets
-- the value, and a new key is refused when the map is full.
pub record IsBounded (max_entries : ℕ) (map_update : ℕ → ℕ → Map ℕ ℕ → Map ℕ ℕ) : Type 0 where
  pub replaces :
      (key v : ℕ) (m : Map ℕ ℕ) → has_key key m ≡ true → map_update key v m ≡ Map.insert key v m
  pub refuses :
      (key v : ℕ) (m : Map ℕ ℕ)
      → has_key key m ≡ false
      → max_entries ≤ length m
      → map_update key v m ≡ m

-- The map is full, and the process is not in it.
abbrev pub IsShutOut : ℕ → ℕ → BpfCpuTracker → Type 0
IsShutOut max_entries pid b =
    (has_key pid b.task_runtime ≡ false) × (max_entries ≤ length b.task_runtime)

length-insert :
    (key v : ℕ) (m : Map ℕ ℕ) → has_key key m ≡ true → length (Map.insert key v m) ≡ length m
unfolding Map.insert Map.lookup
length-insert key v [] h = absurd (cc h)
length-insert key v ((j, w) ∷ m) h = ground (arith, h, length-insert key v m)

insert-shut_out :
    (pid key v : ℕ) (m : Map ℕ ℕ)
    → has_key pid m ≡ false
    → has_key key m ≡ true
    → has_key pid (Map.insert key v m) ≡ false
insert-shut_out pid key v m h k = elim (Bool-cases (key == pid)) [
  | inl same ↦ absurd (cc (h, k, ap (λ i. has_key i m) ((==_iff key pid).0 same)))
  | inr other ↦ ground (arith, h, other, lookup-insert key pid v m)
]

module _ (max_entries : ℕ) (map_update : ℕ → ℕ → Map ℕ ℕ → Map ℕ ℕ)
    (law : IsBounded max_entries map_update) (pid : ℕ) where
  account_prev-IsShutOut :
      (b : BpfCpuTracker) (now prev_tgid : ℕ)
      → IsShutOut max_entries pid b
      → IsShutOut max_entries pid (account_prev map_update b now prev_tgid)
  unfolding account_prev
  account_prev-IsShutOut b now prev_tgid h =
      elim (Option-cases (Map.lookup prev_tgid b.task_start)) [
        | inl e ↦ ground (arith, e, h)
        | inr (start, e) ↦
            let delta = sub_u64 now start in
            elim (Option-cases (Map.lookup prev_tgid b.task_runtime)) [
              | inl n ↦ ground (arith, e, n, h, law.refuses prev_tgid delta b.task_runtime)
              | inr (runtime, n) ↦ ground (
                arith,
                e,
                n,
                h,
                insert-shut_out pid prev_tgid (add_u64 runtime delta) b.task_runtime h.0,
                length-insert prev_tgid (add_u64 runtime delta) b.task_runtime,
              )
            ]
      ]

  mark_next-IsShutOut :
      (b : BpfCpuTracker) (now : ℕ) (next : Task)
      → IsShutOut max_entries pid b
      → IsShutOut max_entries pid (mark_next map_update b now next)
  unfolding mark_next
  mark_next-IsShutOut b now next h = ground (arith, h)

  switches-IsShutOut :
      (ss : List Switch) (b : BpfCpuTracker)
      → IsShutOut max_entries pid b
      → IsShutOut max_entries pid (switches map_update ss b)
  unfolding switches handle_sched_switch
  switches-IsShutOut [] b h = h
  switches-IsShutOut (s ∷ rest) b h =
      let prev = account_prev map_update b s.now s.prev.tgid in
      switches-IsShutOut rest (mark_next map_update prev s.now s.next)
        (mark_next-IsShutOut prev s.now s.next (account_prev-IsShutOut b s.now s.prev.tgid h))

build_snapshot-unknown :
    (pid : ℕ) (b : BpfCpuTracker) (stat : Option Text)
    → has_key pid b.task_runtime ≡ false
    → build_snapshot pid (some b) stat ≡ none
unfolding build_snapshot runtime_ns
build_snapshot-unknown pid b stat h = elim (Option-cases (Map.lookup pid b.task_runtime)) [
  | inl e ↦ ground (arith, e)
  | inr (v, e) ↦ absurd (ground (arith, h, e))
]

-- If the map of the CPU time is full without a target, then whatever the BPF program sees up to the
-- turn of the target, also of the target itself, and whatever /proc says of it, the target is
-- logged as exited, no system call is made, and the tracker has never seen it.
pub visit-shut_out :
    (max_entries : ℕ) (map_update : ℕ → ℕ → Map ℕ ℕ → Map ℕ ℕ) (config : Config) (st : State)
    (tab : TargetProcess) (m : Moment) (b : BpfCpuTracker) (ss : List Switch)
    → IsBounded max_entries map_update
    → st.bpf_tracker ≡ some b
    → IsShutOut max_entries tab.pid b
    → m.sched_switch b ≡ switches map_update ss b
    → ((visit config st (tab, m)).log ≡ st.log ++ (tab.pid, exited) ∷ [])
      × ((visit config st (tab, m)).calls ≡ st.calls)
      × (view (visit config st (tab, m)).tracker tab.pid ≡ unseen)
unfolding meet
visit-shut_out max_entries map_update config st tab m b ss law loaded full ran =
    let out = switches-IsShutOut max_entries map_update law tab.pid ss b full in
    let unread : build_snapshot tab.pid (meet st m tab.pid).bpf_tracker (m.stat tab.pid) ≡ none =
      ap (λ o. build_snapshot tab.pid (map_some m.sched_switch o) (m.stat tab.pid)) loaded
      ∙ ap (λ c. build_snapshot tab.pid (some c) (m.stat tab.pid)) ran
      ∙ build_snapshot-unknown tab.pid (switches map_update ss b) (m.stat tab.pid) out.0 in
    let (log, calls, forgotten, seen) = visit-exited config st tab m tab.pid unread in
    (log, calls, seen ∙ ground (arith, (==_iff tab.pid tab.pid).1 refl))
