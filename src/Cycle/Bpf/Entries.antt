-- ===== src/Cycle/Bpf/Entries.antt =====
-- The operations of daemon/src/bpf/cpu_tracker.bpf.c on the entries of one process.
use bssl_ram.Prelude.{
  ℕ, ◌-◌, ◌≡◌, ◌≢◌, ◌≤◌, refl, ap, ◌∙◌, Bool, false, ◌||◌, some, ◌==◌, ==_iff, Bool-cases,
  Option-cases, inl, inr, arith, if◌then◌else◌, nat_eq,
}
use bssl_ram.Prelude.Map
use bssl_ram.Prelude.Map.{Map, lookup-insert}
use bssl_ram.Prelude.Words.{add_u64, sub_u64}
use bssl_ram.Cycle.Bpf.{BpfCpuTracker}
use bssl_ram.Cycle.Bpf.Concurrent.{
  Local, idle, lookup_start, load_start, lookup_runtime, fetch_and_add, update_runtime,
  update_start, lookup_birth, update_birth, add_at, update_absent, to_next, enter, advance,
}
use bssl_ram.Cycle.Bpf.Accounting.{
  account_prev-maps, account_prev-other, account_prev-same, mark_next-maps,
}
use bssl_ram.Cycle.Bpf.Reuse.{mark_next-birth}
use bssl_ram.Cycle.Bpf.Program.{Switch, has_key, IsUpdate, account_prev, handle_sched_switch}

-- The entries of one process.
pub record Entries : Type 0 where
  pub runtime : ℕ
  pub start : ℕ
  pub birth : ℕ

module _ (pid : ℕ) where
  pub record HasEntries (v : Entries) (b : BpfCpuTracker) : Type 0 where
    pub runtime_is : Map.lookup pid b.task_runtime ≡ some v.runtime
    pub start_is : Map.lookup pid b.task_start ≡ some v.start
    pub birth_is : Map.lookup pid b.task_birth ≡ some v.birth

  abbrev pub is_about : Switch → Bool
  is_about s = (s.prev.tgid == pid) || (s.next.tgid == pid)

  abbrev pub credited : Switch → ℕ → Entries → Entries
  credited s delta v =
      if s.prev.tgid == pid then record v { runtime = add_u64 v.runtime delta } else v

  abbrev pub replaced : Switch → ℕ → Entries → Entries
  replaced s delta v = if s.prev.tgid == pid then record v { runtime = delta } else v

  abbrev pub marked : Switch → Entries → Entries
  marked s v = if s.next.tgid == pid then record v { start = s.now } else v

  -- What the next operation does to the entries, and what the rest of the run will have done.
  abbrev pub moved : Local → Entries → Entries
  moved (fetch_and_add s delta) v = credited s delta v
  moved (update_runtime s delta) v = replaced s delta v
  moved (update_start s) v = marked s v
  moved _ v = v

  abbrev pub outlook : Local → Entries → Entries
  outlook idle v = v
  outlook (lookup_start s) v = marked s (credited s (sub_u64 s.now v.start) v)
  outlook (load_start s last) v = marked s (credited s (sub_u64 s.now v.start) v)
  outlook (lookup_runtime s delta) v = marked s (credited s delta v)
  outlook (fetch_and_add s delta) v = marked s (credited s delta v)
  outlook (update_runtime s delta) v = marked s (replaced s delta v)
  outlook (update_start s) v = marked s v
  outlook (lookup_birth s) v = v
  outlook (update_birth s) v = v

  -- How many operations are left at most.
  abbrev pub left : Local → ℕ
  left idle = 0
  left (lookup_start s) = 7
  left (load_start s last) = 6
  left (lookup_runtime s delta) = 5
  left (fetch_and_add s delta) = 4
  left (update_runtime s delta) = 4
  left (update_start s) = 3
  left (lookup_birth s) = 2
  left (update_birth s) = 1

  -- The run is not about the process.
  abbrev pub IsAway : Local → Type 0
  IsAway idle = Unit
  IsAway (lookup_start s) = is_about s ≡ false
  IsAway (load_start s last) = is_about s ≡ false
  IsAway (lookup_runtime s delta) = is_about s ≡ false
  IsAway (fetch_and_add s delta) = is_about s ≡ false
  IsAway (update_runtime s delta) = is_about s ≡ false
  IsAway (update_start s) = is_about s ≡ false
  IsAway (lookup_birth s) = is_about s ≡ false
  IsAway (update_birth s) = is_about s ≡ false

  module _ (map_update : ℕ → ℕ → Map ℕ ℕ → Map ℕ ℕ) (law : IsUpdate map_update)
      (nonzero : pid ≢ 0) where
    add_at-entry :
        (key delta r : ℕ) (m : Map ℕ ℕ)
        → Map.lookup pid m ≡ some r
        → Map.lookup pid (add_at key delta m) ≡ some (if key == pid then add_u64 r delta else r)
    add_at-entry key delta r m h = elim (Option-cases (Map.lookup key m)) [
      | inl e ↦ elim (Bool-cases (key == pid)) [
        | inl same ↦ absurd (cc (e, ap (λ k. Map.lookup k m) ((==_iff key pid).0 same), h))
        | inr other ↦ ground (arith, e, h, other)
      ]
      | inr (v, e) ↦ elim (Bool-cases (key == pid)) [
        | inl same ↦ ground (
          arith,
          e,
          h,
          same,
          ap (λ k. Map.lookup k m) ((==_iff key pid).0 same),
          lookup-insert key pid (add_u64 v delta) m,
        )
        | inr other ↦ ground (arith, e, h, other, lookup-insert key pid (add_u64 v delta) m)
      ]
    ]

    update_entry :
        (key v r : ℕ) (m : Map ℕ ℕ)
        → Map.lookup pid m ≡ some r
        → Map.lookup pid (map_update key v m) ≡ some (if key == pid then v else r)
    update_entry key v r m h = ground (arith, h, law key v pid m)

    update_absent-entry :
        (key v r : ℕ) (m : Map ℕ ℕ)
        → Map.lookup pid m ≡ some r
        → Map.lookup pid (update_absent map_update key v m) ≡ some r
    update_absent-entry key v r m h = elim (Bool-cases (key == pid)) [
      | inl same ↦ ground (arith, h, same, ap (λ k. has_key k m) ((==_iff key pid).0 same))
      | inr other ↦ ground (arith, h, other, law key v pid m)
    ]

    pub advance-HasEntries :
        (l : Local) (v : Entries) (b : BpfCpuTracker)
        → HasEntries v b
        → HasEntries (moved l v) (advance map_update l b).1
    unfolding advance
    advance-HasEntries idle v b h = h
    advance-HasEntries (lookup_start s) v b h = ground arith
    advance-HasEntries (load_start s last) v b h = ground arith
    advance-HasEntries (lookup_runtime s delta) v b h = ground arith
    advance-HasEntries (fetch_and_add s delta) v b h =
        ground (arith, add_at-entry s.prev.tgid delta v.runtime b.task_runtime)
    advance-HasEntries (update_runtime s delta) v b h =
        ground (arith, update_entry s.prev.tgid delta v.runtime b.task_runtime)
    advance-HasEntries (update_start s) v b h =
        ground (arith, update_entry s.next.tgid s.now v.start b.task_start)
    advance-HasEntries (lookup_birth s) v b h = ground arith
    advance-HasEntries (update_birth s) v b h = record {
      runtime_is = h.runtime_is;
      start_is = h.start_is;
      birth_is = update_absent-entry s.next.tgid s.next.start_time v.birth b.task_birth h.birth_is;
    }

    outlook-to_next : (s : Switch) (v : Entries) → outlook (to_next s) v ≡ marked s v
    outlook-to_next s v = ground (arith, nonzero)

    pub advance-outlook :
        (l : Local) (v : Entries) (b : BpfCpuTracker)
        → HasEntries v b
        → (outlook (advance map_update l b).0 (moved l v) ≡ outlook l v)
          × (left (advance map_update l b).0 ≤ left l - 1)
    unfolding advance
    advance-outlook idle v b h = (refl, omega arith)
    advance-outlook (lookup_start s) v b h =
        elim (Option-cases (Map.lookup s.prev.tgid b.task_start)) [
          | inl e ↦ elim (Bool-cases (s.prev.tgid == pid)) [
            | inl same ↦ absurd (
                cc (
                  e,
                  ap (λ k. Map.lookup k b.task_start) ((==_iff s.prev.tgid pid).0 same),
                  h.start_is,
                ))
            | inr other ↦ ground (arith, e, other, nonzero)
          ]
          | inr (start, e) ↦ ground (arith, e)
        ]
    advance-outlook (load_start s last) v b h = elim (Bool-cases (s.prev.tgid == pid)) [
      | inl same ↦
          let seen = ap (λ k. Map.lookup k b.task_start) ((==_iff s.prev.tgid pid).0 same) in
          ground (arith, same, seen)
      | inr other ↦ ground (arith, other)
    ]
    advance-outlook (lookup_runtime s delta) v b h =
        elim (Option-cases (Map.lookup s.prev.tgid b.task_runtime)) [
          | inl e ↦ elim (Bool-cases (s.prev.tgid == pid)) [
            | inl same ↦ absurd (
                cc (
                  e,
                  ap (λ k. Map.lookup k b.task_runtime) ((==_iff s.prev.tgid pid).0 same),
                  h.runtime_is,
                ))
            | inr other ↦ ground (arith, e, other)
          ]
          | inr (runtime, e) ↦ ground (arith, e)
        ]
    advance-outlook (fetch_and_add s delta) v b h = ground (arith, nonzero)
    advance-outlook (update_runtime s delta) v b h = ground (arith, nonzero)
    advance-outlook (update_start s) v b h = ground arith
    advance-outlook (lookup_birth s) v b h = ground arith
    advance-outlook (update_birth s) v b h = ground arith

    pub advance-IsAway :
        (l : Local) (v : Entries) (b : BpfCpuTracker)
        → IsAway l
        → IsAway (advance map_update l b).0 × (moved l v ≡ v)
    unfolding advance
    advance-IsAway idle v b a = (a, refl)
    advance-IsAway (lookup_start s) v b a = ground arith
    advance-IsAway (load_start s last) v b a = ground arith
    advance-IsAway (lookup_runtime s delta) v b a = ground arith
    advance-IsAway (fetch_and_add s delta) v b a = ground arith
    advance-IsAway (update_runtime s delta) v b a = ground arith
    advance-IsAway (update_start s) v b a = ground arith
    advance-IsAway (lookup_birth s) v b a = ground arith
    advance-IsAway (update_birth s) v b a = ground arith

    -- An undisturbed run of the program.
    pub handle_sched_switch-HasEntries :
        (s : Switch) (v : Entries) (b : BpfCpuTracker)
        → HasEntries v b
        → HasEntries (outlook (enter s) v) (handle_sched_switch map_update b s)
    unfolding handle_sched_switch enter
    handle_sched_switch-HasEntries s v b h =
        let prev = account_prev map_update b s.now s.prev.tgid in
        let maps = account_prev-maps pid map_update law b s.now s.prev.tgid in
        let start_is = ap (Map.lookup pid) maps.0 ∙ h.start_is in
        let (runtime, start) =
          mark_next-maps pid map_update law prev s.now s.next nonzero (ground (arith, start_is)) in
        let birth =
          mark_next-birth pid map_update law prev s.now v.birth s.next
            (ap (Map.lookup pid) maps.1 ∙ h.birth_is) in
        elim (Bool-cases (s.prev.tgid == pid)) [
          | inl same ↦
              let credited =
                ap (λ k. Map.lookup pid (account_prev map_update b s.now k).task_runtime)
                  ((==_iff s.prev.tgid pid).0 same)
                ∙ account_prev-same pid map_update law b s.now v.start v.runtime nonzero h.start_is
                    h.runtime_is in
              ground (arith, same, nonzero, runtime, start, start_is, birth.0, credited)
          | inr other ↦
              let untouched =
                account_prev-other pid map_update law b s.now s.prev.tgid other
                  (ground (arith, h.runtime_is))
                ∙ h.runtime_is in
              ground (arith, other, nonzero, runtime, start, start_is, birth.0, untouched)
        ]
