-- ===== src/Cycle/Bpf/Linear.antt =====
-- The program of daemon/src/bpf/cpu_tracker.bpf.c on several processors: the runs about one process
-- that do not overlap leave what they leave one after the other.
use bssl_ram.Prelude.{
  ℕ, ◌≡◌, ◌≢◌, refl, sym, ap, ◌∙◌, List, [], ◌∷◌, ◌++◌, map, ◌==◌, ==_iff, Bool-cases, inl, inr,
  arith, nat_eq, All,
}
use mathlib.Core.Path.{subst}
use bssl_ram.Prelude.Map
use bssl_ram.Prelude.Map.{Map}
use bssl_ram.Cycle.Bpf.{BpfCpuTracker}
use bssl_ram.Cycle.Bpf.Concurrent.{
  enter, advance, Processors, Event, begin, step, on_event, on_events,
}
use bssl_ram.Cycle.Bpf.Entries.{
  Entries, HasEntries, outlook, IsAway, advance-HasEntries, advance-IsAway,
  handle_sched_switch-HasEntries,
}
use bssl_ram.Cycle.Bpf.Program.{IsUpdate, handle_sched_switch, switches}
use bssl_ram.Cycle.Bpf.Interleaved.{
  left-idle, Run, events_of, IsQuiet, AllAway, IsAlone, enter-IsAway, on_events-Keeps,
  entered-Keeps,
}

module _ (pid : ℕ) (map_update : ℕ → ℕ → Map ℕ ℕ → Map ℕ ℕ) (law : IsUpdate map_update)
    (nonzero : pid ≢ 0) where
  on_events-append :
      (p : Processors) (es fs : List Event)
      → on_events map_update p (es ++ fs) ≡ on_events map_update (on_events map_update p es) fs
  unfolding on_events
  on_events-append p [] fs = refl
  on_events-append p (e ∷ es) fs = on_events-append (on_event map_update p e) es fs

  -- No run is about the process.
  abbrev Rests : Entries → Processors → Type 0
  Rests v p = HasEntries pid v p.maps × AllAway pid p

  on_event-Rests :
      (v : Entries) (p : Processors) (e : Event)
      → IsQuiet pid e
      → Rests v p
      → Rests v (on_event map_update p e)
  unfolding on_event
  on_event-Rests v p (begin d s) quiet (h, away) = (
    h,
    λ i. elim (Bool-cases (d == i)) [
      | inl here ↦ rw here (enter-IsAway pid s quiet)
      | inr there ↦ rw there (away i)
    ],
  )
  on_event-Rests v p (step d) quiet (h, away) =
      let (gone, unmoved) =
        advance-IsAway pid map_update law nonzero (p.local d) v p.maps (away d) in
      (
        subst (λ u. HasEntries pid u (advance map_update (p.local d) p.maps).1) unmoved
            (advance-HasEntries pid map_update law nonzero (p.local d) v p.maps h),
        λ i. elim (Bool-cases (d == i)) [ inl here ↦ rw here gone | inr there ↦ rw there (away i) ],
      )

  on_events-Rests :
      (v : Entries) (p : Processors) (es : List Event)
      → All (IsQuiet pid) es
      → Rests v p
      → Rests v (on_events map_update p es)
  unfolding on_events
  on_events-Rests v p [] quiet h = h
  on_events-Rests v p (e ∷ es) quiet h =
      on_events-Rests v (on_event map_update p e) es quiet.1 (on_event-Rests v p e quiet.0 h)

  -- A run, with the operations of other processors in between.
  run-Rests :
      (v : Entries) (p : Processors) (r : Run)
      → IsAlone pid r
      → Rests v p
      → Rests (outlook pid (enter r.switch) v) (
          on_events map_update
            (on_events map_update (on_event map_update p (begin r.cpu r.switch)) r.during)
            r.after)
  run-Rests v p r alone (h, away) =
      let goal = outlook pid (enter r.switch) v in
      let p' = on_events map_update (on_event map_update p (begin r.cpu r.switch)) r.during in
      let (u, h', same, few, others) =
        on_events-Keeps pid map_update law nonzero r.cpu goal 7
          (on_event map_update p (begin r.cpu r.switch)) r.during alone.apart
          (entered-Keeps pid map_update law nonzero r.cpu r.switch p v h (λ d _. away d)) in
      let done = left-idle pid (p'.local r.cpu) (omega (arith, few, alone.finished)) in
      let is_goal : u ≡ goal = ap (λ l. outlook pid l u) (sym done) ∙ same in
      on_events-Rests goal p' r.after alone.quiet (
        subst (λ w. HasEntries pid w p'.maps) is_goal h',
        λ d. elim (Bool-cases (r.cpu == d)) [
          | inl own ↦
              subst (λ i. IsAway pid (p'.local i)) ((==_iff r.cpu d).0 own)
                (subst (IsAway pid) (sym done) tt)
          | inr other ↦ others d other
        ],
      )

  runs-HasEntries :
      (v : Entries) (p : Processors) (b : BpfCpuTracker) (rs : List Run)
      → All (IsAlone pid) rs
      → Rests v p
      → HasEntries pid v b
      → (u : Entries) × HasEntries pid u (on_events map_update p (events_of rs)).maps
        × HasEntries pid u (switches map_update (map (λ r. r.switch) rs) b)
  unfolding switches on_events
  runs-HasEntries v p b [] alone (h, away) k = (v, h, k)
  runs-HasEntries v p b (r ∷ rs) alone h k =
      let begun = on_event map_update p (begin r.cpu r.switch) in
      let (u, found, same) =
        runs-HasEntries (outlook pid (enter r.switch) v)
          (on_events map_update (on_events map_update begun r.during) r.after)
          (handle_sched_switch map_update b r.switch) rs alone.1 (run-Rests v p r alone.0 h)
          (handle_sched_switch-HasEntries pid map_update law nonzero r.switch v b k) in
      let split =
        on_events-append begun r.during (r.after ++ events_of rs)
        ∙ on_events-append (on_events map_update begun r.during) r.after (events_of rs) in
      (u, subst (λ q. HasEntries pid u q.maps) (sym split) found, same)

  -- The program runs on several processors, and the operations of its runs come in any order, but
  -- the runs about a process do not overlap: each makes its operations, at most seven, before the
  -- next begins. Then the entries of the process, once it has all three, are afterwards as if the
  -- runs came one after the other and undisturbed.
  pub on_events-linear :
      (p : Processors) (v : Entries) (rs : List Run)
      → HasEntries pid v p.maps
      → AllAway pid p
      → All (IsAlone pid) rs
      → (Map.lookup pid (on_events map_update p (events_of rs)).maps.task_runtime
          ≡ Map.lookup pid (switches map_update (map (λ r. r.switch) rs) p.maps).task_runtime)
        × (Map.lookup pid (on_events map_update p (events_of rs)).maps.task_start
            ≡ Map.lookup pid (switches map_update (map (λ r. r.switch) rs) p.maps).task_start)
        × (Map.lookup pid (on_events map_update p (events_of rs)).maps.task_birth
            ≡ Map.lookup pid (switches map_update (map (λ r. r.switch) rs) p.maps).task_birth)
  on_events-linear p v rs h away alone =
      let (u, found, same) = runs-HasEntries v p p.maps rs alone (h, away) h in
      (
        found.runtime_is ∙ sym same.runtime_is,
        found.start_is ∙ sym same.start_is,
        found.birth_is ∙ sym same.birth_is,
      )
