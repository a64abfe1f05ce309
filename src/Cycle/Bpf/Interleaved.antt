-- ===== src/Cycle/Bpf/Interleaved.antt =====
-- A run of daemon/src/bpf/cpu_tracker.bpf.c about one process while other processors make their
-- operations.
use bssl_ram.Prelude.{
  ℕ, ◌-◌, ◌≡◌, ◌≢◌, ◌≤◌, refl, ◌∙◌, Bool, false, List, [], ◌∷◌, ◌++◌, ◌==◌, ==_iff, Bool-cases, inl,
  inr, arith, if◌then◌else◌, nat_eq, count_if, All,
}
use mathlib.Core.Path.{subst}
use native.Mathlib.Numerals.{unary_clauses}
use bssl_ram.Prelude.Map.{Map}
use bssl_ram.Cycle.Bpf.Concurrent.{
  Local, idle, lookup_start, load_start, lookup_runtime, fetch_and_add, update_runtime,
  update_start, lookup_birth, update_birth, enter, advance, Processors, Event, begin, step,
  on_event, on_events,
}
use bssl_ram.Cycle.Bpf.Entries.{
  Entries, HasEntries, is_about, moved, outlook, left, IsAway, advance-HasEntries, advance-outlook,
  advance-IsAway,
}
use bssl_ram.Cycle.Bpf.Program.{Switch, IsUpdate}

pub left-idle : (pid : ℕ) (l : Local) → left pid l ≤ 0 → l ≡ idle
left-idle pid idle few = refl
left-idle pid (lookup_start s) few = absurd (omega arith)
left-idle pid (load_start s last) few = absurd (omega arith)
left-idle pid (lookup_runtime s delta) few = absurd (omega arith)
left-idle pid (fetch_and_add s delta) few = absurd (omega arith)
left-idle pid (update_runtime s delta) few = absurd (omega arith)
left-idle pid (update_start s) few = absurd (omega arith)
left-idle pid (lookup_birth s) few = absurd (omega arith)
left-idle pid (update_birth s) few = absurd (omega arith)

abbrev pub is_step : ℕ → Event → Bool
is_step cpu (begin d s) = false
is_step cpu (step d) = cpu == d

-- A run of the program on one processor, with what comes until it has made its operations, and
-- what comes after that up to the next run about the process.
pub record Run : Type 0 where
  pub cpu : ℕ
  pub switch : Switch
  pub during : List Event
  pub after : List Event

abbrev pub events_of : List Run → List Event
events_of [] = []
events_of (r ∷ rs) = begin r.cpu r.switch ∷ (r.during ++ (r.after ++ events_of rs))

module _ (pid : ℕ) where
  -- The events of other processors, and those that the processor makes its operations in.
  abbrev pub IsApart : ℕ → Event → Type 0
  IsApart cpu (begin d s) = ((cpu == d) ≡ false) × (is_about pid s ≡ false)
  IsApart cpu (step d) = Unit

  -- An event that begins no run about the process.
  abbrev pub IsQuiet : Event → Type 0
  IsQuiet (begin d s) = is_about pid s ≡ false
  IsQuiet (step d) = Unit

  abbrev pub OthersAway : ℕ → Processors → Type 0
  OthersAway cpu p = (d : ℕ) → (cpu == d) ≡ false → IsAway pid (p.local d)

  abbrev pub AllAway : Processors → Type 0
  AllAway p = (d : ℕ) → IsAway pid (p.local d)

  -- The run makes all of its operations before the next run about the process begins.
  pub record IsAlone (r : Run) : Type 0 where
    pub apart : All (IsApart r.cpu) r.during
    pub finished : 7 ≤ count_if (is_step r.cpu) r.during
    pub quiet : All IsQuiet r.after

  pub enter-IsAway : (s : Switch) → is_about pid s ≡ false → IsAway pid (enter s)
  unfolding enter
  enter-IsAway s a = ground arith

  -- The entries are such that the processor, if it goes on, leaves the same as before.
  abbrev pub Keeps : ℕ → Entries → ℕ → Processors → Type 0
  Keeps cpu goal n p =
      (v : Entries) × HasEntries pid v p.maps
      × (outlook pid (p.local cpu) v ≡ goal)
      × (left pid (p.local cpu) ≤ n)
      × OthersAway cpu p

  module _ (map_update : ℕ → ℕ → Map ℕ ℕ → Map ℕ ℕ) (law : IsUpdate map_update)
      (nonzero : pid ≢ 0) where
    own_step-Keeps :
        (cpu : ℕ) (goal : Entries) (n : ℕ) (p : Processors)
        → Keeps cpu goal n p
        → Keeps cpu goal (n - 1) (on_event map_update p (step cpu))
    unfolding on_event
    own_step-Keeps cpu goal n p (v, h, same, few, away) =
        let l = p.local cpu in
        let (kept, fewer) = advance-outlook pid map_update law nonzero l v p.maps h in
        let self = (==_iff cpu cpu).1 refl in
        (
          moved pid l v,
          advance-HasEntries pid map_update law nonzero l v p.maps h,
          rw self (kept ∙ same),
          rw self (omega (arith, fewer, few)),
          λ i other. rw other (away i other),
        )

    other_step-Keeps :
        (cpu d : ℕ) (goal : Entries) (n : ℕ) (p : Processors)
        → (cpu == d) ≡ false
        → Keeps cpu goal n p
        → Keeps cpu goal n (on_event map_update p (step d))
    unfolding on_event
    other_step-Keeps cpu d goal n p other (v, h, same, few, away) =
        let (gone, unmoved) =
          advance-IsAway pid map_update law nonzero (p.local d) v p.maps (away d other) in
        let apart : (d == cpu) ≡ false = ground (arith, other) in
        (
          v,
          subst (λ u. HasEntries pid u (advance map_update (p.local d) p.maps).1) unmoved
              (advance-HasEntries pid map_update law nonzero (p.local d) v p.maps h),
          rw apart same,
          rw apart few,
          λ i differs. elim (Bool-cases (d == i)) [
            | inl here ↦ rw here gone
            | inr there ↦ rw there (away i differs)
          ],
        )

    on_event-Keeps :
        (cpu : ℕ) (goal : Entries) (n : ℕ) (p : Processors) (e : Event)
        → IsApart cpu e
        → Keeps cpu goal n p
        → Keeps cpu goal (n - (if is_step cpu e then 1 else 0)) (on_event map_update p e)
    unfolding on_event
    on_event-Keeps cpu goal n p (begin d s) a (v, h, same, few, away) = (
      v,
      h,
      ground (arith, a, same),
      ground (arith, a, few),
      λ i other. elim (Bool-cases (d == i)) [
        | inl here ↦ rw here (enter-IsAway s a.1)
        | inr there ↦ rw there (away i other)
      ],
    )
    on_event-Keeps cpu goal n p (step d) a k = elim (Bool-cases (cpu == d)) [
      | inl own ↦ rw own (
          subst (λ i. Keeps cpu goal (n - 1) (on_event map_update p (step i)))
            ((==_iff cpu d).0 own) (own_step-Keeps cpu goal n p k))
      | inr other ↦ rw other (simp unary_clauses (other_step-Keeps cpu d goal n p other k))
    ]

    pub on_events-Keeps :
        (cpu : ℕ) (goal : Entries) (n : ℕ) (p : Processors) (es : List Event)
        → All (IsApart cpu) es
        → Keeps cpu goal n p
        → Keeps cpu goal (n - count_if (is_step cpu) es) (on_events map_update p es)
    unfolding on_events
    on_events-Keeps cpu goal n p [] a (v, h, same, few, away) =
        (v, h, same, omega (arith, few), away)
    on_events-Keeps cpu goal n p (e ∷ es) a k =
        let (v, h, same, few, away) =
          on_events-Keeps cpu goal (n - (if is_step cpu e then 1 else 0)) (on_event map_update p e)
            es a.1 (on_event-Keeps cpu goal n p e a.0 k) in
        (v, h, same, omega (arith, few), away)

    pub entered-Keeps :
        (cpu : ℕ) (s : Switch) (p : Processors) (v : Entries)
        → HasEntries pid v p.maps
        → OthersAway cpu p
        → Keeps cpu (outlook pid (enter s) v) 7 (on_event map_update p (begin cpu s))
    unfolding on_event
    entered-Keeps cpu s p v h away =
        let self = (==_iff cpu cpu).1 refl in
        (v, h, rw self refl, rw self (few s), λ i other. rw other (away i other))
      where
        few : (s : Switch) → left pid (enter s) ≤ 7
        few s = unfold enter in ground arith
