-- ===== src/Table/Reseed.antt =====
-- `reseed_drift_correction` of daemon/src/process_table.rs: with no event in between, it leaves for
-- each live PID the record it had, or else its class, and for each dead PID nothing.
use bssl_ram.Prelude.{
  ℕ, ◌≡◌, refl, ap, Bool, true, false, not, ◌&&◌, Bool-cases, Option-cases, inl, inr, Option, none,
  some, List, [], ◌∷◌, arith, ◌==◌, ==_iff, if◌then◌else◌, nat_eq,
}
use bssl_ram.Prelude.Map
use bssl_ram.Prelude.Map.{keys, lookup-insert, lookup-remove}
use bssl_ram.Prelude.Text.{Text}
use bssl_ram.Scanner.{BrowserProfile, ProcDir}
use bssl_ram.Table.{
  ProcessRecord, ProcessTable, Cmdline, classify_pid, contains, live_pids, difference, find_drift,
  classify_all, drop_phantoms, insert_records, correct_drift, reseed_drift_correction,
}

abbrev pub is_some {ℓ} : {A : Type ℓ} → Option A → Bool
is_some none = false
is_some (some a) = true

pub contains-keys :
    (table : ProcessTable) (pid : ℕ) → contains (keys table) pid ≡ is_some (Map.lookup pid table)
unfolding Map.lookup
contains-keys [] pid = refl
contains-keys ((j, r) ∷ table) pid = ground (arith, contains-keys table pid)

pub contains-difference :
    (a b : List ℕ) (pid : ℕ)
    → contains (difference a b) pid ≡ (contains a pid && not (contains b pid))
unfolding difference
contains-difference [] b pid = refl
contains-difference (x ∷ a) b pid = elim (Bool-cases (x == pid)) [
  | inl same ↦ ground (arith, contains-difference a b pid, ap (contains b) ((==_iff x pid).0 same))
  | inr other ↦ ground (arith, contains-difference a b pid)
]

pub lookup-drop_phantoms :
    (pids : List ℕ) (table : ProcessTable) (pid : ℕ)
    → Map.lookup pid (drop_phantoms pids table).0
      ≡ (if contains pids pid then none else Map.lookup pid table)
unfolding drop_phantoms
lookup-drop_phantoms [] table pid = refl
lookup-drop_phantoms (p ∷ pids) table pid =
    ground (arith, lookup-drop_phantoms pids (Map.remove p table) pid, lookup-remove p pid table)

module _ (profiles : List BrowserProfile) (cmdline : Cmdline) where
  -- A class that is found replaces what is there.
  abbrev pub or_class : ℕ → Option ProcessRecord → Option ProcessRecord
  or_class pid before = elim (classify_pid profiles cmdline pid) [ none ↦ before | some r ↦ some r ]

  pub lookup-insert_records :
      (pids : List ℕ) (table : ProcessTable) (pid : ℕ)
      → Map.lookup pid (insert_records (classify_all profiles cmdline pids) table)
        ≡ (if contains pids pid then or_class pid (Map.lookup pid table) else Map.lookup pid table)
  unfolding insert_records classify_all
  lookup-insert_records [] table pid = refl
  lookup-insert_records (p ∷ pids) table pid =
      elim (Option-cases (classify_pid profiles cmdline p)) [
        | inl e ↦ ground (arith, lookup-insert_records pids table pid)
        | inr (r, e) ↦ ground (
          arith,
          lookup-insert_records pids (Map.insert p r table) pid,
          lookup-insert p pid r table,
        )
      ]

  lookup-correct_drift :
      (names : List Text) (table : ProcessTable) (pid : ℕ)
      → Map.lookup pid (correct_drift (find_drift profiles cmdline names table) table).0 ≡ (
          if contains (live_pids names) pid
          then (elim (Map.lookup pid table) [
            | none ↦ classify_pid profiles cmdline pid
            | some r ↦ some r
          ])
          else none)
  unfolding correct_drift find_drift
  lookup-correct_drift names table pid =
      let live = live_pids names in
      let existing = keys table in
      ground (
        arith,
        lookup-insert_records (difference live existing)
            (drop_phantoms (difference existing live) table).0 pid,
        lookup-drop_phantoms (difference existing live) table pid,
        contains-difference live existing pid,
        contains-difference existing live pid,
        contains-keys table pid,
      )

-- A reconciliation with a listing of /proc leaves, for a PID that is listed, the record it had, or
-- else the class of its command line, and for any other PID nothing: no phantom stays and no
-- matching newcomer is missed. If /proc cannot be listed, the table stays as it is.
pub lookup-reseed :
    (profiles : List BrowserProfile) (proc : ProcDir) (table : ProcessTable) (pid : ℕ)
    → Map.lookup pid (reseed_drift_correction profiles proc table).0 ≡ elim proc.names [
      | none ↦ Map.lookup pid table
      | some names ↦
          if contains (live_pids names) pid
          then (elim (Map.lookup pid table) [
            | none ↦ classify_pid profiles proc.cmdline pid
            | some r ↦ some r
          ])
          else none
    ]
unfolding reseed_drift_correction
lookup-reseed profiles proc table pid = listed proc.names
  where
    listed :
        (o : Option (List Text))
        → Map.lookup pid
            (elim o as (λ _. ProcessTable × ℕ × ℕ) [
              | none ↦ (table, 0, 0)
              | some names ↦ correct_drift (find_drift profiles proc.cmdline names table) table
            ]).0
          ≡ elim o [
            | none ↦ Map.lookup pid table
            | some names ↦
                if contains (live_pids names) pid
                then (elim (Map.lookup pid table) [
                  | none ↦ classify_pid profiles proc.cmdline pid
                  | some r ↦ some r
                ])
                else none
          ]
    listed none = refl
    listed (some names) = lookup-correct_drift profiles proc.cmdline names table pid
