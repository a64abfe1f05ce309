-- ===== src/Scanner/Walk.antt =====
-- `scan_targets` of daemon/src/scanner.rs: which processes a walk over /proc reports, and by which
-- profile.
use bssl_ram.Prelude.{
  ℕ, ◌≡◌, refl, ap, ◌↔◌, ◌⊎◌, inl, inr, Bool, true, false, Option, none, some, List, [], ◌∷◌, ◌++◌,
  arith, In, All, find, Bool-cases, Option-cases,
}
use mathlib.Core.Option.{some-injective}
use mathlib.Core.Path.{subst, sym}
use bssl_ram.Prelude.Text.{Text}
use bssl_ram.Scanner.{
  BrowserProfile, TargetProcess, ProcDir, parse_pid, parse_cmdline, match_profile, classify,
  scan_entry, scan_entries, scan_targets, cons_some,
}

-- `p` matches, and no profile before it does.
abbrev pub IsFirstMatch : List BrowserProfile → List ℕ → BrowserProfile → Type 0
IsFirstMatch profiles raw p =
    (before : List BrowserProfile) × (after : List BrowserProfile) × (profiles
      ≡ before ++ p ∷ after)
    × All (λ q. match_profile (parse_cmdline raw) q ≡ false) before
    × (match_profile (parse_cmdline raw) p ≡ true)

module _ {A : Type 0} (test : A → Bool) where
  find-split :
      (xs : List A) (x : A)
      → find test xs ≡ some x
      → (before : List A) × (after : List A) × (xs ≡ before ++ x ∷ after)
        × All (λ y. test y ≡ false) before
        × (test x ≡ true)
  find-split [] x h = cc
  find-split (y ∷ ys) x h = elim (Bool-cases (test y)) [
    | inl hit ↦ ([], ys, ground arith, tt, ground arith)
    | inr miss ↦
        let (before, after, e, misses, hit) = find-split ys x (ground arith) in
        (y ∷ before, after, ap (◌∷◌ y) e, (miss, misses), hit)
  ]

  find-append :
      (before : List A) (x : A) (after : List A)
      → All (λ y. test y ≡ false) before
      → test x ≡ true
      → find test (before ++ x ∷ after) ≡ some x
  find-append [] x after misses hit = rw hit
  find-append (y ∷ ys) x after misses hit = rw (misses.0, find-append ys x after misses.1 hit)

classify_iff :
    (profiles : List BrowserProfile) (raw : List ℕ) (p : BrowserProfile)
    → (classify profiles raw ≡ some p) ↔ IsFirstMatch profiles raw p
unfolding classify
classify_iff profiles raw p = (
  find-split (λ q. match_profile (parse_cmdline raw) q) profiles p,
  λ m. rw (m.2) (find-append (λ q. match_profile (parse_cmdline raw) q) m.0 p m.1 m.3 m.4),
)

-- The name is a PID whose command line can be read, and `t` names the first profile that matches.
abbrev pub IsTarget : List BrowserProfile → ProcDir → TargetProcess → Text → Type 0
IsTarget profiles proc t name =
    (raw : List ℕ) × (p : BrowserProfile) × (parse_pid name ≡ some t.pid)
    × (proc.cmdline t.pid ≡ some raw)
    × IsFirstMatch profiles raw p
    × (p.name ≡ t.profile)

abbrev pub Any : (Text → Type 0) → List Text → Type 0
Any P [] = ⊥
Any P (x ∷ xs) = P x ⊎ Any P xs

module _ (profiles : List BrowserProfile) (proc : ProcDir) (t : TargetProcess) where
  entry→target :
      (name : Text) → scan_entry profiles proc name ≡ some t → IsTarget profiles proc t name
  unfolding scan_entry
  entry→target name h = elim (Option-cases (parse_pid name)) [
    | inl e ↦ absurd (ground arith)
    | inr (pid, named) ↦ elim (Option-cases (proc.cmdline pid)) [
      | inl e ↦ absurd (ground arith)
      | inr (raw, read) ↦ elim (Option-cases (classify profiles raw)) [
        | inl e ↦ absurd (ground arith)
        | inr (p, found) ↦
            let same : pid ≡ t.pid = ground arith in
            (
              raw,
              p,
              ground arith,
              rw (← same) read,
              (classify_iff profiles raw p).0 found,
              ground arith,
            )
      ]
    ]
  ]

  target→entry :
      (name : Text) → IsTarget profiles proc t name → scan_entry profiles proc name ≡ some t
  unfolding scan_entry
  target→entry name (raw, p, named, read, first, label) =
      ground (arith, (classify_iff profiles raw p).1 first)

  entries_iff :
      (names : List Text)
      → In t (scan_entries profiles proc names) ↔ Any (IsTarget profiles proc t) names
  unfolding scan_entries
  entries_iff [] = ground arith
  entries_iff (name ∷ names) = cons_iff (scan_entry profiles proc name) refl (entries_iff names)
    where
      cons_iff :
          (o : Option TargetProcess)
          → scan_entry profiles proc name ≡ o
          → In t (scan_entries profiles proc names) ↔ Any (IsTarget profiles proc t) names
          → In t (cons_some o (scan_entries profiles proc names))
            ↔ Any (IsTarget profiles proc t) (name ∷ names)
      cons_iff none e ih = (
        λ i. inr (ih.0 i),
        elim [ inl x ↦ absurd (cc (e, target→entry name x)) | inr y ↦ ih.1 y ],
      )
      cons_iff (some u) e ih = (
        elim [ inl same ↦ inl (entry→target name (cc (e, same))) | inr i ↦ inr (ih.0 i) ],
        elim [ inl x ↦ inl (cc (e, target→entry name x)) | inr y ↦ inr (ih.1 y) ],
      )

  -- A walk reports a process exactly when its entry is a PID, its command line is readable and some
  -- profile matches, and it reports the name of the first that does. No process is reported when
  -- /proc cannot be listed.
  pub scan_targets_iff :
      In t (scan_targets profiles proc)
      ↔ ((names : List Text) × (proc.names ≡ some names) × Any (IsTarget profiles proc t) names)
  unfolding scan_targets
  scan_targets_iff = listed proc.names
    where
      listed :
          (o : Option (List Text))
          → In t (elim o [ none ↦ [] | some names ↦ scan_entries profiles proc names ])
            ↔ ((names : List Text) × (o ≡ some names) × Any (IsTarget profiles proc t) names)
      listed none = (λ i. absurd i, λ x. absurd (cc (x.1)))
      listed (some names) = (
        λ i. (names, refl, (entries_iff names).0 i),
        λ (ns, e, x).
            (entries_iff names).1
              (subst (Any (IsTarget profiles proc t)) (sym (some-injective names ns e)) x),
      )
