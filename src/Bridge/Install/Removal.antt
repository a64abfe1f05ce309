-- ===== src/Bridge/Install/Removal.antt =====
-- `uninstall` of bridge/src/install.rs after `install`: what is left of the manifests.
use bssl_ram.Prelude.{
  ◌≡◌, Bool, true, false, not, ◌&&◌, sym, Option, none, List, [], ◌∷◌, arith, In, All, Option-cases,
  inl, inr, if◌then◌else◌,
}
use mathlib.Core.Path.{subst}
use bssl_ram.Prelude.Map
use bssl_ram.Prelude.Map.{lookup-insert, lookup-remove}
use bssl_ram.Prelude.Text.{Text, text_eq, beq_text_iff}
use bssl_ram.Bridge.Install.{
  Flavor, FileSystem, Os, Outcome, finished, target_dirs, install, chrome_origins, uninstall,
}
use bssl_ram.Bridge.Install.Files.{
  paths_of, files_of, among, is_some, Permits, uninstall_all-finished, lookup-uninstall_all,
  lookup-install_all, install_all-written, install_all-targets, install_all-dirs,
  uninstall_all-dirs,
}

among→In : (p : Text) (xs : List Text) → among p xs ≡ true → In p xs
among→In p [] h = cc
among→In p (x ∷ xs) h = ground (arith, beq_text_iff x p, among→In p xs)

among-included :
    (xs ys : List Text)
    → ((p : Text) → (among p xs && not (among p ys)) ≡ false)
    → All (λ x. In x ys) xs
among-included [] ys h = tt
among-included (x ∷ xs) ys h = (
  among→In x ys (ground (arith, h x, beq_text_iff x x)),
  among-included xs ys (λ p. ground (arith, h p)),
)

module _ (os : Os) (fs : FileSystem) (user : Bool) (chrome_ext_id : Option Text) where
  abbrev pub targets : List (Text × Flavor)
  targets = target_dirs os.home user

  abbrev pub after_install : FileSystem × Outcome
  after_install = install os fs user chrome_ext_id

  abbrev pub after_uninstall : FileSystem × Outcome
  after_uninstall = uninstall os after_install.0 user

  install-lookup :
      (p : Text)
      → (among p (files_of targets) ≡ false
          → Map.lookup p after_install.0.files ≡ Map.lookup p fs.files)
        × ((among p (paths_of after_install.1)
              && not (is_some (Map.lookup p after_install.0.files)))
            ≡ false)
        × ((among p (paths_of after_install.1) && not (among p (files_of targets))) ≡ false)
  unfolding install
  install-lookup p = elim (Option-cases os.current_exe) [
    | inl e ↦ ground (arith, e)
    | inr (exe, e) ↦ ground (
      arith,
      e,
      lookup-install_all os p exe (chrome_origins chrome_ext_id) fs targets [],
      install_all-written os p exe (chrome_origins chrome_ext_id) fs targets [],
      install_all-targets os p exe (chrome_origins chrome_ext_id) fs targets [],
    )
  ]

  install-dirs : (d : Text) → among d fs.dirs ≡ true → among d after_install.0.dirs ≡ true
  unfolding install
  install-dirs d h = elim (Option-cases os.current_exe) [
    | inl e ↦ ground (arith, e, h)
    | inr (exe, e) ↦
        ground (arith, e, h, install_all-dirs os d exe (chrome_origins chrome_ext_id) fs targets [])
  ]

  -- An uninstallation that is refused nothing finishes after any installation, also one that
  -- stopped at an error: it has removed every file that the installation wrote, no manifest is left
  -- at a target, and every other file is as it was before the installation. The directories are not
  -- taken back: they are those that the installation left, with all that were there before.
  pub uninstall-install :
      (p : Text)
      → Permits os targets
      → (after_uninstall.1 ≡ finished (paths_of after_uninstall.1))
        × All (λ file. In file (paths_of after_uninstall.1)) (paths_of after_install.1)
        × (Map.lookup p after_uninstall.0.files
            ≡ (if among p (files_of targets) then none else Map.lookup p fs.files))
        × (after_uninstall.0.dirs ≡ after_install.0.dirs)
        × (among p fs.dirs ≡ true → among p after_uninstall.0.dirs ≡ true)
  unfolding uninstall
  uninstall-install p h =
      let kept : after_uninstall.0.dirs ≡ after_install.0.dirs =
        uninstall_all-dirs os after_install.0 targets [] in
      (
        uninstall_all-finished os after_install.0 targets [] h,
        among-included (paths_of after_install.1) (paths_of after_uninstall.1) (λ q.
            ground
              (arith, install-lookup q, lookup-uninstall_all os q after_install.0 targets [] h)),
        ground (arith, install-lookup p, lookup-uninstall_all os p after_install.0 targets [] h),
        kept,
        λ there. subst (λ ds. among p ds ≡ true) (sym kept) (install-dirs p there),
      )
