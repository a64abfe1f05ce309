-- ===== src/Bridge/Install/Files.antt =====
-- The loops of `install` and `uninstall` (bridge/src/install.rs), path by path.
use bssl_ram.Prelude.{
  ℕ, ◌≡◌, refl, ap, Bool, true, false, not, ◌&&◌, ◌||◌, Option, none, some, List, [], ◌∷◌, ◌++◌,
  map, arith, any, All, Option-cases, inl, inr, if◌then◌else◌,
}
use bssl_ram.Prelude.Map
use bssl_ram.Prelude.Map.{lookup-insert, lookup-remove}
use bssl_ram.Prelude.Text.{Text, text_eq, beq_text, beq_text_iff}
use bssl_ram.Bridge.Install.{
  Flavor, FileSystem, Os, Outcome, finished, stopped, file_of, manifest_for, write_manifest,
  install_all, uninstall_all, with_dir, with_file,
}

abbrev pub paths_of : Outcome → List Text
paths_of (finished paths) = paths
paths_of (stopped e paths) = paths

abbrev pub files_of : List (Text × Flavor) → List Text
files_of dirs = map (λ d. file_of d.0) dirs

abbrev pub among : Text → List Text → Bool
among p files = any (λ f. beq_text f p) files

abbrev pub is_some : Option (List ℕ) → Bool
is_some none = false
is_some (some body) = true

among-append :
    (p : Text) (xs : List Text) (f : Text) → among p (xs ++ f ∷ []) ≡ (among p xs || beq_text f p)
among-append p [] f = ground arith
among-append p (x ∷ xs) f = ground (arith, among-append p xs f)

-- No path is refused.
abbrev pub Permits : Os → List (Text × Flavor) → Type 0
Permits os dirs = All (λ d. os.refuses_remove (file_of d.0) ≡ false) dirs

module _ (os : Os) where
  pub uninstall_all-finished :
      (fs : FileSystem) (dirs : List (Text × Flavor)) (removed : List Text)
      → Permits os dirs
      → (uninstall_all os fs dirs removed).1
        ≡ finished (paths_of (uninstall_all os fs dirs removed).1)
  unfolding uninstall_all
  uninstall_all-finished fs [] removed h = refl
  uninstall_all-finished fs ((dir, flavor) ∷ dirs) removed h =
      elim (Option-cases (Map.lookup (file_of dir) fs.files)) [
        | inl e ↦ ground (arith, h, e, uninstall_all-finished fs dirs removed h.1)
        | inr (body, e) ↦ ground (
          arith,
          h,
          e,
          uninstall_all-finished (record fs { files = Map.remove (file_of dir) fs.files }) dirs
              (removed ++ file_of dir ∷ []) h.1,
        )
      ]

  pub uninstall_all-dirs :
      (fs : FileSystem) (dirs : List (Text × Flavor)) (removed : List Text)
      → (uninstall_all os fs dirs removed).0.dirs ≡ fs.dirs
  unfolding uninstall_all
  uninstall_all-dirs fs [] removed = refl
  uninstall_all-dirs fs ((dir, flavor) ∷ dirs) removed =
      elim (Option-cases (Map.lookup (file_of dir) fs.files)) [
        | inl e ↦ ground (arith, e, uninstall_all-dirs fs dirs removed)
        | inr (body, e) ↦ ground (
          arith,
          e,
          uninstall_all-dirs (record fs { files = Map.remove (file_of dir) fs.files }) dirs
              (removed ++ file_of dir ∷ []),
        )
      ]

  module _ (p : Text) where
    pub lookup-uninstall_all :
        (fs : FileSystem) (dirs : List (Text × Flavor)) (removed : List Text)
        → Permits os dirs
        → (Map.lookup p (uninstall_all os fs dirs removed).0.files
            ≡ (if among p (files_of dirs) then none else Map.lookup p fs.files))
          × (among p (paths_of (uninstall_all os fs dirs removed).1)
              ≡ (among p removed || (among p (files_of dirs) && is_some (Map.lookup p fs.files))))
    unfolding uninstall_all
    lookup-uninstall_all fs [] removed h = ground arith
    lookup-uninstall_all fs ((dir, flavor) ∷ dirs) removed h =
        let fs' : FileSystem = record fs { files = Map.remove (file_of dir) fs.files } in
        let same : beq_text (file_of dir) p ≡ true
            → Map.lookup (file_of dir) fs.files ≡ Map.lookup p fs.files =
          λ b. ap (λ q. Map.lookup q fs.files) ((beq_text_iff (file_of dir) p).0 b) in
        elim (Option-cases (Map.lookup (file_of dir) fs.files)) [
          | inl e ↦ ground (arith, h, e, same, lookup-uninstall_all fs dirs removed h.1)
          | inr (body, e) ↦ ground (
            arith,
            h,
            e,
            same,
            lookup-uninstall_all fs' dirs (removed ++ file_of dir ∷ []) h.1,
            lookup-remove (file_of dir) p fs.files,
            among-append p removed (file_of dir),
          )
        ]

    module _ (exe : Text) (origins : List Text) where
      -- No directory is taken away.
      pub install_all-dirs :
          (fs : FileSystem) (dirs : List (Text × Flavor)) (written : List Text)
          → among p fs.dirs ≡ true
          → among p (install_all os exe origins fs dirs written).0.dirs ≡ true
      unfolding install_all write_manifest
      install_all-dirs fs [] written h = h
      install_all-dirs fs ((dir, flavor) ∷ dirs) written h =
          elim (Option-cases (manifest_for exe origins flavor)) [
            | inl e ↦ ground (arith, h, e, install_all-dirs (with_dir fs dir) dirs written)
            | inr (manifest, e) ↦ elim (Option-cases (os.to_vec_pretty manifest)) [
              | inl unencoded ↦ ground (arith, h, e, unencoded)
              | inr (body, encoded) ↦ ground (
                arith,
                h,
                e,
                encoded,
                install_all-dirs (with_file (with_dir fs dir) (file_of dir) body) dirs
                    (written ++ file_of dir ∷ []),
              )
            ]
          ]

      pub lookup-install_all :
          (fs : FileSystem) (dirs : List (Text × Flavor)) (written : List Text)
          → among p (files_of dirs) ≡ false
          → Map.lookup p (install_all os exe origins fs dirs written).0.files
            ≡ Map.lookup p fs.files
      unfolding install_all write_manifest
      lookup-install_all fs [] written h = refl
      lookup-install_all fs ((dir, flavor) ∷ dirs) written h =
          elim (Option-cases (manifest_for exe origins flavor)) [
            | inl e ↦ ground (arith, h, e, lookup-install_all (with_dir fs dir) dirs written)
            | inr (manifest, e) ↦ elim (Option-cases (os.to_vec_pretty manifest)) [
              | inl unencoded ↦ ground (arith, h, e, unencoded)
              | inr (body, encoded) ↦ ground (
                arith,
                h,
                e,
                encoded,
                lookup-install_all (with_file (with_dir fs dir) (file_of dir) body) dirs
                    (written ++ file_of dir ∷ []),
                lookup-insert (file_of dir) p body fs.files,
              )
            ]
          ]

      -- A path that was written is one of the targets, and there is a file at it.
      pub install_all-written :
          (fs : FileSystem) (dirs : List (Text × Flavor)) (written : List Text)
          → (among p written && not (is_some (Map.lookup p fs.files))) ≡ false
          → (among p (paths_of (install_all os exe origins fs dirs written).1)
              && not (is_some (Map.lookup p (install_all os exe origins fs dirs written).0.files)))
            ≡ false
      unfolding install_all write_manifest
      install_all-written fs [] written h = h
      install_all-written fs ((dir, flavor) ∷ dirs) written h =
          elim (Option-cases (manifest_for exe origins flavor)) [
            | inl e ↦ ground (arith, h, e, install_all-written (with_dir fs dir) dirs written)
            | inr (manifest, e) ↦ elim (Option-cases (os.to_vec_pretty manifest)) [
              | inl unencoded ↦ ground (arith, h, e, unencoded)
              | inr (body, encoded) ↦ ground (
                arith,
                h,
                e,
                encoded,
                install_all-written (with_file (with_dir fs dir) (file_of dir) body) dirs
                    (written ++ file_of dir ∷ []),
                lookup-insert (file_of dir) p body fs.files,
                among-append p written (file_of dir),
              )
            ]
          ]

      pub install_all-targets :
          (fs : FileSystem) (dirs : List (Text × Flavor)) (written : List Text)
          → (among p (paths_of (install_all os exe origins fs dirs written).1)
              && not (among p written || among p (files_of dirs)))
            ≡ false
      unfolding install_all write_manifest
      install_all-targets fs [] written = ground arith
      install_all-targets fs ((dir, flavor) ∷ dirs) written =
          elim (Option-cases (manifest_for exe origins flavor)) [
            | inl e ↦ ground (arith, e, install_all-targets (with_dir fs dir) dirs written)
            | inr (manifest, e) ↦ elim (Option-cases (os.to_vec_pretty manifest)) [
              | inl unencoded ↦ ground (arith, e, unencoded)
              | inr (body, encoded) ↦ ground (
                arith,
                e,
                encoded,
                install_all-targets (with_file (with_dir fs dir) (file_of dir) body) dirs
                    (written ++ file_of dir ∷ []),
                among-append p written (file_of dir),
              )
            ]
          ]
