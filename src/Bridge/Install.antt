-- ===== src/Bridge/Install.antt =====
-- bridge/src/install.rs: where the manifests of the bridge go, and how they are written and
-- removed. A path is its text.
pub mod Files
pub mod Removal
use bssl_ram.Prelude.{
  ℕ, Bool, true, false, Option, none, some, List, [], ◌∷◌, ◌++◌, map, get_last, is_empty, ◌==◌,
  if◌then◌else◌,
}
use bssl_ram.Prelude.Map
use bssl_ram.Prelude.Map.{Map}
use bssl_ram.Prelude.Text.{Text, text, text_eq}

abbrev pub nmh_name : Text
nmh_name = text "io.bssl.ram"

abbrev pub nmh_description : Text
nmh_description = text "bssl-ram browser signals bridge"

abbrev pub firefox_ext_id : Text
firefox_ext_id = text "bssl-ram-signals@bssl.io"

pub data Flavor : Type 0 where
  chrome firefox : Flavor

-- `ChromeManifest` and `FirefoxManifest`
pub data Manifest : Type 0 where
  chrome_manifest firefox_manifest :
      (name description path kind : Text) (allowed : List Text) → Manifest

-- `Path::join`, of a relative path.
abbrev pub join : Text → Text → Text
join dir sub = elim (get_last dir) [
  | none ↦ sub
  | some c ↦ if c == 47 then dir ++ sub else dir ++ 47 ∷ sub
]

abbrev pub chrome_subs : List Text
chrome_subs =
    text ".config/google-chrome/NativeMessagingHosts"
    ∷ text ".config/chromium/NativeMessagingHosts"
    ∷ text ".config/BraveSoftware/Brave-Browser/NativeMessagingHosts"
    ∷ text ".config/microsoft-edge/NativeMessagingHosts"
    ∷ text ".config/opera/NativeMessagingHosts"
    ∷ text ".config/vivaldi/NativeMessagingHosts"
    ∷ []

abbrev pub firefox_subs : List Text
firefox_subs =
    text ".mozilla/native-messaging-hosts"
    ∷ text ".librewolf/native-messaging-hosts"
    ∷ text ".waterfox/native-messaging-hosts"
    ∷ []

-- `target_dirs`, with the value of HOME.
unfoldable pub target_dirs : Option Text → Bool → List (Text × Flavor)
target_dirs none true = []
target_dirs (some h) true =
    map (λ sub. (join h sub, chrome)) chrome_subs ++ map (λ sub. (join h sub, firefox)) firefox_subs
target_dirs home false =
    (text "/etc/opt/chrome/native-messaging-hosts", chrome)
    ∷ (text "/etc/chromium/native-messaging-hosts", chrome)
    ∷ (text "/usr/lib/mozilla/native-messaging-hosts", firefox)
    ∷ (text "/usr/lib64/mozilla/native-messaging-hosts", firefox)
    ∷ []

abbrev pub file_of : Text → Text
file_of dir = join dir (nmh_name ++ text ".json")

-- The directories that are there, without the parents of those that the installer creates, and the
-- files.
pub record FileSystem : Type 0 where
  pub dirs : List Text
  pub files : Map Text (List ℕ)

-- The answers of the system: the environment, what it refuses, and the encoding of a manifest.
pub record Os : Type 0 where
  pub home : Option Text
  pub current_exe : Option Text
  pub refuses_dir : Text → Bool
  pub refuses_write : Text → Bool
  pub refuses_remove : Text → Bool
  pub to_vec_pretty : Manifest → Option (List ℕ)

pub data InstallError : Type 0 where
  no_exe serializing : InstallError
  mkdir writing removing : Text → InstallError

-- The paths written or removed, or an error after some of them.
pub data Outcome : Type 0 where
  finished : List Text → Outcome
  stopped : InstallError → List Text → Outcome

abbrev pub with_dir : FileSystem → Text → FileSystem
with_dir fs dir = record fs { dirs = dir ∷ fs.dirs }

abbrev pub with_file : FileSystem → Text → List ℕ → FileSystem
with_file fs file body = record fs { files = Map.insert file body fs.files }

-- The manifest for a directory; none if there is no extension to allow.
unfoldable pub manifest_for : Text → List Text → Flavor → Option Manifest
manifest_for exe origins chrome =
    if is_empty origins
    then none
    else some (chrome_manifest nmh_name nmh_description exe (text "stdio") origins)
manifest_for exe origins firefox =
    some (firefox_manifest nmh_name nmh_description exe (text "stdio") (firefox_ext_id ∷ []))

-- `write_manifest`
unfoldable pub write_manifest : Os → FileSystem → Text → Manifest → FileSystem × Option InstallError
write_manifest os fs file manifest = elim (os.to_vec_pretty manifest) [
  | none ↦ (fs, some serializing)
  | some body ↦
      if os.refuses_write file then (fs, some (writing file)) else (with_file fs file body, none)
]

-- The loop of `install`, with the files written so far.
unfoldable pub install_all :
    Os → Text → List Text → FileSystem → List (Text × Flavor) → List Text → FileSystem × Outcome
install_all os exe origins fs [] written = (fs, finished written)
install_all os exe origins fs ((dir, flavor) ∷ dirs) written =
    if os.refuses_dir dir
    then (fs, stopped (mkdir dir) written)
    else elim (manifest_for exe origins flavor) [
      | none ↦ install_all os exe origins (with_dir fs dir) dirs written
      | some manifest ↦
          let (fs', error) = write_manifest os (with_dir fs dir) (file_of dir) manifest in
          elim error [
            | none ↦ install_all os exe origins fs' dirs (written ++ file_of dir ∷ [])
            | some e ↦ (fs', stopped e written)
          ]
    ]

abbrev pub chrome_origins : Option Text → List Text
chrome_origins none = []
chrome_origins (some id) = (text "chrome-extension://" ++ (id ++ text "/")) ∷ []

unfoldable pub install : Os → FileSystem → Bool → Option Text → FileSystem × Outcome
install os fs user chrome_ext_id = elim os.current_exe [
  | none ↦ (fs, stopped no_exe [])
  | some exe ↦ install_all os exe (chrome_origins chrome_ext_id) fs (target_dirs os.home user) []
]

-- The loop of `uninstall`, with the files removed so far. A file that is not there is passed over.
unfoldable pub uninstall_all :
    Os → FileSystem → List (Text × Flavor) → List Text → FileSystem × Outcome
uninstall_all os fs [] removed = (fs, finished removed)
uninstall_all os fs ((dir, flavor) ∷ dirs) removed = elim (Map.lookup (file_of dir) fs.files) [
  | none ↦ uninstall_all os fs dirs removed
  | some body ↦
      if os.refuses_remove (file_of dir)
      then (fs, stopped (removing (file_of dir)) removed)
      else uninstall_all os (record fs { files = Map.remove (file_of dir) fs.files }) dirs
          (removed ++ file_of dir ∷ [])
]

unfoldable pub uninstall : Os → FileSystem → Bool → FileSystem × Outcome
uninstall os fs user = uninstall_all os fs (target_dirs os.home user) []
