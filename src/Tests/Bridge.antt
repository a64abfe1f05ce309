-- ===== src/Tests/Bridge.antt =====
-- A report through the bridge (bridge/src/main.rs) to the server of daemon/src/signals.rs, and an
-- installation of its manifests (bridge/src/install.rs).
use bssl_ram.Prelude.{
  ◌≡◌, refl, true, false, none, some, List, [], ◌∷◌, ◌++◌, map, In, All, if◌then◌else◌,
}
use bssl_ram.Prelude.Map
use bssl_ram.Prelude.Text.{Text, text, text_eq}
use bssl_ram.Bridge.Install.{FileSystem, Os, finished, target_dirs}
use bssl_ram.Bridge.Install.Files.{paths_of, files_of, among, Permits}
use bssl_ram.Bridge.Install.Removal.{targets, after_install, after_uninstall, uninstall-install}
use bssl_ram.Bridge.Client.{Hyper}
use bssl_ram.Bridge.Nmh
use bssl_ram.Bridge.Nmh.{to_ne_bytes, read_frame}
use bssl_ram.Bridge.Session.{Bridge, run}
use bssl_ram.Bridge.Session.Admission.{IsAnswered, RejectsWithError, answer, daemon, respond-ok_iff}
use bssl_ram.Bridge.Session.Conversation.{StartsWith, conversation, turns_of, run-conversation}
use bssl_ram.Bridge.Session.Replies.{bridge_of, put_frames}
use bssl_ram.Signals.{SignalStore}
use bssl_ram.Signals.Server.{Axum, extracted}
use bssl_ram.Tests.Json.{
  Value, kind_frame, nothing, characters, fields, end, field, small_json, small_json-IsJson,
}
use bssl_ram.Tests.Signals.{report, empty_store}

abbrev axum : Axum Value
axum = record {
  extract = λ limit req. extracted report;
  header = λ req name. none;
  respond_json = λ v. record { status = 200; body = some [] };
  no_route = λ req. record { status = 404; body = some [] };
}

axum-RejectsWithError : RejectsWithError axum
axum-RejectsWithError limit req status e = cc e

abbrev report_frame : Value
report_frame =
    fields (field (text "kind") (characters (text "report")) (field (text "payload") nothing end))

abbrev origin : Text
origin = text "bssl-ram-signals@bssl.io"

respond-ok_iff_example :
    IsAnswered small_json axum
      (λ s. true)
      (λ e. [])
      (text "0.4.0")
      10
      5000
      empty_store
      report_frame
      origin
      (123 ∷ 125 ∷ [])
      (answer small_json axum
        (λ s. true)
        (λ e. [])
        (text "0.4.0")
        10
        5000
        empty_store
        report_frame
        origin
        (123 ∷ 125 ∷ []))
respond-ok_iff_example =
    respond-ok_iff small_json axum (λ s. true) (λ e. []) (text "0.4.0") 10 5000 empty_store
      report_frame origin (123 ∷ 125 ∷ []) small_json-IsJson axum-RejectsWithError refl refl refl

-- A home in which the installer may do everything.
abbrev os : Os
os = record {
  home = some (text "/home/u");
  current_exe = some (text "/usr/bin/bssl-ram-bridge");
  refuses_dir = λ dir. false;
  refuses_write = λ file. false;
  refuses_remove = λ file. false;
  to_vec_pretty = λ m. some (text "{}");
}

abbrev home : FileSystem
home = record { dirs = []; files = (text "/home/u/notes", text "x") ∷ [] }

permits : Permits os (target_dirs os.home true)
unfolding target_dirs
permits = (refl, (refl, (refl, (refl, (refl, (refl, (refl, (refl, (refl, tt)))))))))

uninstall-install_example :
    ((after_uninstall os home true none).1
      ≡ finished (paths_of (after_uninstall os home true none).1))
    × All
        (λ file. In file (paths_of (after_uninstall os home true none).1))
        (paths_of (after_install os home true none).1)
    × (Map.lookup (text "/home/u/notes") (after_uninstall os home true none).0.files ≡ (
        if among (text "/home/u/notes") (files_of (targets os home true none))
        then none
        else Map.lookup (text "/home/u/notes") home.files))
    × ((after_uninstall os home true none).0.dirs ≡ (after_install os home true none).0.dirs)
    × (among (text "/home/u/notes") home.dirs ≡ true
        → among (text "/home/u/notes") (after_uninstall os home true none).0.dirs ≡ true)
uninstall-install_example = uninstall-install os home true none (text "/home/u/notes") permits

-- A session of two frames, the second after the daemon is gone.
abbrev hyper : Hyper SignalStore
hyper = daemon small_json axum (λ s. true) (λ e. []) (text "0.4.0") 10 5000

abbrev session : Bridge SignalStore
session = record {
  client = record { sender = empty_store; closed = false };
  stdin = to_ne_bytes 6 ++ (text "report" ++ (to_ne_bytes 4 ++ text "ping"));
  stdout = [];
}

abbrev messages : List (Value × (SignalStore → SignalStore))
messages = (kind_frame (text "report"), λ s. s) ∷ (kind_frame (text "ping"), λ s. s) ∷ []

two_frames : StartsWith small_json session.stdin (map (λ f. f.0) messages)
unfolding read_frame Nmh.read_body
two_frames = (to_ne_bytes 4 ++ text "ping", refl, ([], refl, tt))

run-conversation_example :
    (bridge_of hyper small_json
      (text "0.4.0")
      (run hyper small_json (text "0.4.0") session origin (turns_of messages))).stdout
    ≡ put_frames small_json []
        (conversation hyper small_json (text "0.4.0") session.client origin messages)
run-conversation_example =
    run-conversation hyper small_json (text "0.4.0") session origin messages two_frames
