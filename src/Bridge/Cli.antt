-- ===== src/Bridge/Cli.antt =====
-- `main` of bridge/src/main.rs: the subcommands, and the bridge without one. The parser of the
-- command line is clap's; what it gives is the argument.
use bssl_ram.Prelude.{ℕ, Bool, Option, none, some, List, []}
use bssl_ram.Prelude.Text.{Text}
use bssl_ram.Http.{Json}
use bssl_ram.Bridge.Client.{Hyper}
use bssl_ram.Bridge.Install
use bssl_ram.Bridge.Install.{FileSystem, Os, Outcome}
use bssl_ram.Bridge.Session.{Turn, run_bridge}

pub data SubCmd : Type 0 where
  install : (user : Bool) (chrome_ext_id : Option Text) → SubCmd
  uninstall : (user : Bool) → SubCmd

pub record Cli : Type 0 where
  pub origin : Option Text
  pub command : Option SubCmd

-- What a run did: to the file system, or to the standard output of a session.
pub data Ran : Type 0 where
  installed uninstalled : FileSystem → Outcome → Ran
  bridged : List ℕ → Ran

module _ {S V : Type 0} (hyper : Hyper S) (json : Json V) (version : Text) where
  -- `connection` is there if the daemon's socket answers.
  unfoldable pub main :
      Os → FileSystem → Cli → (connection : Option S) (stdin : List ℕ) (turns : List (Turn S)) → Ran
  main os fs cli connection stdin turns = elim cli.command [
    | some (install user id) ↦
        let (fs', outcome) = Install.install os fs user id in installed fs' outcome
    | some (uninstall user) ↦
        let (fs', outcome) = Install.uninstall os fs user in uninstalled fs' outcome
    | none ↦
        let origin : Text = elim cli.origin [ none ↦ [] | some o ↦ o ] in
        bridged (run_bridge hyper json version connection stdin origin turns)
  ]
