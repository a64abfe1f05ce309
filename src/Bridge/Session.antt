-- ===== src/Bridge/Session.antt =====
-- bridge/src/main.rs: `run_bridge`, the loop between the browser and the daemon, and
-- `handle_frame`. JSON and the connection are parameters, as in Bridge/Client.antt. A write to the
-- standard output succeeds if the frame can be encoded.
pub mod Reading
pub mod Admission
pub mod Replies
pub mod Conversation
use bssl_ram.Prelude.{
  ℕ, Bool, true, false, Option, none, some, List, [], ◌∷◌, ◌++◌, if◌then◌else◌, ◌>>=◌,
}
use bssl_ram.Prelude.Text.{Text, text, beq_text}
use bssl_ram.Http.{Json}
use bssl_ram.Bridge.Client
use bssl_ram.Bridge.Client.{
  Hyper, DaemonClient, Result, ok, err, ClientError, connected, get_ping, post_report,
}
use bssl_ram.Bridge.Nmh.{Frame, frame, failed, read_frame, write_frame}

-- What a turn of the `select!` finds: SIGTERM, or the next frame, while the connection may change.
pub data Turn (S : Type 0) : Type 0 where
  sigterm : Turn S
  readable : (S → S) → Turn S

-- The bridge: its client, what is left of its input, and its output.
pub record Bridge (S : Type 0) : Type 0 where
  pub client : DaemonClient S
  pub stdin : List ℕ
  pub stdout : List ℕ

module _ {V : Type 0} (json : Json V) where
  abbrev pub error_reply : Text → V
  error_reply reason =
      json.object ((text "ok", json.bool false) ∷ (text "reason", json.string reason) ∷ [])

  abbrev pub ok_reply : V
  ok_reply = json.object ((text "ok", json.bool true) ∷ [])

  abbrev pub status_reply : ℕ → V
  status_reply status =
      json.object ((text "ok", json.bool false) ∷ (text "status", json.number status) ∷ [])

  abbrev pub kind_of : V → Text
  kind_of f = elim (json.get f (text "kind")) [
    | none ↦ []
    | some v ↦ elim (json.as_str v) [ none ↦ [] | some k ↦ k ]
  ]

  abbrev pub payload_of : V → V
  payload_of f = elim (json.get f (text "payload")) [ none ↦ json.null | some p ↦ p ]

  -- A frame on the output; one that cannot be encoded is logged, and nothing is written.
  unfoldable pub put_frame : List ℕ → V → List ℕ
  put_frame stdout v = elim (write_frame json.to_vec v) [
    | none ↦ stdout
    | some bytes ↦ stdout ++ bytes
  ]

module _ {S V : Type 0} (hyper : Hyper S) (json : Json V) (version : Text) where
  -- The identity of the bridge in the answer to a ping; no result where an assignment panics.
  unfoldable pub with_identity : V → Option V
  with_identity body = do
    body' ← json.set body (text "bridge_version") (json.string version)
    json.set body' (text "bridge_kind") (json.string (text "native-messaging-uds"))

  unfoldable pub ping_response : Result V → Option V
  ping_response (ok body) = with_identity body
  ping_response (err e) = some (error_reply json (text "ping failed: " ++ hyper.display e))

  unfoldable pub report_response : Result (Bool × ℕ) → V
  report_response (ok (true, status)) = ok_reply json
  report_response (ok (false, status)) = status_reply json status
  report_response (err e) = error_reply json (hyper.display e)

  -- `handle_frame` up to the response: the client, and the response if nothing panics.
  unfoldable pub respond : V → DaemonClient S → Text → DaemonClient S × Option V
  respond f client origin =
      let kind = kind_of json f in
      if beq_text kind (text "ping")
      then (let (client', result) = get_ping hyper json client in (client', ping_response result))
      else if beq_text kind (text "report")
      then (let (client', result) = post_report hyper json client (payload_of json f) origin in
          (client', some (report_response result)))
      else (client, some (error_reply json (text "unknown kind")))

  abbrev pub with_reply : Bridge S → DaemonClient S → Option V → Option (Bridge S)
  with_reply b client none = none
  with_reply b client (some v) =
      some (record b { client = client; stdout = put_frame json b.stdout v })

  -- `handle_frame`; no result if it panics.
  unfoldable pub handle_frame : Bridge S → V → Text → Option (Bridge S)
  handle_frame b f origin =
      let (client, response) = respond f b.client origin in with_reply b client response

  pub data Step : Type 0 where
    stopped next panicked : Bridge S → Step

  abbrev pub handled : Bridge S → Option (Bridge S) → Step
  handled b none = panicked b
  handled b (some b') = next b'

  -- The arm of a frame: the input ends or is no frame, the daemon is gone, or the frame is handled.
  unfoldable pub on_frame : Bridge S → Text → Frame V → Step
  on_frame b origin (failed e) = stopped b
  on_frame b origin (frame f rest) =
      let b' : Bridge S = record b { stdin = rest } in
      if Client.is_closed hyper b.client
      then stopped (record b' {
        stdout = put_frame json b.stdout (error_reply json (text "daemon disconnected"));
      })
      else handled b' (handle_frame b' f origin)

  abbrev pub with_connection : Bridge S → (S → S) → Bridge S
  with_connection b change = record b {
    client = record (b.client) { sender = change b.client.sender };
  }

  abbrev pub proceed : Step → (Bridge S → Step) → Step
  proceed (stopped b) go_on = stopped b
  proceed (panicked b) go_on = panicked b
  proceed (next b) go_on = go_on b

  -- The loop: what it leaves when it ends, or waits for more.
  unfoldable pub run : Bridge S → Text → List (Turn S) → Step
  run b origin [] = next b
  run b origin (sigterm ∷ rest) = stopped b
  run b origin (readable change ∷ rest) =
      proceed (on_frame (with_connection b change) origin (read_frame json.from_slice b.stdin))
        (λ b'. run b' origin rest)

  -- `run_bridge`: without a connection, one frame says so.
  unfoldable pub run_bridge : Option S → List ℕ → Text → List (Turn S) → List ℕ
  run_bridge none stdin origin turns =
      put_frame json [] (error_reply json (text "daemon unreachable"))
  run_bridge (some sender) stdin origin turns =
      elim (run (record { client = connected sender; stdin = stdin; stdout = [] }) origin turns) [
        | stopped b ↦ b.stdout
        | panicked b ↦ b.stdout
        | next b ↦ b.stdout
      ]
