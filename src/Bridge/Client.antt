-- ===== src/Bridge/Client.antt =====
-- bridge/src/client.rs: the HTTP client of the daemon's socket. The connection that hyper drives is
-- a parameter, with `S` for its state.
use bssl_ram.Prelude.{ℕ, Bool, true, false, ◌||◌, Option, none, some, List, [], ◌∷◌, if◌then◌else◌}
use bssl_ram.Prelude.Text.{Text, text}
use bssl_ram.Http.{get, post, Request, Response, is_success, Json}

-- What is used of hyper and anyhow: whether the connection is closed, a request and its response or
-- a failure, which texts may stand in a header, and how an error reads.
pub data ClientError : Type 0 where
  building_report sending_ping sending_report serializing_report reading_ping parsing_ping :
      ClientError
  ping_status : ℕ → ClientError

pub record Hyper (S : Type 0) : Type 0 where
  pub is_closed : S → Bool
  pub send_request : S → Request → S × Option Response
  pub is_header_value : Text → Bool
  pub display : ClientError → Text

pub record DaemonClient (S : Type 0) : Type 0 where
  pub sender : S
  pub closed : Bool

pub data Result (A : Type 0) : Type 0 where
  ok : A → Result A
  err : ClientError → Result A

-- `connect`, where the socket answers.
abbrev pub connected : {S : Type 0} → S → DaemonClient S
connected sender = record { sender = sender; closed = false }

abbrev pub ping_request : Request
ping_request = record {
  method = get;
  uri = text "/v1/signals/ping";
  headers = (text "host", text "bssl-ram.local") ∷ [];
  body = [];
}

abbrev pub report_request : List ℕ → Text → Request
report_request body ext_id = record {
  method = post;
  uri = text "/v1/signals/report";
  headers =
      (text "host", text "bssl-ram.local")
      ∷ (text "content-type", text "application/json")
      ∷ (text "x-bssl-extension-id", ext_id)
      ∷ [];
  body = body;
}

module _ {S : Type 0} (hyper : Hyper S) where
  unfoldable pub is_closed : DaemonClient S → Bool
  is_closed client = client.closed || hyper.is_closed client.sender

  -- `post_report` from the request on. The body of the response is read and dropped.
  unfoldable pub send_report : DaemonClient S → Request → DaemonClient S × Result (Bool × ℕ)
  send_report client req =
      let (sender, sent) = hyper.send_request client.sender req in
      elim sent [
        | none ↦ (record { sender = sender; closed = true }, err sending_report)
        | some resp ↦ (record client { sender = sender }, ok (is_success resp.status, resp.status))
      ]

  module _ {V : Type 0} (json : Json V) where
    -- `get_ping` from the response on.
    unfoldable pub read_ping : Response → Result V
    read_ping resp =
        if is_success resp.status
        then (elim resp.body [
          | none ↦ err reading_ping
          | some body ↦ elim (json.from_slice body) [ none ↦ err parsing_ping | some v ↦ ok v ]
        ])
        else err (ping_status resp.status)

    unfoldable pub get_ping : DaemonClient S → DaemonClient S × Result V
    get_ping client =
        let (sender, sent) = hyper.send_request client.sender ping_request in
        elim sent [
          | none ↦ (record { sender = sender; closed = true }, err sending_ping)
          | some resp ↦ (record client { sender = sender }, read_ping resp)
        ]

    unfoldable pub post_report : DaemonClient S → V → Text → DaemonClient S × Result (Bool × ℕ)
    post_report client payload ext_id = elim (json.to_vec payload) [
      | none ↦ (client, err serializing_report)
      | some body ↦
          if hyper.is_header_value ext_id
          then send_report client (report_request body ext_id)
          else (client, err building_report)
    ]
