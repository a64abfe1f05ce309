-- ===== src/Signals/Server.antt =====
-- The server of daemon/src/signals.rs: how it starts, which connections it serves, and which
-- handler a request reaches.
use bssl_ram.Prelude.{
  ℕ, ◌*◌, Bool, true, false, Option, none, some, List, [], ◌∷◌, ◌==◌, if◌then◌else◌, nat_eq,
}
use bssl_ram.Prelude.Map
use bssl_ram.Prelude.Map.{Map}
use bssl_ram.Prelude.Text.{Text, text, text_eq, beq_text}
use bssl_ram.Http.{get, post, Request, Response, Json}
use bssl_ram.Signals.{
  SignalStore, StatusCode, no_content, bad_request, unauthorized, new, protocol_version,
  report_handler,
}
use bssl_ram.Signals.Report.{BrowserSignalsReport}

abbrev pub source_header : Text
source_header = text "x-bssl-signal-source"

abbrev pub max_report_bytes : ℕ
max_report_bytes = 1024 * 1024

-- The number of a status.
abbrev pub status_number : StatusCode → ℕ
status_number no_content = 204
status_number bad_request = 400
status_number unauthorized = 401

-- What the extraction of a report from a request gives: the report, or the status of the rejection.
pub data Extracted : Type 0 where
  extracted : BrowserSignalsReport → Extracted
  rejection : ℕ → Extracted

-- What is used of axum: the extraction of a JSON body of at most so many bytes, the text of a
-- header, the response with a JSON body, and the response where no route fits.
pub record Axum (V : Type 0) : Type 0 where
  pub extract : ℕ → Request → Extracted
  pub header : Request → Text → Option Text
  pub respond_json : V → Response
  pub no_route : Request → Response

module _ {V : Type 0} (json : Json V) (axum : Axum V) where
  unfoldable pub ping_handler : Response
  ping_handler = axum.respond_json (
      json.object (
        (text "protocol_version", json.number protocol_version)
        ∷ (
          text "accepted_families",
          json.array (json.string (text "firefox") ∷ json.string (text "chromium") ∷ []),
        )
        ∷ (text "max_report_bytes", json.number max_report_bytes)
        ∷ []))

  abbrev pub empty_response : ℕ → Response
  empty_response status = record { status = status; body = some [] }

  -- The extractors of `report_handler`, and the handler.
  unfoldable pub post_report_route : SignalStore → Bool → ℕ → ℕ → Request → SignalStore × Response
  post_report_route store requires_source_header now now_wall req =
      elim (axum.extract max_report_bytes req) [
        | rejection status ↦ (store, empty_response status)
        | extracted report ↦
            let (store', status) =
              report_handler store requires_source_header (axum.header req source_header) now
                now_wall report in
            (store', empty_response (status_number status))
      ]

  -- `build_router`: the response to a request.
  unfoldable pub route : SignalStore → Bool → ℕ → ℕ → Request → SignalStore × Response
  route store requires_source_header now now_wall req =
      if beq_text req.uri (text "/v1/signals/ping")
      then (elim req.method [ get ↦ (store, ping_handler) | post ↦ (store, axum.no_route req) ])
      else if beq_text req.uri (text "/v1/signals/report")
      then (elim req.method [
        | get ↦ (store, axum.no_route req)
        | post ↦ post_report_route store requires_source_header now now_wall req
      ])
      else (store, axum.no_route req)

  -- A request that comes over the socket: the UID of the peer of its connection, if it could be
  -- read, and the times at which it is handled.
  pub record Arrival : Type 0 where
    pub peer_uid : Option ℕ
    pub now : ℕ
    pub now_wall : ℕ
    pub request : Request

  -- The test of the accept loop of `spawn_uds_server`: other connections are dropped.
  abbrev pub is_trusted : ℕ → Option ℕ → Bool
  is_trusted our_uid none = false
  is_trusted our_uid (some uid) = uid == our_uid

  -- The requests of all connections, in the order in which they are handled.
  unfoldable pub serve_uds : ℕ → SignalStore → List Arrival → SignalStore × List Response
  serve_uds our_uid store [] = (store, [])
  serve_uds our_uid store (a ∷ rest) =
      if is_trusted our_uid a.peer_uid
      then (let (store', response) = route store false a.now a.now_wall a.request in
          let (store'', responses) = serve_uds our_uid store' rest in
          (store'', response ∷ responses))
      else serve_uds our_uid store rest

-- What the system answers to the start of a server.
pub record ServerOs : Type 0 where
  pub parse_address : Text → Option ℕ
  pub bind_tcp : ℕ → Bool
  pub bind_unix : Text → Bool
  pub set_permissions : Text → Bool

pub data SpawnError : Type 0 where
  unknown_transport bad_address not_bound no_permissions : SpawnError

-- A server that listens, and the path that is removed with it.
pub record Server : Type 0 where
  pub store : SignalStore
  pub requires_source_header : Bool
  pub socket_cleanup : Option Text

-- `with_cleanup`
abbrev pub with_cleanup : Server → Text → Server
with_cleanup server path = record server { socket_cleanup = some path }

-- The drop of the store: its socket is removed.
unfoldable pub drop_store : Map Text ℕ → Server → Map Text ℕ
drop_store files server = elim server.socket_cleanup [
  | none ↦ files
  | some path ↦ Map.remove path files
]

pub data Spawned : Type 0 where
  spawned : Server → Spawned
  not_spawned : SpawnError → Spawned

module _ (os : ServerOs) (umask_mode : ℕ) where
  unfoldable pub spawn_tcp_server : Text → ℕ → ℕ → Spawned
  spawn_tcp_server bind ttl interaction_grace = elim (os.parse_address bind) [
    | none ↦ not_spawned bad_address
    | some addr ↦
        if os.bind_tcp addr
        then spawned (record {
          store = new ttl interaction_grace;
          requires_source_header = true;
          socket_cleanup = none;
        })
        else not_spawned not_bound
  ]

  -- The sockets in the file system, with their modes, and the server. A stale socket is removed
  -- first; the new one has the mode that the umask leaves until its permissions are set.
  unfoldable pub spawn_uds_server : Map Text ℕ → Text → ℕ → ℕ → Map Text ℕ × Spawned
  spawn_uds_server files sock_path ttl interaction_grace =
      let server : Server = record {
        store = new ttl interaction_grace;
        requires_source_header = false;
        socket_cleanup = none;
      } in
      let files1 = Map.remove sock_path files in
      let files2 = Map.insert sock_path umask_mode files1 in
      let files3 = Map.insert sock_path 0o600 files2 in
      if os.bind_unix sock_path
      then (if os.set_permissions sock_path
          then (files3, spawned (with_cleanup server sock_path))
          else (files2, not_spawned no_permissions))
      else (files1, not_spawned not_bound)

  unfoldable pub spawn_server : Map Text ℕ → Text → Text → ℕ → ℕ → Map Text ℕ × Spawned
  spawn_server files transport target ttl interaction_grace =
      if beq_text transport (text "uds")
      then spawn_uds_server files target ttl interaction_grace
      else if beq_text transport (text "tcp")
      then (files, spawn_tcp_server target ttl interaction_grace)
      else (files, not_spawned unknown_transport)
