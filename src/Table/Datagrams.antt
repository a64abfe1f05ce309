-- ===== src/Table/Datagrams.antt =====
-- From the bytes of the socket to the targets: the loop of daemon/src/process_table.rs over what
-- `recv_events` of daemon/src/proc_connector.rs returns.
use bssl_ram.Prelude.{ℕ, ◌≡◌, List, [], ◌∷◌, ◌++◌, map, length}
use bssl_ram.Connector.{ProcEvent}
use bssl_ram.Connector.Layout.{Message, IsMessage, event, surfaced}
use bssl_ram.Connector.Socket.{Recv, recv_bytes, events, recv_failed, parser_panicked, recv_events}
use bssl_ram.Table.{Arrival, Cmdline, Turn, shut_down, received, failed}

abbrev pub arrivals : Cmdline → List ProcEvent → List Arrival
arrivals cmdline es = map (λ e. record { event = e; cmdline = cmdline }) es

-- The arms of the `match` on `recv_events`. A panic would end the thread.
unfoldable pub turn_of : Cmdline → Recv → Turn
turn_of cmdline r = elim (recv_events r) [
  | events es ↦ received (arrivals cmdline es)
  | recv_failed ↦ failed
  | parser_panicked ↦ shut_down
]

-- A datagram as the kernel lays it out: the two headers, a record, and whatever stands behind it,
-- further records included. With the command lines as they are when it is handled.
pub record Datagram : Type 0 where
  pub header : List ℕ
  pub message : List ℕ
  pub cpu : ℕ
  pub low : ℕ
  pub high : ℕ
  pub payload : Message
  pub rest : List ℕ
  pub cmdline : Cmdline

abbrev pub bytes : Datagram → List ℕ
bytes d = d.header ++ (d.message ++ event d.cpu d.low d.high d.payload d.rest)

pub record IsDatagram (d : Datagram) : Type 0 where
  pub header : length d.header ≡ 16
  pub message : length d.message ≡ 20
  pub payload : IsMessage d.payload

-- The turns of the loop, and the events that the first records mean.
abbrev pub turns : List Datagram → List Turn
turns ds = map (λ d. turn_of d.cmdline (recv_bytes (bytes d))) ds

abbrev pub meant : List Datagram → List Arrival
meant [] = []
meant (d ∷ ds) = arrivals d.cmdline (surfaced d.payload) ++ meant ds
