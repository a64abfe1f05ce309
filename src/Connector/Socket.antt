-- ===== src/Connector/Socket.antt =====
-- The socket of daemon/src/proc_connector.rs: the message that starts the stream of events, and the
-- two ways of receiving a datagram. What the system calls return is a parameter.
use bssl_ram.Prelude.{
  ℕ, ◌+◌, ◌/◌, ◌%◌, ◌≡◌, ◌≢◌, refl, Bool, Option, none, some, List, [], ◌∷◌, length, arith,
  if◌then◌else◌,
}
use bssl_ram.Connector.{ProcEvent, nlmsghdr_size, cn_msg_size, parse_events}
use bssl_ram.Connector.Layout.{le32}
use bssl_ram.Connector.Bounds.{parse_events-in_bounds}

abbrev pub cn_idx_proc : ℕ
cn_idx_proc = 1

abbrev pub cn_val_proc : ℕ
cn_val_proc = 1

abbrev pub proc_cn_mcast_listen : ℕ
proc_cn_mcast_listen = 1

abbrev pub le16 : ℕ → List ℕ → List ℕ
le16 w rest = w % 256 ∷ w / 256 % 256 ∷ rest

-- `struct nlmsghdr`, `struct cn_msg` and the operation, as bytes.
abbrev pub nlmsghdr : (len kind flags seq pid : ℕ) → List ℕ → List ℕ
nlmsghdr len kind flags seq pid rest = le32 len (le16 kind (le16 flags (le32 seq (le32 pid rest))))

abbrev pub cn_msg : (idx val seq ack len flags : ℕ) → List ℕ → List ℕ
cn_msg idx val seq ack len flags rest =
    le32 idx (le32 val (le32 seq (le32 ack (le16 len (le16 flags rest)))))

-- The buffer that `open` sends; its length is that of the two headers and a u32.
unfoldable pub listen_message : ℕ → List ℕ
listen_message pid =
    nlmsghdr (nlmsghdr_size + cn_msg_size + 4) 0 0 0 pid
      (cn_msg cn_idx_proc cn_val_proc 0 0 4 0 (le32 proc_cn_mcast_listen []))

-- The answers of the system to `open`. That of `setsockopt` is not looked at.
pub record NetlinkOs : Type 0 where
  pub process_id : ℕ
  pub socket : Bool
  pub bind : (pid groups : ℕ) → Bool
  pub send : List ℕ → Bool

pub data OpenError : Type 0 where
  no_socket not_bound not_sent : OpenError

-- Whether the connector listens.
unfoldable pub open_socket : NetlinkOs → Option OpenError
open_socket os =
    if os.socket
    then (if os.bind os.process_id cn_idx_proc
        then (if os.send (listen_message os.process_id) then none else some not_sent)
        else some not_bound)
    else some no_socket

-- The result of `recv`: an error, with its kind, or the bytes that it put into the buffer.
pub data ErrorKind : Type 0 where
  interrupted would_block other_error : ErrorKind

pub data Recv : Type 0 where
  recv_error : ErrorKind → Recv
  recv_bytes : List ℕ → Recv

-- Events, an error, or the panic of the parser.
pub data Received : Type 0 where
  events : List ProcEvent → Received
  recv_failed : Received
  parser_panicked : Received

abbrev pub parsed : List ℕ → Received
parsed bytes = elim (parse_events bytes) [ none ↦ parser_panicked | some evs ↦ events evs ]

unfoldable pub recv_events : Recv → Received
recv_events (recv_error interrupted) = events []
recv_events (recv_error would_block) = recv_failed
recv_events (recv_error other_error) = recv_failed
recv_events (recv_bytes bytes) = parsed bytes

unfoldable pub try_recv_events : Recv → Received
try_recv_events (recv_error interrupted) = events []
try_recv_events (recv_error would_block) = events []
try_recv_events (recv_error other_error) = recv_failed
try_recv_events (recv_bytes bytes) = parsed bytes

-- The buffer has the length that its header says.
listen_message-length : (pid : ℕ) → length (listen_message pid) ≡ nlmsghdr_size + cn_msg_size + 4
unfolding listen_message
listen_message-length pid = refl

-- Whatever `recv` returns, `recv_events` returns.
pub recv_events-returns : (r : Recv) → recv_events r ≢ parser_panicked
unfolding recv_events
recv_events-returns (recv_error interrupted) = λ e. cc e
recv_events-returns (recv_error would_block) = λ e. cc e
recv_events-returns (recv_error other_error) = λ e. cc e
recv_events-returns (recv_bytes bytes) =
    let (evs, e, report) = parse_events-in_bounds bytes in ground (arith, e)
