-- ===== src/Connector.antt =====
-- daemon/src/proc_connector.rs: the events of the kernel's proc connector, read from a netlink
-- datagram. Native endianness is little-endian. A read outside the datagram, or a slice that starts
-- past its end, is the result `none`.
pub mod Bounds
pub mod Layout
pub mod Socket
use bssl_ram.Prelude.{
  ℕ, ◌+◌, ◌*◌, ◌^◌, Bool, true, false, ◌&&◌, Option, none, some, List, [], ◌∷◌, ltb, leb, ◌==◌,
  length, get_elem?, drop, if◌then◌else◌, ◌>>=◌,
}

pub data ProcEvent : Type 0 where
  fork : ℕ → ℕ → ProcEvent
  exec exit : ℕ → ProcEvent

abbrev pub proc_event_fork : ℕ
proc_event_fork = 0x1

abbrev pub proc_event_exec : ℕ
proc_event_exec = 0x2

abbrev pub proc_event_exit : ℕ
proc_event_exit = 0x8000_0000

-- `size_of` of the `repr(C)` structs.
abbrev pub nlmsghdr_size : ℕ
nlmsghdr_size = 16

abbrev pub cn_msg_size : ℕ
cn_msg_size = 20

abbrev pub proc_event_header_size : ℕ
proc_event_header_size = 16

abbrev pub fork_payload_size : ℕ
fork_payload_size = 16

abbrev pub exec_payload_size : ℕ
exec_payload_size = 8

abbrev pub exit_payload_size : ℕ
exit_payload_size = 24

-- `&xs[n..]`
unfoldable pub slice_from : ℕ → List ℕ → Option (List ℕ)
slice_from n xs = if leb n (length xs) then some (drop n xs) else none

-- The 32-bit word at a byte offset.
unfoldable pub u32_at : List ℕ → ℕ → Option ℕ
u32_at xs i = do
  a ← get_elem? xs i
  b ← get_elem? xs (1 + i)
  c ← get_elem? xs (2 + i)
  d ← get_elem? xs (3 + i)
  some (a + 256 * b + 65536 * c + 16777216 * d)

-- `x > 0` of an `i32`, on its bit pattern.
abbrev pub is_positive : ℕ → Bool
is_positive w = ltb 0 w && ltb w (2 ^ 31)

-- The three arms: the struct at the start of the body is copied word by word.
unfoldable pub parse_fork : List ℕ → Option (List ProcEvent)
parse_fork body = do
  parent_pid ← u32_at body 0
  parent_tgid ← u32_at body 4
  child_pid ← u32_at body 8
  child_tgid ← u32_at body 12
  some (
      if child_pid == child_tgid && is_positive child_pid
      then fork parent_tgid child_tgid ∷ []
      else [])

unfoldable pub parse_exec : List ℕ → Option (List ProcEvent)
parse_exec body = do
  process_pid ← u32_at body 0
  process_tgid ← u32_at body 4
  some (if is_positive process_tgid then exec process_tgid ∷ [] else [])

unfoldable pub parse_exit : List ℕ → Option (List ProcEvent)
parse_exit body = do
  process_pid ← u32_at body 0
  process_tgid ← u32_at body 4
  exit_code ← u32_at body 8
  exit_signal ← u32_at body 12
  parent_pid ← u32_at body 16
  parent_tgid ← u32_at body 20
  some (
      if process_pid == process_tgid && is_positive process_tgid
      then exit process_tgid ∷ []
      else [])

-- The `match` on `what`, each arm with its guard on the length.
unfoldable pub parse_body : ℕ → List ℕ → Option (List ProcEvent)
parse_body what body =
    if what == proc_event_fork && leb fork_payload_size (length body)
    then parse_fork body
    else if what == proc_event_exec && leb exec_payload_size (length body)
    then parse_exec body
    else if what == proc_event_exit && leb exit_payload_size (length body)
    then parse_exit body
    else some []

-- The event header, then the body.
unfoldable pub parse_event_data : List ℕ → Option (List ProcEvent)
parse_event_data event_data = do
  what ← u32_at event_data 0
  cpu ← u32_at event_data 4
  timestamp_low ← u32_at event_data 8
  timestamp_high ← u32_at event_data 12
  body ← slice_from proc_event_header_size event_data
  parse_body what body

-- The second length check: the event follows the connector message.
unfoldable pub parse_payload : List ℕ → Option (List ProcEvent)
parse_payload payload =
    if ltb (length payload) (cn_msg_size + proc_event_header_size)
    then some []
    else do event_data ← slice_from cn_msg_size payload; parse_event_data event_data

unfoldable pub parse_events : List ℕ → Option (List ProcEvent)
parse_events packet =
    if ltb (length packet) (nlmsghdr_size + cn_msg_size + proc_event_header_size)
    then some []
    else do payload ← slice_from nlmsghdr_size packet; parse_payload payload
