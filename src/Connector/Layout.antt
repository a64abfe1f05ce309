-- ===== src/Connector/Layout.antt =====
-- The wire format that daemon/src/proc_connector.rs reads, written out: every datagram that the
-- kernel can send for a fork, an exec or an exit is read back as the event that it stands for.
use bssl_ram.Prelude.{
  ℕ, ◌+◌, ◌*◌, ◌/◌, ◌%◌, ◌^◌, ◌<◌, ◌≡◌, true, ◌&&◌, some, List, [], ◌∷◌, ◌++◌, ◌∙◌, ◌≤◌, arith, leb,
  ◌==◌, length, drop-append, length-append, All, if◌then◌else◌,
}
use bssl_ram.Connector.{
  ProcEvent, fork, exec, exit, slice_from, u32_at, parse_fork, parse_exec, parse_exit, parse_body,
  parse_event_data, parse_payload, parse_events, is_positive, proc_event_fork, proc_event_exec,
  proc_event_exit,
}

-- A word, little-endian, in front of the bytes that follow.
abbrev pub le32 : ℕ → List ℕ → List ℕ
le32 w rest = w % 256 ∷ w / 256 % 256 ∷ w / 65536 % 256 ∷ w / 16777216 % 256 ∷ rest

-- The payloads of the three events, field by field.
pub data Message : Type 0 where
  forked : (parent_pid parent_tgid child_pid child_tgid : ℕ) → Message
  execed : (process_pid process_tgid : ℕ) → Message
  exited : (process_pid process_tgid exit_code exit_signal parent_pid parent_tgid : ℕ) → Message

abbrev pub what : Message → ℕ
what (forked _ _ _ _) = proc_event_fork
what (execed _ _) = proc_event_exec
what (exited _ _ _ _ _ _) = proc_event_exit

abbrev pub body : Message → List ℕ → List ℕ
body (forked p pt c ct) rest = le32 p (le32 pt (le32 c (le32 ct rest)))
body (execed p t) rest = le32 p (le32 t rest)
body (exited p t code sig q qt) rest =
    le32 p (le32 t (le32 code (le32 sig (le32 q (le32 qt rest)))))

abbrev pub IsMessage : Message → Type 0
IsMessage (forked p pt c ct) = All (λ w. w < 2 ^ 32) (p ∷ pt ∷ c ∷ ct ∷ [])
IsMessage (execed p t) = All (λ w. w < 2 ^ 32) (p ∷ t ∷ [])
IsMessage (exited p t code sig q qt) = All (λ w. w < 2 ^ 32) (p ∷ t ∷ code ∷ sig ∷ q ∷ qt ∷ [])

-- What the daemon surfaces: process-level events only, that is those of a thread-group leader
-- (an exec always is one), with a positive PID.
abbrev pub surfaced : Message → List ProcEvent
surfaced (forked p pt c ct) = if c == ct && is_positive c then fork pt ct ∷ [] else []
surfaced (execed p t) = if is_positive t then exec t ∷ [] else []
surfaced (exited p t code sig q qt) = if p == t && is_positive t then exit t ∷ [] else []

-- The event header and the payload; what stands after the payload is not read.
abbrev pub event : ℕ → ℕ → ℕ → Message → List ℕ → List ℕ
event cpu low high m rest = le32 (what m) (le32 cpu (le32 low (le32 high (body m rest))))

bytes_of_word :
    (w : ℕ)
    → w < 2 ^ 32
    → w % 256 + 256 * (w / 256 % 256) + 65536 * (w / 65536 % 256) + 16777216 * (w / 16777216 % 256)
      ≡ w
bytes_of_word w h = omega arith

parse_fork-body :
    (p pt c ct : ℕ) (rest : List ℕ)
    → IsMessage (forked p pt c ct)
    → parse_fork (body (forked p pt c ct) rest) ≡ some (surfaced (forked p pt c ct))
unfolding parse_fork u32_at
parse_fork-body p pt c ct rest h =
    rw (bytes_of_word pt h.1.0, bytes_of_word c h.1.1.0, bytes_of_word ct h.1.1.1.0)

parse_exec-body :
    (p t : ℕ) (rest : List ℕ)
    → IsMessage (execed p t)
    → parse_exec (body (execed p t) rest) ≡ some (surfaced (execed p t))
unfolding parse_exec u32_at
parse_exec-body p t rest h = rw (bytes_of_word t h.1.0)

parse_exit-body :
    (p t code sig q qt : ℕ) (rest : List ℕ)
    → IsMessage (exited p t code sig q qt)
    → parse_exit (body (exited p t code sig q qt) rest) ≡ some (surfaced (exited p t code sig q qt))
unfolding parse_exit u32_at
parse_exit-body p t code sig q qt rest h = rw (bytes_of_word p h.0, bytes_of_word t h.1.0)

parse_body-body :
    (m : Message) (rest : List ℕ)
    → IsMessage m
    → parse_body (what m) (body m rest) ≡ some (surfaced m)
unfolding parse_body
parse_body-body (forked p pt c ct) rest h = rw (parse_fork-body p pt c ct rest h) (ground arith)
parse_body-body (execed p t) rest h = rw (parse_exec-body p t rest h) (ground arith)
parse_body-body (exited p t code sig q qt) rest h =
    rw (parse_exit-body p t code sig q qt rest h) (ground arith)

what-lt : (m : Message) → what m < 2 ^ 32
what-lt (forked p pt c ct) = omega arith
what-lt (execed p t) = omega arith
what-lt (exited p t code sig q qt) = omega arith

parse_event_data-event :
    (cpu low high : ℕ) (m : Message) (rest : List ℕ)
    → IsMessage m
    → parse_event_data (event cpu low high m rest) ≡ some (surfaced m)
unfolding parse_event_data slice_from u32_at
parse_event_data-event cpu low high m rest h =
    let long : leb 16 (length (event cpu low high m rest)) ≡ true = ground arith in
    rw (long, bytes_of_word (what m) (what-lt m)) (parse_body-body m rest h)

-- The two headers are skipped by their sizes.
parse_events-append :
    (header message data' : List ℕ)
    → length header ≡ 16
    → length message ≡ 20
    → 16 ≤ length data'
    → parse_events (header ++ (message ++ data')) ≡ parse_event_data data'
unfolding parse_events parse_payload slice_from
parse_events-append header message data' e e' h = ground (
  arith,
  drop-append header (message ++ data') e,
  drop-append message data' e',
  length-append header (message ++ data'),
  length-append message data',
)

-- A datagram with any netlink header of 16 bytes, any connector message of 20 bytes and the given
-- event, whose fields are 32-bit words, is read as the events that its payload surfaces.
pub parse_events-event :
    (header message : List ℕ) (cpu low high : ℕ) (m : Message) (rest : List ℕ)
    → length header ≡ 16
    → length message ≡ 20
    → IsMessage m
    → parse_events (header ++ (message ++ event cpu low high m rest)) ≡ some (surfaced m)
parse_events-event header message cpu low high m rest e e' h =
    parse_events-append header message (event cpu low high m rest) e e' (omega arith)
    ∙ parse_event_data-event cpu low high m rest h
