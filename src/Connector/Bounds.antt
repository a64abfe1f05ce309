-- ===== src/Connector/Bounds.antt =====
-- `parse_events` of daemon/src/proc_connector.rs reads only inside the datagram, and reports at
-- most one event, of positive PIDs.
use bssl_ram.Prelude.{
  ℕ, ◌+◌, ◌-◌, ◌*◌, ◌^◌, ◌≤◌, ◌<◌, ◌≡◌, refl, Option, some, List, [], ◌∷◌, arith, ltb, leb, ◌==◌,
  ◌&&◌, length, drop, length-drop, get_elem?_total, Bool-cases, inl, inr,
}
use bssl_ram.Connector.{
  ProcEvent, fork, exec, exit, slice_from, u32_at, parse_fork, parse_exec, parse_exit, parse_body,
  parse_event_data, parse_payload, parse_events, proc_event_fork, proc_event_exec, proc_event_exit,
  fork_payload_size, exec_payload_size, exit_payload_size,
}

-- At most one event, and the PID that it is about is a positive `i32`.
abbrev pub IsReport : List ProcEvent → Type 0
IsReport [] = Unit
IsReport (fork parent child ∷ []) = (0 < child) × (child < 2 ^ 31)
IsReport (exec pid ∷ []) = (0 < pid) × (pid < 2 ^ 31)
IsReport (exit pid ∷ []) = (0 < pid) × (pid < 2 ^ 31)
IsReport (e ∷ f ∷ es) = ⊥

abbrev Reports : Option (List ProcEvent) → Type 0
Reports o = (events : List ProcEvent) × (o ≡ some events) × IsReport events

u32_at_total : (xs : List ℕ) (i : ℕ) → 3 + i < length xs → (w : ℕ) × (u32_at xs i ≡ some w)
unfolding u32_at
u32_at_total xs i h =
    let (a, ea) = get_elem?_total xs i (omega arith) in
    let (b, eb) = get_elem?_total xs (1 + i) (omega arith) in
    let (c, ec) = get_elem?_total xs (2 + i) (omega arith) in
    let (d, ed) = get_elem?_total xs (3 + i) (omega arith) in
    (a + 256 * b + 65536 * c + 16777216 * d, rw (ea, eb, ec, ed))

parse_fork-Reports : (body : List ℕ) → 16 ≤ length body → Reports (parse_fork body)
unfolding parse_fork
parse_fork-Reports body h =
    let (p, ep) = u32_at_total body 0 (omega arith) in
    let (pt, ept) = u32_at_total body 4 (omega arith) in
    let (c, ec) = u32_at_total body 8 (omega arith) in
    let (ct, ect) = u32_at_total body 12 (omega arith) in
    rw (ep, ept, ec, ect) (_, refl, ground arith)

parse_exec-Reports : (body : List ℕ) → 8 ≤ length body → Reports (parse_exec body)
unfolding parse_exec
parse_exec-Reports body h =
    let (p, ep) = u32_at_total body 0 (omega arith) in
    let (t, et) = u32_at_total body 4 (omega arith) in rw (ep, et) (_, refl, ground arith)

parse_exit-Reports : (body : List ℕ) → 24 ≤ length body → Reports (parse_exit body)
unfolding parse_exit
parse_exit-Reports body h =
    let (p, ep) = u32_at_total body 0 (omega arith) in
    let (t, et) = u32_at_total body 4 (omega arith) in
    let (c, ec) = u32_at_total body 8 (omega arith) in
    let (s, es) = u32_at_total body 12 (omega arith) in
    let (q, eq) = u32_at_total body 16 (omega arith) in
    let (qt, eqt) = u32_at_total body 20 (omega arith) in
    rw (ep, et, ec, es, eq, eqt) (_, refl, ground arith)

parse_body-Reports : (what : ℕ) (body : List ℕ) → Reports (parse_body what body)
unfolding parse_body
parse_body-Reports what body =
    elim (Bool-cases (what == proc_event_fork && leb fork_payload_size (length body))) [
      | inl f ↦ rw f (parse_fork-Reports body (ground arith))
      | inr nf ↦
          rw nf
            (elim (Bool-cases (what == proc_event_exec && leb exec_payload_size (length body))) [
              | inl x ↦ rw x (parse_exec-Reports body (ground arith))
              | inr nx ↦
                  rw nx
                    (elim (Bool-cases
                      (what == proc_event_exit && leb exit_payload_size (length body))) [
                        | inl e ↦ rw e (parse_exit-Reports body (ground arith))
                        | inr ne ↦ rw ne ([], refl, tt)
                      ])
            ])
    ]

slice_from_total : (n : ℕ) (xs : List ℕ) → n ≤ length xs → slice_from n xs ≡ some (drop n xs)
unfolding slice_from
slice_from_total n xs h = ground arith

parse_payload-Reports : (payload : List ℕ) → Reports (parse_payload payload)
unfolding parse_payload parse_event_data
parse_payload-Reports payload = elim (Bool-cases (ltb (length payload) 36)) [
  | inl short ↦ rw short ([], refl, tt)
  | inr long ↦
      let enough : 36 ≤ length payload = ground arith in
      let data' = drop 20 payload in
      let size : length data' ≡ length payload - 20 = length-drop 20 payload in
      let (w, ew) = u32_at_total data' 0 (omega arith) in
      let (c, ec) = u32_at_total data' 4 (omega arith) in
      let (l, el) = u32_at_total data' 8 (omega arith) in
      let (h, eh) = u32_at_total data' 12 (omega arith) in
      rw long (
        rw (slice_from_total 20 payload (omega arith)) (
          rw (ew, ec, el, eh, slice_from_total 16 data' (omega arith))
            (parse_body-Reports w (drop 16 data'))))
]

-- Whatever the bytes are, also where several records are packed into them, parsing reads nothing
-- outside them: it returns, with at most one event, and the process of that event has a positive
-- PID.
pub parse_events-in_bounds :
    (packet : List ℕ)
    → (events : List ProcEvent) × (parse_events packet ≡ some events) × IsReport events
unfolding parse_events
parse_events-in_bounds packet = elim (Bool-cases (ltb (length packet) 52)) [
  | inl short ↦ rw short ([], refl, tt)
  | inr long ↦
      rw long
        (rw (slice_from_total 16 packet (ground arith)) (parse_payload-Reports (drop 16 packet)))
]
