-- ===== src/Psi.antt =====
-- daemon/src/psi.rs: the trigger on memory pressure and the parser of its averages, with the thread
-- of daemon/src/main.rs that waits for the trigger. The floating-point numbers and their parser are
-- parameters.
use bssl_ram.Prelude.{
  ℕ, ◌/◌, ◌%◌, Bool, true, false, not, Option, none, some, List, [], ◌∷◌, ◌++◌, ◌==◌, leb,
  if◌then◌else◌,
}
use bssl_ram.Prelude.Text.{Text, text, beq_text, lines, split_whitespace, split_at}
use bssl_ram.Prelude.Decimal.{show_number}

-- What the system answers to the registration of a trigger.
pub record PsiFile : Type 0 where
  pub exists : Bool
  pub opens : Bool
  pub accepts : Text → Bool

pub data OpenError : Type 0 where
  missing not_opened not_written : OpenError

-- The trigger that is registered, as the text that was written.
pub data Opened : Type 0 where
  trigger : Text → Opened
  not_open : OpenError → Opened

abbrev pub trigger_text : ℕ → ℕ → Text
trigger_text stall_us window_us =
    text "some " ++ (show_number stall_us ++ (text " " ++ show_number window_us))

unfoldable pub open_memory : PsiFile → ℕ → ℕ → Opened
open_memory file stall_us window_us =
    if not file.exists
    then not_open missing
    else if not file.opens
    then not_open not_opened
    else if file.accepts (trigger_text stall_us window_us)
    then trigger (trigger_text stall_us window_us)
    else not_open not_written

-- `timeout.as_millis().try_into().unwrap_or(i32::MAX)`
abbrev pub timeout_ms : ℕ → ℕ
timeout_ms timeout = if leb timeout 2_147_483_647 then timeout else 2_147_483_647

-- What `poll` returns: an error, which may be EINTR, nothing in time, or the events of the
-- descriptor.
pub data Polled : Type 0 where
  poll_failed : Bool → Polled
  timed_out : Polled
  revents : ℕ → Polled

-- Whether a bit is set, by its value.
abbrev pub has_bit : ℕ → ℕ → Bool
has_bit events bit = events / bit % 2 == 1

abbrev pub pollpri : ℕ
pollpri = 2

abbrev pub pollerr : ℕ
pollerr = 8

-- `poll_event`: whether the trigger fired, or an error.
unfoldable pub poll_event : Polled → Option Bool
poll_event (poll_failed interrupted) = if interrupted then some false else none
poll_event timed_out = some false
poll_event (revents events) = if has_bit events pollerr then none else some (has_bit events pollpri)

-- What the thread does.
pub data PsiAction : Type 0 where
  notified backed_off : PsiAction

-- The body of `spawn_psi_thread` for the result of `poll_event`.
abbrev pub act_on : Option Bool → List PsiAction → List PsiAction
act_on (some true) rest = notified ∷ rest
act_on (some false) rest = rest
act_on none rest = backed_off ∷ rest

-- Its loop: the shutdown flag and the result of `poll`, turn by turn.
unfoldable pub psi_thread : List (Bool × Polled) → List PsiAction
psi_thread [] = []
psi_thread ((shutdown, polled) ∷ rest) =
    let later = psi_thread rest in if shutdown then [] else act_on (poll_event polled) later

pub record MemoryPressure (F : Type 0) : Type 0 where
  pub some_avg10 : F
  pub some_avg60 : F
  pub some_avg300 : F
  pub full_avg10 : F
  pub full_avg60 : F
  pub full_avg300 : F

-- The averages of one line.
pub record Averages (F : Type 0) : Type 0 where
  pub a10 : F
  pub a60 : F
  pub a300 : F

module _ {F : Type 0} (zero : F) (parse_f32 : Text → Option F) where
  abbrev pub no_averages : Averages F
  no_averages = record { a10 = zero; a60 = zero; a300 = zero }

  abbrev pub no_pressure : MemoryPressure F
  no_pressure = record {
    some_avg10 = zero;
    some_avg60 = zero;
    some_avg300 = zero;
    full_avg10 = zero;
    full_avg60 = zero;
    full_avg300 = zero;
  }

  -- The key and the value of `key=value`; 61 is the equals sign.
  unfoldable pub split_pair : Text → Text × F
  split_pair kv = elim (split_at 61 kv) [
    | none ↦ (kv, zero)
    | some (key, v) ↦ (key, elim (parse_f32 v) [ none ↦ zero | some x ↦ x ])
  ]

  unfoldable pub put_pair : Averages F → Text → Averages F
  put_pair a kv =
      let (key, val) = split_pair kv in
      if beq_text key (text "avg10")
      then record a { a10 = val }
      else if beq_text key (text "avg60")
      then record a { a60 = val }
      else if beq_text key (text "avg300")
      then record a { a300 = val }
      else a

  unfoldable pub put_pairs : Averages F → List Text → Averages F
  put_pairs a [] = a
  put_pairs a (kv ∷ parts) = put_pairs (put_pair a kv) parts

  unfoldable pub put_kind : MemoryPressure F → Text → Averages F → MemoryPressure F
  put_kind p kind a =
      if beq_text kind (text "some")
      then record p { some_avg10 = a.a10; some_avg60 = a.a60; some_avg300 = a.a300 }
      else if beq_text kind (text "full")
      then record p { full_avg10 = a.a10; full_avg60 = a.a60; full_avg300 = a.a300 }
      else p

  -- One line: a blank one is passed over.
  unfoldable pub put_line : MemoryPressure F → List Text → MemoryPressure F
  put_line p [] = p
  put_line p (kind ∷ parts) = put_kind p kind (put_pairs no_averages parts)

  unfoldable pub put_lines : MemoryPressure F → List Text → MemoryPressure F
  put_lines p [] = p
  put_lines p (line ∷ rest) = put_lines (put_line p (split_whitespace line)) rest

  unfoldable pub parse_memory : Text → MemoryPressure F
  parse_memory raw = put_lines no_pressure (lines raw)
