-- ===== src/Tests/Psi.antt =====
-- The trigger's text and a file of averages, through daemon/src/psi.rs. The averages are read as
-- their whole part.
use bssl_ram.Prelude.{ℕ, ◌≡◌, refl, true, false, Option, none, some, [], ◌∷◌, ◌++◌}
use bssl_ram.Prelude.Text
use bssl_ram.Prelude.Text.{Text, text, from_str_radix, split_at}
use bssl_ram.Prelude.Decimal.{show_digits}
use bssl_ram.Psi
use bssl_ram.Psi.{
  MemoryPressure, Polled, poll_failed, timed_out, revents, notified, backed_off, psi_thread,
  parse_memory, trigger_text,
}

default_trigger : trigger_text 150_000 1_000_000 ≡ text "some 150000 1000000"
unfolding show_digits
default_trigger = refl

abbrev whole_part : Text → Option ℕ
whole_part s = elim (split_at 46 s) [
  | none ↦ from_str_radix 10 1000 s
  | some (before, after) ↦ from_str_radix 10 1000 before
]

abbrev two_lines : Text
two_lines =
    text "some avg10=12.5 avg60=3.05 avg300=junk total=12345"
    ++ 10 ∷ text "full avg10=1.00 avg300=7.00 total=0"
    ++ 10 ∷ []

two_lines_parsed : parse_memory 0 whole_part two_lines ≡ record {
  some_avg10 = 12;
  some_avg60 = 3;
  some_avg300 = 0;
  full_avg10 = 1;
  full_avg60 = 0;
  full_avg300 = 7;
}
unfolding parse_memory Psi.put_lines Text.lines Psi.put_line Text.split_whitespace Psi.put_kind
    Psi.put_pairs Psi.put_pair Psi.split_pair split_at from_str_radix
two_lines_parsed = refl

-- The trigger fires, nothing comes, the trigger is lost, and the daemon stops.
thread_actions :
    psi_thread (
      (false, revents 2)
      ∷ (false, timed_out)
      ∷ (false, poll_failed true)
      ∷ (false, revents 10)
      ∷ (true, timed_out)
      ∷ (false, revents 2)
      ∷ [])
    ≡ notified ∷ backed_off ∷ []
unfolding psi_thread Psi.poll_event
thread_actions = refl
