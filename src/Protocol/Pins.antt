-- ===== src/Protocol/Pins.antt =====
-- The control pins and their interrupt (grbl/system.c).
use uno_pen_plotter.Prelude.{◌≡◌, refl, Bool, false, not, ◌||◌, arith, if◌then◌else◌}
use uno_pen_plotter.System.{Machine}
use uno_pen_plotter.System.Flags.{system_set_exec_state_flag}
use uno_pen_plotter.System.Exec
use uno_pen_plotter.Outputs.{mc_reset}
use uno_pen_plotter.Protocol.Commands.{realtime_command}

-- One bit for each control pin.
pub record Control : Type 0 where
  pub reset : Bool
  pub feed_hold : Bool
  pub cycle_start : Bool

abbrev pub any_control : Control → Bool
any_control c = c.reset || (c.feed_hold || c.cycle_start)

-- The levels of the pins, which are high when they are not triggered.
unfoldable pub system_control_get_state : Control → Control
system_control_get_state level =
    let pin : Control = record {
      reset = not level.reset;
      feed_hold = not level.feed_hold;
      cycle_start = not level.cycle_start;
    } in
    if any_control pin
    then pin
    else record { reset = false; feed_hold = false; cycle_start = false }

abbrev pub when : Bool → (Machine → Machine) → Machine → Machine
when b f m = if b then f m else m

unfoldable pub control_interrupt : Control → Machine → Machine
control_interrupt level m =
    let pin = system_control_get_state level in
    if any_control pin
    then when pin.feed_hold (system_set_exec_state_flag Exec.feed_hold) (
        when pin.cycle_start (system_set_exec_state_flag Exec.cycle_start)
          (when pin.reset mc_reset m))
    else m

start_character :
    (m : Machine) → realtime_command b'~' m ≡ system_set_exec_state_flag Exec.cycle_start m
unfolding realtime_command
start_character m = refl

hold_character :
    (m : Machine) → realtime_command b'!' m ≡ system_set_exec_state_flag Exec.feed_hold m
unfolding realtime_command
hold_character m = refl

reset_character : (m : Machine) → realtime_command 24 m ≡ mc_reset m
unfolding realtime_command
reset_character m = refl

-- A change of the control pins does what the characters for the triggered pins do when they are
-- received one after the other: the reset, the cycle start `~` and the feed hold `!`.
pub pins_like_characters :
    (level : Control) (m : Machine)
    → control_interrupt level m
      ≡ when (not level.feed_hold) (realtime_command b'!') (
          when
            (not level.cycle_start)
            (realtime_command b'~')
            (when (not level.reset) (realtime_command 24) m))
unfolding control_interrupt system_control_get_state
pins_like_characters level m = ground (
  arith,
  reset_character m,
  start_character m,
  start_character (mc_reset m),
  hold_character m,
  hold_character (mc_reset m),
  hold_character (system_set_exec_state_flag Exec.cycle_start m),
  hold_character (system_set_exec_state_flag Exec.cycle_start (mc_reset m)),
)
