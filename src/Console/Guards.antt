-- ===== src/Console/Guards.antt =====
-- What the `$` commands may do in which state.
use uno_pen_plotter.Prelude.{ℕ, ◌≡◌, ◌⊎◌, Bool, true, false, ◌&&◌, ◌||◌, arith, ◌==◌}
use uno_pen_plotter.System.{Machine}
use uno_pen_plotter.Outputs.{mc_reset}
use uno_pen_plotter.Protocol.Hold.{is_idle, is_alarm, is_jog}
use uno_pen_plotter.Console.{World, Parts}
use uno_pen_plotter.Console.Execute.{
  status_idle_error, jog_command, settings_command, check_command, unlock_command, plain_command,
  guarded_command, is_plain, system_execute_line,
}

plain-store : {F : Type 0} (w : World F) → (plain_command w).1.store ≡ w.store
unfolding plain_command settings_command check_command unlock_command
plain-store w = ground arith

refused-jog :
    {F : Type 0} (parts : Parts F) (w : World F)
    → is_idle w.machine.state || is_jog w.machine.state ≡ false
    → jog_command parts w ≡ (status_idle_error, w)
unfolding jog_command
refused-jog parts w h = ground arith

refused-guarded :
    {F : Type 0} (parts : Parts F) (w : World F)
    → is_idle w.machine.state || is_alarm w.machine.state ≡ false
    → guarded_command parts w ≡ (status_idle_error, w)
unfolding guarded_command
refused-guarded parts w h = ground arith

-- The commands that every state allows.
abbrev pub is_open : ℕ → Bool
is_open c = c == 0 || is_plain c

-- In every state but IDLE, ALARM and JOG, no `$` line changes the settings or the EEPROM; and every
-- command but the help, $$, $G, $C and $X is refused with the idle error and changes nothing at all.
pub busy-store :
    {F : Type 0} (parts : Parts F) (w : World F)
    → is_idle w.machine.state || (is_alarm w.machine.state || is_jog w.machine.state) ≡ false
    → ((system_execute_line parts w).1.store ≡ w.store)
      × ((is_open (w.line 1) ≡ true) ⊎ (system_execute_line parts w ≡ (status_idle_error, w)))
unfolding system_execute_line
busy-store parts w h = (
  ground (
    arith,
    plain-store w,
    refused-jog parts w (ground arith),
    refused-guarded parts w (ground arith),
  ),
  ground (arith, refused-jog parts w (ground arith), refused-guarded parts w (ground arith)),
)

mc_reset-state : (m : Machine) → (mc_reset m).state ≡ m.state
unfolding mc_reset
mc_reset-state m = ground arith

-- Lines that go over records of the EEPROM: $#, $RST=, $N and $H, but not $Nx=.
abbrev pub goes_over_records : {F : Type 0} → World F → Bool
goes_over_records w =
    let c = w.line 1 in c == b'#' || (c == b'R' || (c == b'H' || (c == b'N' && w.line 2 == 0)))
