-- ===== src/Protocol/Commands.antt =====
-- The real-time characters that the receive interrupt picks off the stream (grbl/serial.c), with
-- their codes (grbl/config.h).
use uno_pen_plotter.Prelude.{ℕ, Bool, ◌||◌, ltb, ◌==◌, if◌then◌else◌}
use uno_pen_plotter.System.{Machine}
use uno_pen_plotter.System.Flags.{
  system_set_exec_state_flag, system_set_exec_motion_override_flag,
  system_set_exec_accessory_override_flag,
}
use uno_pen_plotter.System.Exec
use uno_pen_plotter.System.Overrides
use uno_pen_plotter.Outputs.{mc_reset}
use uno_pen_plotter.Protocol.Hold.{is_jog}

-- The characters that are not written to the buffer.
abbrev pub is_realtime : ℕ → Bool
is_realtime c = c == 24 || (c == b'?' || (c == b'~' || (c == b'!' || ltb 127 c)))

-- Feed and rapid overrides, 0x90 to 0x97.
unfoldable pub motion_command : ℕ → Machine → Machine
motion_command c m =
    if c == 144
    then system_set_exec_motion_override_flag Overrides.feed_reset m
    else if c == 145
    then system_set_exec_motion_override_flag Overrides.feed_coarse_plus m
    else if c == 146
    then system_set_exec_motion_override_flag Overrides.feed_coarse_minus m
    else if c == 147
    then system_set_exec_motion_override_flag Overrides.feed_fine_plus m
    else if c == 148
    then system_set_exec_motion_override_flag Overrides.feed_fine_minus m
    else if c == 149
    then system_set_exec_motion_override_flag Overrides.rapid_reset m
    else if c == 150
    then system_set_exec_motion_override_flag Overrides.rapid_medium m
    else if c == 151
    then system_set_exec_motion_override_flag Overrides.rapid_low m
    else m

-- Spindle and coolant overrides, 0x99 to 0x9E and 0xA0. The mist toggle is compiled with ENABLE_M7.
unfoldable pub accessory_command : ℕ → Machine → Machine
accessory_command c m =
    if c == 153
    then system_set_exec_accessory_override_flag Overrides.spindle_reset m
    else if c == 154
    then system_set_exec_accessory_override_flag Overrides.spindle_coarse_plus m
    else if c == 155
    then system_set_exec_accessory_override_flag Overrides.spindle_coarse_minus m
    else if c == 156
    then system_set_exec_accessory_override_flag Overrides.spindle_fine_plus m
    else if c == 157
    then system_set_exec_accessory_override_flag Overrides.spindle_fine_minus m
    else if c == 158
    then system_set_exec_accessory_override_flag Overrides.spindle_stop m
    else if c == 160
    then system_set_exec_accessory_override_flag Overrides.flood_toggle m
    else m

-- The switch over the extended characters; an unknown one is thrown away.
unfoldable pub extended_command : ℕ → Machine → Machine
extended_command c m =
    if c == 132
    then system_set_exec_state_flag Exec.safety_door m
    else if c == 133
    then if is_jog m.state then system_set_exec_state_flag Exec.motion_cancel m else m
    else accessory_command c (motion_command c m)

unfoldable pub realtime_command : ℕ → Machine → Machine
realtime_command c m =
    if c == 24
    then mc_reset m
    else if c == b'?'
    then system_set_exec_state_flag Exec.status_report m
    else if c == b'~'
    then system_set_exec_state_flag Exec.cycle_start m
    else if c == b'!'
    then system_set_exec_state_flag Exec.feed_hold m
    else extended_command c m
