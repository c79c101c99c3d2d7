-- ===== src/Console/Execute.antt =====
-- `system_execute_line` (grbl/system.c): one function for each command, with the status that it
-- returns. The safety door's pin is not enabled, so the door is never ajar.
use uno_pen_plotter.Prelude.{
  ℕ, ◌+◌, Bool, true, false, not, ◌&&◌, ◌||◌, Option, none, some, ◌==◌, if◌then◌else◌,
}
use uno_pen_plotter.System.{Machine, State}
use uno_pen_plotter.System as SystemModel
use uno_pen_plotter.System.Flags.{system_set_exec_state_flag}
use uno_pen_plotter.System.Exec
use uno_pen_plotter.Outputs.{mc_reset}
use uno_pen_plotter.Protocol.Hold.{is_idle, is_alarm, is_jog}
use uno_pen_plotter.Settings.Saved.{
  Restore, restore_all, settings_restore, settings_store_global_setting,
}
use uno_pen_plotter.Console.{World, Parts, Report, report, number_at, shift_line, status_code}
use uno_pen_plotter.Console.Startup.{
  n_startup_line, system_execute_startup, print_startup_lines, store_startup, read_info, store_info,
  report_ngc_parameters, coord_records, synchronize_times,
}

abbrev pub status_ok : ℕ
status_ok = 0

abbrev pub status_bad_number_format : ℕ
status_bad_number_format = 2

abbrev pub status_invalid_statement : ℕ
status_invalid_statement = 3

abbrev pub status_setting_disabled : ℕ
status_setting_disabled = 5

abbrev pub status_idle_error : ℕ
status_idle_error = 8

abbrev pub set_state : {F : Type 0} → State → World F → World F
set_state state w = record w { machine = record (w.machine) { state = state } }

abbrev pub reset : {F : Type 0} → World F → World F
reset w = record w { machine = mc_reset w.machine }

abbrev pub is_check_mode : State → Bool
is_check_mode State.check_mode = true
is_check_mode _ = false

-- sys.state & (STATE_CYCLE | STATE_HOLD)
abbrev pub is_cycle_hold : State → Bool
is_cycle_hold State.cycle = true
is_cycle_hold State.hold = true
is_cycle_hold _ = false

-- $J=
unfoldable pub jog_command : {F : Type 0} → Parts F → World F → ℕ × World F
jog_command parts w =
    if not (is_idle w.machine.state) && not (is_jog w.machine.state)
    then (status_idle_error, w)
    else if not (w.line 2 == b'=')
    then (status_invalid_statement, w)
    else parts.gc_execute_line w

-- $$
unfoldable pub settings_command : {F : Type 0} → World F → ℕ × World F
settings_command w =
    if is_cycle_hold w.machine.state
    then (status_idle_error, w)
    else (status_ok, report Report.grbl_settings w)

-- $C
unfoldable pub check_command : {F : Type 0} → World F → ℕ × World F
check_command w =
    if is_check_mode w.machine.state
    then (status_ok, report (Report.feedback 5) (reset w))
    else if not (is_idle w.machine.state)
    then (status_idle_error, w)
    else (status_ok, report (Report.feedback 4) (set_state State.check_mode w))

-- $X
unfoldable pub unlock_command : {F : Type 0} → World F → ℕ × World F
unlock_command w =
    if is_alarm w.machine.state
    then (status_ok, set_state State.idle (report (Report.feedback 3) w))
    else (status_ok, w)

-- $$, $G, $C and $X
unfoldable pub plain_command : {F : Type 0} → World F → ℕ × World F
plain_command w =
    if not (w.line 2 == 0)
    then (status_invalid_statement, w)
    else if w.line 1 == b'$'
    then settings_command w
    else if w.line 1 == b'G'
    then (status_ok, report Report.gcode_modes w)
    else if w.line 1 == b'C'
    then check_command w
    else unlock_command w

-- $H
unfoldable pub home_command : {F : Type 0} → Parts F → World F → ℕ × World F
home_command parts w =
    if not w.store.settings.flags.homing_enable
    then (status_setting_disabled, w)
    else (let w₁ = set_state State.homing w in
        if not (w₁.line 2 == 0)
        then (status_invalid_statement, w₁)
        else (let w₂ = parts.mc_homing_cycle w₁ in
            if w₂.machine.abort
            then (status_ok, w₂)
            else (let w₃ = set_state State.idle w₂ in
                let w₄ = record w₃ {
                  machine = SystemModel.call SystemModel.Call.st_go_idle w₃.machine;
                } in
                (status_ok, if w₄.line 2 == 0 then system_execute_startup parts w₄ else w₄))))

-- $SLP
unfoldable pub sleep_command : {F : Type 0} → World F → ℕ × World F
sleep_command w =
    if not (w.line 2 == b'L') || (not (w.line 3 == b'P') || not (w.line 4 == 0))
    then (status_invalid_statement, w)
    else (status_ok, record w { machine = system_set_exec_state_flag Exec.sleep w.machine })

-- $I and $I=
unfoldable pub info_command : {F : Type 0} → Parts F → World F → ℕ × World F
info_command parts w =
    if w.line 2 == 0
    then (status_ok, report Report.build_info (read_info parts w))
    else if not (w.line 2 == b'=')
    then (status_invalid_statement, w)
    else (status_ok, store_info parts (record w { line = shift_line 3 w.line }))

-- The argument of `settings_restore` that $RST= names.
abbrev pub restore_flag : ℕ → Option Restore
restore_flag c =
    if c == b'$'
    then some
        (record { defaults = true; parameters = false; startup_lines = false; build_info = false })
    else if c == b'#'
    then some
        (record { defaults = false; parameters = true; startup_lines = false; build_info = false })
    else if c == b'*'
    then some restore_all
    else none

unfoldable pub restore_settings : {F : Type 0} → Parts F → Option Restore → World F → ℕ × World F
restore_settings parts none w = (status_invalid_statement, w)
restore_settings parts (some flag) w = (
  status_ok,
  reset (
      report (Report.feedback 9) (
        synchronize_times parts (if flag.parameters then coord_records else 0) (record w {
          store = settings_restore parts.program parts.layout parts.defaults flag w.store;
        }))),
)

-- $RST=
unfoldable pub restore_command : {F : Type 0} → Parts F → World F → ℕ × World F
restore_command parts w =
    if not (w.line 2 == b'S')
      || (not (w.line 3 == b'T') || (not (w.line 4 == b'=') || not (w.line 6 == 0)))
    then (status_invalid_statement, w)
    else restore_settings parts (restore_flag (w.line 5)) w

-- The g-code of a startup line is executed before it is stored.
unfoldable pub store_line : {F : Type 0} → Parts F → F → ℕ → World F → ℕ × World F
store_line parts parameter from w =
    let (status, w₁) = parts.gc_execute_line (record w { line = shift_line from w.line }) in
    if status == 0
    then (status_ok, store_startup parts (parts.setting_float.trunc parameter) w₁)
    else (status, w₁)

unfoldable pub store_value : {F : Type 0} → Parts F → F → Option (F × ℕ) → World F → ℕ × World F
store_value parts parameter none w = (status_bad_number_format, w)
store_value parts parameter (some (value, i)) w =
    if not (w.line i == 0) || parts.exceeds_255 parameter
    then (status_invalid_statement, w)
    else (let (status, store) =
          settings_store_global_setting parts.program parts.layout parts.setting_float
            (parts.to_uint8 parameter) value w.store in
        (status_code status, record w { store = store }))

-- $x=val and $Nx=line, once x has been read.
unfoldable pub store_number : {F : Type 0} → Parts F → Bool → Option (F × ℕ) → World F → ℕ × World F
store_number parts startup none w = (status_bad_number_format, w)
store_number parts startup (some (parameter, i)) w =
    if not (w.line i == b'=')
    then (status_invalid_statement, w)
    else if startup
    then store_line parts parameter (i + 1) w
    else store_value parts parameter (number_at parts.text_float w.line (i + 1)) w

unfoldable pub store_command : {F : Type 0} → Parts F → Bool → ℕ → World F → ℕ × World F
store_command parts startup i w = store_number parts startup (number_at parts.text_float w.line i) w

-- $N and $Nx=
unfoldable pub startup_command : {F : Type 0} → Parts F → World F → ℕ × World F
startup_command parts w =
    if w.line 2 == 0
    then (status_ok, print_startup_lines parts n_startup_line 0 w)
    else if not (is_idle w.machine.state)
    then (status_idle_error, w)
    else store_command parts true 2 w

-- The commands that need IDLE or ALARM.
unfoldable pub guarded_command : {F : Type 0} → Parts F → World F → ℕ × World F
guarded_command parts w =
    let c = w.line 1 in
    if not (is_idle w.machine.state || is_alarm w.machine.state)
    then (status_idle_error, w)
    else if c == b'#'
    then if not (w.line 2 == 0)
      then (status_invalid_statement, w)
      else (status_ok, report_ngc_parameters parts w)
    else if c == b'H'
    then home_command parts w
    else if c == b'S'
    then sleep_command w
    else if c == b'I'
    then info_command parts w
    else if c == b'R'
    then restore_command parts w
    else if c == b'N'
    then startup_command parts w
    else store_command parts false 1 w

abbrev pub is_plain : ℕ → Bool
is_plain c = c == b'$' || (c == b'G' || (c == b'C' || c == b'X'))

unfoldable pub system_execute_line : {F : Type 0} → Parts F → World F → ℕ × World F
system_execute_line parts w =
    let c = w.line 1 in
    if c == 0
    then (status_ok, report Report.grbl_help w)
    else if c == b'J'
    then jog_command parts w
    else if is_plain c
    then plain_command w
    else guarded_command parts w
