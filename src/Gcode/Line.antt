-- ===== src/Gcode/Line.antt =====
-- The end of step 4 of `gc_execute_line` (grbl/gcode.c): the program flow and the jog; the line as a
-- whole, and the parser's other entries.
use uno_pen_plotter.Prelude.{ℕ, Bool, true, false, not, ◌||◌, List, if◌then◌else◌}
use uno_pen_plotter.Prelude.Int.{pos}
use uno_pen_plotter.System.{disable}
use uno_pen_plotter.System.Flags.{system_set_exec_state_flag}
use uno_pen_plotter.System.Exec
use uno_pen_plotter.Outputs.{spindle_set_state, coolant_set_state}
use uno_pen_plotter.Settings.{Store}
use uno_pen_plotter.Gcode.{
  Float, Status, Vector, Motion, NonModal, Plane, ProgramFlow, ParserState, Call, World,
}
use uno_pen_plotter.Gcode.Outcome.{Result, done, fail}
use uno_pen_plotter.Gcode.Words.{CommandWords, Parse}
use uno_pen_plotter.Gcode.Axes.{read_coord_data, ◌>>=◌, pure, is_absolute_override}
use uno_pen_plotter.Gcode.Moves.{error_checks}
use uno_pen_plotter.Gcode.Reading.{read_line_words, zero_vector}
use uno_pen_plotter.Gcode.Execute.{
  Run, Parts, call, is_check_mode, system_flag_wco_change, zero_plan, laser_flags, set_feed_rate,
  set_spindle_speed, control_spindle, control_coolant, execute_dwell, set_tool_length,
  set_coord_system,
}
use uno_pen_plotter.Gcode.Actions.{run_non_modal, run_motion, set_position}

abbrev pub set_flow : {F : Type 0} → ProgramFlow → World F → World F
set_flow flow w = record w {
  gc_state = record (w.gc_state) { modal = record (w.gc_state.modal) { program_flow = flow } };
}

-- The modes that the end of a program resets, and the overrides.
unfoldable pub reset_modes : {F : Type 0} → World F → World F
reset_modes w =
    let state = w.gc_state in
    record w {
      gc_state = record state {
        modal = record (state.modal) {
          motion = Motion.linear;
          plane_select = Plane.plane_xy;
          incremental = false;
          inverse_time = false;
          coord_select = 0;
        };
      };
      machine = record (w.machine) {
        modal_spindle = disable;
        modal_coolant = false;
        f_override = 100;
        r_override = 100;
        spindle_speed_ovr = 100;
      };
    }

-- After G54 is read: the outputs are stopped.
unfoldable pub stop_outputs : {F : Type 0} → Parts F → Vector F → World F → World F
unfolding system_flag_wco_change
stop_outputs parts coord_system w =
    let w' =
      system_flag_wco_change parts
        (record w { gc_state = record (w.gc_state) { coord_system = coord_system } }) in
    record w' { machine = coolant_set_state false (spindle_set_state disable w'.machine) }

abbrev pub finish_program : {F : Type 0} → Parts F → World F → Status × World F
finish_program parts w =
    (Status.ok, set_flow ProgramFlow.running (call parts Call.report_program_end w))

abbrev is_read_fail : Status → Bool
is_read_fail Status.setting_read_fail = true
is_read_fail _ = false

-- What a refused line leaves. A record that cannot be read is written anew, and the buffer is
-- synchronised before that, which the store takes no part in.
abbrev pub refuse : {F : Type 0} → Parts F → World F → Status → Store F → World F
refuse parts w status store =
    let w' = if is_read_fail status then call parts Call.protocol_buffer_synchronize w else w in
    record w' { store = store }

-- G54 has been read, or not.
abbrev pub stop_program :
    {F : Type 0} → Parts F → World F → Result (Vector F) × Store F → Status × World F
stop_program parts w (done v, store) =
    finish_program parts (stop_outputs parts v (record w { store = store }))
stop_program parts w (fail status, store) = (status, refuse parts w status store)

-- M2 and M30
unfoldable pub end_program : {F : Type 0} → Parts F → World F → Status × World F
unfolding reset_modes stop_outputs
end_program parts w =
    let w' = reset_modes w in
    if not (is_check_mode w'.machine.state)
    then stop_program parts w' (read_coord_data parts.memory 0 w'.store)
    else finish_program parts w'

-- M0
unfoldable pub pause_program : {F : Type 0} → Parts F → World F → World F
pause_program parts w =
    let w' =
      if not (is_check_mode w.machine.state)
      then call parts Call.protocol_execute_realtime
          (record w { machine = system_set_exec_state_flag Exec.feed_hold w.machine })
      else w in
    set_flow ProgramFlow.running w'

abbrev pub flow_action : {F : Type 0} → Parts F → ProgramFlow → World F → Status × World F
flow_action parts ProgramFlow.running w = (Status.ok, w)
flow_action parts ProgramFlow.paused w =
    (Status.ok, pause_program parts (call parts Call.protocol_buffer_synchronize w))
flow_action parts _ w = end_program parts (call parts Call.protocol_buffer_synchronize w)

-- [21. Program flow]
unfoldable pub run_flow : {F : Type 0} → Parts F → Parse F → World F → Status × World F
unfolding end_program pause_program
run_flow parts c w =
    let flow = c.block.modal.program_flow in flow_action parts flow (set_flow flow w)

-- [0.] to [8.]: what is recorded for the motions.
unfoldable pub set_conditions : {F : Type 0} → Parts F → Parse F → World F → Run F
unfolding laser_flags set_feed_rate set_spindle_speed control_spindle control_coolant
set_conditions parts c w = control_coolant parts c (
    control_spindle parts c (set_spindle_speed parts (laser_flags c w) c (set_feed_rate parts c w)))

-- [10.] to [17.]
unfoldable pub set_modes : {F : Type 0} → Parts F → Parse F → World F → World F
unfolding execute_dwell set_tool_length set_coord_system
set_modes parts c w = set_coord_system parts c (set_tool_length parts c (execute_dwell parts c w))

-- Step 4, for a line that is no jog.
unfoldable pub execute_block : {F : Type 0} → Parts F → Parse F → World F → Status × World F
unfolding set_conditions set_modes run_non_modal run_motion run_flow
execute_block parts c w =
    let run = set_conditions parts c w in
    run_flow parts c
      (run_motion parts c run.plan (run_non_modal parts c run.plan (set_modes parts c run.world)))

abbrev is_no_action : NonModal → Bool
is_no_action NonModal.no_action = true
is_no_action _ = false

abbrev is_jog_result_ok : Status → Bool
is_jog_result_ok Status.ok = true
is_jog_result_ok _ = false

-- A jog allows commands of the groups 0, 3 and 6 only.
abbrev pub has_foreign_command : CommandWords → Bool
has_foreign_command c =
    c.g1
    || (c.g2
        || (c.g4 || (c.g5 || (c.g7 || (c.g8 || (c.g12 || (c.g13 || (c.m4 || (c.m7 || c.m8)))))))))

-- Step 4, for a jog.
unfoldable pub execute_jog : {F : Type 0} → Parts F → Parse F → World F → Status × World F
execute_jog parts c w =
    let plan = record (zero_plan parts.float) {
      spindle_speed = w.gc_state.spindle_speed;
      spindle = w.machine.modal_spindle;
      coolant = w.machine.modal_coolant;
    } in
    let status = parts.jog_result w in
    let w' = call parts (Call.jog_execute plan c.block) w in
    let command = c.block.non_modal_command in
    if has_foreign_command c.command_words
      || not (is_absolute_override command || is_no_action command)
    then (Status.invalid_jog_command, w)
    else (status, if is_jog_result_ok status then set_position c.block.values.xyz w' else w')

-- The steps 1 to 3.
unfoldable pub check_line : {F : Type 0} → Parts F → List ℕ → World F → Result (Parse F) × Store F
unfolding read_line_words error_checks
check_line parts line w =
    (pure (read_line_words parts.float line w) >>= error_checks parts.float parts.memory w.gc_state)
      w.store

-- Step 4: what the checks read from the EEPROM, and wrote to it, is in the store.
abbrev pub execute_checked :
    {F : Type 0} → Parts F → World F → Result (Parse F) × Store F → Status × World F
execute_checked parts w (done c, store) =
    if c.jog_motion
    then execute_jog parts c (record w { store = store })
    else execute_block parts c (record w { store = store })
execute_checked parts w (fail status, store) = (status, refuse parts w status store)

unfoldable pub gc_execute_line : {F : Type 0} → Parts F → List ℕ → World F → Status × World F
unfolding check_line execute_block execute_jog
gc_execute_line parts line w = execute_checked parts w (check_line parts line w)

-- memset(&gc_state, 0, sizeof(parser_state_t)), but for the two modes that are in `Machine`.
abbrev zero_state : {F : Type 0} → Float F → ParserState F
zero_state float = record {
  modal = record {
    motion = Motion.seek;
    inverse_time = false;
    inches = false;
    incremental = false;
    plane_select = Plane.plane_xy;
    dynamic_offset = false;
    coord_select = 0;
    program_flow = ProgramFlow.running;
  };
  spindle_speed = float.decimal 0 0;
  feed_rate = float.decimal 0 0;
  tool = 0;
  line_number = pos 0;
  position = zero_vector float;
  coord_system = zero_vector float;
  coord_offset = zero_vector float;
  tool_length_offset = float.decimal 0 0;
}

-- False: G54 cannot be read, which is reported; it is zero then.
unfoldable pub gc_init : {F : Type 0} → Parts F → World F → Bool × World F
gc_init parts w =
    let state = zero_state parts.float in
    let cleared = record w {
      gc_state = state;
      machine = record (w.machine) { modal_spindle = disable; modal_coolant = false };
    } in
    let (r, store) = read_coord_data parts.memory 0 w.store in
    elim r [
      | done v ↦
          (true, record cleared { store = store; gc_state = record state { coord_system = v } })
      | fail status ↦ (false, refuse parts cleared status store)
    ]
