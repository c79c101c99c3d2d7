-- ===== src/Gcode/Execute.antt =====
-- Step 4 of `gc_execute_line` (grbl/gcode.c), and the parser's other entries. A call of another
-- component may change everything but the parser's own modes: only `gc_sync_position`, which the
-- real-time code calls, writes `gc_state` from outside.
use uno_pen_plotter.Prelude.{Bool, true, false, not, ◌&&◌, ◌||◌, ◌∷◌, ◌==◌, if◌then◌else◌}
use uno_pen_plotter.System.{Machine, State, Spindle, disable, cw, ccw}
use uno_pen_plotter.Outputs.{is_cw}
use uno_pen_plotter.Settings.{Store}
use uno_pen_plotter.Gcode.{Float, Status, Vector, any_axis_word, Motion, PlanData, Call, World}
use uno_pen_plotter.Gcode.Words.{Parse}
use uno_pen_plotter.Gcode.Checks.{is_motion_mode, is_tool_length, is_dwell}
use uno_pen_plotter.Gcode.Axes.{Memory}

-- What a call leaves behind. `position` is the position of the parser.
pub record Effect (F : Type 0) : Type 0 where
  pub machine : Machine
  pub store : Store F
  pub position : Vector F

-- GC_UPDATE_POS_*
pub data UpdatePosition : Type 0 where
  update_target update_system update_none : UpdatePosition

-- The other components: what each call does, and what the two calls with a result return.
pub record Parts (F : Type 0) : Type 0 where
  pub float : Float F
  pub memory : Memory F
  pub effect : Call F → World F → Effect F
  pub probe_result : World F → UpdatePosition
  pub jog_result : World F → Status
  -- `sys_position` in mm
  pub system_position : World F → Vector F

abbrev pub call : {F : Type 0} → Parts F → Call F → World F → World F
call parts c w =
    let effect = parts.effect c w in
    record w {
      gc_state = record (w.gc_state) { position = effect.position };
      machine = effect.machine;
      store = effect.store;
      calls = c ∷ w.calls;
    }

abbrev pub is_check_mode : State → Bool
is_check_mode State.check_mode = true
is_check_mode _ = false

unfoldable pub gc_sync_position : {F : Type 0} → Parts F → World F → World F
gc_sync_position parts w = record w {
  gc_state = record (w.gc_state) { position = parts.system_position w };
}

-- It waits for the buffer, since FORCE_BUFFER_SYNC_DURING_WCO_CHANGE is on.
unfoldable pub system_flag_wco_change : {F : Type 0} → Parts F → World F → World F
system_flag_wco_change parts w =
    let w' = call parts Call.protocol_buffer_synchronize w in
    record w' { machine = record (w'.machine) { report_wco_counter = 0 } }

-- The laser's bits of `gc_parser_flags`.
pub record LaserFlags : Type 0 where
  pub force_sync : Bool
  pub disable : Bool

abbrev pub is_feed_motion : Motion → Bool
is_feed_motion Motion.linear = true
is_feed_motion Motion.cw_arc = true
is_feed_motion Motion.ccw_arc = true
is_feed_motion _ = false

-- GC_PARSER_LASER_ISMOTION is not read in this build.
unfoldable pub laser_flags : {F : Type 0} → Parse F → World F → LaserFlags
laser_flags c w =
    let disable = not (is_feed_motion c.block.modal.motion) in
    let is_motion = any_axis_word c.axis_words && is_motion_mode c.axis_command in
    if w.store.settings.flags.laser_mode
    then record {
      disable = disable;
      force_sync =
          not is_motion
          && (is_cw w.machine.modal_spindle
              && (if is_feed_motion w.gc_state.modal.motion then disable else not disable));
    }
    else record { force_sync = false; disable = false }

-- The world and `pl_data` between two steps of the execution.
pub record Run (F : Type 0) : Type 0 where
  pub world : World F
  pub plan : PlanData F

abbrev pub zero_plan : {F : Type 0} → Float F → PlanData F
zero_plan float = record {
  feed_rate = float.decimal 0 0;
  spindle_speed = float.decimal 0 0;
  rapid_motion = false;
  no_feed_override = false;
  inverse_time = false;
  spindle = disable;
  coolant = false;
}

abbrev is_disable : Spindle → Bool
is_disable disable = true
is_disable _ = false

abbrev same_spindle : Spindle → Spindle → Bool
same_spindle disable disable = true
same_spindle cw cw = true
same_spindle ccw ccw = true
same_spindle _ _ = false

abbrev same_bool : Bool → Bool → Bool
same_bool true b = b
same_bool false b = not b

-- [0.], [2.] and [3.]: the line number and the feed rate.
unfoldable pub set_feed_rate : {F : Type 0} → Parts F → Parse F → World F → Run F
set_feed_rate parts c w =
    let state = w.gc_state in
    record {
      world = record w {
        gc_state = record state {
          line_number = c.block.values.n;
          modal = record (state.modal) { inverse_time = c.block.modal.inverse_time };
          feed_rate = c.block.values.f;
        };
      };
      plan = record (zero_plan parts.float) {
        inverse_time = c.block.modal.inverse_time;
        feed_rate = c.block.values.f;
      };
    }

-- [4. Set spindle speed]
unfoldable pub set_spindle_speed : {F : Type 0} → Parts F → LaserFlags → Parse F → Run F → Run F
set_spindle_speed parts laser c run =
    let w = run.world in
    let s = c.block.values.s in
    let w' =
      if not (parts.float.eq w.gc_state.spindle_speed s) || laser.force_sync
      then (let synced =
            if not (is_disable w.machine.modal_spindle)
            then call parts (Call.spindle_sync w.machine.modal_spindle) w
            else w in
          record synced { gc_state = record (synced.gc_state) { spindle_speed = s } })
      else w in
    record {
      world = w';
      plan =
          if not laser.disable
          then record (run.plan) { spindle_speed = w'.gc_state.spindle_speed }
          else run.plan;
    }

-- [5. Select tool] and [7. Spindle control]
unfoldable pub control_spindle : {F : Type 0} → Parts F → Parse F → Run F → Run F
control_spindle parts c run =
    let w = record (run.world) {
      gc_state = record (run.world.gc_state) { tool = c.block.values.t };
    } in
    let w' =
      if not (same_spindle w.machine.modal_spindle c.block.spindle)
      then (let synced = call parts (Call.spindle_sync c.block.spindle) w in
          record synced { machine = record (synced.machine) { modal_spindle = c.block.spindle } })
      else w in
    record { world = w'; plan = record (run.plan) { spindle = w'.machine.modal_spindle } }

-- [8. Coolant control]
unfoldable pub control_coolant : {F : Type 0} → Parts F → Parse F → Run F → Run F
control_coolant parts c run =
    let w = run.world in
    let w' =
      if not (same_bool w.machine.modal_coolant c.block.coolant)
      then (let synced = call parts (Call.coolant_sync c.block.coolant) w in
          record synced { machine = record (synced.machine) { modal_coolant = c.block.coolant } })
      else w in
    record { world = w'; plan = record (run.plan) { coolant = w'.machine.modal_coolant } }

-- [10.] to [12.]: the dwell, the plane and the units.
unfoldable pub execute_dwell : {F : Type 0} → Parts F → Parse F → World F → World F
execute_dwell parts c w =
    let w' =
      if is_dwell c.block.non_modal_command
      then call parts (Call.mc_dwell c.block.values.p) w
      else w in
    let state = w'.gc_state in
    record w' {
      gc_state = record state {
        modal = record (state.modal) {
          plane_select = c.block.modal.plane_select;
          inches = c.block.modal.inches;
        };
      };
    }

-- [14. Cutter length compensation]
unfoldable pub set_tool_length : {F : Type 0} → Parts F → Parse F → World F → World F
unfolding system_flag_wco_change
set_tool_length parts c w =
    let state = w.gc_state in
    let dynamic_offset = c.block.modal.dynamic_offset in
    let offset =
      if not dynamic_offset then parts.float.decimal 0 0 else c.block.values.xyz.z_axis in
    let w' = record w {
      gc_state = record state { modal = record (state.modal) { dynamic_offset = dynamic_offset } };
    } in
    if is_tool_length c.axis_command
    then if not (parts.float.eq state.tool_length_offset offset)
      then system_flag_wco_change parts
          (record w' { gc_state = record (w'.gc_state) { tool_length_offset = offset } })
      else w'
    else w

-- [15.] and [17.]: the coordinate system and the distance mode.
unfoldable pub set_coord_system : {F : Type 0} → Parts F → Parse F → World F → World F
unfolding system_flag_wco_change
set_coord_system parts c w =
    let state = w.gc_state in
    let coord_select = c.block.modal.coord_select in
    let w' =
      if not (state.modal.coord_select == coord_select)
      then system_flag_wco_change parts (record w {
        gc_state = record state {
          modal = record (state.modal) { coord_select = coord_select };
          coord_system = c.block_coord_system;
        };
      })
      else w in
    record w' {
      gc_state = record (w'.gc_state) {
        modal = record (w'.gc_state.modal) { incremental = c.block.modal.incremental };
      };
    }
