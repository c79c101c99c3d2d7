-- ===== src/Gcode/Actions.antt =====
-- Step 4 of `gc_execute_line` (grbl/gcode.c), its actions: the non-modal commands and the motions.
use uno_pen_plotter.Prelude.{ℕ, Bool, true, false, not, ◌&&◌, ◌==◌, if◌then◌else◌}
use uno_pen_plotter.Settings.Saved.{settings_write_coord_data}
use uno_pen_plotter.Gcode.{Vector, Motion, NonModal, PlanData, Call, World}
use uno_pen_plotter.Gcode.Words.{Parse}
use uno_pen_plotter.Gcode.Commands.{is_none}
use uno_pen_plotter.Gcode.Checks.{is_motion_mode, is_motion_none}
use uno_pen_plotter.Gcode.Axes.{setting_index_g28, setting_index_g30}
use uno_pen_plotter.Gcode.Reading.{zero_vector}
use uno_pen_plotter.Gcode.Execute.{
  Parts, UpdatePosition, update_target, update_system, update_none, call, gc_sync_position,
  system_flag_wco_change,
}

abbrev pub set_position : {F : Type 0} → Vector F → World F → World F
set_position v w = record w { gc_state = record (w.gc_state) { position = v } }

-- The wait for the buffer comes before the write, and the parser's position may be the one written.
abbrev write_coord_data : {F : Type 0} → Parts F → ℕ → (World F → Vector F) → World F → World F
write_coord_data parts coord_select coord_data w =
    let w' = call parts Call.protocol_buffer_synchronize w in
    let memory = parts.memory in
    record w' {
      store =
          settings_write_coord_data memory.program coord_select (memory.to_bytes (coord_data w'))
            w'.store;
    }

-- G10: the coordinate system is written, and taken over if it is the active one.
unfoldable pub set_coordinate_data : {F : Type 0} → Parts F → Parse F → World F → World F
unfolding system_flag_wco_change
set_coordinate_data parts c w =
    let ijk = c.block.values.ijk in
    let w' = write_coord_data parts c.coord_select (λ _. ijk) w in
    if w'.gc_state.modal.coord_select == c.coord_select
    then system_flag_wco_change parts
        (record w' { gc_state = record (w'.gc_state) { coord_system = ijk } })
    else w'

-- G28 and G30: over the intermediate position, if axis words gave one.
unfoldable pub move_home : {F : Type 0} → Parts F → Parse F → PlanData F → World F → World F
move_home parts c plan w =
    let rapid = record plan { rapid_motion = true } in
    let values = c.block.values in
    let w' =
      if not (is_none c.axis_command) then call parts (Call.mc_line values.xyz rapid) w else w in
    set_position values.ijk (call parts (Call.mc_line values.ijk rapid) w')

abbrev set_offset : {F : Type 0} → Vector F → World F → World F
set_offset v w = record w { gc_state = record (w.gc_state) { coord_offset = v } }

abbrev pub non_modal_action :
    {F : Type 0} → Parts F → Parse F → PlanData F → NonModal → World F → World F
non_modal_action parts c plan NonModal.set_coordinate_data w = set_coordinate_data parts c w
non_modal_action parts c plan NonModal.go_home_0 w = move_home parts c plan w
non_modal_action parts c plan NonModal.go_home_1 w = move_home parts c plan w
non_modal_action parts c plan NonModal.set_home_0 w =
    write_coord_data parts setting_index_g28 (λ v. v.gc_state.position) w
non_modal_action parts c plan NonModal.set_home_1 w =
    write_coord_data parts setting_index_g30 (λ v. v.gc_state.position) w
non_modal_action parts c plan NonModal.set_coordinate_offset w =
    system_flag_wco_change parts (set_offset c.block.values.xyz w)
non_modal_action parts c plan NonModal.reset_coordinate_offset w =
    system_flag_wco_change parts (set_offset (zero_vector parts.float) w)
non_modal_action parts c plan _ w = w

-- [19. Go to predefined position, Set G10, or Set axis offsets]
unfoldable pub run_non_modal : {F : Type 0} → Parts F → Parse F → PlanData F → World F → World F
unfolding set_coordinate_data move_home system_flag_wco_change
run_non_modal parts c plan w = non_modal_action parts c plan c.block.non_modal_command w

-- The call that a motion mode makes.
abbrev pub motion_call : {F : Type 0} → Parse F → PlanData F → World F → Motion → Call F
motion_call c plan w Motion.linear = Call.mc_line c.block.values.xyz plan
motion_call c plan w Motion.seek =
    Call.mc_line c.block.values.xyz (record plan { rapid_motion = true })
motion_call c plan w Motion.cw_arc =
    Call.mc_arc c.block.values.xyz plan w.gc_state.position c.block.values.ijk c.block.values.r
      c.block.modal.plane_select c.arc_is_clockwise
motion_call c plan w Motion.ccw_arc =
    Call.mc_arc c.block.values.xyz plan w.gc_state.position c.block.values.ijk c.block.values.r
      c.block.modal.plane_select c.arc_is_clockwise
motion_call c plan w _ =
    Call.mc_probe_cycle c.block.values.xyz (record plan { no_feed_override = true }) c.probe_is_away
      c.probe_is_no_error

abbrev pub is_probe : Motion → Bool
is_probe Motion.probe_toward = true
is_probe Motion.probe_toward_no_error = true
is_probe Motion.probe_away = true
is_probe Motion.probe_away_no_error = true
is_probe _ = false

abbrev update_position : {F : Type 0} → Parts F → UpdatePosition → Vector F → World F → World F
update_position parts update_target target w = set_position target w
update_position parts update_system target w = gc_sync_position parts w
update_position parts update_none target w = w

-- [20. Motion modes]
unfoldable pub run_motion : {F : Type 0} → Parts F → Parse F → PlanData F → World F → World F
unfolding gc_sync_position
run_motion parts c plan w =
    let motion = c.block.modal.motion in
    let w' = record w {
      gc_state = record (w.gc_state) { modal = record (w.gc_state.modal) { motion = motion } };
    } in
    if not (is_motion_none motion) && is_motion_mode c.axis_command
    then (let w'' = call parts (motion_call c plan w' motion) w' in
        update_position parts (if is_probe motion then parts.probe_result w' else update_target)
          c.block.values.xyz w'')
    else w'
