-- ===== src/Gcode/Level/Calls.antt =====
-- The height of the calls that the execution of a line makes.
use uno_pen_plotter.Prelude.{◌≡◌, refl, Bool, true, false, List, [], ◌∷◌, arith}
use uno_pen_plotter.Gcode.{Modal, Vector, Motion, NonModal, PlanData, Call, World}
use uno_pen_plotter.Gcode.Words.{Parse}
use uno_pen_plotter.Gcode.Execute.{
  Parts, system_flag_wco_change, LaserFlags, laser_flags, Run, set_feed_rate, set_spindle_speed,
  control_spindle, control_coolant, execute_dwell, set_tool_length, set_coord_system,
}
use uno_pen_plotter.Gcode.Actions.{
  set_coordinate_data, move_home, non_modal_action, run_non_modal, motion_call, run_motion,
}
use uno_pen_plotter.Gcode.Line.{end_program, run_flow, set_conditions, set_modes, execute_block}
use uno_pen_plotter.Gcode.Level.Words.{is_xy}
use uno_pen_plotter.Gcode.Level.Checks.{is_home}
use uno_pen_plotter.Gcode.Level.Moves.{Level}

-- A motion ends at this height; an arc lies in the XY plane too.
abbrev pub IsFlat : {F : Type 0} → F → Call F → Type 0
IsFlat z (Call.mc_line target _) = target.z_axis ≡ z
IsFlat z (Call.mc_arc target _ _ _ _ plane _) = (target.z_axis ≡ z) × (is_xy plane ≡ true)
IsFlat z (Call.mc_probe_cycle target _ _ _) = target.z_axis ≡ z
IsFlat z _ = Unit {0}

abbrev pub AllFlat : {F : Type 0} → F → List (Call F) → Type 0
AllFlat z [] = Unit {0}
AllFlat z (c ∷ cs) = IsFlat z c × AllFlat z cs

module _ {F : Type 0} (parts : Parts F) (d : Bool) (o : Vector F) (m : Modal) (z : F) where
  wco_change-AllFlat :
      (w : World F) → AllFlat z w.calls → AllFlat z (system_flag_wco_change parts w).calls
  unfolding system_flag_wco_change
  wco_change-AllFlat w h = ground arith

  set_spindle_speed-AllFlat :
      (laser : LaserFlags) (c : Parse F) (run : Run F)
      → AllFlat z run.world.calls
      → AllFlat z (set_spindle_speed parts laser c run).world.calls
  unfolding set_spindle_speed
  set_spindle_speed-AllFlat laser c run h = ground arith

  control_spindle-AllFlat :
      (c : Parse F) (run : Run F)
      → AllFlat z run.world.calls
      → AllFlat z (control_spindle parts c run).world.calls
  unfolding control_spindle
  control_spindle-AllFlat c run h = ground arith

  control_coolant-AllFlat :
      (c : Parse F) (run : Run F)
      → AllFlat z run.world.calls
      → AllFlat z (control_coolant parts c run).world.calls
  unfolding control_coolant
  control_coolant-AllFlat c run h = ground arith

  execute_dwell-AllFlat :
      (c : Parse F) (w : World F) → AllFlat z w.calls → AllFlat z (execute_dwell parts c w).calls
  unfolding execute_dwell
  execute_dwell-AllFlat c w h = ground arith

  set_tool_length-AllFlat :
      (c : Parse F) (w : World F) → AllFlat z w.calls → AllFlat z (set_tool_length parts c w).calls
  unfolding set_tool_length
  set_tool_length-AllFlat c w h = ground arith

  set_coord_system-AllFlat :
      (c : Parse F) (w : World F) → AllFlat z w.calls → AllFlat z (set_coord_system parts c w).calls
  unfolding set_coord_system
  set_coord_system-AllFlat c w h = ground arith

  move_home-AllFlat :
      (c : Parse F) (plan : PlanData F) (w : World F)
      → Level false d o m z c
      → is_home c.block.non_modal_command ≡ true
      → AllFlat z w.calls
      → AllFlat z (move_home parts c plan w).calls
  unfolding move_home
  move_home-AllFlat c plan w l e h = ground arith

  set_coordinate_data-AllFlat :
      (c : Parse F) (w : World F)
      → AllFlat z w.calls
      → AllFlat z (set_coordinate_data parts c w).calls
  unfolding set_coordinate_data
  set_coordinate_data-AllFlat c w h = ground arith

  non_modal_action-AllFlat :
      (c : Parse F) (plan : PlanData F) (command : NonModal) (w : World F)
      → Level false d o m z c
      → c.block.non_modal_command ≡ command
      → AllFlat z w.calls
      → AllFlat z (non_modal_action parts c plan command w).calls
  non_modal_action-AllFlat c plan NonModal.no_action w l e h = h
  non_modal_action-AllFlat c plan NonModal.dwell w l e h = h
  non_modal_action-AllFlat c plan NonModal.set_coordinate_data w l e h =
      set_coordinate_data-AllFlat c w h
  non_modal_action-AllFlat c plan NonModal.go_home_0 w l e h =
      move_home-AllFlat c plan w l (ground arith) h
  non_modal_action-AllFlat c plan NonModal.go_home_1 w l e h =
      move_home-AllFlat c plan w l (ground arith) h
  non_modal_action-AllFlat c plan NonModal.set_home_0 w l e h = (tt, h)
  non_modal_action-AllFlat c plan NonModal.set_home_1 w l e h = (tt, h)
  non_modal_action-AllFlat c plan NonModal.absolute_override w l e h = h
  non_modal_action-AllFlat c plan NonModal.set_coordinate_offset w l e h = wco_change-AllFlat _ h
  non_modal_action-AllFlat c plan NonModal.reset_coordinate_offset w l e h = wco_change-AllFlat _ h

  run_non_modal-AllFlat :
      (c : Parse F) (plan : PlanData F) (w : World F)
      → Level false d o m z c
      → AllFlat z w.calls
      → AllFlat z (run_non_modal parts c plan w).calls
  unfolding run_non_modal
  run_non_modal-AllFlat c plan w l h =
      non_modal_action-AllFlat c plan c.block.non_modal_command w l refl h

  motion_call-IsFlat :
      (c : Parse F) (plan : PlanData F) (w : World F) (motion : Motion)
      → c.block.values.xyz.z_axis ≡ z
      → is_xy c.block.modal.plane_select ≡ true
      → IsFlat z (motion_call c plan w motion)
  motion_call-IsFlat c plan w Motion.seek e p = e
  motion_call-IsFlat c plan w Motion.linear e p = e
  motion_call-IsFlat c plan w Motion.cw_arc e p = (e, p)
  motion_call-IsFlat c plan w Motion.ccw_arc e p = (e, p)
  motion_call-IsFlat c plan w Motion.probe_toward e p = e
  motion_call-IsFlat c plan w Motion.probe_toward_no_error e p = e
  motion_call-IsFlat c plan w Motion.probe_away e p = e
  motion_call-IsFlat c plan w Motion.probe_away_no_error e p = e
  motion_call-IsFlat c plan w Motion.motion_none e p = e

  run_motion-AllFlat :
      (c : Parse F) (plan : PlanData F) (w : World F)
      → Level false d o m z c
      → AllFlat z w.calls
      → AllFlat z (run_motion parts c plan w).calls
  unfolding run_motion
  run_motion-AllFlat c plan w l h =
      let motion = c.block.modal.motion in
      let w' = record w {
        gc_state = record (w.gc_state) { modal = record (w.gc_state.modal) { motion = motion } };
      } in
      ground (arith, motion_call-IsFlat c plan w' motion)

  end_program-AllFlat : (w : World F) → AllFlat z w.calls → AllFlat z (end_program parts w).1.calls
  unfolding end_program
  end_program-AllFlat w h = ground arith

  run_flow-AllFlat :
      (c : Parse F) (w : World F) → AllFlat z w.calls → AllFlat z (run_flow parts c w).1.calls
  unfolding run_flow
  run_flow-AllFlat c w h = ground arith

  set_conditions-AllFlat :
      (c : Parse F) (w : World F)
      → AllFlat z w.calls
      → AllFlat z (set_conditions parts c w).world.calls
  unfolding set_conditions
  set_conditions-AllFlat c w h =
      let feed = set_feed_rate parts c w in
      let speed = set_spindle_speed parts (laser_flags c w) c feed in
      control_coolant-AllFlat c (control_spindle parts c speed)
        (control_spindle-AllFlat c speed (set_spindle_speed-AllFlat (laser_flags c w) c feed h))

  set_modes-AllFlat :
      (c : Parse F) (w : World F) → AllFlat z w.calls → AllFlat z (set_modes parts c w).calls
  unfolding set_modes
  set_modes-AllFlat c w h =
      let dwelt = execute_dwell parts c w in
      set_coord_system-AllFlat c (set_tool_length parts c dwelt)
        (set_tool_length-AllFlat c dwelt (execute_dwell-AllFlat c w h))

  pub execute_block-AllFlat :
      (c : Parse F) (w : World F)
      → Level false d o m z c
      → AllFlat z w.calls
      → AllFlat z (execute_block parts c w).1.calls
  unfolding execute_block
  execute_block-AllFlat c w l h =
      let run = set_conditions parts c w in
      let modes = set_modes parts c run.world in
      let moved = run_non_modal parts c run.plan modes in
      run_flow-AllFlat c (run_motion parts c run.plan moved) (
        run_motion-AllFlat c run.plan moved l (
          run_non_modal-AllFlat c run.plan modes l
            (set_modes-AllFlat c run.world (set_conditions-AllFlat c w h))))
