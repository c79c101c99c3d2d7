-- ===== src/Gcode/Modes.antt =====
-- The modes after a line of g-code, and what a refused line leaves alone.
use uno_pen_plotter.Prelude.{
  ℕ, ◌≡◌, refl, ◌∙◌, ◌⊎◌, inl, inr, Bool, true, false, ◌||◌, arith, if◌then◌else◌,
}
use mathlib.Core.Path.{subst}
use uno_pen_plotter.Gcode.Level.Words.{same_bool}
use uno_pen_plotter.Settings.{Store}
use uno_pen_plotter.Gcode.{Status, Motion, Plane, ProgramFlow, Modal, Vector, Call, PlanData, World}
use uno_pen_plotter.Gcode.Outcome.{Result, done, fail}
use uno_pen_plotter.Gcode.Words.{Parse}
use uno_pen_plotter.Gcode.Checks.{is_tool_length}
use uno_pen_plotter.Gcode.Axes.{read_coord_data}
use uno_pen_plotter.Gcode.Execute.{
  Parts, call, LaserFlags, laser_flags, Run, set_feed_rate, set_spindle_speed, control_spindle,
  control_coolant, execute_dwell, set_tool_length, set_coord_system,
}
use uno_pen_plotter.Gcode.Actions.{run_non_modal, run_motion}
use uno_pen_plotter.Gcode.Line.{
  refuse, reset_modes, stop_outputs, stop_program, flow_action, set_flow, end_program,
  pause_program, run_flow, set_conditions, set_modes, execute_block,
}

abbrev pub ends_program : ProgramFlow → Bool
ends_program ProgramFlow.completed_m2 = true
ends_program ProgramFlow.completed_m30 = true
ends_program _ = false

module _ {F : Type 0} (parts : Parts F) where
  set_spindle_speed-modal :
      (laser : LaserFlags) (c : Parse F) (run : Run F)
      → (set_spindle_speed parts laser c run).world.gc_state.modal ≡ run.world.gc_state.modal
  unfolding set_spindle_speed
  set_spindle_speed-modal laser c run = ground arith

  control_spindle-modal :
      (c : Parse F) (run : Run F)
      → (control_spindle parts c run).world.gc_state.modal ≡ run.world.gc_state.modal
  unfolding control_spindle
  control_spindle-modal c run = ground arith

  control_coolant-modal :
      (c : Parse F) (run : Run F)
      → (control_coolant parts c run).world.gc_state.modal ≡ run.world.gc_state.modal
  unfolding control_coolant
  control_coolant-modal c run = ground arith

  set_conditions-modal :
      (c : Parse F) (w : World F)
      → (set_conditions parts c w).world.gc_state.modal
        ≡ record (w.gc_state.modal) { inverse_time = c.block.modal.inverse_time }
  unfolding set_conditions
  set_conditions-modal c w =
      let feed = set_feed_rate parts c w in
      let speed = set_spindle_speed parts (laser_flags c w) c feed in
      control_coolant-modal c (control_spindle parts c speed)
      ∙ control_spindle-modal c speed
      ∙ set_spindle_speed-modal (laser_flags c w) c feed

  execute_dwell-modal :
      (c : Parse F) (w : World F)
      → (execute_dwell parts c w).gc_state.modal ≡ record (w.gc_state.modal) {
        plane_select = c.block.modal.plane_select;
        inches = c.block.modal.inches;
      }
  unfolding execute_dwell
  execute_dwell-modal c w = ground arith

  set_tool_length-modal :
      (c : Parse F) (w : World F)
      → (set_tool_length parts c w).gc_state.modal ≡ record (w.gc_state.modal) {
        dynamic_offset =
            if is_tool_length c.axis_command
            then c.block.modal.dynamic_offset
            else w.gc_state.modal.dynamic_offset;
      }
  unfolding set_tool_length
  set_tool_length-modal c w = ground arith

  set_coord_system-modal :
      (c : Parse F) (w : World F)
      → (set_coord_system parts c w).gc_state.modal ≡ record (w.gc_state.modal) {
        coord_select = c.block.modal.coord_select;
        incremental = c.block.modal.incremental;
      }
  unfolding set_coord_system
  set_coord_system-modal c w = ground arith

  run_non_modal-modal :
      (c : Parse F) (plan : PlanData F) (w : World F)
      → (run_non_modal parts c plan w).gc_state.modal ≡ w.gc_state.modal
  unfolding run_non_modal
  run_non_modal-modal c plan w = ground arith

  run_motion-modal :
      (c : Parse F) (plan : PlanData F) (w : World F)
      → (run_motion parts c plan w).gc_state.modal
        ≡ record (w.gc_state.modal) { motion = c.block.modal.motion }
  unfolding run_motion
  run_motion-modal c plan w = ground arith

-- The modes that a line leaves: those that it asks for, and at the end of a program the defaults of
-- the motion, the plane, the distance, the feed rate mode and the coordinate system.
abbrev pub modes_after : Modal → Modal
modes_after m =
    if ends_program m.program_flow
    then record m {
      motion = Motion.linear;
      plane_select = Plane.plane_xy;
      incremental = false;
      inverse_time = false;
      coord_select = 0;
      program_flow = ProgramFlow.running;
    }
    else record m { program_flow = ProgramFlow.running }

abbrev pub with_flow : ProgramFlow → Modal → Modal
with_flow flow m = record m { program_flow = flow }

-- How a line that is accepted ends: with the modes that it asks for, or, at the end of a program, with
-- the error that G54 could not be read, and then the program flow stays as it is.
abbrev pub Ended : {F : Type 0} → Modal → Status × World F → Type 0
Ended m (status, w) =
    ((status ≡ Status.ok) × (w.gc_state.modal ≡ modes_after m))
    ⊎ ((status ≡ Status.setting_read_fail)
        × (ends_program m.program_flow ≡ true)
        × (w.gc_state.modal.program_flow ≡ m.program_flow))

module _ {F : Type 0} (parts : Parts F) where
  abbrev OnlyReadFail : {A : Type 0} → Result A → Type 0
  OnlyReadFail (done a) = Unit {0}
  OnlyReadFail (fail status) = status ≡ Status.setting_read_fail

  read_coord_data-OnlyReadFail :
      (n : ℕ) (s : Store F) → OnlyReadFail (read_coord_data parts.memory n s).0
  unfolding read_coord_data
  read_coord_data-OnlyReadFail n s = ground arith

  refuse-modal :
      (w : World F) (status : Status) (s : Store F)
      → (refuse parts w status s).gc_state.modal.program_flow ≡ w.gc_state.modal.program_flow
  refuse-modal w status s = ground arith

  stop_program-Ended :
      (m : Modal) (w : World F) (r : Result (Vector F) × Store F)
      → ends_program m.program_flow ≡ true
      → with_flow ProgramFlow.running w.gc_state.modal ≡ modes_after m
      → w.gc_state.modal.program_flow ≡ m.program_flow
      → OnlyReadFail r.0
      → Ended m (stop_program parts w r)
  unfolding stop_outputs
  stop_program-Ended m w (done v, s) e h f k = inl (refl, h)
  stop_program-Ended m w (fail status, s) e h f k = inr (k, e, refuse-modal w status s ∙ f)

  end_program-Ended :
      (w : World F)
      → ends_program w.gc_state.modal.program_flow ≡ true
      → Ended w.gc_state.modal (end_program parts w)
  unfolding end_program
  end_program-Ended w e =
      let w' = reset_modes w in
      ground (
        arith,
        stop_program-Ended w.gc_state.modal w' (read_coord_data parts.memory 0 w'.store) e,
        read_coord_data-OnlyReadFail 0 w'.store,
      )

  flow_action-Ended :
      (flow : ProgramFlow) (w : World F)
      → w.gc_state.modal.program_flow ≡ flow
      → Ended w.gc_state.modal (flow_action parts flow w)
  unfolding pause_program
  flow_action-Ended ProgramFlow.running w e = ground arith
  flow_action-Ended ProgramFlow.paused w e = ground arith
  flow_action-Ended ProgramFlow.completed_m2 w e =
      end_program-Ended (call parts Call.protocol_buffer_synchronize w) (ground arith)
  flow_action-Ended ProgramFlow.completed_m30 w e =
      end_program-Ended (call parts Call.protocol_buffer_synchronize w) (ground arith)

  run_flow-Ended :
      (c : Parse F) (w : World F)
      → Ended (with_flow c.block.modal.program_flow w.gc_state.modal) (run_flow parts c w)
  unfolding run_flow
  run_flow-Ended c w =
      flow_action-Ended c.block.modal.program_flow (set_flow c.block.modal.program_flow w) refl

  moved-modal :
      (c : Parse F) (w : World F)
      → (is_tool_length c.axis_command
          || same_bool c.block.modal.dynamic_offset w.gc_state.modal.dynamic_offset)
        ≡ true
      → let run = set_conditions parts c w in
        with_flow c.block.modal.program_flow
          (run_motion parts c run.plan
            (run_non_modal parts c run.plan (set_modes parts c run.world))).gc_state.modal
        ≡ c.block.modal
  unfolding set_modes
  moved-modal c w e =
      let run = set_conditions parts c w in
      let dwelt = execute_dwell parts c run.world in
      let sized = set_tool_length parts c dwelt in
      let placed = set_coord_system parts c sized in
      ground (
        arith,
        run_motion-modal parts c run.plan (run_non_modal parts c run.plan placed),
        run_non_modal-modal parts c run.plan placed,
        set_coord_system-modal parts c sized,
        set_tool_length-modal parts c dwelt,
        execute_dwell-modal parts c run.world,
        set_conditions-modal parts c w,
      )

  pub execute_block-Ended :
      (c : Parse F) (w : World F)
      → (is_tool_length c.axis_command
          || same_bool c.block.modal.dynamic_offset w.gc_state.modal.dynamic_offset)
        ≡ true
      → Ended c.block.modal (execute_block parts c w)
  unfolding execute_block
  execute_block-Ended c w e =
      let run = set_conditions parts c w in
      let moved =
        run_motion parts c run.plan
          (run_non_modal parts c run.plan (set_modes parts c run.world)) in
      subst (λ m. Ended m (run_flow parts c moved)) (moved-modal c w e) (run_flow-Ended c moved)
