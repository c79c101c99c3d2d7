-- ===== src/Gcode/Commands.antt =====
-- The command words, G and M (grbl/gcode.c). `int_value` and `mantissa` are the number of the command
-- and a hundred times its fraction.
use uno_pen_plotter.Prelude.{
  ℕ, ◌-◌, Bool, true, false, not, ◌&&◌, ◌||◌, leb, ◌==◌, ltb, if◌then◌else◌,
}
use uno_pen_plotter.System.{disable, cw}
use uno_pen_plotter.Gcode.{
  Status, AxisCommand, axis_none, axis_non_modal, axis_motion_mode, axis_tool_length_offset,
  NonModal, Motion, Plane, ProgramFlow,
}
use uno_pen_plotter.Gcode.Outcome.{Result, done, fail, ◌>>=◌}
use uno_pen_plotter.Gcode.Words.{ModalGroup, has_group, add_group, Parse, set_modal}

-- A command that has been taken: the group of its word, and what is left of its mantissa.
pub record Taken (F : Type 0) : Type 0 where
  pub parse : Parse F
  pub word_bit : ModalGroup
  pub mantissa : ℕ

abbrev taken : {F : Type 0} → Parse F → ModalGroup → ℕ → Result (Taken F)
taken w word_bit mantissa = done (record { parse = w; word_bit = word_bit; mantissa = mantissa })

abbrev pub is_none : AxisCommand → Bool
is_none axis_none = true
is_none _ = false

-- if (axis_command) { FAIL(…); } axis_command = …
unfoldable pub claim_axes : {F : Type 0} → AxisCommand → Parse F → Result (Parse F)
claim_axes command w =
    if is_none w.axis_command
    then done (record w { axis_command = command })
    else fail Status.gcode_axis_command_conflict

abbrev set_non_modal : {F : Type 0} → NonModal → Parse F → Parse F
set_non_modal command w = record w { block = record (w.block) { non_modal_command = command } }

abbrev non_modal_of : ℕ → NonModal
non_modal_of int_value =
    if int_value == 4
    then NonModal.dwell
    else if int_value == 10
    then NonModal.set_coordinate_data
    else if int_value == 28
    then NonModal.go_home_0
    else if int_value == 30
    then NonModal.go_home_1
    else if int_value == 53
    then NonModal.absolute_override
    else NonModal.set_coordinate_offset

-- G28.1, G30.1 and G92.1
abbrev dotted_non_modal_of : ℕ → NonModal
dotted_non_modal_of int_value =
    if int_value == 28
    then NonModal.set_home_0
    else if int_value == 30
    then NonModal.set_home_1
    else NonModal.reset_coordinate_offset

-- 4, 10, 28, 30, 53 and 92
unfoldable pub non_modal_word : {F : Type 0} → ℕ → ℕ → Parse F → Result (Taken F)
unfolding claim_axes
non_modal_word int_value mantissa w =
    (if not (int_value == 4 || int_value == 53) && mantissa == 0
      then claim_axes axis_non_modal w
      else done w)
    >>= λ w'.
        if int_value == 28 || (int_value == 30 || int_value == 92)
        then if mantissa == 0
          then taken (set_non_modal (non_modal_of int_value) w') ModalGroup.group_g0 0
          else if mantissa == 10
          then taken (set_non_modal (dotted_non_modal_of int_value) w') ModalGroup.group_g0 0
          else fail Status.gcode_unsupported_command
        else taken (set_non_modal (non_modal_of int_value) w') ModalGroup.group_g0 mantissa

abbrev set_motion : {F : Type 0} → Motion → Parse F → Parse F
set_motion motion w = set_modal (record (w.block.modal) { motion = motion }) w

abbrev motion_of : ℕ → Motion
motion_of int_value =
    if int_value == 0
    then Motion.seek
    else if int_value == 1
    then Motion.linear
    else if int_value == 2
    then Motion.cw_arc
    else if int_value == 3
    then Motion.ccw_arc
    else Motion.motion_none

-- G38.2 to G38.5
probe_word : {F : Type 0} → ℕ → Parse F → Result (Taken F)
probe_word mantissa w =
    if mantissa == 20
    then taken (set_motion Motion.probe_toward w) ModalGroup.group_g1 0
    else if mantissa == 30
    then taken (set_motion Motion.probe_toward_no_error w) ModalGroup.group_g1 0
    else if mantissa == 40
    then taken (set_motion Motion.probe_away w) ModalGroup.group_g1 0
    else if mantissa == 50
    then taken (set_motion Motion.probe_away_no_error w) ModalGroup.group_g1 0
    else fail Status.gcode_unsupported_command

-- 0 to 3, 38 and 80
unfoldable pub motion_word : {F : Type 0} → ℕ → ℕ → Parse F → Result (Taken F)
unfolding claim_axes probe_word
motion_word int_value mantissa w =
    (if int_value == 80 then done w else claim_axes axis_motion_mode w) >>= λ w'.
    if int_value == 38
    then probe_word mantissa w'
    else taken (set_motion (motion_of int_value) w') ModalGroup.group_g1 mantissa

-- 90 and 91
unfoldable pub distance_word : {F : Type 0} → ℕ → ℕ → Parse F → Result (Taken F)
distance_word int_value mantissa w =
    if mantissa == 0
    then taken (set_modal (record (w.block.modal) { incremental = int_value == 91 }) w)
        ModalGroup.group_g3 0
    else if not (mantissa == 10) || int_value == 90
    then fail Status.gcode_unsupported_command
    else taken w ModalGroup.group_g4 0

-- 43 and 49
unfoldable pub tool_length_word : {F : Type 0} → ℕ → ℕ → Parse F → Result (Taken F)
unfolding claim_axes
tool_length_word int_value mantissa w = claim_axes axis_tool_length_offset w >>= λ w'.
    if int_value == 49
    then taken (set_modal (record (w'.block.modal) { dynamic_offset = false }) w')
        ModalGroup.group_g8 0
    else if mantissa == 10
    then taken (set_modal (record (w'.block.modal) { dynamic_offset = true }) w')
        ModalGroup.group_g8 0
    else fail Status.gcode_unsupported_command

-- The commands that only set a mode.
unfoldable pub mode_word : {F : Type 0} → ℕ → ℕ → Parse F → Result (Taken F)
mode_word int_value mantissa w =
    if leb 17 int_value && leb int_value 19
    then if not (int_value == 17)
      then fail Status.gcode_unsupported_command
      else taken (set_modal (record (w.block.modal) { plane_select = Plane.plane_xy }) w)
          ModalGroup.group_g2 mantissa
    else if leb 93 int_value && leb int_value 94
    then taken (set_modal (record (w.block.modal) { inverse_time = int_value == 93 }) w)
        ModalGroup.group_g5 mantissa
    else if leb 20 int_value && leb int_value 21
    then taken (set_modal (record (w.block.modal) { inches = int_value == 20 }) w)
        ModalGroup.group_g6 mantissa
    else if int_value == 40
    then taken w ModalGroup.group_g7 mantissa
    else if leb 54 int_value && leb int_value 59
    then taken (set_modal (record (w.block.modal) { coord_select = int_value - 54 }) w)
        ModalGroup.group_g12 mantissa
    else if int_value == 61
    then if not (mantissa == 0)
      then fail Status.gcode_unsupported_command
      else taken w ModalGroup.group_g13 mantissa
    else fail Status.gcode_unsupported_command

abbrev pub is_non_modal : ℕ → Bool
is_non_modal n = n == 4 || (n == 10 || (n == 28 || (n == 30 || (n == 53 || n == 92))))

abbrev pub is_motion : ℕ → Bool
is_motion n = leb n 3 || (n == 38 || n == 80)

-- The `switch` on the number of a G word.
unfoldable pub g_word : {F : Type 0} → ℕ → ℕ → Parse F → Result (Taken F)
unfolding non_modal_word motion_word distance_word tool_length_word mode_word
g_word int_value mantissa w =
    if is_non_modal int_value
    then non_modal_word int_value mantissa w
    else if is_motion int_value
    then motion_word int_value mantissa w
    else if leb 90 int_value && leb int_value 91
    then distance_word int_value mantissa w
    else if int_value == 43 || int_value == 49
    then tool_length_word int_value mantissa w
    else mode_word int_value mantissa w

-- A second command of the same group is refused.
unfoldable pub add_command : {F : Type 0} → ModalGroup → Parse F → Result (Parse F)
add_command word_bit w =
    if has_group word_bit w.command_words
    then fail Status.gcode_modal_group_violation
    else done (record w { command_words = add_group word_bit w.command_words })

unfoldable pub g_command : {F : Type 0} → ℕ → ℕ → Parse F → Result (Parse F)
unfolding g_word add_command
g_command int_value mantissa w = g_word int_value mantissa w >>= λ t.
    if ltb 0 t.mantissa
    then fail Status.gcode_command_value_not_integer
    else add_command t.word_bit t.parse

abbrev flow_of : ℕ → ProgramFlow → ProgramFlow
flow_of int_value old =
    if int_value == 0
    then ProgramFlow.paused
    else if int_value == 1
    then old
    else if int_value == 2
    then ProgramFlow.completed_m2
    else ProgramFlow.completed_m30

-- The `switch` on the number of an M word. M4 is refused, since the pen is up or down.
unfoldable pub m_word : {F : Type 0} → ℕ → Parse F → Result (Taken F)
m_word int_value w =
    if leb int_value 2 || int_value == 30
    then taken
        (set_modal
          (record (w.block.modal) { program_flow = flow_of int_value w.block.modal.program_flow })
          w)
        ModalGroup.group_m4 0
    else if int_value == 3
    then taken (record w { block = record (w.block) { spindle = cw } }) ModalGroup.group_m7 0
    else if int_value == 4
    then fail Status.gcode_unsupported_command
    else if int_value == 5
    then taken (record w { block = record (w.block) { spindle = disable } }) ModalGroup.group_m7 0
    else if int_value == 8
    then taken (record w { block = record (w.block) { coolant = true } }) ModalGroup.group_m8 0
    else if int_value == 9
    then taken (record w { block = record (w.block) { coolant = false } }) ModalGroup.group_m8 0
    else fail Status.gcode_unsupported_command

unfoldable pub m_command : {F : Type 0} → ℕ → ℕ → Parse F → Result (Parse F)
unfolding m_word add_command
m_command int_value mantissa w =
    if ltb 0 mantissa
    then fail Status.gcode_command_value_not_integer
    else m_word int_value w >>= λ t. add_command t.word_bit t.parse
