-- ===== src/Gcode/Checks.antt =====
-- Step 3 of `gc_execute_line` (grbl/gcode.c), the error checks 0 to 14: what needs no target yet.
use uno_pen_plotter.Prelude.{Bool, true, false, not, ◌&&◌, ◌||◌, if◌then◌else◌}
use uno_pen_plotter.Prelude.Int.{ℤ, pos, ltb_ℤ}
use uno_pen_plotter.Gcode.{
  Float, Status, Vector, AxisWords, any_axis_word, AxisCommand, axis_motion_mode,
  axis_tool_length_offset, NonModal, Motion, ParserState,
}
use uno_pen_plotter.Gcode.Outcome.{Result, done, fail, ◌>>=◌}
use uno_pen_plotter.Gcode.Words.{Parse, set_values}
use uno_pen_plotter.Gcode.Commands.{is_none}

abbrev pub is_motion_mode : AxisCommand → Bool
is_motion_mode axis_motion_mode = true
is_motion_mode _ = false

abbrev pub is_tool_length : AxisCommand → Bool
is_tool_length axis_tool_length_offset = true
is_tool_length _ = false

abbrev pub is_seek : Motion → Bool
is_seek Motion.seek = true
is_seek _ = false

abbrev pub is_linear : Motion → Bool
is_linear Motion.linear = true
is_linear _ = false

abbrev pub is_motion_none : Motion → Bool
is_motion_none Motion.motion_none = true
is_motion_none _ = false

abbrev pub is_dwell : NonModal → Bool
is_dwell NonModal.dwell = true
is_dwell _ = false

-- Axis words with no axis command are a motion.
unfoldable pub imply_motion : {F : Type 0} → Parse F → Parse F
imply_motion w =
    if any_axis_word w.axis_words
    then if is_none w.axis_command then record w { axis_command = axis_motion_mode } else w
    else w

abbrev max_line_number : ℤ
max_line_number = pos 10000000

unfoldable pub check_line_number : {F : Type 0} → Parse F → Result (Parse F)
check_line_number w =
    if w.value_words.n && ltb_ℤ max_line_number w.block.values.n
    then fail Status.gcode_invalid_line_number
    else done w

abbrev pub to_mm : {F : Type 0} → Float F → F → F
to_mm float a = float.mul a (float.decimal 254 1)

abbrev set_feed : {F : Type 0} → F → Parse F → Parse F
set_feed f w = set_values (record (w.block.values) { f = f }) w

-- values.f *= MM_PER_INCH, if the units are inches
abbrev feed_to_mm : {F : Type 0} → Float F → Parse F → Parse F
feed_to_mm float w = if w.block.modal.inches then set_feed (to_mm float w.block.values.f) w else w

-- [2. Set feed rate mode] and [3. Set feed rate]
unfoldable pub check_feed : {F : Type 0} → Float F → ParserState F → Parse F → Result (Parse F)
check_feed float state w =
    if w.jog_motion
    then if not w.value_words.f
      then fail Status.gcode_undefined_feed_rate
      else done (feed_to_mm float w)
    else if w.block.modal.inverse_time
    then if is_motion_mode w.axis_command
        && (not (is_motion_none w.block.modal.motion)
            && (not (is_seek w.block.modal.motion) && not w.value_words.f))
      then fail Status.gcode_undefined_feed_rate
      else done w
    else if not state.modal.inverse_time
    then if w.value_words.f then done (feed_to_mm float w) else done (set_feed state.feed_rate w)
    else done w

-- [4. Set spindle speed]
unfoldable pub check_spindle_speed : {F : Type 0} → ParserState F → Parse F → Parse F
check_spindle_speed state w =
    if not w.value_words.s
    then set_values (record (w.block.values) { s = state.spindle_speed }) w
    else w

-- [10. Dwell]
unfoldable pub check_dwell : {F : Type 0} → Parse F → Result (Parse F)
check_dwell w =
    if is_dwell w.block.non_modal_command
    then if not w.value_words.p
      then fail Status.gcode_value_word_missing
      else done (record w { value_words = record (w.value_words) { p = false } })
    else done w

-- The loop that multiplies the axis words given.
abbrev pub scale : {F : Type 0} → Float F → AxisWords → Vector F → Vector F
scale float words v = record {
  x_axis = if words.has_x then to_mm float v.x_axis else v.x_axis;
  y_axis = if words.has_y then to_mm float v.y_axis else v.y_axis;
  z_axis = if words.has_z then to_mm float v.z_axis else v.z_axis;
}

-- [12. Set length units]
unfoldable pub convert_units : {F : Type 0} → Float F → Parse F → Parse F
convert_units float w =
    if w.block.modal.inches
    then set_values (record (w.block.values) { xyz = scale float w.axis_words w.block.values.xyz })
        w
    else w

-- [14. Cutter length compensation]: G43.1 takes a Z word and no other.
unfoldable pub check_tool_length : {F : Type 0} → Parse F → Result (Parse F)
check_tool_length w =
    if is_tool_length w.axis_command
      && (w.block.modal.dynamic_offset
          && (w.axis_words.has_x || (w.axis_words.has_y || not w.axis_words.has_z)))
    then fail Status.gcode_g43_dynamic_axis_error
    else done w

-- The checks 0 to 14.
unfoldable pub common_checks : {F : Type 0} → Float F → ParserState F → Parse F → Result (Parse F)
unfolding imply_motion check_line_number check_feed check_spindle_speed check_dwell convert_units
    check_tool_length
common_checks float state w = do
  w₁ ← check_line_number (imply_motion w)
  w₂ ← check_feed float state w₁
  w₃ ← check_dwell (check_spindle_speed state w₂)
  check_tool_length (convert_units float w₃)
