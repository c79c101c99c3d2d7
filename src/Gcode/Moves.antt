-- ===== src/Gcode/Moves.antt =====
-- Step 3 of `gc_execute_line` (grbl/gcode.c), the error check 20 and the unused words: motions, arcs
-- and probes.
use uno_pen_plotter.Prelude.{Bool, true, false, not, ◌&&◌, ◌||◌, if◌then◌else◌}
use uno_pen_plotter.Gcode.{
  Float, Status, Vector, Axis, x_index, y_index, z_index, at, put, AxisWords, any_axis_word,
  has_axis, axis_none, Motion, Plane, plane_xy, plane_zx, plane_yz, ParserState,
}
use uno_pen_plotter.Gcode.Outcome.{Result, done, fail}
use uno_pen_plotter.Gcode.Words.{Parse, set_values}
use uno_pen_plotter.Gcode.Commands.{is_none}
use uno_pen_plotter.Gcode.Checks.{
  is_motion_mode, is_seek, is_motion_none, common_checks, to_mm, scale,
}
use uno_pen_plotter.Gcode.Axes.{Memory, Check, ◌>>=◌, pure, select_coord_system, non_modal_checks}

-- [11. Set active plane]
abbrev pub axis_0 : Plane → Axis
axis_0 plane_xy = x_index
axis_0 plane_zx = z_index
axis_0 plane_yz = y_index

abbrev pub axis_1 : Plane → Axis
axis_1 plane_xy = y_index
axis_1 plane_zx = x_index
axis_1 plane_yz = z_index

-- axis_words & (bit(axis_0)|bit(axis_1))
abbrev pub in_plane : Plane → AxisWords → Bool
in_plane plane words = has_axis (axis_0 plane) words || has_axis (axis_1 plane) words

abbrev pub hypot_f : {F : Type 0} → Float F → F → F → F
hypot_f float x y = float.sqrt (float.add (float.mul x x) (float.mul y y))

abbrev pub is_ccw_arc : Motion → Bool
is_ccw_arc Motion.ccw_arc = true
is_ccw_arc _ = false

abbrev pub is_equal_vector : {F : Type 0} → Float F → Vector F → Vector F → Bool
is_equal_vector float a b =
    float.same_bytes a.x_axis b.x_axis
    && (float.same_bytes a.y_axis b.y_axis && float.same_bytes a.z_axis b.z_axis)

-- 4*r*r - x*x - y*y
abbrev radius_test : {F : Type 0} → Float F → F → F → F → F
radius_test float r x y =
    float.sub (float.sub (float.mul (float.mul (float.decimal 4 0) r) r) (float.mul x x))
      (float.mul y y)

-- The centre of an arc whose radius is given, `x` and `y` from the position to the target.
unfoldable pub radius_center : {F : Type 0} → Float F → F → F → Parse F → Parse F
radius_center float x y w =
    let values = w.block.values in
    let plane = w.block.modal.plane_select in
    let r = values.r in
    let clockwise =
      float.div (float.negate (float.sqrt (radius_test float r x y))) (hypot_f float x y) in
    let turned = if is_ccw_arc w.block.modal.motion then float.negate clockwise else clockwise in
    let is_long = float.lt r (float.decimal 0 0) in
    let h_x2_div_d = if is_long then float.negate turned else turned in
    let half = float.decimal 5 1 in
    let i = float.mul half (float.sub x (float.mul y h_x2_div_d)) in
    let j = float.mul half (float.add y (float.mul x h_x2_div_d)) in
    set_values
      (record values {
        r = if is_long then float.negate r else r;
        ijk = put (axis_1 plane) j (put (axis_0 plane) i values.ijk);
      })
      w

-- Arc Radius Mode
unfoldable pub radius_mode :
    {F : Type 0} → Float F → ParserState F → F → F → Parse F → Result (Parse F)
unfolding radius_center
radius_mode float state x y w =
    let values = w.block.values in
    let r = if w.block.modal.inches then to_mm float values.r else values.r in
    if is_equal_vector float state.position values.xyz
    then fail Status.gcode_invalid_target
    else if float.lt (radius_test float r x y) (float.decimal 0 0)
    then fail Status.gcode_arc_radius_error
    else done (
        radius_center float x y (record (set_values (record values { r = r }) w) {
          value_words = record (w.value_words) { r = false };
        }))

-- The distances of the two ends of an arc from its centre differ too much.
abbrev uneven : {F : Type 0} → Float F → F → F → Bool
uneven float delta_r r =
    float.lt (float.decimal 5 3) delta_r
    && (float.lt (float.decimal 5 1) delta_r || float.lt (float.mul (float.decimal 1 3) r) delta_r)

-- Arc Center Format Offset Mode
unfoldable pub offset_mode : {F : Type 0} → Float F → F → F → Parse F → Result (Parse F)
offset_mode float x y w =
    let values = w.block.values in
    let plane = w.block.modal.plane_select in
    let ijk = if w.block.modal.inches then scale float w.ijk_words values.ijk else values.ijk in
    let i = at (axis_0 plane) ijk in
    let j = at (axis_1 plane) ijk in
    let target_r = hypot_f float (float.sub x i) (float.sub y j) in
    let r = hypot_f float i j in
    if not (in_plane plane w.ijk_words)
    then fail Status.gcode_no_offsets_in_plane
    else if uneven float (float.fabs (float.sub target_r r)) r
    then fail Status.gcode_invalid_target
    else done (record (set_values (record values { ijk = ijk; r = r }) w) {
      value_words = record (w.value_words) { i = false; j = false; k = false };
    })

-- From the position to the target along one axis.
abbrev pub delta : {F : Type 0} → Float F → ParserState F → Parse F → Axis → F
delta float state w idx = float.sub (at idx w.block.values.xyz) (at idx state.position)

-- G2 and G3
unfoldable pub arc : {F : Type 0} → Float F → ParserState F → Parse F → Result (Parse F)
unfolding radius_mode offset_mode
arc float state w =
    let plane = w.block.modal.plane_select in
    let x = delta float state w (axis_0 plane) in
    let y = delta float state w (axis_1 plane) in
    if not (any_axis_word w.axis_words)
    then fail Status.gcode_no_axis_words
    else if not (in_plane plane w.axis_words)
    then fail Status.gcode_no_axis_words_in_plane
    else if w.value_words.r
    then radius_mode float state x y w
    else offset_mode float x y w

-- G38.2 to G38.5
unfoldable pub probe :
    {F : Type 0} → Float F → ParserState F → Bool → Bool → Parse F → Result (Parse F)
probe float state is_no_error is_away w =
    if not (any_axis_word w.axis_words)
    then fail Status.gcode_no_axis_words
    else if is_equal_vector float state.position w.block.values.xyz
    then fail Status.gcode_invalid_target
    else done (record w {
      probe_is_no_error = if is_no_error then true else w.probe_is_no_error;
      probe_is_away = if is_away then true else w.probe_is_away;
    })

-- With no axis words there is nothing to move.
unfoldable pub drop_motion : {F : Type 0} → Parse F → Parse F
drop_motion w =
    if not (any_axis_word w.axis_words) then record w { axis_command = axis_none } else w

abbrev pub feed_motion :
    {F : Type 0} → Float F → ParserState F → Motion → Parse F → Result (Parse F)
feed_motion float state Motion.linear w = done (drop_motion w)
feed_motion float state Motion.cw_arc w = arc float state (record w { arc_is_clockwise = true })
feed_motion float state Motion.ccw_arc w = arc float state w
feed_motion float state Motion.probe_toward w = probe float state false false w
feed_motion float state Motion.probe_toward_no_error w = probe float state true false w
feed_motion float state Motion.probe_away w = probe float state false true w
feed_motion float state Motion.probe_away_no_error w = probe float state true true w
feed_motion float state _ w = done w

-- [20. Motion modes]
unfoldable pub motion_checks : {F : Type 0} → Float F → ParserState F → Parse F → Result (Parse F)
unfolding arc probe drop_motion
motion_checks float state w =
    let motion = w.block.modal.motion in
    if is_motion_none motion
    then if any_axis_word w.axis_words then fail Status.gcode_axis_words_exist else done w
    else if is_motion_mode w.axis_command
    then if is_seek motion
      then done (drop_motion w)
      else if float.eq w.block.values.f (float.decimal 0 0)
      then fail Status.gcode_undefined_feed_rate
      else feed_motion float state motion w
    else done w

-- A value word that no step has used is left: I, J, K, L, P, R always, the others by their use.
abbrev pub is_left : {F : Type 0} → Parse F → Bool
is_left w =
    let v = w.value_words in
    let others = v.i || (v.j || (v.k || (v.l || (v.p || v.r)))) in
    let tool = if w.jog_motion then v.s || v.t else false in
    let axes = if not (is_none w.axis_command) then false else v.x || v.y in
    others || (tool || axes)

unfoldable pub check_unused : {F : Type 0} → Parse F → Result (Parse F)
check_unused w = if is_left w then fail Status.gcode_unused_words else done w

-- Step 3.
unfoldable pub error_checks :
    {F : Type 0} → Float F → Memory F → ParserState F → Parse F → Check F (Parse F)
unfolding common_checks select_coord_system non_modal_checks motion_checks check_unused
error_checks float memory state w = do
  w₁ ← pure (common_checks float state w)
  w₂ ← select_coord_system memory state w₁
  w₃ ← non_modal_checks float memory state w₂
  w₄ ← pure (motion_checks float state w₃)
  pure (check_unused w₄)
