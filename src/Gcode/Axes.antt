-- ===== src/Gcode/Axes.antt =====
-- Step 3 of `gc_execute_line` (grbl/gcode.c), the error checks 15 and 19: the coordinate system, the
-- non-modal commands and the target in machine coordinates. Reads of the EEPROM restore a record with
-- a bad checksum, so these checks take the store with them. Such a read fails and ends the line, and the
-- wait for the buffer before the record is restored takes effect there (Gcode/Line).
use uno_pen_plotter.Prelude.{
  ℕ, ◌-◌, Bool, true, false, not, ◌&&◌, ◌||◌, List, ltb, ◌==◌, if◌then◌else◌,
}
use uno_pen_plotter.Eeprom.{Program}
use uno_pen_plotter.Settings.{Store}
use uno_pen_plotter.Settings.Saved.{settings_read_coord_data}
use uno_pen_plotter.Gcode.{
  Float, Status, Vector, Axis, x_index, y_index, z_index, at, any_axis_word, has_axis, axis_none,
  NonModal, ParserState,
}
use uno_pen_plotter.Gcode.Outcome.{Result, done, fail}
use uno_pen_plotter.Gcode.Words.{Parse, set_values}
use uno_pen_plotter.Gcode.Checks.{is_tool_length, is_seek, is_linear}

-- The EEPROM's hardware, and the bytes of a `float[N_AXIS]`.
pub record Memory (F : Type 0) : Type 0 where
  pub program : Program
  pub to_bytes : Vector F → List ℕ
  pub from_bytes : List ℕ → Vector F

-- A check that may write to the store, and keeps what it wrote also when it fails.
abbrev pub Check : Type 0 → Type 0 → Type 0
Check F A = Store F → Result A × Store F

abbrev pub and_then : {F A B : Type 0} → Result A × Store F → (A → Check F B) → Result B × Store F
and_then (done a, s) f = f a s
and_then (fail status, s) f = (fail status, s)

infixl 5 ◌>>=◌
abbrev pub ◌>>=◌ : {F A B : Type 0} → Check F A → (A → Check F B) → Check F B
◌>>=◌ m f s = and_then (m s) f

abbrev pub pure : {F A : Type 0} → Result A → Check F A
pure r s = (r, s)

unfoldable pub read_coord_data : {F : Type 0} → Memory F → ℕ → Check F (Vector F)
read_coord_data memory coord_select s =
    let (good, bytes, s') = settings_read_coord_data memory.program coord_select s in
    if good then (done (memory.from_bytes bytes), s') else (fail Status.setting_read_fail, s')

abbrev pub n_coordinate_system : ℕ
n_coordinate_system = 6

-- for (idx=0; idx<N_AXIS; idx++)
abbrev pub each_axis : {F : Type 0} → (Axis → F) → Vector F
each_axis f = record { x_axis = f x_index; y_axis = f y_index; z_axis = f z_index }

-- TOOL_LENGTH_OFFSET_AXIS
abbrev pub is_tool_axis : Axis → Bool
is_tool_axis z_index = true
is_tool_axis _ = false

-- [15. Coordinate system selection]
unfoldable pub select_coord_system :
    {F : Type 0} → Memory F → ParserState F → Parse F → Check F (Parse F)
unfolding read_coord_data
select_coord_system memory state w =
    let coord_select = w.block.modal.coord_select in
    let read = read_coord_data memory coord_select >>= λ v.
    pure (done (record w { block_coord_system = v })) in
    if w.command_words.g12
    then if ltb n_coordinate_system coord_select
      then pure (fail Status.gcode_unsupported_coord_sys)
      else if not (state.modal.coord_select == coord_select)
      then read
      else pure (done w)
    else pure (done w)

abbrev set_ijk : {F : Type 0} → Vector F → Parse F → Parse F
set_ijk ijk w = set_values (record (w.block.values) { ijk = ijk }) w

abbrev pub set_xyz : {F : Type 0} → Vector F → Parse F → Parse F
set_xyz xyz w = set_values (record (w.block.values) { xyz = xyz }) w

-- The coordinate data that G10 writes: those read, with the axes given changed.
unfoldable pub new_coord_data :
    {F : Type 0} → Float F → ParserState F → Parse F → Vector F → Vector F
new_coord_data float state w old =
    let xyz = w.block.values.xyz in
    each_axis λ idx.
      if has_axis idx w.axis_words
      then if w.block.values.l == 20
        then (let wcs =
              float.sub (float.sub (at idx state.position) (at idx state.coord_offset))
                (at idx xyz) in
            if is_tool_axis idx then float.sub wcs state.tool_length_offset else wcs)
        else at idx xyz
      else at idx old

-- The tests of G10.
check_coord_words : {F : Type 0} → Float F → Parse F → Result (Parse F)
check_coord_words float w =
    let coord_select = float.trunc_uint8 w.block.values.p in
    if not (any_axis_word w.axis_words)
    then fail Status.gcode_no_axis_words
    else if not (w.value_words.p || w.value_words.l)
    then fail Status.gcode_value_word_missing
    else if ltb n_coordinate_system coord_select
    then fail Status.gcode_unsupported_coord_sys
    else if not (w.block.values.l == 20) && (not (w.block.values.l == 2) || w.value_words.r)
    then fail Status.gcode_unsupported_command
    else done (record w {
      value_words = record (w.value_words) { l = false; p = false };
      coord_select = if ltb 0 coord_select then coord_select - 1 else w.block.modal.coord_select;
    })

-- G10
unfoldable pub coordinate_data :
    {F : Type 0} → Float F → Memory F → ParserState F → Parse F → Check F (Parse F)
unfolding read_coord_data new_coord_data check_coord_words
coordinate_data float memory state w = pure (check_coord_words float w) >>= λ w'.
    read_coord_data memory w'.coord_select >>= λ old.
    pure (done (set_ijk (new_coord_data float state w' old) w'))

-- G92
unfoldable pub coordinate_offset :
    {F : Type 0} → Float F → ParserState F → Parse F → Result (Parse F)
coordinate_offset float state w =
    if not (any_axis_word w.axis_words)
    then fail Status.gcode_no_axis_words
    else (let xyz = w.block.values.xyz in
        done (
          set_xyz
            (each_axis λ idx.
              if has_axis idx w.axis_words
              then (let offset =
                    float.sub (float.sub (at idx state.position) (at idx w.block_coord_system))
                      (at idx xyz) in
                  if is_tool_axis idx then float.sub offset state.tool_length_offset else offset)
              else at idx state.coord_offset)
            w))

abbrev pub is_absolute_override : NonModal → Bool
is_absolute_override NonModal.absolute_override = true
is_absolute_override _ = false

-- The target along one axis that has a word.
abbrev pub target_on : {F : Type 0} → Float F → ParserState F → Parse F → Axis → F
target_on float state w idx =
    let value = at idx w.block.values.xyz in
    if is_absolute_override w.block.non_modal_command
    then value
    else if not w.block.modal.incremental
    then (let target =
          float.add value (float.add (at idx w.block_coord_system) (at idx state.coord_offset)) in
        if is_tool_axis idx then float.add target state.tool_length_offset else target)
    else float.add value (at idx state.position)

unfoldable pub compute_target : {F : Type 0} → Float F → ParserState F → Parse F → Parse F
compute_target float state w =
    if not (is_tool_length w.axis_command) && any_axis_word w.axis_words
    then set_xyz
        (each_axis λ idx.
          if has_axis idx w.axis_words then target_on float state w idx else at idx state.position)
        w
    else w

abbrev pub setting_index_g28 : ℕ
setting_index_g28 = 6

abbrev pub setting_index_g30 : ℕ
setting_index_g30 = 7

-- G28 and G30. The Z that is stored is not used: the plotter has no Z axis.
unfoldable pub go_home : {F : Type 0} → Memory F → ParserState F → ℕ → Parse F → Check F (Parse F)
unfolding read_coord_data
go_home memory state index w = read_coord_data memory index >>= λ stored.
    let ijk = record stored { z_axis = state.position.z_axis } in
    pure (
      done (
        if any_axis_word w.axis_words
        then set_ijk
            (each_axis
              λ idx. if not (has_axis idx w.axis_words) then at idx state.position else at idx ijk)
            w
        else record (set_ijk ijk w) { axis_command = axis_none }))

-- G53
unfoldable pub check_override : {F : Type 0} → Parse F → Result (Parse F)
check_override w =
    if not (is_seek w.block.modal.motion || is_linear w.block.modal.motion)
    then fail Status.gcode_g53_invalid_motion_mode
    else done w

abbrev other_non_modal :
    {F : Type 0} → Memory F → ParserState F → NonModal → Parse F → Check F (Parse F)
other_non_modal memory state NonModal.go_home_0 w = go_home memory state setting_index_g28 w
other_non_modal memory state NonModal.go_home_1 w = go_home memory state setting_index_g30 w
other_non_modal memory state NonModal.absolute_override w = pure (check_override w)
other_non_modal memory state _ w = pure (done w)

abbrev pub dispatch_non_modal :
    {F : Type 0} → Float F → Memory F → ParserState F → NonModal → Parse F → Check F (Parse F)
dispatch_non_modal float memory state NonModal.set_coordinate_data w =
    coordinate_data float memory state w
dispatch_non_modal float memory state NonModal.set_coordinate_offset w =
    pure (coordinate_offset float state w)
dispatch_non_modal float memory state command w =
    other_non_modal memory state command (compute_target float state w)

-- [19. Remaining non-modal actions]
unfoldable pub non_modal_checks :
    {F : Type 0} → Float F → Memory F → ParserState F → Parse F → Check F (Parse F)
unfolding coordinate_data coordinate_offset compute_target go_home check_override
non_modal_checks float memory state w =
    dispatch_non_modal float memory state w.block.non_modal_command w
