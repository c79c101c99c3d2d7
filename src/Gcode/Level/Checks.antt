-- ===== src/Gcode/Level/Checks.antt =====
-- The height of the targets that the error checks compute.
use uno_pen_plotter.Prelude.{ℕ, ◌≡◌, refl, ◌⊎◌, Bool, true, false, not, ◌&&◌, ◌||◌, arith}
use uno_pen_plotter.Settings.{Store}
use uno_pen_plotter.Gcode.{Float, Vector, any_axis_word, Modal, NonModal, ParserState}
use uno_pen_plotter.Gcode.Outcome.{Result, done, fail, Ensures, Ensures-bind}
use uno_pen_plotter.Gcode.Words.{Parse}
use uno_pen_plotter.Gcode.Commands.{is_none}
use uno_pen_plotter.Gcode.Checks.{
  is_tool_length, is_motion_mode, imply_motion, check_line_number, check_feed, check_spindle_speed,
  check_dwell, convert_units, check_tool_length, common_checks,
}
use uno_pen_plotter.Gcode.Axes.{
  Memory, Check, and_then, ◌>>=◌, pure, read_coord_data, select_coord_system, coordinate_data,
  coordinate_offset, compute_target, go_home, check_override, dispatch_non_modal, setting_index_g28,
  setting_index_g30, non_modal_checks,
}
use uno_pen_plotter.Gcode.Level.Words.{same_bool, takes_axes, is_axis_non_modal, is_xy}

-- G28 and G30
abbrev pub is_home : NonModal → Bool
is_home NonModal.go_home_0 = true
is_home NonModal.go_home_1 = true
is_home _ = false

-- What holds after the words, and the modes that they set.
pub record Kept {F : Type 0} (jog d : Bool) (o : Vector F) (m : Modal) (w : Parse F) : Type 0 where
  pub no_z : w.axis_words.has_z ≡ false
  pub in_xy : is_xy w.block.modal.plane_select ≡ true
  pub claimed :
      (takes_axes w.block.non_modal_command && not (is_axis_non_modal w.axis_command)) ≡ false
  pub same_jog : w.jog_motion ≡ jog
  pub unmoved : (any_axis_word w.axis_words ≡ true) ⊎ (w.block.values.xyz ≡ o)
  pub offset_claimed :
      (is_tool_length w.axis_command || same_bool w.block.modal.dynamic_offset d) ≡ true
  pub same_modal : w.block.modal ≡ m

-- The targets that a line will move to are at the height of the parser's position.
pub record Placed {F : Type 0} (jog d : Bool) (o : Vector F) (m : Modal) (z : F) (w : Parse F)
    : Type 0 where
  pub same_jog : w.jog_motion ≡ jog
  pub unmoved : (any_axis_word w.axis_words ≡ true) ⊎ (w.block.values.xyz ≡ o)
  pub offset_claimed :
      (is_tool_length w.axis_command || same_bool w.block.modal.dynamic_offset d) ≡ true
  pub same_modal : w.block.modal ≡ m
  pub in_xy : is_xy w.block.modal.plane_select ≡ true
  pub no_home_motion : (is_home w.block.non_modal_command && is_motion_mode w.axis_command) ≡ false
  pub motion_level :
      ((is_motion_mode w.axis_command && any_axis_word w.axis_words) ≡ false)
      ⊎ (w.block.values.xyz.z_axis ≡ z)
  pub over_level :
      ((is_home w.block.non_modal_command && not (is_none w.axis_command)) ≡ false)
      ⊎ (w.block.values.xyz.z_axis ≡ z)
  pub home_level : (is_home w.block.non_modal_command ≡ false) ⊎ (w.block.values.ijk.z_axis ≡ z)

abbrev pub CheckEnsures : {F A : Type 0} → (A → Type 0) → Check F A → Type 0
CheckEnsures {F = F} P m = (s : Store F) → Ensures P (m s).0

pub CheckEnsures-bind :
    {F A B : Type 0} (P : A → Type 0) (Q : B → Type 0) (m : Check F A) (f : A → Check F B)
    → CheckEnsures P m
    → ((a : A) → P a → CheckEnsures Q (f a))
    → CheckEnsures Q (m >>= f)
CheckEnsures-bind {F} {A} {B} P Q m f p q s = step (m s) (p s)
  where
    step : (r : Result A × Store F) → Ensures P r.0 → Ensures Q (and_then r f).0
    step (done a, s') k = q a k s'
    step (fail status, s') k = tt

module _ {F : Type 0} (float : Float F) (state : ParserState F) (jog d : Bool) (o : Vector F)
    (m : Modal) where
  check_feed-Kept :
      (w : Parse F) → Kept jog d o m w → Ensures (Kept jog d o m) (check_feed float state w)
  unfolding check_feed
  check_feed-Kept w h = ground arith

  imply_motion-Kept : (w : Parse F) → Kept jog d o m w → Kept jog d o m (imply_motion w)
  unfolding imply_motion
  imply_motion-Kept w h = ground arith

  check_line_number-Kept :
      (w : Parse F) → Kept jog d o m w → Ensures (Kept jog d o m) (check_line_number w)
  unfolding check_line_number
  check_line_number-Kept w h = ground arith

  check_dwell-Kept : (w : Parse F) → Kept jog d o m w → Ensures (Kept jog d o m) (check_dwell w)
  unfolding check_dwell
  check_dwell-Kept w h = ground arith

  check_spindle_speed-Kept :
      (w : Parse F) → Kept jog d o m w → Kept jog d o m (check_spindle_speed state w)
  unfolding check_spindle_speed
  check_spindle_speed-Kept w h = ground arith

  convert_units-Kept : (w : Parse F) → Kept jog d o m w → Kept jog d o m (convert_units float w)
  unfolding convert_units
  convert_units-Kept w h = ground arith

  check_tool_length-Kept :
      (w : Parse F) → Kept jog d o m w → Ensures (Kept jog d o m) (check_tool_length w)
  unfolding check_tool_length
  check_tool_length-Kept w h = ground arith

  pub common_checks-Kept :
      (w : Parse F) → Kept jog d o m w → Ensures (Kept jog d o m) (common_checks float state w)
  unfolding common_checks
  common_checks-Kept w h =
      Ensures-bind (Kept jog d o m) (Kept jog d o m) (check_line_number (imply_motion w)) _
        (check_line_number-Kept _ (imply_motion-Kept w h))
        λ w₁ h₁.
          Ensures-bind (Kept jog d o m) (Kept jog d o m) (check_feed float state w₁) _
            (check_feed-Kept w₁ h₁)
            λ w₂ h₂.
              Ensures-bind (Kept jog d o m) (Kept jog d o m)
                (check_dwell (check_spindle_speed state w₂)) _
                (check_dwell-Kept _ (check_spindle_speed-Kept w₂ h₂))
                λ w₃ h₃. check_tool_length-Kept _ (convert_units-Kept w₃ h₃)

module _ {F : Type 0} (float : Float F) (memory : Memory F) (state : ParserState F) (jog d : Bool)
    (o : Vector F) (m : Modal) where
  read_done : (n : ℕ) → CheckEnsures (λ (_ : Vector F). Unit {0}) (read_coord_data memory n)
  unfolding read_coord_data
  read_done n s = ground arith

  set_coord_system-Kept :
      (w : Parse F) (v : Vector F)
      → Kept jog d o m w
      → Kept jog d o m (record w { block_coord_system = v })
  set_coord_system-Kept w v h = ground arith

  pub select_coord_system-Kept :
      (w : Parse F)
      → Kept jog d o m w
      → CheckEnsures (Kept jog d o m) (select_coord_system memory state w)
  unfolding select_coord_system
  select_coord_system-Kept w h s = ground (
    arith,
    CheckEnsures-bind (λ (_ : Vector F). Unit {0}) (Kept jog d o m)
        (read_coord_data memory w.block.modal.coord_select)
        (λ v. pure (done (record w { block_coord_system = v }))) (read_done _)
        (λ v k t. set_coord_system-Kept w v h) s,
  )

  abbrev PlacedHere : Parse F → Type 0
  PlacedHere = Placed jog d o m state.position.z_axis

  coordinate_data-Placed :
      (w : Parse F)
      → Kept jog d o m w
      → is_axis_non_modal w.axis_command ≡ true
      → is_home w.block.non_modal_command ≡ false
      → CheckEnsures PlacedHere (coordinate_data float memory state w)
  unfolding coordinate_data
  coordinate_data-Placed w h e n s = ground arith

  coordinate_offset-Placed :
      (w : Parse F)
      → Kept jog d o m w
      → is_axis_non_modal w.axis_command ≡ true
      → is_home w.block.non_modal_command ≡ false
      → Ensures PlacedHere (coordinate_offset float state w)
  unfolding coordinate_offset
  coordinate_offset-Placed w h e n = ground arith

  go_home-Placed :
      (index : ℕ) (w : Parse F)
      → Kept jog d o m w
      → is_axis_non_modal w.axis_command ≡ true
      → is_home w.block.non_modal_command ≡ true
      → CheckEnsures PlacedHere (go_home memory state index (compute_target float state w))
  unfolding go_home compute_target
  go_home-Placed index w h e n s = ground arith

  check_override-Placed :
      (w : Parse F)
      → Kept jog d o m w
      → is_home w.block.non_modal_command ≡ false
      → Ensures PlacedHere (check_override (compute_target float state w))
  unfolding check_override compute_target
  check_override-Placed w h n = ground arith

  compute_target-Placed :
      (w : Parse F)
      → Kept jog d o m w
      → is_home w.block.non_modal_command ≡ false
      → PlacedHere (compute_target float state w)
  unfolding compute_target
  compute_target-Placed w h n = ground arith

  dispatch-Placed :
      (command : NonModal) (w : Parse F)
      → Kept jog d o m w
      → w.block.non_modal_command ≡ command
      → CheckEnsures PlacedHere (dispatch_non_modal float memory state command w)
  dispatch-Placed NonModal.set_coordinate_data w h e =
      coordinate_data-Placed w h (ground arith) (ground arith)
  dispatch-Placed NonModal.set_coordinate_offset w h e =
      λ s. coordinate_offset-Placed w h (ground arith) (ground arith)
  dispatch-Placed NonModal.go_home_0 w h e =
      go_home-Placed setting_index_g28 w h (ground arith) (ground arith)
  dispatch-Placed NonModal.go_home_1 w h e =
      go_home-Placed setting_index_g30 w h (ground arith) (ground arith)
  dispatch-Placed NonModal.absolute_override w h e = λ s. check_override-Placed w h (ground arith)
  dispatch-Placed NonModal.no_action w h e = λ s. compute_target-Placed w h (ground arith)
  dispatch-Placed NonModal.dwell w h e = λ s. compute_target-Placed w h (ground arith)
  dispatch-Placed NonModal.set_home_0 w h e = λ s. compute_target-Placed w h (ground arith)
  dispatch-Placed NonModal.set_home_1 w h e = λ s. compute_target-Placed w h (ground arith)
  dispatch-Placed NonModal.reset_coordinate_offset w h e =
      λ s. compute_target-Placed w h (ground arith)

  pub non_modal_checks-Placed :
      (w : Parse F)
      → Kept jog d o m w
      → CheckEnsures PlacedHere (non_modal_checks float memory state w)
  unfolding non_modal_checks
  non_modal_checks-Placed w h = dispatch-Placed w.block.non_modal_command w h refl
