-- ===== src/Gcode/Level/Moves.antt =====
-- The height of the targets after the motion's checks.
use uno_pen_plotter.Prelude.{◌≡◌, ◌⊎◌, Bool, true, false, not, ◌&&◌, ◌||◌, arith}
use uno_pen_plotter.Gcode.{Vector, Float, any_axis_word, Modal, Motion, ParserState}
use uno_pen_plotter.Gcode.Outcome.{Ensures}
use uno_pen_plotter.Gcode.Words.{Parse}
use uno_pen_plotter.Gcode.Commands.{is_none}
use uno_pen_plotter.Gcode.Checks.{
  is_tool_length, is_motion_mode, is_motion_none, is_seek, common_checks,
}
use uno_pen_plotter.Gcode.Axes.{Memory, pure, select_coord_system, non_modal_checks}
use uno_pen_plotter.Gcode.Moves.{
  delta, axis_0, axis_1, radius_mode, offset_mode, arc, probe, drop_motion, feed_motion,
  motion_checks, check_unused, error_checks,
}
use uno_pen_plotter.Gcode.Level.Words.{same_bool, is_xy}
use uno_pen_plotter.Gcode.Level.Checks.{
  is_home, Kept, Placed, CheckEnsures, CheckEnsures-bind, common_checks-Kept,
  select_coord_system-Kept, non_modal_checks-Placed,
}

-- The targets that the execution will move to, by what it tests, are at a height.
pub record Level {F : Type 0} (jog d : Bool) (o : Vector F) (m : Modal) (z : F) (w : Parse F)
    : Type 0 where
  pub same_jog : w.jog_motion ≡ jog
  pub unmoved : (any_axis_word w.axis_words ≡ true) ⊎ (w.block.values.xyz ≡ o)
  pub offset_claimed :
      (is_tool_length w.axis_command || same_bool w.block.modal.dynamic_offset d) ≡ true
  pub same_modal : w.block.modal ≡ m
  pub in_xy : is_xy w.block.modal.plane_select ≡ true
  pub motion_level :
      ((not (is_motion_none w.block.modal.motion) && is_motion_mode w.axis_command) ≡ false)
      ⊎ (w.block.values.xyz.z_axis ≡ z)
  pub over_level :
      ((is_home w.block.non_modal_command && not (is_none w.axis_command)) ≡ false)
      ⊎ (w.block.values.xyz.z_axis ≡ z)
  pub home_level : (is_home w.block.non_modal_command ≡ false) ⊎ (w.block.values.ijk.z_axis ≡ z)

module _ {F : Type 0} (float : Float F) (state : ParserState F) (jog d : Bool) (o : Vector F)
    (m : Modal) (z : F) where
  radius_mode-Level :
      (x y : F) (w : Parse F)
      → Placed jog d o m z w
      → is_motion_mode w.axis_command ≡ true
      → any_axis_word w.axis_words ≡ true
      → Ensures (Level jog d o m z) (radius_mode float state x y w)
  unfolding radius_mode
  radius_mode-Level x y w h m a = ground arith

  offset_mode-Level :
      (x y : F) (w : Parse F)
      → Placed jog d o m z w
      → is_motion_mode w.axis_command ≡ true
      → any_axis_word w.axis_words ≡ true
      → Ensures (Level jog d o m z) (offset_mode float x y w)
  unfolding offset_mode
  offset_mode-Level x y w h m a = ground arith

  arc-Level :
      (w : Parse F)
      → Placed jog d o m z w
      → is_motion_mode w.axis_command ≡ true
      → Ensures (Level jog d o m z) (arc float state w)
  unfolding arc
  arc-Level w h m =
      let x = delta float state w (axis_0 w.block.modal.plane_select) in
      let y = delta float state w (axis_1 w.block.modal.plane_select) in
      ground (arith, radius_mode-Level x y w h m, offset_mode-Level x y w h m)

  probe-Level :
      (a b : Bool) (w : Parse F)
      → Placed jog d o m z w
      → is_motion_mode w.axis_command ≡ true
      → Ensures (Level jog d o m z) (probe float state a b w)
  unfolding probe
  probe-Level a b w h m = ground arith

  drop_motion-Level :
      (w : Parse F)
      → Placed jog d o m z w
      → is_motion_mode w.axis_command ≡ true
      → Level jog d o m z (drop_motion w)
  unfolding drop_motion
  drop_motion-Level w h m = ground arith

  feed_motion-Level :
      (motion : Motion) (w : Parse F)
      → Placed jog d o m z w
      → is_motion_mode w.axis_command ≡ true
      → w.block.modal.motion ≡ motion
      → is_seek motion ≡ false
      → is_motion_none motion ≡ false
      → Ensures (Level jog d o m z) (feed_motion float state motion w)
  feed_motion-Level Motion.linear w h m e s n = drop_motion-Level w h m
  feed_motion-Level Motion.cw_arc w h m e s n =
      arc-Level (record w { arc_is_clockwise = true }) (ground arith) (ground arith)
  feed_motion-Level Motion.ccw_arc w h m e s n = arc-Level w h m
  feed_motion-Level Motion.probe_toward w h m e s n = probe-Level false false w h m
  feed_motion-Level Motion.probe_toward_no_error w h m e s n = probe-Level true false w h m
  feed_motion-Level Motion.probe_away w h m e s n = probe-Level false true w h m
  feed_motion-Level Motion.probe_away_no_error w h m e s n = probe-Level true true w h m
  feed_motion-Level Motion.seek w h m e s n = cc
  feed_motion-Level Motion.motion_none w h m e s n = cc

  motion_checks-Level :
      (w : Parse F)
      → Placed jog d o m z w
      → Ensures (Level jog d o m z) (motion_checks float state w)
  unfolding motion_checks
  motion_checks-Level w h =
      ground (arith, drop_motion-Level w h, feed_motion-Level w.block.modal.motion w h)

  check_unused-Level :
      (w : Parse F) → Level jog d o m z w → Ensures (Level jog d o m z) (check_unused w)
  unfolding check_unused
  check_unused-Level w h = ground arith

module _ {F : Type 0} (float : Float F) (memory : Memory F) (state : ParserState F) (jog d : Bool)
    (o : Vector F) (m : Modal) where
  abbrev LevelHere : Parse F → Type 0
  LevelHere = Level jog d o m state.position.z_axis

  pub error_checks-Level :
      (w : Parse F) → Kept jog d o m w → CheckEnsures LevelHere (error_checks float memory state w)
  unfolding error_checks
  error_checks-Level w h =
      let z = state.position.z_axis in
      CheckEnsures-bind (Kept jog d o m) LevelHere (pure (common_checks float state w)) _
        (λ s. common_checks-Kept float state jog d o m w h)
        λ w₁ h₁.
          CheckEnsures-bind (Kept jog d o m) LevelHere (select_coord_system memory state w₁) _
            (select_coord_system-Kept float memory state jog d o m w₁ h₁)
            λ w₂ h₂.
              CheckEnsures-bind (Placed jog d o m z) LevelHere
                (non_modal_checks float memory state w₂) _
                (non_modal_checks-Placed float memory state jog d o m w₂ h₂)
                λ w₃ h₃.
                  CheckEnsures-bind LevelHere LevelHere (pure (motion_checks float state w₃)) _
                    (λ s. motion_checks-Level float state jog d o m z w₃ h₃)
                    λ w₄ h₄ s. check_unused-Level float state jog d o m z w₄ h₄
