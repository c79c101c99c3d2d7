-- ===== src/Outputs/Examples.antt =====
-- The outputs' theorems at concrete machines.
use uno_pen_plotter.Prelude.{◌≡◌, refl, [], ◌∷◌}
use uno_pen_plotter.System.{cw}
use uno_pen_plotter.System.Samples.{cycling}
use uno_pen_plotter.Outputs.{mc_reset}
use uno_pen_plotter.Outputs.Lift.{spindle, stop, requests, reset_lifts_pen}

reset_lifts_pen_example :
    (requests (spindle cw ∷ stop ∷ spindle cw ∷ []) (mc_reset cycling)).ocr2b ≡ 9
reset_lifts_pen_example = reset_lifts_pen (spindle cw ∷ stop ∷ spindle cw ∷ []) cycling refl
