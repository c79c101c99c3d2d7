-- ===== src/System/Overrides.antt =====
-- The masks of the override flags (EXEC_FEED_OVR_RESET and so on, grbl/system.h).
use uno_pen_plotter.Prelude.{true}
use uno_pen_plotter.System.{
  MotionOverride, AccessoryOverride, no_motion_override, no_accessory_override,
}

abbrev pub feed_reset : MotionOverride
feed_reset = record no_motion_override { feed_reset = true }

abbrev pub feed_coarse_plus : MotionOverride
feed_coarse_plus = record no_motion_override { feed_coarse_plus = true }

abbrev pub feed_coarse_minus : MotionOverride
feed_coarse_minus = record no_motion_override { feed_coarse_minus = true }

abbrev pub feed_fine_plus : MotionOverride
feed_fine_plus = record no_motion_override { feed_fine_plus = true }

abbrev pub feed_fine_minus : MotionOverride
feed_fine_minus = record no_motion_override { feed_fine_minus = true }

abbrev pub rapid_reset : MotionOverride
rapid_reset = record no_motion_override { rapid_reset = true }

abbrev pub rapid_medium : MotionOverride
rapid_medium = record no_motion_override { rapid_medium = true }

abbrev pub rapid_low : MotionOverride
rapid_low = record no_motion_override { rapid_low = true }

abbrev pub spindle_reset : AccessoryOverride
spindle_reset = record no_accessory_override { spindle_reset = true }

abbrev pub spindle_coarse_plus : AccessoryOverride
spindle_coarse_plus = record no_accessory_override { spindle_coarse_plus = true }

abbrev pub spindle_coarse_minus : AccessoryOverride
spindle_coarse_minus = record no_accessory_override { spindle_coarse_minus = true }

abbrev pub spindle_fine_plus : AccessoryOverride
spindle_fine_plus = record no_accessory_override { spindle_fine_plus = true }

abbrev pub spindle_fine_minus : AccessoryOverride
spindle_fine_minus = record no_accessory_override { spindle_fine_minus = true }

abbrev pub spindle_stop : AccessoryOverride
spindle_stop = record no_accessory_override { spindle_stop = true }

abbrev pub flood_toggle : AccessoryOverride
flood_toggle = record no_accessory_override { flood_toggle = true }
