-- ===== src/Protocol/Suspension.antt =====
-- What one round of the suspension does with the requests to stop and restore the spindle.
use uno_pen_plotter.Prelude.{◌≡◌, Bool, false, not, ◌&&◌, ◌||◌, arith, if◌then◌else◌, ◌/◌}
use uno_pen_plotter.System.{Machine}
use uno_pen_plotter.Outputs.{pen_up_us, spindle_set_state}
use uno_pen_plotter.Protocol.Suspend.{Restore, is_disable, hold_manager}

-- A request that the feed hold manager serves.
abbrev pub requested : Machine → Bool
requested m =
    m.spindle_stop_ovr.initiate || (m.spindle_stop_ovr.restore || m.spindle_stop_ovr.restore_cycle)

-- With no abort and no reset pending, the feed hold manager serves every request: none is left, so it
-- does not act twice; it asks for a cycle start exactly if the restore was part of one and no stop
-- was requested with it; and a requested stop of a spindle that is on lifts the pen and is marked
-- as in force.
pub hold_manager_lem :
    (laser_mode : Bool) (r : Restore) (m : Machine)
    → m.abort ≡ false
    → m.rt_exec_state.reset ≡ false
    → (requested (hold_manager laser_mode r m) ≡ false)
      × ((hold_manager laser_mode r m).rt_exec_state.cycle_start ≡ (
          m.rt_exec_state.cycle_start
          || (m.spindle_stop_ovr.restore_cycle && not m.spindle_stop_ovr.initiate)))
      × ((hold_manager laser_mode r m).spindle_stop_ovr.enabled ≡ (
          if requested m
          then m.spindle_stop_ovr.initiate && not (is_disable m.modal_spindle)
          else m.spindle_stop_ovr.enabled))
      × ((if m.spindle_stop_ovr.initiate && not (is_disable m.modal_spindle)
            then (hold_manager laser_mode r m).ocr2b
            else pen_up_us / 128)
          ≡ pen_up_us / 128)
unfolding hold_manager spindle_set_state
hold_manager_lem laser_mode r m a n = (ground arith, ground arith, ground arith, ground arith)
