-- ===== src/System/Exec.antt =====
-- The masks of `sys_rt_exec_state` (EXEC_RESET and so on, grbl/system.h).
use uno_pen_plotter.Prelude.{true}
use uno_pen_plotter.System.{ExecState, no_exec_state}

abbrev pub status_report : ExecState
status_report = record no_exec_state { status_report = true }

abbrev pub cycle_start : ExecState
cycle_start = record no_exec_state { cycle_start = true }

abbrev pub cycle_stop : ExecState
cycle_stop = record no_exec_state { cycle_stop = true }

abbrev pub feed_hold : ExecState
feed_hold = record no_exec_state { feed_hold = true }

abbrev pub reset : ExecState
reset = record no_exec_state { reset = true }

abbrev pub safety_door : ExecState
safety_door = record no_exec_state { safety_door = true }

abbrev pub motion_cancel : ExecState
motion_cancel = record no_exec_state { motion_cancel = true }

abbrev pub sleep : ExecState
sleep = record no_exec_state { sleep = true }

-- EXEC_MOTION_CANCEL | EXEC_FEED_HOLD | EXEC_SAFETY_DOOR | EXEC_SLEEP
abbrev pub holds : ExecState
holds = record no_exec_state {
  motion_cancel = true;
  feed_hold = true;
  safety_door = true;
  sleep = true;
}
