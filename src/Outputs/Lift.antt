-- ===== src/Outputs/Lift.antt =====
-- The pen and the coolant after a reset, through the later requests of the main program.
use uno_pen_plotter.Prelude.{
  ℕ, ◌/◌, ◌≡◌, refl, Bool, true, false, List, [], ◌∷◌, arith, ◌||◌, ◌==◌, if◌then◌else◌,
}
use uno_pen_plotter.System.{Machine, State, Spindle, disable, cw}
use uno_pen_plotter.Outputs.{
  pen_up_us, is_cw, spindle_get_state, spindle_stop, spindle_set_state, coolant_get_state, mc_reset,
  is_cycle_homing_jog, alarm_homing_fail_reset, alarm_abort_cycle,
}

-- What the main program may ask of the outputs.
pub data Request : Type 0 where
  spindle : Spindle → Request
  stop : Request

abbrev pub requests : List Request → Machine → Machine
requests [] m = m
requests (spindle s ∷ rs) m = requests rs (spindle_set_state s m)
requests (stop ∷ rs) m = requests rs (spindle_stop m)

-- When no reset is pending and the system is not aborted, the state read back after a pen request is
-- pen down exactly for the request `cw` and pen up for any other.
pub get-set_state :
    (s : Spindle) (m : Machine)
    → m.abort ≡ false
    → m.rt_exec_state.reset ≡ false
    → spindle_get_state (spindle_set_state s m) ≡ (if is_cw s then cw else disable)
unfolding spindle_get_state spindle_set_state
get-set_state s m a r = ground arith

keeps_up :
    (s : Spindle) (m : Machine)
    → m.rt_exec_state.reset ≡ true
    → m.ocr2b ≡ pen_up_us / 128
    → ((spindle_set_state s m).rt_exec_state.reset ≡ true)
      × ((spindle_set_state s m).ocr2b ≡ pen_up_us / 128)
unfolding spindle_set_state
keeps_up s m r u = ground arith

requests_keep_up :
    (rs : List Request) (m : Machine)
    → m.rt_exec_state.reset ≡ true
    → m.ocr2b ≡ pen_up_us / 128
    → (requests rs m).ocr2b ≡ pen_up_us / 128
unfolding spindle_stop
requests_keep_up [] m r u = u
requests_keep_up (spindle s ∷ rs) m r u =
    let (r', u') = keeps_up s m r u in requests_keep_up rs (spindle_set_state s m) r' u'
requests_keep_up (stop ∷ rs) m r u = requests_keep_up rs (spindle_stop m) r refl

-- A reset issued while none was pending lifts the pen, and whatever pen requests the main program
-- makes afterwards, in any number and order, the pen stays up while the reset is pending.
pub reset_lifts_pen :
    (rs : List Request) (m : Machine)
    → m.rt_exec_state.reset ≡ false
    → (requests rs (mc_reset m)).ocr2b ≡ pen_up_us / 128
reset_lifts_pen rs m h = requests_keep_up rs (mc_reset m) (pending m) (lifted m h)
  where
    pending : (m : Machine) → (mc_reset m).rt_exec_state.reset ≡ true
    pending m = unfold mc_reset in ground arith

    lifted : (m : Machine) → m.rt_exec_state.reset ≡ false → (mc_reset m).ocr2b ≡ pen_up_us / 128
    lifted m h = unfold mc_reset in ground arith

-- In motion, as `mc_reset` sees it: cycling, homing, jogging, or braking for a hold.
abbrev pub in_motion : Machine → Bool
in_motion m =
    is_cycle_homing_jog m.state
    || (m.step_control.execute_hold || m.step_control.execute_sys_motion)

abbrev pub alarm_of_reset : State → ℕ → ℕ
alarm_of_reset State.homing alarm = if alarm == 0 then alarm_homing_fail_reset else alarm
alarm_of_reset _ alarm = alarm_abort_cycle

-- A reset leaves the reset pending and, when none was pending, turns the coolant off and raises an
-- alarm exactly if the machine was in motion: the homing alarm while homing, unless another alarm
-- was raised already, and else the abort alarm. A reset on top of a pending one changes nothing.
pub mc_reset_lem :
    (m : Machine)
    → ((mc_reset m).rt_exec_state.reset ≡ true)
      × (mc_reset (mc_reset m) ≡ mc_reset m)
      × (coolant_get_state (mc_reset m)
          ≡ (if m.rt_exec_state.reset then coolant_get_state m else false))
      × ((mc_reset m).rt_exec_alarm ≡ (
          if m.rt_exec_state.reset
          then m.rt_exec_alarm
          else if in_motion m
          then alarm_of_reset m.state m.rt_exec_alarm
          else m.rt_exec_alarm))
unfolding mc_reset coolant_get_state
mc_reset_lem m = (ground arith, ground arith, ground arith, ground arith)
