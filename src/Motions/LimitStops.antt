-- ===== src/Motions/LimitStops.antt =====
-- A limit switch stops the machine.
use uno_pen_plotter.Prelude.{
  ◌/◌, ◌≡◌, inl, inr, Bool, true, false, ◌||◌, some, List, [], ◌∷◌, arith, if◌then◌else◌,
  Option-cases,
}
use uno_pen_plotter.System.{Machine, State, Call}
use uno_pen_plotter.Outputs.{pen_up_us, is_cycle_homing_jog, mc_reset}
use uno_pen_plotter.Protocol.Realtime.{
  Interrupt, reset_command, set_state, set_motion, set_accessory, raise, interrupt, wait_reset,
  is_critical, alarm_wait, exec_alarm, exec_flags, protocol_exec_rt_system,
}
use uno_pen_plotter.Protocol.Critical.{waiting, exec_alarm-critical, critical_aborts}
use uno_pen_plotter.Motions.Limits.{is_alarm, limit_interrupt}

-- The pen is up, and the coolant is off.
abbrev pub IsOff : Machine → Type 0
IsOff m = (m.ocr2b ≡ pen_up_us / 128) × (m.flood_pin ≡ false)

interrupt-IsOff : (i : Interrupt) (m : Machine) → IsOff m → IsOff (interrupt i m)
unfolding interrupt mc_reset
interrupt-IsOff (set_state mask) m h = h
interrupt-IsOff (set_motion mask) m h = h
interrupt-IsOff (set_accessory mask) m h = h
interrupt-IsOff (raise code) m h = h
interrupt-IsOff reset_command m h = ground arith

wait-IsOff : (is : List Interrupt) (m m' : Machine) → IsOff m → wait_reset is m ≡ some m' → IsOff m'
unfolding wait_reset
wait-IsOff [] m m' h e = ground arith
wait-IsOff (i ∷ is) m m' h e =
    ground (arith, wait-IsOff is (interrupt i m) m' (interrupt-IsOff i m h))

alarm-IsOff :
    (is : List Interrupt) (m m' : Machine) → IsOff m → exec_alarm is m ≡ some m' → IsOff m'
unfolding exec_alarm alarm_wait
alarm-IsOff is m m' h e = elim (Option-cases (wait_reset is (waiting m))) [
  | inl stuck ↦ ground arith
  | inr (m₁, e₁) ↦ ground (arith, wait-IsOff is (waiting m) m₁ h e₁)
]

flags-IsOff : (m : Machine) → m.rt_exec_state.reset ≡ true → IsOff m → IsOff (exec_flags m)
unfolding exec_flags
flags-IsOff m r h = ground arith

pass-IsOff :
    (is : List Interrupt) (m m' : Machine)
    → is_critical m.rt_exec_alarm ≡ true
    → IsOff m
    → protocol_exec_rt_system is m ≡ some m'
    → IsOff m'
unfolding protocol_exec_rt_system
pass-IsOff is m m' c h e = elim (Option-cases (exec_alarm is m)) [
  | inl stuck ↦ ground arith
  | inr (m₁, e₁) ↦
      let (pending, _) = exec_alarm-critical is m m₁ c e₁ in
      ground (arith, flags-IsOff m₁ pending (alarm-IsOff is m m₁ h e₁))
]

-- The steppers may be moving.
abbrev pub may_move : Machine → Bool
may_move m =
    is_cycle_homing_jog m.state
    || (m.step_control.execute_hold || m.step_control.execute_sys_motion)

-- What the interrupt has done at once: the reset is pending, the pen is up, the coolant is off, and the
-- steppers are told to go idle if they may be moving.
abbrev pub Stopped : Machine → Machine → Type 0
Stopped m m' =
    (m'.rt_exec_state.reset ≡ true)
    × IsOff m'
    × (m'.calls ≡ (if may_move m then Call.st_go_idle ∷ m.calls else m.calls))

interrupt-Stopped :
    (m : Machine)
    → is_alarm m.state ≡ false
    → m.rt_exec_alarm ≡ 0
    → m.rt_exec_state.reset ≡ false
    → Stopped m (limit_interrupt true m)
      × (is_critical (limit_interrupt true m).rt_exec_alarm ≡ true)
unfolding limit_interrupt mc_reset
interrupt-Stopped m a n r = ground arith

-- Outside ALARM, with no alarm and no reset pending, a limit pin that reads as active in its interrupt
-- at once makes a reset pending, lifts the pen, turns the coolant off, and tells the steppers to go idle
-- if they may be moving; and the next pass that returns has aborted the system and left it in ALARM,
-- the pen still up and the coolant off, whatever interrupts came while it waited.
pub limit_stops :
    (is : List Interrupt) (m m' : Machine)
    → is_alarm m.state ≡ false
    → m.rt_exec_alarm ≡ 0
    → m.rt_exec_state.reset ≡ false
    → protocol_exec_rt_system is (limit_interrupt true m) ≡ some m'
    → Stopped m (limit_interrupt true m) × ((m'.abort ≡ true) × (m'.state ≡ State.alarm)) × IsOff m'
limit_stops is m m' a n r e =
    let (stopped, critical) = interrupt-Stopped m a n r in
    let (reset, off, calls) = stopped in
    (
      stopped,
      critical_aborts is (limit_interrupt true m) m' critical e,
      pass-IsOff is (limit_interrupt true m) m' critical off e,
    )
