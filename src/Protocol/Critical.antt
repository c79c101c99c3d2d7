-- ===== src/Protocol/Critical.antt =====
-- A critical alarm (hard or soft limit) holds the system until a reset.
use uno_pen_plotter.Prelude.{
  ◌≡◌, ◌≢◌, inl, inr, refl, true, none, some, List, [], ◌∷◌, arith, Option-cases,
}
use uno_pen_plotter.System.{Machine, State, Call, call}
use uno_pen_plotter.System.Flags.{system_clear_exec_state_flag}
use uno_pen_plotter.System.Exec
use uno_pen_plotter.Outputs.{mc_reset}
use uno_pen_plotter.Protocol.Realtime.{
  Interrupt, reset_command, set_state, set_motion, set_accessory, raise, interrupt, wait_reset,
  is_critical, alarm_wait, alarmed, exec_alarm, exec_flags, protocol_exec_rt_system,
}

interrupt-state : (i : Interrupt) (m : Machine) → (interrupt i m).state ≡ m.state
unfolding interrupt mc_reset
interrupt-state (set_state mask) m = refl
interrupt-state (set_motion mask) m = refl
interrupt-state (set_accessory mask) m = refl
interrupt-state (raise code) m = refl
interrupt-state reset_command m = ground arith

-- What the wait returns: the reset is pending, and the state is as before.
pub wait_reset_lem :
    (is : List Interrupt) (m m' : Machine)
    → wait_reset is m ≡ some m'
    → (m'.rt_exec_state.reset ≡ true) × (m'.state ≡ m.state)
unfolding wait_reset
wait_reset_lem [] m m' e = ground arith
wait_reset_lem (i ∷ is) m m' e =
    ground (arith, wait_reset_lem is (interrupt i m) m', interrupt-state i m)

pub reset_pending : (m : Machine) → (interrupt reset_command m).rt_exec_state.reset ≡ true
unfolding interrupt mc_reset
reset_pending m = ground arith

wait_of_pending :
    (is : List Interrupt) (m : Machine) → m.rt_exec_state.reset ≡ true → wait_reset is m ≡ some m
unfolding wait_reset
wait_of_pending [] m h = ground arith
wait_of_pending (i ∷ is) m h = ground arith

-- The interrupts bring a reset.
abbrev pub HasReset : List Interrupt → Type 0
HasReset [] = ⊥
HasReset (reset_command ∷ is) = Unit
HasReset (i ∷ is) = HasReset is

wait_ends : (is : List Interrupt) (m : Machine) → HasReset is → wait_reset is m ≢ none
unfolding wait_reset
wait_ends [] m h = absurd h
wait_ends (reset_command ∷ is) m h =
    ground (arith, wait_of_pending is (interrupt reset_command m), reset_pending m)
wait_ends (set_state mask ∷ is) m h = ground (arith, wait_ends is (interrupt (set_state mask) m) h)
wait_ends (set_motion mask ∷ is) m h =
    ground (arith, wait_ends is (interrupt (set_motion mask) m) h)
wait_ends (set_accessory mask ∷ is) m h =
    ground (arith, wait_ends is (interrupt (set_accessory mask) m) h)
wait_ends (raise code ∷ is) m h = ground (arith, wait_ends is (interrupt (raise code) m) h)

-- The machine with which a critical alarm starts to wait.
abbrev pub waiting : Machine → Machine
waiting m = system_clear_exec_state_flag Exec.reset (call Call.report_critical_event (alarmed m))

pub exec_alarm-critical :
    (is : List Interrupt) (m m' : Machine)
    → is_critical m.rt_exec_alarm ≡ true
    → exec_alarm is m ≡ some m'
    → (m'.rt_exec_state.reset ≡ true) × (m'.state ≡ State.alarm)
unfolding exec_alarm alarm_wait
exec_alarm-critical is m m' c e = elim (Option-cases (wait_reset is (waiting m))) [
  | inl stuck ↦ ground arith
  | inr (m₁, e₁) ↦ ground (arith, wait_reset_lem is (waiting m) m₁ e₁)
]

pub exec_flags-reset :
    (m : Machine)
    → m.rt_exec_state.reset ≡ true
    → ((exec_flags m).abort ≡ true) × ((exec_flags m).state ≡ m.state)
unfolding exec_flags
exec_flags-reset m h = ground arith

-- A pass that starts with a hard-limit or soft-limit alarm and returns has aborted the system and
-- left it in ALARM, whatever was pending before and whatever interrupts arrived meanwhile.
pub critical_aborts :
    (is : List Interrupt) (m m' : Machine)
    → is_critical m.rt_exec_alarm ≡ true
    → protocol_exec_rt_system is m ≡ some m'
    → (m'.abort ≡ true) × (m'.state ≡ State.alarm)
unfolding protocol_exec_rt_system
critical_aborts is m m' c e = elim (Option-cases (exec_alarm is m)) [
  | inl stuck ↦ ground arith
  | inr (m₁, e₁) ↦
      let (pending, alarm) = exec_alarm-critical is m m₁ c e₁ in
      ground (arith, exec_flags-reset m₁ pending)
]

-- A pass returns if a reset is among the interrupts that arrive while it waits, whatever alarm and
-- flags it starts with.
pub rt_system_ends :
    (is : List Interrupt) (m : Machine) → HasReset is → protocol_exec_rt_system is m ≢ none
unfolding protocol_exec_rt_system exec_alarm alarm_wait
rt_system_ends is m h = ground (arith, wait_ends is (waiting m) h)
