-- ===== src/Motions/Aborts.antt =====
-- What a pending reset and an abort do to `protocol_execute_realtime`.
use uno_pen_plotter.Prelude.{
  ◌≡◌, ◌∙◌, inl, inr, refl, ◌⊎◌, true, some, List, [], ◌∷◌, arith, Option-cases,
}
use uno_pen_plotter.System.{Machine, AccessoryOverride}
use uno_pen_plotter.System.Flags.{system_clear_exec_accessory_overrides}
use uno_pen_plotter.Outputs.{mc_reset, spindle_set_state, coolant_set_state}
use uno_pen_plotter.Protocol.Override.{
  exec_motion_overrides, exec_accessory_overrides, spindle_speed_override, spindle_stop_override,
  coolant_override, last_s_override,
}
use uno_pen_plotter.Protocol.Realtime.{
  Interrupt, reset_command, set_state, set_motion, set_accessory, raise, interrupt, wait_reset,
  alarm_wait, exec_alarm, exec_flags, exec_state_flags, reload_segments, protocol_exec_rt_system,
}
use uno_pen_plotter.Protocol.Suspend.{Pass, arrive, rt_pass, protocol_exec_rt_suspend, suspend_loop}
use uno_pen_plotter.Protocol.Transitions.Frame.{exec_state_flags-Keeps}
use uno_pen_plotter.Protocol.Critical.{wait_reset_lem, waiting}
use uno_pen_plotter.Motions.{Round, Parts, Plotter}
use uno_pen_plotter.Motions.Waits.{
  suspend_if, realtime_round, next_round, protocol_execute_realtime,
}

interrupt-abort : (i : Interrupt) (m : Machine) → (interrupt i m).abort ≡ m.abort
unfolding interrupt mc_reset
interrupt-abort (set_state mask) m = refl
interrupt-abort (set_motion mask) m = refl
interrupt-abort (set_accessory mask) m = refl
interrupt-abort (raise code) m = refl
interrupt-abort reset_command m = ground arith

interrupt-reset :
    (i : Interrupt) (m : Machine)
    → m.rt_exec_state.reset ≡ true
    → (interrupt i m).rt_exec_state.reset ≡ true
unfolding interrupt mc_reset
interrupt-reset (set_state mask) m h = ground arith
interrupt-reset (set_motion mask) m h = h
interrupt-reset (set_accessory mask) m h = h
interrupt-reset (raise code) m h = h
interrupt-reset reset_command m h = ground arith

wait-abort : (is : List Interrupt) (m m' : Machine) → wait_reset is m ≡ some m' → m'.abort ≡ m.abort
unfolding wait_reset
wait-abort [] m m' e = ground arith
wait-abort (i ∷ is) m m' e = ground (arith, wait-abort is (interrupt i m) m', interrupt-abort i m)

-- The system is to stop: a reset is pending, or it has aborted.
abbrev pub IsStopped : Machine → Type 0
IsStopped m = (m.rt_exec_state.reset ≡ true) ⊎ (m.abort ≡ true)

arrive-IsStopped : (is : List Interrupt) (m : Machine) → IsStopped m → IsStopped (arrive is m)
arrive-IsStopped [] m h = h
arrive-IsStopped (i ∷ is) m (inl h) =
    arrive-IsStopped is (interrupt i m) (inl (interrupt-reset i m h))
arrive-IsStopped (i ∷ is) m (inr h) =
    arrive-IsStopped is (interrupt i m) (inr (interrupt-abort i m ∙ h))

alarm-IsStopped :
    (is : List Interrupt) (m m' : Machine) → IsStopped m → exec_alarm is m ≡ some m' → IsStopped m'
unfolding exec_alarm alarm_wait
alarm-IsStopped is m m' h e = elim (Option-cases (wait_reset is (waiting m))) [
  | inl stuck ↦ ground arith
  | inr (m₁, e₁) ↦ ground (arith, wait_reset_lem is (waiting m) m₁ e₁)
]

speed-abort : (rt : AccessoryOverride) (m : Machine) → (spindle_speed_override rt m).abort ≡ m.abort
unfolding spindle_speed_override last_s_override spindle_set_state
speed-abort rt m = ground arith

stop-abort : (rt : AccessoryOverride) (m : Machine) → (spindle_stop_override rt m).abort ≡ m.abort
unfolding spindle_stop_override
stop-abort rt m = ground arith

coolant-abort : (rt : AccessoryOverride) (m : Machine) → (coolant_override rt m).abort ≡ m.abort
unfolding coolant_override coolant_set_state
coolant-abort rt m = ground arith

accessory-abort : (m : Machine) → (exec_accessory_overrides m).abort ≡ m.abort
unfolding exec_accessory_overrides
accessory-abort m = ground (
  arith,
  speed-abort m.rt_exec_accessory_override m₀,
  stop-abort m.rt_exec_accessory_override (spindle_speed_override m.rt_exec_accessory_override m₀),
  coolant-abort m.rt_exec_accessory_override (
      spindle_stop_override m.rt_exec_accessory_override
        (spindle_speed_override m.rt_exec_accessory_override m₀)),
)
  where
    m₀ : Machine
    m₀ = system_clear_exec_accessory_overrides m

motion-abort : (m : Machine) → (exec_motion_overrides m).abort ≡ m.abort
unfolding exec_motion_overrides
motion-abort m = ground arith

reload-abort : (m : Machine) → (reload_segments m).abort ≡ m.abort
unfolding reload_segments
reload-abort m = ground arith

overrides-abort :
    (m : Machine)
    → (reload_segments (exec_accessory_overrides (exec_motion_overrides m))).abort ≡ m.abort
overrides-abort m =
    reload-abort (exec_accessory_overrides (exec_motion_overrides m))
    ∙ (accessory-abort (exec_motion_overrides m) ∙ motion-abort m)

flags-aborted : (m : Machine) → IsStopped m → (exec_flags m).abort ≡ true
unfolding exec_flags
flags-aborted m h = ground (
  arith,
  overrides-abort (exec_state_flags m.rt_exec_state m),
  exec_state_flags-Keeps m.rt_exec_state m,
)

-- A pass that returns leaves the system aborted.
pub pass-aborted :
    (q : Pass) (m m' : Machine) → IsStopped m → rt_pass q m ≡ some m' → m'.abort ≡ true
unfolding rt_pass protocol_exec_rt_system
pass-aborted q m m' h e = elim (Option-cases (exec_alarm q.during (arrive q.before m))) [
  | inl stuck ↦ ground arith
  | inr (m₁, e₁) ↦ ground (
    arith,
    flags-aborted m₁
        (alarm-IsStopped q.during (arrive q.before m) m₁ (arrive-IsStopped q.before m h) e₁),
  )
]

suspend-aborted :
    {F : Type 0}
    → (parts : Parts F) (ps : List Pass) (m m' : Machine) → m.abort ≡ true
    → suspend_if parts ps m ≡ some m'
    → m' ≡ m
unfolding protocol_exec_rt_suspend suspend_loop
suspend-aborted parts ps m m' h e = ground arith

round-aborted :
    {F : Type 0}
    → (parts : Parts F) (round : Round) (m m' : Machine) → IsStopped m
    → realtime_round parts round m ≡ some m'
    → m'.abort ≡ true
unfolding realtime_round
round-aborted parts round m m' h e = elim (Option-cases (rt_pass round.pass m)) [
  | inl stuck ↦ ground arith
  | inr (m₁, e₁) ↦ elim (Option-cases (suspend_if parts round.suspended m₁)) [
    | inl stuck ↦ ground arith
    | inr (m₂, e₂) ↦
        ground
          (arith, pass-aborted round.pass m m₁ h e₁, suspend-aborted parts round.suspended m₁ m₂)
  ]
]

-- A call on a stopped system that returns leaves it aborted, and queues nothing.
pub realtime-aborted :
    {F : Type 0}
    → (parts : Parts F) (p p' : Plotter F) → IsStopped p.machine
    → protocol_execute_realtime parts p ≡ some p'
    → (p'.machine.abort ≡ true) × (p'.queued ≡ p.queued)
unfolding protocol_execute_realtime
realtime-aborted parts p p' h e = rounds-aborted parts p.rounds p p' h e
  where
    rounds-aborted :
        {F : Type 0}
        → (parts : Parts F) (rounds : List Round) (p p' : Plotter F) → IsStopped p.machine
        → next_round parts rounds p ≡ some p'
        → (p'.machine.abort ≡ true) × (p'.queued ≡ p.queued)
    rounds-aborted parts [] p p' h e = ground arith
    rounds-aborted parts (round ∷ rounds) p p' h e =
        elim (Option-cases (realtime_round parts round p.machine)) [
          | inl stuck ↦ ground arith
          | inr (m₁, e₁) ↦ ground (arith, round-aborted parts round p.machine m₁ h e₁)
        ]
