-- ===== src/Motions/Plans.antt =====
-- What the real-time code does to the planner's ring: a cancelled jog flushes it, and a stop or a changed
-- override plans it again.
use uno_pen_plotter.Prelude.{
  ◌≡◌, ◌∙◌, inl, inr, refl, Bool, true, false, if◌then◌else◌, not, ◌&&◌, ◌||◌, ◌==◌, some, List, [],
  ◌∷◌, arith, Option-cases,
}
use uno_pen_plotter.System.{
  Machine, ExecState, AccessoryOverride, any_exec_state, any_motion_override, Call, call,
  recalculate, plan_cycle_reinitialize,
}
use uno_pen_plotter.System.Flags.{
  system_clear_exec_accessory_overrides, system_clear_exec_motion_overrides,
}
use uno_pen_plotter.Outputs.{mc_reset, spindle_set_state, coolant_set_state}
use uno_pen_plotter.Planner.Counts.{IsRing, reset-IsRing}
use uno_pen_plotter.Planner.Rings.{planner_recalculate-IsRing, planner_recalculate-ends}
use uno_pen_plotter.Protocol.Hold.{
  motion_hold, idle_hold, motion_cancel, feed_hold, door_state, safety_door, go_to_sleep,
  hold_requests, exec_holds,
}
use uno_pen_plotter.Protocol.Cycle.{
  is_hold_door_sleep, resume_door, start_cycle, exec_cycle_start, hold_stopped, flush_jog,
  motion_complete, exec_cycle_stop,
}
use uno_pen_plotter.Protocol.Override.{
  new_f_override, new_r_override, exec_motion_overrides, exec_accessory_overrides,
  spindle_speed_override, spindle_stop_override, coolant_override, last_s_override,
}
use uno_pen_plotter.Protocol.Realtime.{
  Interrupt, reset_command, set_state, set_motion, set_accessory, raise, interrupt, wait_reset,
  alarm_wait, exec_alarm, exec_status_report, exec_flags, exec_state_flags, reload_segments,
  protocol_exec_rt_system,
}
use uno_pen_plotter.Protocol.Suspend.{Pass, arrive, rt_pass}
use uno_pen_plotter.Protocol.Critical.{waiting}

-- A valid ring stays valid.
abbrev pub Planned : Machine → Machine → Type 0
Planned m m' = IsRing m.plan → IsRing m'.plan

pub Planned-of : (m m' : Machine) → m'.plan ≡ m.plan → Planned m m'
Planned-of m m' e v = rw e v

pub Planned-trans : (m m' m'' : Machine) → Planned m m' → Planned m' m'' → Planned m m''
Planned-trans m m' m'' h k v = k (h v)

Planned-if :
    (m : Machine) (b : Bool) (x y : Machine)
    → Planned m x
    → Planned m y
    → Planned m (if b then x else y)
Planned-if m true x y h k = h
Planned-if m false x y h k = k

-- A call of `planner_recalculate`, from any planned index in the buffer.
pub recalculate-Planned : (m : Machine) → Planned m (recalculate m)
recalculate-Planned m v =
    planner_recalculate-IsRing m.planning.number
      (record { indices = m.plan; blocks = m.planning.speeds 0; updates = 0 }) v

pub recalculate-ends :
    (m : Machine)
    → ((recalculate m).plan.head ≡ m.plan.head) × ((recalculate m).plan.tail ≡ m.plan.tail)
recalculate-ends m =
    planner_recalculate-ends m.planning.number
      (record { indices = m.plan; blocks = m.planning.speeds 0; updates = 0 })

reinitialize-Planned : (m : Machine) → Planned m (plan_cycle_reinitialize m)
reinitialize-Planned m v =
    recalculate-Planned (record m { plan = record (m.plan) { planned = m.plan.tail } })
      (record { tail_in = v.tail_in; head_in = v.head_in; next = v.next; planned_in = v.tail_in })

motion_hold-plan : (rt : ExecState) (m : Machine) → (motion_hold rt m).plan ≡ m.plan
unfolding motion_hold
motion_hold-plan rt m = ground arith

motion_cancel-plan : (rt : ExecState) (m : Machine) → (motion_cancel rt m).plan ≡ m.plan
unfolding motion_cancel
motion_cancel-plan rt m = ground arith

feed_hold-plan : (rt : ExecState) (m : Machine) → (feed_hold rt m).plan ≡ m.plan
unfolding feed_hold
feed_hold-plan rt m = ground arith

safety_door-plan : (rt : ExecState) (m : Machine) → (safety_door rt m).plan ≡ m.plan
unfolding safety_door door_state
safety_door-plan rt m = ground arith

go_to_sleep-plan : (rt : ExecState) (m : Machine) → (go_to_sleep rt m).plan ≡ m.plan
unfolding go_to_sleep
go_to_sleep-plan rt m = ground arith

idle_hold-plan : (m : Machine) → (idle_hold m).plan ≡ m.plan
unfolding idle_hold
idle_hold-plan m = ground arith

hold_requests-plan : (rt : ExecState) (m : Machine) → (hold_requests rt m).plan ≡ m.plan
unfolding hold_requests
hold_requests-plan rt m =
    safety_door-plan rt (feed_hold rt (motion_cancel rt (idle_hold (motion_hold rt m))))
    ∙ (feed_hold-plan rt (motion_cancel rt (idle_hold (motion_hold rt m)))
        ∙ (motion_cancel-plan rt (idle_hold (motion_hold rt m))
            ∙ (idle_hold-plan (motion_hold rt m) ∙ motion_hold-plan rt m)))

exec_holds-plan : (rt : ExecState) (m : Machine) → (exec_holds rt m).plan ≡ m.plan
unfolding exec_holds
exec_holds-plan rt m = ground (
  arith,
  go_to_sleep-plan rt m,
  go_to_sleep-plan rt (hold_requests rt m),
  hold_requests-plan rt m,
)

cycle_start-plan : (rt : ExecState) (m : Machine) → (exec_cycle_start rt m).plan ≡ m.plan
unfolding exec_cycle_start resume_door start_cycle
cycle_start-plan rt m = ground arith

status_report-plan : (rt : ExecState) (m : Machine) → (exec_status_report rt m).plan ≡ m.plan
unfolding exec_status_report
status_report-plan rt m = ground arith

hold_stopped-plan : (m : Machine) → (hold_stopped m).plan ≡ (plan_cycle_reinitialize m).plan
unfolding hold_stopped
hold_stopped-plan m = ground arith

motion_complete-Planned : (m : Machine) → Planned m (motion_complete m)
unfolding motion_complete flush_jog
motion_complete-Planned m v = ground (arith, reset-IsRing)

cycle_stop-Planned : (rt : ExecState) (m : Machine) → Planned m (exec_cycle_stop rt m)
unfolding exec_cycle_stop
cycle_stop-Planned rt m =
    Planned-if m rt.cycle_stop _ m
      (Planned-if m (is_hold_door_sleep m.state && (not m.soft_limit && not m.suspend.jog_cancel))
        (hold_stopped m) (motion_complete m)
        (λ v. rw (hold_stopped-plan m) (reinitialize-Planned m v)) (motion_complete-Planned m))
      (λ v. v)

state_flags-Planned : (rt : ExecState) (m : Machine) → Planned m (exec_state_flags rt m)
unfolding exec_state_flags
state_flags-Planned rt m =
    Planned-if m (any_exec_state rt) _ m
      (λ v. cycle_stop-Planned rt (exec_cycle_start rt (exec_holds rt m₁)) (
        rw (cycle_start-plan rt (exec_holds rt m₁), exec_holds-plan rt m₁, status_report-plan rt m)
          v))
      (λ v. v)
  where
    m₁ : Machine
    m₁ = exec_status_report rt m

speed-plan : (rt : AccessoryOverride) (m : Machine) → (spindle_speed_override rt m).plan ≡ m.plan
unfolding spindle_speed_override last_s_override spindle_set_state
speed-plan rt m = ground arith

stop-plan : (rt : AccessoryOverride) (m : Machine) → (spindle_stop_override rt m).plan ≡ m.plan
unfolding spindle_stop_override
stop-plan rt m = ground arith

coolant-plan : (rt : AccessoryOverride) (m : Machine) → (coolant_override rt m).plan ≡ m.plan
unfolding coolant_override coolant_set_state
coolant-plan rt m = ground arith

accessory-plan : (m : Machine) → (exec_accessory_overrides m).plan ≡ m.plan
unfolding exec_accessory_overrides
accessory-plan m = ground (
  arith,
  speed-plan m.rt_exec_accessory_override m₀,
  stop-plan m.rt_exec_accessory_override m₁,
  coolant-plan m.rt_exec_accessory_override (spindle_stop_override m.rt_exec_accessory_override m₁),
)
  where
    m₀ : Machine
    m₀ = system_clear_exec_accessory_overrides m

    m₁ : Machine
    m₁ = spindle_speed_override m.rt_exec_accessory_override m₀

motion-Planned : (m : Machine) → Planned m (exec_motion_overrides m)
unfolding exec_motion_overrides
motion-Planned m =
    let rt = m.rt_exec_motion_override in
    let m' = system_clear_exec_motion_overrides m in
    let f = new_f_override rt m'.f_override in
    let r = new_r_override rt m'.r_override in
    Planned-if m (any_motion_override rt) _ m
      (Planned-if m (not (f == m'.f_override) || not (r == m'.r_override)) _ m'
        (reinitialize-Planned (
          call Call.plan_update_velocity_profile_parameters
            (record m' { f_override = f; r_override = r; report_ovr_counter = 0 })))
        (λ v. v))
      (λ v. v)

reload-plan : (m : Machine) → (reload_segments m).plan ≡ m.plan
unfolding reload_segments
reload-plan m = ground arith

flags-Planned : (m : Machine) → Planned m (exec_flags m)
unfolding exec_flags
flags-Planned m =
    Planned-if m m.rt_exec_state.reset (record m { abort = true }) _ (λ v. v)
      (λ v.
        rw (reload-plan (exec_accessory_overrides m₂), accessory-plan m₂)
          (motion-Planned m₁ (state_flags-Planned m.rt_exec_state m v)))
  where
    m₁ : Machine
    m₁ = exec_state_flags m.rt_exec_state m

    m₂ : Machine
    m₂ = exec_motion_overrides m₁

interrupt-plan : (i : Interrupt) (m : Machine) → (interrupt i m).plan ≡ m.plan
unfolding interrupt mc_reset
interrupt-plan (set_state mask) m = refl
interrupt-plan (set_motion mask) m = refl
interrupt-plan (set_accessory mask) m = refl
interrupt-plan (raise code) m = refl
interrupt-plan reset_command m = ground arith

arrive-plan : (is : List Interrupt) (m : Machine) → (arrive is m).plan ≡ m.plan
arrive-plan [] m = refl
arrive-plan (i ∷ is) m = arrive-plan is (interrupt i m) ∙ interrupt-plan i m

wait-plan : (is : List Interrupt) (m m' : Machine) → wait_reset is m ≡ some m' → m'.plan ≡ m.plan
unfolding wait_reset
wait-plan [] m m' e = ground arith
wait-plan (i ∷ is) m m' e = ground (arith, wait-plan is (interrupt i m) m', interrupt-plan i m)

alarm-plan : (is : List Interrupt) (m m' : Machine) → exec_alarm is m ≡ some m' → m'.plan ≡ m.plan
unfolding exec_alarm alarm_wait
alarm-plan is m m' e = elim (Option-cases (wait_reset is (waiting m))) [
  | inl stuck ↦ ground arith
  | inr (m₁, e₁) ↦ ground (arith, wait-plan is (waiting m) m₁ e₁)
]

pub pass-Planned : (q : Pass) (m m' : Machine) → rt_pass q m ≡ some m' → Planned m m'
unfolding rt_pass protocol_exec_rt_system
pass-Planned q m m' e v = elim (Option-cases (exec_alarm q.during (arrive q.before m))) [
  | inl stuck ↦ ground arith
  | inr (m₁, e₁) ↦
      let kept = alarm-plan q.during (arrive q.before m) m₁ e₁ ∙ arrive-plan q.before m in
      let served = flags-Planned m₁ (rw kept v) in ground arith
]
