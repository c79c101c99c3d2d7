-- ===== src/Protocol/Bounds.antt =====
-- The override percentages: their range, and the one request that wraps.
use Prim.Native.Nat.{min, max}
use uno_pen_plotter.Prelude.{
  ℕ, ◌+◌, ◌-◌, ◌≤◌, ◌≡◌, ◌⊎◌, inl, inr, Bool, true, false, not, ◌&&◌, some, List, [], ◌∷◌, arith,
  ◌==◌, if◌then◌else◌, Bool-cases, Option-cases,
}
use uno_pen_plotter.System.{Machine, AccessoryOverride, any_accessory_override, Call, call}
use uno_pen_plotter.System.Flags.{
  system_clear_exec_accessory_overrides, system_clear_exec_state_flag,
}
use uno_pen_plotter.System.Exec
use uno_pen_plotter.Outputs.{spindle_set_state, mc_reset}
use uno_pen_plotter.Protocol.Override.{
  new_override, min_override, max_override, default_override, coarse_increment, fine_increment,
  exec_motion_overrides, exec_accessory_overrides, new_f_override, new_r_override,
  spindle_speed_override, last_s_override, spindle_stop_override, coolant_override,
}
use uno_pen_plotter.Protocol.Realtime.{
  Interrupt, reset_command, set_state, set_motion, set_accessory, raise, interrupt, wait_reset,
  alarm_wait, alarmed, exec_alarm, reload_segments, exec_flags, protocol_exec_rt_system,
}
use uno_pen_plotter.Protocol.Transitions.Frame.{Keeps, exec_state_flags-Keeps}

-- What the requests mean: from the reset value or the old one, the sum of the increments less the
-- decrements, kept within the limits.
abbrev pub intended : Bool → Bool → Bool → Bool → Bool → ℕ → ℕ
intended reset coarse_plus coarse_minus fine_plus fine_minus v =
    let start = if reset then default_override else v in
    let up =
      (if coarse_plus then coarse_increment else 0) + (if fine_plus then fine_increment else 0) in
    let down =
      (if coarse_minus then coarse_increment else 0) + (if fine_minus then fine_increment else 0) in
    max (min (start + up - down) max_override) min_override

-- Both decrements and no increment, at the lower limit.
abbrev pub wraps : Bool → Bool → Bool → Bool → Bool → ℕ → Bool
wraps reset coarse_plus coarse_minus fine_plus fine_minus v =
    not reset
    && (not coarse_plus && (coarse_minus && (not fine_plus && (fine_minus && v == min_override))))

-- For every set of requests and every percentage within the limits, the new percentage is the
-- intended one, except that a coarse and a fine decrement served together at the lower limit wrap
-- around and give the upper limit.
pub new_override_lem :
    (r cp cm fp fm : Bool) (v : ℕ)
    → min_override ≤ v
    → v ≤ max_override
    → new_override r cp cm fp fm v
      ≡ (if wraps r cp cm fp fm v then max_override else intended r cp cm fp fm v)
new_override_lem true true cm fp fm v lo hi = ground arith
new_override_lem true false cm fp fm v lo hi = ground arith
new_override_lem false true cm fp fm v lo hi = ground arith
new_override_lem false false cm fp fm v lo hi = ground arith

new_override_range :
    (r cp cm fp fm : Bool) (v : ℕ)
    → (min_override ≤ new_override r cp cm fp fm v) × (new_override r cp cm fp fm v ≤ max_override)
new_override_range r cp cm fp fm v = (omega arith, omega arith)

-- The three percentages are within their limits.
pub record InRange (m : Machine) : Type 0 where
  pub feed_low : min_override ≤ m.f_override
  pub feed_high : m.f_override ≤ max_override
  pub rapid : (m.r_override ≡ 100) ⊎ ((m.r_override ≡ 50) ⊎ (m.r_override ≡ 25))
  pub spindle_low : min_override ≤ m.spindle_speed_ovr
  pub spindle_high : m.spindle_speed_ovr ≤ max_override

pub motion-InRange : (m : Machine) → InRange m → InRange (exec_motion_overrides m)
unfolding exec_motion_overrides new_f_override new_r_override
motion-InRange m v = ground (
  arith,
  new_override_range m.rt_exec_motion_override.feed_reset m.rt_exec_motion_override.feed_coarse_plus
      m.rt_exec_motion_override.feed_coarse_minus m.rt_exec_motion_override.feed_fine_plus
      m.rt_exec_motion_override.feed_fine_minus m.f_override,
)

speed-InRange :
    (rt : AccessoryOverride) (m : Machine) → InRange m → InRange (spindle_speed_override rt m)
unfolding spindle_speed_override last_s_override spindle_set_state
speed-InRange rt m v = ground (
  arith,
  new_override_range rt.spindle_reset rt.spindle_coarse_plus rt.spindle_coarse_minus
      rt.spindle_fine_plus rt.spindle_fine_minus m.spindle_speed_ovr,
)

stop-InRange :
    (rt : AccessoryOverride) (m : Machine) → InRange m → InRange (spindle_stop_override rt m)
unfolding spindle_stop_override
stop-InRange rt m v = ground arith

coolant-InRange :
    (rt : AccessoryOverride) (m : Machine) → InRange m → InRange (coolant_override rt m)
unfolding coolant_override
coolant-InRange rt m v = ground arith

accessory-InRange : (m : Machine) → InRange m → InRange (exec_accessory_overrides m)
unfolding exec_accessory_overrides
accessory-InRange m v = elim (Bool-cases (any_accessory_override m.rt_exec_accessory_override)) [
  | inl t ↦ rw t (coolant-InRange rt _ (stop-InRange rt _ (speed-InRange rt cleared kept)))
  | inr f ↦ rw f v
]
  where
    rt : AccessoryOverride
    rt = m.rt_exec_accessory_override

    cleared : Machine
    cleared = system_clear_exec_accessory_overrides m

    kept : InRange cleared
    kept = ground arith

Keeps-InRange : {m m' : Machine} → Keeps m m' → InRange m → InRange m'
Keeps-InRange k v = ground arith

reload-InRange : (m : Machine) → InRange m → InRange (reload_segments m)
unfolding reload_segments
reload-InRange m v = ground arith

pub exec_flags-InRange : (m : Machine) → InRange m → InRange (exec_flags m)
unfolding exec_flags
exec_flags-InRange m v = ground (
  arith,
  reload-InRange _ (
      accessory-InRange _
        (motion-InRange _ (Keeps-InRange (exec_state_flags-Keeps m.rt_exec_state m) v))),
)

interrupt-InRange : (i : Interrupt) (m : Machine) → InRange m → InRange (interrupt i m)
unfolding interrupt mc_reset
interrupt-InRange (set_state mask) m v = ground arith
interrupt-InRange (set_motion mask) m v = ground arith
interrupt-InRange (set_accessory mask) m v = ground arith
interrupt-InRange (raise code) m v = ground arith
interrupt-InRange reset_command m v = ground arith

wait-InRange :
    (is : List Interrupt) (m m' : Machine) → InRange m → wait_reset is m ≡ some m' → InRange m'
unfolding wait_reset
wait-InRange [] m m' v e = ground arith
wait-InRange (i ∷ is) m m' v e =
    ground (arith, wait-InRange is (interrupt i m) m' (interrupt-InRange i m v))

alarm_wait-InRange :
    (is : List Interrupt) (code : ℕ) (m m' : Machine)
    → InRange m
    → alarm_wait is code m ≡ some m'
    → InRange m'
unfolding alarm_wait
alarm_wait-InRange is code m m' v e = ground (
  arith,
  wait-InRange is (system_clear_exec_state_flag Exec.reset (call Call.report_critical_event m)) m',
)

alarm-InRange :
    (is : List Interrupt) (m m' : Machine) → InRange m → exec_alarm is m ≡ some m' → InRange m'
unfolding exec_alarm
alarm-InRange is m m' v e = elim (Option-cases (alarm_wait is m.rt_exec_alarm (alarmed m))) [
  | inl stuck ↦ ground arith
  | inr (m₁, e₁) ↦ ground (arith, alarm_wait-InRange is m.rt_exec_alarm (alarmed m) m₁)
]

-- Whatever is requested and whatever interrupts arrive meanwhile, a pass that returns leaves the feed
-- and spindle percentages between 10 and 200 and the rapid percentage at 100, 50 or 25, if they were
-- so before.
pub rt_system-InRange :
    (is : List Interrupt) (m m' : Machine)
    → InRange m
    → protocol_exec_rt_system is m ≡ some m'
    → InRange m'
unfolding protocol_exec_rt_system
rt_system-InRange is m m' v e = elim (Option-cases (exec_alarm is m)) [
  | inl stuck ↦ ground arith
  | inr (m₁, e₁) ↦
      let v₁ : InRange (exec_flags m₁) = exec_flags-InRange m₁ (alarm-InRange is m m₁ v e₁) in
      ground arith
]
