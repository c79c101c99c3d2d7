-- ===== src/Stepper/Interrupt.antt =====
-- One interrupt in a segment: what it does to the counters, the position and the segment.
use uno_pen_plotter.Prelude.{
  ℕ, ◌+◌, ◌≤◌, ◌<◌, ◌≡◌, Bool, true, false, none, arith, ltb, ◌==◌, if◌then◌else◌,
}
use uno_pen_plotter.Stepper.{Stepper, exec_block, add_u32, move, segment_buffer_size}
use uno_pen_plotter.Stepper.Tick.{
  check_probe, drive_pins, probe_state_monitor, step_x, step_y, lock_axes, count_step, has_segment,
}

-- In the middle of a segment: counters and increments within the event count, which leaves room for
-- a sum in 32 bits.
pub record Running (s : Stepper) : Type 0 where
  pub idle : s.busy ≡ false
  pub segment : has_segment s ≡ true
  pub counts : 0 < s.step_count
  pub count_in : s.step_count < 65536
  pub events : (exec_block s).step_event_count < 2147483648
  pub x_in : s.counter_x ≤ (exec_block s).step_event_count
  pub y_in : s.counter_y ≤ (exec_block s).step_event_count
  pub dx_in : s.steps.x ≤ (exec_block s).step_event_count
  pub dy_in : s.steps.y ≤ (exec_block s).step_event_count

-- What most parts of the interrupt leave alone.
pub record SameLine (s s' : Stepper) : Type 0 where
  pub buffer : s'.st_block_buffer ≡ s.st_block_buffer
  pub block : s'.exec_block_index ≡ s.exec_block_index
  pub steps : s'.steps ≡ s.steps
  pub segments : s'.segment_buffer ≡ s.segment_buffer
  pub head : s'.segment_head ≡ s.segment_head

pub record SameSegment (s s' : Stepper) : Type 0 where
  pub count : s'.step_count ≡ s.step_count
  pub tail : s'.segment_tail ≡ s.segment_tail
  pub exec : s'.exec_segment ≡ s.exec_segment

pub record SameX (s s' : Stepper) : Type 0 where
  pub counter : s'.counter_x ≡ s.counter_x
  pub position : s'.sys_position.x ≡ s.sys_position.x

pub record SameY (s s' : Stepper) : Type 0 where
  pub counter : s'.counter_y ≡ s.counter_y
  pub position : s'.sys_position.y ≡ s.sys_position.y

abbrev pub Same : Stepper → Stepper → Type 0
Same s s' = SameLine s s' × SameSegment s s' × SameX s s' × SameY s s'

pub check_probe-Same : (pin : Bool) (s : Stepper) → Same s (check_probe pin s)
unfolding check_probe probe_state_monitor
check_probe-Same pin s = ground arith

pub lock_axes-Same : (s : Stepper) → Same s (lock_axes s)
unfolding lock_axes
lock_axes-Same s = ground arith

pub drive_pins-Same : (s : Stepper) → Same s (drive_pins s)
unfolding drive_pins
drive_pins-Same s = ground arith

-- Whether an event steps an axis with this counter and increment.
abbrev pub is_step : ℕ → ℕ → ℕ → Bool
is_step n d c = ltb n (c + d)

-- One event of an axis: event count, direction and increment, and its counter and position before
-- and after.
pub record StepAxis (n : ℕ) (negative : Bool) (d c p c' p' : ℕ) : Type 0 where
  pub counter : c' + (if is_step n d c then n else 0) ≡ c + d
  pub counter_in : c' ≤ n
  pub position : p' ≡ (if is_step n d c then move negative p else p)

abbrev pub StepX : Stepper → Stepper → Type 0
StepX s s' =
    StepAxis (exec_block s).step_event_count (exec_block s).direction_bits.x s.steps.x s.counter_x
      s.sys_position.x s'.counter_x s'.sys_position.x

abbrev pub StepY : Stepper → Stepper → Type 0
StepY s s' =
    StepAxis (exec_block s).step_event_count (exec_block s).direction_bits.y s.steps.y s.counter_y
      s.sys_position.y s'.counter_y s'.sys_position.y

pub step_x-frame :
    (s : Stepper) → SameLine s (step_x s) × SameSegment s (step_x s) × SameY s (step_x s)
unfolding step_x
step_x-frame s = ground arith

pub step_y-frame :
    (s : Stepper) → SameLine s (step_y s) × SameSegment s (step_y s) × SameX s (step_y s)
unfolding step_y
step_y-frame s = ground arith

no_wrap : (c d n : ℕ) → c ≤ n → d ≤ n → n < 2147483648 → add_u32 c d ≡ c + d
no_wrap c d n p q r = omega arith

pub step_x-StepX :
    (s : Stepper)
    → s.counter_x ≤ (exec_block s).step_event_count
    → s.steps.x ≤ (exec_block s).step_event_count
    → (exec_block s).step_event_count < 2147483648
    → StepX s (step_x s)
unfolding step_x
step_x-StepX s c d n = ground arith

pub step_y-StepY :
    (s : Stepper)
    → s.counter_y ≤ (exec_block s).step_event_count
    → s.steps.y ≤ (exec_block s).step_event_count
    → (exec_block s).step_event_count < 2147483648
    → StepY s (step_y s)
unfolding step_y
step_y-StepY s c d n = ground arith

-- One event less in the segment.
pub record CountStep (s s' : Stepper) : Type 0 where
  pub count : s'.step_count + 1 ≡ s.step_count
  pub tail : s'.segment_tail ≡ (
      if s.step_count == 1
      then if s.segment_tail + 1 == segment_buffer_size then 0 else s.segment_tail + 1
      else s.segment_tail)
  pub exec : s'.exec_segment ≡ (if s.step_count == 1 then none else s.exec_segment)

pub count_step-frame :
    (s : Stepper) → SameLine s (count_step s) × SameX s (count_step s) × SameY s (count_step s)
unfolding count_step
count_step-frame s = ground arith

pub count_step-CountStep :
    (s : Stepper)
    → 0 < s.step_count
    → s.step_count < 65536
    → s.segment_tail < segment_buffer_size
    → CountStep s (count_step s)
unfolding count_step
count_step-CountStep s p q t = ground arith
