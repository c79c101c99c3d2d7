-- ===== src/Stepper/Tick.antt =====
-- The timer interrupt, in the parts that its comments name (grbl/stepper.c).
use uno_pen_plotter.Prelude.{
  ◌+◌, ◌-◌, ◌/◌, ◌%◌, ◌^◌, Bool, true, false, not, ◌&&◌, ◌||◌, none, some, ltb, ◌==◌, if◌then◌else◌,
}
use uno_pen_plotter.System.Flags.{system_set_exec_state_flag}
use uno_pen_plotter.System.Exec
use uno_pen_plotter.Outputs.{is_homing}
use uno_pen_plotter.Protocol.Hold.{is_sleep}
use uno_pen_plotter.Stepper.{
  segment_buffer_size, no_pins, xor_pins, and_pins, Stepper, exec_block, add_u32, move,
}

-- The dwell before the drivers are switched off is time only.
unfoldable pub st_go_idle : Stepper → Stepper
st_go_idle s =
    let pin_state =
      (not (s.stepper_idle_lock_time == 255)
        || (not (s.machine.rt_exec_alarm == 0) || is_sleep s.machine.state))
      && not (is_homing s.machine.state) in
    record s {
      timer_on = false;
      busy = false;
      steppers_disable = if s.invert_st_enable then not pin_state else pin_state;
    }

-- The outputs at the start of the interrupt.
unfoldable pub drive_pins : Stepper → Stepper
drive_pins s = record s { direction_port = s.dir_outbits; step_port = s.step_outbits; busy = true }

-- A new segment; a new block if its index has changed.
unfoldable pub load_segment : Stepper → Stepper
load_segment s =
    let segment = s.segment_buffer s.segment_tail in
    let s₁ = record s {
      exec_segment = some s.segment_tail;
      ocr1a = segment.cycles_per_tick;
      step_count = segment.n_step;
    } in
    let s₂ =
      if s₁.exec_block_index == segment.st_block_index
      then s₁
      else (let half = (s.st_block_buffer segment.st_block_index).step_event_count / 2 in
          record s₁ {
            exec_block_index = segment.st_block_index;
            counter_x = half;
            counter_y = half;
            counter_z = half;
          }) in
    let block = exec_block s₂ in
    let level = 2 ^ segment.amass_level in
    record s₂ {
      dir_outbits = xor_pins block.direction_bits s.dir_port_invert_mask;
      steps = record {
        x = block.steps.x / level;
        y = block.steps.y / level;
        z = block.steps.z / level;
      };
    }

-- The segment buffer is empty.
unfoldable pub shut_down : Stepper → Stepper
shut_down s =
    let s' = st_go_idle s in
    record s' { machine = system_set_exec_state_flag Exec.cycle_stop s'.machine }

unfoldable pub probe_state_monitor : Bool → Stepper → Stepper
probe_state_monitor pin s =
    if pin
    then record s {
      probe_active = false;
      sys_probe_position = s.sys_position;
      machine = system_set_exec_state_flag Exec.motion_cancel s.machine;
    }
    else s

unfoldable pub step_x : Stepper → Stepper
step_x s =
    let counter = add_u32 s.counter_x s.steps.x in
    let n = (exec_block s).step_event_count in
    if ltb n counter
    then record s {
      step_outbits = record (s.step_outbits) { x = true; dual = true };
      counter_x = counter - n;
      sys_position = record (s.sys_position) {
        x = move (exec_block s).direction_bits.x s.sys_position.x;
      };
    }
    else record s { counter_x = counter }

unfoldable pub step_y : Stepper → Stepper
step_y s =
    let counter = add_u32 s.counter_y s.steps.y in
    let n = (exec_block s).step_event_count in
    if ltb n counter
    then record s {
      step_outbits = record (s.step_outbits) { y = true };
      counter_y = counter - n;
      sys_position = record (s.sys_position) {
        y = move (exec_block s).direction_bits.y s.sys_position.y;
      };
    }
    else record s { counter_y = counter }

-- Axes that are locked while homing do not get their pulse.
unfoldable pub lock_axes : Stepper → Stepper
lock_axes s =
    if is_homing s.machine.state
    then record s { step_outbits = and_pins s.step_outbits s.homing_axis_lock }
    else s

-- One step event less; the segment ends at 0.
unfoldable pub count_step : Stepper → Stepper
count_step s =
    let left = (s.step_count + (2 ^ 16 - 1)) % 2 ^ 16 in
    let tail = (s.segment_tail + 1) % 256 in
    if left == 0
    then record s {
      step_count = left;
      exec_segment = none;
      segment_tail = if tail == segment_buffer_size then 0 else tail;
    }
    else record s { step_count = left }

unfoldable pub check_probe : Bool → Stepper → Stepper
check_probe pin s = if s.probe_active then probe_state_monitor pin s else s

-- The step pulses of one event.
unfoldable pub step_axes : Stepper → Stepper
step_axes s = lock_axes (step_y (step_x (record s { step_outbits = no_pins })))

-- The rest of the interrupt, once there is a segment. `pin`: what the probe's pin says.
unfoldable pub execute_step : Bool → Stepper → Stepper
execute_step pin s =
    let s' = count_step (step_axes (check_probe pin s)) in
    record s' { step_outbits = xor_pins s'.step_outbits s'.step_port_invert_mask; busy = false }

abbrev pub has_segment : Stepper → Bool
has_segment s = elim s.exec_segment [ none ↦ false | some i ↦ true ]

-- TIMER1_COMPA_vect
unfoldable pub stepper_interrupt : Bool → Stepper → Stepper
stepper_interrupt pin s =
    if s.busy
    then s
    else (let s₁ = drive_pins s in
        if has_segment s₁
        then execute_step pin s₁
        else if s₁.segment_head == s₁.segment_tail
        then shut_down s₁
        else execute_step pin (load_segment s₁))

-- TIMER0_OVF_vect
unfoldable pub pulse_reset : Stepper → Stepper
pulse_reset s = record s { step_port = s.step_port_invert_mask }
