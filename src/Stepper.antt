-- ===== src/Stepper.antt =====
-- The stepper's interrupt (grbl/stepper.c): segments of blocks from a ring, and steps by Bresenham's
-- line algorithm.
pub mod Interrupt
pub mod Event
pub mod Tick
pub mod Line
pub mod Exact
pub mod Segments
pub mod Examples
use uno_pen_plotter.Prelude.{
  ℕ, ◌+◌, ◌-◌, ◌/◌, ◌%◌, ◌^◌, Bool, true, false, not, ◌&&◌, ◌||◌, Option, none, some, ltb, ◌==◌,
  if◌then◌else◌,
}
use uno_pen_plotter.Ring.{Array}
use uno_pen_plotter.System.{Machine, State}
use uno_pen_plotter.System.Flags.{system_set_exec_state_flag}
use uno_pen_plotter.System.Exec
use uno_pen_plotter.Outputs.{is_homing}
use uno_pen_plotter.Protocol.Hold.{is_sleep}

abbrev pub segment_buffer_size : ℕ
segment_buffer_size = 6

-- One value for each axis.
pub record Axes (A : Type 0) : Type 0 where
  pub x : A
  pub y : A
  pub z : A

-- The bits of a step or direction port: X, Y, and the second motor of X on its own port. Z has no
-- pins.
pub record Pins : Type 0 where
  pub x : Bool
  pub y : Bool
  pub dual : Bool

abbrev pub no_pins : Pins
no_pins = record { x = false; y = false; dual = false }

abbrev pub xor : Bool → Bool → Bool
xor a b = if a then not b else b

abbrev pub xor_pins : Pins → Pins → Pins
xor_pins a b = record { x = xor a.x b.x; y = xor a.y b.y; dual = xor a.dual b.dual }

abbrev pub and_pins : Pins → Pins → Pins
and_pins a b = record { x = a.x && b.x; y = a.y && b.y; dual = a.dual && b.dual }

-- `st_block_t`
pub record Block : Type 0 where
  pub steps : Axes ℕ
  pub step_event_count : ℕ
  pub direction_bits : Pins

-- `segment_t`
pub record Segment : Type 0 where
  pub n_step : ℕ
  pub cycles_per_tick : ℕ
  pub st_block_index : ℕ
  pub amass_level : ℕ

-- `st`, the segment ring, the masks, the ports, the probe, and what the interrupt reads of the
-- settings; positions and counters are 32-bit words.
pub record Stepper : Type 0 where
  pub counter_x : ℕ
  pub counter_y : ℕ
  pub counter_z : ℕ
  pub step_outbits : Pins
  pub dir_outbits : Pins
  pub steps : Axes ℕ
  pub step_count : ℕ
  pub exec_block_index : ℕ
  pub exec_segment : Option ℕ
  pub st_block_buffer : Array Block
  pub segment_buffer : Array Segment
  pub segment_tail : ℕ
  pub segment_head : ℕ
  pub busy : Bool
  pub step_port_invert_mask : Pins
  pub dir_port_invert_mask : Pins
  pub step_port : Pins
  pub direction_port : Pins
  pub ocr1a : ℕ
  pub timer_on : Bool
  pub steppers_disable : Bool
  pub sys_position : Axes ℕ
  pub probe_active : Bool
  pub sys_probe_position : Axes ℕ
  pub homing_axis_lock : Pins
  pub stepper_idle_lock_time : ℕ
  pub invert_st_enable : Bool
  pub machine : Machine

-- The block that `st.exec_block` points to.
abbrev pub exec_block : Stepper → Block
exec_block s = s.st_block_buffer s.exec_block_index

abbrev pub add_u32 : ℕ → ℕ → ℕ
add_u32 a b = (a + b) % 2 ^ 32

-- position++ and position--
abbrev pub move : Bool → ℕ → ℕ
move negative p = if negative then (p + (2 ^ 32 - 1)) % 2 ^ 32 else (p + 1) % 2 ^ 32
