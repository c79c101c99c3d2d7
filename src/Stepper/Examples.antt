-- ===== src/Stepper/Examples.antt =====
-- The stepper's theorems at one segment: a line of 8 events, X by 8 steps and Y by 4 against the
-- direction.
use uno_pen_plotter.Prelude.{◌≡◌, refl, true, false, none, some, List, [], ◌∷◌, Bool, arith}
use uno_pen_plotter.System.Samples.{cycling}
use uno_pen_plotter.Stepper.{Stepper, Block, Segment, no_pins}
use uno_pen_plotter.Stepper.Interrupt.{Running}
use uno_pen_plotter.Stepper.Line.{RunX, RunY, interrupts, segment_lem}
use uno_pen_plotter.Stepper.Exact.{segment_exact}

abbrev line_block : Block
line_block = record {
  steps = record { x = 8; y = 4; z = 0 };
  step_event_count = 8;
  direction_bits = record { x = false; y = true; dual = false };
}

abbrev line_segment : Segment
line_segment = record { n_step = 8; cycles_per_tick = 2000; st_block_index = 1; amass_level = 0 }

abbrev drawing : Stepper
drawing = record {
  counter_x = 4;
  counter_y = 4;
  counter_z = 4;
  step_outbits = no_pins;
  dir_outbits = no_pins;
  steps = record { x = 8; y = 4; z = 0 };
  step_count = 8;
  exec_block_index = 1;
  exec_segment = some 0;
  st_block_buffer = λ i. line_block;
  segment_buffer = λ i. line_segment;
  segment_tail = 0;
  segment_head = 1;
  busy = false;
  step_port_invert_mask = no_pins;
  dir_port_invert_mask = no_pins;
  step_port = no_pins;
  direction_port = no_pins;
  ocr1a = 2000;
  timer_on = true;
  steppers_disable = false;
  sys_position = record { x = 10; y = 10; z = 0 };
  probe_active = false;
  sys_probe_position = record { x = 0; y = 0; z = 0 };
  homing_axis_lock = no_pins;
  stepper_idle_lock_time = 25;
  invert_st_enable = false;
  machine = cycling;
}

drawing-Running : Running drawing
drawing-Running = ground arith

abbrev pins : List Bool
pins = false ∷ false ∷ false ∷ false ∷ false ∷ false ∷ false ∷ false ∷ []

segment_lem_example :
    RunX pins drawing (interrupts pins drawing) × RunY pins drawing (interrupts pins drawing)
segment_lem_example = segment_lem pins drawing drawing-Running (omega arith) (omega arith)

segment_exact_example :
    ((interrupts pins drawing).sys_position.x ≡ 18)
    × ((interrupts pins drawing).sys_position.y ≡ 6)
    × ((interrupts pins drawing).counter_x ≡ 4)
    × ((interrupts pins drawing).counter_y ≡ 4)
segment_exact_example =
    segment_exact pins drawing 8 4 drawing-Running (omega arith) refl (omega arith) refl refl refl
      refl

abbrev dry : Stepper
dry = record drawing { exec_segment = none; segment_tail = 1 }
