-- ===== src/Stepper/Segments.antt =====
-- The ends of a segment: loading the next one, running dry, and the counts of events.
use uno_pen_plotter.Prelude.{◌≡◌, ◌<◌, Bool, true, false, none, arith, ◌==◌, if◌then◌else◌}
use uno_pen_plotter.Ring.{next_index}
use uno_pen_plotter.Stepper.{Stepper, segment_buffer_size}
use uno_pen_plotter.Stepper.Tick.{has_segment, st_go_idle, drive_pins, shut_down, stepper_interrupt}
use uno_pen_plotter.Stepper.Interrupt.{Running}
use uno_pen_plotter.Stepper.Event.{interrupt-Event}

-- An interrupt that finds no segment and an empty ring stops the timer, asks the main program for the
-- end of the cycle, lets the next interrupt in again and moves nothing; what was pulsed last is
-- still put out.
pub runs_dry :
    (pin : Bool) (s : Stepper)
    → s.busy ≡ false
    → has_segment s ≡ false
    → s.segment_head ≡ s.segment_tail
    → ((stepper_interrupt pin s).timer_on ≡ false)
      × ((stepper_interrupt pin s).busy ≡ false)
      × ((stepper_interrupt pin s).machine.rt_exec_state.cycle_stop ≡ true)
      × ((stepper_interrupt pin s).sys_position ≡ s.sys_position)
      × ((stepper_interrupt pin s).step_port ≡ s.step_outbits)
unfolding stepper_interrupt shut_down st_go_idle drive_pins
runs_dry pin s i n e = ground arith

-- The last event of a segment gives the segment back, and moves the tail on; every earlier event keeps
-- it.
pub segment_end :
    (pin : Bool) (s : Stepper)
    → Running s
    → s.segment_tail < segment_buffer_size
    → ((stepper_interrupt pin s).exec_segment
        ≡ (if s.step_count == 1 then none else s.exec_segment))
      × ((stepper_interrupt pin s).segment_tail ≡ (
          if s.step_count == 1
          then next_index segment_buffer_size s.segment_tail
          else s.segment_tail))
segment_end pin s r t = let e = interrupt-Event pin s r t in (e.in_segment.exec, e.in_segment.tail)
