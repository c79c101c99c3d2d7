-- ===== src/Lib.antt =====
-- The firmware of the pen plotter: a port of the Grbl g-code controller to an Arduino Uno with a servo
-- that lifts the pen. Characters come in through the serial port's receive interrupt; the main loop
-- assembles them to lines and hands a line to the `$` commands or to the g-code parser; motions are
-- queued as blocks in the planner's ring, cut into segments and stepped out by the stepper's timer
-- interrupt. Interrupts talk to the main program through flag bytes, which `protocol_exec_rt_system`
-- serves at every check point.
--
-- The build modelled is that of grbl/config.h: PEN_PLOTTER_XY, PEN_SERVO and ENABLE_DUAL_AXIS are on;
-- VARIABLE_SPINDLE, ENABLE_M7, PARKING_ENABLE, USE_LINE_NUMBERS and the safety door's pin are off.
--
-- Prelude          the library's names, Boolean tests, lists and integers over the native numbers.
-- Ring             what the ring buffers share: the elements from the tail to the head.
-- System           the globals of grbl/system.h and the flag functions of grbl/system.c. A flag byte
--                  is a record of its bits, `sys.state` an enumeration. Fields that no modelled code
--                  reads are left out. Calls of code outside the model are logged in `calls`, newest
--                  first. `plan_cycle_reinitialize` stands here too: it and the recalculation at the end
--                  of `plan_buffer_line` run Planner/Recalculate on the indices, and the blocks' speeds
--                  that each finds are inputs of the model (`Planning`).
-- Outputs          the pen (grbl/spindle_control.c), the coolant pin (grbl/coolant_control.c) and
--                  `mc_reset` (grbl/motion_control.c).
-- Planner          the ring indices of grbl/planner.c.
-- Protocol         grbl/protocol.c: Hold, Cycle, Override and Realtime are
--                  `protocol_exec_rt_system`, in the order in which it serves the flags; Line is the
--                  line reader of `protocol_main_loop`; Commands are the real-time characters that
--                  the receive interrupt picks off (grbl/serial.c).
-- Serial           the two rings of grbl/serial.c and their interrupts.
-- Eeprom           grbl/eeprom.c: the memory is an array of bytes; what a cell does in each of the three
--                  programming modes is the hardware's, a parameter (`IsEeprom` is what the data sheet
--                  says). Waits for the hardware take no part.
-- Settings         grbl/settings.c: Change is `settings_store_global_setting` up to its write, Saved
--                  the rest. C's `float`, its layout in memory and the calls of other components are
--                  parameters or logged.
-- Stepper          the timer interrupt of grbl/stepper.c: the segment ring, the blocks, the Bresenham
--                  counters as 32-bit words. What the probe's pin reads is an argument of each
--                  interrupt.
-- Text             the integer printers of grbl/print.c, as the characters that they send, and
--                  `read_float` of grbl/nuts_bolts.c, with C's `float` a parameter.
-- Console          `system_execute_line` and the startup lines (grbl/system.c), over the settings and
--                  the machine; the g-code parser, the homing cycle and what happens in the wait for
--                  the buffer before a coordinate record is written are the interface `Parts`.
--                  The control pins' interrupt is Protocol/Pins.
-- Protocol/Suspend is `protocol_exec_rt_suspend` without parking. Its calls of the real-time code each
--                  take the interrupts that come before and during them; its loop uses up one of
--                  these in every round, so that their number and one is fuel enough.
-- Gcode            grbl/gcode.c: Words, Commands and Reading are the steps 1 and 2 of `gc_execute_line`,
--                  Checks, Axes and Moves the step 3, Execute, Actions and Line the step 4. A line is
--                  the list of its characters. `gc_state.modal.spindle` and `.coolant` are those of
--                  `Machine`. The calls of other components are logged, newest first, and do to the
--                  machine, the store and the parser's position what the parameter `Parts` says.
-- Motions          what queues a motion: mc_line, mc_arc, mc_dwell, the probe and homing cycles
--                  (grbl/motion_control.c), jog_execute (grbl/jog.c), the soft-limit check and the
--                  limit interrupt (grbl/limits.c), the steps of plan_buffer_line
--                  (grbl/planner.c). Each call of `protocol_execute_realtime` uses up a round,
--                  which says what comes meanwhile; a wait has the number of the rounds and one as
--                  fuel, which is enough.
-- Planner/Recalculate is planner_recalculate over the indices and the speeds of the blocks, `float`
--                  abstract; its loops have as many turns as fuel as the ring has places.
--
-- Loops. A wait that only an interrupt can end takes the list of the interrupts that come during it,
-- and gives `none` when the list ends before the wait does: `wait_reset` for the hold after a critical
-- alarm, `serial_write` for the wait for space.
-- Interrupts are atomic and happen between the statements of the main program that read or write what
-- they share; the model lets them happen where the code waits. Bytes wrap around at 256 where the
-- source adds without a guard.
--
-- Not modelled: what `float` computes, whose operations are parameters; the junction speeds of
-- blocks and the cutting of blocks into segments; the motions of the homing cycle; port registers other than the
-- outputs above, report texts, the hardware's timing.
pub mod Prelude
pub mod Ring
pub mod Planner
pub mod System
pub mod Outputs
pub mod Protocol
pub mod Serial
pub mod Eeprom
pub mod Settings
pub mod Stepper
pub mod Text
pub mod Console
pub mod Gcode
pub mod Motions
