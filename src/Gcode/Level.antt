-- ===== src/Gcode/Level.antt =====
-- The plotter has no Z axis: the height of what the parser plans (grbl/gcode.c).
pub mod Words
pub mod Checks
pub mod Moves
pub mod Calls
pub mod Line
