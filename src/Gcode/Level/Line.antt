-- ===== src/Gcode/Level/Line.antt =====
-- The height of everything that a line of g-code makes the plotter do.
use uno_pen_plotter.Prelude.{ℕ, ◌≡◌, Bool, true, false, List, arith, if◌then◌else◌, drop}
use mathlib.Core.Path.{subst}
use uno_pen_plotter.Settings.{Store}
use uno_pen_plotter.Gcode.{Vector, Modal, World}
use uno_pen_plotter.Gcode.Outcome.{Result, done, fail, Ensures}
use uno_pen_plotter.Gcode.Words.{Parse}
use uno_pen_plotter.Gcode.Reading.{zero_vector, is_jog, start_line, read_line_words}
use uno_pen_plotter.Gcode.Axes.{pure, ◌>>=◌}
use uno_pen_plotter.Gcode.Execute.{Parts}
use uno_pen_plotter.Gcode.Line.{check_line, execute_checked, gc_execute_line}
use uno_pen_plotter.Gcode.Level.Words.{is_xy, Reads, read_words-Reads}
use uno_pen_plotter.Gcode.Moves.{error_checks}
use uno_pen_plotter.Gcode.Level.Moves.{Level, error_checks-Level}
use uno_pen_plotter.Gcode.Level.Calls.{AllFlat, execute_block-AllFlat}

module _ {F : Type 0} (parts : Parts F) (w : World F) where
  start_line-Reads :
      (jog : Bool)
      → is_xy w.gc_state.modal.plane_select ≡ true
      → Reads jog w.gc_state.modal.dynamic_offset
          (zero_vector parts.float)
          (start_line parts.float jog w)
  unfolding start_line
  start_line-Reads jog e = ground arith

  read_line_words-Reads :
      (line : List ℕ)
      → is_xy w.gc_state.modal.plane_select ≡ true
      → Ensures
          (Reads (is_jog line) w.gc_state.modal.dynamic_offset (zero_vector parts.float))
          (read_line_words parts.float line w)
  unfolding read_line_words
  read_line_words-Reads line e =
      read_words-Reads (is_jog line) w.gc_state.modal.dynamic_offset (zero_vector parts.float)
        parts.float (if is_jog line then drop 3 line else line) 0 _
        (start_line-Reads (is_jog line) e)

  -- The modes as the words of a line set them.
  abbrev pub modes_of : Result (Parse F) → Modal
  modes_of (done c) = c.block.modal
  modes_of (fail status) = w.gc_state.modal

  abbrev LevelLine : List ℕ → Parse F → Type 0
  LevelLine line c =
      Level (is_jog line) w.gc_state.modal.dynamic_offset (zero_vector parts.float)
        (modes_of (read_line_words parts.float line w)) w.gc_state.position.z_axis c

  words-Level :
      (line : List ℕ) (r : Result (Parse F)) (s : Store F)
      → Ensures (Reads (is_jog line) w.gc_state.modal.dynamic_offset (zero_vector parts.float)) r
      → Ensures
          (Level
            (is_jog line)
            w.gc_state.modal.dynamic_offset
            (zero_vector parts.float)
            (modes_of r)
            w.gc_state.position.z_axis)
          ((pure r >>= error_checks parts.float parts.memory w.gc_state) s).0
  words-Level line (done c) s h =
      error_checks-Level parts.float parts.memory w.gc_state (is_jog line)
        w.gc_state.modal.dynamic_offset (zero_vector parts.float) c.block.modal c (ground arith) s
  words-Level line (fail status) s h = tt

  pub check_line-Level :
      (line : List ℕ)
      → is_xy w.gc_state.modal.plane_select ≡ true
      → Ensures (LevelLine line) (check_line parts line w).0
  unfolding check_line
  check_line-Level line e =
      words-Level line (read_line_words parts.float line w) w.store (read_line_words-Reads line e)

  execute_checked-AllFlat :
      (d : Bool) (o : Vector F) (m : Modal) (z : F) (r : Result (Parse F) × Store F)
      → Ensures (Level false d o m z) r.0
      → AllFlat z w.calls
      → AllFlat z (execute_checked parts w r).1.calls
  execute_checked-AllFlat d o m z (done c, s) l h =
      ground (arith, execute_block-AllFlat parts d o m z c (record w { store = s }) l h)
  execute_checked-AllFlat d o m z (fail status, s) l h = ground arith

  -- Whatever line is given that is no jog, and whatever the other components do meanwhile: if the XY
  -- plane is active, then every line, arc and probe that the line asks for ends at the height at which
  -- the parser's position was before the line, and every arc lies in the XY plane.
  pub gc_execute_line-AllFlat :
      (line : List ℕ)
      → is_jog line ≡ false
      → is_xy w.gc_state.modal.plane_select ≡ true
      → AllFlat w.gc_state.position.z_axis w.calls
      → AllFlat w.gc_state.position.z_axis (gc_execute_line parts line w).1.calls
  unfolding gc_execute_line
  gc_execute_line-AllFlat line n e h =
      let z = w.gc_state.position.z_axis in
      let d = w.gc_state.modal.dynamic_offset in
      let o = zero_vector parts.float in
      let m = modes_of (read_line_words parts.float line w) in
      execute_checked-AllFlat d o m z (check_line parts line w)
        (subst (λ b. Ensures (Level b d o m z) (check_line parts line w).0) n
          (check_line-Level line e))
        h
