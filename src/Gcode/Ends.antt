-- ===== src/Gcode/Ends.antt =====
-- How a line of g-code ends (grbl/gcode.c): refused, accepted, or a jog.
use mathlib.Core.Path.{subst}
use uno_pen_plotter.Prelude.{ℕ, ◌≡◌, refl, ◌⊎◌, true, false, List, [], ◌∷◌, arith}
use uno_pen_plotter.Settings.{Store}
use uno_pen_plotter.Gcode.{Status, Vector, any_axis_word, Modal, Call, World}
use uno_pen_plotter.Gcode.Outcome.{Result, done, fail, Ensures}
use uno_pen_plotter.Gcode.Words.{Parse}
use uno_pen_plotter.Gcode.Reading.{zero_vector, is_jog, read_line_words}
use uno_pen_plotter.Gcode.Execute.{Parts}
use uno_pen_plotter.Gcode.Line.{check_line, refuse, execute_checked, execute_jog, gc_execute_line}
use uno_pen_plotter.Gcode.Level.Words.{is_xy}
use uno_pen_plotter.Gcode.Level.Moves.{Level}
use uno_pen_plotter.Gcode.Level.Line.{modes_of, check_line-Level}
use uno_pen_plotter.Gcode.Modes.{Ended, execute_block-Ended}

-- How a line ends that the checks refuse, and one that they accept.
abbrev pub LineEnds :
    {F : Type 0}
    → Parts F
    → Result (Parse F) × Store F
    → Modal
    → World F
    → Status × World F
    → Type 0
LineEnds parts (done c, s) m w end = Ended m end
LineEnds parts (fail status, s) m w end = end ≡ (status, refuse parts w status s)

module _ {F : Type 0} (parts : Parts F) (w : World F) where
  execute_checked-LineEnds :
      (m : Modal) (r : Result (Parse F) × Store F)
      → Ensures
          (Level false w.gc_state.modal.dynamic_offset
            (zero_vector parts.float)
            m
            w.gc_state.position.z_axis)
          r.0
      → LineEnds parts r m w (execute_checked parts w r)
  execute_checked-LineEnds m (done c, s) l =
      let w' = record w { store = s } in
      subst (λ n. Ended n (execute_checked parts w (done c, s))) l.same_modal
        (ground (arith, execute_block-Ended parts c w' l.offset_claimed))
  execute_checked-LineEnds m (fail status, s) l = refl

  -- A line that is no jog, with the XY plane active, either is refused by the checks, and then its
  -- status is the one that they found and nothing but the store has changed, save that the buffer has
  -- been synchronised if the status says that coordinates could not be read; or it is accepted, and
  -- then either the status is ok and the parser's modes are those that the words of the line set, with
  -- the defaults at the end of a program, or the line ends a program, the status says that G54 could
  -- not be read, and the program flow is still that of the end.
  pub gc_execute_line-LineEnds :
      (line : List ℕ)
      → is_jog line ≡ false
      → is_xy w.gc_state.modal.plane_select ≡ true
      → LineEnds parts
          (check_line parts line w)
          (modes_of parts w (read_line_words parts.float line w))
          w
          (gc_execute_line parts line w)
  unfolding gc_execute_line
  gc_execute_line-LineEnds line n e =
      let m = modes_of parts w (read_line_words parts.float line w) in
      execute_checked-LineEnds m (check_line parts line w) (
        subst
          (λ b.
            Ensures
              (Level b w.gc_state.modal.dynamic_offset (zero_vector parts.float) m
                w.gc_state.position.z_axis)
              (check_line parts line w).0)
          n (check_line-Level parts w line e))

-- Where the jogs among the calls go to.
abbrev pub jog_targets : {F : Type 0} → List (Call F) → List (Vector F)
jog_targets [] = []
jog_targets (Call.jog_execute plan block ∷ calls) = block.values.xyz ∷ jog_targets calls
jog_targets (c ∷ calls) = jog_targets calls

module _ {F : Type 0} (parts : Parts F) (w : World F) where
  jog_home :
      (c : Parse F) (s : Store F) (m : Modal)
      → Level true w.gc_state.modal.dynamic_offset
          (zero_vector parts.float)
          m
          w.gc_state.position.z_axis
          c
      → any_axis_word c.axis_words ≡ false
      → let end = execute_checked parts w (done c, s) in
        (end.0 ≡ Status.invalid_jog_command)
        ⊎ (jog_targets end.1.calls ≡ zero_vector parts.float ∷ jog_targets w.calls)
  unfolding execute_jog
  jog_home c s m l e = ground arith

  -- A jog line that the checks accept and that has no axis words, such as `$J=F100`, is either refused
  -- for its commands, or is a jog to the machine's origin, wherever the plotter is.
  pub jog_without_axis_words :
      (line : List ℕ) (c : Parse F) (s : Store F)
      → is_jog line ≡ true
      → is_xy w.gc_state.modal.plane_select ≡ true
      → check_line parts line w ≡ (done c, s)
      → any_axis_word c.axis_words ≡ false
      → let end = gc_execute_line parts line w in
        (end.0 ≡ Status.invalid_jog_command)
        ⊎ (jog_targets end.1.calls ≡ zero_vector parts.float ∷ jog_targets w.calls)
  unfolding gc_execute_line
  jog_without_axis_words line c s j p e n =
      let m = modes_of parts w (read_line_words parts.float line w) in
      let level =
        subst
          (λ r.
            Ensures
              (Level (is_jog line) w.gc_state.modal.dynamic_offset (zero_vector parts.float) m
                w.gc_state.position.z_axis)
              r.0)
          e (check_line-Level parts w line p) in
      rw e (
        jog_home c s m
          (subst
            (λ b.
              Level b w.gc_state.modal.dynamic_offset (zero_vector parts.float) m
                w.gc_state.position.z_axis c)
            j level)
          n)
