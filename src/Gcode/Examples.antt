-- ===== src/Gcode/Examples.antt =====
-- The parser's theorems at concrete lines, with thousandths as integers for `float`, and components
-- that leave the world as it is.
use uno_pen_plotter.Prelude.{ℕ, ◌≡◌, refl, ◌⊎◌, false, List, [], ◌∷◌, if◌then◌else◌}
use uno_pen_plotter.Prelude.Int.{ℤ, pos, ◌+ℤ◌, ◌-ℤ◌}
use uno_pen_plotter.System.Samples.{resting}
use uno_pen_plotter.Eeprom.Examples.{cells}
use uno_pen_plotter.Settings.Examples.{stored}
use uno_pen_plotter.Text.Scan.{
  read_float, read_unsigned, scan, take_sign, take_digit, apply_decimal, scale_down, scale_up,
}
use uno_pen_plotter.Gcode.{
  Status, Vector, Motion, plane_xy, ProgramFlow, ParserState, Call, World, any_axis_word,
}
use uno_pen_plotter.Gcode.Outcome.{Result, done, fail}
use uno_pen_plotter.Gcode.Words.{Parse, word_x, has_word, has_group, group_g1}
use uno_pen_plotter.Gcode.Reading.{take_word, read_line_words, start_line}
use uno_pen_plotter.Gcode.Execute.{Parts, update_target}
use uno_pen_plotter.Gcode.Line.{check_line, gc_execute_line}
use uno_pen_plotter.Gcode.Level.Calls.{AllFlat}
use uno_pen_plotter.Gcode.Level.Line.{modes_of, gc_execute_line-AllFlat}
use uno_pen_plotter.Gcode.Ends.{
  LineEnds, gc_execute_line-LineEnds, jog_targets, jog_without_axis_words,
}
use uno_pen_plotter.Gcode.Thousandths.{root, thousandths, thousandths_mul, thousandths_div}
use uno_pen_plotter.Gcode.Once.{words_of, letter_count, group_count}
use uno_pen_plotter.Gcode.Once.Line.{body, read_line_words_once}

abbrev place : ℕ → ℕ → ℕ → Vector ℤ
place x y z = record { x_axis = pos x; y_axis = pos y; z_axis = pos z }

abbrev state : ParserState ℤ
state = record {
  modal = record {
    motion = Motion.seek;
    inverse_time = false;
    inches = false;
    incremental = false;
    plane_select = plane_xy;
    dynamic_offset = false;
    coord_select = 0;
    program_flow = ProgramFlow.running;
  };
  spindle_speed = pos 0;
  feed_rate = pos 0;
  tool = 0;
  line_number = pos 0;
  position = place 10000 20000 500;
  coord_system = place 0 0 0;
  coord_offset = place 0 0 0;
  tool_length_offset = pos 0;
}

abbrev world : World ℤ
world = record { gc_state = state; machine = resting; store = stored; calls = [] }

abbrev parts : Parts ℤ
parts = record {
  float = thousandths;
  memory = record { program = cells; to_bytes = λ v. []; from_bytes = λ bytes. place 0 0 0 };
  effect = λ c w. record { machine = w.machine; store = w.store; position = w.gc_state.position };
  probe_result = λ w. update_target;
  jog_result = λ w. Status.ok;
  system_position = λ w. place 0 0 0;
}

-- G1X2.5F100
abbrev line : List ℕ
line = b'G' ∷ b'1' ∷ b'X' ∷ b'2' ∷ b'.' ∷ b'5' ∷ b'F' ∷ b'1' ∷ b'0' ∷ b'0' ∷ []

-- $J=F100
abbrev jog_line : List ℕ
jog_line = b'$' ∷ b'J' ∷ b'=' ∷ b'F' ∷ b'1' ∷ b'0' ∷ b'0' ∷ []

abbrev parse_of : Result (Parse ℤ) → Parse ℤ
parse_of (done c) = c
parse_of (fail status) = start_line thousandths false world

targets : List (Call ℤ) → List (Vector ℤ)
targets [] = []
targets (Call.mc_line target plan ∷ calls) = target ∷ targets calls
targets (c ∷ calls) = targets calls

runs : targets (gc_execute_line parts line world).1.calls ≡ place 2500 20000 500 ∷ []
unfolding targets gc_execute_line thousandths_mul thousandths_div root ◌+ℤ◌ ◌-ℤ◌ read_float
    read_unsigned scan take_sign take_digit take_word apply_decimal scale_down scale_up
runs = refl

gc_execute_line-AllFlat_example : AllFlat (pos 500) (gc_execute_line parts line world).1.calls
gc_execute_line-AllFlat_example = gc_execute_line-AllFlat parts world line refl refl tt

gc_execute_line-LineEnds_example :
    LineEnds parts
      (check_line parts line world)
      (modes_of parts world (read_line_words thousandths line world))
      world
      (gc_execute_line parts line world)
gc_execute_line-LineEnds_example = gc_execute_line-LineEnds parts world line refl refl

-- The jog line as the checks leave it.
jog_parse : Parse ℤ
jog_parse = parse_of (check_line parts jog_line world).0

jog_checked : check_line parts jog_line world ≡ (done jog_parse, stored)
unfolding jog_parse check_line thousandths_mul thousandths_div root ◌+ℤ◌ ◌-ℤ◌ read_float
    read_unsigned scan take_sign take_digit take_word apply_decimal scale_down scale_up
jog_checked = refl

no_axes : any_axis_word jog_parse.axis_words ≡ false
unfolding jog_parse check_line thousandths_mul thousandths_div root ◌+ℤ◌ ◌-ℤ◌ read_float
    read_unsigned scan take_sign take_digit take_word apply_decimal scale_down scale_up
no_axes = refl

jog_without_axis_words_example :
    ((gc_execute_line parts jog_line world).0 ≡ Status.invalid_jog_command)
    ⊎ (jog_targets (gc_execute_line parts jog_line world).1.calls ≡ place 0 0 0 ∷ [])
jog_without_axis_words_example =
    jog_without_axis_words parts world jog_line jog_parse stored refl refl jog_checked no_axes

line_parse : Parse ℤ
line_parse = parse_of (read_line_words thousandths line world)

line_read : read_line_words thousandths line world ≡ done line_parse
unfolding line_parse read_line_words thousandths_mul thousandths_div root ◌+ℤ◌ ◌-ℤ◌ read_float
    read_unsigned scan take_sign take_digit take_word apply_decimal scale_down scale_up
line_read = refl

read_line_words_once_example :
    let words = words_of thousandths (body line) 0 in
    (letter_count thousandths word_x words
      ≡ (if has_word word_x line_parse.value_words then 1 else 0))
    × (group_count thousandths group_g1 words
        ≡ (if has_group group_g1 line_parse.command_words then 1 else 0))
read_line_words_once_example =
    read_line_words_once thousandths world word_x group_g1 line line_parse line_read
