-- ===== src/Gcode/Reading.antt =====
-- Steps 1 and 2 of `gc_execute_line` (grbl/gcode.c): the block at the start of a line, and the loop
-- over the words of the line. The line is the list of its characters before the terminating zero.
use uno_pen_plotter.Prelude.{
  ℕ, zero, suc, ◌-◌, Bool, true, false, not, ◌&&◌, ◌||◌, none, some, List, [], ◌∷◌, ltb, ◌==◌,
  if◌then◌else◌, length, drop,
}
use uno_pen_plotter.Prelude.Int.{pos}
use uno_pen_plotter.Text.Scan.{read_float}
use uno_pen_plotter.Gcode.{
  Float, Status, Vector, no_axis_words, axis_none, NonModal, Motion, Values, World,
}
use uno_pen_plotter.Gcode.Outcome.{Result, done, fail, ◌>>=◌}
use uno_pen_plotter.Gcode.Words.{
  Word, word_f, word_i, word_j, word_k, word_l, word_n, word_p, word_r, word_s, word_t, word_x,
  word_y, has_word, add_word, no_command_words, no_value_words, Parse, set_values,
}
use uno_pen_plotter.Gcode.Commands.{g_command, m_command}

-- A value that has been stored, and the bit of its word.
pub record Stored (F : Type 0) : Type 0 where
  pub parse : Parse F
  pub word_bit : Word

abbrev store : {F : Type 0} → Word → Values F → Parse F → Result (Stored F)
store word_bit values w = done (record { parse = set_values values w; word_bit = word_bit })

abbrev max_tool_number : ℕ
max_tool_number = 255

-- The letters that name a place of a motion.
unfoldable pub coordinate_word : {F : Type 0} → ℕ → F → Parse F → Result (Stored F)
coordinate_word letter value w =
    let values = w.block.values in
    let ijk_words = w.ijk_words in
    let axis_words = w.axis_words in
    if letter == b'I'
    then store word_i (record values { ijk = record (values.ijk) { x_axis = value } })
        (record w { ijk_words = record ijk_words { has_x = true } })
    else if letter == b'J'
    then store word_j (record values { ijk = record (values.ijk) { y_axis = value } })
        (record w { ijk_words = record ijk_words { has_y = true } })
    else if letter == b'K'
    then store word_k (record values { ijk = record (values.ijk) { z_axis = value } })
        (record w { ijk_words = record ijk_words { has_z = true } })
    else if letter == b'X'
    then store word_x (record values { xyz = record (values.xyz) { x_axis = value } })
        (record w { axis_words = record axis_words { has_x = true } })
    else if letter == b'Y'
    then store word_y (record values { xyz = record (values.xyz) { y_axis = value } })
        (record w { axis_words = record axis_words { has_y = true } })
    else fail Status.gcode_unsupported_command

-- The `switch` on the letters of the value words. Z is among those refused: the plotter has no Z axis.
unfoldable pub value_word : {F : Type 0} → Float F → ℕ → F → ℕ → Parse F → Result (Stored F)
unfolding coordinate_word
value_word float letter value int_value w =
    let values = w.block.values in
    if letter == b'F'
    then store word_f (record values { f = value }) w
    else if letter == b'L'
    then store word_l (record values { l = int_value }) w
    else if letter == b'N'
    then store word_n (record values { n = float.trunc_int32 value }) w
    else if letter == b'P'
    then store word_p (record values { p = value }) w
    else if letter == b'R'
    then store word_r (record values { r = value }) w
    else if letter == b'S'
    then store word_s (record values { s = value }) w
    else if letter == b'T'
    then if float.lt (float.decimal max_tool_number 0) value
      then fail Status.gcode_max_value_exceeded
      else store word_t (record values { t = int_value }) w
    else coordinate_word letter value w

-- F, N, P, T and S
abbrev pub is_unsigned : Word → Bool
is_unsigned word_f = true
is_unsigned word_n = true
is_unsigned word_p = true
is_unsigned word_t = true
is_unsigned word_s = true
is_unsigned _ = false

-- A repeated word is refused, and so is a negative value of some words.
unfoldable pub add_value : {F : Type 0} → Float F → F → Word → Parse F → Result (Parse F)
add_value float value word_bit w =
    if has_word word_bit w.value_words
    then fail Status.gcode_word_repeated
    else if is_unsigned word_bit && float.lt value (float.decimal 0 0)
    then fail Status.negative_value
    else done (record w { value_words = add_word word_bit w.value_words })

unfoldable pub value_command : {F : Type 0} → Float F → ℕ → F → ℕ → Parse F → Result (Parse F)
unfolding value_word add_value
value_command float letter value int_value w =
    value_word float letter value int_value w >>= λ stored.
    add_value float value stored.word_bit stored.parse

-- round(100*(value - int_value)), as a 16-bit word
abbrev pub mantissa_of : {F : Type 0} → Float F → F → ℕ
mantissa_of float value =
    float.round_uint16 (
      float.mul (float.decimal 100 0)
        (float.sub value (float.from_uint8 (float.trunc_uint8 value))))

-- The `switch` on the letter.
unfoldable pub take_word : {F : Type 0} → Float F → ℕ → F → Parse F → Result (Parse F)
unfolding g_command m_command value_command
take_word float letter value w =
    let int_value = float.trunc_uint8 value in
    let mantissa = mantissa_of float value in
    if letter == b'G'
    then g_command int_value mantissa w
    else if letter == b'M'
    then m_command int_value mantissa w
    else value_command float letter value int_value w

abbrev pub is_upper : ℕ → Bool
is_upper letter = not (ltb letter b'A' || ltb b'Z' letter)

-- The loop over the words. `skip` characters are part of the word that was read last, so that a word
-- begins where it is 0.
unfoldable pub read_words : {F : Type 0} → Float F → List ℕ → ℕ → Parse F → Result (Parse F)
read_words float [] skip w = done w
read_words float (c ∷ line) (suc skip) w = read_words float line skip w
read_words float (letter ∷ line) zero w = elim (is_upper letter) [
  | false ↦ fail Status.expected_command_letter
  | true ↦ elim (read_float float.text line) [
    | none ↦ fail Status.bad_number_format
    | some (value, rest) ↦ take_word float letter value w >>= λ w'.
        read_words float line (length line - length rest) w'
  ]
]

abbrev pub zero_vector : {F : Type 0} → Float F → Vector F
zero_vector float = record {
  x_axis = float.decimal 0 0;
  y_axis = float.decimal 0 0;
  z_axis = float.decimal 0 0;
}

abbrev zero_values : {F : Type 0} → Float F → Values F
zero_values float = record {
  f = float.decimal 0 0;
  ijk = zero_vector float;
  l = 0;
  n = pos 0;
  p = float.decimal 0 0;
  r = float.decimal 0 0;
  s = float.decimal 0 0;
  t = 0;
  xyz = zero_vector float;
}

abbrev pub is_jog : List ℕ → Bool
is_jog [] = false
is_jog (c ∷ _) = c == b'$'

-- The block of a new line: all zero, with the modes of the parser's state, or those of a jog.
unfoldable pub start_line : {F : Type 0} → Float F → Bool → World F → Parse F
start_line float jog_motion w =
    let modal = w.gc_state.modal in
    record {
      block = record {
        non_modal_command = NonModal.no_action;
        modal =
            if jog_motion
            then record modal { motion = Motion.linear; inverse_time = false }
            else modal;
        spindle = w.machine.modal_spindle;
        coolant = w.machine.modal_coolant;
        values = zero_values float;
      };
      axis_command = axis_none;
      axis_words = no_axis_words;
      ijk_words = no_axis_words;
      command_words = no_command_words;
      value_words = no_value_words;
      jog_motion = jog_motion;
      arc_is_clockwise = false;
      probe_is_away = false;
      probe_is_no_error = false;
      coord_select = 0;
      block_coord_system = w.gc_state.coord_system;
    }

-- The words start after `$J=`, or at the start of the line.
unfoldable pub read_line_words : {F : Type 0} → Float F → List ℕ → World F → Result (Parse F)
unfolding start_line read_words
read_line_words float line w =
    let jog_motion = is_jog line in
    read_words float (if jog_motion then drop 3 line else line) 0 (start_line float jog_motion w)
