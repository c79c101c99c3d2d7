-- ===== src/Gcode/Words.antt =====
-- The words of a g-code line (grbl/gcode.h): modal groups, value words, and what the steps of
-- `gc_execute_line` share.
use uno_pen_plotter.Prelude.{ℕ, Bool, true, false}
use uno_pen_plotter.Gcode.{Vector, AxisWords, AxisCommand, Modal, Values, Block}

pub data ModalGroup : Type 0 where
  group_g0 group_g1 group_g2 group_g3 group_g4 group_g5 group_g6 group_g7 group_g8 : ModalGroup
  group_g12 group_g13 group_m4 group_m7 group_m8 : ModalGroup

-- The bits of `command_words`.
pub record CommandWords : Type 0 where
  pub g0 : Bool
  pub g1 : Bool
  pub g2 : Bool
  pub g3 : Bool
  pub g4 : Bool
  pub g5 : Bool
  pub g6 : Bool
  pub g7 : Bool
  pub g8 : Bool
  pub g12 : Bool
  pub g13 : Bool
  pub m4 : Bool
  pub m7 : Bool
  pub m8 : Bool

abbrev pub no_command_words : CommandWords
no_command_words = record {
  g0 = false;
  g1 = false;
  g2 = false;
  g3 = false;
  g4 = false;
  g5 = false;
  g6 = false;
  g7 = false;
  g8 = false;
  g12 = false;
  g13 = false;
  m4 = false;
  m7 = false;
  m8 = false;
}

abbrev pub has_group : ModalGroup → CommandWords → Bool
has_group group_g0 c = c.g0
has_group group_g1 c = c.g1
has_group group_g2 c = c.g2
has_group group_g3 c = c.g3
has_group group_g4 c = c.g4
has_group group_g5 c = c.g5
has_group group_g6 c = c.g6
has_group group_g7 c = c.g7
has_group group_g8 c = c.g8
has_group group_g12 c = c.g12
has_group group_g13 c = c.g13
has_group group_m4 c = c.m4
has_group group_m7 c = c.m7
has_group group_m8 c = c.m8

abbrev pub add_group : ModalGroup → CommandWords → CommandWords
add_group group_g0 c = record c { g0 = true }
add_group group_g1 c = record c { g1 = true }
add_group group_g2 c = record c { g2 = true }
add_group group_g3 c = record c { g3 = true }
add_group group_g4 c = record c { g4 = true }
add_group group_g5 c = record c { g5 = true }
add_group group_g6 c = record c { g6 = true }
add_group group_g7 c = record c { g7 = true }
add_group group_g8 c = record c { g8 = true }
add_group group_g12 c = record c { g12 = true }
add_group group_g13 c = record c { g13 = true }
add_group group_m4 c = record c { m4 = true }
add_group group_m7 c = record c { m7 = true }
add_group group_m8 c = record c { m8 = true }

pub data Word : Type 0 where
  word_f word_i word_j word_k word_l word_n word_p word_r word_s word_t word_x word_y : Word

-- The bits of `value_words`. In this build no Z word gets as far as its bit.
pub record ValueWords : Type 0 where
  pub f : Bool
  pub i : Bool
  pub j : Bool
  pub k : Bool
  pub l : Bool
  pub n : Bool
  pub p : Bool
  pub r : Bool
  pub s : Bool
  pub t : Bool
  pub x : Bool
  pub y : Bool

abbrev pub no_value_words : ValueWords
no_value_words = record {
  f = false;
  i = false;
  j = false;
  k = false;
  l = false;
  n = false;
  p = false;
  r = false;
  s = false;
  t = false;
  x = false;
  y = false;
}

abbrev pub has_word : Word → ValueWords → Bool
has_word word_f v = v.f
has_word word_i v = v.i
has_word word_j v = v.j
has_word word_k v = v.k
has_word word_l v = v.l
has_word word_n v = v.n
has_word word_p v = v.p
has_word word_r v = v.r
has_word word_s v = v.s
has_word word_t v = v.t
has_word word_x v = v.x
has_word word_y v = v.y

abbrev pub add_word : Word → ValueWords → ValueWords
add_word word_f v = record v { f = true }
add_word word_i v = record v { i = true }
add_word word_j v = record v { j = true }
add_word word_k v = record v { k = true }
add_word word_l v = record v { l = true }
add_word word_n v = record v { n = true }
add_word word_p v = record v { p = true }
add_word word_r v = record v { r = true }
add_word word_s v = record v { s = true }
add_word word_t v = record v { t = true }
add_word word_x v = record v { x = true }
add_word word_y v = record v { y = true }

-- The block and the local variables of `gc_execute_line` that its steps share.
pub record Parse (F : Type 0) : Type 0 where
  pub block : Block F
  pub axis_command : AxisCommand
  pub axis_words : AxisWords
  pub ijk_words : AxisWords
  pub command_words : CommandWords
  pub value_words : ValueWords
  -- the bits of `gc_parser_flags`, less those of the laser
  pub jog_motion : Bool
  pub arc_is_clockwise : Bool
  pub probe_is_away : Bool
  pub probe_is_no_error : Bool
  pub coord_select : ℕ
  pub block_coord_system : Vector F

abbrev pub set_modal : {F : Type 0} → Modal → Parse F → Parse F
set_modal modal w = record w { block = record (w.block) { modal = modal } }

abbrev pub set_values : {F : Type 0} → Values F → Parse F → Parse F
set_values values w = record w { block = record (w.block) { values = values } }
