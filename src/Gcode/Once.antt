-- ===== src/Gcode/Once.antt =====
-- A line has each value word, and a command of each modal group, at most once (grbl/gcode.c).
pub mod Groups
pub mod Letters
pub mod Line
use uno_pen_plotter.Prelude.{
  ℕ, zero, suc, ◌+◌, ◌-◌, ◌≤◌, ◌≡◌, ◌≢◌, refl, sym, inl, inr, Bool, true, false, not, ◌&&◌, ◌||◌,
  none, some, List, [], ◌∷◌, drop, ltb, leb, ◌==◌, if◌then◌else◌, arith, length, Bool-cases,
  Option-cases,
}
use mathlib.Core.Path.{subst}
use uno_pen_plotter.Text.Scan.{read_float}
use uno_pen_plotter.Gcode.{Float, World}
use uno_pen_plotter.Gcode.Outcome.{Result, done, fail, ◌>>=◌, Ensures, Ensures-bind}
use uno_pen_plotter.Gcode.Words.{
  ModalGroup, group_g0, group_g1, group_g2, group_g3, group_g4, group_g5, group_g6, group_g7,
  group_g8, group_g12, group_g13, group_m4, group_m7, group_m8, has_group, add_group, CommandWords,
  Word, word_f, word_i, word_j, word_k, word_l, word_n, word_p, word_r, word_s, word_t, word_x,
  word_y, has_word, add_word, ValueWords, Parse,
}
use uno_pen_plotter.Gcode.Commands.{
  Taken, is_non_modal, is_motion, non_modal_word, motion_word, distance_word, tool_length_word,
  mode_word, g_word, add_command, g_command, m_word, m_command,
}
use uno_pen_plotter.Gcode.Reading.{
  Stored, coordinate_word, value_word, add_value, value_command, take_word, read_words, is_upper,
  mantissa_of, is_jog, start_line, read_line_words,
}

-- The words of a line: each letter with the value that follows it, up to the first that is not one.
unfoldable pub words_of : {F : Type 0} → Float F → List ℕ → ℕ → List (ℕ × F)
words_of float [] skip = []
words_of float (c ∷ line) (suc skip) = words_of float line skip
words_of float (letter ∷ line) zero = elim (is_upper letter) [
  | false ↦ []
  | true ↦ elim (read_float float.text line) [
    | none ↦ []
    | some (value, rest) ↦ (letter, value) ∷ words_of float line (length line - length rest)
  ]
]

abbrev pub letter_of : Word → ℕ
letter_of word_f = b'F'
letter_of word_i = b'I'
letter_of word_j = b'J'
letter_of word_k = b'K'
letter_of word_l = b'L'
letter_of word_n = b'N'
letter_of word_p = b'P'
letter_of word_r = b'R'
letter_of word_s = b'S'
letter_of word_t = b'T'
letter_of word_x = b'X'
letter_of word_y = b'Y'

-- The table of the modal groups in grbl/gcode.h, by the command's number and a hundred times its
-- fraction.
abbrev pub is_in_g_group : ModalGroup → ℕ → ℕ → Bool
is_in_g_group group_g0 n m = n == 4 || (n == 10 || (n == 28 || (n == 30 || (n == 53 || n == 92))))
is_in_g_group group_g1 n m = leb n 3 || (n == 38 || n == 80)
is_in_g_group group_g2 n m = leb 17 n && leb n 19
is_in_g_group group_g3 n m = (n == 90 || n == 91) && m == 0
is_in_g_group group_g4 n m = (n == 90 || n == 91) && not (m == 0)
is_in_g_group group_g5 n m = n == 93 || n == 94
is_in_g_group group_g6 n m = n == 20 || n == 21
is_in_g_group group_g7 n m = n == 40
is_in_g_group group_g8 n m = n == 43 || n == 49
is_in_g_group group_g12 n m = leb 54 n && leb n 59
is_in_g_group group_g13 n m = n == 61
is_in_g_group _ n m = false

abbrev pub is_in_m_group : ModalGroup → ℕ → Bool
is_in_m_group group_m4 n = leb n 2 || n == 30
is_in_m_group group_m7 n = leb 3 n && leb n 5
is_in_m_group group_m8 n = n == 8 || n == 9
is_in_m_group _ n = false

module _ {F : Type 0} (float : Float F) where
  abbrev pub is_of_group : ModalGroup → ℕ × F → Bool
  is_of_group g (letter, value) =
      if letter == b'G'
      then is_in_g_group g (float.trunc_uint8 value) (mantissa_of float value)
      else if letter == b'M'
      then is_in_m_group g (float.trunc_uint8 value)
      else false

  -- How many words of a line are of a group, and how many have a letter.
  abbrev pub group_count : ModalGroup → List (ℕ × F) → ℕ
  group_count g [] = 0
  group_count g (word ∷ words) = (if is_of_group g word then 1 else 0) + group_count g words

  abbrev pub letter_count : Word → List (ℕ × F) → ℕ
  letter_count x [] = 0
  letter_count x ((letter, value) ∷ words) =
      (if letter == letter_of x then 1 else 0) + letter_count x words

abbrev pub to_number : Bool → ℕ
to_number b = if b then 1 else 0

-- What one word, of value words if `letter` is its letter, does to the bits.
pub record Adds {F : Type 0} (x : Word) (g : ModalGroup) (is_x is_g : Bool) (w w' : Parse F)
    : Type 0 where
  pub adds_word :
      to_number (has_word x w'.value_words) ≡ to_number is_x + to_number (has_word x w.value_words)
  pub adds_group :
      to_number (has_group g w'.command_words)
      ≡ to_number is_g + to_number (has_group g w.command_words)

pub has_word-add :
    (x y : Word) (v : ValueWords)
    → has_word x (add_word y v) ≡ (letter_of x == letter_of y || has_word x v)
has_word-add x y v = ground arith

abbrev pub index : ModalGroup → ℕ
index group_g0 = 0
index group_g1 = 1
index group_g2 = 2
index group_g3 = 3
index group_g4 = 4
index group_g5 = 5
index group_g6 = 6
index group_g7 = 7
index group_g8 = 8
index group_g12 = 9
index group_g13 = 10
index group_m4 = 11
index group_m7 = 12
index group_m8 = 13

pub has_group-add :
    (g h : ModalGroup) (c : CommandWords)
    → has_group g (add_group h c) ≡ (index g == index h || has_group g c)
has_group-add g h c = ground arith
