-- ===== src/Gcode/Level/Words.antt =====
-- What the words of a line leave alone, and how the non-modal commands claim the axis words.
use uno_pen_plotter.Prelude.{
  ◌⊎◌, ℕ, zero, suc, ◌≡◌, Bool, true, false, not, ◌&&◌, ◌||◌, List, [], ◌∷◌, arith, ◌==◌,
  Bool-cases, Option-cases, inl, inr, ◌-◌, length,
}
use uno_pen_plotter.Text.Scan.{read_float}
use uno_pen_plotter.Gcode.{
  any_axis_word, Vector, Float, AxisCommand, axis_non_modal, NonModal, Plane, plane_xy,
}
use uno_pen_plotter.Gcode.Outcome.{Ensures, Ensures-bind}
use uno_pen_plotter.Gcode.Words.{Parse, ModalGroup, Word}
use uno_pen_plotter.Gcode.Commands.{
  Taken, non_modal_word, motion_word, distance_word, tool_length_word, mode_word, g_word,
  add_command, g_command, m_word, m_command,
}
use uno_pen_plotter.Gcode.Checks.{is_tool_length}
use uno_pen_plotter.Gcode.Reading.{
  Stored, coordinate_word, value_word, add_value, value_command, take_word, read_words, is_upper,
  mantissa_of,
}

-- G10, G28, G30 and G92
abbrev pub takes_axes : NonModal → Bool
takes_axes NonModal.set_coordinate_data = true
takes_axes NonModal.go_home_0 = true
takes_axes NonModal.go_home_1 = true
takes_axes NonModal.set_coordinate_offset = true
takes_axes _ = false

abbrev pub is_axis_non_modal : AxisCommand → Bool
is_axis_non_modal axis_non_modal = true
is_axis_non_modal _ = false

abbrev pub is_xy : Plane → Bool
is_xy plane_xy = true
is_xy _ = false

abbrev pub same_bool : Bool → Bool → Bool
same_bool true b = b
same_bool false b = not b

-- No Z word was read, the plane is XY, a non-modal command that takes the axis words has claimed them,
-- and the line is a jog as it was.
pub record Reads {F : Type 0} (jog d : Bool) (o : Vector F) (w : Parse F) : Type 0 where
  pub no_z : w.axis_words.has_z ≡ false
  pub in_xy : is_xy w.block.modal.plane_select ≡ true
  pub claimed :
      (takes_axes w.block.non_modal_command && not (is_axis_non_modal w.axis_command)) ≡ false
  pub same_jog : w.jog_motion ≡ jog
  pub unmoved : (any_axis_word w.axis_words ≡ true) ⊎ (w.block.values.xyz ≡ o)
  pub offset_claimed :
      (is_tool_length w.axis_command || same_bool w.block.modal.dynamic_offset d) ≡ true

-- So is a command that was taken, unless a mantissa is left, which is refused next.
pub record Takes {F : Type 0} (jog d : Bool) (o : Vector F) (t : Taken F) : Type 0 where
  pub no_z : t.parse.axis_words.has_z ≡ false
  pub in_xy : is_xy t.parse.block.modal.plane_select ≡ true
  pub claimed :
      (takes_axes t.parse.block.non_modal_command
        && (not (is_axis_non_modal t.parse.axis_command) && t.mantissa == 0))
      ≡ false
  pub same_jog : t.parse.jog_motion ≡ jog
  pub unmoved : (any_axis_word t.parse.axis_words ≡ true) ⊎ (t.parse.block.values.xyz ≡ o)
  pub offset_claimed :
      (is_tool_length t.parse.axis_command || same_bool t.parse.block.modal.dynamic_offset d) ≡ true

module _ {F : Type 0} (jog d : Bool) (o : Vector F) where
  non_modal_word-Reads :
      (n m : ℕ) (w : Parse F) → Reads jog d o w → Ensures (Takes jog d o) (non_modal_word n m w)
  unfolding non_modal_word
  non_modal_word-Reads n m w h = ground arith

  motion_word-Reads :
      (n m : ℕ) (w : Parse F) → Reads jog d o w → Ensures (Takes jog d o) (motion_word n m w)
  unfolding motion_word
  motion_word-Reads n m w h = ground arith

  distance_word-Reads :
      (n m : ℕ) (w : Parse F) → Reads jog d o w → Ensures (Takes jog d o) (distance_word n m w)
  unfolding distance_word
  distance_word-Reads n m w h = ground arith

  tool_length_word-Reads :
      (n m : ℕ) (w : Parse F) → Reads jog d o w → Ensures (Takes jog d o) (tool_length_word n m w)
  unfolding tool_length_word
  tool_length_word-Reads n m w h = ground arith

  mode_word-Reads :
      (n m : ℕ) (w : Parse F) → Reads jog d o w → Ensures (Takes jog d o) (mode_word n m w)
  unfolding mode_word
  mode_word-Reads n m w h = ground arith

  m_word-Reads : (n : ℕ) (w : Parse F) → Reads jog d o w → Ensures (Takes jog d o) (m_word n w)
  unfolding m_word
  m_word-Reads n w h = ground arith

  add_command-Reads :
      (g : ModalGroup) (w : Parse F) → Reads jog d o w → Ensures (Reads jog d o) (add_command g w)
  unfolding add_command
  add_command-Reads g w h = ground arith

  coordinate_word-Reads :
      (c : ℕ) (x : F) (w : Parse F)
      → Reads jog d o w
      → Ensures (λ (v : Stored F). Reads jog d o v.parse) (coordinate_word c x w)
  unfolding coordinate_word
  coordinate_word-Reads c x w h = ground arith

  value_word-Reads :
      (float : Float F) (c : ℕ) (x : F) (n : ℕ) (w : Parse F)
      → Reads jog d o w
      → Ensures (λ (v : Stored F). Reads jog d o v.parse) (value_word float c x n w)
  unfolding value_word
  value_word-Reads float c x n w h = ground (arith, coordinate_word-Reads c x w h)

  add_value-Reads :
      (float : Float F) (x : F) (word : Word) (w : Parse F)
      → Reads jog d o w
      → Ensures (Reads jog d o) (add_value float x word w)
  unfolding add_value
  add_value-Reads float x word w h = ground arith

  g_word-Reads : (n m : ℕ) (w : Parse F) → Reads jog d o w → Ensures (Takes jog d o) (g_word n m w)
  unfolding g_word
  g_word-Reads n m w h = ground (
    arith,
    non_modal_word-Reads n m w h,
    motion_word-Reads n m w h,
    distance_word-Reads n m w h,
    tool_length_word-Reads n m w h,
    mode_word-Reads n m w h,
  )

  g_command-Reads :
      (n m : ℕ) (w : Parse F) → Reads jog d o w → Ensures (Reads jog d o) (g_command n m w)
  unfolding g_command
  g_command-Reads n m w h =
      Ensures-bind (Takes jog d o) (Reads jog d o) (g_word n m w) _ (g_word-Reads n m w h)
        λ t k. ground (arith, add_command-Reads t.word_bit t.parse)

  m_command-Reads :
      (n m : ℕ) (w : Parse F) → Reads jog d o w → Ensures (Reads jog d o) (m_command n m w)
  unfolding m_command
  m_command-Reads n m w h = ground arith

  value_command-Reads :
      (float : Float F) (c : ℕ) (x : F) (n : ℕ) (w : Parse F)
      → Reads jog d o w
      → Ensures (Reads jog d o) (value_command float c x n w)
  unfolding value_command
  value_command-Reads float c x n w h =
      Ensures-bind (λ v. Reads jog d o v.parse) (Reads jog d o) (value_word float c x n w) _
        (value_word-Reads float c x n w h) λ v k. add_value-Reads float x v.word_bit v.parse k

  take_word-Reads :
      (float : Float F) (c : ℕ) (x : F) (w : Parse F)
      → Reads jog d o w
      → Ensures (Reads jog d o) (take_word float c x w)
  unfolding take_word
  take_word-Reads float c x w h = ground (
    arith,
    g_command-Reads (float.trunc_uint8 x) (mantissa_of float x) w h,
    m_command-Reads (float.trunc_uint8 x) (mantissa_of float x) w h,
    value_command-Reads float c x (float.trunc_uint8 x) w h,
  )

  pub read_words-Reads :
      (float : Float F) (line : List ℕ) (skip : ℕ) (w : Parse F)
      → Reads jog d o w
      → Ensures (Reads jog d o) (read_words float line skip w)
  unfolding read_words
  read_words-Reads float [] skip w h = h
  read_words-Reads float (c ∷ line) (suc skip) w h = read_words-Reads float line skip w h
  read_words-Reads float (c ∷ line) zero w h = elim (Bool-cases (is_upper c)) [
    | inr bad ↦ rw (bad, Ensures) tt
    | inl good ↦
        rw (good, Ensures)
          (elim (Option-cases (read_float float.text line)) [
            | inl unread ↦ rw (unread, Ensures) tt
            | inr (v, read) ↦
                rw (read, Ensures)
                  (Ensures-bind (Reads jog d o) (Reads jog d o) (take_word float c v.0 w) _
                    (take_word-Reads float c v.0 w h)
                    λ w' k. read_words-Reads float line (length line - length v.1) w' k)
          ])
  ]
