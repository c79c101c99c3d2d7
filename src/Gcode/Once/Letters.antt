-- ===== src/Gcode/Once/Letters.antt =====
-- The letter of a value word, and its bit; any word.
use uno_pen_plotter.Prelude.{ℕ, ◌≡◌, ◌≢◌, refl, inl, inr, Bool, false, ◌==◌, arith, Bool-cases}
use mathlib.Core.Path.{subst}
use uno_pen_plotter.Gcode.{Float}
use uno_pen_plotter.Gcode.Outcome.{Result, Ensures, Ensures-bind}
use uno_pen_plotter.Gcode.Words.{ModalGroup, Word, Parse}
use uno_pen_plotter.Gcode.Commands.{g_command, m_command}
use uno_pen_plotter.Gcode.Reading.{
  Stored, coordinate_word, value_word, add_value, value_command, take_word, mantissa_of,
}
use uno_pen_plotter.Gcode.Once.{letter_of, is_of_group, Adds, has_word-add}
use uno_pen_plotter.Gcode.Once.Groups.{g_command-Adds, m_command-Adds}

letter_of-ne : (x : Word) → (letter_of x ≢ b'G') × (letter_of x ≢ b'M')
letter_of-ne x = ground arith

module _ {F : Type 0} (float : Float F) (letter : ℕ) (value : F) (w : Parse F) where
  record IsOfLetter (stored : Stored F) : Type 0 where
    same_letter : letter_of stored.word_bit ≡ letter
    same_commands : stored.parse.command_words ≡ w.command_words
    same_values : stored.parse.value_words ≡ w.value_words

  coordinate_word-letter : Ensures IsOfLetter (coordinate_word letter value w)
  unfolding coordinate_word
  coordinate_word-letter = ground arith

  value_word-letter : (n : ℕ) → Ensures IsOfLetter (value_word float letter value n w)
  unfolding value_word
  value_word-letter n = ground (arith, coordinate_word-letter)

  add_value-Adds :
      (x : Word) (g : ModalGroup) (stored : Stored F)
      → IsOfLetter stored
      → Ensures
          (Adds x g (letter == letter_of x) false w)
          (add_value float value stored.word_bit stored.parse)
  unfolding add_value
  add_value-Adds x g stored k = ground (arith, has_word-add x stored.word_bit w.value_words)

  value_command-Adds :
      (x : Word) (g : ModalGroup) (n : ℕ)
      → Ensures (Adds x g (letter == letter_of x) false w) (value_command float letter value n w)
  unfolding value_command
  value_command-Adds x g n =
      Ensures-bind IsOfLetter (Adds x g (letter == letter_of x) false w)
        (value_word float letter value n w) _ (value_word-letter n) (add_value-Adds x g)

  same_Adds :
      (x : Word) (g : ModalGroup) {b b' c c' : Bool}
      → b ≡ b'
      → c ≡ c'
      → (r : Result (Parse F)) → Ensures (Adds x g b c w) r
      → Ensures (Adds x g b' c' w) r
  same_Adds x g {b} {b'} {c} {c'} e f r h =
      subst (λ t. Ensures (Adds x g b' t w) r) f (subst (λ t. Ensures (Adds x g t c w) r) e h)

  pub take_word-Adds :
      (x : Word) (g : ModalGroup)
      → Ensures
          (Adds x g (letter == letter_of x) (is_of_group float g (letter, value)) w)
          (take_word float letter value w)
  unfolding take_word
  take_word-Adds x g =
      let n = float.trunc_uint8 value in
      let m = mantissa_of float value in
      let is_x = letter == letter_of x in
      elim (Bool-cases (letter == b'G')) [
        | inl a ↦
            let other : false ≡ is_x = ground (arith, letter_of-ne x) in
            rw a (same_Adds x g other refl (g_command n m w) (g_command-Adds g n m w x))
        | inr a ↦ elim (Bool-cases (letter == b'M')) [
          | inl b ↦
              let other : false ≡ is_x = ground (arith, letter_of-ne x) in
              rw (a, b) (same_Adds x g other refl (m_command n m w) (m_command-Adds g n m w x))
          | inr b ↦ rw (a, b) (value_command-Adds x g n)
        ]
      ]
