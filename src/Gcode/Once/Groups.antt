-- ===== src/Gcode/Once/Groups.antt =====
-- The modal group of a command word, and its bit.
use uno_pen_plotter.Prelude.{
  ℕ, ◌≡◌, inl, inr, Bool, true, false, ◌&&◌, ◌||◌, ltb, leb, ◌==◌, arith, Bool-cases,
}
use uno_pen_plotter.Gcode.Outcome.{Ensures, Ensures-bind}
use uno_pen_plotter.Gcode.Words.{ModalGroup, Word, Parse}
use uno_pen_plotter.Gcode.Commands.{
  Taken, is_non_modal, is_motion, non_modal_word, motion_word, distance_word, tool_length_word,
  mode_word, g_word, add_command, g_command, m_word, m_command,
}
use uno_pen_plotter.Gcode.Once.{is_in_g_group, is_in_m_group, Adds, index, has_group-add}

module _ {F : Type 0} (g : ModalGroup) (n m : ℕ) (w : Parse F) where
  record IsOfGroup (is_g : Bool) (t : Taken F) : Type 0 where
    group : is_g ≡ (index g == index t.word_bit)
    same_commands : t.parse.command_words ≡ w.command_words
    same_values : t.parse.value_words ≡ w.value_words

  non_modal_word-group :
      is_non_modal n ≡ true → Ensures (IsOfGroup (is_in_g_group g n m)) (non_modal_word n m w)
  unfolding non_modal_word
  non_modal_word-group e = ground arith

  motion_word-group :
      is_motion n ≡ true → Ensures (IsOfGroup (is_in_g_group g n m)) (motion_word n m w)
  unfolding motion_word
  motion_word-group e = ground arith

  distance_word-group :
      (leb 90 n && leb n 91) ≡ true
      → Ensures (IsOfGroup (is_in_g_group g n m)) (distance_word n m w)
  unfolding distance_word
  distance_word-group e = ground arith

  tool_length_word-group :
      (n == 43 || n == 49) ≡ true
      → Ensures (IsOfGroup (is_in_g_group g n m)) (tool_length_word n m w)
  unfolding tool_length_word
  tool_length_word-group e = ground arith

  mode_word-group :
      is_non_modal n ≡ false
      → is_motion n ≡ false
      → (leb 90 n && leb n 91) ≡ false
      → (n == 43 || n == 49) ≡ false
      → Ensures (IsOfGroup (is_in_g_group g n m)) (mode_word n m w)
  unfolding mode_word
  mode_word-group a b c d = ground arith

  m_word-group : Ensures (IsOfGroup (is_in_m_group g n)) (m_word n w)
  unfolding m_word
  m_word-group = ground arith

  g_word-group : Ensures (IsOfGroup (is_in_g_group g n m)) (g_word n m w)
  unfolding g_word
  g_word-group = elim (Bool-cases (is_non_modal n)) [
    | inl a ↦ rw (a, Ensures) (non_modal_word-group a)
    | inr a ↦
        rw (a, Ensures)
          (elim (Bool-cases (is_motion n)) [
            | inl b ↦ rw (b, Ensures) (motion_word-group b)
            | inr b ↦
                rw (b, Ensures)
                  (elim (Bool-cases (leb 90 n && leb n 91)) [
                    | inl c ↦ rw (c, Ensures) (distance_word-group c)
                    | inr c ↦
                        rw (c, Ensures)
                          (elim (Bool-cases (n == 43 || n == 49)) [
                            | inl d ↦ rw (d, Ensures) (tool_length_word-group d)
                            | inr d ↦ rw (d, Ensures) (mode_word-group a b c d)
                          ])
                  ])
          ])
  ]

  add_command-Adds :
      (x : Word) (is_g : Bool) (t : Taken F)
      → IsOfGroup is_g t
      → Ensures (Adds x g false is_g w) (add_command t.word_bit t.parse)
  unfolding add_command
  add_command-Adds x is_g t k = ground (arith, has_group-add g t.word_bit w.command_words)

  pub g_command-Adds :
      (x : Word) → Ensures (Adds x g false (is_in_g_group g n m) w) (g_command n m w)
  unfolding g_command
  g_command-Adds x =
      Ensures-bind (IsOfGroup (is_in_g_group g n m)) (Adds x g false (is_in_g_group g n m) w)
        (g_word n m w) _ g_word-group
        λ t k. ground (arith, add_command-Adds x (is_in_g_group g n m) t k)

  pub m_command-Adds : (x : Word) → Ensures (Adds x g false (is_in_m_group g n) w) (m_command n m w)
  unfolding m_command
  m_command-Adds x = elim (Bool-cases (ltb 0 m)) [
    | inl bad ↦ rw (bad, Ensures) tt
    | inr good ↦
        rw (good, Ensures)
          (Ensures-bind (IsOfGroup (is_in_m_group g n)) (Adds x g false (is_in_m_group g n) w)
            (m_word n w) _ m_word-group (add_command-Adds x (is_in_m_group g n)))
  ]
