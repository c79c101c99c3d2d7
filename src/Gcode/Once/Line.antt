-- ===== src/Gcode/Once/Line.antt =====
-- All the words of a line.
use uno_pen_plotter.Prelude.{
  ℕ, zero, suc, ◌+◌, ◌-◌, ◌≡◌, sym, inl, inr, Bool, true, some, List, [], ◌∷◌, drop, ◌==◌,
  if◌then◌else◌, arith, length, Bool-cases, Option-cases,
}
use mathlib.Core.Path.{subst}
use uno_pen_plotter.Text.Scan.{read_float}
use uno_pen_plotter.Gcode.{Float, World}
use uno_pen_plotter.Gcode.Outcome.{Result, done, fail, ◌>>=◌, Ensures, Ensures-bind}
use uno_pen_plotter.Gcode.Words.{ModalGroup, has_group, Word, has_word, Parse}
use uno_pen_plotter.Gcode.Reading.{
  take_word, read_words, is_upper, is_jog, start_line, read_line_words,
}
use uno_pen_plotter.Gcode.Once.{
  words_of, letter_of, is_of_group, group_count, letter_count, to_number, Adds,
}
use uno_pen_plotter.Gcode.Once.Letters.{take_word-Adds}

-- What all the words of a line do.
record AddsAll {F : Type 0} (x : Word) (g : ModalGroup) (k l : ℕ) (w w' : Parse F) : Type 0 where
  words : to_number (has_word x w'.value_words) ≡ k + to_number (has_word x w.value_words)
  groups : to_number (has_group g w'.command_words) ≡ l + to_number (has_group g w.command_words)

module _ {F : Type 0} (float : Float F) (x : Word) (g : ModalGroup) where
  -- One word and then the others.
  then_all :
      (c : ℕ) (value : F) (words : List (ℕ × F)) (w w' : Parse F)
      → Adds x g (c == letter_of x) (is_of_group float g (c, value)) w w'
      → (r : Result (Parse F))
      → Ensures (AddsAll x g (letter_count float x words) (group_count float g words) w') r
      → let all = (c, value) ∷ words in
        Ensures (AddsAll x g (letter_count float x all) (group_count float g all) w) r
  then_all c value words w w' k (done w'') h = ground arith
  then_all c value words w w' k (fail status) h = tt

  words_of-cons :
      (c : ℕ) (line : List ℕ) (v : F × List ℕ)
      → is_upper c ≡ true
      → read_float float.text line ≡ some v
      → words_of float (c ∷ line) 0 ≡ (c, v.0) ∷ words_of float line (length line - length v.1)
  unfolding words_of
  words_of-cons c line v a b = rw (a, words_of) (rw b)

  read_words-AddsAll :
      (line : List ℕ) (skip : ℕ) (w : Parse F)
      → let words = words_of float line skip in
        Ensures
          (AddsAll x g (letter_count float x words) (group_count float g words) w)
          (read_words float line skip w)
  unfolding read_words words_of
  read_words-AddsAll [] skip w = ground arith
  read_words-AddsAll (c ∷ line) (suc skip) w = read_words-AddsAll line skip w
  read_words-AddsAll (c ∷ line) zero w = elim (Bool-cases (is_upper c)) [
    | inr bad ↦ rw (bad, Ensures) tt
    | inl good ↦
        rw (good, Ensures)
          (elim (Option-cases (read_float float.text line)) [
            | inl unread ↦ rw (unread, Ensures) tt
            | inr (v, read) ↦
                let skip = length line - length v.1 in
                let words = words_of float line skip in
                let all = (c, v.0) ∷ words in
                rw read (
                  subst
                    (λ ws.
                      Ensures (AddsAll x g (letter_count float x ws) (group_count float g ws) w)
                        (take_word float c v.0 w >>= λ w'. read_words float line skip w'))
                    (sym (words_of-cons c line v good read))
                    (Ensures-bind (Adds x g (c == letter_of x) (is_of_group float g (c, v.0)) w)
                      (AddsAll x g (letter_count float x all) (group_count float g all) w)
                      (take_word float c v.0 w) _ (take_word-Adds float c v.0 w x g)
                      λ w' k.
                        then_all c v.0 words w w' k (read_words float line skip w')
                          (read_words-AddsAll line skip w')))
          ])
  ]

-- The words of a line start after `$J=`, or at the start.
abbrev pub body : List ℕ → List ℕ
body line = if is_jog line then drop 3 line else line

module _ {F : Type 0} (float : Float F) (w : World F) (x : Word) (g : ModalGroup) where
  start_line-AddsAll :
      (jog : Bool) (k l : ℕ) (r : Result (Parse F))
      → Ensures (AddsAll x g k l (start_line float jog w)) r
      → Ensures
          (λ c.
            (to_number (has_word x c.value_words) ≡ k)
            × (to_number (has_group g c.command_words) ≡ l))
          r
  unfolding start_line
  start_line-AddsAll jog k l (done c) h = ground arith
  start_line-AddsAll jog k l (fail status) h = tt

  -- When a line is read without error, each value word's bit says how often its letter stands among the
  -- words of the line, 0 or 1 times, and each modal group's bit says how many of the commands on the
  -- line belong to the group by the table of the standard.
  pub read_line_words_once :
      (line : List ℕ) (c : Parse F)
      → read_line_words float line w ≡ done c
      → let words = words_of float (body line) 0 in
        (letter_count float x words ≡ (if has_word x c.value_words then 1 else 0))
        × (group_count float g words ≡ (if has_group g c.command_words then 1 else 0))
  unfolding read_line_words
  read_line_words_once line c e =
      let start = start_line float (is_jog line) w in
      let counted =
        start_line-AddsAll (is_jog line) _ _ (read_words float (body line) 0 start)
          (read_words-AddsAll float x g (body line) 0 start) in
      let ends =
        subst
          (λ r.
            Ensures
              (λ c.
                (to_number (has_word x c.value_words)
                  ≡ letter_count float x (words_of float (body line) 0))
                × (to_number (has_group g c.command_words)
                    ≡ group_count float g (words_of float (body line) 0)))
              r)
          e counted in
      (sym ends.0, sym ends.1)
