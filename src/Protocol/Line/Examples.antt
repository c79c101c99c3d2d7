-- ===== src/Protocol/Line/Examples.antt =====
-- The line reader at one line.
use uno_pen_plotter.Prelude.{ℕ, ◌≡◌, ◌<◌, false, List, [], ◌∷◌}
use uno_pen_plotter.Protocol.Line.{next_line, read_chars, dispatch_line, gc_lock}
use uno_pen_plotter.Protocol.Line.Steps.{prefix}
use uno_pen_plotter.System.{State}
use uno_pen_plotter.Protocol.Line.Outcome.{line_outcome}
use uno_pen_plotter.Protocol.Line.Filter.{read_line}

-- g1 x (up) /y;e
abbrev typed : List ℕ
typed =
    b'g' ∷ b'1' ∷ 32 ∷ b'x' ∷ 32 ∷ b'(' ∷ b'u' ∷ b'p' ∷ b')' ∷ 32 ∷ b'/' ∷ b'y' ∷ b';' ∷ b'e' ∷ []

abbrev cleaned : List ℕ
cleaned = b'G' ∷ b'1' ∷ b'X' ∷ b'Y' ∷ []

read_line_example :
    (prefix
        (read_chars typed (next_line (λ i. 7))).line
        (read_chars typed (next_line (λ i. 7))).char_counter
      ≡ cleaned)
    × ((read_chars typed (next_line (λ i. 7))).overflow ≡ false)
    × ((read_chars typed (next_line (λ i. 7))).char_counter < 80)
read_line_example = read_line (λ i. 7) typed

line_outcome_example : dispatch_line State.jog (read_chars typed (next_line (λ i. 7))) ≡ gc_lock
line_outcome_example = line_outcome State.jog (λ i. 7) typed
