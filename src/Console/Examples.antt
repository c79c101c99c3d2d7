-- ===== src/Console/Examples.antt =====
-- The commands' theorems at concrete lines.
use uno_pen_plotter.Prelude.{ℕ, ◌≡◌, ◌⊎◌, refl, Bool, true, false, List, [], ◌∷◌, get_or, ltb}
use uno_pen_plotter.Prelude.Int.{ℤ, pos, negsuc}
use uno_pen_plotter.System.{Machine, State}
use uno_pen_plotter.System.Samples.{resting, cycling}
use uno_pen_plotter.Eeprom.Examples.{cells}
use uno_pen_plotter.Settings.Examples.{sample, layout, stored}
use uno_pen_plotter.Settings.Examples as SettingsExamples
use uno_pen_plotter.Text.Examples as TextExamples
use uno_pen_plotter.Console.{World, Parts}
use uno_pen_plotter.Console.Execute.{system_execute_line}
use uno_pen_plotter.Console.Guards.{is_open, busy-store}

abbrev exceeds_255 : ℤ → Bool
exceeds_255 (pos n) = ltb 255 n
exceeds_255 (negsuc n) = false

abbrev parts : Parts ℤ
parts = record {
  gc_execute_line = λ w. (0, w);
  mc_homing_cycle = λ w. w;
  protocol_buffer_synchronize = λ w. w.machine;
  program = cells;
  layout = layout;
  defaults = sample;
  setting_float = SettingsExamples.integers;
  text_float = TextExamples.integers;
  exceeds_255 = exceeds_255;
  to_uint8 = SettingsExamples.trunc;
}

-- $1=2
abbrev setting_line : List ℕ
setting_line = b'$' ∷ b'1' ∷ b'=' ∷ b'2' ∷ []

abbrev world : Machine → World ℤ
world m = record { machine = m; store = stored; line = λ i. get_or setting_line i 0; reports = [] }

busy-store_example :
    ((system_execute_line parts (world cycling)).1.store ≡ stored)
    × ((is_open b'1' ≡ true) ⊎ (system_execute_line parts (world cycling) ≡ (8, world cycling)))
busy-store_example = busy-store parts (world cycling) refl

abbrev locked : Machine
locked = record resting { state = State.alarm }
