-- ===== src/Serial/Ends.antt =====
-- The wait for space in the transmit ring ends.
use uno_pen_plotter.Prelude.{ℕ, ◌≡◌, ◌≢◌, refl, true, false, not, ◌&&◌, none, List, [], ◌∷◌, arith}
use uno_pen_plotter.Protocol.Realtime.{reset_command, set_state, set_motion, set_accessory, raise}
use uno_pen_plotter.Protocol.Critical.{reset_pending}
use uno_pen_plotter.Serial.{
  Port, serial_udre, Event, data_register_empty, other, event, serial_write,
}
use uno_pen_plotter.Serial.Streams.{IsValid}
use uno_pen_plotter.Serial.Writes.{is_full, event_other}

-- The events let a write go on: the data register becomes empty, or a reset comes.
abbrev pub Wakes : List Event → Type 0
Wakes [] = ⊥
Wakes (data_register_empty ∷ es) = Unit
Wakes (other reset_command ∷ es) = Unit
Wakes (other i ∷ es) = Wakes es

write_ends_if :
    (es : List Event) (c : ℕ) (p : Port)
    → is_full p && not p.machine.rt_exec_state.reset ≡ false
    → serial_write es c p ≢ none
unfolding serial_write
write_ends_if [] c p h = ground arith
write_ends_if (e ∷ es) c p h = ground arith

udre_makes_space :
    (p : Port) → IsValid p → is_full p ≡ true → is_full (event data_register_empty p) ≡ false
unfolding event serial_udre
udre_makes_space p v full = ground arith

reset_event : (p : Port) → (event (other reset_command) p).machine.rt_exec_state.reset ≡ true
unfolding event
reset_event p = reset_pending p.machine

ends_step :
    (e : Event) (es : List Event) (c : ℕ) (p : Port)
    → (is_full p ≡ true → serial_write es c (event e p) ≢ none)
    → serial_write (e ∷ es) c p ≢ none
unfolding serial_write
ends_step e es c p h = ground arith

-- On a valid port, a write returns if the data register becomes empty or a reset comes among the
-- events, however full the ring is.
pub serial_write_ends :
    (es : List Event) (c : ℕ) (p : Port) → IsValid p → Wakes es → serial_write es c p ≢ none
serial_write_ends [] c p v w = absurd w
serial_write_ends (data_register_empty ∷ es) c p v w =
    ends_step data_register_empty es c p (λ full.
      write_ends_if es c (event data_register_empty p) (rw (udre_makes_space p v full) refl))
serial_write_ends (other reset_command ∷ es) c p v w =
    ends_step (other reset_command) es c p
      (λ full. write_ends_if es c (event (other reset_command) p) (ground (arith, reset_event p)))
serial_write_ends (other (set_state m) ∷ es) c p v w =
    ends_step (other (set_state m)) es c p (λ full.
      serial_write_ends es c (event (other (set_state m)) p) (event_other (set_state m) p v) w)
serial_write_ends (other (set_motion m) ∷ es) c p v w =
    ends_step (other (set_motion m)) es c p (λ full.
      serial_write_ends es c (event (other (set_motion m)) p) (event_other (set_motion m) p v) w)
serial_write_ends (other (set_accessory m) ∷ es) c p v w =
    ends_step (other (set_accessory m)) es c p (λ full.
      serial_write_ends es c (event (other (set_accessory m)) p) (event_other (set_accessory m) p v)
        w)
serial_write_ends (other (raise n) ∷ es) c p v w =
    ends_step (other (raise n)) es c p
      (λ full. serial_write_ends es c (event (other (raise n)) p) (event_other (raise n) p v) w)
