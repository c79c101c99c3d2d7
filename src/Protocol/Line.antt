-- ===== src/Protocol/Line.antt =====
-- The line reader of `protocol_main_loop`: what it does with each received character, and where it
-- sends a finished line.
pub mod Filter
pub mod Steps
pub mod Outcome
pub mod Examples
use uno_pen_plotter.Prelude.{
  ℕ, ◌+◌, ◌-◌, Bool, true, false, not, ◌&&◌, ◌||◌, List, [], ◌∷◌, ltb, leb, ◌==◌, if◌then◌else◌,
}
use uno_pen_plotter.Ring.{Array, update}
use uno_pen_plotter.System.{State}

abbrev pub line_buffer_size : ℕ
line_buffer_size = 80

-- `line`, `char_counter`, and the bits of `line_flags`.
pub record Reader : Type 0 where
  pub line : Array ℕ
  pub char_counter : ℕ
  pub overflow : Bool
  pub comment_parentheses : Bool
  pub comment_semicolon : Bool

-- The reset of the tracking data; the old characters stay in the buffer.
unfoldable pub next_line : Array ℕ → Reader
next_line line = record {
  line = line;
  char_counter = 0;
  overflow = false;
  comment_parentheses = false;
  comment_semicolon = false;
}

abbrev pub any_flag : Reader → Bool
any_flag r = r.overflow || (r.comment_parentheses || r.comment_semicolon)

abbrev pub is_lower : ℕ → Bool
is_lower c = leb b'a' c && leb c b'z'

abbrev pub is_end_of_line : ℕ → Bool
is_end_of_line c = c == 10 || c == 13

unfoldable pub append_char : ℕ → Reader → Reader
append_char c r = record r {
  line = update r.line r.char_counter c;
  char_counter = r.char_counter + 1;
}

-- One character that is not an end of line.
unfoldable pub read_char : ℕ → Reader → Reader
read_char c r =
    if any_flag r
    then if c == b')' && r.comment_parentheses then record r { comment_parentheses = false } else r
    else if leb c b' '
    then r
    else if c == b'/'
    then r
    else if c == b'('
    then record r { comment_parentheses = true }
    else if c == b';'
    then record r { comment_semicolon = true }
    else if leb (line_buffer_size - 1) r.char_counter
    then record r { overflow = true }
    else if is_lower c
    then append_char (c - b'a' + b'A') r
    else append_char c r

unfoldable pub read_chars : List ℕ → Reader → Reader
read_chars [] r = r
read_chars (c ∷ cs) r = read_chars cs (read_char c r)

-- What an end of line does with the line.
pub data Dispatch : Type 0 where
  status_overflow status_ok system_line gc_lock gcode_line : Dispatch

-- sys.state & (STATE_ALARM | STATE_JOG)
abbrev pub is_alarm_jog : State → Bool
is_alarm_jog State.alarm = true
is_alarm_jog State.jog = true
is_alarm_jog _ = false

-- The terminating zero that is written first.
unfoldable pub terminate : Reader → Reader
terminate r = record r { line = update r.line r.char_counter 0 }

unfoldable pub dispatch_line : State → Reader → Dispatch
unfolding terminate
dispatch_line state r =
    let line = (terminate r).line in
    if r.overflow
    then status_overflow
    else if line 0 == 0
    then status_ok
    else if line 0 == b'$'
    then system_line
    else if is_alarm_jog state
    then gc_lock
    else gcode_line
