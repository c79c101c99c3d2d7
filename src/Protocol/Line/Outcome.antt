-- ===== src/Protocol/Line/Outcome.antt =====
-- From the characters of a line to what is done with it.
use uno_pen_plotter.Prelude.{
  ℕ, zero, suc, ◌≤◌, ◌<◌, ◌≡◌, refl, sym, ap, ◌∙◌, true, false, List, [], ◌∷◌, ◌++◌, arith, ltb,
  ◌==◌, if◌then◌else◌, length, Bool-cases, inl, inr,
}
use uno_pen_plotter.Ring.{Array}
use uno_pen_plotter.System.{State}
use uno_pen_plotter.Protocol.Line.{
  Reader, next_line, read_chars, Dispatch, status_overflow, status_ok, system_line, gc_lock,
  gcode_line, is_alarm_jog, terminate, dispatch_line,
}
use uno_pen_plotter.Protocol.Line.Steps.{
  Mode, text, parentheses, semicolon, kept, prefix, length-prefix, take_all,
}
use uno_pen_plotter.Protocol.Line.Filter.{read_line}

-- What is to be done with the text of a line.
abbrev pub outcome_of_text : State → List ℕ → Dispatch
outcome_of_text state [] = status_ok
outcome_of_text state (c ∷ cs) =
    if c == b'$' then system_line else if is_alarm_jog state then gc_lock else gcode_line

abbrev pub outcome : State → List ℕ → Dispatch
outcome state cs = if ltb 79 (length cs) then status_overflow else outcome_of_text state cs

abbrev first : List ℕ → ℕ
first [] = 0
first (c ∷ cs) = c

first-append : (xs ys : List ℕ) → 0 < length xs → first (xs ++ ys) ≡ first xs
first-append [] ys h = absurd (omega arith)
first-append (x ∷ xs) ys h = refl

first-prefix : (line : Array ℕ) (n : ℕ) → first (prefix line (suc n)) ≡ line 0
unfolding prefix
first-prefix line zero = refl
first-prefix line (suc n) =
    first-append (prefix line (suc n)) (line (suc n) ∷ [])
      (omega (arith, length-prefix line (suc n)))
    ∙ first-prefix line n

abbrev AllPrinting : List ℕ → Type 0
AllPrinting [] = Unit
AllPrinting (c ∷ cs) = (0 < c) × AllPrinting cs

-- The characters that are kept are no control characters, so none is the terminating zero.
kept-AllPrinting : (m : Mode) (cs : List ℕ) → AllPrinting (kept m cs)
kept-AllPrinting text [] = tt
kept-AllPrinting parentheses [] = tt
kept-AllPrinting semicolon [] = tt
kept-AllPrinting parentheses (c ∷ cs) =
    kept-AllPrinting (if c == b')' then text else parentheses) cs
kept-AllPrinting semicolon (c ∷ cs) = kept-AllPrinting semicolon cs
kept-AllPrinting text (c ∷ cs) = ground (
  arith,
  kept-AllPrinting text cs,
  kept-AllPrinting parentheses cs,
  kept-AllPrinting semicolon cs,
)

first_char : (line : Array ℕ) (n c : ℕ) (cs : List ℕ) → prefix line n ≡ c ∷ cs → 0 < n → line 0 ≡ c
first_char line zero c cs e h = absurd (omega arith)
first_char line (suc n) c cs e h = sym (first-prefix line n) ∙ ap first e

dispatch_empty :
    (state : State) (r : Reader)
    → r.overflow ≡ false
    → r.char_counter ≡ 0
    → dispatch_line state r ≡ status_ok
unfolding dispatch_line terminate
dispatch_empty state r o e = ground arith

dispatch_first :
    (state : State) (r : Reader) (c : ℕ) (cs : List ℕ)
    → r.overflow ≡ false
    → 0 < r.char_counter
    → r.line 0 ≡ c
    → 0 < c
    → dispatch_line state r ≡ outcome_of_text state (c ∷ cs)
unfolding dispatch_line terminate
dispatch_first state r c cs o n e p = ground arith

dispatch_overflow :
    (state : State) (r : Reader) → r.overflow ≡ true → dispatch_line state r ≡ status_overflow
unfolding dispatch_line terminate
dispatch_overflow state r o = ground arith

-- The outcome, from the text that the reader holds.
dispatch_text :
    (state : State) (r : Reader) (k : List ℕ)
    → r.overflow ≡ false
    → prefix r.line r.char_counter ≡ k
    → AllPrinting k
    → dispatch_line state r ≡ outcome_of_text state k
dispatch_text state r [] o e a =
    dispatch_empty state r o (sym (length-prefix r.line r.char_counter) ∙ ap length e)
dispatch_text state r (c ∷ cs) o e a =
    let counter : r.char_counter ≡ length (c ∷ cs) =
      sym (length-prefix r.line r.char_counter) ∙ ap length e in
    dispatch_first state r c cs o (omega arith)
      (first_char r.line r.char_counter c cs e (omega arith)) a.0

not_long : (n : ℕ) → ltb 79 n ≡ false → n ≤ 79
not_long n h = ground arith

-- For any old contents of the buffer, any characters of a line and any state, the end of the line
-- leads to the outcome that the kept text calls for: an overflow message if more than 79 characters
-- are kept, only an answer if none is, a system command if the first is `$`, and otherwise g-code,
-- which is refused in ALARM and JOG.
pub line_outcome :
    (state : State) (line : Array ℕ) (cs : List ℕ)
    → dispatch_line state (read_chars cs (next_line line)) ≡ outcome state (kept text cs)
line_outcome state line cs =
    let (same, over, fits) = read_line line cs in
    elim (Bool-cases (ltb 79 (length (kept text cs)))) [
      | inl long ↦ rw long (dispatch_overflow state (read_chars cs (next_line line)) (over ∙ long))
      | inr short ↦ rw short (
          dispatch_text state (read_chars cs (next_line line)) (kept text cs) (over ∙ short)
            (same ∙ take_all (kept text cs) 79 (not_long (length (kept text cs)) short))
            (kept-AllPrinting text cs))
    ]
