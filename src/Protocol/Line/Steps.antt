-- ===== src/Protocol/Line/Steps.antt =====
-- One step of the line reader, against a description of the characters that it keeps.
use uno_pen_plotter.Prelude.{
  ℕ, zero, suc, ◌+◌, ◌-◌, ◌≤◌, ◌<◌, ◌≡◌, refl, Bool, true, false, not, ◌&&◌, ◌||◌, List, [], ◌∷◌,
  ◌++◌, arith, leb, ◌==◌, if◌then◌else◌, length, length-append, take, ap,
}
use uno_pen_plotter.Ring.{Array, update}
use uno_pen_plotter.Protocol.Line.{
  Reader, line_buffer_size, next_line, is_lower, append_char, read_char, read_chars,
}

-- Where the text stands.
pub data Mode : Type 0 where
  text parentheses semicolon : Mode

abbrev pub upper : ℕ → ℕ
upper c = if is_lower c then c - b'a' + b'A' else c

-- The characters that are kept of a text.
abbrev pub kept : Mode → List ℕ → List ℕ
kept m [] = []
kept parentheses (c ∷ cs) = kept (if c == b')' then text else parentheses) cs
kept semicolon (c ∷ cs) = kept semicolon cs
kept text (c ∷ cs) =
    if leb c b' ' || c == b'/'
    then kept text cs
    else if c == b'('
    then kept parentheses cs
    else if c == b';'
    then kept semicolon cs
    else upper c ∷ kept text cs

-- The mode as the flags record it, unless the line has overflowed.
abbrev pub mode : Reader → Mode
mode r =
    if r.comment_parentheses then parentheses else if r.comment_semicolon then semicolon else text

-- The characters in the buffer up to the counter.
unfoldable pub prefix : Array ℕ → ℕ → List ℕ
prefix line zero = []
prefix line (suc n) = prefix line n ++ (line n ∷ [])

-- The counter stays below the buffer's size, so the terminating zero fits; at most one comment flag
-- is set, and none together with overflow.
pub record IsValid (r : Reader) : Type 0 where
  pub fits : r.char_counter < line_buffer_size
  pub one_comment : r.comment_parentheses && r.comment_semicolon ≡ false
  pub no_comment : r.overflow && (r.comment_parentheses || r.comment_semicolon) ≡ false
  pub full : r.overflow ≡ true → r.char_counter + 1 ≡ line_buffer_size

pub next_line-IsValid : (line : Array ℕ) → IsValid (next_line line)
unfolding next_line
next_line-IsValid line = ground arith

pub read_char-IsValid : (c : ℕ) (r : Reader) → IsValid r → IsValid (read_char c r)
unfolding read_char append_char
read_char-IsValid c r v = ground arith

pub prefix-update :
    (line : Array ℕ) (i v n : ℕ) → n ≤ i → prefix (update line i v) n ≡ prefix line n
unfolding prefix
prefix-update line i v zero h = refl
prefix-update line i v (suc n) h = ground (arith, prefix-update line i v n)

pub length-prefix : (line : Array ℕ) (n : ℕ) → length (prefix line n) ≡ n
unfolding prefix
length-prefix line zero = refl
length-prefix line (suc n) =
    omega (arith, length-append (prefix line n) (line n ∷ []), length-prefix line n)

pub take-append_length : (xs ys : List ℕ) (n : ℕ) → n ≡ length xs → take n (xs ++ ys) ≡ xs
take-append_length [] ys zero h = refl
take-append_length [] ys (suc n) h = absurd (omega arith)
take-append_length (x ∷ xs) ys zero h = absurd (omega arith)
take-append_length (x ∷ xs) ys (suc n) h =
    ap (λ l. x ∷ l) (take-append_length xs ys n (omega arith))

pub take_all : (xs : List ℕ) (n : ℕ) → length xs ≤ n → take n xs ≡ xs
take_all [] zero h = refl
take_all [] (suc n) h = refl
take_all (x ∷ xs) zero h = absurd (omega arith)
take_all (x ∷ xs) (suc n) h = ap (λ l. x ∷ l) (take_all xs n (omega arith))

abbrev pub is_kept : Mode → ℕ → Bool
is_kept text c = not (leb c b' ' || (c == b'/' || (c == b'(' || c == b';')))
is_kept _ c = false

pub dropped :
    (c : ℕ) (cs : List ℕ) (r : Reader)
    → IsValid r
    → r.overflow ≡ false
    → is_kept (mode r) c ≡ false
    → ((read_char c r).line ≡ r.line)
      × ((read_char c r).char_counter ≡ r.char_counter)
      × ((read_char c r).overflow ≡ false)
      × (kept (mode r) (c ∷ cs) ≡ kept (mode (read_char c r)) cs)
unfolding read_char append_char
dropped c cs r v o k = ground arith

pub appended :
    (c : ℕ) (cs : List ℕ) (r : Reader)
    → r.overflow ≡ false
    → is_kept (mode r) c ≡ true
    → r.char_counter + 1 < line_buffer_size
    → (read_char c r ≡ append_char (upper c) r)
      × (kept (mode r) (c ∷ cs) ≡ upper c ∷ kept (mode (read_char c r)) cs)
unfolding read_char append_char
appended c cs r o k h = ground arith

pub overflowed :
    (c : ℕ) (cs : List ℕ) (r : Reader)
    → r.overflow ≡ false
    → is_kept (mode r) c ≡ true
    → r.char_counter + 1 ≡ line_buffer_size
    → (read_char c r ≡ record r { overflow = true })
      × (kept (mode r) (c ∷ cs) ≡ upper c ∷ kept text cs)
unfolding read_char append_char
overflowed c cs r o k h = ground arith

pub stays_full :
    (cs : List ℕ) (r : Reader)
    → r.overflow ≡ true
    → r.comment_parentheses ≡ false
    → read_chars cs r ≡ r
unfolding read_chars read_char
stays_full [] r o p = refl
stays_full (c ∷ cs) r o p = ground (arith, stays_full cs r o p)

pub read_chars-IsValid : (cs : List ℕ) (r : Reader) → IsValid r → IsValid (read_chars cs r)
unfolding read_chars
read_chars-IsValid [] r v = v
read_chars-IsValid (c ∷ cs) r v = read_chars-IsValid cs (read_char c r) (read_char-IsValid c r v)
