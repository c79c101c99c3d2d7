-- ===== src/Protocol/Line/Filter.antt =====
-- A line of characters, against a description of what is kept of it.
use uno_pen_plotter.Prelude.{
  ℕ, ◌+◌, ◌-◌, ◌<◌, ◌≡◌, refl, true, false, List, [], ◌∷◌, ◌++◌, arith, ltb, length, take, ap, sym,
  ◌∙◌, Bool-cases, inl, inr,
}
use native.Mathlib.Numerals.{add-one}
use native.Mathlib.Decide.{dec_lt}
use mathlib.Core.Path.{ap₂}
use mathlib.Core.List.{append-nil, append_assoc}
use uno_pen_plotter.Ring.{Array}
use uno_pen_plotter.Protocol.Line.{
  Reader, line_buffer_size, next_line, append_char, read_char, read_chars,
}
use uno_pen_plotter.Protocol.Line.Steps.{
  text, upper, kept, mode, prefix, IsValid, is_kept, next_line-IsValid, read_char-IsValid,
  prefix-update, length-prefix, take-append_length, take_all, dropped, appended, overflowed,
  stays_full, read_chars-IsValid,
}

-- The reader holds what fits of the text `p`, `n` characters, followed by `k`.
record Holds (p : List ℕ) (n : ℕ) (k : List ℕ) (r : Reader) : Type 0 where
  text_kept : prefix r.line r.char_counter ≡ take (line_buffer_size - 1) (p ++ k)
  overflow_iff : r.overflow ≡ ltb (line_buffer_size - 1) (n + length k)

Holds-eq :
    {p p' k k' : List ℕ} {n n' : ℕ} (r : Reader)
    → p ≡ p'
    → n ≡ n'
    → k ≡ k'
    → Holds p n k r
    → Holds p' n' k' r
Holds-eq r e f g h = record {
  text_kept = rw (← e, ← g) h.text_kept;
  overflow_iff = rw (← f, ← g) h.overflow_iff;
}

Holds-cons :
    {p k : List ℕ} {n : ℕ} (c : ℕ) (r : Reader)
    → Holds (p ++ (c ∷ [])) (n + 1) k r
    → Holds p n (c ∷ k) r
Holds-cons {p} {k} c r h = record {
  text_kept = rw (← append_assoc p (c ∷ []) k) h.text_kept;
  overflow_iff = ground (arith, h.overflow_iff);
}

abbrev Reads : Reader → List ℕ → Reader → Type 0
Reads r cs r' = Holds (prefix r.line r.char_counter) r.char_counter (kept (mode r) cs) r'

prefix-append_char :
    (c : ℕ) (r : Reader)
    → prefix (append_char c r).line (append_char c r).char_counter
      ≡ prefix r.line r.char_counter ++ (c ∷ [])
unfolding append_char prefix
prefix-append_char c r =
    rw add-one (ground (arith, prefix-update r.line r.char_counter c r.char_counter))

counter-append_char : (c : ℕ) (r : Reader) → (append_char c r).char_counter ≡ r.char_counter + 1
unfolding append_char
counter-append_char c r = refl

overflow_lem :
    (p k : List ℕ) (c : ℕ) (r r' : Reader)
    → prefix r'.line r'.char_counter ≡ p
    → length p ≡ line_buffer_size - 1
    → r'.overflow ≡ true
    → Holds p (line_buffer_size - 1) (c ∷ k) r'
overflow_lem p k c r r' e n o = record {
  text_kept = rw e (sym (take-append_length p (c ∷ k) 79 (omega arith)));
  overflow_iff = ground arith;
}

kept_step :
    (c : ℕ) (cs : List ℕ) (r r' : Reader)
    → read_char c r ≡ append_char (upper c) r
    → kept (mode r) (c ∷ cs) ≡ upper c ∷ kept (mode (read_char c r)) cs
    → Reads (read_char c r) cs r'
    → Reads r (c ∷ cs) r'
kept_step c cs r r' append same h = Holds-eq r' refl refl (sym same) (
    Holds-cons (upper c) r' (
      Holds-eq r'
        (ap (λ (q : Reader). prefix q.line q.char_counter) append ∙ prefix-append_char (upper c) r)
        (ap (λ (q : Reader). q.char_counter) append ∙ counter-append_char (upper c) r) refl h))

text_of_kept : (c : ℕ) (r : Reader) → is_kept (mode r) c ≡ true → r.comment_parentheses ≡ false
text_of_kept c r h = ground arith

overflow_step :
    (c : ℕ) (cs : List ℕ) (r : Reader)
    → IsValid r
    → r.overflow ≡ false
    → is_kept (mode r) c ≡ true
    → r.char_counter + 1 ≡ line_buffer_size
    → Reads r (c ∷ cs) (read_chars cs (read_char c r))
overflow_step c cs r v o keep full =
    let (over, same) = overflowed c cs r o keep full in
    let stays : read_chars cs (read_char c r) ≡ record r { overflow = true } =
      ap (read_chars cs) over
      ∙ stays_full cs (record r { overflow = true }) refl (text_of_kept c r keep) in
    Holds-eq (read_chars cs (read_char c r)) refl (omega arith) (sym same) (
      overflow_lem (prefix r.line r.char_counter) (kept text cs) (upper c) r
        (read_chars cs (read_char c r)) (ap (λ (q : Reader). prefix q.line q.char_counter) stays)
        (length-prefix r.line r.char_counter ∙ omega arith) (ap (λ (q : Reader). q.overflow) stays))

overflow-append_char : (c : ℕ) (r : Reader) → (append_char c r).overflow ≡ r.overflow
unfolding append_char
overflow-append_char c r = refl

read_chars-Reads :
    (cs : List ℕ) (r : Reader) → IsValid r → r.overflow ≡ false → Reads r cs (read_chars cs r)
unfolding read_chars
read_chars-Reads [] r v o = record {
  text_kept =
      rw append-nil
        (sym (take_all (prefix r.line r.char_counter) 79 (rw length-prefix (omega arith))));
  overflow_iff = ground arith;
}
read_chars-Reads (c ∷ cs) r v o = elim (Bool-cases (is_kept (mode r) c)) [
  | inl keep ↦ elim (dec_lt (r.char_counter + 1) line_buffer_size) [
    | yes fits ↦
        let (append, same) = appended c cs r o keep fits in
        kept_step c cs r (read_chars cs (read_char c r)) append same (
          read_chars-Reads cs (read_char c r) (read_char-IsValid c r v)
            (ap (λ (q : Reader). q.overflow) append ∙ overflow-append_char (upper c) r ∙ o))
    | no full ↦ overflow_step c cs r v o keep (omega arith)
  ]
  | inr drop ↦
      let (line, counter, overflow, same) = dropped c cs r v o drop in
      Holds-eq (read_chars cs (read_char c r)) (ap₂ prefix line counter) counter (sym same)
        (read_chars-Reads cs (read_char c r) (read_char-IsValid c r v) overflow)
]

-- For any old contents of the buffer and any characters with no end of line, the reader that starts
-- a line at them holds, up to its counter, the first 79 of the characters that the description keeps
-- (text outside comments, no spaces, control characters or slashes, in upper case); it marks an
-- overflow exactly when more than 79 are kept; and its counter stays inside the buffer.
pub read_line :
    (line : Array ℕ) (cs : List ℕ)
    → let r = read_chars cs (next_line line) in
      (prefix r.line r.char_counter ≡ take 79 (kept text cs))
      × (r.overflow ≡ ltb 79 (length (kept text cs)))
      × (r.char_counter < line_buffer_size)
unfolding next_line prefix
read_line line cs =
    let h = read_chars-Reads cs (next_line line) (next_line-IsValid line) refl in
    (
      h.text_kept,
      ground (arith, h.overflow_iff),
      (read_chars-IsValid cs (next_line line) (next_line-IsValid line)).fits,
    )
