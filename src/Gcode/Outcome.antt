-- ===== src/Gcode/Outcome.antt =====
-- `FAIL(status)`: the parser's functions return, or leave the whole line with a status.
use uno_pen_plotter.Prelude.{Bool, true, false}
use uno_pen_plotter.Gcode.{Status}

pub data Result (A : Type 0) : Type 0 where
  done : A → Result A
  fail : Status → Result A

infixl 5 ◌>>=◌ ◌>>◌
abbrev pub ◌>>=◌ : {A B : Type 0} → Result A → (A → Result B) → Result B
done a >>= f = f a
fail status >>= f = fail status

abbrev pub ◌>>◌ : {B : Type 0} → Result (Unit {0}) → Result B → Result B
m >> k = m >>= λ _. k

-- if (test) { FAIL(status); }
abbrev pub fail_if : Bool → Status → Result (Unit {0})
fail_if true status = fail status
fail_if false status = done tt

-- What a function that returns gives.
abbrev pub Ensures : {A : Type 0} → (A → Type 0) → Result A → Type 0
Ensures P (done a) = P a
Ensures P (fail status) = Unit {0}

pub Ensures-bind :
    {A B : Type 0} (P : A → Type 0) (Q : B → Type 0) (m : Result A) (f : A → Result B)
    → Ensures P m
    → ((a : A) → P a → Ensures Q (f a))
    → Ensures Q (m >>= f)
Ensures-bind P Q (done a) f p q = q a p
Ensures-bind P Q (fail status) f p q = tt
