-- ===== src/Stepper/Exact.antt =====
-- A segment of whole steps takes exactly these steps.
use Prim.Native.Nat.mul
use uno_pen_plotter.Prelude.{
  ℕ, zero, suc, ◌+◌, ◌*◌, ◌/◌, ◌≤◌, ◌<◌, ◌≡◌, ap, ◌∙◌, Bool, List, arith, length,
}
use native.Mathlib.Decide.{dec_lt}
use uno_pen_plotter.Stepper.{Stepper, exec_block, segment_buffer_size}
use uno_pen_plotter.Stepper.Interrupt.{Running}
use uno_pen_plotter.Stepper.Line.{interrupts, moved, RunAxis, segment_lem}

times_mono : (a b n : ℕ) → a ≤ b → a * n ≤ b * n
times_mono zero b n h = omega arith
times_mono (suc a) zero n h = absurd (omega arith)
times_mono (suc a) (suc b) n h =
    omega (arith, mul.suc a n, mul.suc b n, times_mono a b n (omega arith))

-- Two multiples of `n` that differ by less than `n` are the same.
same_multiple : (a b n c d : ℕ) → c + a * n ≡ d + b * n → c < d + n → d < c + n → a ≡ b
same_multiple a b n c d e p q = elim (dec_lt a b) [
  | yes lt ↦ absurd (omega (arith, times_mono (suc a) b n lt, mul.suc a n))
  | no ge ↦ elim (dec_lt b a) [
    | yes lt ↦ absurd (omega (arith, times_mono (suc b) a n lt, mul.suc b n))
    | no le ↦ omega arith
  ]
]

exact_run :
    (n d k c p t c' p' m : ℕ) (g : Bool)
    → RunAxis n g d k c p t c' p'
    → 1 < n
    → c ≡ n / 2
    → k * d ≡ m * n
    → (t ≡ m) × (c' ≡ n / 2) × (p' ≡ moved g m p)
exact_run n d k c p t c' p' m g run pos h e =
    let same : t ≡ m =
      same_multiple t m n c' c (run.counter ∙ ap (λ v. c + v) e) (omega (arith, run.counter_in))
        (omega arith) in
    (
      same,
      omega (arith, run.counter, ap (λ v. v * n) same),
      run.position ∙ ap (λ v. moved g v p) same,
    )

-- A segment of a block of more than one event that starts with X and Y at half the event count, and whose events make up whole steps
-- of both axes, takes exactly these steps: after its last interrupt each position has moved by that
-- number of steps in the block's direction, and each counter is back at half the event count.
pub segment_exact :
    (pins : List Bool) (s : Stepper) (mx my : ℕ)
    → Running s
    → s.segment_tail < segment_buffer_size
    → length pins ≡ s.step_count
    → 1 < (exec_block s).step_event_count
    → s.counter_x ≡ (exec_block s).step_event_count / 2
    → s.counter_y ≡ (exec_block s).step_event_count / 2
    → s.step_count * s.steps.x ≡ mx * (exec_block s).step_event_count
    → s.step_count * s.steps.y ≡ my * (exec_block s).step_event_count
    → ((interrupts pins s).sys_position.x
        ≡ moved (exec_block s).direction_bits.x mx s.sys_position.x)
      × ((interrupts pins s).sys_position.y
          ≡ moved (exec_block s).direction_bits.y my s.sys_position.y)
      × ((interrupts pins s).counter_x ≡ (exec_block s).step_event_count / 2)
      × ((interrupts pins s).counter_y ≡ (exec_block s).step_event_count / 2)
segment_exact pins s mx my r t len pos cx cy ex ey =
    let (run_x, run_y) = segment_lem pins s r t (omega arith) in
    let (_, half_x, at_x) =
      exact_run _ _ _ _ _ _ _ _ mx (exec_block s).direction_bits.x run_x pos cx
        (ap (λ k. k * s.steps.x) len ∙ ex) in
    let (_, half_y, at_y) =
      exact_run _ _ _ _ _ _ _ _ my (exec_block s).direction_bits.y run_y pos cy
        (ap (λ k. k * s.steps.y) len ∙ ey) in
    (at_x, at_y, half_x, half_y)
