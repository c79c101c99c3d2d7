-- ===== src/Stepper/Line.antt =====
-- Bresenham's algorithm over the interrupts of a segment and of a whole block: the steps of each axis
-- are exactly those of the line.
use Prim.Native.Nat.mul
use uno_pen_plotter.Prelude.{
  ℕ, zero, suc, ◌+◌, ◌*◌, ◌≤◌, ◌<◌, ◌≡◌, refl, ap, ◌∙◌, Bool, true, false, List, [], ◌∷◌, arith,
  if◌then◌else◌, length,
}
use uno_pen_plotter.Stepper.{Stepper, Block, Axes, exec_block, move, segment_buffer_size}
use uno_pen_plotter.Stepper.Tick.{has_segment, stepper_interrupt}
use uno_pen_plotter.Stepper.Interrupt.{Running, is_step, StepAxis}
use uno_pen_plotter.Stepper.Event.{Event, interrupt-Event, interrupt-idle, block_same}

-- The interrupt, once for each reading of the probe's pin.
unfoldable pub interrupts : List Bool → Stepper → Stepper
interrupts [] s = s
interrupts (pin ∷ pins) s = interrupts pins (stepper_interrupt pin s)

-- How many of them step an axis.
unfoldable pub taken_x : List Bool → Stepper → ℕ
taken_x [] s = 0
taken_x (pin ∷ pins) s =
    let rest = taken_x pins (stepper_interrupt pin s) in
    if is_step (exec_block s).step_event_count s.steps.x s.counter_x then suc rest else rest

unfoldable pub taken_y : List Bool → Stepper → ℕ
taken_y [] s = 0
taken_y (pin ∷ pins) s =
    let rest = taken_y pins (stepper_interrupt pin s) in
    if is_step (exec_block s).step_event_count s.steps.y s.counter_y then suc rest else rest

-- The position after some steps in one direction.
abbrev pub moved : Bool → ℕ → ℕ → ℕ
moved negative zero p = p
moved negative (suc k) p = moved negative k (move negative p)

-- `k` events of an axis, `taken` of which step it.
pub record RunAxis (n : ℕ) (negative : Bool) (d k c p taken c' p' : ℕ) : Type 0 where
  pub counter : c' + taken * n ≡ c + k * d
  pub counter_in : c' ≤ n
  pub position : p' ≡ moved negative taken p

run_nothing : (n d c p : ℕ) (g : Bool) → c ≤ n → RunAxis n g d 0 c p 0 c p
run_nothing n d c p g h = record { counter = omega arith; counter_in = h; position = refl }

run_more_at :
    {n d k c p c₁ p₁ t c' p' : ℕ} {g : Bool} (b : Bool)
    → c₁ + (if b then n else 0) ≡ c + d
    → p₁ ≡ (if b then move g p else p)
    → RunAxis n g d k c₁ p₁ t c' p'
    → RunAxis n g d (suc k) c p (if b then suc t else t) c' p'
run_more_at {n} {d} {k} {t = t} {g = g} true e q run = record {
  counter = omega (arith, mul.suc t n, mul.suc k d, run.counter);
  counter_in = run.counter_in;
  position = run.position ∙ ap (moved g t) q;
}
run_more_at {n} {d} {k} {t = t} {g = g} false e q run = record {
  counter = omega (arith, mul.suc k d, run.counter);
  counter_in = run.counter_in;
  position = run.position ∙ ap (moved g t) q;
}

run_more :
    {n d k c p c₁ p₁ t c' p' : ℕ} {g : Bool}
    → StepAxis n g d c p c₁ p₁
    → RunAxis n g d k c₁ p₁ t c' p'
    → RunAxis n g d (suc k) c p (if is_step n d c then suc t else t) c' p'
run_more {n} {d} {c = c} step run = run_more_at (is_step n d c) step.counter step.position run

abbrev pub RunX : List Bool → Stepper → Stepper → Type 0
RunX pins s s' =
    RunAxis (exec_block s).step_event_count (exec_block s).direction_bits.x s.steps.x (length pins)
      s.counter_x s.sys_position.x (taken_x pins s) s'.counter_x s'.sys_position.x

abbrev pub RunY : List Bool → Stepper → Stepper → Type 0
RunY pins s s' =
    RunAxis (exec_block s).step_event_count (exec_block s).direction_bits.y s.steps.y (length pins)
      s.counter_y s.sys_position.y (taken_y pins s) s'.counter_y s'.sys_position.y

has_still :
    (s s' : Stepper)
    → s'.exec_segment ≡ s.exec_segment
    → has_segment s ≡ true
    → has_segment s' ≡ true
has_still s s' e h = ground arith

-- After an event that is not the last of its segment.
still_Running :
    (pin : Bool) (s : Stepper)
    → Running s
    → s.segment_tail < segment_buffer_size
    → 1 < s.step_count
    → Running (stepper_interrupt pin s)
      × ((stepper_interrupt pin s).segment_tail < segment_buffer_size)
still_Running pin s r t more = (
  record {
    idle = interrupt-idle pin s r;
    segment = has_still s (stepper_interrupt pin s) (e.in_segment.exec ∙ ground arith) r.segment;
    counts = omega (arith, e.in_segment.count);
    count_in = omega (arith, e.in_segment.count, r.count_in);
    events = rw (block_same e.line) r.events;
    x_in = rw (block_same e.line) e.on_x.counter_in;
    y_in = rw (block_same e.line) e.on_y.counter_in;
    dx_in = rw (block_same e.line, e.line.steps) r.dx_in;
    dy_in = rw (block_same e.line, e.line.steps) r.dy_in;
  },
  rw e.in_segment.tail (ground arith),
)
  where
    e : Event s (stepper_interrupt pin s)
    e = interrupt-Event pin s r t

RunAxis-eq :
    {n n₁ d d₁ k c p t c' p' : ℕ} {g g₁ : Bool}
    → n ≡ n₁
    → g ≡ g₁
    → d ≡ d₁
    → RunAxis n g d k c p t c' p'
    → RunAxis n₁ g₁ d₁ k c p t c' p'
RunAxis-eq en eg ed h = rw (← en, ← eg, ← ed) h

-- In the middle of a segment, with counters and increments that do not exceed the event count, any
-- number of interrupts up to the end of the segment moves X and Y by Bresenham's algorithm: each
-- axis's counter grows by its increment at every interrupt, less the event count at every step, and
-- never exceeds the event count; and the position moves by one in the block's direction at exactly
-- these steps.
pub segment_lem :
    (pins : List Bool) (s : Stepper)
    → Running s
    → s.segment_tail < segment_buffer_size
    → length pins ≤ s.step_count
    → RunX pins s (interrupts pins s) × RunY pins s (interrupts pins s)
unfolding interrupts taken_x taken_y
segment_lem [] s r t h = (
  run_nothing (exec_block s).step_event_count s.steps.x s.counter_x s.sys_position.x
      (exec_block s).direction_bits.x r.x_in,
  run_nothing (exec_block s).step_event_count s.steps.y s.counter_y s.sys_position.y
      (exec_block s).direction_bits.y r.y_in,
)
segment_lem (pin ∷ []) s r t h =
    let e = interrupt-Event pin s r t in
    (
      run_more e.on_x (
          run_nothing (exec_block s).step_event_count s.steps.x _ _ (exec_block s).direction_bits.x
            e.on_x.counter_in),
      run_more e.on_y (
          run_nothing (exec_block s).step_event_count s.steps.y _ _ (exec_block s).direction_bits.y
            e.on_y.counter_in),
    )
segment_lem (pin ∷ q ∷ pins) s r t h =
    let e = interrupt-Event pin s r t in
    let (r', t') = still_Running pin s r t (omega arith) in
    let (run_x, run_y) =
      segment_lem (q ∷ pins) (stepper_interrupt pin s) r' t' (omega (arith, e.in_segment.count)) in
    (
      run_more e.on_x (
          RunAxis-eq (ap (λ (b : Block). b.step_event_count) (block_same e.line))
            (ap (λ (b : Block). b.direction_bits.x) (block_same e.line))
            (ap (λ (a : Axes ℕ). a.x) e.line.steps) run_x),
      run_more e.on_y (
          RunAxis-eq (ap (λ (b : Block). b.step_event_count) (block_same e.line))
            (ap (λ (b : Block). b.direction_bits.y) (block_same e.line))
            (ap (λ (a : Axes ℕ). a.y) e.line.steps) run_y),
    )
