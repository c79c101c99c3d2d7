-- ===== src/Stepper/Event.antt =====
-- The whole interrupt in a segment, from its parts.
use uno_pen_plotter.Prelude.{ℕ, ◌≤◌, ◌<◌, ◌≡◌, sym, ap, ◌∙◌, Bool, true, false, arith}
use uno_pen_plotter.Stepper.{Stepper, Block, Axes, Pins, no_pins, exec_block, segment_buffer_size}
use uno_pen_plotter.Stepper.Tick.{
  check_probe, step_axes, drive_pins, step_x, step_y, lock_axes, count_step, execute_step,
  has_segment, stepper_interrupt,
}
use uno_pen_plotter.Stepper.Interrupt.{
  Running, StepAxis, SameLine, SameSegment, SameX, SameY, Same, StepX, StepY, CountStep,
  check_probe-Same, lock_axes-Same, drive_pins-Same, step_x-frame, step_y-frame, step_x-StepX,
  step_y-StepY, count_step-frame, count_step-CountStep,
}

-- One event: both axes and the segment.
pub record Event (s s' : Stepper) : Type 0 where
  pub line : SameLine s s'
  pub on_x : StepX s s'
  pub on_y : StepY s s'
  pub in_segment : CountStep s s'

pub line_trans : {a b c : Stepper} → SameLine a b → SameLine b c → SameLine a c
line_trans h k = record {
  buffer = k.buffer ∙ h.buffer;
  block = k.block ∙ h.block;
  steps = k.steps ∙ h.steps;
  segments = k.segments ∙ h.segments;
  head = k.head ∙ h.head;
}

segment_trans : {a b c : Stepper} → SameSegment a b → SameSegment b c → SameSegment a c
segment_trans h k = record {
  count = k.count ∙ h.count;
  tail = k.tail ∙ h.tail;
  exec = k.exec ∙ h.exec;
}

x_trans : {a b c : Stepper} → SameX a b → SameX b c → SameX a c
x_trans h k = record { counter = k.counter ∙ h.counter; position = k.position ∙ h.position }

y_trans : {a b c : Stepper} → SameY a b → SameY b c → SameY a c
y_trans h k = record { counter = k.counter ∙ h.counter; position = k.position ∙ h.position }

Same-trans : {a b c : Stepper} → Same a b → Same b c → Same a c
Same-trans (l, g, x, y) (l', g', x', y') =
    (line_trans l l', segment_trans g g', x_trans x x', y_trans y y')

pub block_same : {a b : Stepper} → SameLine a b → exec_block b ≡ exec_block a
block_same {a} {b} l =
    ap (λ buffer. buffer b.exec_block_index) l.buffer ∙ ap a.st_block_buffer l.block

StepAxis-eq :
    {n n₁ d d₁ c c₁ p p₁ e e₁ q q₁ : ℕ} {g g₁ : Bool}
    → n ≡ n₁
    → g ≡ g₁
    → d ≡ d₁
    → c ≡ c₁
    → p ≡ p₁
    → e ≡ e₁
    → q ≡ q₁
    → StepAxis n g d c p e q
    → StepAxis n₁ g₁ d₁ c₁ p₁ e₁ q₁
StepAxis-eq en eg ed ec ep ee eq h = rw (← en, ← eg, ← ed, ← ec, ← ep, ← ee, ← eq) h

StepX-after : {a b c d : Stepper} → SameLine a b → SameX a b → StepX b c → SameX c d → StepX a d
StepX-after l x h y =
    StepAxis-eq (ap (λ (k : Block). k.step_event_count) (block_same l))
      (ap (λ (k : Block). k.direction_bits.x) (block_same l)) (ap (λ (k : Axes ℕ). k.x) l.steps)
      x.counter x.position (sym y.counter) (sym y.position) h

StepY-after : {a b c d : Stepper} → SameLine a b → SameY a b → StepY b c → SameY c d → StepY a d
StepY-after l x h y =
    StepAxis-eq (ap (λ (k : Block). k.step_event_count) (block_same l))
      (ap (λ (k : Block). k.direction_bits.y) (block_same l)) (ap (λ (k : Axes ℕ). k.y) l.steps)
      x.counter x.position (sym y.counter) (sym y.position) h

CountStep-after : {a b c : Stepper} → SameSegment a b → CountStep b c → CountStep a c
CountStep-after g h = ground arith

-- The interrupt's parts in order.
event_of_parts :
    {a b c d e f : Stepper}
    → Same a b
    → (SameLine b c × SameSegment b c × SameY b c) × StepX b c
    → (SameLine c d × SameSegment c d × SameX c d) × StepY c d
    → Same d e
    → (SameLine e f × SameX e f × SameY e f) × CountStep e f
    → Event a f
event_of_parts (l₁, g₁, x₁, y₁) ((l₂, g₂, y₂), on_x) ((l₃, g₃, x₃), on_y) (l₄, g₄, x₄, y₄)
      ((l₅, x₅, y₅), in_segment) =
    record {
      line = line_trans l₁ (line_trans l₂ (line_trans l₃ (line_trans l₄ l₅)));
      on_x = StepX-after l₁ x₁ on_x (x_trans x₃ (x_trans x₄ x₅));
      on_y = StepY-after (line_trans l₁ l₂) (y_trans y₁ y₂) on_y (y_trans y₄ y₅);
      in_segment =
          CountStep-after (segment_trans g₁ (segment_trans g₂ (segment_trans g₃ g₄))) in_segment;
    }

x_fits :
    {a b : Stepper}
    → SameLine a b
    → SameX a b
    → Running a
    → (b.counter_x ≤ (exec_block b).step_event_count)
      × (b.steps.x ≤ (exec_block b).step_event_count)
      × ((exec_block b).step_event_count < 2147483648)
x_fits l x r = rw (block_same l, l.steps, x.counter) (r.x_in, r.dx_in, r.events)

y_fits :
    {a b : Stepper}
    → SameLine a b
    → SameY a b
    → Running a
    → (b.counter_y ≤ (exec_block b).step_event_count)
      × (b.steps.y ≤ (exec_block b).step_event_count)
      × ((exec_block b).step_event_count < 2147483648)
y_fits l y r = rw (block_same l, l.steps, y.counter) (r.y_in, r.dy_in, r.events)

cleared-Same : {a b : Stepper} → Same a b → Same a (record b { step_outbits = no_pins })
cleared-Same (l, g, x, y) = (
  record {
    buffer = l.buffer;
    block = l.block;
    steps = l.steps;
    segments = l.segments;
    head = l.head;
  },
  record { count = g.count; tail = g.tail; exec = g.exec },
  record { counter = x.counter; position = x.position },
  record { counter = y.counter; position = y.position },
)

finished-Event :
    {a b : Stepper} (o : Pins) → Event a b → Event a (record b { step_outbits = o; busy = false })
finished-Event o e = record {
  line = record {
    buffer = e.line.buffer;
    block = e.line.block;
    steps = e.line.steps;
    segments = e.line.segments;
    head = e.line.head;
  };
  on_x = e.on_x;
  on_y = e.on_y;
  in_segment = record {
    count = e.in_segment.count;
    tail = e.in_segment.tail;
    exec = e.in_segment.exec;
  };
}

in_segment_lem :
    (pin : Bool) (s : Stepper)
    → s.busy ≡ false
    → has_segment s ≡ true
    → stepper_interrupt pin s ≡ execute_step pin (drive_pins s)
unfolding stepper_interrupt drive_pins
in_segment_lem pin s i h = ground arith

axes_Event :
    (s b : Stepper)
    → Running s
    → s.segment_tail < segment_buffer_size
    → Same s b
    → Event s (count_step (lock_axes (step_y (step_x b))))
axes_Event s b r t (l, g, x, y) =
    let (cx, dx, nx) = x_fits l x r in
    let (l₁, g₁, y₁) = step_x-frame b in
    let (cy, dy, ny) = y_fits (line_trans l l₁) (y_trans y y₁) r in
    let (l₂, g₂, x₂) = step_y-frame (step_x b) in
    let locked = lock_axes-Same (step_y (step_x b)) in
    let g₅ = segment_trans g (segment_trans g₁ (segment_trans g₂ locked.1)) in
    event_of_parts (l, g, x, y) (step_x-frame b, step_x-StepX b cx dx nx)
      (step_y-frame (step_x b), step_y-StepY (step_x b) cy dy ny) locked
      (
        count_step-frame (lock_axes (step_y (step_x b))),
        count_step-CountStep (lock_axes (step_y (step_x b))) (rw g₅.count r.counts)
            (rw g₅.count r.count_in) (rw g₅.tail t),
      )

execute_step-Event :
    (pin : Bool) (s : Stepper)
    → Running s
    → s.segment_tail < segment_buffer_size
    → Event s (execute_step pin (drive_pins s))
unfolding execute_step step_axes
execute_step-Event pin s r t = finished-Event _ (
    axes_Event s (record (check_probe pin (drive_pins s)) { step_outbits = no_pins }) r t
      (cleared-Same (Same-trans (drive_pins-Same s) (check_probe-Same pin (drive_pins s)))))

pub interrupt-Event :
    (pin : Bool) (s : Stepper)
    → Running s
    → s.segment_tail < segment_buffer_size
    → Event s (stepper_interrupt pin s)
interrupt-Event pin s r t =
    rw (in_segment_lem pin s r.idle r.segment) (execute_step-Event pin s r t)

pub interrupt-idle : (pin : Bool) (s : Stepper) → Running s → (stepper_interrupt pin s).busy ≡ false
unfolding execute_step
interrupt-idle pin s r = ap (λ (q : Stepper). q.busy) (in_segment_lem pin s r.idle r.segment)
