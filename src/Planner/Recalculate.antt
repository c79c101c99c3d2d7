-- ===== src/Planner/Recalculate.antt =====
-- `planner_recalculate` (grbl/planner.c): the reverse and the forward pass over the planned blocks. C's
-- `float` is a parameter. A loop has as many turns as fuel as the ring has places.
use uno_pen_plotter.Prelude.{ℕ, zero, suc, ◌+◌, Bool, ◌&&◌, ◌==◌, if◌then◌else◌}
use uno_pen_plotter.Planner.{
  Indices, block_buffer_size, plan_next_block_index, plan_prev_block_index,
}

-- What the planner asks of a `float`.
pub record Number (F : Type 0) : Type 0 where
  pub two : F
  pub add : F → F → F
  pub mul : F → F → F
  pub lt : F → F → Bool
  -- x == y
  pub eq : F → F → Bool

-- The fields of `plan_block_t` that the passes read.
pub record Speeds (F : Type 0) : Type 0 where
  pub entry_speed_sqr : F
  pub max_entry_speed_sqr : F
  pub acceleration : F
  pub millimeters : F

-- The indices, `block_buffer`, and the number of calls of `st_update_plan_block_parameters`.
pub record Profile (F : Type 0) : Type 0 where
  pub indices : Indices
  pub blocks : ℕ → Speeds F
  pub updates : ℕ

unfoldable pub set_entry_speed : {F : Type 0} → ℕ → F → Profile F → Profile F
set_entry_speed i v p = record p {
  blocks =
      λ j. let block = p.blocks j in if j == i then record block { entry_speed_sqr = v } else block;
}

abbrev pub set_planned : {F : Type 0} → ℕ → Profile F → Profile F
set_planned i p = record p { indices = record (p.indices) { planned = i } }

-- The stepper is told when the tail's exit speed may change.
unfoldable pub notify_stepper : {F : Type 0} → ℕ → Profile F → Profile F
notify_stepper block_index p =
    if block_index == p.indices.tail then record p { updates = p.updates + 1 } else p

-- v + 2*acceleration*millimeters
abbrev pub gain : {F : Type 0} → Number F → Speeds F → F
gain number block = number.mul (number.mul number.two block.acceleration) block.millimeters

unfoldable pub reverse_block : {F : Type 0} → Number F → ℕ → ℕ → Profile F → Profile F
reverse_block number next current p =
    let block = p.blocks current in
    let entry_speed_sqr = number.add (p.blocks next).entry_speed_sqr (gain number block) in
    if number.eq block.entry_speed_sqr block.max_entry_speed_sqr
    then p
    else set_entry_speed current
        (if number.lt entry_speed_sqr block.max_entry_speed_sqr
          then entry_speed_sqr
          else block.max_entry_speed_sqr)
        p

unfoldable pub reverse_pass : {F : Type 0} → Number F → ℕ → ℕ → ℕ → Profile F → Profile F
unfolding notify_stepper reverse_block
reverse_pass number zero current block_index p = p
reverse_pass number (suc fuel) current block_index p =
    let previous = plan_prev_block_index block_index in
    let rest =
      reverse_pass number fuel block_index previous
        (reverse_block number current block_index (notify_stepper previous p)) in
    if block_index == p.indices.planned then p else rest

-- The forward pass raises no speed: it lowers the next block's to what the current one can reach.
unfoldable pub forward_speed : {F : Type 0} → Number F → ℕ → ℕ → Profile F → Profile F
unfolding set_entry_speed
forward_speed number current next p =
    let block = p.blocks current in
    let next_speed = (p.blocks next).entry_speed_sqr in
    let entry_speed_sqr = number.add block.entry_speed_sqr (gain number block) in
    if number.lt block.entry_speed_sqr next_speed && number.lt entry_speed_sqr next_speed
    then set_planned next (set_entry_speed next entry_speed_sqr p)
    else p

unfoldable pub forward_block : {F : Type 0} → Number F → ℕ → ℕ → Profile F → Profile F
forward_block number current next p =
    let p' = forward_speed number current next p in
    let block = p'.blocks next in
    if number.eq block.entry_speed_sqr block.max_entry_speed_sqr then set_planned next p' else p'

unfoldable pub forward_pass : {F : Type 0} → Number F → ℕ → ℕ → ℕ → Profile F → Profile F
unfolding forward_block
forward_pass number zero current block_index p = p
forward_pass number (suc fuel) current block_index p =
    let rest =
      forward_pass number fuel block_index (plan_next_block_index block_index)
        (forward_block number current block_index p) in
    if block_index == p.indices.head then p else rest

-- The last block, whose exit speed is zero.
unfoldable pub last_block : {F : Type 0} → Number F → ℕ → Profile F → Profile F
unfolding set_entry_speed
last_block number i p =
    let block = p.blocks i in
    let speed = gain number block in
    set_entry_speed i
      (if number.lt block.max_entry_speed_sqr speed then block.max_entry_speed_sqr else speed) p

-- The reverse pass, for two or more blocks that can be planned.
unfoldable pub reverse_plan : {F : Type 0} → Number F → Profile F → Profile F
unfolding last_block reverse_pass
reverse_plan number p =
    let last = plan_prev_block_index p.indices.head in
    let before = plan_prev_block_index last in
    let p₁ = last_block number last p in
    if before == p.indices.planned
    then notify_stepper before p₁
    else reverse_pass number block_buffer_size last before p₁

unfoldable pub planner_recalculate : {F : Type 0} → Number F → Profile F → Profile F
unfolding reverse_plan forward_pass
planner_recalculate number p =
    let planned = p.indices.planned in
    if plan_prev_block_index p.indices.head == planned
    then p
    else forward_pass number block_buffer_size planned (plan_next_block_index planned)
        (reverse_plan number p)
