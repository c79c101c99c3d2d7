-- ===== src/Planner.antt =====
-- The ring of planned blocks (grbl/planner.c): its four indices and the operations on them.
pub mod Counts
pub mod Recalculate
pub mod Caps
pub mod Turns
pub mod Rings
pub mod Examples
use uno_pen_plotter.Prelude.{
  ℕ, ◌+◌, ◌-◌, ◌%◌, Bool, true, false, Option, none, some, leb, ◌==◌, if◌then◌else◌,
}

-- BLOCK_BUFFER_SIZE, with no line numbers.
abbrev pub block_buffer_size : ℕ
block_buffer_size = 16

-- `block_buffer_tail`, `block_buffer_head`, `next_buffer_head`, `block_buffer_planned`.
pub record Indices : Type 0 where
  pub tail : ℕ
  pub head : ℕ
  pub next_head : ℕ
  pub planned : ℕ

unfoldable pub plan_next_block_index : ℕ → ℕ
plan_next_block_index block_index =
    let i = (block_index + 1) % 256 in if i == block_buffer_size then 0 else i

unfoldable pub plan_prev_block_index : ℕ → ℕ
plan_prev_block_index block_index =
    let i = if block_index == 0 then block_buffer_size else block_index in i - 1

unfoldable pub plan_reset_buffer : Indices
plan_reset_buffer = record { tail = 0; head = 0; next_head = 1; planned = 0 }

unfoldable pub plan_discard_current_block : Indices → Indices
unfolding plan_next_block_index
plan_discard_current_block p =
    if p.head == p.tail
    then p
    else let block_index = plan_next_block_index p.tail in
      record p {
        planned = if p.tail == p.planned then block_index else p.planned;
        tail = block_index;
      }

-- Where `plan_get_system_motion_block` and `plan_get_current_block` point, `none` for NULL.
unfoldable pub plan_get_system_motion_block : Indices → ℕ
plan_get_system_motion_block p = p.head

unfoldable pub plan_get_current_block : Indices → Option ℕ
plan_get_current_block p = if p.head == p.tail then none else some p.tail

unfoldable pub plan_check_full_buffer : Indices → Bool
plan_check_full_buffer p = p.tail == p.next_head

unfoldable pub plan_get_block_buffer_available : Indices → ℕ
plan_get_block_buffer_available p =
    if leb p.tail p.head then block_buffer_size - 1 - (p.head - p.tail) else p.tail - p.head - 1

unfoldable pub plan_get_block_buffer_count : Indices → ℕ
plan_get_block_buffer_count p =
    if leb p.tail p.head then p.head - p.tail else block_buffer_size - (p.tail - p.head)

-- The end of `plan_buffer_line`: the block at the head is set, and the head moves on.
unfoldable pub push_head : Indices → Indices
unfolding plan_next_block_index
push_head p = record p { head = p.next_head; next_head = plan_next_block_index p.next_head }
