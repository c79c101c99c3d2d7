-- ===== src/Planner/Counts.antt =====
-- The ring indices of planner.c: their range, and the count of the queued blocks.
use uno_pen_plotter.Prelude.{ℕ, suc, ◌+◌, ◌-◌, ◌<◌, ◌≡◌, ◌↔◌, true, false, none, arith}
use uno_pen_plotter.Ring.{count, next_index}
use uno_pen_plotter.Planner.{
  Indices, block_buffer_size, plan_next_block_index, plan_prev_block_index, plan_reset_buffer,
  plan_discard_current_block, plan_get_current_block, plan_check_full_buffer,
  plan_get_block_buffer_available, plan_get_block_buffer_count, push_head,
}

-- Indices lie in the buffer, the next head follows the head, and the planned block is one of the
-- queued blocks, or the head.
pub record IsValid (p : Indices) : Type 0 where
  pub tail_in : p.tail < block_buffer_size
  pub head_in : p.head < block_buffer_size
  pub next : p.next_head ≡ next_index block_buffer_size p.head
  pub planned_in : p.planned < block_buffer_size
  pub planned_queued :
      count block_buffer_size p.planned p.tail < count block_buffer_size p.head p.tail + 1

-- What holds of the ring at all times: the planned block need not be one of the queued blocks.
pub record IsRing (p : Indices) : Type 0 where
  pub tail_in : p.tail < block_buffer_size
  pub head_in : p.head < block_buffer_size
  pub next : p.next_head ≡ next_index block_buffer_size p.head
  pub planned_in : p.planned < block_buffer_size

pub IsValid-IsRing : {p : Indices} → IsValid p → IsRing p
IsValid-IsRing v = record {
  tail_in = v.tail_in;
  head_in = v.head_in;
  next = v.next;
  planned_in = v.planned_in;
}

pub reset-IsRing : IsRing plan_reset_buffer
unfolding plan_reset_buffer
reset-IsRing = ground arith

pub push-IsRing : (p : Indices) → IsRing p → IsRing (push_head p)
unfolding push_head
push-IsRing p v = ground arith

pub discard-IsRing : (p : Indices) → IsRing p → IsRing (plan_discard_current_block p)
unfolding plan_discard_current_block
discard-IsRing p v = ground arith

abbrev pub blocks : Indices → ℕ
blocks p = count block_buffer_size p.head p.tail

-- For every index below the buffer's size, the next index of the previous index and the previous
-- index of the next index are the index itself, and both lie below the size.
pub next-prev_inverse :
    (i : ℕ)
    → i < block_buffer_size
    → (plan_next_block_index (plan_prev_block_index i) ≡ i)
      × (plan_prev_block_index (plan_next_block_index i) ≡ i)
      × (plan_next_block_index i < block_buffer_size)
      × (plan_prev_block_index i < block_buffer_size)
unfolding plan_next_block_index plan_prev_block_index
next-prev_inverse i h = ground arith

pub reset-IsValid : IsValid plan_reset_buffer
unfolding plan_reset_buffer
reset-IsValid = ground arith

pub push-IsValid :
    {p : Indices} → IsValid p → plan_check_full_buffer p ≡ false → IsValid (push_head p)
unfolding push_head plan_check_full_buffer
push-IsValid v h = ground arith

pub discard-IsValid : {p : Indices} → IsValid p → IsValid (plan_discard_current_block p)
unfolding plan_discard_current_block
discard-IsValid v = ground arith

-- On valid indices with a free place, queueing a block adds one block and leaves valid indices;
-- discarding the current block takes one away, or changes nothing when there is none, and leaves
-- valid indices, and discarding after queueing brings the count back.
pub push-discard_count :
    (p : Indices)
    → IsValid p
    → plan_check_full_buffer p ≡ false
    → IsValid (push_head p)
      × (blocks (push_head p) ≡ suc (blocks p))
      × IsValid (plan_discard_current_block p)
      × (blocks (plan_discard_current_block p) ≡ blocks p - 1)
      × (blocks (plan_discard_current_block (push_head p)) ≡ blocks p)
unfolding plan_check_full_buffer push_head plan_discard_current_block
push-discard_count p v h =
    (push-IsValid v h, ground arith, discard-IsValid v, ground arith, ground arith)

-- On valid indices, the number of free places and the number of queued blocks that the code computes
-- add up to the 15 usable places; there is a current block exactly when the count is not 0, and the
-- full test passes exactly when no place is free.
pub available-count :
    (p : Indices)
    → IsValid p
    → (plan_get_block_buffer_count p ≡ blocks p)
      × (plan_get_block_buffer_available p + plan_get_block_buffer_count p ≡ block_buffer_size - 1)
      × ((plan_get_current_block p ≡ none) ↔ (plan_get_block_buffer_count p ≡ 0))
      × ((plan_check_full_buffer p ≡ true) ↔ (plan_get_block_buffer_available p ≡ 0))
unfolding plan_get_block_buffer_count plan_get_block_buffer_available plan_get_current_block
    plan_check_full_buffer
available-count p v = (
  ground arith,
  ground arith,
  (λ h. ground arith, λ h. ground arith),
  (λ h. ground arith, λ h. ground arith),
)
