-- ===== src/Planner/Examples.antt =====
-- The planner's counts at concrete indices, with the queue going round the end of the buffer.
use uno_pen_plotter.Prelude.{
  ℕ, [], ◌∷◌, ◌*◌, ltb, ◌==◌, ◌+◌, ◌≡◌, ◌↔◌, ◌⊎◌, refl, true, none, arith,
}
use uno_pen_plotter.Planner.{
  Indices, plan_get_block_buffer_count, plan_get_block_buffer_available, plan_get_current_block,
  plan_reset_buffer, plan_prev_block_index, plan_next_block_index, plan_check_full_buffer,
}
use uno_pen_plotter.Planner.Counts.{IsValid, available-count}
use uno_pen_plotter.Planner.Recalculate.{
  Number, Profile, reverse_pass, forward_speed, forward_pass, reverse_plan, planner_recalculate,
}
use uno_pen_plotter.Planner.Caps.{IsOrder, Capped, Lowers, planner_recalculate-Capped}
use uno_pen_plotter.Planner.Turns.{planner_recalculate-IsValid, passes_end}

abbrev wrapped : Indices
wrapped = record { tail = 14; head = 2; next_head = 3; planned = 15 }

wrapped-IsValid : IsValid wrapped
wrapped-IsValid = ground arith

available-count_example :
    (plan_get_block_buffer_count wrapped ≡ 4)
    × (plan_get_block_buffer_available wrapped + plan_get_block_buffer_count wrapped ≡ 15)
    × ((plan_get_current_block wrapped ≡ none) ↔ (plan_get_block_buffer_count wrapped ≡ 0))
    × ((plan_check_full_buffer wrapped ≡ true) ↔ (plan_get_block_buffer_available wrapped ≡ 0))
available-count_example = available-count wrapped wrapped-IsValid

abbrev naturals : Number ℕ
naturals = record { two = 2; add = ◌+◌; mul = ◌*◌; lt = ltb; eq = ◌==◌ }

naturals-IsOrder : IsOrder naturals
naturals-IsOrder = record {
  irreflexive = λ a. ground arith;
  transitive = λ a b c h k. ground arith;
}

-- Four blocks at rest, of the same length.
abbrev profile : Profile ℕ
profile = record {
  indices = wrapped;
  blocks = λ i. record {
    entry_speed_sqr = 0;
    max_entry_speed_sqr = 100;
    acceleration = 3;
    millimeters = 5;
  };
  updates = 0;
}

-- The last block and the one before it, from the planned block, which stays at rest.
recalculates :
    ((planner_recalculate naturals profile).blocks 1).entry_speed_sqr
      ∷ ((planner_recalculate naturals profile).blocks 0).entry_speed_sqr
      ∷ ((planner_recalculate naturals profile).blocks 15).entry_speed_sqr
      ∷ []
    ≡ 30 ∷ 30 ∷ 0 ∷ []
unfolding planner_recalculate plan_prev_block_index plan_next_block_index forward_speed
recalculates = refl

-- An override served on an empty ring: the passes go round the ring, and the planned block is no queued
-- one afterwards.
abbrev empty_profile : Profile ℕ
empty_profile = record {
  indices = plan_reset_buffer;
  blocks = λ i. record {
    entry_speed_sqr = 0;
    max_entry_speed_sqr = 0;
    acceleration = 3;
    millimeters = 5;
  };
  updates = 0;
}

planned_outside : (planner_recalculate naturals empty_profile).indices.planned ≡ 15
unfolding planner_recalculate plan_prev_block_index plan_next_block_index forward_speed
    plan_reset_buffer
planned_outside = refl

planner_recalculate-Capped_example :
    Capped naturals (reverse_plan naturals profile)
    × Capped naturals (planner_recalculate naturals profile)
    × ((planner_recalculate naturals profile ≡ profile)
        ⊎ Lowers naturals naturals-IsOrder
            (reverse_plan naturals profile)
            (planner_recalculate naturals profile))
planner_recalculate-Capped_example =
    planner_recalculate-Capped naturals naturals-IsOrder profile (λ i. refl)

planner_recalculate-IsValid_example :
    IsValid (planner_recalculate naturals profile).indices
    × ((planner_recalculate naturals profile).indices.head ≡ 2)
    × ((planner_recalculate naturals profile).indices.tail ≡ 14)
planner_recalculate-IsValid_example =
    planner_recalculate-IsValid naturals profile wrapped-IsValid (λ e. ground arith)

passes_end_example :
    (reverse_pass naturals 20 1 0 profile ≡ reverse_pass naturals 16 1 0 profile)
    × (forward_pass naturals 20 1 0 profile ≡ forward_pass naturals 16 1 0 profile)
passes_end_example =
    passes_end naturals 20 1 0 profile wrapped-IsValid (ground arith) (ground arith)
