-- ===== src/Planner/Rings.antt =====
-- `planner_recalculate` on any ring, an empty one among them, whose planned block may be none of the
-- queued blocks afterwards.
use uno_pen_plotter.Prelude.{
  ℕ, zero, suc, ◌<◌, ◌≡◌, ◌⊎◌, inl, inr, refl, ap, ◌∙◌, Bool, true, false, arith, ◌==◌,
  if◌then◌else◌,
}
use uno_pen_plotter.Planner.{
  Indices, block_buffer_size, plan_next_block_index, plan_prev_block_index,
}
use uno_pen_plotter.Planner.Counts.{IsRing}
use uno_pen_plotter.Planner.Recalculate.{
  Number, Profile, reverse_plan, forward_block, forward_pass, planner_recalculate,
}
use uno_pen_plotter.Planner.Turns.{
  forward-indices, forward-head, forward-tail, reverse_plan-indices,
}

next_in : (i : ℕ) → i < block_buffer_size → plan_next_block_index i < block_buffer_size
unfolding plan_next_block_index
next_in i h = ground arith

module _ {F : Type 0} (number : Number F) where
  forward-IsRing :
      (current i : ℕ) (p : Profile F)
      → IsRing p.indices
      → i < block_buffer_size
      → IsRing (forward_block number current i p).indices
  forward-IsRing current i p v h = go _ (forward-indices number current i p)
    where
      go : (q : Indices) → (q ≡ p.indices) ⊎ (q ≡ record (p.indices) { planned = i }) → IsRing q
      go q (inl same) = rw same v
      go q (inr moved) =
          rw moved
            (record { tail_in = v.tail_in; head_in = v.head_in; next = v.next; planned_in = h })

  if-IsRing :
      (b : Bool) (x y : Profile F)
      → IsRing x.indices
      → IsRing y.indices
      → IsRing (if b then x else y).indices
  if-IsRing true x y h k = h
  if-IsRing false x y h k = k

  forward_pass-IsRing :
      (fuel current i : ℕ) (p : Profile F)
      → IsRing p.indices
      → i < block_buffer_size
      → IsRing (forward_pass number fuel current i p).indices
  unfolding forward_pass
  forward_pass-IsRing zero current i p v h = v
  forward_pass-IsRing (suc fuel) current i p v h = if-IsRing (i == p.indices.head) p _ v (
      forward_pass-IsRing fuel i (plan_next_block_index i) (forward_block number current i p)
        (forward-IsRing current i p v h) (next_in i h))

  -- The head and the tail are as before.
  abbrev pub SameEnds : Profile F → Profile F → Type 0
  SameEnds p q = (q.indices.head ≡ p.indices.head) × (q.indices.tail ≡ p.indices.tail)

  if-ends :
      (p : Profile F) (b : Bool) (x y : Profile F)
      → SameEnds p x
      → SameEnds p y
      → SameEnds p (if b then x else y)
  if-ends p true x y h k = h
  if-ends p false x y h k = k

  forward_pass-ends :
      (fuel current i : ℕ) (p : Profile F) → SameEnds p (forward_pass number fuel current i p)
  unfolding forward_pass
  forward_pass-ends zero current i p = (refl, refl)
  forward_pass-ends (suc fuel) current i p =
      let p' : Profile F = forward_block number current i p in
      let (h, t) = forward_pass-ends fuel i (plan_next_block_index i) p' in
      if-ends p (i == p.indices.head) p _ (refl, refl)
        (h ∙ forward-head number current i p, t ∙ forward-tail number current i p)

  pub planner_recalculate-ends : (p : Profile F) → SameEnds p (planner_recalculate number p)
  unfolding planner_recalculate
  planner_recalculate-ends p =
      let planned = p.indices.planned in
      let e = reverse_plan-indices number p in
      let (h, t) =
        forward_pass-ends block_buffer_size planned (plan_next_block_index planned)
          (reverse_plan number p) in
      if-ends p (plan_prev_block_index p.indices.head == planned) p _ (refl, refl)
        (h ∙ ap (λ (q : Indices). q.head) e, t ∙ ap (λ (q : Indices). q.tail) e)

  pub planner_recalculate-IsRing :
      (p : Profile F) → IsRing p.indices → IsRing (planner_recalculate number p).indices
  unfolding planner_recalculate
  planner_recalculate-IsRing p v =
      let planned = p.indices.planned in
      if-IsRing (plan_prev_block_index p.indices.head == planned) p _ v (
        forward_pass-IsRing block_buffer_size planned (plan_next_block_index planned)
          (reverse_plan number p) (rw (reverse_plan-indices number p) v)
          (next_in planned v.planned_in))
