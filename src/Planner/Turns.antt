-- ===== src/Planner/Turns.antt =====
-- The turns of the passes and the planned index: the fuel is enough, and the ring stays valid.
use uno_pen_plotter.Prelude.{
  ℕ, zero, suc, ◌<◌, ◌≤◌, ◌≡◌, ◌≢◌, ◌∙◌, ◌⊎◌, inl, inr, refl, Bool, true, false, arith, ◌==◌,
  if◌then◌else◌, Bool-cases, ap,
}
use uno_pen_plotter.Ring.{count}
use uno_pen_plotter.Planner.{
  Indices, block_buffer_size, plan_next_block_index, plan_prev_block_index,
}
use uno_pen_plotter.Planner.Counts.{IsValid, blocks}
use uno_pen_plotter.Planner.Recalculate.{
  Number, Profile, set_entry_speed, notify_stepper, reverse_block, reverse_pass, forward_speed,
  forward_block, forward_pass, last_block, reverse_plan, planner_recalculate,
}

next-count :
    (head i : ℕ)
    → head < block_buffer_size
    → i < block_buffer_size
    → i ≢ head
    → (plan_next_block_index i < block_buffer_size)
      × (suc (count block_buffer_size head (plan_next_block_index i))
          ≡ count block_buffer_size head i)
unfolding plan_next_block_index
next-count head i hh hi ne = ground arith

prev-count :
    (planned i : ℕ)
    → planned < block_buffer_size
    → i < block_buffer_size
    → i ≢ planned
    → (plan_prev_block_index i < block_buffer_size)
      × (suc (count block_buffer_size (plan_prev_block_index i) planned)
          ≡ count block_buffer_size i planned)
unfolding plan_prev_block_index
prev-count planned i hp hi ne = ground arith

module _ {F : Type 0} (number : Number F) where
  reverse-indices :
      (next i previous : ℕ) (p : Profile F)
      → (reverse_block number next i (notify_stepper previous p)).indices ≡ p.indices
  unfolding reverse_block notify_stepper set_entry_speed
  reverse-indices next i previous p = ground arith

  pub forward-indices :
      (current next : ℕ) (p : Profile F)
      → ((forward_block number current next p).indices ≡ p.indices)
        ⊎ ((forward_block number current next p).indices ≡ record (p.indices) { planned = next })
  unfolding forward_block forward_speed set_entry_speed
  forward-indices current next p = ground arith

  pub forward-head :
      (current next : ℕ) (p : Profile F)
      → (forward_block number current next p).indices.head ≡ p.indices.head
  forward-head current next p = ground (arith, forward-indices current next p)

  -- More fuel than the turns to the head changes nothing.
  forward_turns :
      (n m current i : ℕ) (p : Profile F)
      → p.indices.head < block_buffer_size
      → i < block_buffer_size
      → count block_buffer_size p.indices.head i ≤ n
      → n ≤ m
      → forward_pass number m current i p ≡ forward_pass number n current i p
  unfolding forward_pass
  forward_turns zero zero current i p hh hi l k = refl
  forward_turns zero (suc m) current i p hh hi l k = ground arith
  forward_turns (suc n) zero current i p hh hi l k = absurd (omega arith)
  forward_turns (suc n) (suc m) current i p hh hi l k = elim (Bool-cases (i == p.indices.head)) [
    | inl done ↦ rw done refl
    | inr more ↦
        let p' : Profile F = forward_block number current i p in
        let e : p'.indices.head ≡ p.indices.head = forward-head current i p in
        let c = next-count p.indices.head i hh hi (λ same. ground arith) in
        rw more (
          forward_turns n m i (plan_next_block_index i) p' (rw e hh) c.0 (rw e (omega (arith, c.1)))
            (omega arith))
  ]

  reverse_turns :
      (n m current i : ℕ) (p : Profile F)
      → p.indices.planned < block_buffer_size
      → i < block_buffer_size
      → count block_buffer_size i p.indices.planned ≤ n
      → n ≤ m
      → reverse_pass number m current i p ≡ reverse_pass number n current i p
  unfolding reverse_pass
  reverse_turns zero zero current i p hp hi l k = refl
  reverse_turns zero (suc m) current i p hp hi l k = ground arith
  reverse_turns (suc n) zero current i p hp hi l k = absurd (omega arith)
  reverse_turns (suc n) (suc m) current i p hp hi l k = elim (Bool-cases (i == p.indices.planned)) [
    | inl done ↦ rw done refl
    | inr more ↦
        let previous = plan_prev_block_index i in
        let p' : Profile F = reverse_block number current i (notify_stepper previous p) in
        let e : p'.indices ≡ p.indices = reverse-indices current i previous p in
        let c = prev-count p.indices.planned i hp hi (λ same. ground arith) in
        rw more
          (reverse_turns n m i previous p' (rw e hp) c.0 (rw e (omega (arith, c.1))) (omega arith))
  ]

  forward-IsValid :
      (current i : ℕ) (p : Profile F)
      → IsValid p.indices
      → i < block_buffer_size
      → count block_buffer_size i p.indices.tail ≤ blocks p.indices
      → IsValid (forward_block number current i p).indices
  forward-IsValid current i p v hi l = go _ (forward-indices current i p)
    where
      go : (q : Indices) → (q ≡ p.indices) ⊎ (q ≡ record (p.indices) { planned = i }) → IsValid q
      go q (inl same) = rw same v
      go q (inr moved) = rw moved (record {
        tail_in = v.tail_in;
        head_in = v.head_in;
        next = v.next;
        planned_in = hi;
        planned_queued = omega arith;
      })

  pub forward-tail :
      (current next : ℕ) (p : Profile F)
      → (forward_block number current next p).indices.tail ≡ p.indices.tail
  forward-tail current next p = ground (arith, forward-indices current next p)

  -- What the recalculation keeps of the ring.
  abbrev pub SameRing : Indices → Indices → Type 0
  SameRing p q = IsValid q × (q.head ≡ p.head) × (q.tail ≡ p.tail)

  next-queued :
      (head tail i : ℕ)
      → head < block_buffer_size
      → tail < block_buffer_size
      → i < block_buffer_size
      → i ≢ head
      → count block_buffer_size i tail ≤ count block_buffer_size head tail
      → count block_buffer_size (plan_next_block_index i) tail ≤ count block_buffer_size head tail
  unfolding plan_next_block_index
  next-queued head tail i hh ht hi ne l = ground arith

  forward_pass-IsValid :
      (fuel current i : ℕ) (p : Profile F)
      → IsValid p.indices
      → i < block_buffer_size
      → count block_buffer_size i p.indices.tail ≤ blocks p.indices
      → SameRing p.indices (forward_pass number fuel current i p).indices
  unfolding forward_pass
  forward_pass-IsValid zero current i p v hi l = (v, refl, refl)
  forward_pass-IsValid (suc fuel) current i p v hi l = elim (Bool-cases (i == p.indices.head)) [
    | inl done ↦ rw done (v, refl, refl)
    | inr more ↦
        let p' : Profile F = forward_block number current i p in
        let e : p'.indices.head ≡ p.indices.head = forward-head current i p in
        let t : p'.indices.tail ≡ p.indices.tail = forward-tail current i p in
        let ne : i ≢ p.indices.head = (λ same. ground arith) in
        let c = next-count p.indices.head i v.head_in hi ne in
        let (w, h, k) =
          forward_pass-IsValid fuel i (plan_next_block_index i) p'
            (forward-IsValid current i p v hi l) c.0
            (rw (e, t) (next-queued p.indices.head p.indices.tail i v.head_in v.tail_in hi ne l)) in
        rw more (w, h ∙ e, k ∙ t)
  ]

  reverse_pass-indices :
      (fuel current i : ℕ) (p : Profile F)
      → (reverse_pass number fuel current i p).indices ≡ p.indices
  unfolding reverse_pass
  reverse_pass-indices zero current i p = refl
  reverse_pass-indices (suc fuel) current i p = elim (Bool-cases (i == p.indices.planned)) [
    | inl done ↦ rw done refl
    | inr more ↦
        let previous = plan_prev_block_index i in
        let p' : Profile F = reverse_block number current i (notify_stepper previous p) in
        rw more (reverse_pass-indices fuel i previous p' ∙ reverse-indices current i previous p)
  ]

  -- On a valid ring, the passes end: more fuel than the ring has places changes nothing.
  pub passes_end :
      (m current i : ℕ) (p : Profile F)
      → IsValid p.indices
      → i < block_buffer_size
      → block_buffer_size ≤ m
      → (reverse_pass number m current i p ≡ reverse_pass number block_buffer_size current i p)
        × (forward_pass number m current i p ≡ forward_pass number block_buffer_size current i p)
  passes_end m current i p v hi l = (
    reverse_turns block_buffer_size m current i p v.planned_in hi (ground arith) l,
    forward_turns block_buffer_size m current i p v.head_in hi (ground arith) l,
  )

  ring_kept :
      (p q : Profile F)
      → q.indices ≡ p.indices
      → IsValid p.indices
      → p.indices.planned ≢ p.indices.head
      → SameRing p.indices
          (forward_pass number block_buffer_size p.indices.planned
            (plan_next_block_index p.indices.planned)
            q).indices
  ring_kept p q e v ne =
      let planned = p.indices.planned in
      let head : q.indices.head ≡ p.indices.head = ap (λ (r : Indices). r.head) e in
      let tail : q.indices.tail ≡ p.indices.tail = ap (λ (r : Indices). r.tail) e in
      let c = next-count p.indices.head planned v.head_in v.planned_in ne in
      let (w, h, k) =
        forward_pass-IsValid block_buffer_size planned (plan_next_block_index planned) q (rw e v)
          c.0
          (rw (head, tail)
            (next-queued p.indices.head p.indices.tail planned v.head_in v.tail_in v.planned_in ne
              (omega arith))) in
      (w, h ∙ head, k ∙ tail)

  last-indices : (i : ℕ) (p : Profile F) → (last_block number i p).indices ≡ p.indices
  unfolding last_block set_entry_speed
  last-indices i p = refl

  notify-indices : (i : ℕ) (p : Profile F) → (notify_stepper i p).indices ≡ p.indices
  unfolding notify_stepper
  notify-indices i p = ground arith

  if-indices :
      (b : Bool) (x y : Profile F) (q : Indices)
      → x.indices ≡ q
      → y.indices ≡ q
      → (if b then x else y).indices ≡ q
  if-indices true x y q h k = h
  if-indices false x y q h k = k

  pub reverse_plan-indices : (p : Profile F) → (reverse_plan number p).indices ≡ p.indices
  unfolding reverse_plan
  reverse_plan-indices p =
      let last = plan_prev_block_index p.indices.head in
      let before = plan_prev_block_index last in
      let p₁ : Profile F = last_block number last p in
      if-indices (before == p.indices.planned) _ _ p.indices
        (notify-indices before p₁ ∙ last-indices last p)
        (reverse_pass-indices block_buffer_size last before p₁ ∙ last-indices last p)

  -- On a valid ring whose planned block is one of the queued blocks, the recalculation keeps the head
  -- and the tail and leaves a valid ring: the planned block is again a queued one, or the head.
  pub planner_recalculate-IsValid :
      (p : Profile F)
      → IsValid p.indices
      → p.indices.planned ≢ p.indices.head
      → IsValid (planner_recalculate number p).indices
        × ((planner_recalculate number p).indices.head ≡ p.indices.head)
        × ((planner_recalculate number p).indices.tail ≡ p.indices.tail)
  unfolding planner_recalculate
  planner_recalculate-IsValid p v ne =
      elim (Bool-cases (plan_prev_block_index p.indices.head == p.indices.planned)) [
        | inl one ↦ rw one (v, refl, refl)
        | inr more ↦ rw more (ring_kept p (reverse_plan number p) (reverse_plan-indices p) v ne)
      ]
