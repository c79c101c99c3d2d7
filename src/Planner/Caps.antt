-- ===== src/Planner/Caps.antt =====
-- No block enters faster than its maximum.
use uno_pen_plotter.Prelude.{
  ℕ, zero, suc, ◌≡◌, refl, ◌⊎◌, Bool, true, false, ◌&&◌, arith, ◌==◌, if◌then◌else◌, Bool-cases,
  inl, inr,
}
use uno_pen_plotter.Planner.{block_buffer_size, plan_next_block_index, plan_prev_block_index}
use uno_pen_plotter.Planner.Recalculate.{
  Number, Profile, set_entry_speed, set_planned, notify_stepper, gain, reverse_block, reverse_pass,
  forward_speed, forward_block, forward_pass, last_block, reverse_plan, planner_recalculate,
}

-- `<` of C's `float`: x < y < z gives x < z, and never x < x.
pub record IsOrder {F : Type 0} (number : Number F) : Type 0 where
  pub irreflexive : (a : F) → number.lt a a ≡ false
  pub transitive : (a b c : F) → number.lt a b ≡ true → number.lt b c ≡ true → number.lt a c ≡ true

-- No entry speed is above its maximum.
abbrev pub Capped : {F : Type 0} → Number F → Profile F → Type 0
Capped number p =
    (i : ℕ) → number.lt (p.blocks i).max_entry_speed_sqr (p.blocks i).entry_speed_sqr ≡ false

module _ {F : Type 0} (number : Number F) (order : IsOrder number) where
  set-Capped :
      (i : ℕ) (v : F) (p : Profile F)
      → number.lt (p.blocks i).max_entry_speed_sqr v ≡ false
      → Capped number p
      → Capped number (set_entry_speed i v p)
  unfolding set_entry_speed
  set-Capped i v p h c j = ground (arith, c j)

  notify-Capped : (i : ℕ) (p : Profile F) → Capped number p → Capped number (notify_stepper i p)
  unfolding notify_stepper
  notify-Capped i p c j = ground (arith, c j)

  -- The smaller of a speed and the maximum.
  smaller : (v m : F) → number.lt m (if number.lt v m then v else m) ≡ false
  smaller v m = elim (Bool-cases (number.lt v m)) [
    | inl below ↦ rw below (elim (Bool-cases (number.lt m v)) [
      | inl above ↦ ground (arith, order.transitive m v m above below, order.irreflexive m)
      | inr fine ↦ fine
    ])
    | inr above ↦ rw above (order.irreflexive m)
  ]

  least : (m v : F) → number.lt m (if number.lt m v then m else v) ≡ false
  least m v = elim (Bool-cases (number.lt m v)) [
    | inl above ↦ rw above (order.irreflexive m)
    | inr fine ↦ rw fine fine
  ]

  Capped-if :
      (b : Bool) (x y : Profile F)
      → (b ≡ true → Capped number x)
      → Capped number y
      → Capped number (if b then x else y)
  Capped-if true x y h k = h refl
  Capped-if false x y h k = k

  last-Capped : (i : ℕ) (p : Profile F) → Capped number p → Capped number (last_block number i p)
  unfolding last_block
  last-Capped i p c =
      let m = (p.blocks i).max_entry_speed_sqr in
      let speed = gain number (p.blocks i) in
      set-Capped i (if number.lt m speed then m else speed) p (least m speed) c

  reverse-Capped :
      (next current : ℕ) (p : Profile F)
      → Capped number p
      → Capped number (reverse_block number next current p)
  unfolding reverse_block
  reverse-Capped next current p c =
      let block = p.blocks current in
      let speed = number.add (p.blocks next).entry_speed_sqr (gain number block) in
      Capped-if (number.eq block.entry_speed_sqr block.max_entry_speed_sqr) p _ (λ most. c)
        (set-Capped current
          (if number.lt speed block.max_entry_speed_sqr then speed else block.max_entry_speed_sqr) p
          (smaller speed block.max_entry_speed_sqr) c)

  reverse_pass-Capped :
      (fuel current i : ℕ) (p : Profile F)
      → Capped number p
      → Capped number (reverse_pass number fuel current i p)
  unfolding reverse_pass
  reverse_pass-Capped zero current i p c = c
  reverse_pass-Capped (suc fuel) current i p c =
      let previous = plan_prev_block_index i in
      let p' = reverse_block number current i (notify_stepper previous p) in
      Capped-if (i == p.indices.planned) p _ (λ done. c)
        (reverse_pass-Capped fuel i previous p'
          (reverse-Capped current i (notify_stepper previous p) (notify-Capped previous p c)))

  -- A speed below one that is not above the maximum.
  lower :
      (m e n : F)
      → number.lt m n ≡ false
      → (a : Bool) → (a && number.lt e n) ≡ true
      → number.lt m e ≡ false
  lower m e n fine a h = elim (Bool-cases (number.lt m e)) [
    | inl above ↦ ground (arith, order.transitive m e n above)
    | inr done ↦ done
  ]

  forward_speed-Capped :
      (current next : ℕ) (p : Profile F)
      → Capped number p
      → Capped number (forward_speed number current next p)
  unfolding forward_speed
  forward_speed-Capped current next p c =
      let block = p.blocks current in
      let next_block = p.blocks next in
      let e = number.add block.entry_speed_sqr (gain number block) in
      let slower = number.lt block.entry_speed_sqr next_block.entry_speed_sqr in
      Capped-if (slower && number.lt e next_block.entry_speed_sqr)
        (set_planned next (set_entry_speed next e p)) p
        (λ reach.
          set-Capped next e p
            (lower next_block.max_entry_speed_sqr e next_block.entry_speed_sqr (c next) slower
              reach)
            c)
        c

  forward-Capped :
      (current next : ℕ) (p : Profile F)
      → Capped number p
      → Capped number (forward_block number current next p)
  unfolding forward_block
  forward-Capped current next p c =
      let p' = forward_speed number current next p in
      let c' = forward_speed-Capped current next p c in
      Capped-if (number.eq (p'.blocks next).entry_speed_sqr (p'.blocks next).max_entry_speed_sqr)
        (set_planned next p') p' (λ most. c') c'

  forward_pass-Capped :
      (fuel current i : ℕ) (p : Profile F)
      → Capped number p
      → Capped number (forward_pass number fuel current i p)
  unfolding forward_pass
  forward_pass-Capped zero current i p c = c
  forward_pass-Capped (suc fuel) current i p c =
      Capped-if (i == p.indices.head) p _ (λ done. c)
        (forward_pass-Capped fuel i (plan_next_block_index i) (forward_block number current i p)
          (forward-Capped current i p c))

  reverse_plan-Capped : (p : Profile F) → Capped number p → Capped number (reverse_plan number p)
  unfolding reverse_plan
  reverse_plan-Capped p c =
      let last = plan_prev_block_index p.indices.head in
      let before = plan_prev_block_index last in
      let p₁ = last_block number last p in
      let c₁ = last-Capped last p c in
      Capped-if (before == p.indices.planned) (notify_stepper before p₁) _
        (λ two. notify-Capped before p₁ c₁)
        (reverse_pass-Capped block_buffer_size last before p₁ c₁)

  recalculate-Capped :
      (p : Profile F) → Capped number p → Capped number (planner_recalculate number p)
  unfolding planner_recalculate
  recalculate-Capped p c =
      let planned = p.indices.planned in
      Capped-if (plan_prev_block_index p.indices.head == planned) p _ (λ one. c)
        (forward_pass-Capped block_buffer_size planned (plan_next_block_index planned)
          (reverse_plan number p) (reverse_plan-Capped p c))

  -- A speed is as before, or lower.
  abbrev pub Lowers : Profile F → Profile F → Type 0
  Lowers p q =
      (i : ℕ)
      → ((q.blocks i).entry_speed_sqr ≡ (p.blocks i).entry_speed_sqr)
        ⊎ (number.lt (q.blocks i).entry_speed_sqr (p.blocks i).entry_speed_sqr ≡ true)

  lower_trans :
      (a b c : F)
      → (b ≡ a) ⊎ (number.lt b a ≡ true)
      → (c ≡ b) ⊎ (number.lt c b ≡ true)
      → (c ≡ a) ⊎ (number.lt c a ≡ true)
  lower_trans a b c h k = ground (arith, order.transitive c b a)

  set-Lowers :
      (i : ℕ) (v : F) (p : Profile F)
      → number.lt v (p.blocks i).entry_speed_sqr ≡ true
      → Lowers p (set_entry_speed i v p)
  unfolding set_entry_speed
  set-Lowers i v p h j = ground arith

  Lowers-if :
      (p : Profile F) (b : Bool) (x y : Profile F)
      → (b ≡ true → Lowers p x)
      → Lowers p y
      → Lowers p (if b then x else y)
  Lowers-if p true x y h k = h refl
  Lowers-if p false x y h k = k

  second : (a b : Bool) → (a && b) ≡ true → b ≡ true
  second a b h = ground arith

  forward_block-Lowers :
      (current next : ℕ) (p : Profile F) → Lowers p (forward_block number current next p)
  unfolding forward_block forward_speed
  forward_block-Lowers current next p =
      let block = p.blocks current in
      let next_speed = (p.blocks next).entry_speed_sqr in
      let e = number.add block.entry_speed_sqr (gain number block) in
      let p' = forward_speed number current next p in
      let lowers : Lowers p p' =
        Lowers-if p (number.lt block.entry_speed_sqr next_speed && number.lt e next_speed)
          (set_planned next (set_entry_speed next e p)) p
          (λ reach. set-Lowers next e p (second _ _ reach)) (λ i. inl refl) in
      Lowers-if p (number.eq (p'.blocks next).entry_speed_sqr (p'.blocks next).max_entry_speed_sqr)
        (set_planned next p') p' (λ most. lowers) lowers

  forward_pass-Lowers :
      (fuel current i : ℕ) (p : Profile F) → Lowers p (forward_pass number fuel current i p)
  unfolding forward_pass
  forward_pass-Lowers zero current i p = λ j. inl refl
  forward_pass-Lowers (suc fuel) current i p =
      let p' = forward_block number current i p in
      let q = forward_pass number fuel i (plan_next_block_index i) p' in
      Lowers-if p (i == p.indices.head) p q (λ done j. inl refl)
        (λ j.
          lower_trans (p.blocks j).entry_speed_sqr (p'.blocks j).entry_speed_sqr
            (q.blocks j).entry_speed_sqr (forward_block-Lowers current i p j)
            (forward_pass-Lowers fuel i (plan_next_block_index i) p' j))

  -- When no block enters faster than its maximum before the recalculation, none does after its reverse
  -- pass and none after the whole; and either there was nothing to plan and nothing changes, or every
  -- entry speed is at the end the one that the reverse pass gave it, or lower.
  pub planner_recalculate-Capped :
      (p : Profile F)
      → Capped number p
      → Capped number (reverse_plan number p)
        × Capped number (planner_recalculate number p)
        × ((planner_recalculate number p ≡ p)
            ⊎ Lowers (reverse_plan number p) (planner_recalculate number p))
  unfolding planner_recalculate
  planner_recalculate-Capped p c =
      let planned = p.indices.planned in
      (
        reverse_plan-Capped p c,
        recalculate-Capped p c,
        elim (Bool-cases (plan_prev_block_index p.indices.head == planned)) [
          | inl one ↦ rw one (inl refl)
          | inr more ↦ rw more (
              inr (
                forward_pass-Lowers block_buffer_size planned (plan_next_block_index planned)
                  (reverse_plan number p)))
        ],
      )
