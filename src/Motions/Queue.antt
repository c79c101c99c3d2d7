-- ===== src/Motions/Queue.antt =====
-- What `mc_line` does to the planner's ring and to the blocks queued.
use uno_pen_plotter.Prelude.{
  ℕ, zero, suc, ◌<◌, ◌≡◌, ◌≢◌, ◌∙◌, sym, inl, inr, refl, ◌⊎◌, Bool, true, false, not, ◌&&◌, ◌||◌,
  some, List, ◌∷◌, arith, Bool-cases, ◌==◌, length,
}
use uno_pen_plotter.System.{Machine, cw, recalculate}
use uno_pen_plotter.Outputs.{is_cw, spindle_set_state}
use uno_pen_plotter.Planner.{Indices, plan_check_full_buffer, push_head}
use uno_pen_plotter.Planner.Counts.{IsRing, push-IsRing}
use uno_pen_plotter.Gcode.{Vector, PlanData}
use uno_pen_plotter.Motions.{Parts, PlanBlock, Plotter, on_machine}
use uno_pen_plotter.Motions.Waits.{
  protocol_execute_realtime, protocol_auto_cycle_start, has_block, is_cycle,
  protocol_buffer_synchronize,
}
use uno_pen_plotter.Motions.Lines.{
  plan_steps, target_steps, plan_buffer_line, spindle_sync, wait_room, queue_line, line_check,
  line_room, mc_line, is_jog, is_check_mode,
}
use uno_pen_plotter.Motions.Plans.{recalculate-Planned, recalculate-ends}
use uno_pen_plotter.Motions.Rounds.{
  Ends, Ends-bind, Ends-if, Ends-of, Ends-weaken, Stays, realtime-Stays, wait-Stays,
  auto_start-Stays, check-Stays,
}

not_first : (a b : Bool) → (not a && b) ≡ true → a ≡ false
not_first a b h = ground arith

-- The ring is valid, and at most one block, for this target and of some steps, has been queued, which
-- has not overrun the tail: the ring is not empty then.
abbrev pub Queues : {F : Type 0} → Vector F → PlanData F → List (PlanBlock F) → Plotter F → Type 0
Queues {F} target pl_data blocks p =
    IsRing p.machine.plan
    × ((p.queued ≡ blocks)
        ⊎ ((block : PlanBlock F) × (p.queued ≡ block ∷ blocks)
            × (block.target ≡ target)
            × (block.pl_data ≡ pl_data)
            × (0 < block.step_event_count)
            × (p.machine.plan.head ≢ p.machine.plan.tail)))

module _ {F : Type 0} (parts : Parts F) where
  -- Unless the system has aborted, there is room.
  abbrev Roomy : List (PlanBlock F) → Plotter F → Type 0
  Roomy blocks p =
      Stays blocks p × ((not p.machine.abort && plan_check_full_buffer p.machine.plan) ≡ false)

  roomy :
      (blocks : List (PlanBlock F)) (p : Plotter F)
      → Stays blocks p
      → (p.machine.abort || not (plan_check_full_buffer p.machine.plan)) ≡ true
      → Roomy blocks p
  roomy blocks p s h = (s, ground arith)

  room-Roomy :
      (blocks : List (PlanBlock F)) (fuel : ℕ) (p : Plotter F)
      → Stays blocks p
      → Ends (Roomy blocks) (wait_room parts fuel p)
  unfolding wait_room
  room-Roomy blocks zero p s = tt
  room-Roomy blocks (suc fuel) p s =
      Ends-bind (Stays blocks) (Roomy blocks) (protocol_execute_realtime parts p) _
        (realtime-Stays parts blocks p s)
        (λ p₁ s₁.
          Ends-if (Roomy blocks) (p₁.machine.abort || not (plan_check_full_buffer p₁.machine.plan))
            _ _ (roomy blocks p₁ s₁)
            (λ full.
              room-Roomy blocks fuel (on_machine protocol_auto_cycle_start p₁)
                (auto_start-Stays parts blocks p₁ s₁)))

  abbrev planned_block : Vector F → PlanData F → Plotter F → PlanBlock F
  planned_block target pl_data p = plan_steps target pl_data (target_steps parts target) p.position

  pushed-fits :
      (q : Indices)
      → IsRing q
      → plan_check_full_buffer q ≡ false
      → (push_head q).head ≢ (push_head q).tail
  unfolding plan_check_full_buffer push_head
  pushed-fits q v room e = ground arith

  abbrev pushed : Plotter F → Machine
  pushed p = record (p.machine) { plan = push_head p.machine.plan }

  recalculated-fits :
      (m : Machine)
      → m.plan.head ≢ m.plan.tail
      → (recalculate m).plan.head ≢ (recalculate m).plan.tail
  recalculated-fits m h e = let (head, tail) = recalculate-ends m in h (sym head ∙ e ∙ tail)

  pushed-Queues :
      (target : Vector F) (pl_data : PlanData F) (blocks : List (PlanBlock F)) (p : Plotter F)
      → Stays blocks p
      → plan_check_full_buffer p.machine.plan ≡ false
      → Queues target pl_data blocks (plan_buffer_line parts target pl_data p).1
  unfolding plan_buffer_line plan_steps target_steps
  pushed-Queues target pl_data blocks p (v, q) room =
      elim (Bool-cases ((planned_block target pl_data p).step_event_count == 0)) [
        | inl empty ↦ rw empty (v, inl q)
        | inr some_steps ↦ rw some_steps (
          recalculate-Planned (pushed p) (push-IsRing p.machine.plan v),
          inr (
            planned_block target pl_data p,
            rw q refl,
            refl,
            refl,
            ground arith,
            recalculated-fits (pushed p) (pushed-fits p.machine.plan v room),
          ),
        )
      ]

  empty-Stays :
      (target : Vector F) (pl_data : PlanData F) (blocks : List (PlanBlock F)) (p : Plotter F)
      → Stays blocks p
      → (plan_buffer_line parts target pl_data p).0 ≡ false
      → Stays blocks (plan_buffer_line parts target pl_data p).1
  unfolding plan_buffer_line
  empty-Stays target pl_data blocks p s h = ground arith

  spindle-plan : (m : Machine) → (spindle_set_state cw m).plan ≡ m.plan
  unfolding spindle_set_state
  spindle-plan m = ground arith

  sync-Stays :
      (blocks : List (PlanBlock F)) (p : Plotter F)
      → Stays blocks p
      → Ends (Stays blocks) (spindle_sync parts cw p)
  unfolding spindle_sync protocol_buffer_synchronize
  sync-Stays blocks p s =
      Ends-if (Stays blocks) (is_check_mode p.machine.state) _ _ (λ check. s)
        (λ run.
          Ends-bind (Stays blocks) (Stays blocks) (protocol_buffer_synchronize parts p) _
            (wait-Stays parts blocks (λ q. has_block q.machine || is_cycle q.machine.state)
              (suc (length p.rounds)) (on_machine protocol_auto_cycle_start p)
              (auto_start-Stays parts blocks p s))
            (λ q (v, e). (rw (spindle-plan q.machine) v, e)))

  queue-Queues :
      (target : Vector F) (pl_data : PlanData F) (blocks : List (PlanBlock F)) (p : Plotter F)
      → Stays blocks p
      → plan_check_full_buffer p.machine.plan ≡ false
      → Ends (Queues target pl_data blocks) (queue_line parts target pl_data p)
  unfolding queue_line
  queue-Queues target pl_data blocks p s room =
      let r = plan_buffer_line parts target pl_data p in
      Ends-if (Queues target pl_data blocks)
        (not r.0 && (parts.settings.flags.laser_mode && is_cw pl_data.spindle)) _ _
        (λ laser.
          Ends-weaken (Stays blocks) (Queues target pl_data blocks) (spindle_sync parts cw r.1)
            (λ q (v, e). (v, inl e))
            (sync-Stays blocks r.1 (empty-Stays target pl_data blocks p s (not_first r.0 _ laser))))
        (λ plain. pushed-Queues target pl_data blocks p s room)

  room-Queues :
      (target : Vector F) (pl_data : PlanData F) (blocks : List (PlanBlock F)) (p : Plotter F)
      → Stays blocks p
      → Ends (Queues target pl_data blocks) (line_room parts target pl_data p)
  unfolding line_room
  room-Queues target pl_data blocks p s =
      Ends-bind (Roomy blocks) (Queues target pl_data blocks) _ _
        (room-Roomy blocks (suc (length p.rounds)) p s)
        (λ p₁ ((v, q), room).
          Ends-if (Queues target pl_data blocks) p₁.machine.abort _ _ (λ aborted. (v, inl q))
            (λ runs. queue-Queues target pl_data blocks p₁ (v, q) (ground arith)))

  check_line-Stays :
      (target : Vector F) (p : Plotter F)
      → IsRing p.machine.plan
      → Ends (Stays p.queued) (line_check parts target p)
  unfolding line_check
  check_line-Stays target p v =
      Ends-if (Stays p.queued)
        (parts.settings.flags.soft_limit_enable && not (is_jog p.machine.state)) _ (some p)
        (λ on. check-Stays parts p.queued target p (v, refl)) (λ off. (v, refl))

  pub mc_line-Ends :
      (target : Vector F) (pl_data : PlanData F) (p : Plotter F)
      → IsRing p.machine.plan
      → Ends (Queues target pl_data p.queued) (mc_line parts target pl_data p)
  unfolding mc_line
  mc_line-Ends target pl_data p v =
      Ends-bind (Stays p.queued) (Queues target pl_data p.queued) (line_check parts target p) _
        (check_line-Stays target p v)
        (λ p₁ (v₁, q₁).
          Ends-if (Queues target pl_data p.queued) (is_check_mode p₁.machine.state) _ _
            (λ check. (v₁, inl q₁)) (λ run. room-Queues target pl_data p.queued p₁ (v₁, q₁)))

  -- From a ring with its four indices in the buffer and the next head after the head, whatever comes
  -- while `mc_line` waits: when it returns the ring is such a ring, and nothing was queued or one block,
  -- which is for the target and the data given, has some steps, and has not overrun the tail.
  pub mc_line-Queues :
      (target : Vector F) (pl_data : PlanData F) (p p' : Plotter F)
      → IsRing p.machine.plan
      → mc_line parts target pl_data p ≡ some p'
      → Queues target pl_data p.queued p'
  mc_line-Queues target pl_data p p' v e =
      Ends-of (Queues target pl_data p.queued) (mc_line parts target pl_data p) p'
        (mc_line-Ends target pl_data p v) e
