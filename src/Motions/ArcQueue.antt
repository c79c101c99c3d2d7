-- ===== src/Motions/ArcQueue.antt =====
-- How many blocks `mc_arc` queues, and what it does to the planner's ring.
use uno_pen_plotter.Prelude.{
  ℕ, zero, suc, ◌+◌, ◌-◌, ◌≤◌, ◌≡◌, inl, inr, refl, some, List, [], ◌∷◌, ◌++◌, arith, ◌==◌,
  if◌then◌else◌, length, ◌∙◌, ap,
}
use uno_pen_plotter.Planner.Counts.{IsRing}
use uno_pen_plotter.Gcode.{Vector, PlanData}
use uno_pen_plotter.Motions.{Parts, PlanBlock, Plotter}
use uno_pen_plotter.Motions.Lines.{mc_line}
use uno_pen_plotter.Motions.Arcs.{
  Arc, Radius, Segments, rotate, arc_position, angular_travel, arc_segments, segment_data,
  last_line, arc_loop, arc_lines, mc_arc,
}
use uno_pen_plotter.Motions.Rounds.{Ends, Ends-bind, Ends-if, Ends-of, Ends-weaken}
use uno_pen_plotter.Motions.Queue.{Queues, mc_line-Ends}

-- The ring is valid, and at most `n` blocks have been queued after these.
abbrev pub Extends : {F : Type 0} → ℕ → List (PlanBlock F) → Plotter F → Type 0
Extends {F} n blocks p =
    IsRing p.machine.plan
    × ((more : List (PlanBlock F)) × (p.queued ≡ more ++ blocks) × (length more ≤ n))

module _ {F : Type 0} (parts : Parts F) where
  queued-Extends :
      (target : Vector F) (pl_data : PlanData F) (n total : ℕ) (blocks : List (PlanBlock F))
      (p p' : Plotter F)
      → suc n ≤ total
      → Extends n blocks p
      → Queues target pl_data p.queued p'
      → Extends total blocks p'
  queued-Extends target pl_data n total blocks p p' l (v, (more, q, k)) (v', inl same) =
      (v', (more, same ∙ q, omega arith))
  queued-Extends target pl_data n total blocks p p' l (v, (more, q, k))
        (v', inr (block, e, _, _, _, _)) =
      (v', (block ∷ more, e ∙ ap (λ left. block ∷ left) q, ground arith))

  line-Extends :
      (target : Vector F) (pl_data : PlanData F) (n total : ℕ) (blocks : List (PlanBlock F))
      (p : Plotter F)
      → suc n ≤ total
      → Extends n blocks p
      → Ends (Extends total blocks) (mc_line parts target pl_data p)
  line-Extends target pl_data n total blocks p l x =
      Ends-weaken (Queues target pl_data p.queued) (Extends total blocks)
        (mc_line parts target pl_data p)
        (λ p'. queued-Extends target pl_data n total blocks p p' l x)
        (mc_line-Ends parts target pl_data p x.0)

  -- For the position and the plotter.
  abbrev Result : ℕ → List (PlanBlock F) → Vector F × Plotter F → Type 0
  Result n blocks r = Extends n blocks r.1

  last-Extends :
      (arc : Arc F) (pl_data : PlanData F) (n total : ℕ) (blocks : List (PlanBlock F))
      (position : Vector F) (p : Plotter F)
      → suc n ≤ total
      → Extends n blocks p
      → Ends (Result total blocks) (last_line parts arc pl_data position p)
  last-Extends arc pl_data n total blocks position p l x =
      Ends-bind (Extends total blocks) (Result total blocks) (mc_line parts arc.target pl_data p) _
        (line-Extends arc.target pl_data n total blocks p l x) (λ p' x'. x')

  loop-Extends :
      (arc : Arc F) (s : Segments F) (pl_data : PlanData F) (left i n total : ℕ)
      (blocks : List (PlanBlock F)) (r : Radius F) (position : Vector F) (p : Plotter F)
      → n + left + 1 ≤ total
      → Extends n blocks p
      → Ends (Result total blocks) (arc_loop parts arc s pl_data left i r position p)
  unfolding arc_loop
  loop-Extends arc s pl_data zero i n total blocks r position p l x =
      last-Extends arc pl_data n total blocks position p (omega arith) x
  loop-Extends arc s pl_data (suc left) i n total blocks r position p l x =
      let r' = rotate parts arc s.theta_per_segment i r in
      let position' = arc_position parts arc s r' position in
      Ends-bind (Extends (suc n) blocks) (Result total blocks) (mc_line parts position' pl_data p) _
        (line-Extends position' pl_data n (suc n) blocks p (omega arith) x)
        (λ p' x'.
          Ends-if (Result total blocks) p'.machine.abort (some (position', p')) _
            (λ aborted. fewer (suc n) total blocks p' (omega arith) x')
            (λ runs.
              loop-Extends arc s pl_data left (i + 1) (suc n) total blocks r' position' p'
                (omega arith) x'))
    where
      fewer :
          (n total : ℕ) (blocks : List (PlanBlock F)) (p : Plotter F)
          → n ≤ total
          → Extends n blocks p
          → Extends total blocks p
      fewer n total blocks p l (v, (more, q, k)) = (v, (more, q, omega arith))

  -- The lines of an arc of so many segments.
  abbrev pub line_count : ℕ → ℕ
  line_count segments = if segments == 0 then 1 else segments

  -- From a ring with its four indices in the buffer and the next head after the head: when `mc_arc`
  -- returns the ring is such a ring, and at most as many blocks have been queued as the arc has
  -- segments, or one for an arc of none, in front of those that were there.
  pub mc_arc-Extends :
      (arc : Arc F) (pl_data : PlanData F) (position position' : Vector F) (p p' : Plotter F)
      → IsRing p.machine.plan
      → mc_arc parts arc pl_data position p ≡ some (position', p')
      → Extends
          (line_count (arc_segments parts arc (angular_travel parts arc position)))
          p.queued
          p'
  unfolding mc_arc arc_lines
  mc_arc-Extends arc pl_data position position' p p' v e =
      let segments = arc_segments parts arc (angular_travel parts arc position) in
      Ends-of (Result (line_count segments) p.queued) (mc_arc parts arc pl_data position p)
        (position', p')
        (Ends-if (Result (line_count segments) p.queued) (segments == 0) _ _
          (λ none.
            last-Extends arc pl_data 0 _ p.queued position p (ground arith)
              (v, ([], refl, omega arith)))
          (λ some_segments.
            loop-Extends arc _ (segment_data parts segments pl_data) (segments - 1) 1 0 _ p.queued _
              position p (ground arith) (v, ([], refl, omega arith))))
        e
