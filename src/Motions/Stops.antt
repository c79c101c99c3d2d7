-- ===== src/Motions/Stops.antt =====
-- The stop of a line beyond the travel is reached.
use uno_pen_plotter.Prelude.{
  ◌≡◌, ◌≢◌, inl, inr, true, false, none, some, List, [], ◌∷◌, arith, Option-cases,
}
use uno_pen_plotter.System.{Machine}
use uno_pen_plotter.System.Flags.{system_set_exec_alarm}
use uno_pen_plotter.Outputs.{mc_reset}
use uno_pen_plotter.Protocol.Realtime.{interrupt, alarm_soft_limit}
use uno_pen_plotter.Protocol.Suspend.{Pass, arrive, rt_pass, protocol_exec_rt_suspend, suspend_loop}
use uno_pen_plotter.Protocol.Critical.{reset_pending, HasReset, rt_system_ends}
use uno_pen_plotter.Gcode.{Vector, PlanData}
use uno_pen_plotter.Motions.{Round, Parts, Plotter, on_machine}
use uno_pen_plotter.Motions.Waits.{
  realtime_round, next_round, protocol_execute_realtime, is_cycle, suspend_if,
}
use uno_pen_plotter.Motions.Limits.{system_check_travel_limits, kill_soft, limits_soft_check}
use uno_pen_plotter.Motions.Lines.{wait_room, line_check, line_room, mc_line, is_jog}
use uno_pen_plotter.Motions.Aborts.{IsStopped, pass-aborted, realtime-aborted}

module _ {F : Type 0} (parts : Parts F) where
  suspend-ends : (ps : List Pass) (m : Machine) → m.abort ≡ true → suspend_if parts ps m ≢ none
  unfolding protocol_exec_rt_suspend suspend_loop
  suspend-ends ps m h = ground arith

  round-ends :
      (round : Round) (m : Machine)
      → IsStopped m
      → HasReset round.pass.during
      → realtime_round parts round m ≢ none
  unfolding realtime_round rt_pass
  round-ends round m h r = elim (Option-cases (rt_pass round.pass m)) [
    | inl stuck ↦ ground (arith, rt_system_ends round.pass.during (arrive round.pass.before m) r)
    | inr (m₁, e₁) ↦
        ground (arith, suspend-ends round.suspended m₁ (pass-aborted round.pass m m₁ h e₁))
  ]

  -- A call on a stopped system returns if a reset is among the interrupts of its wait.
  realtime-ends :
      (round : Round) (rounds : List Round) (p : Plotter F)
      → IsStopped p.machine
      → HasReset round.pass.during
      → p.rounds ≡ round ∷ rounds
      → protocol_execute_realtime parts p ≢ none
  unfolding protocol_execute_realtime
  realtime-ends round rounds p h r e = rw e (ground (arith, round-ends round p.machine h r))

  next-left :
      (left : List Round) (round : Round) (rounds : List Round) (p p' : Plotter F)
      → left ≡ round ∷ rounds
      → next_round parts left p ≡ some p'
      → p'.rounds ≡ rounds
  next-left [] round rounds p p' e h = ground arith
  next-left (first ∷ left) round rounds p p' e h =
      elim (Option-cases (realtime_round parts first p.machine)) [
        | inl stuck ↦ ground arith
        | inr (m₁, e₁) ↦ ground arith
      ]

  realtime-left :
      (round : Round) (rounds : List Round) (p p' : Plotter F)
      → p.rounds ≡ round ∷ rounds
      → protocol_execute_realtime parts p ≡ some p'
      → p'.rounds ≡ rounds
  unfolding protocol_execute_realtime
  realtime-left round rounds p p' e h = next-left p.rounds round rounds p p' e h

  killed : Plotter F → Plotter F
  killed p =
      on_machine (λ m. system_set_exec_alarm alarm_soft_limit (mc_reset m))
        (on_machine (λ m. record m { soft_limit = true }) p)

  killed-IsStopped : (p : Plotter F) → IsStopped (killed p).machine
  unfolding killed interrupt
  killed-IsStopped p = inl (reset_pending (record (p.machine) { soft_limit = true }))

  room-ends :
      (target : Vector F) (pl_data : PlanData F) (round : Round) (rounds : List Round)
      (p : Plotter F)
      → p.machine.abort ≡ true
      → HasReset round.pass.during
      → p.rounds ≡ round ∷ rounds
      → line_room parts target pl_data p ≢ none
  unfolding line_room wait_room
  room-ends target pl_data round rounds p h r e =
      elim (Option-cases (protocol_execute_realtime parts p)) [
        | inl stuck ↦ absurd (realtime-ends round rounds p (inr h) r e stuck)
        | inr (p₁, e₁) ↦ ground (arith, realtime-aborted parts p p₁ (inr h) e₁)
      ]

  -- With the soft limits on, no jog and no cycle running, `mc_line` to a target outside the travel
  -- returns if a reset comes while its first call of the real-time code waits, and one in the second.
  pub soft_limit_ends :
      (target : Vector F) (pl_data : PlanData F) (first second : Round) (rounds : List Round)
      (p : Plotter F)
      → parts.settings.flags.soft_limit_enable ≡ true
      → is_jog p.machine.state ≡ false
      → is_cycle p.machine.state ≡ false
      → system_check_travel_limits parts target ≡ true
      → p.rounds ≡ first ∷ second ∷ rounds
      → HasReset first.pass.during
      → HasReset second.pass.during
      → mc_line parts target pl_data p ≢ none
  unfolding mc_line line_check limits_soft_check kill_soft killed
  soft_limit_ends target pl_data first second rounds p on no_jog no_cycle out e r₁ r₂ =
      elim (Option-cases (protocol_execute_realtime parts (killed p))) [
        | inl stuck ↦
            absurd
              (realtime-ends first (second ∷ rounds) (killed p) (killed-IsStopped p) r₁ e stuck)
        | inr (p₁, e₁) ↦
            let (aborted, _) = realtime-aborted parts (killed p) p₁ (killed-IsStopped p) e₁ in
            let left = realtime-left first (second ∷ rounds) (killed p) p₁ e e₁ in
            ground (arith, room-ends target pl_data second rounds p₁ aborted r₂ left)
      ]
