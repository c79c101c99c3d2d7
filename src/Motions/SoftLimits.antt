-- ===== src/Motions/SoftLimits.antt =====
-- A line that leaves the travel limits: `mc_line` with its soft check.
use uno_pen_plotter.Prelude.{
  ℕ, zero, suc, ◌≡◌, inl, inr, Bool, true, false, some, List, [], ◌∷◌, arith, Option-cases, not,
  length,
}
use uno_pen_plotter.System.Flags.{system_set_exec_state_flag, system_set_exec_alarm}
use uno_pen_plotter.System.Exec
use uno_pen_plotter.Outputs.{mc_reset}
use uno_pen_plotter.Protocol.Realtime.{interrupt, alarm_soft_limit}
use uno_pen_plotter.Protocol.Critical.{reset_pending}
use uno_pen_plotter.Gcode.{Vector, PlanData}
use uno_pen_plotter.Motions.{Round, Parts, Plotter, on_machine}
use uno_pen_plotter.Motions.Waits.{
  realtime_round, next_round, protocol_execute_realtime, wait_while, wait, is_idle,
}
use uno_pen_plotter.Motions.Limits.{system_check_travel_limits, kill_soft, limits_soft_check}
use uno_pen_plotter.Motions.Lines.{wait_room, line_check, line_room, mc_line, is_jog}
use uno_pen_plotter.Motions.Aborts.{realtime-aborted}

module _ {F : Type 0} (parts : Parts F) where
  rounds-queued :
      (rounds : List Round) (p p' : Plotter F)
      → next_round parts rounds p ≡ some p'
      → p'.queued ≡ p.queued
  rounds-queued [] p p' e = ground arith
  rounds-queued (round ∷ rounds) p p' e =
      elim (Option-cases (realtime_round parts round p.machine)) [
        | inl stuck ↦ ground arith
        | inr (m₁, e₁) ↦ ground arith
      ]

  realtime-queued :
      (p p' : Plotter F) → protocol_execute_realtime parts p ≡ some p' → p'.queued ≡ p.queued
  unfolding protocol_execute_realtime
  realtime-queued p p' e = rounds-queued p.rounds p p' e

  pub wait-queued :
      (test : Plotter F → Bool) (fuel : ℕ) (p p' : Plotter F)
      → wait_while parts test fuel p ≡ some p'
      → p'.queued ≡ p.queued
  unfolding wait_while
  wait-queued test zero p p' e = ground arith
  wait-queued test (suc fuel) p p' e = elim (Option-cases (protocol_execute_realtime parts p)) [
    | inl stuck ↦ ground arith
    | inr (p₁, e₁) ↦ ground (arith, realtime-queued p p₁ e₁, wait-queued test fuel p₁ p')
  ]

  kill-Stops :
      (p p' : Plotter F)
      → kill_soft parts p ≡ some p'
      → (p'.machine.abort ≡ true) × (p'.queued ≡ p.queued)
  unfolding kill_soft interrupt
  kill-Stops p p' e =
      realtime-aborted parts
        (on_machine (λ m. system_set_exec_alarm alarm_soft_limit (mc_reset m)) p) p'
        (inl (reset_pending p.machine)) e

  abbrev held : Plotter F → Plotter F
  held p =
      on_machine (system_set_exec_state_flag Exec.feed_hold)
        (on_machine (λ m. record m { soft_limit = true }) p)

  check-Stops :
      (target : Vector F) (p p' : Plotter F)
      → system_check_travel_limits parts target ≡ true
      → limits_soft_check parts target p ≡ some p'
      → (p'.machine.abort ≡ true) × (p'.queued ≡ p.queued)
  unfolding limits_soft_check
  check-Stops target p p' out e =
      elim (Option-cases (wait parts (λ q. not (is_idle q.machine.state)) (held p))) [
        | inl stuck ↦
            ground (arith, kill-Stops (on_machine (λ m. record m { soft_limit = true }) p) p')
        | inr (q, e₁) ↦ ground (
          arith,
          kill-Stops (on_machine (λ m. record m { soft_limit = true }) p) p',
          kill-Stops q p',
          wait-queued (λ q. not (is_idle q.machine.state)) (suc (length p.rounds)) (held p) q e₁,
        )
      ]

  room-Stops :
      (target : Vector F) (pl_data : PlanData F) (p p' : Plotter F)
      → p.machine.abort ≡ true
      → line_room parts target pl_data p ≡ some p'
      → (p'.machine.abort ≡ true) × (p'.queued ≡ p.queued)
  unfolding line_room wait_room
  room-Stops target pl_data p p' h e = elim (Option-cases (protocol_execute_realtime parts p)) [
    | inl stuck ↦ ground arith
    | inr (p₁, e₁) ↦ ground (arith, realtime-aborted parts p p₁ (inr h) e₁)
  ]

  -- With the soft limits on and no jog, if `mc_line` to a target outside the travel returns, then the
  -- system has aborted and nothing was queued, whatever came meanwhile.
  pub soft_limit_stops :
      (target : Vector F) (pl_data : PlanData F) (p p' : Plotter F)
      → parts.settings.flags.soft_limit_enable ≡ true
      → is_jog p.machine.state ≡ false
      → system_check_travel_limits parts target ≡ true
      → mc_line parts target pl_data p ≡ some p'
      → (p'.machine.abort ≡ true) × (p'.queued ≡ p.queued)
  unfolding mc_line line_check
  soft_limit_stops target pl_data p p' on no_jog out e =
      elim (Option-cases (limits_soft_check parts target p)) [
        | inl stuck ↦ ground arith
        | inr (p₁, e₁) ↦
            let (aborted, queued) = check-Stops target p p₁ out e₁ in
            ground (arith, room-Stops target pl_data p₁ p' aborted)
      ]
