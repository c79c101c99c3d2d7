-- ===== src/Motions/Waits.antt =====
-- `protocol_execute_realtime`, `protocol_auto_cycle_start` and `protocol_buffer_synchronize`
-- (grbl/protocol.c).
use uno_pen_plotter.Prelude.{
  ℕ, zero, suc, Bool, true, false, not, ◌||◌, Option, none, some, List, [], ◌∷◌, if◌then◌else◌,
  length,
}
use uno_pen_plotter.System.{Machine, State, any_suspend}
use uno_pen_plotter.System.Flags.{system_set_exec_state_flag}
use uno_pen_plotter.System.Exec
use uno_pen_plotter.Planner.{Indices, plan_get_current_block, plan_discard_current_block}
use uno_pen_plotter.Protocol.Suspend.{Pass, rt_pass, protocol_exec_rt_suspend}
use uno_pen_plotter.Motions.{Round, Parts, Plotter, ◌>>=◌, on_machine}

-- The blocks that the steppers have taken.
unfoldable pub discard_blocks : ℕ → Indices → Indices
discard_blocks zero plan = plan
discard_blocks (suc n) plan = discard_blocks n (plan_discard_current_block plan)

abbrev pub suspend_if : {F : Type 0} → Parts F → List Pass → Machine → Option Machine
suspend_if parts ps m =
    if any_suspend m.suspend
    then (protocol_exec_rt_suspend parts.settings.flags.laser_mode parts.block_spindle ps m
        >>= λ (left : List Pass × Machine). some left.1)
    else some m

-- One call, with what happens meanwhile.
unfoldable pub realtime_round : {F : Type 0} → Parts F → Round → Machine → Option Machine
unfolding discard_blocks
realtime_round parts round m = rt_pass round.pass m >>= λ m₁.
    suspend_if parts round.suspended m₁ >>= λ m₂.
    some (record m₂ { plan = discard_blocks round.discarded m₂.plan })

abbrev pub next_round : {F : Type 0} → Parts F → List Round → Plotter F → Option (Plotter F)
next_round parts [] p = none
next_round parts (round ∷ rounds) p = realtime_round parts round p.machine >>= λ m. some (record p {
  machine = m;
  rounds = rounds;
  position = elim round.synced [ none ↦ p.position | some steps ↦ steps ];
  probe_active = if round.probed then false else p.probe_active;
})

unfoldable pub protocol_execute_realtime : {F : Type 0} → Parts F → Plotter F → Option (Plotter F)
unfolding realtime_round
protocol_execute_realtime parts p = next_round parts p.rounds p

abbrev pub has_block : Machine → Bool
has_block m = elim (plan_get_current_block m.plan) [ none ↦ false | some _ ↦ true ]

unfoldable pub protocol_auto_cycle_start : Machine → Machine
protocol_auto_cycle_start m =
    if has_block m then system_set_exec_state_flag Exec.cycle_start m else m

abbrev pub is_cycle : State → Bool
is_cycle State.cycle = true
is_cycle _ = false

abbrev pub is_idle : State → Bool
is_idle State.idle = true
is_idle _ = false

-- do { protocol_execute_realtime(); if (sys.abort) { return; } } while (test); Each turn uses a round,
-- so that their number and one is fuel enough.
unfoldable pub wait_while :
    {F : Type 0} → Parts F → (Plotter F → Bool) → ℕ → Plotter F → Option (Plotter F)
wait_while parts test zero p = none
wait_while parts test (suc fuel) p = protocol_execute_realtime parts p >>= λ p'.
    let rest = wait_while parts test fuel p' in
    if p'.machine.abort || not (test p') then some p' else rest

abbrev pub wait : {F : Type 0} → Parts F → (Plotter F → Bool) → Plotter F → Option (Plotter F)
wait parts test p = wait_while parts test (suc (length p.rounds)) p

unfoldable pub protocol_buffer_synchronize : {F : Type 0} → Parts F → Plotter F → Option (Plotter F)
unfolding wait_while
protocol_buffer_synchronize parts p =
    wait parts (λ q. has_block q.machine || is_cycle q.machine.state)
      (on_machine protocol_auto_cycle_start p)
