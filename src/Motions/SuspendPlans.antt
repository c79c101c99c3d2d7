-- ===== src/Motions/SuspendPlans.antt =====
-- The planner's ring through `protocol_exec_rt_suspend` (grbl/protocol.c).
use uno_pen_plotter.Prelude.{
  ℕ, zero, suc, ◌≡◌, inl, inr, Bool, true, false, not, ◌||◌, none, some, List, [], ◌∷◌, arith,
  Option-cases, if◌then◌else◌, length,
}
use uno_pen_plotter.System.{Machine, Spindle, any_suspend}
use uno_pen_plotter.Outputs.{spindle_set_state, coolant_set_state}
use uno_pen_plotter.Protocol.Hold.{is_sleep, is_safety_door}
use uno_pen_plotter.Protocol.Suspend.{
  is_disable, ◌>>=◌, Pass, Restore, Progress, rt_pass, delay_steps, retract, restore_spindle,
  restore_coolant, restored, restore, hold_manager, sleep_until_abort, fall_asleep, door_closed,
  resume, suspend_round, sleeps, next_pass, suspend_loop, protocol_exec_rt_suspend,
  restore_condition, spindle_delay, coolant_delay,
}
use uno_pen_plotter.Motions.Plans.{Planned, Planned-of, Planned-trans, pass-Planned}

-- A result that is there has a valid ring if the machine before had.
abbrev pub Kept : Machine → Progress → Type 0
Kept m none = Unit
Kept m (some r) = Planned m r.1

Kept-if :
    (m : Machine) (b : Bool) (x y : Progress) → Kept m x → Kept m y → Kept m (if b then x else y)
Kept-if m true x y h k = h
Kept-if m false x y h k = k

Kept-trans : (m m' : Machine) (x : Progress) → Planned m m' → Kept m' x → Kept m x
Kept-trans m m' none h k = tt
Kept-trans m m' (some r) h k = Planned-trans m m' r.1 h k

Kept-bind :
    (m : Machine) (x : Progress) (f : List Pass × Machine → Progress)
    → Kept m x
    → ((r : List Pass × Machine) → Kept r.1 (f r))
    → Kept m (x >>= f)
Kept-bind m none f h k = tt
Kept-bind m (some r) f h k = Kept-trans m r.1 (f r) h (k r)

Kept-pass :
    (q : Pass) (m : Machine) (f : Machine → Progress)
    → ((m' : Machine) → Kept m' (f m'))
    → Kept m (rt_pass q m >>= f)
Kept-pass q m f k = elim (Option-cases (rt_pass q m)) [
  | inl stuck ↦ rw stuck tt
  | inr (m₁, e₁) ↦ rw e₁ (Kept-trans m m₁ (f m₁) (pass-Planned q m m₁ e₁) (k m₁))
]

same : (m : Machine) (ps : List Pass) → Kept m (some (ps, m))
same m ps v = v

delay-Kept : (n : ℕ) (ps : List Pass) (m : Machine) → Kept m (delay_steps n ps m)
unfolding delay_steps
delay-Kept zero ps m = same m ps
delay-Kept (suc n) [] m = Kept-if m m.abort (some ([], m)) none (same m []) tt
delay-Kept (suc n) (p ∷ ps) m =
    Kept-if m m.abort (some (p ∷ ps, m)) (rt_pass p m >>= next) (same m (p ∷ ps)) (
      Kept-pass p m next (λ m'.
        Kept-if m' m'.suspend.restart_retract (some (ps, m')) (delay_steps n ps m') (same m' ps)
          (delay-Kept n ps m')))
  where
    next : Machine → Progress
    next m' = if m'.suspend.restart_retract then some (ps, m') else delay_steps n ps m'

asleep-Kept : (ps : List Pass) (m : Machine) → Kept m (sleep_until_abort ps m)
unfolding sleep_until_abort
asleep-Kept [] m = Kept-if m m.abort (some ([], m)) none (same m []) tt
asleep-Kept (p ∷ ps) m =
    Kept-if m m.abort (some (p ∷ ps, m)) (rt_pass p m >>= sleep_until_abort ps) (same m (p ∷ ps))
      (Kept-pass p m (sleep_until_abort ps) (asleep-Kept ps))

spindle-plan : (r : Spindle) (m : Machine) → (spindle_set_state r m).plan ≡ m.plan
unfolding spindle_set_state
spindle-plan r m = ground arith

coolant-plan : (b : Bool) (m : Machine) → (coolant_set_state b m).plan ≡ m.plan
unfolding coolant_set_state
coolant-plan b m = ground arith

retract-plan : (m : Machine) → (retract m).plan ≡ m.plan
unfolding retract spindle_set_state coolant_set_state
retract-plan m = ground arith

asleep-plan : (m : Machine) → (fall_asleep m).plan ≡ m.plan
unfolding spindle_set_state coolant_set_state
asleep-plan m = ground arith

manager-plan : (laser : Bool) (r : Restore) (m : Machine) → (hold_manager laser r m).plan ≡ m.plan
unfolding hold_manager spindle_set_state
manager-plan laser r m = ground arith

restored-plan : (m : Machine) → (restored m).plan ≡ m.plan
unfolding restored
restored-plan m = ground arith

door-plan : (m : Machine) → (door_closed m).plan ≡ m.plan
unfolding door_closed
door-plan m = ground arith

restore_spindle-Kept :
    (laser : Bool) (r : Restore) (ps : List Pass) (m : Machine)
    → Kept m (restore_spindle laser r ps m)
unfolding restore_spindle
restore_spindle-Kept laser r ps m =
    let m' = spindle_set_state r.spindle m in
    Kept-if m (is_disable m.modal_spindle || m.suspend.restart_retract) (some (ps, m)) _ (same m ps)
      (Kept-if m laser _ (delay_steps spindle_delay ps m') (λ v. v)
        (Kept-trans m m' (delay_steps spindle_delay ps m')
          (Planned-of m m' (spindle-plan r.spindle m)) (delay-Kept spindle_delay ps m')))

restore_coolant-Kept :
    (r : Restore) (ps : List Pass) (m : Machine) → Kept m (restore_coolant r ps m)
unfolding restore_coolant
restore_coolant-Kept r ps m =
    let m' = coolant_set_state r.flood m in
    Kept-if m (not m.modal_coolant || m.suspend.restart_retract) (some (ps, m)) _ (same m ps) (
      Kept-trans m m' (delay_steps coolant_delay ps m') (Planned-of m m' (coolant-plan r.flood m))
        (delay-Kept coolant_delay ps m'))

restore-Kept :
    (laser : Bool) (r : Restore) (ps : List Pass) (m : Machine) → Kept m (restore laser r ps m)
unfolding restore
restore-Kept laser r ps m =
    Kept-bind m (restore_spindle laser r ps m) _ (restore_spindle-Kept laser r ps m) (λ (ps₁, m₁).
      Kept-bind m₁ (restore_coolant r ps₁ m₁) _ (restore_coolant-Kept r ps₁ m₁)
        (λ (ps₂, m₂). Planned-of m₂ (restored m₂) (restored-plan m₂)))

resume-Kept :
    (laser : Bool) (r : Restore) (ps : List Pass) (m : Machine) → Kept m (resume laser r ps m)
unfolding resume
resume-Kept laser r ps m =
    Kept-trans m (door_closed m) _ (Planned-of m (door_closed m) (door-plan m)) (
      Kept-if (door_closed m) (door_closed m).suspend.initiate_restore _ _
        (restore-Kept laser r ps (door_closed m)) (same (door_closed m) ps))

round-Kept :
    (laser : Bool) (r : Restore) (ps : List Pass) (m : Machine)
    → Kept m (suspend_round laser r ps m)
unfolding suspend_round
round-Kept laser r ps m = Kept-if m (not m.suspend.hold_complete) (some (ps, m)) _ (same m ps) (
    Kept-if m (is_safety_door m.state || is_sleep m.state) _ (some (ps, hold_manager laser r m))
      (Kept-if m m.suspend.retract_complete (resume laser r ps m) (some (ps, retract m))
        (resume-Kept laser r ps m) (Planned-of m (retract m) (retract-plan m)))
      (Planned-of m (hold_manager laser r m) (manager-plan laser r m)))

next-Kept :
    (again : List Pass → Machine → Progress)
    → ((ps : List Pass) (m : Machine) → Kept m (again ps m))
    → (ps : List Pass) (m : Machine) → Kept m (next_pass again ps m)
next-Kept again k [] m = tt
next-Kept again k (p ∷ ps) m = Kept-pass p m (again ps) (k ps)

loop-Kept :
    (fuel : ℕ) (laser : Bool) (r : Restore) (ps : List Pass) (m : Machine)
    → Kept m (suspend_loop fuel laser r ps m)
unfolding suspend_loop
loop-Kept zero laser r ps m = tt
loop-Kept (suc fuel) laser r ps m =
    Kept-if m (not (any_suspend m.suspend) || m.abort) _ _ (same m ps) (
      Kept-if m (sleeps m) _ _
        (Kept-trans m (fall_asleep m) _ (Planned-of m (fall_asleep m) (asleep-plan m))
          (asleep-Kept ps (fall_asleep m)))
        (Kept-bind m (suspend_round laser r ps m) _ (round-Kept laser r ps m)
          (λ (ps₁, m₁). next-Kept _ (loop-Kept fuel laser r) ps₁ m₁)))

pub suspend-Kept :
    (laser : Bool) (block_spindle : ℕ → Spindle) (ps : List Pass) (m : Machine)
    → Kept m (protocol_exec_rt_suspend laser block_spindle ps m)
unfolding protocol_exec_rt_suspend
suspend-Kept laser block_spindle ps m =
    loop-Kept (suc (length ps)) laser (restore_condition block_spindle m) ps m
