-- ===== src/Motions/Rounds.antt =====
-- What the real-time code, the waits and the soft check do to the planner's ring and to the blocks queued.
use mathlib.Core.Path.{subst}
use uno_pen_plotter.Prelude.{
  ℕ, zero, suc, ◌≡◌, inl, inr, refl, Bool, true, false, not, ◌||◌, Option, none, some, List, [],
  ◌∷◌, arith, Option-cases, if◌then◌else◌, length,
}
use uno_pen_plotter.System.{Machine, any_suspend}
use uno_pen_plotter.System.Flags.{system_set_exec_state_flag, system_set_exec_alarm}
use uno_pen_plotter.System.Exec
use uno_pen_plotter.Outputs.{mc_reset}
use uno_pen_plotter.Planner.{Indices, plan_discard_current_block}
use uno_pen_plotter.Planner.Counts.{IsRing, discard-IsRing}
use uno_pen_plotter.Protocol.Realtime.{alarm_soft_limit}
use uno_pen_plotter.Protocol.Suspend.{Pass, Progress, rt_pass, protocol_exec_rt_suspend}
use uno_pen_plotter.Gcode.{Vector}
use uno_pen_plotter.Motions.{Round, Parts, PlanBlock, Plotter, ◌>>=◌, on_machine}
use uno_pen_plotter.Motions.Waits.{
  discard_blocks, suspend_if, realtime_round, next_round, protocol_execute_realtime,
  protocol_auto_cycle_start, wait_while, is_cycle, is_idle,
}
use uno_pen_plotter.Motions.Limits.{system_check_travel_limits, kill_soft, limits_soft_check}
use uno_pen_plotter.Motions.Plans.{pass-Planned}
use uno_pen_plotter.Motions.SuspendPlans.{Kept, suspend-Kept}

discard_blocks-IsRing : (n : ℕ) (plan : Indices) → IsRing plan → IsRing (discard_blocks n plan)
unfolding discard_blocks
discard_blocks-IsRing zero plan v = v
discard_blocks-IsRing (suc n) plan v =
    discard_blocks-IsRing n (plan_discard_current_block plan) (discard-IsRing plan v)

-- A property of a result that is there.
abbrev pub Ends : {A : Type 0} → (A → Type 0) → Option A → Type 0
Ends P none = Unit
Ends P (some a) = P a

pub Ends-bind :
    {A B : Type 0}
    → (P : A → Type 0) (Q : B → Type 0) (x : Option A) (f : A → Option B) → Ends P x
    → ((a : A) → P a → Ends Q (f a))
    → Ends Q (x >>= f)
Ends-bind P Q none f h k = tt
Ends-bind P Q (some a) f h k = k a h

pub Ends-if :
    {A : Type 0}
    → (P : A → Type 0) (b : Bool) (x y : Option A) → (b ≡ true → Ends P x)
    → (b ≡ false → Ends P y)
    → Ends P (if b then x else y)
Ends-if P true x y h k = h refl
Ends-if P false x y h k = k refl

pub Ends-of : {A : Type 0} → (P : A → Type 0) (x : Option A) (a : A) → Ends P x → x ≡ some a → P a
Ends-of P x a h e = subst (Ends P) e h

pub Ends-weaken :
    {A : Type 0} → (P Q : A → Type 0) (x : Option A) → ((a : A) → P a → Q a) → Ends P x → Ends Q x
Ends-weaken P Q none f h = tt
Ends-weaken P Q (some a) f h = f a h

abbrev pub Good : Machine → Type 0
Good m = IsRing m.plan

pass-Good : (q : Pass) (m : Machine) → Good m → Ends Good (rt_pass q m)
pass-Good q m v = elim (Option-cases (rt_pass q m)) [
  | inl stuck ↦ rw stuck tt
  | inr (m₁, e₁) ↦ rw e₁ (pass-Planned q m m₁ e₁ v)
]

Kept-Good :
    (m : Machine) (x : Progress)
    → Good m
    → Kept m x
    → Ends (λ (r : List Pass × Machine). Good r.1) x
Kept-Good m none v k = tt
Kept-Good m (some r) v k = k v

reset-plan : (m : Machine) → (mc_reset m).plan ≡ m.plan
unfolding mc_reset
reset-plan m = ground arith

-- The ring is valid, and these blocks have been queued.
abbrev pub Stays : {F : Type 0} → List (PlanBlock F) → Plotter F → Type 0
Stays blocks p = IsRing p.machine.plan × (p.queued ≡ blocks)

module _ {F : Type 0} (parts : Parts F) where
  suspend-Good : (ps : List Pass) (m : Machine) → Good m → Ends Good (suspend_if parts ps m)
  suspend-Good ps m v =
      Ends-if Good (any_suspend m.suspend) _ _
        (λ on.
          let x =
            protocol_exec_rt_suspend parts.settings.flags.laser_mode parts.block_spindle ps m in
          Ends-bind (λ (r : List Pass × Machine). Good r.1) Good x _
            (Kept-Good m x v
              (suspend-Kept parts.settings.flags.laser_mode parts.block_spindle ps m))
            (λ r w. w))
        (λ off. v)

  round-Good : (round : Round) (m : Machine) → Good m → Ends Good (realtime_round parts round m)
  unfolding realtime_round
  round-Good round m v =
      Ends-bind Good Good (rt_pass round.pass m) _ (pass-Good round.pass m v) (λ m₁ v₁.
        Ends-bind Good Good (suspend_if parts round.suspended m₁) _
          (suspend-Good round.suspended m₁ v₁)
          (λ m₂ v₂. discard_blocks-IsRing round.discarded m₂.plan v₂))

  rounds-Stays :
      (blocks : List (PlanBlock F)) (rounds : List Round) (p : Plotter F)
      → Stays blocks p
      → Ends (Stays blocks) (next_round parts rounds p)
  rounds-Stays blocks [] p s = tt
  rounds-Stays blocks (round ∷ rounds) p (v, q) =
      Ends-bind Good (Stays blocks) (realtime_round parts round p.machine) _
        (round-Good round p.machine v) (λ m₁ v₁. (v₁, q))

  pub realtime-Stays :
      (blocks : List (PlanBlock F)) (p : Plotter F)
      → Stays blocks p
      → Ends (Stays blocks) (protocol_execute_realtime parts p)
  unfolding protocol_execute_realtime
  realtime-Stays blocks p s = rounds-Stays blocks p.rounds p s

  pub wait-Stays :
      (blocks : List (PlanBlock F)) (test : Plotter F → Bool) (fuel : ℕ) (p : Plotter F)
      → Stays blocks p
      → Ends (Stays blocks) (wait_while parts test fuel p)
  unfolding wait_while
  wait-Stays blocks test zero p s = tt
  wait-Stays blocks test (suc fuel) p s =
      Ends-bind (Stays blocks) (Stays blocks) (protocol_execute_realtime parts p) _
        (realtime-Stays blocks p s)
        (λ p₁ s₁.
          Ends-if (Stays blocks) (p₁.machine.abort || not (test p₁)) _ _ (λ stop. s₁)
            (λ go. wait-Stays blocks test fuel p₁ s₁))

  pub auto_start-plan : (m : Machine) → (protocol_auto_cycle_start m).plan ≡ m.plan
  unfolding protocol_auto_cycle_start
  auto_start-plan m = ground arith

  pub auto_start-Stays :
      (blocks : List (PlanBlock F)) (p : Plotter F)
      → Stays blocks p
      → Stays blocks (on_machine protocol_auto_cycle_start p)
  auto_start-Stays blocks p (v, q) = (rw (auto_start-plan p.machine) v, q)

  pub kill-Stays :
      (blocks : List (PlanBlock F)) (p : Plotter F)
      → Stays blocks p
      → Ends (Stays blocks) (kill_soft parts p)
  unfolding kill_soft
  kill-Stays blocks p (v, q) =
      realtime-Stays blocks
        (on_machine (λ m. system_set_exec_alarm alarm_soft_limit (mc_reset m)) p)
        (rw (reset-plan p.machine) v, q)

  pub check-Stays :
      (blocks : List (PlanBlock F)) (target : Vector F) (p : Plotter F)
      → Stays blocks p
      → Ends (Stays blocks) (limits_soft_check parts target p)
  unfolding limits_soft_check
  check-Stays blocks target p s =
      Ends-if (Stays blocks) (system_check_travel_limits parts target) _ _
        (λ out.
          Ends-if (Stays blocks) (is_cycle p.machine.state) _ _
            (λ cycle.
              Ends-bind (Stays blocks) (Stays blocks) _ _
                (wait-Stays blocks (λ q. not (is_idle q.machine.state)) (suc (length p.rounds))
                  (on_machine (system_set_exec_state_flag Exec.feed_hold) marked) s)
                (λ q t.
                  Ends-if (Stays blocks) q.machine.abort _ _ (λ a. t) (λ a. kill-Stays blocks q t)))
            (λ still. kill-Stays blocks marked s))
        (λ inside. s)
    where
      marked : Plotter F
      marked = on_machine (λ m. record m { soft_limit = true }) p
