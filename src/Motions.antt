-- ===== src/Motions.antt =====
-- The motions of the main program (grbl/motion_control.c, grbl/limits.c, grbl/jog.c) down to the block
-- that the planner queues, and the waits that serve the real-time commands meanwhile.
pub mod Waits
pub mod Limits
pub mod Lines
pub mod Cycles
pub mod Arcs
pub mod Aborts
pub mod SoftLimits
pub mod Stops
pub mod LimitStops
pub mod Plans
pub mod SuspendPlans
pub mod Rounds
pub mod Queue
pub mod ArcQueue
pub mod Examples
use uno_pen_plotter.Prelude.{ℕ, Bool, List, ◌∷◌, Option, none, some}
use uno_pen_plotter.Prelude.Int.{ℤ}
use uno_pen_plotter.System.{Machine, Spindle}
use uno_pen_plotter.Settings.{Settings}
use uno_pen_plotter.Protocol.Suspend.{Pass}
use uno_pen_plotter.Gcode.{Float, Vector, PlanData}

-- What happens while `protocol_execute_realtime` runs once: the interrupts of its passes, and how many
-- blocks the preparation of the step segments gives back. `synced`: the steps of the machine's position,
-- where a pass calls `plan_sync_position`. `probed`: the stepper's probe monitor has seen a contact.
pub record Round : Type 0 where
  pub pass : Pass
  pub suspended : List Pass
  pub discarded : ℕ
  pub synced : Option (Vector ℤ)
  pub probed : Bool

-- The constants of a build and what the motions take from other code.
pub record Parts (F : Type 0) : Type 0 where
  pub float : Float F
  pub settings : Settings F
  pub lround : F → ℤ
  pub pi : F
  pub atan2 : F → F → F
  pub cos : F → F
  pub sin : F → F
  -- (uint16_t) floor(x)
  pub floor_uint16 : F → ℕ
  pub from_uint16 : ℕ → F
  -- the spindle bits of a block's condition
  pub block_spindle : ℕ → Spindle

-- What `plan_buffer_line` puts in a block, without the speeds and the directions.
pub record PlanBlock (F : Type 0) : Type 0 where
  pub target : Vector F
  pub pl_data : PlanData F
  pub steps : Vector ℕ
  pub step_event_count : ℕ

-- The machine, what is left of the rounds, `pl.position`, and every block queued, newest first.
-- `probe_active`: `sys_probe_state`.
pub record Plotter (F : Type 0) : Type 0 where
  pub machine : Machine
  pub rounds : List Round
  pub position : Vector ℤ
  pub queued : List (PlanBlock F)
  pub probe_active : Bool

-- A wait that outlasts the rounds gives `none`.
infixl 5 ◌>>=◌
abbrev pub ◌>>=◌ : {A B : Type 0} → Option A → (A → Option B) → Option B
none >>= f = none
some a >>= f = f a

abbrev pub on_machine : {F : Type 0} → (Machine → Machine) → Plotter F → Plotter F
on_machine f p = record p { machine = f p.machine }
