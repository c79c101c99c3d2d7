-- ===== src/Protocol/Transitions/Frame.antt =====
-- What serving the state flags leaves alone: the soft-limit mark, the abort flag, the overrides and
-- their requests, and the parser's modes.
use uno_pen_plotter.Prelude.{◌≡◌, ◌∙◌, arith}
use uno_pen_plotter.System.{Machine, ExecState}
use uno_pen_plotter.Protocol.Hold.{
  motion_hold, idle_hold, motion_cancel, feed_hold, door_state, safety_door, go_to_sleep,
  hold_requests, exec_holds,
}
use uno_pen_plotter.Protocol.Cycle.{
  resume_door, start_cycle, exec_cycle_start, hold_stopped, flush_jog, motion_complete,
  exec_cycle_stop,
}
use uno_pen_plotter.Protocol.Realtime.{exec_status_report, exec_state_flags}

pub record Keeps (m m' : Machine) : Type 0 where
  pub soft_limit : m'.soft_limit ≡ m.soft_limit
  pub abort : m'.abort ≡ m.abort
  pub feed : m'.f_override ≡ m.f_override
  pub rapid : m'.r_override ≡ m.r_override
  pub speed : m'.spindle_speed_ovr ≡ m.spindle_speed_ovr
  pub pen : m'.ocr2b ≡ m.ocr2b
  pub spindle : m'.modal_spindle ≡ m.modal_spindle

pub Keeps-trans : {m m' m'' : Machine} → Keeps m m' → Keeps m' m'' → Keeps m m''
Keeps-trans h k = record {
  soft_limit = k.soft_limit ∙ h.soft_limit;
  abort = k.abort ∙ h.abort;
  feed = k.feed ∙ h.feed;
  rapid = k.rapid ∙ h.rapid;
  speed = k.speed ∙ h.speed;
  pen = k.pen ∙ h.pen;
  spindle = k.spindle ∙ h.spindle;
}

motion_hold-Keeps : (rt : ExecState) (m : Machine) → Keeps m (motion_hold rt m)
unfolding motion_hold
motion_hold-Keeps rt m = ground arith

idle_hold-Keeps : (m : Machine) → Keeps m (idle_hold m)
unfolding idle_hold
idle_hold-Keeps m = ground arith

motion_cancel-Keeps : (rt : ExecState) (m : Machine) → Keeps m (motion_cancel rt m)
unfolding motion_cancel
motion_cancel-Keeps rt m = ground arith

feed_hold-Keeps : (rt : ExecState) (m : Machine) → Keeps m (feed_hold rt m)
unfolding feed_hold
feed_hold-Keeps rt m = ground arith

door_state-Keeps : (m : Machine) → Keeps m (door_state m)
unfolding door_state
door_state-Keeps m = ground arith

safety_door-Keeps : (rt : ExecState) (m : Machine) → Keeps m (safety_door rt m)
unfolding safety_door door_state
safety_door-Keeps rt m = ground arith

go_to_sleep-Keeps : (rt : ExecState) (m : Machine) → Keeps m (go_to_sleep rt m)
unfolding go_to_sleep
go_to_sleep-Keeps rt m = ground arith

hold_requests-Keeps : (rt : ExecState) (m : Machine) → Keeps m (hold_requests rt m)
unfolding hold_requests
hold_requests-Keeps rt m = Keeps-trans (motion_hold-Keeps rt m) (
    Keeps-trans (idle_hold-Keeps m₁) (
      Keeps-trans (motion_cancel-Keeps rt (idle_hold m₁)) (
        Keeps-trans (feed_hold-Keeps rt (motion_cancel rt (idle_hold m₁)))
          (safety_door-Keeps rt (feed_hold rt (motion_cancel rt (idle_hold m₁)))))))
  where
    m₁ : Machine
    m₁ = motion_hold rt m

pub exec_holds-Keeps : (rt : ExecState) (m : Machine) → Keeps m (exec_holds rt m)
unfolding exec_holds
exec_holds-Keeps rt m = ground (
  arith,
  go_to_sleep-Keeps rt m,
  go_to_sleep-Keeps rt (hold_requests rt m),
  hold_requests-Keeps rt m,
)

resume_door-Keeps : (m : Machine) → Keeps m (resume_door m)
unfolding resume_door
resume_door-Keeps m = ground arith

start_cycle-Keeps : (m : Machine) → Keeps m (start_cycle m)
unfolding start_cycle
start_cycle-Keeps m = ground arith

pub exec_cycle_start-Keeps : (rt : ExecState) (m : Machine) → Keeps m (exec_cycle_start rt m)
unfolding exec_cycle_start
exec_cycle_start-Keeps rt m = ground (arith, resume_door-Keeps m, start_cycle-Keeps (resume_door m))

hold_stopped-Keeps : (m : Machine) → Keeps m (hold_stopped m)
unfolding hold_stopped
hold_stopped-Keeps m = ground arith

flush_jog-Keeps : (m : Machine) → Keeps m (flush_jog m)
unfolding flush_jog
flush_jog-Keeps m = ground arith

motion_complete-Keeps : (m : Machine) → Keeps m (motion_complete m)
unfolding motion_complete
motion_complete-Keeps m = ground (arith, flush_jog-Keeps m)

pub exec_cycle_stop-Keeps : (rt : ExecState) (m : Machine) → Keeps m (exec_cycle_stop rt m)
unfolding exec_cycle_stop
exec_cycle_stop-Keeps rt m = ground (arith, hold_stopped-Keeps m, motion_complete-Keeps m)

exec_status_report-Keeps : (rt : ExecState) (m : Machine) → Keeps m (exec_status_report rt m)
unfolding exec_status_report
exec_status_report-Keeps rt m = ground arith

pub exec_state_flags-Keeps : (rt : ExecState) (m : Machine) → Keeps m (exec_state_flags rt m)
unfolding exec_state_flags
exec_state_flags-Keeps rt m = ground (
  arith,
  exec_status_report-Keeps rt m,
  exec_holds-Keeps rt m₁,
  exec_cycle_start-Keeps rt (exec_holds rt m₁),
  exec_cycle_stop-Keeps rt (exec_cycle_start rt (exec_holds rt m₁)),
)
  where
    m₁ : Machine
    m₁ = exec_status_report rt m
