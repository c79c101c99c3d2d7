-- ===== src/Protocol/Transitions/Holds.antt =====
-- The state after the requests to hold, as a function of the bits that matter.
use uno_pen_plotter.Prelude.{◌≡◌, Bool, true, false, not, ◌&&◌, ◌||◌, arith, if◌then◌else◌}
use uno_pen_plotter.System.{Machine, State, ExecState}
use uno_pen_plotter.Protocol.Hold.{
  is_jog, is_idle, is_sleep, is_alarm_check, is_door_jog_sleep, motion_hold, idle_hold,
  motion_cancel, feed_hold, door_state, safety_door, go_to_sleep, hold_requests, exec_holds,
}

motion_hold-state : (rt : ExecState) (m : Machine) → (motion_hold rt m).state ≡ m.state
unfolding motion_hold
motion_hold-state rt m = ground arith

-- A jog is cancelled, unless the request is to sleep or a motion is already being cancelled.
abbrev cancels_jog : ExecState → Machine → Bool
cancels_jog rt m = is_jog m.state && (not rt.sleep && not m.suspend.motion_cancel)

motion_hold-jog_cancel :
    (rt : ExecState) (m : Machine)
    → (motion_hold rt m).suspend.jog_cancel ≡ (m.suspend.jog_cancel || cancels_jog rt m)
unfolding motion_hold
motion_hold-jog_cancel rt m = ground arith

idle_hold_lem :
    (m : Machine)
    → ((idle_hold m).state ≡ m.state)
      × ((idle_hold m).suspend.jog_cancel ≡ (not (is_idle m.state) && m.suspend.jog_cancel))
unfolding idle_hold
idle_hold_lem m = ground arith

motion_cancel_lem :
    (rt : ExecState) (m : Machine)
    → ((motion_cancel rt m).state ≡ m.state)
      × ((motion_cancel rt m).suspend.jog_cancel ≡ m.suspend.jog_cancel)
unfolding motion_cancel
motion_cancel_lem rt m = ground arith

feed_hold_lem :
    (rt : ExecState) (m : Machine)
    → ((feed_hold rt m).state
        ≡ (if rt.feed_hold && not (is_door_jog_sleep m.state) then State.hold else m.state))
      × ((feed_hold rt m).suspend.jog_cancel ≡ m.suspend.jog_cancel)
unfolding feed_hold
feed_hold_lem rt m = ground arith

door_state_lem :
    (m : Machine)
    → (door_state m).state ≡ (if is_sleep m.state then State.sleep else State.safety_door)
unfolding door_state
door_state_lem m = ground arith

safety_door_lem :
    (rt : ExecState) (m : Machine)
    → ((safety_door rt m).state ≡ (
        if rt.safety_door && (not m.suspend.jog_cancel && not (is_sleep m.state))
        then State.safety_door
        else m.state))
      × ((safety_door rt m).suspend.jog_cancel ≡ m.suspend.jog_cancel)
      × ((safety_door rt m).suspend.safety_door_ajar
          ≡ (rt.safety_door || m.suspend.safety_door_ajar))
unfolding safety_door door_state
safety_door_lem rt m = ground arith

-- The state after the requests to hold, from the state before and the bits that matter.
abbrev pub hold_state : ExecState → State → Bool → State
hold_state rt s jog_cancel =
    if rt.safety_door && (not jog_cancel && not (is_sleep s))
    then State.safety_door
    else if rt.feed_hold && not (is_door_jog_sleep s)
    then State.hold
    else s

-- Whether a jog is being cancelled once the motion has been told to stop.
abbrev pub jog_cancelling : ExecState → Machine → Bool
jog_cancelling rt m = not (is_idle m.state) && (m.suspend.jog_cancel || cancels_jog rt m)

hold_requests_lem :
    (rt : ExecState) (m : Machine)
    → ((hold_requests rt m).state ≡ hold_state rt m.state (jog_cancelling rt m))
      × ((hold_requests rt m).suspend.jog_cancel ≡ jog_cancelling rt m)
      × (rt.safety_door ≡ true → (hold_requests rt m).suspend.safety_door_ajar ≡ true)
unfolding hold_requests
hold_requests_lem rt m = ground (
  arith,
  motion_hold-state rt m,
  motion_hold-jog_cancel rt m,
  idle_hold_lem (motion_hold rt m),
  motion_cancel_lem rt (idle_hold (motion_hold rt m)),
  feed_hold_lem rt (motion_cancel rt (idle_hold (motion_hold rt m))),
  safety_door_lem rt (feed_hold rt (motion_cancel rt (idle_hold (motion_hold rt m)))),
)

go_to_sleep_lem :
    (rt : ExecState) (m : Machine)
    → ((go_to_sleep rt m).state ≡ (if rt.sleep then State.sleep else m.state))
      × ((go_to_sleep rt m).suspend.jog_cancel ≡ m.suspend.jog_cancel)
      × ((go_to_sleep rt m).suspend.safety_door_ajar ≡ m.suspend.safety_door_ajar)
unfolding go_to_sleep
go_to_sleep_lem rt m = ground arith

-- ALARM and CHECK_MODE refuse every request but sleep.
abbrev pub awake_state : ExecState → Machine → State
awake_state rt m =
    if is_alarm_check m.state then m.state else hold_state rt m.state (jog_cancelling rt m)

any_hold : ExecState → Bool
any_hold rt = rt.motion_cancel || (rt.feed_hold || (rt.safety_door || rt.sleep))

no_hold_state :
    (rt : ExecState) (s : State) (j : Bool) → any_hold rt ≡ false → hold_state rt s j ≡ s
unfolding any_hold
no_hold_state rt s j h = ground arith

-- The state after the branch on the requests to hold is SLEEP for a sleep request; otherwise ALARM
-- and CHECK_MODE are kept, an opened door leads to SAFETY_DOOR unless a jog is being cancelled or the
-- system sleeps, and a feed hold leads to HOLD unless the door is open, a jog runs or the system
-- sleeps. Every other state is kept.
pub exec_holds-state :
    (rt : ExecState) (m : Machine)
    → (exec_holds rt m).state ≡ (if rt.sleep then State.sleep else awake_state rt m)
unfolding exec_holds any_hold
exec_holds-state rt m = ground (
  arith,
  go_to_sleep_lem rt m,
  go_to_sleep_lem rt (hold_requests rt m),
  hold_requests_lem rt m,
  no_hold_state rt m.state (jog_cancelling rt m),
)

-- The branch changes neither the soft-limit mark nor, outside a jog and IDLE, the mark of a jog that
-- is being cancelled.
pub exec_holds-jog_cancel :
    (rt : ExecState) (m : Machine)
    → is_idle m.state ≡ false
    → is_jog m.state ≡ false
    → (exec_holds rt m).suspend.jog_cancel ≡ m.suspend.jog_cancel
unfolding exec_holds
exec_holds-jog_cancel rt m i j =
    ground
      (arith, go_to_sleep_lem rt m, go_to_sleep_lem rt (hold_requests rt m), hold_requests_lem rt m)
