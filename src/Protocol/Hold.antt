-- ===== src/Protocol/Hold.antt =====
-- Protocol.cpp: the holds of `protocol_exec_rt_system` (feed hold, motion cancel, safety door and
-- sleep). `rt` is the local copy `rt_exec_state` of the flags.
use grbl_esp.Base.{true, false, not, ◌&&◌, ◌||◌, if◌then◌else◌}
use grbl_esp.System.{System, State, ExecState, same_state, no_step_control, no_suspend}
use grbl_esp.Subsystems.{Subsystems, Report}

-- `if (sys.state == State::Cycle || sys.state == State::Jog) …`: begin to decelerate
unfoldable pub start_hold : {W : Type 0} → Subsystems W → ExecState → System → W → System × W
start_hold sub rt s w =
    if (same_state s.state State.cycle || same_state s.state State.jog)
      && not (s.suspend.motion_cancel || s.suspend.jog_cancel)
    then (
      record s {
        step_control = record no_step_control { execute_hold = true };
        suspend =
            if same_state s.state State.jog && not rt.sleep
            then record s.suspend { jog_cancel = true }
            else s.suspend;
      },
      sub.st_update_plan_block_parameters w,
    )
    else (s, w)

-- `if (sys.state == State::Idle) …`
unfoldable pub idle_hold : System → System
idle_hold s =
    if same_state s.state State.idle
    then record s { suspend = record no_suspend { hold_complete = true } }
    else s

-- `if (rt_exec_state.bit.motionCancel) …`
unfoldable pub motion_cancel : ExecState → System → System
motion_cancel rt s =
    if rt.motion_cancel
    then record s {
      suspend =
          if same_state s.state State.jog
          then s.suspend
          else record s.suspend { motion_cancel = true };
      rt_exec_state = record s.rt_exec_state { motion_cancel = false };
    }
    else s

-- `if (rt_exec_state.bit.feedHold) …`
unfoldable pub feed_hold : ExecState → System → System
feed_hold rt s =
    if rt.feed_hold
    then record s {
      state =
          if same_state s.state State.safety_door
            || same_state s.state State.jog
            || same_state s.state State.sleep
          then s.state
          else State.hold;
      rt_exec_state = record s.rt_exec_state { feed_hold = false };
    }
    else s

-- the door opens again while the parking motion is being restored
unfoldable pub restart_retract : {W : Type 0} → Subsystems W → System → W → System × W
restart_retract sub s w =
    if same_state s.state State.safety_door && s.suspend.initiate_restore
    then (let moving = s.step_control.execute_sys_motion in
        (
          record s {
            step_control =
                if moving
                then record no_step_control { execute_hold = true; execute_sys_motion = true }
                else s.step_control;
            suspend = record s.suspend {
              hold_complete = if moving then false else s.suspend.hold_complete;
              retract_complete = false;
              initiate_restore = false;
              restore_complete = false;
              restart_retract = true;
            };
          },
          (if moving then sub.st_update_plan_block_parameters w else w),
        ))
    else (s, w)

-- `if (rt_exec_state.bit.safetyDoor) …` behind the report
unfoldable pub open_door : {W : Type 0} → Subsystems W → System → W → System × W
open_door sub s w =
    if s.suspend.jog_cancel
    then (record s { suspend = record s.suspend { safety_door_ajar = true } }, w)
    else (let (s', w') = restart_retract sub s w in
        (
          record s' {
            state = if same_state s'.state State.sleep then s'.state else State.safety_door;
            rt_exec_state = record s'.rt_exec_state { safety_door = false };
            suspend = record s'.suspend { safety_door_ajar = true };
          },
          w',
        ))

unfoldable pub safety_door : {W : Type 0} → Subsystems W → ExecState → System → W → System × W
safety_door sub rt s w =
    if rt.safety_door then open_door sub s (sub.report Report.safety_door_ajar w) else (s, w)

-- the block under `if (!(sys.state == State::Alarm || sys.state == State::CheckMode))`
unfoldable pub hold_flags : {W : Type 0} → Subsystems W → ExecState → System → W → System × W
hold_flags sub rt s w =
    if same_state s.state State.alarm || same_state s.state State.check_mode
    then (s, w)
    else (let (s', w') = start_hold sub rt s w in
        safety_door sub rt (feed_hold rt (motion_cancel rt (idle_hold s'))) w')

-- `if (rt_exec_state.bit.sleep) …`
unfoldable pub exec_sleep : ExecState → System → System
exec_sleep rt s =
    if rt.sleep
    then record s {
      suspend =
          if same_state s.state State.alarm
          then record s.suspend { retract_complete = true; hold_complete = true }
          else s.suspend;
      state = State.sleep;
      rt_exec_state = record s.rt_exec_state { sleep = false };
    }
    else s

-- the whole block under `if (motionCancel || feedHold || safetyDoor || sleep)`
unfoldable pub exec_hold : {W : Type 0} → Subsystems W → ExecState → System → W → System × W
exec_hold sub rt s w =
    if rt.motion_cancel || rt.feed_hold || rt.safety_door || rt.sleep
    then (let (s', w') = hold_flags sub rt s w in (exec_sleep rt s', w'))
    else (s, w)
