-- ===== src/Protocol/Cycle.antt =====
-- Protocol.cpp: cycle start and cycle stop of `protocol_exec_rt_system`. `rt` is the local copy
-- `rt_exec_state` of the flags.
use grbl_esp.Base.{true, false, not, ◌&&◌, ◌||◌, if◌then◌else◌}
use grbl_esp.System.{System, State, ExecState, same_state, no_step_control, no_suspend, is_stopping}
use grbl_esp.Subsystems.{Subsystems}

-- resume from the safety door
unfoldable pub resume_door : System → System
resume_door s =
    if same_state s.state State.safety_door && not s.suspend.safety_door_ajar
    then if s.suspend.restore_complete
      then record s { state = State.idle }
      else if s.suspend.retract_complete
      then record s { suspend = record s.suspend { initiate_restore = true } }
      else s
    else s

-- start the queued motions, or fall back to idle
unfoldable pub start_motion : {W : Type 0} → Subsystems W → System → W → System × W
start_motion sub s w =
    if sub.plan_has_block w && not s.suspend.motion_cancel
    then (let (s', w') =
          sub.st_prep_buffer
            (record s { step_control = no_step_control; suspend = no_suspend; state = State.cycle })
            w in
        (s', sub.st_wake_up w'))
    else (record s { step_control = no_step_control; suspend = no_suspend; state = State.idle }, w)

-- `if (sys.state == State::Idle || (sys.state == State::Hold && holdComplete)) …`
unfoldable pub start_cycle : {W : Type 0} → Subsystems W → System → W → System × W
start_cycle sub s w =
    if same_state s.state State.idle || same_state s.state State.hold && s.suspend.hold_complete
    then if same_state s.state State.hold && is_stopping s.spindle_stop_ovr
      then (record s { spindle_stop_ovr = record s.spindle_stop_ovr { restore_cycle = true } }, w)
      else start_motion sub s w
    else (s, w)

unfoldable pub exec_cycle_start : {W : Type 0} → Subsystems W → ExecState → System → W → System × W
exec_cycle_start sub rt s w =
    if rt.cycle_start
    then (let (s', w') =
          if rt.feed_hold || rt.motion_cancel || rt.safety_door
          then (s, w)
          else start_cycle sub (resume_door s) w in
        (record s' { rt_exec_state = record s'.rt_exec_state { cycle_start = false } }, w'))
    else (s, w)

-- a hold has come to rest
unfoldable pub stop_hold : {W : Type 0} → Subsystems W → System → W → System × W
stop_hold sub s w = (
  record s {
    suspend =
        if s.step_control.execute_hold
        then record s.suspend { hold_complete = true }
        else s.suspend;
    step_control = record s.step_control { execute_hold = false; execute_sys_motion = false };
  },
  sub.plan_cycle_reinitialize w,
)

-- a jog cancel flushes the buffers and takes over the positions
unfoldable pub flush_jog : {W : Type 0} → Subsystems W → System → W → System × W
flush_jog sub s w =
    if s.suspend.jog_cancel
    then (let s' = record s { step_control = no_step_control } in
        (s', sub.plan_sync_position (sub.gc_sync_position (sub.st_reset s' (sub.plan_reset w)))))
    else (s, w)

-- a motion is complete
unfoldable pub stop_motion : {W : Type 0} → Subsystems W → System → W → System × W
stop_motion sub s w =
    let (s', w') = flush_jog sub s w in
    (
      (if s'.suspend.safety_door_ajar
          then record s' {
            suspend = record s'.suspend { jog_cancel = false; hold_complete = true };
            state = State.safety_door;
          }
          else record s' { suspend = no_suspend; state = State.idle }),
      w',
    )

unfoldable pub exec_cycle_stop : {W : Type 0} → Subsystems W → System → W → System × W
exec_cycle_stop sub s w =
    if s.cycle_stop
    then (let (s', w') =
          if (same_state s.state State.hold
              || same_state s.state State.safety_door
              || same_state s.state State.sleep)
            && not s.soft_limit
            && not s.suspend.jog_cancel
          then stop_hold sub s w
          else stop_motion sub s w in
        (record s' { cycle_stop = false }, w'))
    else (s, w)
