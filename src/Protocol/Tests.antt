-- ===== src/Protocol/Tests.antt =====
-- Passes of the realtime state machine on concrete systems.
use grbl_esp.Base.{◌≡◌, refl, ◌⊎◌, true, false, none, some, [], ◌∷◌}
use grbl_esp.System.{System, State, ExecState, ExecAlarm, fresh_system, no_exec}
use grbl_esp.Subsystems.Trace.{World, trace, quiet, trace-PrepKeeps}
use grbl_esp.Protocol.{
  status_report, exec_flags, pending_flags, exec_pending, exec_overrides, protocol_exec_rt_system,
  motion_overrides, spindle_override, stop_override, flood_override, mist_override, reload_buffer,
}
use grbl_esp.Protocol.Hold.{exec_hold}
use grbl_esp.Protocol.Cycle.{
  resume_door, start_motion, start_cycle, exec_cycle_start, exec_cycle_stop,
}
use grbl_esp.Protocol.Transitions.{HoldStep, exec_hold-HoldStep}
use grbl_esp.Protocol.Safety.{start_asked, can_start, exec_pending-cycle, abort-exec_pending}
use grbl_esp.Protocol.Critical.{critical-waits, critical-aborts}
use grbl_esp.Protocol.Door.{IsOpen, exec_pending-IsOpen}
use grbl_esp.Protocol.Applied.{Applied, exec_overrides-Applied}

abbrev with_exec : State → ExecState → System
with_exec st e = record (fresh_system st) { rt_exec_state = e }

abbrev start_flag : ExecState
start_flag = record no_exec { cycle_start = true }

-- an idle machine with one queued motion, and a cycle start
abbrev ready : System
ready = with_exec State.idle start_flag

abbrev one_block : World
one_block = record quiet { blocks = 1 }

starts : (exec_pending trace false false ready one_block).0.state ≡ State.cycle
unfolding exec_pending pending_flags exec_flags status_report exec_hold exec_cycle_start start_cycle
    resume_door start_motion exec_cycle_stop exec_overrides motion_overrides spindle_override
    stop_override flood_override mist_override reload_buffer
starts = refl

exec_pending-cycle_example :
    (State.idle ≡ State.cycle) ⊎ ((start_asked start_flag ≡ true) × (can_start ready ≡ true))
exec_pending-cycle_example =
    exec_pending-cycle trace false false trace-PrepKeeps ready one_block starts

abort-exec_pending_example :
    (exec_pending trace false false
      (with_exec State.cycle (record no_exec { reset = true }))
      quiet).0.abort
    ≡ true
abort-exec_pending_example =
    abort-exec_pending trace false false trace-PrepKeeps
      (with_exec State.cycle (record no_exec { reset = true })) quiet

exec_hold-HoldStep_example :
    HoldStep
      (record no_exec { feed_hold = true })
      State.cycle
      (exec_hold trace
        (record no_exec { feed_hold = true })
        (fresh_system State.cycle)
        quiet).0.state
exec_hold-HoldStep_example =
    exec_hold-HoldStep trace (record no_exec { feed_hold = true }) (fresh_system State.cycle) quiet

-- a hard limit during a cycle, with a reset pending
abbrev limit_hit : System
limit_hit = record (with_exec State.cycle (record no_exec { reset = true })) {
  rt_exec_alarm = ExecAlarm.hard_limit;
}

abbrev press_reset : System → System
press_reset s = record s { rt_exec_state = record s.rt_exec_state { reset = true } }

abbrev press_hold : System → System
press_hold s = record s { rt_exec_state = record s.rt_exec_state { feed_hold = true } }

critical-waits_example :
    protocol_exec_rt_system trace false false (press_hold ∷ press_hold ∷ []) limit_hit quiet ≡ none
critical-waits_example =
    critical-waits trace false false (press_hold ∷ press_hold ∷ []) limit_hit quiet refl
      (refl, (refl, tt))

critical-aborts_example :
    (t : System) × (v : World) × (protocol_exec_rt_system trace false false
        (press_hold ∷ press_reset ∷ [])
        limit_hit
        quiet
      ≡ some (t, v))
    × (t.abort ≡ true)
    × (t.rt_exec_alarm ≡ ExecAlarm.no_alarm)
critical-aborts_example =
    critical-aborts trace false false (press_hold ∷ []) [] press_reset limit_hit quiet refl
      (λ t. refl)

-- the door opens in a cycle, with a feed hold and a cycle start pending
abbrev door_opened : System
door_opened =
    with_exec State.cycle
      (record no_exec { safety_door = true; feed_hold = true; cycle_start = true })

exec_pending-IsOpen_example : IsOpen (exec_pending trace false false door_opened one_block).0
exec_pending-IsOpen_example =
    exec_pending-IsOpen trace false false trace-PrepKeeps door_opened one_block refl refl refl
      (record { state = refl; jog_cancel = refl })

abbrev slower : System
slower = record (fresh_system State.cycle) { rt_f_override = 50; rt_s_override = 90 }

exec_overrides-Applied_example : Applied slower (exec_overrides trace true true slower quiet).0
exec_overrides-Applied_example = exec_overrides-Applied trace true true slower quiet
