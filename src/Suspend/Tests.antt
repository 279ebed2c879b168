-- ===== src/Suspend/Tests.antt =====
-- A suspended machine at the safety door, from its retract to its restore.
use grbl_esp.Base.{ℕ, ◌+◌, ◌≡◌, refl, true, false, List, [], ◌∷◌, map, ltb, leb}
use grbl_esp.System.{System, State, fresh_system, no_suspend}
use grbl_esp.Suspend.{
  Progress, done, waits, Pass, RtCall, ParkingOps, SuspendCall, Reads, Suspended, exec_rt_system,
  wait_motion, wait_abort, mc_parking_motion, delay_msec,
}
use grbl_esp.Suspend.Loop.{
  store_target, park_motion, retract_motion, retract, fast_restore, spindle_restart,
  coolant_restart, slow_restore, end_restore, restore, sleep, door, start_stop, end_stop,
  hold_manager, drop_jog, suspend_round, suspend_loop, protocol_exec_rt_suspend,
}
use grbl_esp.Suspend.Calls.{all_closed, reached}
use grbl_esp.Suspend.Closed.{protocol_exec_rt_suspend-Closed}

abbrev whole : ParkingOps ℕ
whole = record {
  less = ltb;
  leq = leb;
  plus = λ a b. a + b;
  parking_target = 20;
  pullout_increment = 5;
}

abbrev reads : Reads ℕ
reads = record {
  position = 0;
  can_park = false;
  in_laser_mode = false;
  door_ajar = false;
  gc_spindle_on = true;
  gc_coolant_on = false;
  plan_status = true;
  coolant_delay = 0;
  effect = λ c s. s;
}

abbrev asks_restore : Pass
asks_restore s = (record s { suspend = record s.suspend { initiate_restore = true } }, [])

abbrev resumes : Pass
resumes s = (record s { suspend = no_suspend; state = State.idle }, [])

-- a parking motion has come to its end
abbrev stops : Pass
stops s = (record s { step_control = record s.step_control { execute_sys_motion = false } }, [])

-- a run with a spindle override
abbrev overrides : Pass
overrides s = ((stops s).0, RtCall.spindle_set_rpm ∷ [])

abbrev held : Suspended ℕ
held = record {
  sys = record (fresh_system State.safety_door) {
    suspend = record no_suspend { hold_complete = true };
  };
  calls = [];
  passes = asks_restore ∷ resumes ∷ [];
  jog_in_flight = false;
  restore_target = 0;
  retract_waypoint = 0;
}

protocol_exec_rt_suspend-Closed_example :
    all_closed (reached (protocol_exec_rt_suspend whole false (reads ∷ reads ∷ []) held)).calls
    ≡ true
protocol_exec_rt_suspend-Closed_example =
    protocol_exec_rt_suspend-Closed whole false (reads ∷ reads ∷ []) held refl
      (record { keeps = λ c s. refl }, (record { keeps = λ c s. refl }, tt))

abbrev call_of : SuspendCall ℕ × System → SuspendCall ℕ
call_of c = c.0

-- spindle and coolant go off, and the spindle comes back
abbrev calls_of : Progress ℕ → List (SuspendCall ℕ)
calls_of (done m) = map call_of m.calls
calls_of (waits m) = []

restores :
    calls_of (protocol_exec_rt_suspend whole false (reads ∷ reads ∷ []) held)
    ≡ SuspendCall.spindle_restore ∷ SuspendCall.coolant_off ∷ SuspendCall.spindle_off ∷ []
unfolding exec_rt_system wait_motion wait_abort mc_parking_motion delay_msec store_target
    park_motion retract_motion retract fast_restore spindle_restart coolant_restart slow_restore
    end_restore restore sleep door start_stop end_stop hold_manager drop_jog suspend_round
    suspend_loop protocol_exec_rt_suspend
restores = refl

-- both parking motions of a machine that can park
abbrev parking : Reads ℕ
parking = record reads { can_park = true }

abbrev both_stop : Suspended ℕ
both_stop = record held { passes = stops ∷ stops ∷ []; retract_waypoint = 5 }

-- a spindle override during the fast retract sets the speed again behind the spindle's stop
override_behind_stop :
    calls_of (retract whole parking (record both_stop { passes = stops ∷ overrides ∷ [] }))
    ≡ SuspendCall.parking_restore
      ∷ SuspendCall.rt RtCall.spindle_set_rpm
      ∷ SuspendCall.wake_up
      ∷ SuspendCall.prep_buffer
      ∷ SuspendCall.parking_setup
      ∷ SuspendCall.park 20
      ∷ SuspendCall.coolant_clear
      ∷ SuspendCall.spindle_off
      ∷ SuspendCall.parking_restore
      ∷ SuspendCall.wake_up
      ∷ SuspendCall.prep_buffer
      ∷ SuspendCall.parking_setup
      ∷ SuspendCall.pull_out 5
      ∷ []
unfolding exec_rt_system wait_motion mc_parking_motion store_target park_motion retract_motion
    retract
override_behind_stop = refl
