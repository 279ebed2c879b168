-- ===== src/Suspend/Loop.antt =====
-- Protocol.cpp (Grbl_Esp32/src): the pieces of `protocol_exec_rt_suspend` and its loop.
use grbl_esp.Base.{◌/◌, Bool, true, false, not, ◌&&◌, ◌||◌, List, [], ◌∷◌, if◌then◌else◌}
use grbl_esp.System.{State, Suspend, same_state, is_suspended, is_stopping, no_spindle_stop}
use grbl_esp.Suspend.{
  Progress, done, waits, ParkingOps, Reads, Suspended, log, with_sys, and_then, exec_rt_system,
  wait_abort, mc_parking_motion, delay_msec, spindle_off, spindle_restore, coolant_off,
  coolant_restore, coolant_clear, pull_out, park, pull_back, plunge, go_idle, sleep_message,
  restore_message,
}

module _ {P : Type 0} (ops : ParkingOps P) where
  open ops use {less, leq, plus, parking_target, pullout_increment}

  abbrev pub set_suspend : (Suspend → Suspend) → Suspended P → Suspended P
  set_suspend f m = with_sys (λ s. record s { suspend = f s.suspend }) m

  -- where to come back to, and the way point of the slow retract
  unfoldable pub store_target : Reads P → Suspended P → Suspended P
  store_target r m =
      if m.sys.suspend.restart_retract
      then m
      else (let waypoint = plus m.retract_waypoint r.position in
          record m {
            restore_target = r.position;
            retract_waypoint = if less waypoint parking_target then waypoint else parking_target;
          })

  -- the fast retract, from where the axis is
  unfoldable pub park_motion : Reads P → P → Suspended P → Progress P
  unfolding mc_parking_motion
  park_motion r position m =
      let t = log r coolant_clear (log r spindle_off m) in
      if less position parking_target then mc_parking_motion r (park parking_target) t else done t

  unfoldable pub retract_motion : Reads P → Suspended P → Progress P
  unfolding mc_parking_motion park_motion
  retract_motion r m =
      if r.can_park && less r.position parking_target
      then (if less r.position m.retract_waypoint
          then and_then (mc_parking_motion r (pull_out m.retract_waypoint) m)
              (park_motion r m.retract_waypoint)
          else park_motion r r.position m)
      else done (log r coolant_off (log r spindle_off m))

  -- the retract and the de-energizing
  unfoldable pub retract : Reads P → Suspended P → Progress P
  unfolding store_target retract_motion
  retract r m =
      and_then
        (retract_motion r
          (store_target r (with_sys (λ s. record s { spindle_stop_ovr = no_spindle_stop }) m)))
        (λ t.
          done (set_suspend (λ f. record f { restart_retract = false; retract_complete = true }) t))

  -- the steps of the restore
  unfoldable pub fast_restore : Reads P → Suspended P → Progress P
  unfolding mc_parking_motion
  fast_restore r m =
      if r.can_park && leq r.position parking_target
      then mc_parking_motion r (pull_back m.retract_waypoint) m
      else done m

  unfoldable pub spindle_restart : Reads P → Suspended P → Suspended P
  spindle_restart r m =
      if r.gc_spindle_on && not m.sys.suspend.restart_retract
      then (if r.in_laser_mode
          then with_sys
              (λ s. record s { step_control = record s.step_control { update_spindle_rpm = true } })
              m
          else log r spindle_restore m)
      else m

  unfoldable pub coolant_restart : Reads P → Suspended P → Progress P
  unfolding delay_msec
  coolant_restart r m =
      if r.gc_coolant_on && not m.sys.suspend.restart_retract
      then delay_msec (r.coolant_delay / 50) (log r coolant_restore m)
      else done m

  unfoldable pub slow_restore : Reads P → Suspended P → Progress P
  unfolding mc_parking_motion
  slow_restore r m =
      if r.can_park && not m.sys.suspend.restart_retract
      then mc_parking_motion r (plunge m.restore_target) m
      else done m

  unfoldable pub end_restore : Suspended P → Suspended P
  end_restore m =
      if m.sys.suspend.restart_retract
      then m
      else with_sys
          (λ s. record s {
            suspend = record s.suspend { restore_complete = true };
            rt_exec_state = record s.rt_exec_state { cycle_start = true };
          })
          m

  unfoldable pub restore : Reads P → Suspended P → Progress P
  unfolding fast_restore spindle_restart coolant_restart slow_restore end_restore
  restore r m =
      if m.sys.suspend.initiate_restore
      then and_then (fast_restore r m) (λ t.
        and_then (coolant_restart r (spindle_restart r t))
          (λ u. and_then (slow_restore r u) (λ v. done (end_restore v))))
      else done m

  -- the rest of a sleeping machine
  unfoldable pub sleep : Reads P → Suspended P → Progress P
  unfolding wait_abort
  sleep r m =
      let t = log r go_idle (log r coolant_off (log r spindle_off (log r sleep_message m))) in
      wait_abort t.passes t

  -- the door, and the restore that waits for it
  unfoldable pub door : Reads P → Suspended P → Progress P
  unfolding restore
  door r m = restore r (
      if same_state m.sys.state State.safety_door && not r.door_ajar
      then set_suspend (λ f. record f { safety_door_ajar = false }) m
      else m)

  -- the feed hold manager
  unfoldable pub start_stop : Reads P → Suspended P → Suspended P
  start_stop r m =
      if r.gc_spindle_on
      then with_sys (λ s. record s { spindle_stop_ovr = record no_spindle_stop { enabled = true } })
          (log r spindle_off m)
      else with_sys (λ s. record s { spindle_stop_ovr = no_spindle_stop }) m

  unfoldable pub end_stop : Reads P → Suspended P → Suspended P
  end_stop r m =
      let t =
        if r.gc_spindle_on
        then (let u = log r restore_message m in
            if r.in_laser_mode
            then with_sys
                (λ s. record s {
                  step_control = record s.step_control { update_spindle_rpm = true };
                })
                u
            else log r spindle_restore u)
        else m in
      with_sys
        (λ s. record s {
          spindle_stop_ovr = no_spindle_stop;
          rt_exec_state =
              if s.spindle_stop_ovr.restore_cycle
              then record s.rt_exec_state { cycle_start = true }
              else s.rt_exec_state;
        })
        t

  unfoldable pub hold_manager : Reads P → Suspended P → Suspended P
  unfolding start_stop end_stop
  hold_manager r m =
      let ovr = m.sys.spindle_stop_ovr in
      if is_stopping ovr
      then if ovr.initiate
        then start_stop r m
        else if ovr.restore || ovr.restore_cycle
        then end_stop r m
        else m
      else if m.sys.step_control.update_spindle_rpm
      then with_sys
          (λ s. record s { step_control = record s.step_control { update_spindle_rpm = false } })
          (log r spindle_restore m)
      else m

  -- `sys_pl_data_inflight = NULL`
  unfoldable pub drop_jog : Suspended P → Suspended P
  drop_jog m =
      if m.sys.suspend.jog_cancel && m.jog_in_flight then record m { jog_in_flight = false } else m

  abbrev pub flagged : Bool → Progress P → Progress P × Bool
  flagged b x = (x, b)

  -- a round up to its run of `protocol_exec_rt_system`; the flag is set where the function returns
  unfoldable pub suspend_round : Reads P → Suspended P → Progress P × Bool
  unfolding drop_jog retract sleep door hold_manager
  suspend_round r m₀ =
      let m = drop_jog m₀ in
      if not m.sys.suspend.hold_complete
      then (done m, false)
      else if same_state m.sys.state State.safety_door || same_state m.sys.state State.sleep
      then (if not m.sys.suspend.retract_complete
          then flagged false (retract r m)
          else if same_state m.sys.state State.sleep
          then flagged true (sleep r m)
          else flagged false (door r m))
      else (done (hold_manager r m), false)

  -- the loop, on the reads of its rounds; it waits where they end
  unfoldable pub suspend_loop : List (Reads P) → Suspended P → Progress P
  unfolding suspend_round exec_rt_system
  suspend_loop [] m = if is_suspended m.sys.suspend then waits m else done m
  suspend_loop (r ∷ rs) m =
      if not (is_suspended m.sys.suspend) || m.sys.abort
      then done m
      else (let (progress, ended) = suspend_round r m in
          and_then progress
            (λ t. if ended then done t else and_then (exec_rt_system t) (suspend_loop rs)))

  -- with DISABLE_LASER_DURING_HOLD
  unfoldable pub protocol_exec_rt_suspend : Bool → List (Reads P) → Suspended P → Progress P
  unfolding suspend_loop
  protocol_exec_rt_suspend in_laser_mode rs m = suspend_loop rs (record m {
    retract_waypoint = pullout_increment;
    sys =
        if in_laser_mode
        then record m.sys { rt_accessory = record m.sys.rt_accessory { spindle_ovr_stop = true } }
        else m.sys;
  })
