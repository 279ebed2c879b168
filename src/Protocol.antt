-- ===== src/Protocol.antt =====
-- Protocol.cpp (Grbl_Esp32/src): `protocol_exec_rt_system`, the realtime state machine, in the
-- pieces in which the source carries it out, and `protocol_auto_cycle_start`. PARKING_ENABLE is
-- defined, as in Config.h; whether the coolant pins are defined is a parameter. One run is one
-- atomic step: interrupts act between runs, and inside a run only in the loop that waits for a
-- reset, where they are given as a list of functions on the system.
pub mod Hold
pub mod Cycle
pub mod Transitions
pub mod Safety
pub mod Critical
pub mod Door
pub mod Applied
mod Tests
use grbl_esp.Base.{
  ℕ, zero, suc, ◌+◌, ◌-◌, ◌*◌, ◌/◌, ◌%◌, ◌^◌, ◌≤◌, ◌<◌, min, max, ◌≡◌, refl, sym, ap, ap₂, ◌∙◌, ◌≢◌,
  ◌↔◌, ◌⊎◌, inl, inr, Bool, true, false, not, ◌&&◌, ◌||◌, Option, none, some, List, [], ◌∷◌, ◌++◌,
  map, append-nil, append_assoc, arith, ltb, leb, ◌==◌, if◌then◌else◌, ltb→lt, lt→ltb, leb→le,
  ==_iff, tests, Bool-cases, Option-cases, length, get_elem?, set, length-append, length-set,
  get_elem?-set_self, get_elem?-set_ne, get_or, take, drop, replicate, take-append-drop,
  length-take, length-drop, length-replicate, length-map,
}
use grbl_esp.System.{
  System, State, ExecState, ExecAlarm, same_state, is_alarm, is_critical, any_exec, is_stopping,
  no_accessory,
}
use grbl_esp.Subsystems.{Subsystems, Report, report_counters}
use Hold.{exec_hold}
use Cycle.{exec_cycle_start, exec_cycle_stop}

-- `do { } while (!sys_rt_exec_state.bit.reset);` with one interrupt in each round; `none` while no
-- reset comes
pub wait_reset : List (System → System) → System → Option System
wait_reset [] s = none
wait_reset (interrupt ∷ rest) s =
    let s' = interrupt s in
    let later = wait_reset rest s' in if s'.rt_exec_state.reset then some s' else later

-- `plan_get_current_block() != NULL` queues a cycle start
unfoldable pub protocol_auto_cycle_start : {W : Type 0} → Subsystems W → System → W → System
protocol_auto_cycle_start sub s w =
    if sub.plan_has_block w
    then record s { rt_exec_state = record s.rt_exec_state { cycle_start = true } }
    else s

module _ {W : Type 0} (sub : Subsystems W) (flood_pin mist_pin : Bool) where
  -- the pending alarm; `none` while a critical one waits for a reset
  pub exec_alarm : List (System → System) → System → W → Option (System × W)
  unfolding wait_reset
  exec_alarm interrupts s w =
      let s' = record s { state = State.alarm } in
      let w' = sub.report (Report.alarm_message s.rt_exec_alarm) w in
      if not (is_alarm s.rt_exec_alarm)
      then some (s, w)
      else if is_critical s.rt_exec_alarm
      then elim (wait_reset interrupts
          (record s' { rt_exec_state = record s.rt_exec_state { reset = false } })) [
            | none ↦ none
            | some t ↦ some (
              record t { rt_exec_alarm = ExecAlarm.no_alarm },
              sub.report Report.critical_event w',
            )
          ]
      else some (record s' { rt_exec_alarm = ExecAlarm.no_alarm }, w')

  -- `if (rt_exec_state.bit.statusReport) …`
  pub status_report : ExecState → System → W → System × W
  status_report rt s w =
      if rt.status_report
      then (
        record (report_counters s) {
          rt_exec_state = record s.rt_exec_state { status_report = false };
        },
        sub.report Report.realtime_status w,
      )
      else (s, w)

  -- the block of flags, behind the test for a reset
  pub exec_flags : ExecState → System → W → System × W
  exec_flags rt s w =
      let (s₁, w₁) = status_report rt s w in
      let (s₂, w₂) = exec_hold sub rt s₁ w₁ in
      let (s₃, w₃) = exec_cycle_start sub rt s₂ w₂ in exec_cycle_stop sub s₃ w₃

  -- the feed and rapid overrides
  pub motion_overrides : System → W → System × W
  motion_overrides s w =
      if not (s.rt_f_override == s.f_override) || not (s.rt_r_override == s.r_override)
      then (let s' = record s {
        f_override = s.rt_f_override;
        r_override = s.rt_r_override;
        report_ovr_counter = 0;
      } in
          (s', sub.plan_cycle_reinitialize (sub.plan_update_velocity_profile_parameters s' w)))
      else (s, w)

  -- the spindle speed override
  pub spindle_override : System → W → System × W
  spindle_override s w =
      if not (s.rt_s_override == s.spindle_speed_ovr)
      then (let s' = record s {
        step_control = record s.step_control { update_spindle_rpm = true };
        spindle_speed_ovr = s.rt_s_override;
        report_ovr_counter = 0;
      } in
          if sub.gc_spindle_on w
          then (let (speed, v) = sub.spindle_set_rpm s' w in
              (record s' { spindle_speed = speed }, v))
          else (s', w))
      else (s, w)

  -- the spindle stop override, only while holding
  pub stop_override : System → System
  stop_override s =
      if s.rt_accessory.spindle_ovr_stop
      then record s {
        rt_accessory = record s.rt_accessory { spindle_ovr_stop = false };
        spindle_stop_ovr =
            if not (same_state s.state State.hold)
            then s.spindle_stop_ovr
            else if not (is_stopping s.spindle_stop_ovr)
            then record s.spindle_stop_ovr { initiate = true }
            else if s.spindle_stop_ovr.enabled
            then record s.spindle_stop_ovr { restore = true }
            else s.spindle_stop_ovr;
      }
      else s

  -- CoolantControl.cpp `coolant_set_state`
  pub coolant_set_state : System → W → System × W
  coolant_set_state s w =
      if s.abort then (s, w) else (record s { report_ovr_counter = 0 }, sub.coolant_write w)

  toggle_allowed : System → Bool
  toggle_allowed s =
      same_state s.state State.idle
      || same_state s.state State.cycle
      || same_state s.state State.hold

  pub flood_override : System → W → System × W
  unfolding coolant_set_state toggle_allowed
  flood_override s w =
      if s.rt_accessory.coolant_flood_ovr_toggle
      then (let s' = record s {
        rt_accessory = record s.rt_accessory { coolant_flood_ovr_toggle = false };
      } in
          if flood_pin && toggle_allowed s'
          then coolant_set_state s' (sub.flip_flood w)
          else (s', w))
      else (s, w)

  pub mist_override : System → W → System × W
  unfolding coolant_set_state toggle_allowed
  mist_override s w =
      if s.rt_accessory.coolant_mist_ovr_toggle
      then (let s' = record s {
        rt_accessory = record s.rt_accessory { coolant_mist_ovr_toggle = false };
      } in
          if mist_pin && toggle_allowed s' then coolant_set_state s' (sub.flip_mist w) else (s', w))
      else (s, w)

  pub exec_overrides : System → W → System × W
  exec_overrides s w =
      let (s₁, w₁) = motion_overrides s w in
      let (s₂, w₂) = spindle_override s₁ w₁ in
      let (s₃, w₃) = flood_override (stop_override s₂) w₂ in mist_override s₃ w₃

  -- `switch (sys.state)` in front of `st_prep_buffer`
  reload_state : State → Bool
  reload_state State.cycle = true
  reload_state State.hold = true
  reload_state State.safety_door = true
  reload_state State.homing = true
  reload_state State.sleep = true
  reload_state State.jog = true
  reload_state _ = false

  pub reload_buffer : System → W → System × W
  unfolding reload_state
  reload_buffer s w = if reload_state s.state then sub.st_prep_buffer s w else (s, w)

  -- `if (rt_exec_state.value != 0 || cycle_stop)` behind the test for a reset
  pub pending_flags : System → W → System × W
  pending_flags s w =
      if any_exec s.rt_exec_state || s.cycle_stop then exec_flags s.rt_exec_state s w else (s, w)

  -- behind the alarm: a reset aborts at once, all else goes on to the overrides
  pub exec_pending : System → W → System × W
  exec_pending s w =
      if s.rt_exec_state.reset
      then (record s { abort = true }, w)
      else (let (s₁, w₁) = pending_flags s w in
          let (s₂, w₂) = exec_overrides s₁ w₁ in reload_buffer s₂ w₂)

  unfoldable pub protocol_exec_rt_system : List (System → System) → System → W → Option (System × W)
  protocol_exec_rt_system interrupts s w = elim (exec_alarm interrupts s w) [
    | none ↦ none
    | some (s', w') ↦ some (exec_pending s' w')
  ]
