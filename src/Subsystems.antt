-- ===== src/Subsystems.antt =====
-- The calls that the realtime code makes on the other components: motors and step segments
-- (Stepper.cpp), the planner (Planner.cpp), the parser state (GCode.cpp), spindle, coolant, user
-- outputs, the SD card and the reports. `W` is all of their state together.
-- A client takes this interface as a section's parameter.
pub mod Trace
use grbl_esp.Base.{
  ℕ, zero, suc, ◌+◌, ◌-◌, ◌*◌, ◌/◌, ◌%◌, ◌^◌, ◌≤◌, ◌<◌, min, max, ◌≡◌, refl, sym, ap, ap₂, ◌∙◌, ◌≢◌,
  ◌↔◌, ◌⊎◌, inl, inr, Bool, true, false, not, ◌&&◌, ◌||◌, Option, none, some, List, [], ◌∷◌, ◌++◌,
  map, append-nil, append_assoc, arith, ltb, leb, ◌==◌, if◌then◌else◌, ltb→lt, lt→ltb, leb→le,
  ==_iff, tests, Bool-cases, Option-cases, length, get_elem?, set, length-append, length-set,
  get_elem?-set_self, get_elem?-set_ne, get_or, take, drop, replicate, take-append-drop,
  length-take, length-drop, length-replicate, length-map,
}
use grbl_esp.System.{System, ExecAlarm}

pub data Report : Type 0 where
  alarm_message : ExecAlarm → Report
  critical_event safety_door_ajar sd_file_quit sleep_mode spindle_restore realtime_status : Report

pub record Subsystems (W : Type 0) : Type 0 where
  -- report_alarm_message, report_feedback_message, report_realtime_status
  pub report : Report → W → W
  -- Stepper.cpp; `st_go_idle` and `st_reset` read the state, the alarm and the settings
  pub st_update_plan_block_parameters : W → W
  pub st_prep_buffer : System → W → System × W
  pub st_wake_up : W → W
  pub st_go_idle : System → W → W
  pub st_reset : System → W → W
  -- Planner.cpp; `plan_get_current_block() != NULL`
  pub plan_has_block : W → Bool
  pub plan_cycle_reinitialize : W → W
  pub plan_update_velocity_profile_parameters : System → W → W
  pub plan_reset : W → W
  pub plan_sync_position : W → W
  -- GCode.cpp; `gc_state.modal.spindle != SpindleState::Disable`
  pub gc_sync_position : W → W
  pub gc_spindle_on : W → Bool
  -- `spindle->set_rpm(gc_state.spindle_speed)` with the `sys.spindle_speed` that it writes, and
  -- `spindle->stop()`
  pub spindle_set_rpm : System → W → ℕ × W
  pub spindle_stop : W → W
  -- CoolantControl.cpp: the parser's coolant bits flipped, and the pins
  pub flip_flood : W → W
  pub flip_mist : W → W
  pub coolant_write : W → W
  pub coolant_stop : W → W
  -- System.cpp, SDCard.cpp, MotionControl.cpp
  pub sys_digital_all_off : W → W
  pub sys_analog_all_off : W → W
  pub sd_is_printing : W → Bool
  pub close_file : W → W
  pub set_dual_mode : W → W

-- REPORT_WCO_REFRESH_IDLE_COUNT and REPORT_OVR_REFRESH_IDLE_COUNT of Config.h
abbrev pub wco_refresh_idle_count : ℕ
wco_refresh_idle_count = 10

abbrev pub ovr_refresh_idle_count : ℕ
ovr_refresh_idle_count = 10

abbrev pub count_down : (refresh count : ℕ) → ℕ
count_down refresh count = if ltb 0 count then count - 1 else refresh - 1

-- What `report_realtime_status` (Report.cpp) writes: the counters of the work coordinate offset and
-- of the overrides. The switches have no `break` behind the busy states, so that the counters begin
-- anew at the idle counts in every state.
abbrev pub report_counters : System → System
report_counters s = record s {
  report_wco_counter = count_down wco_refresh_idle_count s.report_wco_counter;
  report_ovr_counter = count_down ovr_refresh_idle_count (
      if ltb 0 s.report_wco_counter
      then s.report_ovr_counter
      else if s.report_ovr_counter == 0
      then 1
      else s.report_ovr_counter);
}

-- What the state machine relies on: `st_prep_buffer` writes no more of `sys` than the step-control
-- flags `endMotion` and `updateSpindleRpm`, and the spindle speed it reports.
pub record PrepKeeps {W : Type 0} (sub : Subsystems W) : Type 0 where
  pub keeps :
      (s : System) (w : W)
      → (sub.st_prep_buffer s w).0 ≡ record s {
        step_control = record s.step_control {
          end_motion = (sub.st_prep_buffer s w).0.step_control.end_motion;
          update_spindle_rpm = (sub.st_prep_buffer s w).0.step_control.update_spindle_rpm;
        };
        spindle_speed = (sub.st_prep_buffer s w).0.spindle_speed;
      }
