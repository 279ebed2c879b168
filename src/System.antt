-- ===== src/System.antt =====
-- System.h and Exec.h (Grbl_Esp32/src): the state of the machine, the suspend and step-control
-- flags, and the realtime flags that tasks and interrupts set for the main program. A bit of a C
-- bit field is a Bool. The globals `sys` and `sys_rt_…` stand in one record.
use grbl_esp.Base.{ℕ, Bool, true, false, ◌||◌}

pub data State : Type 0 where
  idle alarm check_mode homing cycle hold jog safety_door sleep : State

abbrev pub same_state : State → State → Bool
same_state State.idle State.idle = true
same_state State.alarm State.alarm = true
same_state State.check_mode State.check_mode = true
same_state State.homing State.homing = true
same_state State.cycle State.cycle = true
same_state State.hold State.hold = true
same_state State.jog State.jog = true
same_state State.safety_door State.safety_door = true
same_state State.sleep State.sleep = true
same_state _ _ = false

pub record StepControl : Type 0 where
  pub end_motion : Bool
  pub execute_hold : Bool
  pub execute_sys_motion : Bool
  pub update_spindle_rpm : Bool

abbrev pub no_step_control : StepControl
no_step_control = record {
  end_motion = false;
  execute_hold = false;
  execute_sys_motion = false;
  update_spindle_rpm = false;
}

pub record Suspend : Type 0 where
  pub hold_complete : Bool
  pub restart_retract : Bool
  pub retract_complete : Bool
  pub initiate_restore : Bool
  pub restore_complete : Bool
  pub safety_door_ajar : Bool
  pub motion_cancel : Bool
  pub jog_cancel : Bool

-- `suspend.value = 0`
abbrev pub no_suspend : Suspend
no_suspend = record {
  hold_complete = false;
  restart_retract = false;
  retract_complete = false;
  initiate_restore = false;
  restore_complete = false;
  safety_door_ajar = false;
  motion_cancel = false;
  jog_cancel = false;
}

-- `suspend.value` as a truth value
abbrev pub is_suspended : Suspend → Bool
is_suspended s =
    s.hold_complete || s.restart_retract || s.retract_complete || s.initiate_restore
    || s.restore_complete || s.safety_door_ajar || s.motion_cancel || s.jog_cancel

pub record SpindleStop : Type 0 where
  pub enabled : Bool
  pub initiate : Bool
  pub restore : Bool
  pub restore_cycle : Bool

abbrev pub no_spindle_stop : SpindleStop
no_spindle_stop = record {
  enabled = false;
  initiate = false;
  restore = false;
  restore_cycle = false;
}

abbrev pub is_stopping : SpindleStop → Bool
is_stopping s = s.enabled || s.initiate || s.restore || s.restore_cycle

pub record ExecState : Type 0 where
  pub status_report : Bool
  pub cycle_start : Bool
  pub cycle_stop : Bool
  pub feed_hold : Bool
  pub reset : Bool
  pub safety_door : Bool
  pub motion_cancel : Bool
  pub sleep : Bool

-- `value != 0`
abbrev pub any_exec : ExecState → Bool
any_exec e =
    e.status_report || e.cycle_start || e.cycle_stop || e.feed_hold || e.reset || e.safety_door
    || e.motion_cancel || e.sleep

pub record ExecAccessory : Type 0 where
  pub spindle_ovr_stop : Bool
  pub coolant_flood_ovr_toggle : Bool
  pub coolant_mist_ovr_toggle : Bool

pub data ExecAlarm : Type 0 where
  no_alarm hard_limit soft_limit abort_cycle probe_fail_initial probe_fail_contact : ExecAlarm
  homing_fail_reset homing_fail_door homing_fail_pulloff homing_fail_approach : ExecAlarm
  spindle_control : ExecAlarm

abbrev pub is_alarm : ExecAlarm → Bool
is_alarm ExecAlarm.no_alarm = false
is_alarm _ = true

-- the alarms on which `protocol_exec_rt_system` halts until a reset
abbrev pub is_critical : ExecAlarm → Bool
is_critical ExecAlarm.hard_limit = true
is_critical ExecAlarm.soft_limit = true
is_critical _ = false

-- `system_t sys`, and the `sys_rt_…` globals with `cycle_stop`
pub record System : Type 0 where
  pub state : State
  pub abort : Bool
  pub suspend : Suspend
  pub soft_limit : Bool
  pub step_control : StepControl
  pub probe_succeeded : Bool
  pub homing_axis_lock : ℕ
  pub f_override : ℕ
  pub r_override : ℕ
  pub spindle_speed_ovr : ℕ
  pub spindle_stop_ovr : SpindleStop
  pub report_ovr_counter : ℕ
  pub report_wco_counter : ℕ
  pub spindle_speed : ℕ
  pub rt_exec_state : ExecState
  pub rt_exec_alarm : ExecAlarm
  pub rt_accessory : ExecAccessory
  pub rt_f_override : ℕ
  pub rt_r_override : ℕ
  pub rt_s_override : ℕ
  pub cycle_stop : Bool

abbrev pub no_exec : ExecState
no_exec = record {
  status_report = false;
  cycle_start = false;
  cycle_stop = false;
  feed_hold = false;
  reset = false;
  safety_door = false;
  motion_cancel = false;
  sleep = false;
}

abbrev pub no_accessory : ExecAccessory
no_accessory = record {
  spindle_ovr_stop = false;
  coolant_flood_ovr_toggle = false;
  coolant_mist_ovr_toggle = false;
}

-- the system with all flags clear and the overrides at 100 percent
abbrev pub fresh_system : State → System
fresh_system st = record {
  state = st;
  abort = false;
  suspend = no_suspend;
  soft_limit = false;
  step_control = no_step_control;
  probe_succeeded = false;
  homing_axis_lock = 0;
  f_override = 100;
  r_override = 100;
  spindle_speed_ovr = 100;
  spindle_stop_ovr = no_spindle_stop;
  report_ovr_counter = 0;
  report_wco_counter = 0;
  spindle_speed = 0;
  rt_exec_state = no_exec;
  rt_exec_alarm = ExecAlarm.no_alarm;
  rt_accessory = no_accessory;
  rt_f_override = 100;
  rt_r_override = 100;
  rt_s_override = 100;
  cycle_stop = false;
}
