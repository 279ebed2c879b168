-- ===== src/Serial.antt =====
-- Serial.cpp (Grbl_Esp32/src): the realtime characters and the received bytes of each client, with
-- `mc_reset` of MotionControl.cpp. The values of Cmd and the override limits are those of Config.h.
pub mod Overrides
pub mod Commands
mod Tests
use grbl_esp.Base.{
  ℕ, zero, suc, ◌+◌, ◌-◌, ◌*◌, ◌/◌, ◌%◌, ◌^◌, ◌≤◌, ◌<◌, min, max, ◌≡◌, refl, sym, ap, ap₂, ◌∙◌, ◌≢◌,
  ◌↔◌, ◌⊎◌, inl, inr, Bool, true, false, not, ◌&&◌, ◌||◌, Option, none, some, List, [], ◌∷◌, ◌++◌,
  map, append-nil, append_assoc, arith, ltb, leb, ◌==◌, if◌then◌else◌, ltb→lt, lt→ltb, leb→le,
  ==_iff, tests, Bool-cases, Option-cases, length, get_elem?, set, length-append, length-set,
  get_elem?-set_self, get_elem?-set_ne, get_or, take, drop, replicate, take-append-drop,
  length-take, length-drop, length-replicate, length-map,
}
use grbl_esp.InputBuffer
use grbl_esp.InputBuffer.{InputBuffer}
use grbl_esp.System.{System, State, ExecAlarm, same_state, is_alarm}
use grbl_esp.Subsystems.{Subsystems, Report, report_counters}

pub data Cmd : Type 0 where
  reset status_report cycle_start feed_hold safety_door jog_cancel debug_report : Cmd
  feed_ovr_reset feed_ovr_coarse_plus feed_ovr_coarse_minus feed_ovr_fine_plus : Cmd
  feed_ovr_fine_minus rapid_ovr_reset rapid_ovr_medium rapid_ovr_low rapid_ovr_extra_low : Cmd
  spindle_ovr_reset spindle_ovr_coarse_plus spindle_ovr_coarse_minus spindle_ovr_fine_plus : Cmd
  spindle_ovr_fine_minus spindle_ovr_stop coolant_flood_ovr_toggle coolant_mist_ovr_toggle : Cmd

abbrev pub cmd_value : Cmd → ℕ
cmd_value Cmd.reset = 0x18
cmd_value Cmd.status_report = b'?'
cmd_value Cmd.cycle_start = b'~'
cmd_value Cmd.feed_hold = b'!'
cmd_value Cmd.safety_door = 0x84
cmd_value Cmd.jog_cancel = 0x85
cmd_value Cmd.debug_report = 0x86
cmd_value Cmd.feed_ovr_reset = 0x90
cmd_value Cmd.feed_ovr_coarse_plus = 0x91
cmd_value Cmd.feed_ovr_coarse_minus = 0x92
cmd_value Cmd.feed_ovr_fine_plus = 0x93
cmd_value Cmd.feed_ovr_fine_minus = 0x94
cmd_value Cmd.rapid_ovr_reset = 0x95
cmd_value Cmd.rapid_ovr_medium = 0x96
cmd_value Cmd.rapid_ovr_low = 0x97
cmd_value Cmd.rapid_ovr_extra_low = 0x98
cmd_value Cmd.spindle_ovr_reset = 0x99
cmd_value Cmd.spindle_ovr_coarse_plus = 0x9A
cmd_value Cmd.spindle_ovr_coarse_minus = 0x9B
cmd_value Cmd.spindle_ovr_fine_plus = 0x9C
cmd_value Cmd.spindle_ovr_fine_minus = 0x9D
cmd_value Cmd.spindle_ovr_stop = 0x9E
cmd_value Cmd.coolant_flood_ovr_toggle = 0xA0
cmd_value Cmd.coolant_mist_ovr_toggle = 0xA1

abbrev pub all_cmds : List Cmd
all_cmds =
    Cmd.reset ∷ Cmd.status_report ∷ Cmd.cycle_start ∷ Cmd.feed_hold ∷ Cmd.safety_door
    ∷ Cmd.jog_cancel ∷ Cmd.debug_report ∷ Cmd.feed_ovr_reset ∷ Cmd.feed_ovr_coarse_plus
    ∷ Cmd.feed_ovr_coarse_minus ∷ Cmd.feed_ovr_fine_plus ∷ Cmd.feed_ovr_fine_minus
    ∷ Cmd.rapid_ovr_reset ∷ Cmd.rapid_ovr_medium ∷ Cmd.rapid_ovr_low ∷ Cmd.rapid_ovr_extra_low
    ∷ Cmd.spindle_ovr_reset ∷ Cmd.spindle_ovr_coarse_plus ∷ Cmd.spindle_ovr_coarse_minus
    ∷ Cmd.spindle_ovr_fine_plus ∷ Cmd.spindle_ovr_fine_minus ∷ Cmd.spindle_ovr_stop
    ∷ Cmd.coolant_flood_ovr_toggle ∷ Cmd.coolant_mist_ovr_toggle ∷ []

find_cmd : ℕ → List Cmd → Option Cmd
find_cmd data_byte [] = none
find_cmd data_byte (c ∷ cs) = if cmd_value c == data_byte then some c else find_cmd data_byte cs

-- `static_cast<Cmd>(data)`: the case of the switch that a byte takes, if any
unfoldable pub cmd_of_byte : ℕ → Option Cmd
unfolding find_cmd
cmd_of_byte data_byte = find_cmd data_byte all_cmds

pub is_realtime_command : ℕ → Bool
is_realtime_command data_byte =
    if leb 0x80 data_byte
    then true
    else data_byte == cmd_value Cmd.reset
      || data_byte == cmd_value Cmd.status_report
      || data_byte == cmd_value Cmd.cycle_start
      || data_byte == cmd_value Cmd.feed_hold

-- FeedOverride, SpindleSpeedOverride and RapidOverride of Config.h
abbrev pub override_default : ℕ
override_default = 100

abbrev pub override_max : ℕ
override_max = 200

abbrev pub override_min : ℕ
override_min = 10

abbrev pub coarse_increment : ℕ
coarse_increment = 10

abbrev pub fine_increment : ℕ
fine_increment = 1

-- `x += inc; if (x > Max) x = Max;` on a uint8_t
pub increase : ℕ → ℕ → ℕ
increase inc x = let sum = (x + inc) % 2 ^ 8 in if ltb override_max sum then override_max else sum

-- `x -= inc; if (x < Min) x = Min;` on a uint8_t
pub decrease : ℕ → ℕ → ℕ
decrease inc x =
    let difference = (x + 2 ^ 8 - inc) % 2 ^ 8 in
    if ltb difference override_min then override_min else difference

module _ {W : Type 0} (sub : Subsystems W) where
  open sub use {
    report, spindle_stop, coolant_stop, sys_digital_all_off, sys_analog_all_off, sd_is_printing,
    close_file, set_dual_mode, st_go_idle,
  }

  stop_sd_job : W → W
  stop_sd_job w = if sd_is_printing w then close_file (report Report.sd_file_quit w) else w

  is_moving : System → Bool
  is_moving s =
      same_state s.state State.cycle
      || same_state s.state State.homing
      || same_state s.state State.jog
      || s.step_control.execute_hold
      || s.step_control.execute_sys_motion

  -- the alarm that a reset during a motion leaves behind
  reset_alarm : System → ExecAlarm
  reset_alarm s =
      if same_state s.state State.homing
      then if is_alarm s.rt_exec_alarm then s.rt_exec_alarm else ExecAlarm.homing_fail_reset
      else ExecAlarm.abort_cycle

  kill_steppers : System → W → System × W
  unfolding is_moving reset_alarm
  kill_steppers s w =
      if is_moving s
      then (let s' = record s { rt_exec_alarm = reset_alarm s } in (s', st_go_idle s' w))
      else (s, w)

  -- MotionControl.cpp `mc_reset`
  unfoldable pub mc_reset : System → W → System × W
  unfolding kill_steppers stop_sd_job
  mc_reset s w =
      if s.rt_exec_state.reset
      then (s, w)
      else let s' = record s { rt_exec_state = record s.rt_exec_state { reset = true } } in
        let w' =
          stop_sd_job (sys_analog_all_off (sys_digital_all_off (coolant_stop (spindle_stop w)))) in
        let (t, v) = kill_steppers s' w' in (t, set_dual_mode v)

  -- `execute_realtime_command`, by the case of the switch; DEBUG is not defined, so DebugReport does
  -- nothing
  unfoldable pub run_cmd : Cmd → System → W → System × W
  unfolding increase decrease mc_reset
  run_cmd Cmd.reset s w = mc_reset s w
  run_cmd Cmd.status_report s w = (report_counters s, report Report.realtime_status w)
  run_cmd Cmd.cycle_start s w =
      (record s { rt_exec_state = record s.rt_exec_state { cycle_start = true } }, w)
  run_cmd Cmd.feed_hold s w =
      (record s { rt_exec_state = record s.rt_exec_state { feed_hold = true } }, w)
  run_cmd Cmd.safety_door s w =
      (record s { rt_exec_state = record s.rt_exec_state { safety_door = true } }, w)
  run_cmd Cmd.jog_cancel s w =
      if same_state s.state State.jog
      then (record s { rt_exec_state = record s.rt_exec_state { motion_cancel = true } }, w)
      else (s, w)
  run_cmd Cmd.debug_report s w = (s, w)
  run_cmd Cmd.spindle_ovr_stop s w =
      (record s { rt_accessory = record s.rt_accessory { spindle_ovr_stop = true } }, w)
  run_cmd Cmd.feed_ovr_reset s w = (record s { rt_f_override = override_default }, w)
  run_cmd Cmd.feed_ovr_coarse_plus s w =
      (record s { rt_f_override = increase coarse_increment s.rt_f_override }, w)
  run_cmd Cmd.feed_ovr_coarse_minus s w =
      (record s { rt_f_override = decrease coarse_increment s.rt_f_override }, w)
  run_cmd Cmd.feed_ovr_fine_plus s w =
      (record s { rt_f_override = increase fine_increment s.rt_f_override }, w)
  run_cmd Cmd.feed_ovr_fine_minus s w =
      (record s { rt_f_override = decrease fine_increment s.rt_f_override }, w)
  run_cmd Cmd.rapid_ovr_reset s w = (record s { rt_r_override = 100 }, w)
  run_cmd Cmd.rapid_ovr_medium s w = (record s { rt_r_override = 50 }, w)
  run_cmd Cmd.rapid_ovr_low s w = (record s { rt_r_override = 25 }, w)
  run_cmd Cmd.rapid_ovr_extra_low s w = (record s { rt_r_override = 5 }, w)
  run_cmd Cmd.spindle_ovr_reset s w = (record s { rt_s_override = override_default }, w)
  run_cmd Cmd.spindle_ovr_coarse_plus s w =
      (record s { rt_s_override = increase coarse_increment s.rt_s_override }, w)
  run_cmd Cmd.spindle_ovr_coarse_minus s w =
      (record s { rt_s_override = decrease coarse_increment s.rt_s_override }, w)
  run_cmd Cmd.spindle_ovr_fine_plus s w =
      (record s { rt_s_override = increase fine_increment s.rt_s_override }, w)
  run_cmd Cmd.spindle_ovr_fine_minus s w =
      (record s { rt_s_override = decrease fine_increment s.rt_s_override }, w)
  run_cmd Cmd.coolant_flood_ovr_toggle s w =
      (record s { rt_accessory = record s.rt_accessory { coolant_flood_ovr_toggle = true } }, w)
  run_cmd Cmd.coolant_mist_ovr_toggle s w =
      (record s { rt_accessory = record s.rt_accessory { coolant_mist_ovr_toggle = true } }, w)

  -- a byte that is no command matches no case
  unfoldable pub execute_realtime_command : ℕ → System → W → System × W
  unfolding run_cmd cmd_of_byte
  execute_realtime_command data_byte s w = elim (cmd_of_byte data_byte) [
    | none ↦ (s, w)
    | some c ↦ run_cmd c s w
  ]
