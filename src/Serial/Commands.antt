-- ===== src/Serial/Commands.antt =====
-- What a realtime command may change: execute_realtime_command (Serial.cpp) and mc_reset.
use grbl_esp.Base.{ℕ, ◌≡◌, refl, inl, inr, true, arith, Option-cases}
use grbl_esp.System.{System, ExecState, is_alarm}
use grbl_esp.Subsystems.{Subsystems}
use grbl_esp.Serial.{Cmd, cmd_of_byte, mc_reset, run_cmd, execute_realtime_command}

-- The flags of `a` are set in `b` too.
pub record Kept (a b : ExecState) : Type 0 where
  pub status_report : a.status_report ≡ true → b.status_report ≡ true
  pub cycle_start : a.cycle_start ≡ true → b.cycle_start ≡ true
  pub cycle_stop : a.cycle_stop ≡ true → b.cycle_stop ≡ true
  pub feed_hold : a.feed_hold ≡ true → b.feed_hold ≡ true
  pub reset : a.reset ≡ true → b.reset ≡ true
  pub safety_door : a.safety_door ≡ true → b.safety_door ≡ true
  pub motion_cancel : a.motion_cancel ≡ true → b.motion_cancel ≡ true
  pub sleep : a.sleep ≡ true → b.sleep ≡ true

-- What is pending in `s` is pending in `t`: the flags, those of the accessories, and an alarm.
pub record Pending (s t : System) : Type 0 where
  pub exec : Kept s.rt_exec_state t.rt_exec_state
  pub alarm : is_alarm s.rt_exec_alarm ≡ true → is_alarm t.rt_exec_alarm ≡ true
  pub spindle_stop : s.rt_accessory.spindle_ovr_stop ≡ true → t.rt_accessory.spindle_ovr_stop ≡ true
  pub flood_toggle :
      s.rt_accessory.coolant_flood_ovr_toggle ≡ true
      → t.rt_accessory.coolant_flood_ovr_toggle ≡ true
  pub mist_toggle :
      s.rt_accessory.coolant_mist_ovr_toggle ≡ true → t.rt_accessory.coolant_mist_ovr_toggle ≡ true

-- `s` with the realtime globals and the report counters of `t`
abbrev pub with_flags : System → System → System
with_flags s t = record s {
  rt_exec_state = t.rt_exec_state;
  rt_exec_alarm = t.rt_exec_alarm;
  rt_accessory = t.rt_accessory;
  rt_f_override = t.rt_f_override;
  rt_r_override = t.rt_r_override;
  rt_s_override = t.rt_s_override;
  report_wco_counter = t.report_wco_counter;
  report_ovr_counter = t.report_ovr_counter;
}

module _ {W : Type 0} (sub : Subsystems W) where
  mc_reset-flags :
      (s : System) (w : W)
      → ((mc_reset sub s w).0 ≡ with_flags s (mc_reset sub s w).0) × Pending s (mc_reset sub s w).0
  unfolding mc_reset
  mc_reset-flags s w = (ground arith, ground arith)

  run_cmd-flags :
      (c : Cmd) (s : System) (w : W)
      → ((run_cmd sub c s w).0 ≡ with_flags s (run_cmd sub c s w).0)
        × Pending s (run_cmd sub c s w).0
  unfolding run_cmd
  run_cmd-flags Cmd.reset s w = mc_reset-flags s w
  run_cmd-flags _ s w = (ground arith, ground arith)

  -- A realtime character writes only the `sys_rt_…` flags, alarm and overrides and the counters of the
  -- status report, no other field of the machine: not its state, nor `abort`, `suspend`, `cycle_stop`
  -- or the overrides in force. It clears no pending flag of the two masks and no pending alarm, though
  -- it may put another alarm in its place.
  pub execute_realtime_command-flags :
      (data_byte : ℕ) (s : System) (w : W)
      → ((execute_realtime_command sub data_byte s w).0
          ≡ with_flags s (execute_realtime_command sub data_byte s w).0)
        × Pending s (execute_realtime_command sub data_byte s w).0
  unfolding execute_realtime_command
  execute_realtime_command-flags data_byte s w = elim (Option-cases (cmd_of_byte data_byte)) [
    | inl e ↦ rw (e, execute_realtime_command) (refl, ground arith)
    | inr (c, e) ↦ rw (e, execute_realtime_command) (run_cmd-flags c s w)
  ]

  mc_reset_sets : (s : System) (w : W) → (mc_reset sub s w).0.rt_exec_state.reset ≡ true
  unfolding mc_reset
  mc_reset_sets s w = ground arith

  -- A reset that is pending already is not carried out again: spindle, coolant, outputs and steppers
  -- are stopped once.
  pub mc_reset_twice :
      (s : System) (w : W) → let (t, v) = mc_reset sub s w in mc_reset sub t v ≡ (t, v)
  mc_reset_twice s w = pending (mc_reset sub s w).0 (mc_reset sub s w).1 (mc_reset_sets s w)
    where
      pending : (t : System) (v : W) → t.rt_exec_state.reset ≡ true → mc_reset sub t v ≡ (t, v)
      pending t v h = unfold mc_reset in ground arith
