-- ===== src/Serial/Overrides.antt =====
-- The feed, rapid and spindle overrides of execute_realtime_command (Serial.cpp) stay in range.
use grbl_esp.Base.{ℕ, ◌+◌, ◌-◌, ◌≤◌, min, max, ◌≡◌, inl, inr, arith, Option-cases}
use grbl_esp.System.{System}
use grbl_esp.Subsystems.{Subsystems}
use grbl_esp.Serial.{
  Cmd, increase, decrease, run_cmd, cmd_of_byte, execute_realtime_command, override_min,
  override_max,
}

pub record IsInRange (s : System) : Type 0 where
  pub f_min : override_min ≤ s.rt_f_override
  pub f_max : s.rt_f_override ≤ override_max
  pub s_min : override_min ≤ s.rt_s_override
  pub s_max : s.rt_s_override ≤ override_max
  pub r_min : 5 ≤ s.rt_r_override
  pub r_max : s.rt_r_override ≤ 100

-- No wrap of the uint8_t within the limits: the step saturates.
pub increase_lem :
    (inc x : ℕ) → inc ≤ 55 → x ≤ override_max → increase inc x ≡ min (x + inc) override_max
unfolding increase
increase_lem inc x h k = ground arith

pub decrease_lem :
    (inc x : ℕ)
    → inc ≤ override_min
    → override_min ≤ x
    → x ≤ override_max
    → decrease inc x ≡ max (x - inc) override_min
unfolding decrease
decrease_lem inc x h k m = ground arith

module _ {W : Type 0} (sub : Subsystems W) where
  run_cmd-IsInRange : (c : Cmd) (s : System) (w : W) → IsInRange s → IsInRange (run_cmd sub c s w).0
  unfolding run_cmd
  run_cmd-IsInRange Cmd.reset s w v = ground arith
  run_cmd-IsInRange _ s w v = ground arith

  -- No byte from a client takes the feed or spindle override out of 10 to 200 percent, or the rapid
  -- override out of 5 to 100.
  pub execute_realtime_command-IsInRange :
      (data_byte : ℕ) (s : System) (w : W)
      → IsInRange s
      → IsInRange (execute_realtime_command sub data_byte s w).0
  unfolding execute_realtime_command
  execute_realtime_command-IsInRange data_byte s w v = elim (Option-cases (cmd_of_byte data_byte)) [
    | inl e ↦ rw (e, execute_realtime_command) v
    | inr (c, e) ↦ rw (e, execute_realtime_command) (run_cmd-IsInRange c s w v)
  ]
