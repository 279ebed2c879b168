-- ===== src/Serial/Tests.antt =====
-- Realtime commands on a concrete system.
use grbl_esp.Base.{◌≡◌, refl, arith}
use grbl_esp.System.{System, State, fresh_system}
use grbl_esp.Subsystems.Trace.{trace, quiet}
use grbl_esp.Serial.{mc_reset, execute_realtime_command}
use grbl_esp.Serial.Overrides.{IsInRange, execute_realtime_command-IsInRange}
use grbl_esp.Serial.Commands.{Pending, with_flags, execute_realtime_command-flags, mc_reset_twice}

abbrev running : System
running = fresh_system State.cycle

fresh-IsInRange : IsInRange running
fresh-IsInRange = omega arith

execute_realtime_command-IsInRange_example :
    IsInRange (execute_realtime_command trace 0x92 running quiet).0
execute_realtime_command-IsInRange_example =
    execute_realtime_command-IsInRange trace 0x92 running quiet fresh-IsInRange

coarse_minus : (execute_realtime_command trace 0x92 running quiet).0.rt_f_override ≡ 90
unfolding execute_realtime_command
coarse_minus = refl

execute_realtime_command-flags_example :
    ((execute_realtime_command trace 0x18 running quiet).0
      ≡ with_flags running (execute_realtime_command trace 0x18 running quiet).0)
    × Pending running (execute_realtime_command trace 0x18 running quiet).0
execute_realtime_command-flags_example = execute_realtime_command-flags trace 0x18 running quiet

mc_reset_twice_example : let (t, v) = mc_reset trace running quiet in mc_reset trace t v ≡ (t, v)
mc_reset_twice_example = mc_reset_twice trace running quiet
