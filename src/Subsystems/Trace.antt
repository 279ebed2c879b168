-- ===== src/Subsystems/Trace.antt =====
-- A concrete world for tests: a log of the calls, newest first, the number of queued blocks, and
-- whether the spindle runs and an SD job is being printed.
use grbl_esp.Base.{ℕ, refl, Bool, false, List, [], ◌∷◌, ltb}
use grbl_esp.Subsystems.{Report, Subsystems, PrepKeeps}

pub data Called : Type 0 where
  reported : Report → Called
  updated_block prepared woken idled reset_steppers reinitialized updated_profile reset_plan :
      Called
  synced_plan synced_gc set_rpm stopped_spindle flipped_flood flipped_mist wrote_coolant : Called
  stopped_coolant digital_off analog_off closed_file dual : Called

pub record World : Type 0 where
  pub calls : List Called
  pub blocks : ℕ
  pub spindle_on : Bool
  pub printing : Bool

abbrev pub note : Called → World → World
note c w = record w { calls = c ∷ w.calls }

abbrev pub trace : Subsystems World
trace = record {
  report = λ r. note (reported r);
  st_update_plan_block_parameters = note updated_block;
  st_prep_buffer = λ s w. (s, note prepared w);
  st_wake_up = note woken;
  st_go_idle = λ s. note idled;
  st_reset = λ s. note reset_steppers;
  plan_has_block = λ w. ltb 0 w.blocks;
  plan_cycle_reinitialize = note reinitialized;
  plan_update_velocity_profile_parameters = λ s. note updated_profile;
  plan_reset = λ w. note reset_plan (record w { blocks = 0 });
  plan_sync_position = note synced_plan;
  gc_sync_position = note synced_gc;
  gc_spindle_on = λ w. w.spindle_on;
  spindle_set_rpm = λ s w. (s.spindle_speed_ovr, note set_rpm w);
  spindle_stop = note stopped_spindle;
  flip_flood = note flipped_flood;
  flip_mist = note flipped_mist;
  coolant_write = note wrote_coolant;
  coolant_stop = note stopped_coolant;
  sys_digital_all_off = note digital_off;
  sys_analog_all_off = note analog_off;
  sd_is_printing = λ w. w.printing;
  close_file = λ w. note closed_file (record w { printing = false });
  set_dual_mode = note dual;
}

abbrev pub quiet : World
quiet = record { calls = []; blocks = 0; spindle_on = false; printing = false }

pub trace-PrepKeeps : PrepKeeps trace
trace-PrepKeeps = record { keeps = λ s w. refl }
