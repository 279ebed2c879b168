-- ===== src/Stepper/Prepare/Tests.antt =====
-- `st_prep_buffer` on a block of three events, with whole numbers for floats.
use grbl_esp.Base.{
  ℕ, ◌+◌, ◌-◌, ◌*◌, ◌/◌, ◌%◌, ◌≡◌, refl, true, false, Option, none, some, List, [], ◌∷◌, map, arith,
  ltb, leb, ◌==◌,
}
use grbl_esp.System.{State, fresh_system, no_step_control}
use grbl_esp.GCode.{SpindleState}
use grbl_esp.Planner.{
  PlanBlock, plan_get_current_block, plan_next_block_index, plan_discard_current_block,
}
use grbl_esp.Stepper.{Stepper, Segment}
use grbl_esp.Stepper.Exact.{ArePartsOf, sum}
use grbl_esp.Stepper.Arrives.{shifted}
use grbl_esp.Stepper.Prepare.{
  MotionOps, Drive, Motion, StPrep, RampType, no_prep_flag, begin_block, bresenham_block,
  query_block, st_next_block_index,
}
use grbl_esp.Stepper.Prepare.Profile.{
  load_plan_block, take_block, compute_profile, hold_profile, normal_profile, decel_profile,
  trapezoid, plan_compute_profile_nominal_speed, plan_get_exec_block_exit_speed_sqr,
}
use grbl_esp.Stepper.Prepare.Ramp.{
  Ramp, ramp_loop, ramp_step, ramp_clock, ramp_start, minimum_mm, ramp_decel_override, ramp_accel,
  ramp_cruise, ramp_decel,
}
use grbl_esp.Stepper.Prepare.Fill.{
  Round, returns, prep_loop, prep_round, st_prep_buffer, fill_segment, segment_rpm, bails,
  segment_events, bail_segment, write_segment, end_motion, complete_segment, add_segment,
  new_segment, segment_rate, finished_segment, push_segment, after_segment, amass,
}
use grbl_esp.Stepper.Prepare.Fill.Ring.{IsRing}
use grbl_esp.Stepper.Prepare.Parking.{
  st_parking_setup_buffer, st_parking_restore_buffer, nothing, prepares, updates,
  update_plan_block_parameters,
}
use grbl_esp.Stepper.Prepare.Parking.Restore.{Restored, st_parking_restore_buffer-Restored}
use grbl_esp.Stepper.Prepare.Fill.Ends.{Ended, st_prep_buffer-Ended}
use grbl_esp.Stepper.Prepare.Fill.Counts.{Counts, made, Falls, fill_all}
use grbl_esp.Stepper.Prepare.Fill.Block.{begun, load_plan_block-made}

abbrev whole : MotionOps ℕ
whole = record {
  plus = λ a b. a + b;
  minus = λ a b. a - b;
  times = λ a b. a * b;
  over = λ a b. a / b;
  root = λ a. a;
  ceil = λ a. a;
  less = ltb;
  leq = leb;
  same = λ a b. a == b;
  of_uint = λ n. n;
  to_u16 = λ a. a % 65536;
  to_u32 = λ a. a % 4294967296;
  half = 1;
  two = 2;
  hundredth = 1;
  dt_segment = 1;
  req_mm_increment_scalar = 1;
  ticks_per_minute = 3000;
  minimum_feed_rate = 1;
}

whole-Counts : Counts ℕ whole
whole-Counts = record {
  count = λ x. x;
  count_ceil = λ x. refl;
  count_minus = λ x y h b k. omega (arith, h, k);
  count_uint = λ n h. refl;
}

abbrev planned : PlanBlock ℕ
planned = record {
  steps = 3 ∷ 2 ∷ [];
  step_event_count = 3;
  direction_bits = 2;
  motion = record {
    rapid_motion = false;
    system_motion = false;
    no_feed_override = true;
    inverse_time = false;
  };
  spindle = SpindleState.disable;
  coolant = record { mist = false; flood = false };
  entry_speed_sqr = 1;
  max_entry_speed_sqr = 1;
  acceleration = 1;
  millimeters = 3;
  max_junction_speed_sqr = 1;
  rapid_rate = 1;
  programmed_rate = 1;
  spindle_speed = 0;
}

abbrev segment : Segment
segment = record {
  n_step = 0;
  isr_period = 0;
  st_block_index = 0;
  amass_level = 0;
  spindle_rpm = 0;
}

abbrev stepper : Stepper
stepper = record {
  axes = [];
  step_outbits = [];
  dir_outbits = [];
  step_count = 0;
  exec_block_index = 0;
  exec_block = none;
  exec_segment = none;
  tail = 0;
  head = 0;
  next_head = 1;
  segments = λ i. segment;
  blocks = λ i. record {
    steps = [];
    step_event_count = 0;
    direction_bits = [];
    is_pwm_rate_adjusted = false;
  };
  probe_active = false;
  probe_position = [];
  motion_cancel = false;
  cycle_stop = false;
  calls = [];
}

-- as `st_reset` leaves it
abbrev fresh_prep : StPrep ℕ
fresh_prep = record {
  st_block_index = 0;
  recalculate_flag = no_prep_flag;
  dt_remainder = 0;
  steps_remaining = 0;
  step_per_mm = 0;
  req_mm_increment = 0;
  last_st_block_index = 0;
  last_steps_remaining = 0;
  last_step_per_mm = 0;
  last_dt_remainder = 0;
  ramp_type = RampType.ramp_accel;
  mm_complete = 0;
  current_speed = 0;
  maximum_speed = 0;
  exit_speed = 0;
  accelerate_until = 0;
  decelerate_after = 0;
  inv_rate = 0;
  current_spindle_rpm = 0;
}

abbrev motion : Motion ℕ
motion = record {
  sys = fresh_system State.cycle;
  stepper = stepper;
  prep = fresh_prep;
  pl_block = none;
  st_prep_block = 0;
  indices = record { tail = 0; head = 1; next_head = 2; planned = 0 };
  plan = λ i. planned;
}

abbrev drive : Drive
drive = record { n_axis = 2; in_laser_mode = false }

abbrev ramp : ℕ → Ramp ℕ
ramp mm = record {
  dt_max = 1;
  dt = 1;
  time_var = 1;
  mm_remaining = mm;
  ramp_type = RampType.ramp_cruise;
  current_speed = 1;
}

stepper-IsRing : IsRing stepper
stepper-IsRing = record { tail_lt = omega arith; head_lt = omega arith; next_head_is = refl }

st_prep_buffer-Ended_example :
    (result : Round ℕ) × (st_prep_buffer 6 100 whole drive motion ≡ some result)
    × Ended [] stepper result
st_prep_buffer-Ended_example = st_prep_buffer-Ended 100 whole drive [] motion stepper-IsRing refl

query : query_block motion ≡ some 0
unfolding query_block plan_get_current_block
query = refl

falls :
    Falls whole-Counts
      (begun whole drive 0 motion).prep.step_per_mm
      (whole-Counts.count (begun whole drive 0 motion).prep.steps_remaining)
      (ramp 1 ∷ ramp 0 ∷ [])
unfolding whole-Counts compute_profile hold_profile normal_profile decel_profile trapezoid
    take_block plan_compute_profile_nominal_speed plan_get_exec_block_exit_speed_sqr
    plan_next_block_index begin_block bresenham_block st_next_block_index
falls = (omega arith, omega arith, (omega arith, omega arith, tt))

ended :
    whole-Counts.count
      (fill_all whole 0 (ramp 1 ∷ ramp 0 ∷ []) (begun whole drive 0 motion)).prep.steps_remaining
    ≡ 0
unfolding whole-Counts compute_profile hold_profile normal_profile decel_profile trapezoid
    take_block plan_compute_profile_nominal_speed plan_get_exec_block_exit_speed_sqr
    plan_next_block_index begin_block bresenham_block st_next_block_index fill_segment segment_rpm
    bails segment_events bail_segment write_segment end_motion complete_segment add_segment
    new_segment segment_rate finished_segment push_segment after_segment amass
    plan_discard_current_block
ended = refl

load_plan_block-made_example :
    let t = begun whole drive 0 motion in
    (load_plan_block whole drive motion ≡ some (0, t))
    × ((t.stepper.blocks t.prep.st_block_index).steps ≡ map shifted (3 ∷ 2 ∷ []))
    × ((t.stepper.blocks t.prep.st_block_index).step_event_count ≡ 24)
    × (ms : List ℕ) × ArePartsOf ms (made whole 0 (ramp 1 ∷ ramp 0 ∷ []) t)
    × (sum ms ≡ 3)
load_plan_block-made_example =
    load_plan_block-made whole whole-Counts drive 0 (ramp 1 ∷ ramp 0 ∷ []) motion refl query refl
      refl (omega arith) (omega arith, (omega arith, tt)) falls ended

-- the steps of the first segments, and the place behind the last one
abbrev run_lengths : Option (Round ℕ) → List ℕ × ℕ
run_lengths (some (returns u)) =
    (map (λ (i : ℕ). (u.stepper.segments i).n_step) (0 ∷ 1 ∷ 2 ∷ 3 ∷ []), u.stepper.head)
run_lengths _ = ([], 99)

-- one segment, of three events at the second smoothing level
segments_filled : run_lengths (st_prep_buffer 6 10 whole drive motion) ≡ (12 ∷ 0 ∷ 0 ∷ 0 ∷ [], 1)
unfolding compute_profile hold_profile normal_profile decel_profile trapezoid take_block
    plan_compute_profile_nominal_speed plan_get_exec_block_exit_speed_sqr plan_next_block_index
    begin_block bresenham_block st_next_block_index fill_segment segment_rpm bails segment_events
    bail_segment write_segment end_motion complete_segment add_segment new_segment segment_rate
    finished_segment push_segment after_segment amass plan_discard_current_block st_prep_buffer
    prep_loop prep_round load_plan_block query_block plan_get_current_block ramp_loop ramp_step
    ramp_clock ramp_start minimum_mm ramp_decel_override ramp_accel ramp_cruise ramp_decel
segments_filled = refl

-- a block with a step left is put aside, segments are made, and it is taken up again
abbrev held : Motion ℕ
held = record motion {
  sys = record (fresh_system State.hold) {
    step_control = record no_step_control { execute_sys_motion = true };
  };
  prep = record fresh_prep {
    st_block_index = 3;
    steps_remaining = 7;
    step_per_mm = 2;
    recalculate_flag = record no_prep_flag { hold_partial_block = true };
  };
}

-- the motion that the parking leaves
abbrev motion_of : Option (Round ℕ) → Motion ℕ
motion_of (some (returns u)) = u
motion_of _ = motion

abbrev parked : Motion ℕ
parked = motion_of (st_prep_buffer 6 10 whole drive (st_parking_setup_buffer held))

parked_is : st_prep_buffer 6 10 whole drive (st_parking_setup_buffer held) ≡ some (returns parked)
unfolding compute_profile hold_profile normal_profile decel_profile trapezoid take_block
    plan_compute_profile_nominal_speed plan_get_exec_block_exit_speed_sqr plan_next_block_index
    begin_block bresenham_block st_next_block_index fill_segment segment_rpm bails segment_events
    bail_segment write_segment end_motion complete_segment add_segment new_segment segment_rate
    finished_segment push_segment after_segment amass plan_discard_current_block st_prep_buffer
    prep_loop prep_round load_plan_block query_block plan_get_current_block ramp_loop ramp_step
    ramp_clock ramp_start minimum_mm ramp_decel_override ramp_accel ramp_cruise ramp_decel
    st_parking_setup_buffer
parked_is = refl

-- the cycle stop behind the motion
abbrev stopped : Motion ℕ
stopped = update_plan_block_parameters whole parked

st_parking_restore_buffer-Restored_example : Restored held (st_parking_restore_buffer whole stopped)
st_parking_restore_buffer-Restored_example =
    st_parking_restore_buffer-Restored whole drive held stopped refl
      (prepares 6 10 _ parked stopped parked_is (updates parked stopped (nothing stopped)))
