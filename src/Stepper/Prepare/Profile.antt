-- ===== src/Stepper/Prepare/Profile.antt =====
-- The velocity profile of a planner block (`st_prep_buffer`, Stepper.cpp), with its calls of
-- Planner.cpp.
use grbl_esp.Base.{ℕ, true, Option, none, some, ◌==◌, if◌then◌else◌}
use grbl_esp.System.{System}
use grbl_esp.Planner.{PlanBlock, Indices, plan_next_block_index}
use grbl_esp.Stepper.Prepare.{
  MotionOps, Drive, RampType, StPrep, Motion, query_block, begin_block, recalculated,
}

-- Planner.cpp `plan_get_exec_block_exit_speed_sqr`
unfoldable pub plan_get_exec_block_exit_speed_sqr :
    {F : Type 0} → MotionOps F → Indices → (ℕ → PlanBlock F) → F
plan_get_exec_block_exit_speed_sqr o r plan =
    let i = plan_next_block_index r.tail in
    if i == r.head then o.of_uint 0 else (plan i).entry_speed_sqr

-- Planner.cpp `plan_compute_profile_nominal_speed`
unfoldable pub plan_compute_profile_nominal_speed :
    {F : Type 0} → MotionOps F → System → PlanBlock F → F
plan_compute_profile_nominal_speed o sys b =
    let speed =
      if b.motion.rapid_motion
      then o.times b.programmed_rate (o.times o.hundredth (o.of_uint sys.r_override))
      else (let fed =
            if b.motion.no_feed_override
            then b.programmed_rate
            else o.times b.programmed_rate (o.times o.hundredth (o.of_uint sys.f_override)) in
          if o.less b.rapid_rate fed then b.rapid_rate else fed) in
    if o.less o.minimum_feed_rate speed then speed else o.minimum_feed_rate

-- a forced deceleration to zero speed
unfoldable pub hold_profile : {F : Type 0} → MotionOps F → PlanBlock F → StPrep F → StPrep F
hold_profile o b p =
    let inv_2_accel = o.over o.half b.acceleration in
    let decel_dist = o.minus b.millimeters (o.times inv_2_accel b.entry_speed_sqr) in
    if o.less decel_dist (o.of_uint 0)
    then record p {
      ramp_type = RampType.ramp_decel;
      mm_complete = o.of_uint 0;
      exit_speed =
          o.root (o.minus b.entry_speed_sqr (o.times (o.times o.two b.acceleration) b.millimeters));
    }
    else record p {
      ramp_type = RampType.ramp_decel;
      mm_complete = decel_dist;
      exit_speed = o.of_uint 0;
    }

-- a block that enters faster than its nominal speed, after an override
unfoldable pub decel_profile :
    {F : Type 0}
    → MotionOps F
    → PlanBlock F
    → (exit_speed_sqr nominal_speed : F) → StPrep F
    → StPrep F
decel_profile o b exit_speed_sqr nominal_speed p =
    let inv_2_accel = o.over o.half b.acceleration in
    let nominal_speed_sqr = o.times nominal_speed nominal_speed in
    let until =
      o.minus b.millimeters (o.times inv_2_accel (o.minus b.entry_speed_sqr nominal_speed_sqr)) in
    if o.leq until (o.of_uint 0)
    then record p {
      accelerate_until = until;
      ramp_type = RampType.ramp_decel;
      exit_speed =
          o.root (o.minus b.entry_speed_sqr (o.times (o.times o.two b.acceleration) b.millimeters));
      recalculate_flag = record p.recalculate_flag { decel_override = true };
    }
    else record p {
      accelerate_until = until;
      decelerate_after = o.times inv_2_accel (o.minus nominal_speed_sqr exit_speed_sqr);
      maximum_speed = nominal_speed;
      ramp_type = RampType.ramp_decel_override;
    }

-- the trapezoid, where the ramps up and down meet inside the block
unfoldable pub trapezoid :
    {F : Type 0}
    → MotionOps F
    → PlanBlock F
    → (exit_speed_sqr nominal_speed intersect : F) → StPrep F
    → StPrep F
trapezoid o b exit_speed_sqr nominal_speed intersect p =
    let inv_2_accel = o.over o.half b.acceleration in
    let nominal_speed_sqr = o.times nominal_speed nominal_speed in
    let after = o.times inv_2_accel (o.minus nominal_speed_sqr exit_speed_sqr) in
    if o.less after intersect
    then (if o.same b.entry_speed_sqr nominal_speed_sqr
        then record p {
          decelerate_after = after;
          maximum_speed = nominal_speed;
          ramp_type = RampType.ramp_cruise;
        }
        else record p {
          decelerate_after = after;
          maximum_speed = nominal_speed;
          accelerate_until =
              o.minus p.accelerate_until
                (o.times inv_2_accel (o.minus nominal_speed_sqr b.entry_speed_sqr));
        })
    else record p {
      accelerate_until = intersect;
      decelerate_after = intersect;
      maximum_speed =
          o.root (o.plus (o.times (o.times o.two b.acceleration) intersect) exit_speed_sqr);
    }

unfoldable pub normal_profile :
    {F : Type 0}
    → MotionOps F
    → PlanBlock F
    → (exit_speed_sqr exit_speed nominal_speed : F) → StPrep F
    → StPrep F
unfolding decel_profile trapezoid
normal_profile o b exit_speed_sqr exit_speed nominal_speed p =
    let t = record p {
      ramp_type = RampType.ramp_accel;
      mm_complete = o.of_uint 0;
      accelerate_until = b.millimeters;
      exit_speed = exit_speed;
    } in
    let inv_2_accel = o.over o.half b.acceleration in
    let intersect =
      o.times o.half
        (o.plus b.millimeters (o.times inv_2_accel (o.minus b.entry_speed_sqr exit_speed_sqr))) in
    if o.less (o.times nominal_speed nominal_speed) b.entry_speed_sqr
    then decel_profile o b exit_speed_sqr nominal_speed t
    else if o.less (o.of_uint 0) intersect
    then (if o.less intersect b.millimeters
        then trapezoid o b exit_speed_sqr nominal_speed intersect t
        else record t { ramp_type = RampType.ramp_decel })
    else record t { accelerate_until = o.of_uint 0; maximum_speed = exit_speed }

-- the profile of the block in hand
unfoldable pub compute_profile : {F : Type 0} → MotionOps F → ℕ → Motion F → Motion F
unfolding hold_profile normal_profile plan_compute_profile_nominal_speed
    plan_get_exec_block_exit_speed_sqr
compute_profile o i m =
    let b = m.plan i in
    let exit_speed_sqr =
      if m.sys.step_control.execute_sys_motion
      then o.of_uint 0
      else plan_get_exec_block_exit_speed_sqr o m.indices m.plan in
    let exit_speed =
      if m.sys.step_control.execute_sys_motion then o.of_uint 0 else o.root exit_speed_sqr in
    record m {
      prep =
          if m.sys.step_control.execute_hold
          then hold_profile o b m.prep
          else normal_profile o b exit_speed_sqr exit_speed
              (plan_compute_profile_nominal_speed o m.sys b) m.prep;
      sys = record m.sys { step_control = record m.sys.step_control { update_spindle_rpm = true } };
    }

-- a block of the planner is taken: anew, or to be planned again
unfoldable pub take_block : {F : Type 0} → MotionOps F → Drive → ℕ → Motion F → Motion F
unfolding begin_block
take_block o drive i m =
    let t = record m { pl_block = some i } in
    if t.prep.recalculate_flag.recalculate
    then record t {
      prep = record t.prep { recalculate_flag = recalculated t.prep.recalculate_flag };
    }
    else begin_block o drive i t

-- the block in hand, or a new one with its profile; `none` where the planner has no block
unfoldable pub load_plan_block :
    {F : Type 0} → MotionOps F → Drive → Motion F → Option (ℕ × Motion F)
unfolding query_block take_block compute_profile
load_plan_block o drive m = elim m.pl_block [
  | some i ↦ some (i, m)
  | none ↦ elim (query_block m) [
    | none ↦ none
    | some i ↦ some (i, compute_profile o i (take_block o drive i m))
  ]
]
