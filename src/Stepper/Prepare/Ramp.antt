-- ===== src/Stepper/Prepare/Ramp.antt =====
-- The distance of one segment along the ramps of the velocity profile (`st_prep_buffer`,
-- Stepper.cpp): the do-while loop over the ramps.
use grbl_esp.Base.{ℕ, zero, suc, Bool, true, false, ◌&&◌, ◌||◌, Option, none, some, if◌then◌else◌}
use grbl_esp.Planner.{PlanBlock}
use grbl_esp.Stepper.Prepare.{MotionOps, RampType, StPrep}

-- the loop's variables, with the fields of `prep` that it changes
pub record Ramp (F : Type 0) : Type 0 where
  pub dt_max : F
  pub dt : F
  pub time_var : F
  pub mm_remaining : F
  pub ramp_type : RampType
  pub current_speed : F

-- the variables at the start of a segment
unfoldable pub ramp_start : {F : Type 0} → MotionOps F → PlanBlock F → StPrep F → Ramp F
ramp_start o b p = record {
  dt_max = o.dt_segment;
  dt = o.of_uint 0;
  time_var = o.dt_segment;
  mm_remaining = b.millimeters;
  ramp_type = p.ramp_type;
  current_speed = p.current_speed;
}

-- the time of a ramp that ends at `mm`, between two speeds
abbrev pub ramp_time : {F : Type 0} → MotionOps F → F → F → F → F
ramp_time o distance speed speed' = o.over (o.times o.two distance) (o.plus speed speed')

unfoldable pub ramp_decel_override :
    {F : Type 0} → MotionOps F → PlanBlock F → StPrep F → Ramp F → Ramp F
ramp_decel_override o b p r =
    let speed_var = o.times b.acceleration r.time_var in
    let mm_var = o.times r.time_var (o.minus r.current_speed (o.times o.half speed_var)) in
    let mm = o.minus r.mm_remaining mm_var in
    if o.less mm p.accelerate_until || o.leq mm_var (o.of_uint 0)
    then record r {
      mm_remaining = p.accelerate_until;
      time_var =
          ramp_time o (o.minus b.millimeters p.accelerate_until) r.current_speed p.maximum_speed;
      ramp_type = RampType.ramp_cruise;
      current_speed = p.maximum_speed;
    }
    else record r { mm_remaining = mm; current_speed = o.minus r.current_speed speed_var }

unfoldable pub ramp_accel : {F : Type 0} → MotionOps F → PlanBlock F → StPrep F → Ramp F → Ramp F
ramp_accel o b p r =
    let speed_var = o.times b.acceleration r.time_var in
    let mm =
      o.minus r.mm_remaining
        (o.times r.time_var (o.plus r.current_speed (o.times o.half speed_var))) in
    if o.less mm p.accelerate_until
    then record r {
      mm_remaining = p.accelerate_until;
      time_var =
          ramp_time o (o.minus b.millimeters p.accelerate_until) r.current_speed p.maximum_speed;
      ramp_type =
          if o.same p.accelerate_until p.decelerate_after
          then RampType.ramp_decel
          else RampType.ramp_cruise;
      current_speed = p.maximum_speed;
    }
    else record r { mm_remaining = mm; current_speed = o.plus r.current_speed speed_var }

unfoldable pub ramp_cruise : {F : Type 0} → MotionOps F → StPrep F → Ramp F → Ramp F
ramp_cruise o p r =
    let mm_var = o.minus r.mm_remaining (o.times p.maximum_speed r.time_var) in
    if o.less mm_var p.decelerate_after
    then record r {
      time_var = o.over (o.minus r.mm_remaining p.decelerate_after) p.maximum_speed;
      mm_remaining = p.decelerate_after;
      ramp_type = RampType.ramp_decel;
    }
    else record r { mm_remaining = mm_var }

unfoldable pub ramp_decel : {F : Type 0} → MotionOps F → PlanBlock F → StPrep F → Ramp F → Ramp F
ramp_decel o b p r =
    let speed_var = o.times b.acceleration r.time_var in
    let mm_var =
      o.minus r.mm_remaining
        (o.times r.time_var (o.minus r.current_speed (o.times o.half speed_var))) in
    if o.less speed_var r.current_speed && o.less p.mm_complete mm_var
    then record r { mm_remaining = mm_var; current_speed = o.minus r.current_speed speed_var }
    else record r {
      time_var = ramp_time o (o.minus r.mm_remaining p.mm_complete) r.current_speed p.exit_speed;
      mm_remaining = p.mm_complete;
      current_speed = p.exit_speed;
    }

-- the switch over the ramps
unfoldable pub ramp_step : {F : Type 0} → MotionOps F → PlanBlock F → StPrep F → Ramp F → Ramp F
unfolding ramp_decel_override ramp_accel ramp_cruise ramp_decel
ramp_step o b p r = elim r.ramp_type [
  | RampType.ramp_decel_override ↦ ramp_decel_override o b p r
  | RampType.ramp_accel ↦ ramp_accel o b p r
  | RampType.ramp_cruise ↦ ramp_cruise o p r
  | RampType.ramp_decel ↦ ramp_decel o b p r
]

-- the time behind the switch; `true` where the loop breaks
unfoldable pub ramp_clock : {F : Type 0} → MotionOps F → (minimum_mm : F) → Ramp F → Ramp F × Bool
ramp_clock o minimum_mm r =
    let dt = o.plus r.dt r.time_var in
    if o.less dt r.dt_max
    then (record r { dt = dt; time_var = o.minus r.dt_max dt }, false)
    else if o.less minimum_mm r.mm_remaining
    then (let more = o.plus r.dt_max o.dt_segment in
        (record r { dt = dt; dt_max = more; time_var = o.minus more dt }, false))
    else (record r { dt = dt }, true)

-- the loop, on fuel: `none` where it has not ended
unfoldable pub ramp_loop :
    {F : Type 0}
    → ℕ
    → MotionOps F
    → (minimum_mm : F) → PlanBlock F
    → StPrep F
    → Ramp F
    → Option (Ramp F)
unfolding ramp_step ramp_clock
ramp_loop zero o minimum_mm b p r = none
ramp_loop (suc n) o minimum_mm b p r =
    let (t, ended) = ramp_clock o minimum_mm (ramp_step o b p r) in
    let rest = ramp_loop n o minimum_mm b p t in
    if ended then some t else if o.less p.mm_complete t.mm_remaining then rest else some t

-- the least distance of a segment
unfoldable pub minimum_mm : {F : Type 0} → MotionOps F → PlanBlock F → StPrep F → F
minimum_mm o b p =
    let mm = o.minus b.millimeters p.req_mm_increment in
    if o.less mm (o.of_uint 0) then o.of_uint 0 else mm

-- `prep` behind the loop
abbrev pub ramped : {F : Type 0} → StPrep F → Ramp F → StPrep F
ramped p r = record p { ramp_type = r.ramp_type; current_speed = r.current_speed }
