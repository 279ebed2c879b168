-- ===== src/Stepper/Prepare.antt =====
-- Stepper.cpp (Grbl_Esp32/src): `st_prep_buffer` and its state, with the calls that it makes of
-- Planner.cpp. This file has the state and the loading of a planner block; Profile has the velocity
-- profile of a block, Ramp the distance of one segment, and Fill the segment and the loop. Floats
-- are a type F with the operations of MotionOps, and a double is not told apart from a float. A
-- pointer to a block is the index of its place.
pub mod Profile
pub mod Ramp
pub mod Fill
pub mod Parking
mod Tests
use grbl_esp.Base.{
  ℕ, zero, suc, ◌+◌, ◌-◌, ◌*◌, ◌/◌, ◌%◌, ◌^◌, ◌≤◌, ◌<◌, min, max, ◌≡◌, refl, sym, ap, ap₂, ◌∙◌, ◌≢◌,
  ◌↔◌, ◌⊎◌, inl, inr, Bool, true, false, not, ◌&&◌, ◌||◌, Option, none, some, List, [], ◌∷◌, ◌++◌,
  map, append-nil, append_assoc, arith, ltb, leb, ◌==◌, if◌then◌else◌, ltb→lt, lt→ltb, leb→le,
  ==_iff, tests, Bool-cases, Option-cases, if_true, if_false, length, get_elem?, set, length-append,
  length-set, get_elem?-set_self, get_elem?-set_ne, get_or, take, drop, replicate, take-append-drop,
  length-take, length-drop, length-replicate, length-map,
}
use grbl_esp.System.{System, StepControl}
use grbl_esp.GCode.{SpindleState}
use grbl_esp.Planner.{PlanBlock, Indices, plan_next_block_index, plan_get_current_block, PlMotion}
use grbl_esp.Stepper.{Stepper, StBlock, segment_buffer_size, max_amass_level}

pub record MotionOps (F : Type 0) : Type 0 where
  pub plus : F → F → F
  pub minus : F → F → F
  pub times : F → F → F
  pub over : F → F → F
  pub root : F → F
  pub ceil : F → F
  pub less : F → F → Bool
  pub leq : F → F → Bool
  pub same : F → F → Bool
  pub of_uint : ℕ → F
  -- conversions to uint16_t and uint32_t
  pub to_u16 : F → ℕ
  pub to_u32 : F → ℕ
  -- 0.5, 2.0, 0.01, DT_SEGMENT, REQ_MM_INCREMENT_SCALAR, fStepperTimer * 60, MINIMUM_FEED_RATE
  pub half : F
  pub two : F
  pub hundredth : F
  pub dt_segment : F
  pub req_mm_increment_scalar : F
  pub ticks_per_minute : F
  pub minimum_feed_rate : F

-- Stepper.h, `fStepperTimer / 8000`
abbrev pub amass_threshold : ℕ
amass_threshold = 2500

-- the number of axes, and whether the spindle is a laser
pub record Drive : Type 0 where
  pub n_axis : ℕ
  pub in_laser_mode : Bool

pub record PrepFlag : Type 0 where
  pub recalculate : Bool
  pub hold_partial_block : Bool
  pub parking : Bool
  pub decel_override : Bool

abbrev pub no_prep_flag : PrepFlag
no_prep_flag = record {
  recalculate = false;
  hold_partial_block = false;
  parking = false;
  decel_override = false;
}

pub data RampType : Type 0 where
  ramp_accel ramp_cruise ramp_decel ramp_decel_override : RampType

-- `st_prep_t`
pub record StPrep (F : Type 0) : Type 0 where
  pub st_block_index : ℕ
  pub recalculate_flag : PrepFlag
  pub dt_remainder : F
  pub steps_remaining : F
  pub step_per_mm : F
  pub req_mm_increment : F
  pub last_st_block_index : ℕ
  pub last_steps_remaining : F
  pub last_step_per_mm : F
  pub last_dt_remainder : F
  pub ramp_type : RampType
  pub mm_complete : F
  pub current_speed : F
  pub maximum_speed : F
  pub exit_speed : F
  pub accelerate_until : F
  pub decelerate_after : F
  pub inv_rate : F
  pub current_spindle_rpm : F

-- the main program's side of the step generator, with the state that it reads and writes
pub record Motion (F : Type 0) : Type 0 where
  pub sys : System
  pub stepper : Stepper
  pub prep : StPrep F
  pub pl_block : Option ℕ
  pub st_prep_block : ℕ
  pub indices : Indices
  pub plan : ℕ → PlanBlock F

-- a place of an array is written
abbrev pub put {ℓ} : {A : Type ℓ} → ℕ → A → (ℕ → A) → ℕ → A
put i x f j = if i == j then x else f j

-- `st_next_block_index`, on a uint8_t
unfoldable pub st_next_block_index : ℕ → ℕ
st_next_block_index i = let n = (i + 1) % 2 ^ 8 in if n == segment_buffer_size - 1 then 0 else n

-- the bits of an axis mask
abbrev pub axis_bits : ℕ → ℕ → List Bool
axis_bits zero bits = []
axis_bits (suc n) bits = (bits % 2 == 1) ∷ axis_bits n (bits / 2)

-- Planner.cpp `plan_get_system_motion_block` and `plan_get_current_block`
unfoldable pub query_block : {F : Type 0} → Motion F → Option ℕ
query_block m =
    if m.sys.step_control.execute_sys_motion
    then some m.indices.head
    else plan_get_current_block m.indices

-- the Bresenham data of a block, shifted by the highest smoothing level, on uint32_t
abbrev pub shift_steps : ℕ → ℕ
shift_steps x = (x * 2 ^ max_amass_level) % 2 ^ 32

-- `pl_block->spindle == SpindleState::Ccw`, `pl_block->spindle != SpindleState::Disable`
abbrev pub is_ccw : SpindleState → Bool
is_ccw SpindleState.ccw = true
is_ccw _ = false

abbrev pub is_running : SpindleState → Bool
is_running SpindleState.disable = false
is_running _ = true

-- the Bresenham data of a new planner block
unfoldable pub bresenham_block : {F : Type 0} → Drive → PlanBlock F → StBlock
bresenham_block drive b = record {
  steps = map shift_steps b.steps;
  step_event_count = shift_steps b.step_event_count;
  direction_bits = axis_bits drive.n_axis b.direction_bits;
  is_pwm_rate_adjusted = drive.in_laser_mode && is_ccw b.spindle;
}

-- a new planner block is taken
unfoldable pub begin_block : {F : Type 0} → MotionOps F → Drive → ℕ → Motion F → Motion F
unfolding bresenham_block st_next_block_index
begin_block o drive i m =
    let b = m.plan i in
    let p = m.prep in
    let index = st_next_block_index p.st_block_index in
    let steps = o.of_uint b.step_event_count in
    let step_per_mm = o.over steps b.millimeters in
    let overrides = m.sys.step_control.execute_hold || p.recalculate_flag.decel_override in
    let entry = if overrides then o.times p.exit_speed p.exit_speed else b.entry_speed_sqr in
    record m {
      prep = record p {
        st_block_index = index;
        recalculate_flag = record p.recalculate_flag {
          decel_override = if overrides then false else p.recalculate_flag.decel_override;
        };
        steps_remaining = steps;
        step_per_mm = step_per_mm;
        req_mm_increment = o.over o.req_mm_increment_scalar step_per_mm;
        dt_remainder = o.of_uint 0;
        current_speed = if overrides then p.exit_speed else o.root b.entry_speed_sqr;
        inv_rate =
            if drive.in_laser_mode && is_ccw b.spindle
            then o.over (o.of_uint 1) b.programmed_rate
            else p.inv_rate;
      };
      st_prep_block = index;
      plan = put i (record b { entry_speed_sqr = entry }) m.plan;
      stepper = record m.stepper { blocks = put index (bresenham_block drive b) m.stepper.blocks };
    }

-- the flags when a block that was begun is only planned anew
abbrev pub recalculated : PrepFlag → PrepFlag
recalculated flag = if flag.parking then record flag { recalculate = false } else no_prep_flag
