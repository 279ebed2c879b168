-- ===== src/Planner/Line/Tests.antt =====
-- A line of three steps forth on one axis and two back on another, with whole numbers for floats.
use grbl_esp.Base.{
  ℕ, ◌%◌, ◌≡◌, refl, Bool, true, false, not, ◌&&◌, none, some, List, [], ◌∷◌, map, arith, ◌==◌,
}
use grbl_esp.Base.Int.{ℤ, ◌+ℤ◌, ◌-ℤ◌, ◌*ℤ◌, ltb_ℤ, pos_part, int32}
use grbl_esp.System.{State, fresh_system}
use grbl_esp.GCode.{SpindleState}
use grbl_esp.Planner.{PlanBlock, plan_reset_buffer, plan_check_full_buffer}
use grbl_esp.Planner.Ring.{reset-IsValid}
use grbl_esp.Stepper.Prepare.{MotionOps}
use grbl_esp.Planner.Line.Steps.{AllFit}
use grbl_esp.Planner.Profiles.{plan_update_velocity_profile_parameters}
use grbl_esp.Planner.Profiles.Limited.{
  AreLimited, plan_update_velocity_profile_parameters-AreLimited,
}
use grbl_esp.Planner.Line.{
  LineOps, AxisSettings, AxisLine, LineData, Planned, axis_line, axis_lines, line_block,
  plan_buffer_line,
}
use grbl_esp.Planner.Line.Queued.{IsPlanned, IsQueued, plan_buffer_line-IsPlanned}

abbrev whole : MotionOps ℤ
whole = record {
  plus = λ a b. a +ℤ b;
  minus = λ a b. a -ℤ b;
  times = λ a b. a *ℤ b;
  over = λ a b. a;
  root = λ a. a;
  ceil = λ a. a;
  less = ltb_ℤ;
  leq = λ a b. not (ltb_ℤ b a);
  same = λ a b. not (ltb_ℤ a b) && not (ltb_ℤ b a);
  of_uint = ℤ.pos;
  to_u16 = λ a. pos_part a % 65536;
  to_u32 = λ a. pos_part a % 4294967296;
  half = ℤ.pos 1;
  two = ℤ.pos 2;
  hundredth = ℤ.pos 1;
  dt_segment = ℤ.pos 1;
  req_mm_increment_scalar = ℤ.pos 1;
  ticks_per_minute = ℤ.pos 3000;
  minimum_feed_rate = ℤ.pos 1;
}

abbrev whole_line : LineOps ℤ
whole_line = record {
  of_int = λ i. i;
  lround = λ a. a;
  fabs = λ a. a;
  some_large_value = ℤ.pos 1000000;
  sec_per_min_sq = ℤ.pos 3600;
  near_one = ℤ.pos 1;
  minimum_junction_speed_sqr = ℤ.pos 0;
}

abbrev axis : AxisSettings ℤ
axis = record { steps_per_mm = ℤ.pos 1; acceleration = ℤ.pos 10; max_rate = ℤ.pos 100 }

abbrev line : LineData ℤ
line = record {
  feed_rate = ℤ.pos 50;
  spindle_speed = ℤ.pos 0;
  motion = record {
    rapid_motion = false;
    system_motion = false;
    no_feed_override = false;
    inverse_time = false;
  };
  spindle = SpindleState.disable;
  coolant = record { mist = false; flood = false };
}

abbrev no_block : PlanBlock ℤ
no_block = record {
  steps = [];
  step_event_count = 0;
  direction_bits = 0;
  motion = line.motion;
  spindle = SpindleState.disable;
  coolant = line.coolant;
  entry_speed_sqr = ℤ.pos 0;
  max_entry_speed_sqr = ℤ.pos 0;
  acceleration = ℤ.pos 0;
  millimeters = ℤ.pos 0;
  max_junction_speed_sqr = ℤ.pos 0;
  rapid_rate = ℤ.pos 0;
  programmed_rate = ℤ.pos 0;
  spindle_speed = ℤ.pos 0;
}

abbrev empty : Planned ℤ
empty = record {
  position = ℤ.pos 10 ∷ ℤ.pos 10 ∷ [];
  previous_unit_vec = ℤ.pos 0 ∷ ℤ.pos 0 ∷ [];
  previous_nominal_speed = ℤ.pos 0;
  indices = plan_reset_buffer;
  plan = record {
    blocks = λ i. no_block;
    prep = record { pl_block = none; current_speed = ℤ.pos 0; recalculate = false };
  };
}

abbrev target : List ℤ
target = ℤ.pos 13 ∷ ℤ.pos 8 ∷ []

abbrev axes : List (AxisLine ℤ)
axes = axis_lines whole whole_line (axis ∷ axis ∷ []) target empty.position

-- the steps and directions of the block
steps_of :
    map {B = ℕ × Bool} (λ (a : AxisLine ℤ). (a.steps, a.negative)) axes
    ≡ (3, false) ∷ (2, true) ∷ []
unfolding axis_lines axis_line ◌-ℤ◌ ◌*ℤ◌ int32
steps_of = refl

room : plan_check_full_buffer empty.indices ≡ false
unfolding plan_check_full_buffer plan_reset_buffer
room = refl

axes_fit : AllFit whole whole_line (axis ∷ axis ∷ []) target empty.position
unfolding ◌-ℤ◌ ◌*ℤ◌
axes_fit = (omega arith, omega arith, (omega arith, omega arith, tt))

plan_buffer_line-IsPlanned_example :
    let b = line_block whole whole_line (ℤ.pos 0) (axis ∷ axis ∷ []) line axes empty in
    IsPlanned whole whole_line (axis ∷ axis ∷ []) target empty.position axes b
    × (t : Planned ℤ) × (plan_buffer_line whole whole_line
          (fresh_system State.idle)
          []
          (ℤ.pos 0)
          (axis ∷ axis ∷ [])
          target
          line
          empty
        ≡ some (t, not (b.step_event_count == 0)))
    × IsQueued whole whole_line (not (b.step_event_count == 0) && true) axes b empty t
plan_buffer_line-IsPlanned_example =
    plan_buffer_line-IsPlanned whole whole_line (fresh_system State.idle) [] (ℤ.pos 0)
      (axis ∷ axis ∷ []) target line empty reset-IsValid room
      (record { sign = λ i. refl }, (record { sign = λ i. refl }, tt)) axes_fit

irreflexive : (a : ℤ) → ltb_ℤ a a ≡ false
irreflexive a = ground arith

plan_update_velocity_profile_parameters-AreLimited_example :
    (t : Planned ℤ) × (plan_update_velocity_profile_parameters whole whole_line
        (fresh_system State.idle)
        empty
      ≡ some t)
    × AreLimited whole whole_line t
    × (t.indices ≡ empty.indices)
plan_update_velocity_profile_parameters-AreLimited_example =
    plan_update_velocity_profile_parameters-AreLimited whole whole_line (fresh_system State.idle)
      empty irreflexive reset-IsValid (λ j. refl)
