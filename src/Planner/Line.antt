-- ===== src/Planner/Line.antt =====
-- Planner.cpp (Grbl_Esp32/src): `plan_buffer_line`, which plans a new motion, with the vector
-- routines of NutsBolts.cpp. Floats are a type F with the operations of MotionOps and LineOps; a
-- vector is the list of its axes. Positions in steps are integers, an int32_t wraps by `int32`.
pub mod Steps
pub mod Queued
mod Tests
use grbl_esp.Base.{
  ℕ, zero, suc, ◌+◌, ◌-◌, ◌*◌, ◌/◌, ◌%◌, ◌^◌, ◌≤◌, ◌<◌, min, max, ◌≡◌, refl, sym, ap, ap₂, ◌∙◌, ◌≢◌,
  ◌↔◌, ◌⊎◌, inl, inr, Bool, true, false, not, ◌&&◌, ◌||◌, Option, none, some, List, [], ◌∷◌, ◌++◌,
  map, append-nil, append_assoc, arith, ltb, leb, ◌==◌, if◌then◌else◌, ltb→lt, lt→ltb, leb→le,
  ==_iff, tests, Bool-cases, Option-cases, if_true, if_false, length, get_elem?, set, length-append,
  length-set, get_elem?-set_self, get_elem?-set_ne, get_or, take, drop, replicate, take-append-drop,
  length-take, length-drop, length-replicate, length-map,
}
use grbl_esp.Base.Int.{ℤ, ◌+ℤ◌, ◌-ℤ◌, int32}
use grbl_esp.System.{System}
use grbl_esp.GCode.{SpindleState, CoolantState}
use grbl_esp.Planner.{PlMotion, PlanBlock, Indices, push_block}
use grbl_esp.Planner.Recalculate.{SpeedOps, Plan, planner_recalculate}
use grbl_esp.Stepper.Prepare.{MotionOps, put}
use grbl_esp.Stepper.Prepare.Profile.{plan_compute_profile_nominal_speed}

pub record LineOps (F : Type 0) : Type 0 where
  -- `(float)i`, `lround`, `fabs`
  pub of_int : ℤ → F
  pub lround : F → ℤ
  pub fabs : F → F
  -- SOME_LARGE_VALUE, SEC_PER_MIN_SQ, 0.999999, MINIMUM_JUNCTION_SPEED squared
  pub some_large_value : F
  pub sec_per_min_sq : F
  pub near_one : F
  pub minimum_junction_speed_sqr : F

-- the settings of an axis
pub record AxisSettings (F : Type 0) : Type 0 where
  pub steps_per_mm : F
  pub acceleration : F
  pub max_rate : F

-- `plan_line_data_t`
pub record LineData (F : Type 0) : Type 0 where
  pub feed_rate : F
  pub spindle_speed : F
  pub motion : PlMotion
  pub spindle : SpindleState
  pub coolant : CoolantState

-- `planner_t pl`, the ring and the positions
pub record Planned (F : Type 0) : Type 0 where
  pub position : List ℤ
  pub previous_unit_vec : List F
  pub previous_nominal_speed : F
  pub indices : Indices
  pub plan : Plan F

-- one axis of a line: the steps, whether they go back, and where they lead
pub record AxisLine (F : Type 0) : Type 0 where
  pub steps : ℕ
  pub negative : Bool
  pub target_steps : ℤ
  pub delta_mm : F

abbrev pub labs : ℤ → ℕ
labs (ℤ.pos n) = n
labs (ℤ.negsuc n) = suc n

module _ {F : Type 0} (o : MotionOps F) (l : LineOps F) where
  open o use {plus, minus, times, over, root, less, same, of_uint, half}
  open l use {
    of_int, lround, fabs, some_large_value, sec_per_min_sq, near_one, minimum_junction_speed_sqr,
  }

  unfoldable pub axis_line : AxisSettings F → F → ℤ → AxisLine F
  axis_line settings target position =
      let target_steps = int32 (lround (times target settings.steps_per_mm)) in
      let distance = int32 (target_steps -ℤ position) in
      let delta_mm = over (of_int distance) settings.steps_per_mm in
      record {
        steps = labs distance;
        negative = less delta_mm (of_uint 0);
        target_steps = target_steps;
        delta_mm = delta_mm;
      }

  -- the loop over the axes
  unfoldable pub axis_lines : List (AxisSettings F) → List F → List ℤ → List (AxisLine F)
  unfolding axis_line
  axis_lines (a ∷ settings) (t ∷ target) (p ∷ position) =
      axis_line a t p ∷ axis_lines settings target position
  axis_lines _ _ _ = []

  -- `MAX(step_event_count, steps[idx])`
  abbrev pub max_steps : ℕ → List (AxisLine F) → ℕ
  max_steps count [] = count
  max_steps count (a ∷ axes) = max_steps (if ltb a.steps count then count else a.steps) axes

  -- `direction_bits |= bit(idx)`
  abbrev pub direction_mask : List (AxisLine F) → ℕ
  direction_mask [] = 0
  direction_mask (a ∷ axes) = (if a.negative then 1 else 0) + 2 * direction_mask axes

  abbrev pub sum_squares : F → List F → F
  sum_squares sum [] = sum
  sum_squares sum (x ∷ xs) =
      sum_squares (if same x (of_uint 0) then sum else plus sum (times x x)) xs

  -- NutsBolts.cpp, the unit vector and its magnitude
  unfoldable pub convert_delta_vector_to_unit_vector : List F → F × List F
  convert_delta_vector_to_unit_vector vector =
      let magnitude = root (sum_squares (of_uint 0) vector) in
      (magnitude, map (λ (x : F). times x (over (of_uint 1) magnitude)) vector)

  abbrev pub limit_by : (AxisSettings F → F) → F → List (AxisSettings F) → List F → F
  limit_by setting limit (a ∷ settings) (x ∷ xs) =
      let limit' = fabs (over (setting a) x) in
      limit_by setting
        (if same x (of_uint 0) then limit else if less limit limit' then limit else limit') settings
        xs
  limit_by setting limit _ _ = limit

  unfoldable pub limit_acceleration_by_axis_maximum : List (AxisSettings F) → List F → F
  limit_acceleration_by_axis_maximum settings unit_vec =
      times (limit_by (λ (a : AxisSettings F). a.acceleration) some_large_value settings unit_vec)
        sec_per_min_sq

  unfoldable pub limit_rate_by_axis_maximum : List (AxisSettings F) → List F → F
  limit_rate_by_axis_maximum settings unit_vec =
      limit_by (λ (a : AxisSettings F). a.max_rate) some_large_value settings unit_vec

  -- the sums of the junction, over both unit vectors
  abbrev pub cos_theta : F → List F → List F → F
  cos_theta sum (p ∷ previous) (u ∷ unit_vec) = cos_theta (minus sum (times p u)) previous unit_vec
  cos_theta sum _ _ = sum

  abbrev pub junction_vec : List F → List F → List F
  junction_vec (p ∷ previous) (u ∷ unit_vec) = minus u p ∷ junction_vec previous unit_vec
  junction_vec _ _ = []

  -- the speed limit of a junction
  unfoldable pub junction_speed :
      (junction_deviation : F) → List (AxisSettings F) → List F → List F → F
  unfolding convert_delta_vector_to_unit_vector limit_acceleration_by_axis_maximum
  junction_speed junction_deviation settings previous unit_vec =
      let cos = cos_theta (of_uint 0) previous unit_vec in
      let (magnitude, vec) = convert_delta_vector_to_unit_vector (junction_vec previous unit_vec) in
      let sin_theta_d2 = root (times half (minus (of_uint 1) cos)) in
      let speed =
        over
          (times (times (limit_acceleration_by_axis_maximum settings vec) junction_deviation)
            sin_theta_d2)
          (minus (of_uint 1) sin_theta_d2) in
      if less near_one cos
      then minimum_junction_speed_sqr
      else if less cos (minus (of_uint 0) near_one)
      then some_large_value
      else if less speed minimum_junction_speed_sqr
      then minimum_junction_speed_sqr
      else speed

  -- `plan_compute_profile_parameters`
  unfoldable pub plan_compute_profile_parameters :
      PlanBlock F → (nominal_speed prev_nominal_speed : F) → PlanBlock F
  plan_compute_profile_parameters b nominal_speed prev_nominal_speed =
      let limit =
        if less prev_nominal_speed nominal_speed
        then times prev_nominal_speed prev_nominal_speed
        else times nominal_speed nominal_speed in
      record b {
        max_entry_speed_sqr =
            if less b.max_junction_speed_sqr limit then b.max_junction_speed_sqr else limit;
      }

  -- the new block, up to its profile
  unfoldable pub line_block :
      (junction_deviation : F)
      → List (AxisSettings F)
      → LineData F
      → List (AxisLine F)
      → Planned F
      → PlanBlock F
  unfolding convert_delta_vector_to_unit_vector limit_acceleration_by_axis_maximum
      limit_rate_by_axis_maximum junction_speed
  line_block junction_deviation settings line axes s =
      let (millimeters, unit_vec) =
        convert_delta_vector_to_unit_vector (map (λ (a : AxisLine F). a.delta_mm) axes) in
      let rapid_rate = limit_rate_by_axis_maximum settings unit_vec in
      record {
        steps = map (λ (a : AxisLine F). a.steps) axes;
        step_event_count = max_steps 0 axes;
        direction_bits = direction_mask axes;
        motion = line.motion;
        spindle = line.spindle;
        coolant = line.coolant;
        entry_speed_sqr = of_uint 0;
        max_entry_speed_sqr = of_uint 0;
        acceleration = limit_acceleration_by_axis_maximum settings unit_vec;
        millimeters = millimeters;
        max_junction_speed_sqr =
            if (s.indices.head == s.indices.tail) || line.motion.system_motion
            then of_uint 0
            else junction_speed junction_deviation settings s.previous_unit_vec unit_vec;
        rapid_rate = rapid_rate;
        programmed_rate =
            if line.motion.rapid_motion
            then rapid_rate
            else if line.motion.inverse_time
            then times line.feed_rate millimeters
            else line.feed_rate;
        spindle_speed = line.spindle_speed;
      }

  abbrev pub speed_ops : SpeedOps F
  speed_ops = record { less = less; same = same; plus = plus; times = times; two = o.two }

  -- the block at the head is written
  abbrev pub set_block : ℕ → PlanBlock F → Planned F → Planned F
  set_block i b s = record s { plan = record s.plan { blocks = put i b s.plan.blocks } }

  -- a motion of the program is queued
  unfoldable pub queued_line :
      System → (unit_vec : List F) → List (AxisLine F) → PlanBlock F → Planned F → Planned F
  unfolding plan_compute_profile_parameters
  queued_line sys unit_vec axes b s =
      let nominal_speed = plan_compute_profile_nominal_speed o sys b in
      record (set_block s.indices.head
        (plan_compute_profile_parameters b nominal_speed s.previous_nominal_speed) s) {
          previous_nominal_speed = nominal_speed;
          previous_unit_vec = unit_vec;
          position = map (λ (a : AxisLine F). a.target_steps) axes;
          indices = push_block s.indices;
        }

  -- with the plan made anew
  abbrev pub replanned : Planned F → Option (Indices × Plan F) → Option (Planned F × Bool)
  replanned s none = none
  replanned s (some (indices, plan)) = some (record s { indices = indices; plan = plan }, true)

  unfoldable pub queue_line :
      System
      → (unit_vec : List F) → List (AxisLine F)
      → PlanBlock F
      → Planned F
      → Option (Planned F × Bool)
  unfolding queued_line
  queue_line sys unit_vec axes b s =
      let t = queued_line sys unit_vec axes b s in
      replanned t (planner_recalculate speed_ops t.indices t.plan)

  -- `true` for PLAN_OK; `none` where the planning has not ended
  unfoldable pub plan_buffer_line :
      System
      → (sys_position : List ℤ) → (junction_deviation : F) → List (AxisSettings F)
      → (target : List F) → LineData F
      → Planned F
      → Option (Planned F × Bool)
  unfolding axis_lines line_block queue_line convert_delta_vector_to_unit_vector
  plan_buffer_line sys sys_position junction_deviation settings target line s =
      let position = if line.motion.system_motion then sys_position else s.position in
      let axes = axis_lines settings target position in
      let b = line_block junction_deviation settings line axes s in
      if b.step_event_count == 0
      then some (
        set_block s.indices.head
            (record b {
              millimeters = of_uint 0;
              acceleration = of_uint 0;
              rapid_rate = of_uint 0;
              programmed_rate = of_uint 0;
              max_junction_speed_sqr = of_uint 0;
            })
            s,
        false,
      )
      else if line.motion.system_motion
      then some (set_block s.indices.head b s, true)
      else queue_line sys
          (convert_delta_vector_to_unit_vector (map (λ (a : AxisLine F). a.delta_mm) axes)).1 axes b
          s
